-- ===== src/Party/Clean.antt =====
-- What the `clean` methods of the parties check at every saving
-- (wms/models_domain/shipment_parties.py), with the unique constraints and the foreign keys.
use asf_wms.Prelude.{ℕ, ◌≡◌, refl, Option, none, some, All}
use asf_wms.Prelude.Table.{find, Distinct}
use asf_wms.Party.{
  Directory, Contact, ContactType, ShipmentShipper, ShipmentRecipientOrganization,
  ShipmentRecipientContact, ShipmentShipperRecipientLink, ShipmentAuthorizedRecipientContact,
  contact_pk, shipper_organization, recipient_pk, recipient_organization, recipient_contact_pk,
  link_pk,
}
use asf_wms.Party.Resolve.{normalize_party_contact_to_org}

-- The key is that of a structure.
abbrev pub IsOrganization : Directory → ℕ → Type 0
IsOrganization d k =
    (o : Contact) × (find contact_pk k d.contacts ≡ some o)
    × (o.contact_type ≡ ContactType.organization)

-- The key is that of a person of the structure.
abbrev pub IsMember : Directory → ℕ → ℕ → Type 0
IsMember d o k =
    (c : Contact) × (find contact_pk k d.contacts ≡ some c)
    × (c.contact_type ≡ ContactType.person)
    × (c.organization ≡ some o)

abbrev pub IsMemberOrNone : Directory → ℕ → Option ℕ → Type 0
IsMemberOrNone d o none = Unit
IsMemberOrNone d o (some k) = IsMember d o k

-- The recipient contact is a person of its recipient.
abbrev pub IsCleanContact : Directory → ShipmentRecipientContact → Type 0
IsCleanContact d c =
    (r : ShipmentRecipientOrganization) × (find recipient_pk c.recipient_organization d.recipients
      ≡ some r)
    × IsMember d r.organization c.contact

-- The link and the contact of the authorization have one recipient.
abbrev pub IsCleanAuthorization : Directory → ShipmentAuthorizedRecipientContact → Type 0
IsCleanAuthorization d a =
    (l : ShipmentShipperRecipientLink) × (c : ShipmentRecipientContact) × (find link_pk a.link
        d.links
      ≡ some l)
    × (find recipient_contact_pk a.recipient_contact d.recipient_contacts ≡ some c)
    × (c.recipient_organization ≡ l.recipient_organization)

pub record IsClean (d : Directory) : Type 0 where
  pub contacts : Distinct contact_pk d.contacts
  pub shipper_organizations : All (λ s. IsOrganization d (shipper_organization s)) d.shippers
  pub default_contacts :
      All (λ (s : ShipmentShipper). IsMemberOrNone d s.organization s.default_contact) d.shippers
  pub one_shipper : Distinct shipper_organization d.shippers
  pub recipient_organizations : All (λ r. IsOrganization d (recipient_organization r)) d.recipients
  pub recipient_keys : Distinct recipient_pk d.recipients
  pub one_recipient : Distinct recipient_organization d.recipients
  pub recipient_contacts : All (IsCleanContact d) d.recipient_contacts
  pub authorized : All (IsCleanAuthorization d) d.authorized

pub normalize-organization :
    (d : Directory) (o : Contact)
    → o.contact_type ≡ ContactType.organization
    → normalize_party_contact_to_org d (some o) ≡ some o
unfolding normalize_party_contact_to_org
normalize-organization d o h = rw h refl

pub normalize-member :
    (d : Directory) (c : Contact) (k : ℕ)
    → c.contact_type ≡ ContactType.person
    → c.organization ≡ some k
    → normalize_party_contact_to_org d (some c) ≡ find contact_pk k d.contacts
unfolding normalize_party_contact_to_org
normalize-member d c k h g = rw (h, g) refl
