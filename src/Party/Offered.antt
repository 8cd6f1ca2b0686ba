-- ===== src/Party/Offered.antt =====
-- The contacts that the forms offer for a shipment (wms/shipment_party_rules.py).
use asf_wms.Prelude.{
  ℕ, ◌==◌, elem, Bool, false, ◌&&◌, Option, none, some, List, [], ◌∷◌, ◌++◌, any, filter,
  if◌then◌else◌,
}
use asf_wms.Prelude.Table.{find}
use asf_wms.Party.{
  Directory, Contact, Destination, ShipmentShipper, ShipmentRecipientOrganization,
  ShipmentRecipientContact, ShipmentShipperRecipientLink, ShipmentAuthorizedRecipientContact,
  recipient_pk, recipient_contact_pk, link_pk, is_validated, contact_is_active,
}
use asf_wms.Party.Eligible.{
  eligible_shippers_for_stopover, eligible_recipient_organizations_for_shipper,
}
use asf_wms.Party.Resolve.{shipment_shipper_record}

-- `_active_contacts_for_ids`
unfoldable pub active_contacts_for_ids : Directory → List ℕ → List Contact
active_contacts_for_ids d ids = filter (λ (c : Contact). elem c.id ids && c.is_active) d.contacts

abbrev pub present : Option ℕ → List ℕ
present none = []
present (some k) = k ∷ []

unfoldable pub shipper_contact_ids : List ShipmentShipper → List ℕ
shipper_contact_ids [] = []
shipper_contact_ids (s ∷ ss) = s.organization ∷ present s.default_contact ++ shipper_contact_ids ss

unfoldable pub eligible_shipper_contacts_for_destination :
    Directory → Option Destination → List Contact
eligible_shipper_contacts_for_destination d destination =
    active_contacts_for_ids d (shipper_contact_ids (eligible_shippers_for_stopover d destination))

unfoldable pub organization_ids : List ShipmentRecipientOrganization → List ℕ
organization_ids [] = []
organization_ids (r ∷ rs) = r.organization ∷ organization_ids rs

-- The link of an authorization is an active link of the shipper to one of the recipients.
unfoldable pub is_link_of :
    ShipmentShipper → List ShipmentRecipientOrganization → ShipmentShipperRecipientLink → Bool
is_link_of s rs l =
    (l.shipper == s.id)
    && l.is_active
    && any (λ (r : ShipmentRecipientOrganization). r.id == l.recipient_organization) rs

-- The recipient contact of an authorization is active, and that of a validated recipient at the
-- destination.
unfoldable pub is_contact_at : Directory → ℕ → ShipmentRecipientContact → Bool
is_contact_at d destination c =
    c.is_active
    && contact_is_active d c.contact
    && elim (find recipient_pk c.recipient_organization d.recipients) [
      | none ↦ false
      | some r ↦ r.is_active && is_validated r.validation_status && (r.destination == destination)
    ]

unfoldable pub authorized_contact :
    Directory
    → ShipmentShipper
    → List ShipmentRecipientOrganization
    → ℕ
    → ShipmentAuthorizedRecipientContact
    → List ℕ
authorized_contact d s rs destination a = elim (find link_pk a.link d.links) [
  | none ↦ []
  | some l ↦ elim (find recipient_contact_pk a.recipient_contact d.recipient_contacts) [
    | none ↦ []
    | some c ↦
        if a.is_active && is_link_of s rs l && is_contact_at d destination c
        then c.contact ∷ []
        else []
  ]
]

unfoldable pub authorized_contacts :
    Directory
    → ShipmentShipper
    → List ShipmentRecipientOrganization
    → ℕ
    → List ShipmentAuthorizedRecipientContact
    → List ℕ
authorized_contacts d s rs destination [] = []
authorized_contacts d s rs destination (a ∷ as_) =
    authorized_contact d s rs destination a ++ authorized_contacts d s rs destination as_

-- Without recipients no contact is offered: there is then no id.
unfoldable pub recipient_contact_ids : Directory → ShipmentShipper → Destination → List ℕ
recipient_contact_ids d s x =
    let rs = eligible_recipient_organizations_for_shipper d s (some x) in
    organization_ids rs ++ authorized_contacts d s rs x.id d.authorized

abbrev pub contacts_from : Directory → Option ShipmentShipper → Destination → List Contact
contacts_from d none x = []
contacts_from d (some s) x = active_contacts_for_ids d (recipient_contact_ids d s x)

unfoldable pub eligible_recipient_contacts_for_shipper_destination :
    Directory → Option Contact → Option Destination → List Contact
eligible_recipient_contacts_for_shipper_destination d shipper_contact none = []
eligible_recipient_contacts_for_shipper_destination d shipper_contact (some x) =
    if x.is_active then contacts_from d (shipment_shipper_record d shipper_contact) x else []
