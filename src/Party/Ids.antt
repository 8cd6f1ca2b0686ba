-- ===== src/Party/Ids.antt =====
-- The ids of the contacts that the form offers as recipients (wms/shipment_party_rules.py).
use asf_wms.Prelude.{
  any-All, ℕ, ◌==◌, ◌≡◌, refl, sym, ap, ◌∙◌, inl, inr, Bool, true, false, ◌&&◌, elem, Option, some,
  List, [], ◌∷◌, ◌++◌, All, Bool-cases, arith, if◌then◌else◌,
}
use mathlib.Core.Path.{subst}
use asf_wms.Prelude.Table.{find, find-All}
use asf_wms.Party.{
  Directory, Contact, ContactType, Destination, ShipmentShipper, ShipmentRecipientOrganization,
  ShipmentRecipientContact, ShipmentShipperRecipientLink, ShipmentAuthorizedRecipientContact,
  recipient_organization, recipient_contact_pk, link_pk,
}
use asf_wms.Party.Eligible.{eligible_recipient_organizations_for_shipper}
use asf_wms.Party.Resolve.{normalize_party_contact_to_org, shipper_of, is_among_recipients}
use asf_wms.Party.Offered.{
  organization_ids, is_link_of, is_contact_at, authorized_contact, authorized_contacts,
  recipient_contact_ids,
}
use asf_wms.Party.Clean.{IsClean, IsMember, IsCleanContact, IsCleanAuthorization}
use asf_wms.Party.Bound.{
  IsEligible, BindsKey, binds_organization, binds_member, IsEligible-recipients,
}

eq_of : (j k : ℕ) → (j == k) ≡ true → j ≡ k
eq_of j k h = ground arith

last_of : (a b c : Bool) → (a && b && c) ≡ true → c ≡ true
last_of a b c h = ground (arith, h)

middle_of : (a b c : Bool) → (a && b && c) ≡ true → b ≡ true
middle_of a b c h = ground (arith, h)

skip_taken :
    (j k : ℕ) (test : Bool) (more : List ℕ)
    → (j == k) ≡ false
    → elem k ((if test then j ∷ [] else []) ++ more) ≡ true
    → elem k more ≡ true
skip_taken j k true more other e = ground (arith, other, e)
skip_taken j k false more other e = e

skip_none :
    (j k : ℕ) (test : Bool) (more : List ℕ)
    → test ≡ false
    → elem k ((if test then j ∷ [] else []) ++ more) ≡ true
    → elem k more ≡ true
skip_none j k true more h e = absurd (cc)
skip_none j k false more h e = e

-- An authorization whose link and contact are stored.
authorized_lem :
    (d : Directory) (s : ShipmentShipper) (rs : List ShipmentRecipientOrganization) (x : ℕ)
    (a : ShipmentAuthorizedRecipientContact) (l : ShipmentShipperRecipientLink)
    (c : ShipmentRecipientContact)
    → find link_pk a.link d.links ≡ some l
    → find recipient_contact_pk a.recipient_contact d.recipient_contacts ≡ some c
    → authorized_contact d s rs x a
      ≡ (if a.is_active && is_link_of s rs l && is_contact_at d x c then c.contact ∷ [] else [])
unfolding authorized_contact
authorized_lem d s rs x a l c link contact = rw (authorized_contact, link, contact) refl

module _ (d : Directory) (clean : IsClean d) (shipper_contact : Option Contact) (x : Destination)
    (active : x.is_active ≡ true) {o : Contact}
    (norm : normalize_party_contact_to_org d shipper_contact ≡ some o)
    (kind : o.contact_type ≡ ContactType.organization) {s : ShipmentShipper}
    (shipper : shipper_of d (some o) ≡ some s) where
  abbrev Binds : ℕ → Type 0
  Binds k = BindsKey d clean shipper_contact x active norm kind shipper k

  abbrev recipients : List ShipmentRecipientOrganization
  recipients = eligible_recipient_organizations_for_shipper d s (some x)

  abbrev IsListed : ShipmentRecipientOrganization → Type 0
  IsListed r =
      IsEligible d clean shipper_contact x active norm kind shipper r
      × (is_among_recipients r recipients ≡ true)

  organization_ids-Binds :
      (k : ℕ) (rs : List ShipmentRecipientOrganization) (more : List ℕ)
      → All IsListed rs
      → (elem k more ≡ true → Binds k)
      → elem k (organization_ids rs ++ more) ≡ true
      → Binds k
  unfolding organization_ids
  organization_ids-Binds k [] more h later e = later e
  organization_ids-Binds k (r ∷ rs) more h later e = elim (Bool-cases (r.organization == k)) [
    | inl here ↦
        subst Binds (eq_of r.organization k here)
          (binds_organization d clean shipper_contact x active norm kind shipper r h.0.0 h.0.1)
    | inr next ↦ organization_ids-Binds k rs more h.1 later (ground (arith, e))
  ]

  contact-Binds :
      (l : ShipmentShipperRecipientLink) (c : ShipmentRecipientContact)
      → is_link_of s recipients l ≡ true
      → c.recipient_organization ≡ l.recipient_organization
      → IsCleanContact d c
      → Binds c.contact
  unfolding is_link_of
  contact-Binds l c link same (r', stored, member) =
      let listed = IsEligible-recipients d clean shipper_contact x active norm kind shipper in
      let test = λ (r : ShipmentRecipientOrganization). r.id == l.recipient_organization in
      let (r, is_listed, key) =
        any-All IsListed test recipients listed (last_of (l.shipper == s.id) l.is_active _ link) in
      let eq : r.id ≡ l.recipient_organization = eq_of r.id l.recipient_organization key in
      let one : r' ≡ r = cc (stored, is_listed.0.1, same, eq) in
      binds_member d clean shipper_contact x active norm kind shipper r c.contact is_listed.0
        is_listed.1 (subst (λ t. IsMember d (recipient_organization t) c.contact) one member)

  authorized_contact-Binds :
      (k : ℕ) (a : ShipmentAuthorizedRecipientContact) (more : List ℕ)
      → IsCleanAuthorization d a
      → (elem k more ≡ true → Binds k)
      → elem k (authorized_contact d s recipients x.id a ++ more) ≡ true
      → Binds k
  authorized_contact-Binds k a more (l, c, link, contact, same) later e =
      let test = a.is_active && is_link_of s recipients l && is_contact_at d x.id c in
      let read = authorized_lem d s recipients x.id a l c link contact in
      let e' = sym (ap (λ ids. elem k (ids ++ more)) read) ∙ e in
      elim (Bool-cases test) [
        | inl passes ↦ elim (Bool-cases (c.contact == k)) [
          | inl here ↦ subst Binds (eq_of c.contact k here) (
              contact-Binds l c (middle_of a.is_active _ _ passes) same (
                find-All recipient_contact_pk (IsCleanContact d) a.recipient_contact
                  d.recipient_contacts clean.recipient_contacts contact))
          | inr other ↦ later (skip_taken c.contact k test more other e')
        ]
        | inr fails ↦ later (skip_none c.contact k test more fails e')
      ]

  authorized_contacts-Binds :
      (k : ℕ) (as_ : List ShipmentAuthorizedRecipientContact)
      → All (IsCleanAuthorization d) as_
      → elem k (authorized_contacts d s recipients x.id as_) ≡ true
      → Binds k
  unfolding authorized_contacts
  authorized_contacts-Binds k [] h e = absurd (cc)
  authorized_contacts-Binds k (a ∷ as_) h e =
      authorized_contact-Binds k a (authorized_contacts d s recipients x.id as_) h.0
        (λ e'. authorized_contacts-Binds k as_ h.1 e') e

  pub offered-Binds : (k : ℕ) → elem k (recipient_contact_ids d s x) ≡ true → Binds k
  unfolding recipient_contact_ids
  offered-Binds k e =
      organization_ids-Binds k recipients (authorized_contacts d s recipients x.id d.authorized)
        (IsEligible-recipients d clean shipper_contact x active norm kind shipper)
        (λ e'. authorized_contacts-Binds k d.authorized clean.authorized e') e
