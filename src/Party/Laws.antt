-- ===== src/Party/Laws.antt =====
-- What the forms offer, the operations accept (wms/shipment_party_rules.py).
use asf_wms.Prelude.{
  ℕ, ◌≡◌, sym, ap, ◌∙◌, inl, inr, Bool, true, ◌&&◌, elem, filter, filter-test, Option, some, List,
  [], All, All-filter, All-both, Bool-cases, Option-cases, arith, if◌then◌else◌, ok,
}
use mathlib.Core.Path.{subst}
use asf_wms.Prelude.Table.{find, All-found}
use asf_wms.Party.{Directory, Contact, ContactType, Destination, contact_pk}
use asf_wms.Party.Resolve.{
  Binding, normalize_party_contact_to_org, shipper_of, shipment_shipper_record,
  resolve_recipient_binding_for_operation,
}
use asf_wms.Party.Offered.{
  active_contacts_for_ids, recipient_contact_ids, contacts_from,
  eligible_recipient_contacts_for_shipper_destination,
}
use asf_wms.Party.Clean.{IsClean}
use asf_wms.Party.Ids.{offered-Binds}

offered_id :
    (ids : List ℕ) (c : Contact) → (elem c.id ids && c.is_active) ≡ true → elem c.id ids ≡ true
offered_id ids c h = ground (arith, h)

-- If the directory is as the checks at its saving leave it, and the contact given as shipper stands for
-- a structure, every contact that the form offers as recipient for this shipper and destination is
-- accepted: the operation finds a binding of the shipper with its structure.
pub offered_recipients-accepted :
    (d : Directory) (clean : IsClean d) (shipper_contact : Option Contact) (x : Destination)
    {o : Contact}
    → normalize_party_contact_to_org d shipper_contact ≡ some o
    → o.contact_type ≡ ContactType.organization
    → All
        (λ (c : Contact).
          (b : Binding) × (resolve_recipient_binding_for_operation d shipper_contact
              (some c)
              (some x)
            ≡ ok b))
        (eligible_recipient_contacts_for_shipper_destination d shipper_contact (some x))
unfolding eligible_recipient_contacts_for_shipper_destination shipment_shipper_record
    active_contacts_for_ids
offered_recipients-accepted d clean shipper_contact x {o} norm kind =
    let accepted : Contact → Type 0 = λ c.
      (b : Binding) × (resolve_recipient_binding_for_operation d shipper_contact (some c) (some x)
        ≡ ok b) in
    let list_for = λ (y : Option Contact). contacts_from d (shipper_of d y) x in
    let by_test =
      λ (b : Bool). if b then list_for (normalize_party_contact_to_org d shipper_contact) else [] in
    elim (Bool-cases x.is_active) [
      | inr closed ↦ subst (All accepted) (sym (ap by_test closed)) tt
      | inl active ↦ elim (Option-cases (shipper_of d (some o))) [
        | inl unknown ↦
            subst (All accepted)
              (sym (ap by_test active ∙ ap list_for norm ∙ ap (λ t. contacts_from d t x) unknown))
              tt
        | inr (s, shipper) ↦
            let ids = recipient_contact_ids d s x in
            let p = λ (c : Contact). elem c.id ids && c.is_active in
            let stored : Contact → Type 0 =
              λ c. find contact_pk (contact_pk c) d.contacts ≡ some c in
            let offered : Contact → Type 0 = λ c. p c ≡ true in
            subst (All accepted)
              (sym (ap by_test active ∙ ap list_for norm ∙ ap (λ t. contacts_from d t x) shipper))
              (All-both stored offered accepted (filter p d.contacts)
                (λ c here h.
                  offered-Binds d clean shipper_contact x active norm kind shipper c.id
                    (offered_id ids c h) c here)
                (All-filter stored p d.contacts (All-found contact_pk d.contacts clean.contacts))
                (filter-test p d.contacts))
      ]
    ]
