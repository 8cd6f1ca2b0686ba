-- ===== src/Party/Sender.antt =====
-- The shipper that an operation takes for a contact (wms/shipment_party_rules.py,
-- `resolve_shipper_for_operation`).
use asf_wms.Prelude.{
  ℕ, ◌≡◌, ◌⊎◌, sym, ap, ◌∙◌, inl, inr, true, not, eq_option, filter, filter-test, or_else, Option,
  none, some, Option-cases, arith, ok, or_raise, raise_if,
}
use asf_wms.Prelude.Results.{>>=-eq-ok, ok_transport, or_raise-eq-ok}
use asf_wms.Prelude.Table.{find, find-key}
use asf_wms.Party.{Directory, Contact, Destination, ShipmentShipper, shipper_organization}
use asf_wms.Party.Eligible.{is_valid_shipper, eligible_shippers_for_stopover}
use asf_wms.Party.Resolve.{
  shipper_required, shipper_review_pending, shipper_out_of_scope, first_of, shipper_of,
  normalize_party_contact_to_org, shipment_shipper_record, is_among_shippers,
  resolve_shipper_for_operation,
}
use asf_wms.Party.Recipients.{first_of-All}
use asf_wms.Party.Structure.{IsStructureOf, normalized-IsStructureOf, given_contact}

-- The shipper's default contact or its organization is the structure of the contact, taken twice.
pub record IsSender (d : Directory) (shipper_contact : Option Contact) (s : ShipmentShipper)
    : Type 0 where
  pub contact : Contact
  pub own : Contact
  pub structure : Contact
  pub contact_given : shipper_contact ≡ some contact
  pub own_structure : IsStructureOf d contact own
  pub structure_of_own : IsStructureOf d own structure
  pub shipper_of_structure :
      (s.default_contact ≡ some structure.id) ⊎ (s.organization ≡ structure.id)

eq_option-same : (a : Option ℕ) (k : ℕ) → eq_option a (some k) ≡ true → a ≡ some k
eq_option-same none k h = cc
eq_option-same (some j) k h = ap some (ground (arith, h))

shipper_of-found :
    (d : Directory) (o : Contact) {s : ShipmentShipper}
    → shipper_of d (some o) ≡ some s
    → (s.default_contact ≡ some o.id) ⊎ (s.organization ≡ o.id)
shipper_of-found d o {s} h =
    let valid = filter (is_valid_shipper d) d.shippers in
    let by_default = λ (t : ShipmentShipper). eq_option t.default_contact (some o.id) in
    elim (Option-cases (first_of (filter by_default valid))) [
      | inl nothing ↦ inr (
          find-key shipper_organization o.id valid
            (sym (ap (λ f. or_else f (find shipper_organization o.id valid)) nothing) ∙ h))
      | inr (t, default) ↦
          let first =
            default
            ∙ sym (ap (λ f. or_else f (find shipper_organization o.id valid)) default)
            ∙ h in
          inl (
            eq_option-same s.default_contact o.id (
              first_of-All (λ t. by_default t ≡ true) (filter by_default valid)
                (filter-test by_default valid) first))
    ]

record_found :
    (d : Directory) (c : Option Contact) {s : ShipmentShipper}
    → shipment_shipper_record d c ≡ some s
    → (o : Contact) × (normalize_party_contact_to_org d c ≡ some o)
      × (shipper_of d (some o) ≡ some s)
unfolding shipment_shipper_record
record_found d c h = elim (Option-cases (normalize_party_contact_to_org d c)) [
  | inl nobody ↦ absurd (cc)
  | inr (o, known_) ↦ (o, known_, sym (ap (shipper_of d) known_) ∙ h)
]

pub resolve_shipper_for_operation-IsSender :
    (d : Directory) (shipper_contact : Option Contact) (x : Destination) {s : ShipmentShipper}
    → resolve_shipper_for_operation d shipper_contact (some x) ≡ ok s
    → IsSender d shipper_contact s
unfolding resolve_shipper_for_operation
resolve_shipper_for_operation-IsSender d shipper_contact x {s} h =
    let (o, contact, h1) =
      >>=-eq-ok (or_raise (normalize_party_contact_to_org d shipper_contact) shipper_required) _
        h in
    let (t, record_, h2) =
      >>=-eq-ok (or_raise (shipment_shipper_record d (some o)) shipper_review_pending) _ h1 in
    let (_, _, done) =
      >>=-eq-ok
        (raise_if (not (is_among_shippers t (eligible_shippers_for_stopover d (some x))))
          shipper_out_of_scope)
        _ h2 in
    let (given, is_given, own) = given_contact d shipper_contact (
      or_raise-eq-ok (normalize_party_contact_to_org d shipper_contact) shipper_required contact) in
    let (structure, known_, found) =
      record_found d (some o)
        (or_raise-eq-ok (shipment_shipper_record d (some o)) shipper_review_pending record_) in
    ok_transport (IsSender d shipper_contact) done (record {
      contact = given;
      own = o;
      structure = structure;
      contact_given = is_given;
      own_structure = own;
      structure_of_own = normalized-IsStructureOf d o known_;
      shipper_of_structure = shipper_of-found d structure found;
    })
