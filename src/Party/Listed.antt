-- ===== src/Party/Listed.antt =====
-- What a recipient that is found, and one among the eligible, is (wms/shipment_party_rules.py).
use asf_wms.Prelude.{
  ℕ, ◌==◌, Option-cases, ◌≡◌, sym, ap, ◌∙◌, inl, inr, Bool, true, false, ◌&&◌, any, any-All, filter,
  filter-test, Option, some, List, [], All-filter, All-both, Bool-cases, arith, if◌then◌else◌,
}
use asf_wms.Prelude.OrderBy.{order_by, All-order_by}
use asf_wms.Party.{
  Directory, Contact, Destination, ShipmentShipper, ShipmentRecipientOrganization, is_validated,
  destination_is_active,
}
use asf_wms.Party.Eligible.{
  is_valid_recipient, is_valid_at, receives_from, is_stored_valid,
  eligible_recipient_organizations_for_shipper,
}
use asf_wms.Party.Resolve.{
  recipient_of, recipient_key, is_recipient, normalize_party_contact_to_org,
  shipment_recipient_organization_record, is_among_recipients,
}
use asf_wms.Party.Recipients.{first_of-All}

pub listed-recipients :
    (d : Directory) (s : ShipmentShipper) (x : Destination) (r : ShipmentRecipientOrganization)
    → is_among_recipients r (eligible_recipient_organizations_for_shipper d s (some x)) ≡ true
    → (x.is_active ≡ true)
      × (is_stored_valid d s ≡ true)
      × ((t : ShipmentRecipientOrganization) × (is_valid_at d x.id t ≡ true)
          × (receives_from d s t ≡ true)
          × (t.id ≡ r.id))
unfolding eligible_recipient_organizations_for_shipper
listed-recipients d s x r h = elim (Bool-cases (x.is_active && is_stored_valid d s)) [
  | inr closed ↦ absurd (
      cc (
        nobody (filter (receives_from d s) (filter (is_valid_at d x.id) d.recipients))
          (x.is_active && is_stored_valid d s) closed h))
  | inl open_ ↦
      let at = filter (is_valid_at d x.id) d.recipients in
      let here : ShipmentRecipientOrganization → Type 0 = λ t. is_valid_at d x.id t ≡ true in
      let from : ShipmentRecipientOrganization → Type 0 = λ t. receives_from d s t ≡ true in
      let both : ShipmentRecipientOrganization → Type 0 = λ t. here t × from t in
      let members =
        All-both here from both (filter (receives_from d s) at) (λ t a b. (a, b))
          (All-filter here (receives_from d s) at (filter-test (is_valid_at d x.id) d.recipients))
          (filter-test (receives_from d s) at) in
      let (t, (a, b), same) =
        any-All both (λ (t : ShipmentRecipientOrganization). t.id == r.id)
          (filter (receives_from d s) at) members
          (somebody (filter (receives_from d s) (filter (is_valid_at d x.id) d.recipients))
            (x.is_active && is_stored_valid d s) open_ h) in
      (
        left_of x.is_active (is_stored_valid d s) open_,
        right_of x.is_active (is_stored_valid d s) open_,
        (t, a, b, eq_of t.id r.id same),
      )
]
  where
    nobody :
        (ts : List ShipmentRecipientOrganization) (b : Bool)
        → b ≡ false
        → any (λ (t : ShipmentRecipientOrganization). t.id == r.id) (if b then ts else []) ≡ true
        → ◌≡◌ {A = Bool} false true
    nobody ts b e h' =
        sym (
          ap (λ c. any (λ (t : ShipmentRecipientOrganization). t.id == r.id) (if c then ts else []))
            e)
        ∙ h'

    somebody :
        (ts : List ShipmentRecipientOrganization) (b : Bool)
        → b ≡ true
        → any (λ (t : ShipmentRecipientOrganization). t.id == r.id) (if b then ts else []) ≡ true
        → any (λ (t : ShipmentRecipientOrganization). t.id == r.id) ts ≡ true
    somebody ts b e h' =
        sym (
          ap (λ c. any (λ (t : ShipmentRecipientOrganization). t.id == r.id) (if c then ts else []))
            e)
        ∙ h'

    left_of : (a b : Bool) → (a && b) ≡ true → a ≡ true
    left_of a b e = ground (arith, e)

    right_of : (a b : Bool) → (a && b) ≡ true → b ≡ true
    right_of a b e = ground (arith, e)

    eq_of : (j k : ℕ) → (j == k) ≡ true → j ≡ k
    eq_of j k e = ground arith

-- The recipient that the record of a structure gives.
pub recipient_found :
    (d : Directory) (c : Option Contact) (x : ℕ) {r : ShipmentRecipientOrganization}
    → shipment_recipient_organization_record d c x ≡ some r
    → (o : Contact) × (normalize_party_contact_to_org d c ≡ some o)
      × (is_recipient d o.id x r ≡ true)
unfolding shipment_recipient_organization_record
recipient_found d c x {r} h = elim (Option-cases (normalize_party_contact_to_org d c)) [
  | inl nobody ↦ absurd (cc)
  | inr (o, known) ↦
      let test = is_recipient d o.id x in
      let passes : ShipmentRecipientOrganization → Type 0 = λ t. test t ≡ true in
      (
        o,
        known,
        first_of-All passes (order_by recipient_key (filter test d.recipients))
            (All-order_by recipient_key passes (filter test d.recipients)
              (filter-test test d.recipients))
            (sym (ap (λ q. recipient_of d q x) known) ∙ h),
      )
]

-- A recipient row of its structure is valid where it is validated and a row with its key is valid.
pub valid_recipient :
    (d : Directory) (o x : ℕ) (r t : ShipmentRecipientOrganization)
    → is_recipient d o x r ≡ true
    → is_validated r.validation_status ≡ true
    → is_valid_at d x t ≡ true
    → (is_valid_at d x r ≡ true) × (r.organization ≡ o)
unfolding is_valid_recipient
valid_recipient d o x r t h v k =
    let mine : r.organization ≡ o = ground (arith, h) in
    let here : r.destination ≡ x = ground (arith, h) in
    let there : t.destination ≡ x = ground (arith, k) in
    let open_ : destination_is_active d t.destination ≡ true = ground (arith, k) in
    let active : destination_is_active d r.destination ≡ true =
      ap (destination_is_active d) (here ∙ sym there) ∙ open_ in
    (ground (arith, h, v, active), mine)
