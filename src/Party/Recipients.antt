-- ===== src/Party/Recipients.antt =====
-- The recipient that a contact's structure is, and the shippers that may send to it
-- (wms/shipment_party_rules.py).
use asf_wms.Prelude.{
  ℕ, ◌≡◌, refl, sym, ap, ◌∙◌, inl, inr, Bool, true, false, ◌||◌, any_mono, any-filter, filter,
  filter-test, eq_option, Option, some, List, [], ◌∷◌, All, All-filter, All-both, Bool-cases,
  Option-cases, arith, or_else,
}
use mathlib.Core.Path.{subst}
use asf_wms.Prelude.Table.{find, find-filter, find-All, Distinct, filter-Distinct}
use asf_wms.Prelude.OrderBy.{order_by}
use asf_wms.Party.{
  Directory, Contact, ShipmentShipper, ShipmentRecipientOrganization, ShipmentShipperRecipientLink,
  shipper_pk, shipper_organization, recipient_pk, recipient_organization,
}
use asf_wms.Party.Eligible.{
  is_valid_shipper, is_valid_recipient, is_valid_at, may_send, link_reaches, links_to,
  receives_from,
}
use asf_wms.Party.Resolve.{
  first_of, shipper_of, recipient_of, is_recipient, recipient_key, is_among_shippers,
}
use asf_wms.Party.Clean.{IsClean}

some_injective : {A : Type 0} {a b : A} → ◌≡◌ {A = Option A} (some a) (some b) → a ≡ b
some_injective h = cc

first_is :
    {A : Type 0} (key : A → ℕ) (k : ℕ) (x r : A) → key x ≡ k → find key k (x ∷ []) ≡ some r → x ≡ r
first_is key k x r e h = ground (arith, e, h)

-- The only row with its key.
only_row :
    {A : Type 0} (key : A → ℕ) (k : ℕ) (xs : List A) {r : A}
    → Distinct key xs
    → All (λ x. key x ≡ k) xs
    → find key k xs ≡ some r
    → xs ≡ r ∷ []
only_row key k [] d all_k h = absurd (cc)
only_row key k (x ∷ []) {r} d all_k h =
    let same : x ≡ r = first_is key k x r all_k.0 h in ap (λ y. y ∷ []) same
only_row key k (x ∷ y ∷ ys) d all_k h = absurd (d.0.0 (all_k.1.0 ∙ sym all_k.0))

pub first_of-All :
    {A : Type 0} (P : A → Type 0) (xs : List A) {r : A} → All P xs → first_of xs ≡ some r → P r
first_of-All P [] h e = absurd (cc)
first_of-All P (x ∷ xs) {r} h e = subst P (some_injective e) h.0

module _ (d : Directory) (clean : IsClean d) where
  -- A recipient that is valid at a destination is the recipient there of its structure.
  pub recipient_of-organization :
      (r : ShipmentRecipientOrganization) (x : ℕ) (o : Contact)
      → find recipient_organization r.organization d.recipients ≡ some r
      → is_valid_at d x r ≡ true
      → o.id ≡ r.organization
      → recipient_of d (some o) x ≡ some r
  unfolding is_valid_recipient order_by
  recipient_of-organization r x o mine valid key =
      let p = is_recipient d r.organization x in
      let passes : p r ≡ true = ground (arith, valid) in
      let found = find-filter recipient_organization p r.organization d.recipients mine passes in
      let test : ShipmentRecipientOrganization → Type 0 = λ t. p t ≡ true in
      let here : ShipmentRecipientOrganization → Type 0 =
        λ t. recipient_organization t ≡ r.organization in
      let one =
        only_row recipient_organization r.organization (filter p d.recipients)
          (filter-Distinct recipient_organization p d.recipients clean.one_recipient)
          (All-both test test here (filter p d.recipients)
            (λ t h _. organization_lem t r.organization x h) (filter-test p d.recipients)
            (filter-test p d.recipients))
          found in
      ap (λ k. first_of (order_by recipient_key (filter (is_recipient d k x) d.recipients))) key
      ∙ ap (λ rs. first_of (order_by recipient_key rs)) one
    where
      organization_lem :
          (t : ShipmentRecipientOrganization) (k y : ℕ)
          → is_recipient d k y t ≡ true
          → t.organization ≡ k
      organization_lem t k y h = ground (arith, h)

  -- The shipper that a structure is, is valid, and it is among the eligible if it may send.
  abbrev pub IsFound : ℕ → ShipmentShipper → Type 0
  IsFound x s =
      (is_valid_shipper d s ≡ true)
      × (may_send d x s ≡ true → is_among_shippers s (filter (may_send d x) d.shippers) ≡ true)

  pub shipper_of-IsFound :
      (x : ℕ) (o : Contact) {s : ShipmentShipper} → shipper_of d (some o) ≡ some s → IsFound x s
  shipper_of-IsFound x o {s} h =
      let valid = filter (is_valid_shipper d) d.shippers in
      let test : ShipmentShipper → Type 0 = λ t. is_valid_shipper d t ≡ true in
      let among : ShipmentShipper → Type 0 = λ t.
        may_send d x t ≡ true → is_among_shippers t (filter (may_send d x) d.shippers) ≡ true in
      let each =
        All-both test among (IsFound x) valid (λ t a b. (a, b))
          (filter-test (is_valid_shipper d) d.shippers)
          (All-filter among (is_valid_shipper d) d.shippers
            (any-filter shipper_pk (may_send d x) d.shippers)) in
      let by_default = λ (t : ShipmentShipper). eq_option t.default_contact (some o.id) in
      elim (Option-cases (first_of (filter by_default valid))) [
        | inl nothing ↦
            find-All shipper_organization (IsFound x) o.id valid each
              (sym (ap (λ f. or_else f (find shipper_organization o.id valid)) nothing) ∙ h)
        | inr (t, default) ↦
            first_of-All (IsFound x) (filter by_default valid)
              (All-filter (IsFound x) by_default valid each)
              (default
                ∙ sym (ap (λ f. or_else f (find shipper_organization o.id valid)) default)
                ∙ h)
      ]

  reaches :
      (x : ℕ) (s : ShipmentShipper) (r : ShipmentRecipientOrganization)
      → find recipient_pk r.id d.recipients ≡ some r
      → is_valid_at d x r ≡ true
      → (l : ShipmentShipperRecipientLink) → links_to s.id r.id l ≡ true
      → link_reaches d s.id x l ≡ true
  unfolding link_reaches
  reaches x s r stored here l h =
      let mine : l.recipient_organization ≡ r.id = ground (arith, h) in
      let found = ap (λ k. find recipient_pk k d.recipients) mine ∙ stored in
      rw found (ground (arith, h, here))

  -- A valid shipper from whom a valid recipient receives may send to its destination.
  pub receives_from-may_send :
      (x : ℕ) (s : ShipmentShipper) (r : ShipmentRecipientOrganization)
      → is_valid_shipper d s ≡ true
      → find recipient_pk r.id d.recipients ≡ some r
      → is_valid_at d x r ≡ true
      → receives_from d s r ≡ true
      → may_send d x s ≡ true
  receives_from-may_send x s r valid stored here from = elim (Bool-cases s.can_send_to_all) [
    | inl everywhere ↦ rw (valid, everywhere) refl
    | inr chosen ↦
        let linked =
          any_mono (links_to s.id r.id) (link_reaches d s.id x) d.links (reaches x s r stored here)
            (rest_of s.can_send_to_all _ chosen from) in
        rw (valid, chosen, linked) refl
  ]
    where
      rest_of : (a b : Bool) → a ≡ false → (a || b) ≡ true → b ≡ true
      rest_of a b h e = ground (arith, h, e)
