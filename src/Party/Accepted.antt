-- ===== src/Party/Accepted.antt =====
-- Every contact that the form offers as shipper is accepted (wms/shipment_party_rules.py).
use asf_wms.Prelude.{
  ℕ, ◌==◌, ◌≡◌, refl, sym, ap, ◌∙◌, inl, inr, true, ◌&&◌, elem, any_self, filter, filter-test,
  Option, none, some, List, [], ◌∷◌, ◌++◌, All, All-filter, All-both, Bool-cases, arith, ok,
}
use mathlib.Core.Path.{subst}
use asf_wms.Prelude.Table.{find, All-found}
use asf_wms.Party.{
  Directory, Contact, Destination, ShipmentShipper, contact_pk, shipper_pk, shipper_organization,
}
use asf_wms.Party.Eligible.{is_valid_shipper, may_send, eligible_shippers_for_stopover}
use asf_wms.Party.Resolve.{
  normalize_party_contact_to_org, is_among_shippers, resolve_shipper_for_operation,
}
use asf_wms.Party.Offered.{
  active_contacts_for_ids, present, shipper_contact_ids, eligible_shipper_contacts_for_destination,
}
use asf_wms.Party.Clean.{
  IsClean, IsOrganization, IsMemberOrNone, normalize-organization, normalize-member,
}
use asf_wms.Party.Shippers.{resolve_shipper-eligible}

-- The contacts with the key are accepted as shippers.
abbrev AcceptsKey : Directory → Destination → ℕ → Type 0
AcceptsKey d x k =
    (c : Contact)
    → find contact_pk k d.contacts ≡ some c
    → (s : ShipmentShipper) × (resolve_shipper_for_operation d (some c) (some x) ≡ ok s)

abbrev AcceptsKeyOrNone : Directory → Destination → Option ℕ → Type 0
AcceptsKeyOrNone d x none = Unit
AcceptsKeyOrNone d x (some k) = AcceptsKey d x k

abbrev AcceptsContacts : Directory → Destination → ShipmentShipper → Type 0
AcceptsContacts d x s = AcceptsKey d x s.organization × AcceptsKeyOrNone d x s.default_contact

elem-AcceptsKey :
    (d : Directory) (x : Destination) (k : ℕ) (ss : List ShipmentShipper)
    → All (AcceptsContacts d x) ss
    → elem k (shipper_contact_ids ss) ≡ true
    → AcceptsKey d x k
unfolding shipper_contact_ids
elem-AcceptsKey d x k [] h e = absurd (cc)
elem-AcceptsKey d x k (s ∷ ss) h e = elim (Bool-cases (s.organization == k)) [
  | inl same ↦ subst (AcceptsKey d x) (eq_of same) h.0.0
  | inr other ↦
      of_default s.default_contact h.0.1 (λ e'. elem-AcceptsKey d x k ss h.1 e') (ground (arith, e))
]
  where
    eq_of : {j : ℕ} → (j == k) ≡ true → j ≡ k
    eq_of e' = ground arith

    of_default :
        (o : Option ℕ)
        → AcceptsKeyOrNone d x o
        → (elem k (shipper_contact_ids ss) ≡ true → AcceptsKey d x k)
        → elem k (present o ++ shipper_contact_ids ss) ≡ true
        → AcceptsKey d x k
    of_default none a later e' = later e'
    of_default (some j) a later e' = elim (Bool-cases (j == k)) [
      | inl same ↦ subst (AcceptsKey d x) (eq_of same) a
      | inr other ↦ later (ground (arith, e'))
    ]

module _ (d : Directory) (clean : IsClean d) (x : Destination) where
  -- What is known of an eligible shipper.
  abbrev IsKnown : ShipmentShipper → Type 0
  IsKnown s =
      (find shipper_organization (shipper_organization s) d.shippers ≡ some s)
      × IsOrganization d (shipper_organization s)
      × IsMemberOrNone d s.organization s.default_contact

  IsKnown-shippers : All IsKnown d.shippers
  IsKnown-shippers =
      let stored : ShipmentShipper → Type 0 =
        λ s. find shipper_organization (shipper_organization s) d.shippers ≡ some s in
      let kind : ShipmentShipper → Type 0 = λ s. IsOrganization d (shipper_organization s) in
      let member : ShipmentShipper → Type 0 =
        λ s. IsMemberOrNone d s.organization s.default_contact in
      let both : ShipmentShipper → Type 0 = λ s. kind s × member s in
      All-both stored both IsKnown d.shippers (λ s h k. (h, k.0, k.1))
        (All-found shipper_organization d.shippers clean.one_shipper)
        (All-both kind member both d.shippers (λ s h k. (h, k)) clean.shipper_organizations
          clean.default_contacts)

  AcceptsContacts-known :
      (s : ShipmentShipper)
      → IsKnown s
      → is_valid_shipper d s ≡ true
      → is_among_shippers s (eligible_shippers_for_stopover d (some x)) ≡ true
      → AcceptsContacts d x s
  AcceptsContacts-known s (mine, (o, found, kind), member) valid among = (
    (λ c here.
        let same : c ≡ o = cc (found, here) in
        (
          s,
          resolve_shipper-eligible d clean x s c o mine valid among found kind (
              ap (λ y. normalize_party_contact_to_org d (some y)) same
              ∙ normalize-organization d o kind),
        )),
    of_default s.default_contact member,
  )
    where
      of_default : (k : Option ℕ) → IsMemberOrNone d s.organization k → AcceptsKeyOrNone d x k
      of_default none h = tt
      of_default (some k) (p, stored, is_person, belongs) = λ c here.
          let same : c ≡ p = cc (stored, here) in
          (
            s,
            resolve_shipper-eligible d clean x s c o mine valid among found kind (
                ap (λ y. normalize_party_contact_to_org d (some y)) same
                ∙ normalize-member d p s.organization is_person belongs
                ∙ found),
          )

  eligible_AcceptsContacts : All (AcceptsContacts d x) (eligible_shippers_for_stopover d (some x))
  unfolding eligible_shippers_for_stopover
  eligible_AcceptsContacts =
      let ss = eligible_shippers_for_stopover d (some x) in
      let known = IsKnown-shippers in
      let passes : ShipmentShipper → Type 0 = λ s. may_send d x.id s ≡ true in
      let among : ShipmentShipper → Type 0 = λ s. is_among_shippers s ss ≡ true in
      let ready : ShipmentShipper → Type 0 = λ s. IsKnown s × passes s in
      elim (Bool-cases x.is_active) [
        | inl active ↦
            let e = filter_if active in
            subst (All (AcceptsContacts d x)) (sym e) (
              All-both ready among (AcceptsContacts d x) (filter (may_send d x.id) d.shippers)
                (λ s h a. AcceptsContacts-known s h.0 (valid_of s h.1) a)
                (All-both IsKnown passes ready (filter (may_send d x.id) d.shippers)
                  (λ s h k. (h, k)) (All-filter IsKnown (may_send d x.id) d.shippers known)
                  (filter-test (may_send d x.id) d.shippers))
                (subst (All among) e (any_self shipper_pk ss)))
        | inr closed ↦ rw closed tt
      ]
    where
      filter_if :
          x.is_active ≡ true
          → eligible_shippers_for_stopover d (some x) ≡ filter (may_send d x.id) d.shippers
      filter_if active = rw active refl

      valid_of : (s : ShipmentShipper) → may_send d x.id s ≡ true → is_valid_shipper d s ≡ true
      valid_of s h = ground (arith, h)

  offered_id :
      (ids : List ℕ) (c : Contact) → (elem c.id ids && c.is_active) ≡ true → elem c.id ids ≡ true
  offered_id ids c h = ground (arith, h)

  -- If the directory is as the checks at its saving leave it, every contact that the form offers as
  -- shipper for a destination is accepted as the shipper of an operation to it.
  pub offered_shippers-accepted :
      All
        (λ (c : Contact).
          (s : ShipmentShipper) × (resolve_shipper_for_operation d (some c) (some x) ≡ ok s))
        (eligible_shipper_contacts_for_destination d (some x))
  unfolding eligible_shipper_contacts_for_destination active_contacts_for_ids
  offered_shippers-accepted =
      let ids = shipper_contact_ids (eligible_shippers_for_stopover d (some x)) in
      let p = λ (c : Contact). elem c.id ids && c.is_active in
      let stored : Contact → Type 0 = λ c. find contact_pk (contact_pk c) d.contacts ≡ some c in
      let offered : Contact → Type 0 = λ c. p c ≡ true in
      All-both stored offered
        (λ (c : Contact).
          (s : ShipmentShipper) × (resolve_shipper_for_operation d (some c) (some x) ≡ ok s))
        (filter p d.contacts)
        (λ c here h.
          elem-AcceptsKey d x c.id (eligible_shippers_for_stopover d (some x))
            eligible_AcceptsContacts (offered_id ids c h) c here)
        (All-filter stored p d.contacts (All-found contact_pk d.contacts clean.contacts))
        (filter-test p d.contacts)
