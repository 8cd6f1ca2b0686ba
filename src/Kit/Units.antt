-- ===== src/Kit/Units.antt =====
-- The expansion of a kit against the equations of its quantities (wms/kit_components.py).
use asf_wms.Prelude.{
  ℕ, zero, suc, ◌+◌, ◌*◌, ◌==◌, ◌<◌, false, List, [], ◌∷◌, ◌++◌, elem, All, sum_by, ◌≡◌, refl, ap,
  ◌∙◌, inl, inr, Bool-cases, Option-cases, arith, if◌then◌else◌, Result, ok,
}
use mathlib.Core.Path.{subst}
use native.Mathlib.Nat.{add-mul}
use asf_wms.Prelude.Table.{find, find-All, find-key}
use asf_wms.Kit.{
  KitItem, Part, KitError, MemoEntry, memo_key, add_to, add_all, expand_items, expand_new,
  get_unit_component_quantities, scaled, get_component_quantities,
}

-- How many of a component a dictionary has.
abbrev pub count : ℕ → List Part → ℕ
count c [] = 0
count c (e ∷ es) = (if e.component == c then e.quantity else 0) + count c es

count-add_to :
    (c d n : ℕ) (es : List Part) → count c (add_to d n es) ≡ count c es + (if d == c then n else 0)
count-add_to c d n [] = ground arith
count-add_to c d n (e ∷ es) = ground (arith, count-add_to c d n es)

count-scaled : (c q : ℕ) (es : List Part) → count c (scaled q es) ≡ count c es * q
count-scaled c q [] = omega arith
count-scaled c q (e ∷ es) = elim (Bool-cases (e.component == c)) [
  | inl same ↦ rw same (omega (arith, count-scaled c q es, add-mul e.quantity (count c es) q))
  | inr other ↦ rw other (omega (arith, count-scaled c q es, add-mul 0 (count c es) q))
]

count-add_all :
    (c k : ℕ) (es totals : List Part)
    → count c (add_all k es totals) ≡ count c totals + count c es * k
count-add_all c k [] totals = omega arith
count-add_all c k (e ∷ es) totals =
    let added = count-add_to c e.component (e.quantity * k) totals in
    let rest = count-add_all c k es (add_to e.component (e.quantity * k) totals) in
    elim (Bool-cases (e.component == c)) [
      | inl same ↦
          let here = ap (λ b. if b then e.quantity * k else 0) same in
          rw same (omega (arith, added, rest, here, add-mul e.quantity (count c es) k))
      | inr other ↦
          let here = ap (λ b. if b then e.quantity * k else 0) other in
          rw other (omega (arith, added, rest, here, add-mul 0 (count c es) k))
    ]

-- The number of a component in one item's share.
abbrev pub share : (ℕ → ℕ → ℕ) → ℕ → KitItem → ℕ
share u c i = u i.component c * i.quantity

-- The equations of the quantities: a product without items is its own only component, and a kit has
-- the components of its items, as often as the items say.
abbrev pub quantity_of : (ℕ → ℕ → ℕ) → ℕ → List KitItem → ℕ → ℕ
quantity_of u p [] c = if p == c then 1 else 0
quantity_of u p (i ∷ is) c = sum_by (share u c) (i ∷ is)

module _ (kits : ℕ → List KitItem) (u : ℕ → ℕ → ℕ) (rank : ℕ → ℕ) where
  -- What is known of a kit's parts.
  abbrev IsRight : MemoEntry → Type 0
  IsRight e = (c : ℕ) → count c e.parts ≡ u e.product c

  -- The outcome of an expansion that succeeds with the right parts.
  abbrev Expands : ℕ → Result KitError (List Part × List MemoEntry) → Type 0
  Expands p r =
      (d : List Part) × (memo : List MemoEntry) × (r ≡ ok (d, memo))
      × IsRight (record { product = p; parts = d })
      × All IsRight memo

  expand_items-ok :
      (unit : ℕ → List MemoEntry → Result KitError (List Part × List MemoEntry)) (bound : ℕ)
      → ((p : ℕ) (memo : List MemoEntry)
          → rank p < bound
          → All IsRight memo
          → Expands p (unit p memo))
      → (is : List KitItem) (memo : List MemoEntry) (totals : List Part)
      → All (λ i. rank i.component < bound) is
      → All IsRight memo
      → (d : List Part) × (memo' : List MemoEntry) × (expand_items unit is memo totals
          ≡ ok (d, memo'))
        × ((c : ℕ) → count c d ≡ count c totals + sum_by (share u c) is)
        × All IsRight memo'
  unfolding expand_items
  expand_items-ok unit bound h [] memo totals below right =
      (totals, memo, refl, λ c. omega arith, right)
  expand_items-ok unit bound h (i ∷ is) memo totals below right =
      elim (Bool-cases (i.quantity == 0)) [
        | inl none_of_it ↦
            let (d, memo', run, counts, right') =
              expand_items-ok unit bound h is memo totals below.1 right in
            let zero_of_it : i.quantity ≡ 0 = ground arith in
            rw none_of_it (
              d,
              memo',
              run,
              λ c. omega (arith, counts c, ap (λ n. u i.component c * n) zero_of_it),
              right',
            )
        | inr some_of_it ↦
            let (d1, memo1, run1, right1, good1) = h i.component memo below.0 right in
            let (d, memo', run, counts, right') =
              expand_items-ok unit bound h is memo1 (add_all i.quantity d1 totals) below.1 good1 in
            rw (some_of_it, run1)
              (
                d,
                memo',
                run,
                λ c. omega (
                  arith,
                  counts c,
                  count-add_all c i.quantity d1 totals,
                  ap (λ n. n * i.quantity) (right1 c),
                ),
                right',
              )
      ]

  -- Everything on the stack has a higher rank.
  abbrev AreHigher : ℕ → List ℕ → Type 0
  AreHigher p stack = All (λ x. rank p < rank x) stack

  elem-AreHigher : (p : ℕ) (stack : List ℕ) → AreHigher p stack → elem p stack ≡ false
  elem-AreHigher p [] h = refl
  elem-AreHigher p (x ∷ xs) h =
      let differ : (x == p) ≡ false = elim (Bool-cases (x == p)) [
        | inl same ↦
            let it : x ≡ p = ground arith in
            absurd (
              let low : rank p < rank p = subst (λ k. rank p < rank k) it h.0 in omega (arith, low))
        | inr other ↦ other
      ] in
      rw (differ, elem-AreHigher p xs h.1) refl

  push-AreHigher :
      (p c : ℕ) (stack : List ℕ)
      → rank c < rank p
      → AreHigher p stack
      → AreHigher c (stack ++ p ∷ [])
  push-AreHigher p c [] lt h = (lt, tt)
  push-AreHigher p c (x ∷ xs) lt h = (omega (arith, lt, h.0), push-AreHigher p c xs lt h.1)

  expand_new-Expands :
      (unit : ℕ → List MemoEntry → Result KitError (List Part × List MemoEntry)) (p : ℕ)
      (is : List KitItem) (memo : List MemoEntry)
      → ((c : ℕ) (m : List MemoEntry) → rank c < rank p → All IsRight m → Expands c (unit c m))
      → ((c : ℕ) → u p c ≡ quantity_of u p is c)
      → All (λ i. rank i.component < rank p) is
      → All IsRight memo
      → Expands p (expand_new unit p is memo)
  unfolding expand_new
  expand_new-Expands unit p [] memo h eq below right =
      let d : List Part = record { component = p; quantity = 1 } ∷ [] in
      let one : IsRight (record { product = p; parts = d }) = λ c. omega (arith, eq c) in
      (d, record { product = p; parts = d } ∷ memo, refl, one, (one, right))
  expand_new-Expands unit p (i ∷ is) memo h eq below right =
      let (d, memo', run, counts, right') =
        expand_items-ok unit (rank p) h (i ∷ is) memo [] below right in
      let all_of_it : IsRight (record { product = p; parts = d }) =
        λ c. omega (arith, counts c, eq c) in
      rw run (d, record { product = p; parts = d } ∷ memo', refl, all_of_it, (all_of_it, right'))

  module _ (eq : (p c : ℕ) → u p c ≡ quantity_of u p (kits p) c)
      (lower : (p : ℕ) → All (λ i. rank i.component < rank p) (kits p)) where
    unit-Expands :
        (fuel p : ℕ) (memo : List MemoEntry) (stack : List ℕ)
        → rank p < fuel
        → AreHigher p stack
        → All IsRight memo
        → Expands p (get_unit_component_quantities kits fuel p memo stack)
    unfolding get_unit_component_quantities
    unit-Expands zero p memo stack enough high right = absurd (omega (arith, enough))
    unit-Expands (suc fuel) p memo stack enough high right =
        elim (Option-cases (find memo_key p memo)) [
          | inl missing ↦
              let unit : ℕ → List MemoEntry → Result KitError (List Part × List MemoEntry) =
                λ c m. get_unit_component_quantities kits fuel c m (stack ++ p ∷ []) in
              let below =
                λ (c : ℕ) (m : List MemoEntry) (lt : rank c < rank p) (good : All IsRight m).
                  unit-Expands fuel c m (stack ++ p ∷ []) (omega (arith, enough, lt))
                    (push-AreHigher p c stack lt high) good in
              rw (missing, elem-AreHigher p stack high)
                (expand_new-Expands unit p (kits p) memo below (eq p) (lower p) right)
          | inr (e, found) ↦ rw found (
            e.parts,
            memo,
            refl,
            λ c.
                find-All memo_key IsRight p memo right found c
                ∙ ap (λ k. u k c) (find-key memo_key p memo found),
            right,
          )
        ]

    -- Where every item of a kit has a lower rank than the kit, and `u` satisfies the equations of the
    -- quantities, the expansion of a product ends with fuel above its rank, without an error, and gives
    -- of every component `quantity` times what the equations say, memo or not.
    pub get_component_quantities-counts :
        (fuel p quantity : ℕ)
        → rank p < fuel
        → (d : List Part) × (get_component_quantities kits fuel p quantity ≡ ok d)
          × ((c : ℕ) → count c d ≡ u p c * quantity)
    unfolding get_component_quantities
    get_component_quantities-counts fuel p quantity enough =
        let (d, memo, run, right, _) = unit-Expands fuel p [] [] enough tt tt in
        elim (Bool-cases (quantity == 0)) [
          | inl none_of_it ↦
              let nothing : quantity ≡ 0 = ground arith in
              rw none_of_it ([], refl, λ c. omega (arith, ap (λ n. u p c * n) nothing))
          | inr some_of_it ↦ elim (Bool-cases (quantity == 1)) [
            | inl single ↦
                let one : quantity ≡ 1 = ground arith in
                rw (some_of_it, run, single)
                  (d, refl, λ c. omega (arith, right c, ap (λ n. u p c * n) one))
            | inr several ↦
                rw (some_of_it, run, several)
                  (
                    scaled quantity d,
                    refl,
                    λ c. count-scaled c quantity d ∙ ap (λ n. n * quantity) (right c),
                  )
          ]
        ]
