-- ===== src/Kit/Fuel.antt =====
-- The expansion of a kit ends (wms/kit_components.py): no call within a call has a product twice, so
-- that as many nested calls as there are products, and one more, are enough.
use asf_wms.Prelude.{
  ℕ, zero, suc, ◌+◌, ◌==◌, ◌≤◌, ◌<◌, true, false, not, List, [], ◌∷◌, ◌++◌, length, length-append,
  filter, elem, All, ◌≡◌, ◌≢◌, refl, sym, ap, inl, inr, Bool-cases, Option-cases, arith, Result, ok,
  err, ◌>>=◌,
}
use asf_wms.Prelude.Table.{find}
use asf_wms.Kit.{
  KitItem, Part, KitError, out_of_fuel, MemoEntry, memo_key, expand_items, expand_new, remember,
  add_all, get_unit_component_quantities, get_component_quantities,
}

-- The keys without one of them.
abbrev without : ℕ → List ℕ → List ℕ
without k xs = filter (λ x. not (x == k)) xs

length-without_le : (k : ℕ) (xs : List ℕ) → length (without k xs) ≤ length xs
length-without_le k [] = omega arith
length-without_le k (x ∷ xs) = ground (arith, length-without_le k xs)

length-without : (k : ℕ) (xs : List ℕ) → elem k xs ≡ true → length (without k xs) < length xs
length-without k [] h = absurd (cc)
length-without k (x ∷ xs) h = elim (Bool-cases (x == k)) [
  | inl same ↦ rw same (omega (arith, length-without_le k xs))
  | inr other ↦ rw other (omega (arith, length-without k xs (ground arith)))
]

elem-without : (k j : ℕ) (xs : List ℕ) → j ≢ k → elem j xs ≡ true → elem j (without k xs) ≡ true
elem-without k j [] n h = cc
elem-without k j (x ∷ xs) n h = elim (Bool-cases (x == k)) [
  | inl same ↦ rw same (elem-without k j xs n (ground (arith, n)))
  | inr other ↦ rw other (ground (arith, elem-without k j xs n))
]

abbrev AreDistinct : List ℕ → Type 0
AreDistinct [] = Unit
AreDistinct (x ∷ xs) = (elem x xs ≡ false) × AreDistinct xs

-- Every member is one of the keys.
abbrev AreKeys : List ℕ → List ℕ → Type 0
AreKeys keys xs = All (λ x. elem x keys ≡ true) xs

elem_ne : (j k : ℕ) (xs : List ℕ) → elem k (j ∷ xs) ≡ false → j ≢ k
elem_ne j k xs h e = ground arith

AreKeys-without :
    (k : ℕ) (keys xs : List ℕ) → elem k xs ≡ false → AreKeys keys xs → AreKeys (without k keys) xs
AreKeys-without k keys [] f h = tt
AreKeys-without k keys (x ∷ xs) f h =
    (elem-without k x keys (elem_ne x k xs f) h.0, AreKeys-without k keys xs (ground arith) h.1)

-- Distinct keys are at most as many as the keys.
distinct_keys-le : (keys xs : List ℕ) → AreDistinct xs → AreKeys keys xs → length xs ≤ length keys
distinct_keys-le keys [] d h = omega arith
distinct_keys-le keys (x ∷ xs) d h =
    let shorter = length-without x keys h.0 in
    let rest = distinct_keys-le (without x keys) xs d.1 (AreKeys-without x keys xs d.0 h.1) in
    omega (arith, shorter, rest)

elem-snoc : (x p : ℕ) (xs : List ℕ) → elem x xs ≡ false → p ≢ x → elem x (xs ++ p ∷ []) ≡ false
elem-snoc x p [] f n = ground (arith, n)
elem-snoc x p (y ∷ ys) f n = ground (arith, elem-snoc x p ys)

AreDistinct-snoc :
    (p : ℕ) (xs : List ℕ) → AreDistinct xs → elem p xs ≡ false → AreDistinct (xs ++ p ∷ [])
AreDistinct-snoc p [] d f = (refl, tt)
AreDistinct-snoc p (x ∷ xs) d f =
    (elem-snoc x p xs d.0 (λ e. elem_ne x p xs f (sym e)), AreDistinct-snoc p xs d.1 (ground arith))

AreKeys-snoc :
    (keys xs : List ℕ) (p : ℕ) → AreKeys keys xs → elem p keys ≡ true → AreKeys keys (xs ++ p ∷ [])
AreKeys-snoc keys [] p h k = (k, tt)
AreKeys-snoc keys (x ∷ xs) p h k = (h.0, AreKeys-snoc keys xs p h.1 k)

-- A result that is not the end of the fuel.
abbrev Ends {ℓ} : {A : Type ℓ} → Result KitError A → Type ℓ
Ends r = r ≢ err out_of_fuel

>>=-Ends :
    {A B : Type 0} (r : Result KitError A) (next : A → Result KitError B)
    → Ends r
    → ((a : A) → Ends (next a))
    → Ends (r >>= next)
>>=-Ends (ok a) next h k = k a
>>=-Ends (err e) next h k = λ same. let eq : e ≡ out_of_fuel = cc in h (ap err eq)

remember-Ends : (p : ℕ) (x : List Part × List MemoEntry) → Ends (remember p x)
remember-Ends p x = λ e. cc

module _ (unit : ℕ → List MemoEntry → Result KitError (List Part × List MemoEntry))
    (ends : (c : ℕ) (m : List MemoEntry) → Ends (unit c m)) where
  expand_items-Ends :
      (is : List KitItem) (memo : List MemoEntry) (totals : List Part)
      → Ends (expand_items unit is memo totals)
  unfolding expand_items
  expand_items-Ends [] memo totals = λ e. cc
  expand_items-Ends (i ∷ is) memo totals = elim (Bool-cases (i.quantity == 0)) [
    | inl skipped ↦ rw skipped (expand_items-Ends is memo totals)
    | inr used ↦ rw used (
        >>=-Ends (unit i.component memo) _ (ends i.component memo)
          (λ (d, memo'). expand_items-Ends is memo' (add_all i.quantity d totals)))
  ]

  expand_kit-Ends :
      (p : ℕ) (i : KitItem) (is : List KitItem) (memo : List MemoEntry)
      → Ends (expand_new unit p (i ∷ is) memo)
  unfolding expand_new
  expand_kit-Ends p i is memo =
      >>=-Ends (expand_items unit (i ∷ is) memo []) (remember p)
        (expand_items-Ends (i ∷ is) memo []) (remember-Ends p)

expand_new-Ends :
    (unit : ℕ → List MemoEntry → Result KitError (List Part × List MemoEntry)) (p : ℕ)
    (items : List KitItem) (memo : List MemoEntry)
    → (items ≢ [] → (c : ℕ) (m : List MemoEntry) → Ends (unit c m))
    → Ends (expand_new unit p items memo)
unfolding expand_new
expand_new-Ends unit p [] memo ends = remember-Ends p _
expand_new-Ends unit p (i ∷ is) memo ends = expand_kit-Ends unit (ends (λ e. cc)) p i is memo

module _ (kits : ℕ → List KitItem) (keys : List ℕ)
    (known : (p : ℕ) → kits p ≢ [] → elem p keys ≡ true) where
  get_unit-Ends :
      (fuel p : ℕ) (memo : List MemoEntry) (stack : List ℕ)
      → AreDistinct stack
      → AreKeys keys stack
      → length keys < length stack + fuel
      → Ends (get_unit_component_quantities kits fuel p memo stack)
  unfolding get_unit_component_quantities
  get_unit-Ends zero p memo stack d k enough =
      let few = distinct_keys-le keys stack d k in absurd (omega (arith, few, enough))
  get_unit-Ends (suc fuel) p memo stack d k enough = elim (Option-cases (find memo_key p memo)) [
    | inr (entry, done) ↦ rw done (λ e. cc)
    | inl new ↦ elim (Bool-cases (elem p stack)) [
      | inl cycle ↦ rw (new, cycle) (λ e. cc)
      | inr fresh ↦
          rw (new, fresh)
            (expand_new-Ends (λ c m. get_unit_component_quantities kits fuel c m (stack ++ p ∷ []))
              p (kits p) memo
              (λ nonempty c m.
                let longer = length-append stack (p ∷ []) in
                get_unit-Ends fuel c m (stack ++ p ∷ []) (AreDistinct-snoc p stack d fresh)
                  (AreKeys-snoc keys stack p k (known p nonempty)) (omega (arith, enough, longer))))
    ]
  ]

  -- Where every product with kit items is among the keys, the expansion of any quantity of any product
  -- ends, with components or with a cycle, within one nested call more than there are keys.
  pub get_component_quantities-terminates :
      (p quantity : ℕ)
      → get_component_quantities kits (suc (length keys)) p quantity ≢ err out_of_fuel
  unfolding get_component_quantities
  get_component_quantities-terminates p quantity = elim (Bool-cases (quantity == 0)) [
    | inl nothing ↦ rw nothing (λ e. cc)
    | inr some_units ↦ rw some_units (
        >>=-Ends (get_unit_component_quantities kits (suc (length keys)) p [] []) _
          (get_unit-Ends (suc (length keys)) p [] [] tt tt (omega arith)) (λ (d, _). λ e. cc))
  ]
