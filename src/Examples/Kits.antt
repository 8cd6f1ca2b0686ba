-- ===== src/Examples/Kits.antt =====
-- A kit with a kit (wms/kit_components.py).
use asf_wms.Prelude.{
  ℕ, ◌*◌, ◌==◌, ◌<◌, ◌≡◌, refl, inl, inr, Bool-cases, List, [], ◌∷◌, All, arith, if◌then◌else◌, ok,
  err,
}
use asf_wms.Kit.{
  KitItem, Part, KitError, expand_items, expand_new, get_unit_component_quantities,
  get_component_quantities,
}
use asf_wms.Kit.Units.{count, quantity_of, get_component_quantities-counts}

abbrev item : ℕ → ℕ → KitItem
item component quantity = record { component = component; quantity = quantity }

-- Kit 1 is two of product 2 and one kit 3, which is four of product 2 and one of product 4.
abbrev kits : ℕ → List KitItem
kits p =
    if p == 1 then item 2 2 ∷ item 3 1 ∷ [] else if p == 3 then item 2 4 ∷ item 4 1 ∷ [] else []

abbrev units : ℕ → ℕ → ℕ
units p c =
    if p == 1
    then (if c == 2 then 6 else if c == 4 then 1 else 0)
    else if p == 3
    then (if c == 2 then 4 else if c == 4 then 1 else 0)
    else if p == c
    then 1
    else 0

abbrev rank : ℕ → ℕ
rank p = if p == 1 then 2 else if p == 3 then 1 else 0

kits_add_up : (p c : ℕ) → units p c ≡ quantity_of units p (kits p) c
kits_add_up p c = elim (Bool-cases (p == 1)) [
  | inl outer ↦ rw outer (ground arith)
  | inr rest ↦ elim (Bool-cases (p == 3)) [
    | inl inner ↦ rw (rest, inner) (ground arith)
    | inr plain ↦ rw (rest, plain) refl
  ]
]

kits_descend : (p : ℕ) → All (λ (i : KitItem). rank i.component < rank p) (kits p)
kits_descend p = elim (Bool-cases (p == 1)) [
  | inl outer ↦ rw outer (ground arith)
  | inr rest ↦ elim (Bool-cases (p == 3)) [
    | inl inner ↦ rw (rest, inner) (ground arith)
    | inr plain ↦ rw (rest, plain) tt
  ]
]

abbrev part : ℕ → ℕ → Part
part component quantity = record { component = component; quantity = quantity }

three_kits : get_component_quantities kits 3 1 3 ≡ ok (part 2 18 ∷ part 4 3 ∷ [])
unfolding get_component_quantities get_unit_component_quantities expand_new expand_items
three_kits = refl

-- Kit 5 contains itself.
own_cycle :
    get_component_quantities (λ p. item p 1 ∷ []) 3 5 1 ≡ err (KitError.kit_cycle (5 ∷ 5 ∷ []))
unfolding get_component_quantities get_unit_component_quantities expand_new expand_items
own_cycle = refl

get_component_quantities-counts_example :
    (d : List Part) × (get_component_quantities kits 3 1 3 ≡ ok d)
    × ((c : ℕ) → count c d ≡ units 1 c * 3)
get_component_quantities-counts_example =
    get_component_quantities-counts kits units rank kits_add_up kits_descend 3 1 3 (omega arith)
