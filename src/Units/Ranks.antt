-- ===== src/Units/Ranks.antt =====
-- Which rule gives the units, criterion by criterion (wms/unit_equivalence.py).
use asf_wms.Prelude.{
  ℕ, suc, ◌==◌, ltb, ◌<◌, ◌≤◌, Bool, true, false, ◌&&◌, ◌||◌, elem, Option, none, some, List, [],
  ◌∷◌, ◌++◌, All, All-both, ◌≡◌, refl, sym, ap, ◌∙◌, ◌⊎◌, ◌↔◌, inl, inr, arith, Bool-cases,
}
use mathlib.Core.List.{Mem}
use asf_wms.Catalog.{Category, root, child}
use asf_wms.Units.{
  EquivalenceRule, category_id, category_lineage, lineage_of, count_of, rule_specificity, covers,
  is_applicable, resolve_unit_equivalence_rule,
}
use asf_wms.Units.Laws.{is_below, resolve_unit_equivalence_rule_lem}

-- The category with the key, or one below it.
abbrev pub IsUnder : ℕ → Category → Type 0
IsUnder k (root id _) = id ≡ k
IsUnder k (child id _ parent) = (id ≡ k) ⊎ IsUnder k parent

-- The category is given and is the one with the key, or one below it.
abbrev pub IsIn : ℕ → Option Category → Type 0
IsIn k none = ◌≡◌ {A = Bool} true false
IsIn k (some c) = IsUnder k c

-- A category is one level deeper than its parent; where there is none the level is 0.
abbrev pub level : Category → ℕ
level (root _ _) = 1
level (child _ _ parent) = suc (level parent)

abbrev pub level_of : Option Category → ℕ
level_of none = 0
level_of (some c) = level c

-- A rule that is for all categories, or for one that the product's category is or is below.
abbrev pub IsFor : Option Category → Option Category → Type 0
IsFor category none = Unit
IsFor category (some c) = IsIn (category_id c) category

-- The rule is active, it is no rule for oversized items unless the item is oversized, and it is for the
-- product's category.
abbrev pub Applies : Option Category → Bool → EquivalenceRule → Type 0
Applies category is_hors_format r =
    (r.is_active ≡ true)
    × ((r.applies_to_hors_format ≡ false) ⊎ (is_hors_format ≡ true))
    × IsFor category r.category

-- Of two rules, `a` is for oversized items and `b` is not; or they agree in that, and the category of
-- `a` is the deeper one, or they are equally deep and `a` has no greater priority number.
abbrev pub Outranks : EquivalenceRule → EquivalenceRule → Type 0
Outranks a b =
    ((a.applies_to_hors_format ≡ true) × (b.applies_to_hors_format ≡ false))
    ⊎ ((a.applies_to_hors_format ≡ b.applies_to_hors_format)
        × ((level_of b.category < level_of a.category)
            ⊎ ((level_of b.category ≡ level_of a.category) × (a.priority ≤ b.priority))))

elem-append : (k : ℕ) (xs ys : List ℕ) → elem k (xs ++ ys) ≡ (elem k xs || elem k ys)
elem-append k [] ys = refl
elem-append k (x ∷ xs) ys = ground (arith, elem-append k xs ys)

lineage-IsUnder : (k : ℕ) (c : Category) → (elem k (category_lineage c) ≡ true) ↔ IsUnder k c
unfolding category_lineage
lineage-IsUnder k (root id _) = (λ h. ground (arith, h), λ h. ground (arith, h))
lineage-IsUnder k (child id _ parent) =
    let split = elem-append k (category_lineage parent) (id ∷ []) in
    let (there, back) = lineage-IsUnder k parent in
    (
      λ h. elim (Bool-cases (elem k (category_lineage parent))) [
        | inl above ↦ inr (there above)
        | inr off ↦ inl (ground (arith, split, h, off))
      ],
      λ w. elim w [
        | inl here ↦ ground (arith, split, here)
        | inr above ↦ ground (arith, split, back above)
      ],
    )

count_of-append : (xs : List ℕ) (x : ℕ) → count_of (xs ++ x ∷ []) ≡ suc (count_of xs)
count_of-append [] x = refl
count_of-append (y ∷ xs) x = ap suc (count_of-append xs x)

lineage-level : (c : Category) → count_of (category_lineage c) ≡ level c
unfolding category_lineage
lineage-level (root _ _) = refl
lineage-level (child id _ parent) =
    count_of-append (category_lineage parent) id ∙ ap suc (lineage-level parent)

lineage_of-level : (c : Option Category) → count_of (lineage_of c) ≡ level_of c
lineage_of-level none = refl
lineage_of-level (some c) = lineage-level c

covers-IsFor :
    (rule category : Option Category)
    → (covers rule (lineage_of category) ≡ true) ↔ IsFor category rule
covers-IsFor none category = (λ _. tt, λ _. refl)
covers-IsFor (some c) none = (λ h. cc, λ h. cc)
covers-IsFor (some c) (some d) = lineage-IsUnder (category_id c) d

is_applicable-Applies :
    (category : Option Category) (is_hors_format : Bool) (r : EquivalenceRule)
    → (is_applicable category is_hors_format r ≡ true) ↔ Applies category is_hors_format r
unfolding is_applicable
is_applicable-Applies category is_hors_format r =
    let (to, back) = covers-IsFor r.category category in
    (
      λ h. (
        ground (arith, h),
        elim (Bool-cases r.applies_to_hors_format) [
          | inl oversized ↦ inr (ground (arith, h, oversized))
          | inr usual ↦ inl usual
        ],
        to (ground (arith, h)),
      ),
      λ (active, format, mine).
          let covered = back mine in
          elim format [
            | inl usual ↦ ground (arith, active, usual, covered)
            | inr oversized ↦ ground (arith, active, oversized, covered)
          ],
    )

below-Outranks : (a b : EquivalenceRule) → is_below a b ≡ false → Outranks a b
unfolding rule_specificity
below-Outranks a b h =
    let da = lineage_of-level a.category in
    let db = lineage_of-level b.category in
    elim (Bool-cases (a.applies_to_hors_format)) [
      | inl first ↦ elim (Bool-cases (b.applies_to_hors_format)) [
        | inl second ↦ inr (first ∙ sym second, deeper da db (ground (arith, h, first, second)))
        | inr second ↦ inl (first, second)
      ]
      | inr first ↦ elim (Bool-cases (b.applies_to_hors_format)) [
        | inl second ↦ absurd (ground (arith, h, first, second))
        | inr second ↦ inr (first ∙ sym second, deeper da db (ground (arith, h, first, second)))
      ]
    ]
  where
    deeper :
        {j k m n p q : ℕ}
        → j ≡ m
        → k ≡ n
        → (ltb j k || (j == k && ltb q p)) ≡ false
        → (n < m) ⊎ ((n ≡ m) × (p ≤ q))
    deeper {j} {k} {m} {n} e f g = elim (Bool-cases (ltb n m)) [
      | inl lt ↦ inl (ground arith)
      | inr ge ↦ inr (ground (arith, e, f, g), ground (arith, e, f, g))
    ]

-- If no rule of the list is found, none of them applies. A rule that is found is of the list and applies,
-- and every rule of the list does not apply or is outranked: a rule for oversized items comes before
-- one that is not, then one with a deeper category, then one with a lower priority number.
pub resolve_unit_equivalence_rule-Outranks :
    (category : Option Category) (rules : List EquivalenceRule) (is_hors_format : Bool)
    → ((resolve_unit_equivalence_rule category rules is_hors_format ≡ none)
        × All (λ r. ¬ Applies category is_hors_format r) rules)
      ⊎ ((top : EquivalenceRule) × (resolve_unit_equivalence_rule category rules is_hors_format
            ≡ some top)
          × Mem top rules
          × Applies category is_hors_format top
          × All (λ r. (¬ Applies category is_hors_format r) ⊎ Outranks top r) rules)
resolve_unit_equivalence_rule-Outranks category rules is_hors_format =
    elim (resolve_unit_equivalence_rule_lem category rules is_hors_format) [
      | inl (nothing, off) ↦ inl (
        nothing,
        All-both (λ r. p r ≡ false) (λ r. p r ≡ false) (λ r. ¬ Applies category is_hors_format r)
            rules (λ r e _. refused r e) off off,
      )
      | inr (top, found, member, here, above) ↦ inr (
        top,
        found,
        member,
        (is_applicable-Applies category is_hors_format top).0 here,
        All-both (λ r. (p r && is_below top r) ≡ false) (λ r. (p r && is_below top r) ≡ false)
            (λ r. (¬ Applies category is_hors_format r) ⊎ Outranks top r) rules
            (λ r e _. outranked top r e) above above,
      )
    ]
  where
    p : EquivalenceRule → Bool
    p r = is_applicable category is_hors_format r

    refused : (r : EquivalenceRule) → p r ≡ false → ¬ Applies category is_hors_format r
    refused r e w = cc (e, (is_applicable-Applies category is_hors_format r).1 w)

    outranked :
        (top r : EquivalenceRule)
        → (p r && is_below top r) ≡ false
        → (¬ Applies category is_hors_format r) ⊎ Outranks top r
    outranked top r e = elim (Bool-cases (p r)) [
      | inr off ↦ inl (refused r off)
      | inl here ↦ inr (below-Outranks top r (ground (arith, e, here)))
    ]
