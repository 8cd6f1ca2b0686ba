-- ===== src/Units/Laws.antt =====
-- Which rule gives the units (wms/unit_equivalence.py, `resolve_unit_equivalence_rule`).
use asf_wms.Prelude.{
  Bool, true, false, ◌&&◌, Option, none, some, List, [], ◌∷◌, All, filter, filter-test, All-filter,
  All-both, ◌≡◌, refl, sym, ◌⊎◌, inl, inr, arith, Bool-cases,
}
use mathlib.Core.Path.{subst}
use mathlib.Core.List.{Mem, mem-cons_self, mem-cons_of_mem}
use asf_wms.Catalog.{Category}
use asf_wms.Units.{
  EquivalenceRule, Specificity, rule_specificity, is_less, is_applicable, most_specific,
  resolve_unit_equivalence_rule,
}

abbrev pub is_below : EquivalenceRule → EquivalenceRule → Bool
is_below a b = is_less (rule_specificity a) (rule_specificity b)

less_irreflexive : (a : Specificity) → is_less a a ≡ false
less_irreflexive a = ground arith

less_up : (a b c : Specificity) → is_less b c ≡ true → is_less a c ≡ false → is_less a b ≡ false
less_up a b c h k = ground arith

-- `not (a < b)` is an order.
less_trans : (a b c : Specificity) → is_less a b ≡ false → is_less b c ≡ false → is_less a c ≡ false
less_trans a b c h k = ground arith

module _ (P : EquivalenceRule → Type 0) where
  most_specific-All :
      (best : EquivalenceRule) (rs : List EquivalenceRule)
      → P best
      → All P rs
      → P (most_specific best rs)
  unfolding most_specific
  most_specific-All best [] p h = p
  most_specific-All best (r ∷ rs) p h = elim (Bool-cases (is_below best r)) [
    | inl above ↦ rw above (most_specific-All r rs h.0 h.1)
    | inr kept ↦ rw kept (most_specific-All best rs p h.1)
  ]

-- No rule of a list is more specific than `top`.
abbrev pub IsTop : EquivalenceRule → List EquivalenceRule → Type 0
IsTop top rs = All (λ r. is_below top r ≡ false) rs

most_specific-IsTop :
    (best : EquivalenceRule) (rs : List EquivalenceRule) → IsTop (most_specific best rs) (best ∷ rs)
unfolding most_specific
most_specific-IsTop best [] = (less_irreflexive (rule_specificity best), tt)
most_specific-IsTop best (r ∷ rs) = elim (Bool-cases (is_below best r)) [
  | inl above ↦
      let next : most_specific best (r ∷ rs) ≡ most_specific r rs = rw above refl in
      let (own, others) = most_specific-IsTop r rs in
      let top = rule_specificity (most_specific r rs) in
      subst (λ t. IsTop t (best ∷ r ∷ rs)) (sym next)
        (less_up top (rule_specificity best) (rule_specificity r) above own, (own, others))
  | inr kept ↦
      let next : most_specific best (r ∷ rs) ≡ most_specific best rs = rw kept refl in
      let (own, others) = most_specific-IsTop best rs in
      let top = rule_specificity (most_specific best rs) in
      subst (λ t. IsTop t (best ∷ r ∷ rs)) (sym next)
        (own, (less_trans top (rule_specificity best) (rule_specificity r) own kept, others))
]

-- What fails on the filtered rules fails on all rules under the filter.
guarded :
    (p q : EquivalenceRule → Bool) (rs : List EquivalenceRule)
    → All (λ r. q r ≡ false) (filter p rs)
    → All (λ r. (p r && q r) ≡ false) rs
guarded p q [] = λ h. tt
guarded p q (r ∷ rs) = elim (Bool-cases (p r)) [
  | inl kept ↦ rw kept (λ h. (h.0, guarded p q rs h.1))
  | inr dropped ↦ rw dropped (λ h. (refl, guarded p q rs h))
]

none_applicable :
    (p : EquivalenceRule → Bool) (rs : List EquivalenceRule)
    → filter p rs ≡ []
    → All (λ r. p r ≡ false) rs
none_applicable p [] = λ h. tt
none_applicable p (r ∷ rs) = elim (Bool-cases (p r)) [
  | inl kept ↦ rw kept (λ h. cc)
  | inr dropped ↦ rw dropped (λ h. (refl, none_applicable p rs h))
]

List-cases :
    (rs : List EquivalenceRule)
    → (rs ≡ []) ⊎ ((r : EquivalenceRule) × (rest : List EquivalenceRule) × (rs ≡ r ∷ rest))
List-cases [] = inl refl
List-cases (r ∷ rs) = inr (r, rs, refl)

own_members : (rs : List EquivalenceRule) → All (λ x. Mem x rs) rs
own_members [] = tt
own_members (r ∷ rs) =
    let rest = own_members rs in
    (
      mem-cons_self,
      All-both (λ x. Mem x rs) (λ x. Mem x rs) (λ x. Mem x (r ∷ rs)) rs
          (λ x m _. mem-cons_of_mem r m) rest rest,
    )

-- No rule of the list is applicable, or the rule that is found is one of them and applicable, and no applicable rule of the list is
-- more specific than it: for oversized items first, then for a deeper category, then of a lower priority
-- number.
pub resolve_unit_equivalence_rule_lem :
    (category : Option Category) (rules : List EquivalenceRule) (is_hors_format : Bool)
    → ((resolve_unit_equivalence_rule category rules is_hors_format ≡ none)
        × All (λ r. is_applicable category is_hors_format r ≡ false) rules)
      ⊎ ((top : EquivalenceRule) × (resolve_unit_equivalence_rule category rules is_hors_format
            ≡ some top)
          × Mem top rules
          × (is_applicable category is_hors_format top ≡ true)
          × All (λ r. (is_applicable category is_hors_format r && is_below top r) ≡ false) rules)
unfolding resolve_unit_equivalence_rule
resolve_unit_equivalence_rule_lem category rules is_hors_format =
    let p = is_applicable category is_hors_format in
    elim (List-cases (filter p rules)) [
      | inl empty ↦ inl (rw empty refl, none_applicable p rules empty)
      | inr (r, rest, candidates) ↦
          let top = most_specific r rest in
          let member =
            subst (All (λ x. Mem x rules)) candidates
              (All-filter (λ x. Mem x rules) p rules (own_members rules)) in
          let (first, others) = subst (All (λ x. p x ≡ true)) candidates (filter-test p rules) in
          inr (
            top,
            rw candidates refl,
            most_specific-All (λ x. Mem x rules) r rest member.0 member.1,
            most_specific-All (λ x. p x ≡ true) r rest first others,
            guarded p (is_below top) rules
                (subst (IsTop top) (sym candidates) (most_specific-IsTop r rest)),
          )
    ]
