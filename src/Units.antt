-- ===== src/Units.antt =====
-- Equivalent units of shipments (wms/unit_equivalence.py; wms/models_domain/equivalence.py).
pub mod Laws
pub mod Ranks
use asf_wms.Prelude.{
  ℕ, suc, ◌+◌, ◌*◌, ◌==◌, ltb, ℤ, pos, ◌+ℤ◌, Bool, true, false, ◌&&◌, ◌||◌, not, Option, none, some,
  List, [], ◌∷◌, ◌++◌, elem, filter, if◌then◌else◌,
}
use asf_wms.Prelude.Int.{times}
use asf_wms.Catalog.{Category, root, child}

-- `ShipmentUnitEquivalenceRule`
pub record EquivalenceRule : Type 0 where
  pub id : ℕ
  pub category : Option Category
  pub applies_to_hors_format : Bool
  pub units_per_item : ℕ
  pub priority : ℕ
  pub is_active : Bool

abbrev pub category_id : Category → ℕ
category_id (root id _) = id
category_id (child id _ _) = id

-- The keys of `_category_lineage`, from the root.
unfoldable pub category_lineage : Category → List ℕ
category_lineage (root id name) = id ∷ []
category_lineage (child id name parent) = category_lineage parent ++ id ∷ []

abbrev pub lineage_of : Option Category → List ℕ
lineage_of none = []
lineage_of (some c) = category_lineage c

abbrev pub count_of : List ℕ → ℕ
count_of [] = 0
count_of (_ ∷ xs) = suc (count_of xs)

-- `_rule_specificity`: the bonus, the depth and the priority, which counts downwards.
pub record Specificity : Type 0 where
  pub bonus : ℕ
  pub depth : ℕ
  pub priority : ℕ

unfoldable pub rule_specificity : EquivalenceRule → Specificity
rule_specificity r = record {
  bonus = if r.applies_to_hors_format then 1 else 0;
  depth = count_of (lineage_of r.category);
  priority = r.priority;
}

-- `<` on the tuples
abbrev pub is_less : Specificity → Specificity → Bool
is_less a b =
    ltb a.bonus b.bonus
    || (a.bonus == b.bonus
        && (ltb a.depth b.depth || (a.depth == b.depth && ltb b.priority a.priority)))

abbrev pub covers : Option Category → List ℕ → Bool
covers none lineage = true
covers (some c) lineage = elem (category_id c) lineage

-- The tests of the loop over the rules.
unfoldable pub is_applicable : Option Category → Bool → EquivalenceRule → Bool
is_applicable category is_hors_format r =
    r.is_active
    && not (r.applies_to_hors_format && not is_hors_format)
    && covers r.category (lineage_of category)

-- `max(candidates, key=_rule_specificity)`: the first of the greatest.
unfoldable pub most_specific : EquivalenceRule → List EquivalenceRule → EquivalenceRule
most_specific best [] = best
most_specific best (r ∷ rs) =
    most_specific (if is_less (rule_specificity best) (rule_specificity r) then r else best) rs

abbrev pub best_of : List EquivalenceRule → Option EquivalenceRule
best_of [] = none
best_of (r ∷ rs) = some (most_specific r rs)

-- `category` is the category of the product; a missing product has none.
unfoldable pub resolve_unit_equivalence_rule :
    Option Category → List EquivalenceRule → Bool → Option EquivalenceRule
resolve_unit_equivalence_rule category rules is_hors_format =
    best_of (filter (is_applicable category is_hors_format) rules)

-- `ShipmentUnitInput`
pub record ShipmentUnitInput : Type 0 where
  pub category : Option Category
  pub quantity : ℤ
  pub is_hors_format : Bool

abbrev pub units_of : ℕ → Option EquivalenceRule → ℕ
units_of default none = default
units_of default (some r) = r.units_per_item

unfoldable pub resolve_shipment_unit_count : List ShipmentUnitInput → List EquivalenceRule → ℕ → ℤ
resolve_shipment_unit_count [] rules default = pos 0
resolve_shipment_unit_count (i ∷ is) rules default =
    times (units_of default (resolve_unit_equivalence_rule i.category rules i.is_hors_format))
      i.quantity
    +ℤ resolve_shipment_unit_count is rules default
