-- ===== src/Examples/Billings.antt =====
-- Rules for equivalent units and a billing profile (wms/unit_equivalence.py,
-- wms/billing_calculations.py).
use asf_wms.Prelude.{
  ℕ, ◌≡◌, refl, ◌⊎◌, pos, ◌≤ℤ◌, ◌+ℤ◌, ◌-ℤ◌, Bool, true, false, Option, none, some, List, [], ◌∷◌,
  All, arith,
}
use mathlib.Core.List.{Mem}
use asf_wms.Catalog.{Category, root, child}
use asf_wms.Units.{
  EquivalenceRule, category_lineage, rule_specificity, is_applicable, most_specific,
  resolve_unit_equivalence_rule,
}
use asf_wms.Units.Ranks.{Applies, Outranks, resolve_unit_equivalence_rule-Outranks}
use asf_wms.Billing.{
  BillingProfile, BillingBreakdown, shipped_units, shipped_minus_allocated_received,
  compute_started_block_count, resolve_base_units, resolve_extra_units, build_billing_breakdown,
}
use asf_wms.Billing.Laws.{build_billing_breakdown-monotone}

abbrev medical : Category
medical = root 1 []

abbrev surgery : Category
surgery = child 2 [] medical

abbrev rule : ℕ → Option Category → Bool → ℕ → EquivalenceRule
rule id category oversized priority = record {
  id = id;
  category = category;
  applies_to_hors_format = oversized;
  units_per_item = 4;
  priority = priority;
  is_active = true;
}

-- One for everything, one for a category and two for its child.
abbrev rules : List EquivalenceRule
rules =
    rule 1 none false 0
    ∷ rule 2 (some medical) false 0
    ∷ rule 3 (some surgery) false 5
    ∷ rule 4 (some surgery) false 2
    ∷ []

child_rule :
    resolve_unit_equivalence_rule (some surgery) rules false ≡ some (rule 4 (some surgery) false 2)
unfolding resolve_unit_equivalence_rule most_specific rule_specificity is_applicable
    category_lineage
child_rule = refl

resolve_unit_equivalence_rule-Outranks_example :
    ((resolve_unit_equivalence_rule (some surgery) rules false ≡ none)
      × All (λ r. ¬ Applies (some surgery) false r) rules)
    ⊎ ((top : EquivalenceRule) × (resolve_unit_equivalence_rule (some surgery) rules false
          ≡ some top)
        × Mem top rules
        × Applies (some surgery) false top
        × All (λ r. (¬ Applies (some surgery) false r) ⊎ Outranks top r) rules)
resolve_unit_equivalence_rule-Outranks_example =
    resolve_unit_equivalence_rule-Outranks (some surgery) rules false

-- 21 units in steps of 10 are three blocks.
abbrev profile : BillingProfile
profile = record {
  base_unit_source = shipped_units;
  base_step_size = 10;
  base_step_price = pos 7500;
  extra_unit_mode = shipped_minus_allocated_received;
  extra_unit_price = pos 1000;
  allow_manual_override = true;
}

abbrev amounts : ℕ → ℕ → ℕ → ℕ → ℕ → ℕ → BillingBreakdown
amounts units blocks extra base_amount extra_amount total = record {
  base_units = units;
  base_block_count = blocks;
  extra_units = extra;
  base_amount = pos base_amount;
  extra_amount = pos extra_amount;
  total_amount = pos total;
  used_manual_override = false;
}

twelve_units :
    build_billing_breakdown profile (pos 12) (pos 15) none none
    ≡ some (amounts 12 2 0 15000 0 15000)
unfolding build_billing_breakdown compute_started_block_count resolve_base_units resolve_extra_units
    ◌+ℤ◌ ◌-ℤ◌
twelve_units = refl

twenty_one_units :
    build_billing_breakdown profile (pos 21) (pos 15) none none
    ≡ some (amounts 21 3 6 22500 6000 28500)
unfolding build_billing_breakdown compute_started_block_count resolve_base_units resolve_extra_units
    ◌+ℤ◌ ◌-ℤ◌
twenty_one_units = refl

build_billing_breakdown-monotone_example : pos 15000 ≤ℤ pos 28500
build_billing_breakdown-monotone_example =
    build_billing_breakdown-monotone profile (pos 12) (pos 21) (pos 15) none none 7500 1000 refl
      refl (omega arith) twelve_units twenty_one_units
