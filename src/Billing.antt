-- ===== src/Billing.antt =====
-- The amount of a billing line (wms/billing_calculations.py; wms/models_domain/billing.py). Prices are in
-- hundredths.
pub mod Laws
use asf_wms.Prelude.{
  ℕ, zero, suc, ◌+◌, ◌-◌, ◌*◌, ◌/◌, ◌==◌, ℤ, pos, pos_part, leb_ℤ, ◌+ℤ◌, ◌-ℤ◌, Bool, true, false,
  ◌&&◌, ◌||◌, Option, none, some, is_some, if◌then◌else◌,
}
use asf_wms.Prelude.Int.{times}

pub data BillingBaseUnitSource : Type 0 where
  shipped_units allocated_received_units manual : BillingBaseUnitSource

pub data BillingExtraUnitMode : Type 0 where
  none_extra shipped_minus_allocated_received manual_extra : BillingExtraUnitMode

-- The columns of `BillingComputationProfile` that the amount depends on.
pub record BillingProfile : Type 0 where
  pub base_unit_source : BillingBaseUnitSource
  pub base_step_size : ℕ
  pub base_step_price : ℤ
  pub extra_unit_mode : BillingExtraUnitMode
  pub extra_unit_price : ℤ
  pub allow_manual_override : Bool

pub record BillingBreakdown : Type 0 where
  pub base_units : ℕ
  pub base_block_count : ℕ
  pub extra_units : ℕ
  pub base_amount : ℤ
  pub extra_amount : ℤ
  pub total_amount : ℤ
  pub used_manual_override : Bool

-- None is the `ZeroDivisionError` of a step of 0.
unfoldable pub compute_started_block_count : ℤ → ℕ → Option ℕ
compute_started_block_count units zero = if leb_ℤ units (pos 0) then some 0 else none
compute_started_block_count units (suc step) =
    if leb_ℤ units (pos 0) then some 0 else some ((pos_part units - 1) / suc step + 1)

-- `manual or 0`
abbrev pub or_zero : Option ℤ → ℤ
or_zero none = pos 0
or_zero (some n) = n

-- The units without an override.
abbrev pub base_units_of : BillingBaseUnitSource → ℤ → ℤ → Option ℤ → ℕ × Bool
base_units_of shipped_units shipped received given = (pos_part shipped, false)
base_units_of allocated_received_units shipped received given = (pos_part received, false)
base_units_of manual shipped received given = (pos_part (or_zero given), is_some given)

-- `_resolve_base_units`, with the mark of a manual value; `allocated_received_units or 0` is `received`.
unfoldable pub resolve_base_units : BillingProfile → ℤ → ℤ → Option ℤ → ℕ × Bool
resolve_base_units p shipped received none = base_units_of p.base_unit_source shipped received none
resolve_base_units p shipped received (some n) =
    if p.allow_manual_override
    then (pos_part n, true)
    else base_units_of p.base_unit_source shipped received (some n)

abbrev pub extra_units_of : BillingExtraUnitMode → ℤ → ℤ → Option ℤ → ℕ × Bool
extra_units_of none_extra shipped received given = (0, false)
extra_units_of shipped_minus_allocated_received shipped received given =
    (pos_part (shipped -ℤ received), false)
extra_units_of manual_extra shipped received given = (pos_part (or_zero given), is_some given)

-- `_resolve_extra_units`
unfoldable pub resolve_extra_units : BillingProfile → ℤ → ℤ → Option ℤ → ℕ × Bool
resolve_extra_units p shipped received none = extra_units_of p.extra_unit_mode shipped received none
resolve_extra_units p shipped received (some n) =
    if p.allow_manual_override
    then (pos_part n, true)
    else extra_units_of p.extra_unit_mode shipped received (some n)

abbrev pub breakdown : BillingProfile → ℕ × Bool → ℕ × Bool → ℕ → BillingBreakdown
breakdown p (base_units, used_manual_base) (extra_units, used_manual_extra) blocks = record {
  base_units = base_units;
  base_block_count = blocks;
  extra_units = extra_units;
  base_amount = times blocks p.base_step_price;
  extra_amount = times extra_units p.extra_unit_price;
  total_amount = times blocks p.base_step_price +ℤ times extra_units p.extra_unit_price;
  used_manual_override = used_manual_base || used_manual_extra;
}

unfoldable pub build_billing_breakdown :
    BillingProfile → ℤ → ℤ → Option ℤ → Option ℤ → Option BillingBreakdown
build_billing_breakdown p shipped received manual_base_units manual_extra_units =
    let base = resolve_base_units p shipped received manual_base_units in
    let extra = resolve_extra_units p shipped received manual_extra_units in
    elim (compute_started_block_count (pos base.0) p.base_step_size) [
      | none ↦ none
      | some blocks ↦ some (breakdown p base extra blocks)
    ]
