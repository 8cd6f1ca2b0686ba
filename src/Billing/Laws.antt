-- ===== src/Billing/Laws.antt =====
-- Started blocks and amounts (wms/billing_calculations.py).
use asf_wms.Prelude.{
  ℕ, zero, suc, ◌+◌, ◌*◌, ◌/◌, ◌≤◌, ◌<◌, ℤ, pos, pos_part, ◌≤ℤ◌, ◌+ℤ◌, ◌-ℤ◌, int_laws, Option, none,
  some, ◌≡◌, refl, sym, ap, ◌∙◌, arith,
}
use native.Mathlib.Nat.{lt-div-mul-add, div-lt_iff_lt-mul, mul-le-mul_right}
use asf_wms.Prelude.Int.{times}
use asf_wms.Billing.{
  BillingProfile, BillingBreakdown, compute_started_block_count, resolve_base_units,
  resolve_extra_units, build_billing_breakdown,
}

-- The blocks for units that are not negative, with a step.
abbrev blocks_of : ℕ → ℕ → ℕ
blocks_of zero step = 0
blocks_of (suc n) step = n / suc step + 1

blocks-eq : (n step : ℕ) → compute_started_block_count (pos n) (suc step) ≡ some (blocks_of n step)
unfolding compute_started_block_count
blocks-eq zero step = refl
blocks-eq (suc n) step = ground arith

blocks_cover : (n step : ℕ) → n ≤ blocks_of n step * suc step
blocks_cover zero step = omega arith
blocks_cover (suc n) step =
    let h = lt-div-mul-add {a = n} {b = suc step} (omega arith) in grind (arith, h)

blocks_least : (n step c : ℕ) → n ≤ c * suc step → blocks_of n step ≤ c
blocks_least zero step c h = omega arith
blocks_least (suc n) step c h =
    let below =
      (div-lt_iff_lt-mul {k = suc step} {x = n} {y = c} (omega arith)).1 (omega (arith, h)) in
    omega (arith, below)

-- For a step that is not 0, the number of started blocks is the least number of steps that cover the
-- units.
pub compute_started_block_count-least :
    (n step : ℕ)
    → 0 < step
    → (b : ℕ) × (compute_started_block_count (pos n) step ≡ some b)
      × (n ≤ b * step)
      × ((c : ℕ) → n ≤ c * step → b ≤ c)
compute_started_block_count-least n zero positive = absurd (omega (arith, positive))
compute_started_block_count-least n (suc step) positive =
    (blocks_of n step, blocks-eq n step, blocks_cover n step, blocks_least n step)

blocks_mono : (m n step : ℕ) → m ≤ n → blocks_of m step ≤ blocks_of n step
blocks_mono m n step h =
    let cover = blocks_cover n step in
    blocks_least m step (blocks_of n step) (omega (arith, h, cover))

sub_mono : (a b c : ℤ) → a ≤ℤ b → pos_part (a -ℤ c) ≤ pos_part (b -ℤ c)
unfolding ◌-ℤ◌
sub_mono a b c h = ground (arith, h)

module _ (p : BillingProfile) (shipped shipped' received : ℤ) (more : shipped ≤ℤ shipped')
    (given : Option ℤ) where
  base_mono :
      (resolve_base_units p shipped received given).0
      ≤ (resolve_base_units p shipped' received given).0
  unfolding resolve_base_units
  base_mono = ground (arith, more)

  extra_mono :
      (resolve_extra_units p shipped received given).0
      ≤ (resolve_extra_units p shipped' received given).0
  unfolding resolve_extra_units
  extra_mono = ground (arith, sub_mono shipped shipped' received more)

total_mono :
    (m n k j : ℕ) (a b : ℕ)
    → m ≤ n
    → k ≤ j
    → (pos (m * a) +ℤ pos (k * b)) ≤ℤ (pos (n * a) +ℤ pos (j * b))
total_mono m n k j a b h g =
    let first = mul-le-mul_right a h in
    let second = mul-le-mul_right b g in omega (int_laws, first, second)

some_eq : {m n : ℕ} → some m ≡ some n → m ≡ n
some_eq h = cc

no_step : (m : ℕ) {k : ℕ} → compute_started_block_count (pos m) 0 ≡ some k → k ≡ 0
unfolding compute_started_block_count
no_step m h = ground arith

count_mono :
    (m n step : ℕ) {k j : ℕ}
    → m ≤ n
    → compute_started_block_count (pos m) step ≡ some k
    → compute_started_block_count (pos n) step ≡ some j
    → k ≤ j
count_mono m n zero {k} {j} h hk hj = let none_left = no_step m hk in omega (arith, none_left)
count_mono m n (suc step) {k} {j} h hk hj =
    let ek = some_eq (sym (blocks-eq m step) ∙ hk) in
    let ej = some_eq (sym (blocks-eq n step) ∙ hj) in omega (arith, ek, ej, blocks_mono m n step h)

mapped :
    (o : Option ℕ) (f : ℕ → BillingBreakdown) {x : BillingBreakdown}
    → elim o [ none ↦ none | some b ↦ some (f b) ] ≡ some x
    → (k : ℕ) × (o ≡ some k) × (f k ≡ x)
mapped none f h = cc
mapped (some k) f h = (k, refl, cc)

total_of :
    (p : BillingProfile) (shipped received : ℤ) (base extra : Option ℤ) {x : BillingBreakdown}
    → build_billing_breakdown p shipped received base extra ≡ some x
    → (k : ℕ) × (compute_started_block_count
          (pos (resolve_base_units p shipped received base).0)
          p.base_step_size
        ≡ some k)
      × (x.total_amount
          ≡ times k p.base_step_price
            +ℤ times (resolve_extra_units p shipped received extra).0 p.extra_unit_price)
unfolding build_billing_breakdown
total_of p shipped received base extra {x} h =
    let blocks =
      compute_started_block_count (pos (resolve_base_units p shipped received base).0)
        p.base_step_size in
    let (k, counted, same) = mapped blocks _ h in
    (k, counted, ap (λ (r : BillingBreakdown). r.total_amount) (sym same))

priced :
    (k e : ℕ) (p q : ℤ) (a b : ℕ)
    → p ≡ pos a
    → q ≡ pos b
    → times k p +ℤ times e q ≡ pos (k * a) +ℤ pos (e * b)
priced k e p q a b h g = rw (h, g) refl

-- With prices that are not negative and the same other units, more shipped units never make a billing
-- line cheaper.
pub build_billing_breakdown-monotone :
    (p : BillingProfile) (shipped shipped' received : ℤ) (base extra : Option ℤ) (a b : ℕ)
    {x y : BillingBreakdown}
    → p.base_step_price ≡ pos a
    → p.extra_unit_price ≡ pos b
    → shipped ≤ℤ shipped'
    → build_billing_breakdown p shipped received base extra ≡ some x
    → build_billing_breakdown p shipped' received base extra ≡ some y
    → x.total_amount ≤ℤ y.total_amount
build_billing_breakdown-monotone p shipped shipped' received base extra a b {x} {y} ea eb more hx
      hy =
    let (k, hk, ex) = total_of p shipped received base extra hx in
    let (j, hj, ey) = total_of p shipped' received base extra hy in
    let blocks =
      count_mono _ _ p.base_step_size (base_mono p shipped shipped' received more base) hk hj in
    let units = extra_mono p shipped shipped' received more extra in
    let e = (resolve_extra_units p shipped received extra).0 in
    let e' = (resolve_extra_units p shipped' received extra).0 in
    let px = ex ∙ priced k e p.base_step_price p.extra_unit_price a b ea eb in
    let py = ey ∙ priced j e' p.base_step_price p.extra_unit_price a b ea eb in
    rw (px, py) (total_mono k j e e' a b blocks units)
