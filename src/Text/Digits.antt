-- ===== src/Text/Digits.antt =====
-- The decimal forms consist of digits, and how long they are.
use asf_wms.Prelude.{
  ℕ, zero, suc, ◌+◌, ◌-◌, ◌%◌, ◌/◌, ◌==◌, ◌≤◌, ◌<◌, ltb, Bool, true, ◌&&◌, [], ◌∷◌, ◌++◌, length,
  all, ◌≡◌, refl, ap, inl, inr, Bool-cases, arith, length-append,
}
use asf_wms.Text.{Text, is_digit, is_digits, zeros, decimal, decimal_acc, padded}

pub all-append :
    (p : ℕ → Bool) (s t : Text) → all p s ≡ true → all p t ≡ true → all p (s ++ t) ≡ true
all-append p [] t h k = k
all-append p (c ∷ s) t h k = ground (arith, all-append p s t)

digits-decimal_acc :
    (fuel n : ℕ) (rest : Text)
    → all is_digit rest ≡ true
    → all is_digit (decimal_acc fuel n rest) ≡ true
unfolding decimal_acc
digits-decimal_acc zero n rest h = h
digits-decimal_acc (suc fuel) n rest h = elim (Bool-cases (ltb n 10)) [
  | inl one ↦ rw one (ground (arith, h))
  | inr more ↦
      rw more (digits-decimal_acc fuel (n / 10) ((b'0' + n % 10) ∷ rest) (ground (arith, h)))
]

digits-zeros : (n : ℕ) → all is_digit (zeros n) ≡ true
unfolding zeros
digits-zeros zero = refl
digits-zeros (suc n) = digits-zeros n

length-zeros : (n : ℕ) → length (zeros n) ≡ n
unfolding zeros
length-zeros zero = refl
length-zeros (suc n) = ap suc (length-zeros n)

pub digits-padded : (width n : ℕ) → all is_digit (padded width n) ≡ true
unfolding padded decimal
digits-padded width n =
    all-append is_digit (zeros (width - length (decimal n))) (decimal n)
      (digits-zeros (width - length (decimal n))) (digits-decimal_acc (suc n) n [] refl)

pub length-padded : (width n : ℕ) → width ≤ length (padded width n)
unfolding padded
length-padded width n = omega (
  arith,
  length-append (zeros (width - length (decimal n))) (decimal n),
  length-zeros (width - length (decimal n)),
)

pub is_digits-all : (t : Text) → 1 ≤ length t → all is_digit t ≡ true → is_digits t ≡ true
unfolding is_digits
is_digits-all [] h k = absurd (omega (arith, h))
is_digits-all (c ∷ t) h k = k

-- A test that holds at every number below `n`.
all_below : (ℕ → Bool) → ℕ → Bool
all_below p zero = true
all_below p (suc n) = p n && all_below p n

all_below-at : (p : ℕ → Bool) (n k : ℕ) → all_below p n ≡ true → k < n → p k ≡ true
unfolding all_below
all_below-at p zero k h lt = absurd (omega (arith, lt))
all_below-at p (suc n) k h lt = elim (Bool-cases (k == n)) [
  | inl last ↦ let same : k ≡ n = ground arith in rw same (ground arith)
  | inr less ↦ all_below-at p n k (ground arith) (ground (arith, lt))
]

-- A number below 100 has two digits with its leading zero.
pub length-padded_two : (k : ℕ) → k < 100 → (length (padded 2 k) == 2) ≡ true
unfolding padded decimal decimal_acc zeros all_below
length-padded_two k h = all_below-at (λ n. length (padded 2 n) == 2) 100 k refl h
