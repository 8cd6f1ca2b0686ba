-- ===== src/Text/Decimal.antt =====
-- A number is read back from its decimal form, whatever its width.
use asf_wms.Prelude.{
  ℕ, zero, suc, ◌+◌, ◌-◌, ◌/◌, ◌%◌, ◌<◌, ltb, true, [], ◌∷◌, ◌++◌, ◌≡◌, ◌↔◌, refl, ap, ◌∙◌, sym,
  inl, inr, Bool-cases, arith, length,
}
use asf_wms.Text.{Text, decimal_acc, decimal, value_acc, value, zeros, padded, text_eq}

value-decimal_acc :
    (fuel n a : ℕ) (rest : Text)
    → n < fuel
    → value_acc 0 (decimal_acc fuel n rest) ≡ value_acc n rest
unfolding decimal_acc value_acc
value-decimal_acc zero n a rest h = elim h [ ]
value-decimal_acc (suc fuel) n a rest h = elim (Bool-cases (ltb n 10)) [
  | inl one ↦ rw one (ap (λ k. value_acc k rest) (omega arith))
  | inr more ↦ rw more (
      value-decimal_acc fuel (n / 10) a ((b'0' + n % 10) ∷ rest) (ground arith)
      ∙ ap (λ k. value_acc k rest) (omega arith))
]

value-zeros : (k : ℕ) (t : Text) → value_acc 0 (zeros k ++ t) ≡ value_acc 0 t
unfolding zeros value_acc
value-zeros zero t = refl
value-zeros (suc k) t = value-zeros k t

-- The value of the decimal form of a number, padded to any width, is the number.
pub value-padded : (width n : ℕ) → value (padded width n) ≡ n
unfolding value padded decimal
value-padded width n =
    value-zeros (width - length (decimal n)) (decimal n)
    ∙ value-decimal_acc (suc n) n 0 [] (omega arith)
    ∙ refl

-- Padded forms of different numbers differ.
pub padded-injective : (width n m : ℕ) → padded width n ≡ padded width m → n ≡ m
padded-injective width n m h = sym (value-padded width n) ∙ ap value h ∙ value-padded width m

pub text_eq_iff : (s t : Text) → (text_eq s t ≡ true) ↔ (s ≡ t)
unfolding text_eq
text_eq_iff [] [] = (λ _. refl, λ _. refl)
text_eq_iff [] (b ∷ t) = (λ e. cc, λ e. cc)
text_eq_iff (a ∷ s) [] = (λ e. cc, λ e. cc)
text_eq_iff (a ∷ s) (b ∷ t) = ground (arith, text_eq_iff s t)
