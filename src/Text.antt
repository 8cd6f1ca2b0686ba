-- ===== src/Text.antt =====
-- Texts as lists of code points, and the decimal forms that references and codes are made of:
-- `f"{n}"`, `f"{n:04d}"`, `int(text)`, `text.isdigit()`, `text.startswith(prefix)`. The texts that
-- are read back are ASCII.
pub mod Decimal
pub mod Digits
pub mod Words
use asf_wms.Prelude.{
  ℕ, zero, suc, ◌+◌, ◌-◌, ◌*◌, ◌/◌, ◌%◌, ◌==◌, ltb, leb, Bool, true, false, ◌&&◌, ◌||◌, List, [],
  ◌∷◌, ◌++◌, length, all, if◌then◌else◌,
}

abbrev pub Text : Type 0
Text = List ℕ

abbrev pub is_digit : ℕ → Bool
is_digit c = leb b'0' c && leb c b'9'

-- `text.isdigit()`, which the empty text is not
unfoldable pub is_digits : Text → Bool
is_digits [] = false
is_digits (c ∷ cs) = all is_digit (c ∷ cs)

-- The digits of `n` in front of `rest`; the fuel is more than `n`, and each round divides it by 10.
pub decimal_acc : ℕ → ℕ → Text → Text
decimal_acc zero n rest = rest
decimal_acc (suc fuel) n rest =
    let longer = decimal_acc fuel (n / 10) ((b'0' + n % 10) ∷ rest) in
    if ltb n 10 then (b'0' + n) ∷ rest else longer

-- `f"{n}"`
unfoldable pub decimal : ℕ → Text
unfolding decimal_acc
decimal n = decimal_acc (suc n) n []

pub value_acc : ℕ → Text → ℕ
value_acc n [] = n
value_acc n (c ∷ cs) = value_acc (n * 10 + (c - b'0')) cs

-- `int(text)`, for a text of digits
unfoldable pub value : Text → ℕ
unfolding value_acc
value t = value_acc 0 t

pub zeros : ℕ → Text
zeros zero = []
zeros (suc n) = b'0' ∷ zeros n

-- `f"{n:0{width}d}"`
unfoldable pub padded : ℕ → ℕ → Text
unfolding zeros
padded width n = zeros (width - length (decimal n)) ++ decimal n

-- `text.startswith(prefix)`
unfoldable pub starts_with : Text → Text → Bool
starts_with t [] = true
starts_with [] (p ∷ ps) = false
starts_with (c ∷ cs) (p ∷ ps) = c == p && starts_with cs ps

-- `==` on texts
unfoldable pub text_eq : Text → Text → Bool
text_eq [] [] = true
text_eq (a ∷ s) (b ∷ t) = a == b && text_eq s t
text_eq _ _ = false
