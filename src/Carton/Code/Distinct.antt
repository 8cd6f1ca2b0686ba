-- ===== src/Carton/Code/Distinct.antt =====
-- Generated codes do not repeat (wms/domain/stock.py, `generate_carton_code`).
use asf_wms.Prelude.{
  ℕ, suc, ◌≤◌, ◌<◌, true, List, [], ◌∷◌, ◌++◌, length, map, All, ◌≡◌, ◌≢◌, refl, sym, ◌∙◌, arith,
  if◌then◌else◌,
}
use asf_wms.Text.{Text, padded, text_eq}
use asf_wms.Text.Words.{strip}
use asf_wms.Text.Decimal.{padded-injective, text_eq_iff}
use asf_wms.Carton.Code.{
  CartonSequence, upper, two_characters, normalize_carton_family, next_in_family,
  next_linear_carton_sequence, format_linear_carton_code, generate_carton_code, generate_codes,
}

-- A code by its family.
abbrev pub code_of : Text → ℕ → Text
code_of family n = family ++ b'-' ∷ padded 5 n

length-two_characters : (t : Text) → length (two_characters t) ≡ 2
length-two_characters [] = refl
length-two_characters (c ∷ []) = refl
length-two_characters (c ∷ d ∷ t) = refl

-- A code has one family and one number.
pub code_of-injective :
    (f g : Text) (n m : ℕ) → length f ≡ length g → code_of f n ≡ code_of g m → (f ≡ g) × (n ≡ m)
code_of-injective [] [] n m l e = (refl, padded-injective 5 n m (cc))
code_of-injective [] (c ∷ g) n m l e = absurd (omega (arith, l))
code_of-injective (c ∷ f) [] n m l e = absurd (omega (arith, l))
code_of-injective (c ∷ f) (d ∷ g) n m l e =
    let (same, number) = code_of-injective f g n m (omega (arith, l)) (cc) in (cc, number)

-- The last number of a family.
pub last_of : Text → List CartonSequence → ℕ
last_of family [] = 0
last_of family (q ∷ qs) = if text_eq q.family family then q.last_number else last_of family qs

text_eq_refl : (t : Text) → text_eq t t ≡ true
text_eq_refl t = (text_eq_iff t t).1 refl

pub next-number :
    (family : Text) (qs : List CartonSequence)
    → (next_in_family family qs).0 ≡ suc (last_of family qs)
unfolding next_in_family last_of
next-number family [] = refl
next-number family (q ∷ qs) = ground (arith, next-number family qs)

pub next-last_of :
    (family : Text) (qs : List CartonSequence)
    → last_of family (next_in_family family qs).1 ≡ suc (last_of family qs)
unfolding next_in_family last_of
next-last_of family [] = rw (text_eq_refl family) refl
next-last_of family (q ∷ qs) = ground (arith, next-last_of family qs)

-- No call lowers the number of a family.
next-last_of_le :
    (other family : Text) (qs : List CartonSequence)
    → last_of other qs ≤ last_of other (next_in_family family qs).1
unfolding next_in_family last_of
next-last_of_le other family [] = omega arith
next-last_of_le other family (q ∷ qs) = ground (arith, next-last_of_le other family qs)

-- A code of a family of two characters has a number above the family's last.
abbrev IsAbove : List CartonSequence → Text → Type 0
IsAbove qs code = (f : Text) (n : ℕ) → length f ≡ 2 → code ≡ code_of f n → last_of f qs < n

IsAbove-weaken :
    (family : Text) (qs : List CartonSequence) (cs : List Text)
    → All (IsAbove (next_in_family family qs).1) cs
    → All (IsAbove qs) cs
IsAbove-weaken family qs [] h = tt
IsAbove-weaken family qs (c ∷ cs) h = (
  λ f n l e. let above = h.0 f n l e in omega (arith, above, next-last_of_le f family qs),
  IsAbove-weaken family qs cs h.1,
)

module _ (t : Text) (qs : List CartonSequence) where
  family_of-code :
      (f : Text) (n : ℕ)
      → length f ≡ 2
      → (generate_carton_code t qs).0 ≡ code_of f n
      → (normalize_carton_family t ≡ f) × (suc (last_of (normalize_carton_family t) qs) ≡ n)
  unfolding generate_carton_code next_linear_carton_sequence format_linear_carton_code
      normalize_carton_family
  family_of-code f n l e =
      let family = two_characters (map upper (strip t)) in
      let k = (next_in_family family qs).0 in
      let (same, number) =
        code_of-injective family f k n (length-two_characters (map upper (strip t)) ∙ sym l) e in
      (same, sym (next-number family qs) ∙ number)

generate_codes-IsAbove :
    (ts : List Text) (qs : List CartonSequence) → All (IsAbove qs) (generate_codes ts qs)
unfolding generate_codes generate_carton_code next_linear_carton_sequence
generate_codes-IsAbove [] qs = tt
generate_codes-IsAbove (t ∷ ts) qs =
    let family = normalize_carton_family t in
    (
      λ f n l e.
          let (same, number) = family_of-code t qs f n l e in rw (← same, ← number) (omega arith),
      IsAbove-weaken family qs (generate_codes ts (next_in_family family qs).1)
          (generate_codes-IsAbove ts (next_in_family family qs).1),
    )

-- All codes of a list differ from each other.
abbrev pub AreDistinct : List Text → Type 0
AreDistinct [] = Unit
AreDistinct (c ∷ cs) = All (λ d. d ≢ c) cs × AreDistinct cs

above-differ :
    (t : Text) (qs : List CartonSequence) (cs : List Text)
    → All (IsAbove (generate_carton_code t qs).1) cs
    → All (λ d. d ≢ (generate_carton_code t qs).0) cs
unfolding generate_carton_code next_linear_carton_sequence format_linear_carton_code
    normalize_carton_family
above-differ t qs [] h = tt
above-differ t qs (c ∷ cs) h =
    let family = two_characters (map upper (strip t)) in
    let k = (next_in_family family qs).0 in
    (
      λ e.
          let above = h.0 family k (length-two_characters (map upper (strip t))) e in
          absurd (omega (arith, above, next-number family qs, next-last_of family qs)),
      above-differ t qs cs h.1,
    )

-- However many codes are generated one after the other, for whatever type codes and from whatever
-- sequences, no two of them are the same.
pub generate_codes-AreDistinct :
    (ts : List Text) (qs : List CartonSequence) → AreDistinct (generate_codes ts qs)
unfolding generate_codes
generate_codes-AreDistinct [] qs = tt
generate_codes-AreDistinct (t ∷ ts) qs =
    let qs' = (generate_carton_code t qs).1 in
    (
      above-differ t qs (generate_codes ts qs') (generate_codes-IsAbove ts qs'),
      generate_codes-AreDistinct ts qs',
    )
