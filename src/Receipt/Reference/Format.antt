-- ===== src/Receipt/Reference/Format.antt =====
-- A reference that is made matches the pattern with the numbers that it was made from
-- (wms/reference_sequences.py, `RECEIPT_REFERENCE_RE`).
use asf_wms.Prelude.{
  ℕ, zero, suc, ◌-◌, ◌%◌, ◌==◌, ◌≤◌, ◌<◌, Bool, true, false, some, [], ◌∷◌, ◌++◌, map, length,
  filter, take, all, ◌≡◌, refl, ap, ◌∙◌, arith, length-append,
}
use asf_wms.Text.{Text, is_digit, padded, starts_with}
use asf_wms.Text.Decimal.{value-padded}
use asf_wms.Text.Digits.{all-append, digits-padded, length-padded, length-padded_two, is_digits-all}
use asf_wms.Receipt.Reference.{
  dash, split, is_code_char, is_number, is_year, is_donor, match_parts, match_reference, is_alnum,
  upper, xs_of, normalize_ascii, year_prefix, format_reference,
}

-- Splitting at the first dash.
split-append : (s t : Text) → all is_code_char s ≡ true → split (s ++ dash ∷ t) ≡ s ∷ split t
unfolding split
split-append [] t h = refl
split-append (c ∷ s) t h =
    let plain : (c == dash) ≡ false = ground arith in
    let rest : all is_code_char s ≡ true = ground arith in rw (plain, split-append s t rest) refl

split-last : (s : Text) → all is_code_char s ≡ true → split s ≡ s ∷ []
unfolding split
split-last [] h = refl
split-last (c ∷ s) h =
    let plain : (c == dash) ≡ false = ground arith in
    let rest : all is_code_char s ≡ true = ground arith in rw (plain, split-last s rest) refl

all_digits_code : (t : Text) → all is_digit t ≡ true → all is_code_char t ≡ true
all_digits_code [] h = refl
all_digits_code (c ∷ t) h = ground (arith, all_digits_code t)

is_number-padded : (n : ℕ) → is_number (padded 2 n) ≡ true
is_number-padded n =
    let long = length-padded 2 n in
    ground (arith, is_digits-all (padded 2 n) (omega (arith, long)) (digits-padded 2 n))

is_year-year_prefix : (year : ℕ) → is_year (year_prefix year) ≡ true
is_year-year_prefix year =
    let k = year % 100 in
    let small : k < 100 = omega arith in
    let long = length-padded 2 k in
    rw (length-padded_two k small)
      (ground (arith, is_digits-all (padded 2 k) (omega (arith, long)) (digits-padded 2 k)))

code-padded : (n : ℕ) → all is_code_char (padded 2 n) ≡ true
code-padded n = all_digits_code (padded 2 n) (digits-padded 2 n)

-- A reference that is made with a code of three capital letters or digits matches the pattern, and
-- the two numbers that it was made from are read back.
pub match_reference-format :
    (year n k : ℕ) (code : Text)
    → is_donor code ≡ true
    → match_reference (format_reference year n code k) ≡ some (record { seq = n; count = k })
unfolding match_reference match_parts format_reference
match_reference-format year n k code h =
    let chars : all is_code_char code ≡ true = ground (arith, h) in
    let parts : split (format_reference year n code k)
        ≡ year_prefix year ∷ padded 2 n ∷ code ∷ padded 2 k ∷ [] =
      split-append (year_prefix year) _ (code-padded (year % 100))
      ∙ ap (λ ps. year_prefix year ∷ ps)
          (split-append (padded 2 n) _ (code-padded n)
            ∙ ap (λ ps. padded 2 n ∷ ps)
                (split-append code _ chars
                  ∙ ap (λ ps. code ∷ ps) (split-last (padded 2 k) (code-padded k)))) in
    rw
      (
        parts,
        is_year-year_prefix year,
        is_number-padded n,
        h,
        is_number-padded k,
        value-padded 2 n,
        value-padded 2 k,
      )
      refl

-- The code of a donor: three capital letters or digits.
code-cleaned : (t : Text) → all is_code_char (map upper (filter is_alnum t)) ≡ true
code-cleaned [] = refl
code-cleaned (c ∷ t) = ground (arith, code-cleaned t)

code-xs_of : (n : ℕ) → all is_code_char (xs_of n) ≡ true
code-xs_of zero = refl
code-xs_of (suc n) = code-xs_of n

length-xs_of : (n : ℕ) → length (xs_of n) ≡ n
length-xs_of zero = refl
length-xs_of (suc n) = ap suc (length-xs_of n)

all-take : (p : ℕ → Bool) (n : ℕ) (t : Text) → all p t ≡ true → all p (take n t) ≡ true
all-take p zero t h = refl
all-take p (suc n) [] h = refl
all-take p (suc n) (c ∷ t) h = ground (arith, all-take p n t)

length-take_long : (n : ℕ) (t : Text) → n ≤ length t → length (take n t) ≡ n
length-take_long zero t h = refl
length-take_long (suc n) [] h = absurd (omega (arith, h))
length-take_long (suc n) (c ∷ t) h = ap suc (length-take_long n t (omega (arith, h)))

pub is_donor-normalize_ascii : (t : Text) → is_donor (normalize_ascii t 3) ≡ true
unfolding normalize_ascii
is_donor-normalize_ascii t =
    let cleaned = map upper (filter is_alnum t) in
    let padding = xs_of (3 - length cleaned) in
    let long : 3 ≤ length (cleaned ++ padding) =
      omega (arith, length-append cleaned padding, length-xs_of (3 - length cleaned)) in
    let coded =
      all-append is_code_char cleaned padding (code-cleaned t) (code-xs_of (3 - length cleaned)) in
    let kept = all-take is_code_char 3 (cleaned ++ padding) coded in
    let three = length-take_long 3 (cleaned ++ padding) long in rw (kept, three) refl

starts_with-dash : (s t : Text) → starts_with (s ++ dash ∷ t) (s ++ dash ∷ []) ≡ true
unfolding starts_with
starts_with-dash [] t = refl
starts_with-dash (c ∷ s) t = ground (arith, starts_with-dash s t)

-- The reference starts with its year and a dash.
pub starts_with-format_reference :
    (year n k : ℕ) (code : Text)
    → starts_with (format_reference year n code k) (year_prefix year ++ dash ∷ []) ≡ true
unfolding format_reference
starts_with-format_reference year n k code =
    starts_with-dash (year_prefix year) (padded 2 n ++ dash ∷ (code ++ dash ∷ padded 2 k))
