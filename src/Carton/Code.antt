-- ===== src/Carton/Code.antt =====
-- The codes of new cartons (wms/domain/stock.py, `generate_carton_code`). Type codes are ASCII.
pub mod Distinct
pub mod Types
pub mod Ensure
use asf_wms.Prelude.{
  ℕ, zero, suc, ◌-◌, ◌==◌, leb, Bool, true, false, ◌&&◌, List, [], ◌∷◌, ◌++◌, map, length, take,
  if◌then◌else◌,
}
use asf_wms.Text.{Text, padded, text_eq}
use asf_wms.Text.Words.{strip}

-- `CartonSequence` (wms/models_domain/inventory.py)
pub record CartonSequence : Type 0 where
  pub family : Text
  pub last_number : ℕ

abbrev pub upper : ℕ → ℕ
upper c = if leb b'a' c && leb c b'z' then c - 32 else c

-- `text.ljust(2, "X")[:2]`, and "XX" for the empty text
abbrev pub two_characters : Text → Text
two_characters [] = b'X' ∷ b'X' ∷ []
two_characters (c ∷ []) = c ∷ b'X' ∷ []
two_characters (c ∷ d ∷ _) = c ∷ d ∷ []

-- An absent type code is the empty text.
unfoldable pub normalize_carton_family : Text → Text
normalize_carton_family type_code = two_characters (map upper (strip type_code))

-- `sequence.last_number += 1` on the family's row, which is created at 0 where it is missing. No other
-- request creates it in between, so that there is no `IntegrityError`.
unfoldable pub next_in_family : Text → List CartonSequence → ℕ × List CartonSequence
next_in_family family [] = (1, record { family = family; last_number = 1 } ∷ [])
next_in_family family (q ∷ qs) =
    let (n, rest) = next_in_family family qs in
    if text_eq q.family family
    then (suc q.last_number, record q { last_number = suc q.last_number } ∷ qs)
    else (n, q ∷ rest)

unfoldable pub next_linear_carton_sequence : Text → List CartonSequence → ℕ × List CartonSequence
next_linear_carton_sequence type_code qs = next_in_family (normalize_carton_family type_code) qs

-- `f"{family}-{sequence:05d}"`
unfoldable pub format_linear_carton_code : Text → ℕ → Text
format_linear_carton_code type_code n = normalize_carton_family type_code ++ b'-' ∷ padded 5 n

unfoldable pub generate_carton_code : Text → List CartonSequence → Text × List CartonSequence
generate_carton_code type_code qs =
    let (n, qs') = next_linear_carton_sequence type_code qs in
    (format_linear_carton_code type_code n, qs')

-- The codes of a run of calls, with these type codes.
unfoldable pub generate_codes : List Text → List CartonSequence → List Text
generate_codes [] qs = []
generate_codes (t ∷ ts) qs =
    let (code, qs') = generate_carton_code t qs in code ∷ generate_codes ts qs'
