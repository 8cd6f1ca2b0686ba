-- ===== src/Receipt/Reference.antt =====
-- References of receipts (wms/reference_sequences.py, `generate_receipt_reference` and
-- `normalize_reference_fragment`) and the saving of a new receipt (wms/models_domain/inventory.py,
-- `Receipt.save`). A reference that is matched is ASCII, without a line end.
pub mod Format
pub mod Fresh
use asf_wms.Prelude.{
  ℕ, zero, suc, ◌+◌, ◌-◌, ◌%◌, ◌==◌, ltb, leb, Bool, true, false, ◌&&◌, ◌||◌, Option, none, some,
  List, [], ◌∷◌, ◌++◌, map, length, filter, take, all, eq_option, if◌then◌else◌,
}
use asf_wms.Prelude.Table.{find}
use asf_wms.Text.{Text, is_digit, is_digits, value, padded, starts_with}

abbrev pub dash : ℕ
dash = b'-'

abbrev pub push : ℕ → List Text → List Text
push c [] = (c ∷ []) ∷ []
push c (w ∷ ws) = (c ∷ w) ∷ ws

-- The parts of a text between its dashes.
unfoldable pub split : Text → List Text
split [] = [] ∷ []
split (c ∷ cs) = let rest = split cs in if c == dash then [] ∷ rest else push c rest

-- `[A-Z0-9]`
abbrev pub is_code_char : ℕ → Bool
is_code_char c = (leb b'A' c && leb c b'Z') || is_digit c

-- `\d{2,}`
abbrev pub is_number : Text → Bool
is_number t = is_digits t && leb 2 (length t)

abbrev pub is_year : Text → Bool
is_year t = is_digits t && length t == 2

abbrev pub is_donor : Text → Bool
is_donor t = all is_code_char t && length t == 3

-- The groups `seq` and `count` of a match.
pub record Match : Type 0 where
  pub seq : ℕ
  pub count : ℕ

unfoldable pub match_parts : List Text → Option Match
match_parts (year ∷ seq ∷ donor ∷ count ∷ []) =
    if is_year year && is_number seq && is_donor donor && is_number count
    then some (record { seq = value seq; count = value count })
    else none
match_parts _ = none

-- `RECEIPT_REFERENCE_RE.match`: no part of the pattern but its three dashes can match a dash.
unfoldable pub match_reference : Text → Option Match
match_reference t = match_parts (split t)

-- A letter or a digit in ASCII.
abbrev pub is_alnum : ℕ → Bool
is_alnum c = is_code_char c || (leb b'a' c && leb c b'z')

abbrev pub upper : ℕ → ℕ
upper c = if leb b'a' c && leb c b'z' then c - 32 else c

-- `"X" * n`
abbrev pub xs_of : ℕ → Text
xs_of zero = []
xs_of (suc n) = b'X' ∷ xs_of n

-- The part after the folding to ASCII.
unfoldable pub normalize_ascii : Text → ℕ → Text
normalize_ascii t n =
    let cleaned = map upper (filter is_alnum t) in take n (cleaned ++ xs_of (n - length cleaned))

-- The columns of a receipt that the references depend on; `year` is `received_on.year`.
pub record ReferencedReceipt : Type 0 where
  pub reference : Text
  pub year : ℕ
  pub source_contact : Option ℕ

pub record ReceiptSequence : Type 0 where
  pub year : ℕ
  pub last_number : ℕ

pub record ReceiptDonorSequence : Type 0 where
  pub year : ℕ
  pub donor : ℕ
  pub last_number : ℕ

pub record Receipts : Type 0 where
  pub receipts : List ReferencedReceipt
  pub sequences : List ReceiptSequence
  pub donor_sequences : List ReceiptDonorSequence

-- One round of the loops over references.
abbrev pub raise_to : ℕ → Option ℕ → ℕ
raise_to last none = last
raise_to last (some n) = if ltb last n then n else last

abbrev pub part_of : (Match → ℕ) → Option Match → Option ℕ
part_of part none = none
part_of part (some m) = some (part m)

unfoldable pub highest : (Match → ℕ) → ℕ → List Text → ℕ
highest part last [] = last
highest part last (t ∷ ts) = highest part (raise_to last (part_of part (match_reference t))) ts

abbrev pub references : (ReferencedReceipt → Bool) → List ReferencedReceipt → List Text
references p rs = map (λ r. r.reference) (filter p rs)

-- `f"{year % 100:02d}"`
abbrev pub year_prefix : ℕ → Text
year_prefix year = padded 2 (year % 100)

-- `reference__startswith=f"{year_prefix}-"`
abbrev pub has_year_prefix : ℕ → ReferencedReceipt → Bool
has_year_prefix year r = starts_with r.reference (year_prefix year ++ dash ∷ [])

-- The number of a new sequence of the year.
unfoldable pub first_number : ℕ → List ReferencedReceipt → ℕ
first_number year rs =
    let last_number = highest (λ m. m.seq) 0 (references (has_year_prefix year) rs) in
    if last_number == 0
    then length (filter (λ (r : ReferencedReceipt). r.year == year) rs)
    else last_number

abbrev pub is_from : ℕ → ℕ → ReferencedReceipt → Bool
is_from year donor r = eq_option r.source_contact (some donor) && r.year == year

unfoldable pub first_donor_number : ℕ → ℕ → List ReferencedReceipt → ℕ
first_donor_number year donor rs =
    let last_number = highest (λ m. m.count) 0 (references (is_from year donor) rs) in
    if last_number == 0 then length (filter (is_from year donor) rs) else last_number

abbrev pub sequence_pk : ReceiptSequence → ℕ
sequence_pk q = q.year

-- `sequence.last_number += 1` on the stored or the new row, with the new number. No other request
-- creates the row in between, so that there is no `IntegrityError`.
unfoldable pub advance : ℕ → ℕ → List ReceiptSequence → ℕ × List ReceiptSequence
advance year first [] = (suc first, record { year = year; last_number = suc first } ∷ [])
advance year first (q ∷ qs) =
    let (n, rest) = advance year first qs in
    if q.year == year
    then (suc q.last_number, record q { last_number = suc q.last_number } ∷ qs)
    else (n, q ∷ rest)

unfoldable pub advance_donor : ℕ → ℕ → ℕ → List ReceiptDonorSequence → ℕ × List ReceiptDonorSequence
advance_donor year donor first [] =
    (suc first, record { year = year; donor = donor; last_number = suc first } ∷ [])
advance_donor year donor first (q ∷ qs) =
    let (n, rest) = advance_donor year donor first qs in
    if q.year == year && q.donor == donor
    then (suc q.last_number, record q { last_number = suc q.last_number } ∷ qs)
    else (n, q ∷ rest)

-- `f"{year_prefix}-{sequence.last_number:02d}-{donor_code}-{donor_number:02d}"`
unfoldable pub format_reference : ℕ → ℕ → Text → ℕ → Text
format_reference year number donor_code donor_number =
    year_prefix year
    ++ dash ∷ (padded 2 number ++ dash ∷ (donor_code ++ dash ∷ padded 2 donor_number))

-- Without a source, the number of the donor is 0.
unfoldable pub donor_step : ℕ → Option ℕ → Receipts → ℕ × List ReceiptDonorSequence
donor_step year none s = (0, s.donor_sequences)
donor_step year (some donor) s =
    advance_donor year donor (first_donor_number year donor s.receipts) s.donor_sequences

-- `fold` is the decomposition of Python's `unicodedata` with all that is not ASCII left out;
-- `name_of` is a contact's name, and without a contact the name is empty.
module _ (fold : Text → Text) (name_of : ℕ → Text) where
  abbrev pub source_name : Option ℕ → Text
  source_name none = []
  source_name (some c) = name_of c

  abbrev pub donor_code : Option ℕ → Text
  donor_code source = normalize_ascii (fold (source_name source)) 3

  unfoldable pub generate_receipt_reference : ℕ → Option ℕ → Receipts → Text × Receipts
  generate_receipt_reference year source s =
      let (number, sequences) = advance year (first_number year s.receipts) s.sequences in
      let (donor_number, donor_sequences) = donor_step year source s in
      (
        format_reference year number (donor_code source) donor_number,
        record s { sequences = sequences; donor_sequences = donor_sequences },
      )

  abbrev pub add_receipt : ReferencedReceipt → Receipts → Receipts
  add_receipt r s = record s { receipts = r ∷ s.receipts }

  -- `Receipt.save` of a new receipt; an empty reference is replaced.
  unfoldable pub save_receipt : ReferencedReceipt → Receipts → Receipts
  save_receipt r s =
      let (reference, s') = generate_receipt_reference r.year r.source_contact s in
      if length r.reference == 0
      then add_receipt (record r { reference = reference }) s'
      else add_receipt r s
