-- ===== src/Receipt/Reference/Fresh.antt =====
-- References of receipts do not repeat within a year (wms/reference_sequences.py).
use asf_wms.Prelude.{
  ℕ, suc, ◌≤◌, true, Option, none, some, List, [], ◌∷◌, ◌++◌, map, filter, All, ◌≡◌, ◌≢◌, refl, ap,
  sym, ◌∙◌, inl, inr, Bool-cases, Option-cases, arith, if◌then◌else◌,
}
use mathlib.Core.Path.{subst}
use asf_wms.Prelude.Table.{find}
use asf_wms.Text.{Text, starts_with}
use asf_wms.Receipt.Reference.{
  dash, Match, match_reference, ReferencedReceipt, ReceiptSequence, Receipts, raise_to, part_of,
  highest, references, year_prefix, has_year_prefix, first_number, sequence_pk, advance, donor_step,
  format_reference, donor_code, source_name, is_donor, generate_receipt_reference, save_receipt,
}
use asf_wms.Receipt.Reference.Format.{
  match_reference-format, is_donor-normalize_ascii, starts_with-format_reference,
}

-- The number of a reference, if it is matched, is at most `n`.
abbrev IsUpTo : (Match → ℕ) → ℕ → Text → Type 0
IsUpTo part n t = (m : Match) → match_reference t ≡ some m → part m ≤ n

raise_to-le : (last : ℕ) (o : Option ℕ) → last ≤ raise_to last o
raise_to-le last none = omega arith
raise_to-le last (some n) = ground arith

raise_to-IsUpTo :
    (part : Match → ℕ) (last : ℕ) (t : Text)
    → IsUpTo part (raise_to last (part_of part (match_reference t))) t
raise_to-IsUpTo part last t m h = rw h (ground arith)

highest-le : (part : Match → ℕ) (last : ℕ) (ts : List Text) → last ≤ highest part last ts
unfolding highest
highest-le part last [] = omega arith
highest-le part last (t ∷ ts) =
    let next = raise_to last (part_of part (match_reference t)) in
    omega (arith, raise_to-le last (part_of part (match_reference t)), highest-le part next ts)

highest-All :
    (part : Match → ℕ) (last : ℕ) (ts : List Text) → All (IsUpTo part (highest part last ts)) ts
unfolding highest
highest-All part last [] = tt
highest-All part last (t ∷ ts) =
    let next = raise_to last (part_of part (match_reference t)) in
    (
      λ m h. omega (arith, raise_to-IsUpTo part last t m h, highest-le part next ts),
      highest-All part next ts,
    )

-- No reference with the prefix of the year has a number above `n`.
abbrev pub IsCovered : ℕ → ℕ → List ReferencedReceipt → Type 0
IsCovered year n rs =
    All (λ r. has_year_prefix year r ≡ true → IsUpTo (λ m. m.seq) n r.reference) rs

references-IsCovered :
    (year n : ℕ) (rs : List ReferencedReceipt)
    → All (IsUpTo (λ m. m.seq) n) (references (has_year_prefix year) rs)
    → IsCovered year n rs
references-IsCovered year n [] h = tt
references-IsCovered year n (r ∷ rs) h = elim (Bool-cases (has_year_prefix year r)) [
  | inl with ↦
      let both : All (IsUpTo (λ m. m.seq) n) (r.reference ∷ references (has_year_prefix year) rs) =
        subst
          (λ b. All (IsUpTo (λ m. m.seq) n) (
            map (λ (x : ReferencedReceipt). x.reference)
              (if b
                then r ∷ filter (has_year_prefix year) rs
                else filter (has_year_prefix year) rs)))
          with h in
      (λ _. both.0, references-IsCovered year n rs both.1)
  | inr without ↦
      let rest : All (IsUpTo (λ m. m.seq) n) (references (has_year_prefix year) rs) =
        subst
          (λ b. All (IsUpTo (λ m. m.seq) n) (
            map (λ (x : ReferencedReceipt). x.reference)
              (if b
                then r ∷ filter (has_year_prefix year) rs
                else filter (has_year_prefix year) rs)))
          without h in
      (λ e. cc, references-IsCovered year n rs rest)
]

IsCovered-le :
    (year n m : ℕ) (rs : List ReferencedReceipt) → n ≤ m → IsCovered year n rs → IsCovered year m rs
IsCovered-le year n m [] le h = tt
IsCovered-le year n m (r ∷ rs) le h =
    (λ e k g. let low = h.0 e k g in omega (arith, low, le), IsCovered-le year n m rs le h.1)

first_number-IsCovered :
    (year : ℕ) (rs : List ReferencedReceipt) → IsCovered year (first_number year rs) rs
unfolding first_number
first_number-IsCovered year rs =
    let ts = references (has_year_prefix year) rs in
    let top = highest (λ m. m.seq) 0 ts in
    IsCovered-le year top (first_number year rs) rs (ground arith)
      (references-IsCovered year top rs (highest-All (λ m. m.seq) 0 ts))

-- The last number used, or the one that a new sequence starts from.
abbrev last_of : Option ReceiptSequence → ℕ → ℕ
last_of none first = first
last_of (some q) first = q.last_number

advance-number :
    (year first : ℕ) (qs : List ReceiptSequence)
    → (advance year first qs).0 ≡ suc (last_of (find sequence_pk year qs) first)
unfolding advance
advance-number year first [] = refl
advance-number year first (q ∷ qs) = ground (arith, advance-number year first qs)

advance-find :
    (year first : ℕ) (qs : List ReceiptSequence)
    → find sequence_pk year (advance year first qs).1
      ≡ some (record { year = year; last_number = (advance year first qs).0 })
unfolding advance
advance-find year first [] = ground arith
advance-find year first (q ∷ qs) = ground (arith, advance-find year first qs)

abbrev seq_of : Option Match → ℕ
seq_of none = 0
seq_of (some m) = m.seq

format-IsFresh :
    (year n k : ℕ) (code : Text) (rs : List ReferencedReceipt)
    → is_donor code ≡ true
    → IsCovered year n rs
    → All (λ r. r.reference ≢ format_reference year (suc n) code k) rs
format-IsFresh year n k code [] d h = tt
format-IsFresh year n k code (r ∷ rs) d h = (
  λ e.
      let has =
        ap (λ t. starts_with t (year_prefix year ++ dash ∷ [])) e
        ∙ starts_with-format_reference year (suc n) k code in
      let read = ap match_reference e ∙ match_reference-format year (suc n) k code d in
      let low : suc n ≤ n = h.0 has (record { seq = suc n; count = k }) read in
      absurd (omega (arith, low)),
  format-IsFresh year n k code rs d h.1,
)

-- The sequence of the year, if there is one, covers the references of the year.
abbrev pub IsNumbered : ℕ → Receipts → Type 0
IsNumbered year s =
    (q : ReceiptSequence)
    → find sequence_pk year s.sequences ≡ some q
    → IsCovered year q.last_number s.receipts

IsNumbered-last :
    (year : ℕ) (s : Receipts)
    → IsNumbered year s
    → IsCovered year
        (last_of (find sequence_pk year s.sequences) (first_number year s.receipts))
        s.receipts
IsNumbered-last year s h = elim (Option-cases (find sequence_pk year s.sequences)) [
  | inl missing ↦ rw missing (first_number-IsCovered year s.receipts)
  | inr (q, found) ↦ rw found (h q found)
]

module _ (fold : Text → Text) (name_of : ℕ → Text) where
  -- Where the sequence of the year, if there is one, covers the references of the year, a new receipt
  -- without a reference gets one that no stored receipt has, and the sequence again covers the
  -- references of the year. Without a sequence nothing is assumed of the stored references.
  pub save_receipt-fresh :
      (r : ReferencedReceipt) (s : Receipts)
      → r.reference ≡ []
      → IsNumbered r.year s
      → let s' = save_receipt fold name_of r s in
        (new : ReferencedReceipt) × (s'.receipts ≡ new ∷ s.receipts)
        × All (λ (o : ReferencedReceipt). o.reference ≢ new.reference) s.receipts
        × IsNumbered r.year s'
  unfolding save_receipt generate_receipt_reference
  save_receipt-fresh r s empty h =
      let year = r.year in
      let first = first_number year s.receipts in
      let n = last_of (find sequence_pk year s.sequences) first in
      let step = advance year first s.sequences in
      let code = donor_code fold name_of r.source_contact in
      let k = (donor_step year r.source_contact s).0 in
      let three = is_donor-normalize_ascii (fold (source_name fold name_of r.source_contact)) in
      let covered = IsNumbered-last year s h in
      let number = advance-number year first s.sequences in
      let new = record r { reference = format_reference year (suc n) code k } in
      let saved : save_receipt fold name_of r s ≡ record {
        receipts = new ∷ s.receipts;
        sequences = step.1;
        donor_sequences = (donor_step year r.source_contact s).1;
      } =
        rw (empty, ← number) refl in
      let stored = IsCovered-le year n (suc n) s.receipts (omega arith) covered in
      let own : IsUpTo (λ m. m.seq) (suc n) new.reference = λ m e.
        let same = sym (match_reference-format year (suc n) k code three) ∙ e in
        let numbers : suc n ≡ m.seq = ap seq_of same in omega (arith, numbers) in
      rw saved (
        new,
        refl,
        format-IsFresh year n k code s.receipts three covered,
        λ q found.
            let last : suc n ≡ q.last_number =
              sym number
              ∙ ap (λ o. last_of o 0) (sym (advance-find year first s.sequences) ∙ found) in
            subst (λ j. IsCovered year j (new ∷ s.receipts)) last (λ _. own, stored),
      )
