-- ===== src/Carton/Code/Ensure.antt =====
-- The code of a carton after its contents changed (wms/domain/stock.py, `ensure_carton_code`).
pub mod Kept
use asf_wms.Prelude.{
  ℕ, zero, suc, ◌==◌, max, leb, Bool, true, false, ◌&&◌, ◌||◌, not, Option, none, some, List, [],
  ◌∷◌, ◌++◌, length, take, any, if◌then◌else◌, is_some, or_default, Result, ok, err,
}
use asf_wms.Prelude.Table.{update}
use asf_wms.Errors.{StockError, transaction_broken}
use asf_wms.Text.{Text, text_eq, is_digit, is_digits, decimal, value, starts_with}
use asf_wms.Rows.{Carton, Db, carton_pk}
use asf_wms.Carton.Code.{
  normalize_carton_family, next_linear_carton_sequence, format_linear_carton_code,
}
use asf_wms.Carton.Code.Types.{dominant_type_code}
use asf_wms.Carton.Tables.{Tables, with_db}

abbrev pub dash : ℕ
dash = b'-'

-- `[A-Z0-9]`
abbrev pub is_code_char : ℕ → Bool
is_code_char c = (leb b'A' c && leb c b'Z') || is_digit c

-- `LINEAR_CARTON_CODE_RE`, with its group `type`
unfoldable pub linear_type : Text → Option Text
linear_type (a ∷ b ∷ c ∷ ds) =
    if is_code_char a && is_code_char b && c == dash && is_digits ds && length ds == 5
    then some (a ∷ b ∷ [])
    else none
linear_type _ = none

abbrev pub drop : ℕ → Text → Text
drop zero t = t
drop (suc n) [] = []
drop (suc n) (c ∷ cs) = drop n cs

-- The groups `date` and `seq` of `CARTON_CODE_RE`.
pub record DatedCode : Type 0 where
  pub date : Text
  pub seq : ℕ

abbrev pub dated_tail : Text → Text → Option DatedCode
dated_tail date [] = none
dated_tail date (c ∷ seq) =
    if is_digits date && length date == 8 && c == dash && is_digits seq
    then some (record { date = date; seq = value seq })
    else none

unfoldable pub dated_code : Text → Option DatedCode
dated_code (a ∷ b ∷ c ∷ rest) =
    if is_code_char a && is_code_char b && c == dash
    then dated_tail (take 8 rest) (drop 8 rest)
    else none
dated_code _ = none

abbrev pub has_date : Text → Option DatedCode → Bool
has_date date none = false
has_date date (some m) = text_eq m.date date

abbrev pub seq_of : Text → Option DatedCode → ℕ
seq_of date none = 0
seq_of date (some m) = if text_eq m.date date then m.seq else 0

unfoldable pub greatest_seq : Text → List Carton → ℕ
greatest_seq date [] = 0
greatest_seq date (c ∷ cs) = max (seq_of date (dated_code c.code)) (greatest_seq date cs)

-- `_next_carton_sequence`: a code that matches with the date contains the date between dashes.
abbrev pub next_carton_sequence : Text → List Carton → ℕ
next_carton_sequence date cartons = suc (greatest_seq date cartons)

-- `_format_carton_code`
unfoldable pub format_carton_code : Text → Text → ℕ → Text
format_carton_code type_code date n = type_code ++ dash ∷ (date ++ dash ∷ decimal n)

-- `Carton.objects.filter(code=code).exclude(pk=pk).exists()`
unfoldable pub is_taken : Text → ℕ → List Carton → Bool
is_taken code pk cartons = any (λ (c : Carton). text_eq c.code code && not (c.id == pk)) cartons

-- `carton.save(update_fields=["code"])`
unfoldable pub save_code : Text → Carton → Tables → Carton × Tables
save_code code c t = (
  record c { code = code },
  with_db t (record t.db {
    cartons = update carton_pk c.id (λ row. record row { code = code }) t.db.cartons;
  }),
)

-- The attempts with a new number of the family.
unfoldable pub renumber : ℕ → Text → Carton → Tables → Carton × Tables
renumber zero family c t = (c, t)
renumber (suc attempts) family c t =
    let (n, sequences) = next_linear_carton_sequence family t.sequences in
    let code = format_linear_carton_code family n in
    let t' = record t { sequences = sequences } in
    let again = renumber attempts family c t' in
    if is_taken code c.id t.db.cartons then again else save_code code c t'

-- The attempts with a dated code. A code that another carton has is an `IntegrityError`; in the atomic
-- block of the caller the query for the number of the second attempt then raises.
unfoldable pub redate : Text → Carton → Tables → Result StockError (Carton × Tables)
redate code c t =
    if is_taken code c.id t.db.cartons then err transaction_broken else ok (save_code code c t)

-- "C-"
abbrev pub legacy_prefix : Text
legacy_prefix = b'C' ∷ dash ∷ []

-- The code after the old rules, for a carton with a dated code or one that starts with "C-".
unfoldable pub ensure_dated : Text → Carton → Tables → Result StockError (Carton × Tables)
ensure_dated type_code c t =
    let match = dated_code c.code in
    let next = next_carton_sequence c.created_on t.db.cartons in
    let n = if has_date c.created_on match then seq_of c.created_on match else next in
    let code = format_carton_code type_code c.created_on n in
    let free =
      if is_taken code c.id t.db.cartons
      then format_carton_code type_code c.created_on next
      else code in
    if text_eq code c.code then ok (c, t) else redate free c t

abbrev pub by_kind : Option Text → Text → Carton → Tables → Result StockError (Carton × Tables)
by_kind (some type) type_code c t =
    let family = normalize_carton_family type_code in
    if text_eq type family then ok (c, t) else ok (renumber 2 family c t)
by_kind none type_code c t =
    if is_some (dated_code c.code) || starts_with c.code legacy_prefix
    then ensure_dated type_code c t
    else ok (c, t)

-- `manual` is the mark of a carton object whose code was given by the caller.
unfoldable pub ensure_carton_code :
    (Text → Text) → Bool → Option Text → Carton → Tables → Result StockError (Carton × Tables)
ensure_carton_code fold manual type_code c t =
    let type = or_default type_code (dominant_type_code fold t.products t.db.stock.lots c.items) in
    if manual then ok (c, t) else by_kind (linear_type c.code) type c t
