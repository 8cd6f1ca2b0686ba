-- ===== src/Examples/References.antt =====
-- References of receipts (wms/reference_sequences.py), for donors whose names are ASCII, and codes
-- of cartons (wms/domain/stock.py).
use asf_wms.Prelude.{List, ℕ, ◌≡◌, ◌≢◌, refl, some, [], ◌∷◌, All}
use asf_wms.Text.{Text, padded, decimal, starts_with, is_digits, value}
use asf_wms.Receipt.Reference.{
  dash, ReferencedReceipt, Receipts, match_reference, format_reference, save_receipt,
  generate_receipt_reference, advance, advance_donor, donor_step, first_number, first_donor_number,
  highest, match_parts, split, normalize_ascii,
}
use asf_wms.Carton.Code.{generate_codes}
use asf_wms.Carton.Code.Distinct.{AreDistinct, generate_codes-AreDistinct}
use asf_wms.Receipt.Reference.Format.{match_reference-format}
use asf_wms.Receipt.Reference.Fresh.{IsNumbered, save_receipt-fresh}

-- "MSF"
abbrev code : Text
code = b'M' ∷ b'S' ∷ b'F' ∷ []

match_reference-format_example :
    match_reference (format_reference 2026 12 code 3) ≡ some (record { seq = 12; count = 3 })
match_reference-format_example = match_reference-format 2026 12 3 code refl

abbrev ascii : Text → Text
ascii t = t

-- "Msf (1)", whose code is "MSF"
abbrev name_of : ℕ → Text
name_of _ = b'M' ∷ b's' ∷ b'f' ∷ b' ' ∷ b'(' ∷ b'1' ∷ b')' ∷ []

abbrev unsaved : ReferencedReceipt
unsaved = record { reference = []; year = 2026; source_contact = some 9 }

-- "26-07-MSF-02" is stored, and no sequence.
abbrev imported : Receipts
imported = record {
  receipts =
      record {
        reference =
            b'2' ∷ b'6' ∷ dash ∷ b'0' ∷ b'7' ∷ dash ∷ b'M' ∷ b'S' ∷ b'F' ∷ dash ∷ b'0' ∷ b'2' ∷ [];
        year = 2026;
        source_contact = some 9;
      }
      ∷ [];
  sequences = [];
  donor_sequences = [];
}

-- "26-08-MSF-03"
next_reference :
    (generate_receipt_reference ascii name_of 2026 (some 9) imported).0
    ≡ b'2' ∷ b'6' ∷ dash ∷ b'0' ∷ b'8' ∷ dash ∷ b'M' ∷ b'S' ∷ b'F' ∷ dash ∷ b'0' ∷ b'3' ∷ []
unfolding generate_receipt_reference advance advance_donor donor_step first_number
    first_donor_number highest match_reference match_parts split normalize_ascii format_reference
    padded decimal starts_with is_digits value
next_reference = refl

imported-IsNumbered : IsNumbered 2026 imported
imported-IsNumbered q found = cc

save_receipt-fresh_example :
    let s' = save_receipt ascii name_of unsaved imported in
    (new : ReferencedReceipt) × (s'.receipts ≡ new ∷ imported.receipts)
    × All (λ (o : ReferencedReceipt). o.reference ≢ new.reference) imported.receipts
    × IsNumbered 2026 s'
save_receipt-fresh_example =
    save_receipt-fresh ascii name_of unsaved imported refl imported-IsNumbered

-- "md", " M", "" and "md" again give the families "MD", "MX" and "XX".
abbrev types : List Text
types = (b'm' ∷ b'd' ∷ []) ∷ (b' ' ∷ b'M' ∷ []) ∷ [] ∷ (b'm' ∷ b'd' ∷ []) ∷ []

generate_codes-AreDistinct_example : AreDistinct (generate_codes types [])
generate_codes-AreDistinct_example = generate_codes-AreDistinct types []
