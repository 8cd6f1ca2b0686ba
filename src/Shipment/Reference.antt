-- ===== src/Shipment/Reference.antt =====
-- References of shipments (wms/reference_sequences.py, `generate_shipment_reference`) and the
-- saving of a shipment (wms/models_domain/shipment.py, `Shipment.save`), without its QR code.
pub mod Laws
use asf_wms.Prelude.{
  ℕ, suc, ◌+◌, ◌%◌, ◌==◌, Bool, true, false, ◌&&◌, ◌||◌, not, Option, none, some, List, [], ◌∷◌,
  ◌++◌, map, length, filter, if◌then◌else◌,
}
use asf_wms.Prelude.Table.{find, update}
use asf_wms.Prelude.OrderBy.{order_by}
use asf_wms.Text.{Text, is_digits, value, padded, starts_with}
use asf_wms.Text.Words.{strip}
use asf_wms.Rows.{
  ShipmentStatus, Shipment, ShipmentSequence, Db, Clock, shipment_pk, sequence_pk,
  same_shipment_status,
}

-- `f"{year % 100:02d}"`
unfoldable pub year_prefix : ℕ → Text
year_prefix year = padded 2 (year % 100)

-- `text[2:]`
abbrev pub drop_two : Text → Text
drop_two (a ∷ b ∷ t) = t
drop_two _ = []

abbrev pub last : List Text → Option Text
last [] = none
last (t ∷ []) = some t
last (t ∷ u ∷ ts) = last (u ∷ ts)

abbrev pub own_text : Text → Text
own_text t = t

abbrev pub shipment_reference : Shipment → Text
shipment_reference s = s.reference

-- The greatest six-character reference of the year, in text order: `order_by("-reference").first()`.
pub last_reference : ℕ → List Shipment → Option Text
last_reference year shipments = last (
    order_by own_text (
      filter (λ t. starts_with t (year_prefix year) && length t == 6)
        (map shipment_reference shipments)))

-- The number that a new sequence starts from.
pub number_of : Option Text → ℕ
number_of none = 0
number_of (some t) = if is_digits t then value (drop_two t) else 0

-- `f"{year_prefix}{number:04d}"`
unfoldable pub format_reference : ℕ → ℕ → Text
format_reference year number = year_prefix year ++ padded 4 number

abbrev pub last_number_of : Option ShipmentSequence → ℕ → ℕ
last_number_of none start = start
last_number_of (some q) start = q.last_number

-- The stored or the new sequence of the year, one number on. No other request runs between the
-- read and the write, so that the `IntegrityError` of a concurrent creation does not occur.
unfoldable pub next_number : ℕ → Db → ℕ
next_number year db = suc (
    last_number_of (find sequence_pk year db.shipment_sequences)
      (number_of (last_reference year db.shipments)))

unfoldable pub store_number : ℕ → ℕ → List ShipmentSequence → List ShipmentSequence
store_number year number [] = record { year = year; last_number = number } ∷ []
store_number year number (q ∷ qs) =
    if q.year == year
    then record q { last_number = number } ∷ qs
    else q ∷ store_number year number qs

unfoldable pub generate_shipment_reference : Clock → Db → Text × Db
generate_shipment_reference clock db =
    let number = next_number clock.year db in
    (
      format_reference clock.year number,
      record db { shipment_sequences = store_number clock.year number db.shipment_sequences },
    )

-- "EXP-TEMP-"
abbrev pub temp_shipment_reference_prefix : Text
temp_shipment_reference_prefix = b'E' ∷ b'X' ∷ b'P' ∷ b'-' ∷ b'T' ∷ b'E' ∷ b'M' ∷ b'P' ∷ b'-' ∷ []

-- `_should_promote_temp_reference`
unfoldable pub should_promote_temp_reference : Shipment → Bool
should_promote_temp_reference s =
    starts_with (strip s.reference) temp_shipment_reference_prefix
    && not (same_shipment_status s.status ShipmentStatus.draft)

abbrev pub is_empty : Text → Bool
is_empty [] = true
is_empty (_ ∷ _) = false

-- A shipment without a reference, and one with a temporary reference that is no draft any more,
-- get a new reference.
unfoldable pub needs_reference : Shipment → Bool
unfolding should_promote_temp_reference
needs_reference s = is_empty s.reference || should_promote_temp_reference s

-- `shipment.save(update_fields=…)` of a stored shipment.
unfoldable pub save_shipment : Clock → Shipment → Db → Db
save_shipment clock s db =
    let (reference, numbered) = generate_shipment_reference clock db in
    let renamed = record s { reference = reference } in
    if needs_reference s
    then record numbered { shipments = update shipment_pk s.id (λ _. renamed) db.shipments }
    else record db { shipments = update shipment_pk s.id (λ _. s) db.shipments }
