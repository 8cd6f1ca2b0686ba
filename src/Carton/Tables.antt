-- ===== src/Carton/Tables.antt =====
-- The tables that packing reads and writes beside the database of Rows: formats and code sequences
-- of cartons (wms/models_domain/shipment.py, wms/models_domain/inventory.py) and products.
use asf_wms.Prelude.{ℕ, Bool, Option, none, some, List, [], ◌∷◌, if◌then◌else◌}
use asf_wms.Rows.{Db}
use asf_wms.Catalog.{PackedProduct}
use asf_wms.Carton.Code.{CartonSequence}

-- Lengths in hundredths of a centimetre, as in Rows.
pub record CartonFormat : Type 0 where
  pub length_cm : ℕ
  pub width_cm : ℕ
  pub height_cm : ℕ
  pub max_weight_g : ℕ
  pub is_default : Bool

pub record Tables : Type 0 where
  pub db : Db
  pub sequences : List CartonSequence
  -- in the order of their names
  pub formats : List CartonFormat
  pub products : List PackedProduct

abbrev pub with_db : Tables → Db → Tables
with_db t d = record t { db = d }

pub record Dimensions : Type 0 where
  pub length_cm : Option ℕ
  pub width_cm : Option ℕ
  pub height_cm : Option ℕ

abbrev pub first_default : List CartonFormat → Option CartonFormat
first_default [] = none
first_default (f ∷ fs) = let rest = first_default fs in if f.is_default then some f else rest

abbrev pub first_format : List CartonFormat → Option CartonFormat
first_format [] = none
first_format (f ∷ _) = some f

abbrev pub format_dimensions : Option CartonFormat → Dimensions
format_dimensions none = record { length_cm = none; width_cm = none; height_cm = none }
format_dimensions (some f) = record {
  length_cm = some f.length_cm;
  width_cm = some f.width_cm;
  height_cm = some f.height_cm;
}

abbrev pub or_first : Option CartonFormat → List CartonFormat → Option CartonFormat
or_first none fs = first_format fs
or_first (some f) fs = some f

-- `_resolve_carton_dimensions` (wms/domain/stock.py)
unfoldable pub resolve_carton_dimensions : Option Dimensions → List CartonFormat → Dimensions
resolve_carton_dimensions (some size) formats = size
resolve_carton_dimensions none formats =
    format_dimensions (or_first (first_default formats) formats)
