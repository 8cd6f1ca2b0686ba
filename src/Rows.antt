-- ===== src/Rows.antt =====
-- The rows of cartons, shipments and tracking (wms/models_domain/shipment.py) and the database as
-- far as the modelled operations read and write it. A row object of the program is its key here:
-- within a request the objects are in step with their rows.
use asf_wms.Prelude.{ℕ, ℤ, Option, List, Bool, ◌==◌, eq_option, some}
use asf_wms.Text.{Text}
use asf_wms.Stock.{Stock}
use Prim.Native.String.{String}

pub data ShipmentStatus : Type 0 where
  draft picking packed planned shipped received_correspondent delivered : ShipmentStatus

pub data CartonStatus : Type 0 where
  draft picking packed assigned labeled shipped : CartonStatus

pub data TrackingStatus : Type 0 where
  planning_ok planned moved_export boarding_ok received_correspondent received_recipient :
      TrackingStatus

-- The columns of a shipment that the operations read or write.
pub record Shipment : Type 0 where
  pub id : ℕ
  pub reference : Text
  pub status : ShipmentStatus
  pub is_disputed : Bool
  pub disputed_at : Option ℕ
  pub ready_at : Option ℕ

pub record CartonItem : Type 0 where
  pub product_lot : ℕ
  pub quantity : ℤ
  pub display_expires_on : Option ℕ

-- A carton with its items (`cartonitem_set`), oldest first.
pub record Carton : Type 0 where
  pub id : ℕ
  pub code : Text
  pub status : CartonStatus
  pub shipment : Option ℕ
  pub preassigned_destination : Option ℕ
  pub current_location : Option ℕ
  -- in hundredths of a centimetre
  pub length_cm : Option ℕ
  pub width_cm : Option ℕ
  pub height_cm : Option ℕ
  pub prepared_by : Option ℕ
  -- the local date of `created_at`, as `YYYYMMDD`
  pub created_on : Text
  pub items : List CartonItem

pub record CartonStatusEvent : Type 0 where
  pub carton : ℕ
  pub previous_status : CartonStatus
  pub new_status : CartonStatus
  pub reason : String
  pub created_by : Option ℕ

pub record TrackingEvent : Type 0 where
  pub shipment : ℕ
  pub status : TrackingStatus
  pub actor_name : Text
  pub actor_structure : Text
  pub comments : Text
  pub created_by : Option ℕ

-- `ShipmentSequence` (wms/models_domain/inventory.py)
pub record ShipmentSequence : Type 0 where
  pub year : ℕ
  pub last_number : ℕ

-- The logs have their newest entry first, as the models order them.
pub record Db : Type 0 where
  pub stock : Stock
  pub cartons : List Carton
  pub shipments : List Shipment
  pub status_events : List CartonStatusEvent
  pub tracking_events : List TrackingEvent
  pub shipment_sequences : List ShipmentSequence
  -- the next primary key of the carton table
  pub next_carton : ℕ

-- `timezone.now()` and the year of `timezone.localdate()`
pub record Clock : Type 0 where
  pub now : ℕ
  pub year : ℕ

abbrev pub shipment_pk : Shipment → ℕ
shipment_pk s = s.id

abbrev pub carton_pk : Carton → ℕ
carton_pk c = c.id

abbrev pub sequence_pk : ShipmentSequence → ℕ
sequence_pk q = q.year

abbrev pub shipment_code : ShipmentStatus → ℕ
shipment_code draft = 0
shipment_code picking = 1
shipment_code packed = 2
shipment_code planned = 3
shipment_code shipped = 4
shipment_code received_correspondent = 5
shipment_code delivered = 6

abbrev pub carton_code : CartonStatus → ℕ
carton_code draft = 0
carton_code picking = 1
carton_code packed = 2
carton_code assigned = 3
carton_code labeled = 4
carton_code shipped = 5

abbrev pub tracking_code : TrackingStatus → ℕ
tracking_code planning_ok = 0
tracking_code planned = 1
tracking_code moved_export = 2
tracking_code boarding_ok = 3
tracking_code received_correspondent = 4
tracking_code received_recipient = 5

-- `==` on statuses
abbrev pub same_shipment_status : ShipmentStatus → ShipmentStatus → Bool
same_shipment_status a b = shipment_code a == shipment_code b

abbrev pub same_carton_status : CartonStatus → CartonStatus → Bool
same_carton_status a b = carton_code a == carton_code b

abbrev pub same_tracking_status : TrackingStatus → TrackingStatus → Bool
same_tracking_status a b = tracking_code a == tracking_code b

-- `shipment.carton_set`
abbrev pub in_shipment : ℕ → Carton → Bool
in_shipment shipment c = eq_option c.shipment (some shipment)
