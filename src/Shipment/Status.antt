-- ===== src/Shipment/Status.antt =====
-- Statuses of cartons and their history (wms/carton_status_events.py), and the status of a shipment
-- as it follows from its cartons (wms/shipment_status.py). A carton's log lines
-- (wms/workflow_observability.py) are left out.
pub mod Laws
use asf_wms.Prelude.{
  ℕ, suc, ◌+◌, ◌==◌, ltb, Bool, true, false, ◌&&◌, ◌||◌, not, Option, none, some, List, [], ◌∷◌,
  length, filter, if◌then◌else◌, is_some,
}
use asf_wms.Prelude.Table.{find, update}
use asf_wms.Rows.{
  ShipmentStatus, CartonStatus, Shipment, Carton, Db, Clock, shipment_pk, carton_pk,
  same_shipment_status, same_carton_status, in_shipment,
}
use asf_wms.Shipment.Reference.{save_shipment}
use Prim.Native.String.{String}

-- `set_carton_status` on a carton object whose new columns stand in `c`; `user` is the acting user
-- if he is known and signed in, else none.
unfoldable pub set_carton_status : Option ℕ → String → CartonStatus → Carton → Db → Db
set_carton_status user reason new_status c db =
    if same_carton_status c.status new_status then db else record db {
      cartons = update carton_pk c.id (λ _. record c { status = new_status }) db.cartons;
      status_events =
          record {
            carton = c.id;
            previous_status = c.status;
            new_status = new_status;
            reason = reason;
            created_by = user;
          }
          ∷ db.status_events;
    }

abbrev pub is_locked : ShipmentStatus → Bool
is_locked ShipmentStatus.planned = true
is_locked ShipmentStatus.shipped = true
is_locked ShipmentStatus.received_correspondent = true
is_locked ShipmentStatus.delivered = true
is_locked _ = false

-- `LABELED_CARTON_STATUSES`
abbrev pub is_labeled : CartonStatus → Bool
is_labeled CartonStatus.labeled = true
is_labeled CartonStatus.shipped = true
is_labeled _ = false

-- The label shown: "CRÉATION", "EN COURS (labeled/total)", "PRÊT".
pub data ProgressLabel : Type 0 where
  creation : ProgressLabel
  in_progress : ℕ → ℕ → ProgressLabel
  ready : ProgressLabel

pub record Progress : Type 0 where
  pub total : ℕ
  pub labeled : ℕ
  pub status : ShipmentStatus
  pub label : ProgressLabel

unfoldable pub compute_shipment_progress : ℕ → List Carton → Progress
compute_shipment_progress shipment all_cartons =
    let cartons = filter (in_shipment shipment) all_cartons in
    let total = length cartons in
    let labeled = length (filter (λ (c : Carton). is_labeled c.status) cartons) in
    if total == 0
    then record {
      total = total;
      labeled = labeled;
      status = ShipmentStatus.draft;
      label = creation;
    }
    else if ltb labeled total
    then record {
      total = total;
      labeled = labeled;
      status = ShipmentStatus.picking;
      label = in_progress labeled total;
    }
    else record { total = total; labeled = labeled; status = ShipmentStatus.packed; label = ready }

abbrev pub is_packed : ShipmentStatus → Bool
is_packed status = same_shipment_status status ShipmentStatus.packed

-- `updates.get("ready_at", shipment.ready_at)`
pub synced_ready_at : ℕ → ShipmentStatus → Shipment → Option ℕ
synced_ready_at now new_status s =
    if is_packed new_status
    then (if not (is_packed s.status) || not (is_some s.ready_at) then some now else s.ready_at)
    else none

-- `if updates`
pub needs_sync : ShipmentStatus → Shipment → Bool
needs_sync new_status s =
    not (same_shipment_status s.status new_status)
    || (if is_packed new_status
        then not (is_packed s.status) || not (is_some s.ready_at)
        else is_some s.ready_at)

unfoldable pub sync_row : Clock → Shipment → Db → Db
unfolding synced_ready_at needs_sync
sync_row clock s db =
    let new_status = (compute_shipment_progress s.id db.cartons).status in
    if is_locked s.status
    then db
    else if needs_sync new_status s
    then save_shipment clock
        (record s { status = new_status; ready_at = synced_ready_at clock.now new_status s }) db
    else db

pub sync_found : Clock → Option Shipment → Db → Db
sync_found clock none db = db
sync_found clock (some s) db = sync_row clock s db

-- The argument is the key of a stored shipment.
unfoldable pub sync_shipment_ready_state : Clock → ℕ → Db → Db
unfolding sync_found
sync_shipment_ready_state clock shipment db =
    sync_found clock (find shipment_pk shipment db.shipments) db
