-- ===== src/Shipment/Transitions.antt =====
-- The tracking statuses that a shipment may be given next, and what its cartons must be like
-- (wms/shipment_tracking_handlers.py, `validate_tracking_transition`).
use asf_wms.Prelude.{
  ℕ, ◌==◌, ltb, Bool, true, false, not, Option, none, some, List, [], ◌∷◌, length, filter, any,
  if◌then◌else◌,
}
use asf_wms.Rows.{
  ShipmentStatus, CartonStatus, TrackingStatus, Shipment, Carton, TrackingEvent, Db,
  same_tracking_status, in_shipment,
}
use asf_wms.Shipment.Status.{is_labeled}
use asf_wms.Shipment.Request.{
  TransitionError, not_allowed, no_carton, not_all_assigned, not_all_labeled,
}

-- `TRACKING_TO_SHIPMENT_STATUS`
abbrev pub tracking_to_shipment_status : TrackingStatus → ShipmentStatus
tracking_to_shipment_status TrackingStatus.planning_ok = ShipmentStatus.packed
tracking_to_shipment_status TrackingStatus.planned = ShipmentStatus.planned
tracking_to_shipment_status TrackingStatus.moved_export = ShipmentStatus.planned
tracking_to_shipment_status TrackingStatus.boarding_ok = ShipmentStatus.shipped
tracking_to_shipment_status TrackingStatus.received_correspondent =
    ShipmentStatus.received_correspondent
tracking_to_shipment_status TrackingStatus.received_recipient = ShipmentStatus.delivered

-- `DISPUTE_RESETTABLE_STATUSES`
abbrev pub is_resettable : ShipmentStatus → Bool
is_resettable ShipmentStatus.planned = true
is_resettable ShipmentStatus.shipped = true
is_resettable ShipmentStatus.received_correspondent = true
is_resettable ShipmentStatus.delivered = true
is_resettable _ = false

-- `ASSIGNED_OR_READY_CARTON_STATUSES`
abbrev pub is_assigned_or_ready : CartonStatus → Bool
is_assigned_or_ready CartonStatus.assigned = true
is_assigned_or_ready CartonStatus.labeled = true
is_assigned_or_ready CartonStatus.shipped = true
is_assigned_or_ready _ = false

abbrev pub first_status : List TrackingEvent → Option TrackingStatus
first_status [] = none
first_status (e ∷ _) = some e.status

abbrev pub latest_tracking_status : ℕ → Db → Option TrackingStatus
latest_tracking_status shipment db =
    first_status (filter (λ (e : TrackingEvent). e.shipment == shipment) db.tracking_events)

abbrev pub is_latest : TrackingStatus → Option TrackingStatus → Bool
is_latest wanted none = false
is_latest wanted (some status) = same_tracking_status status wanted

unfoldable pub allowed_tracking_statuses :
    ShipmentStatus → Option TrackingStatus → List TrackingStatus
allowed_tracking_statuses ShipmentStatus.delivered last = []
allowed_tracking_statuses ShipmentStatus.received_correspondent last =
    TrackingStatus.received_recipient ∷ []
allowed_tracking_statuses ShipmentStatus.shipped last = TrackingStatus.received_correspondent ∷ []
allowed_tracking_statuses ShipmentStatus.planned last =
    if is_latest TrackingStatus.moved_export last
    then TrackingStatus.boarding_ok ∷ []
    else TrackingStatus.moved_export ∷ TrackingStatus.boarding_ok ∷ []
allowed_tracking_statuses ShipmentStatus.packed last =
    if is_latest TrackingStatus.planning_ok last
    then TrackingStatus.planned ∷ []
    else TrackingStatus.planning_ok ∷ []
allowed_tracking_statuses _ last = TrackingStatus.planning_ok ∷ []

-- `_validate_ready_for_planning`; `none` is the empty text.
unfoldable pub validate_ready_for_planning : List Carton → Option TransitionError
validate_ready_for_planning cartons =
    let total = length cartons in
    let assigned_or_ready =
      length (filter (λ (c : Carton). is_assigned_or_ready c.status) cartons) in
    let ready = length (filter (λ (c : Carton). is_labeled c.status) cartons) in
    if total == 0
    then some no_carton
    else if ltb assigned_or_ready total
    then some not_all_assigned
    else if ltb ready total
    then some not_all_labeled
    else none

abbrev pub needs_ready : TrackingStatus → Bool
needs_ready TrackingStatus.planning_ok = true
needs_ready TrackingStatus.planned = true
needs_ready TrackingStatus.moved_export = true
needs_ready TrackingStatus.boarding_ok = true
needs_ready _ = false

unfoldable pub validate_tracking_transition :
    Shipment → TrackingStatus → Db → Option TransitionError
validate_tracking_transition s status db =
    let allowed = allowed_tracking_statuses s.status (latest_tracking_status s.id db) in
    if not (any (same_tracking_status status) allowed)
    then some not_allowed
    else if needs_ready status
    then validate_ready_for_planning (filter (in_shipment s.id) db.cartons)
    else none
