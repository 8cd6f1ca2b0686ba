-- ===== src/Shipment/Tracking.antt =====
-- The tracking page of a shipment (wms/shipment_tracking_handlers.py). The log lines of a dispute
-- (wms/workflow_observability.py) are left out; a message is a constructor for its text.
pub mod Each
pub mod Moves
pub mod Disputes
use asf_wms.Prelude.{
  ℕ, suc, ◌+◌, ◌==◌, ltb, Bool, true, false, ◌&&◌, ◌||◌, not, Option, none, some, List, [], ◌∷◌,
  length, filter, any, if◌then◌else◌, is_some,
}
use asf_wms.Prelude.Table.{find}
use asf_wms.Text.{Text}
use asf_wms.Rows.{
  ShipmentStatus, CartonStatus, TrackingStatus, Shipment, Carton, TrackingEvent, Db, Clock,
  shipment_pk, same_shipment_status, same_carton_status, same_tracking_status, in_shipment,
}
use asf_wms.Shipment.Reference.{save_shipment}
use asf_wms.Shipment.Status.{is_labeled, is_packed, set_carton_status, sync_shipment_ready_state}
use Prim.Native.String.{String}
use asf_wms.Shipment.Request.{
  Action, User, TrackingForm, TransitionError, Message, Redirect, ReturnTo, TrackingRequest, Reply,
  redirect_to_tracking, says, unhandled, set_disputed, resolve_dispute, other, not_allowed,
  no_carton, not_all_assigned, not_all_labeled, staff_only, marked_disputed, dispute_resolved,
  still_disputed, updated, to_list, to_tracking,
}
use asf_wms.Shipment.Transitions.{
  tracking_to_shipment_status, is_resettable, is_assigned_or_ready, first_status,
  latest_tracking_status, is_latest, allowed_tracking_statuses, validate_ready_for_planning,
  needs_ready, validate_tracking_transition,
}

-- `for carton in cartons: set_carton_status(...)`
unfoldable pub set_each : Option ℕ → String → CartonStatus → List Carton → Db → Db
set_each user reason status [] db = db
set_each user reason status (c ∷ cs) db =
    set_each user reason status cs (set_carton_status user reason status c db)

-- `_resolve_actor(request.user)`
abbrev pub actor : Option User → Option ℕ
actor none = none
actor (some u) = if u.is_authenticated then some u.pk else none

abbrev pub can_manage_dispute : Option User → Bool
can_manage_dispute none = false
can_manage_dispute (some u) = u.is_authenticated && u.is_staff

unfoldable pub mark_disputed : Clock → Shipment → Db → Db
mark_disputed clock s db =
    if s.is_disputed
    then db
    else save_shipment clock (record s { is_disputed = true; disputed_at = some clock.now }) db

-- The row with the `updates` of `resolve_dispute`.
pub resolved_row : Clock → Shipment → Shipment
resolved_row clock s = record s {
  is_disputed = false;
  disputed_at = if s.is_disputed then none else s.disputed_at;
  status = if is_resettable s.status then ShipmentStatus.packed else s.status;
  ready_at =
      if is_resettable s.status && not (is_some s.ready_at) then some clock.now else s.ready_at;
}

abbrev pub has_left : ShipmentStatus → Bool
has_left ShipmentStatus.shipped = true
has_left ShipmentStatus.received_correspondent = true
has_left ShipmentStatus.delivered = true
has_left _ = false

abbrev pub is_carton_shipped : Carton → Bool
is_carton_shipped c = same_carton_status c.status CartonStatus.shipped

-- The cartons of a shipment that had left are labelled again.
pub reset_cartons : Option ℕ → Shipment → Db → Db
reset_cartons user s db =
    if has_left s.status
    then set_each user "dispute_resolve_reset" CartonStatus.labeled
        (filter is_carton_shipped (filter (in_shipment s.id) db.cartons)) db
    else db

unfoldable pub resolve : Clock → Option ℕ → Shipment → Db → Db
resolve clock user s db =
    if s.is_disputed || is_resettable s.status
    then sync_shipment_ready_state clock s.id
        (reset_cartons user s (save_shipment clock (resolved_row clock s) db))
    else db

-- `_handle_dispute_action`; `none` is its `None`.
unfoldable pub handle_dispute_action :
    Clock → TrackingRequest → Shipment → Action → Db → Option Reply × Db
handle_dispute_action clock q s set_disputed db =
    if can_manage_dispute q.user
    then (some (says q s.id marked_disputed), mark_disputed clock s db)
    else (some (says q s.id staff_only), db)
handle_dispute_action clock q s resolve_dispute db =
    if can_manage_dispute q.user
    then (some (says q s.id dispute_resolved), resolve clock (actor q.user) s db)
    else (some (says q s.id staff_only), db)
handle_dispute_action clock q s other db = (none, db)

abbrev pub record_event : TrackingRequest → Shipment → TrackingForm → Db → Db
record_event q s form db = record db {
  tracking_events =
      record {
        shipment = s.id;
        status = form.status;
        actor_name = form.actor_name;
        actor_structure = form.actor_structure;
        comments = form.comments;
        created_by = actor q.user;
      }
      ∷ db.tracking_events;
}

-- The row of a shipment that is set to a status.
unfoldable pub moved_row : Clock → Shipment → ShipmentStatus → Shipment
moved_row clock s target = record s {
  status = target;
  ready_at = if is_packed target && not (is_some s.ready_at) then some clock.now else s.ready_at;
}

-- When a shipment leaves, its cartons leave with it.
unfoldable pub ship_cartons : Option ℕ → Shipment → ShipmentStatus → Db → Db
ship_cartons user s target db =
    if same_shipment_status target ShipmentStatus.shipped
    then set_each user "tracking_boarding_ok" CartonStatus.shipped
        (filter (λ c. not (is_carton_shipped c)) (filter (in_shipment s.id) db.cartons)) db
    else db

-- The change of the shipment and of its cartons to a target status.
unfoldable pub apply_target : Clock → Option ℕ → Shipment → ShipmentStatus → Db → Db
apply_target clock user s target db =
    if same_shipment_status s.status target
    then db
    else ship_cartons user s target (save_shipment clock (moved_row clock s target) db)

unfoldable pub update_tracking :
    Clock → TrackingRequest → Shipment → Option TrackingForm → Db → Reply × Db
update_tracking clock q s none db = (unhandled, db)
update_tracking clock q s (some form) db = elim (validate_tracking_transition s form.status db) [
  | some e ↦ (record { redirect = none; message = none; form_error = some e }, db)
  | none ↦ (
    says q s.id updated,
    apply_target clock (actor q.user) s (tracking_to_shipment_status form.status)
        (record_event q s form db),
  )
]

unfoldable pub handle_shipment_tracking_post : Clock → TrackingRequest → Shipment → Db → Reply × Db
handle_shipment_tracking_post clock q s db =
    let (answer, after) = handle_dispute_action clock q s q.action db in
    if not q.is_post then (unhandled, db) else elim answer [
      | some reply ↦ (reply, after)
      | none ↦
          if s.is_disputed
          then (says q s.id still_disputed, db)
          else update_tracking clock q s q.form db
    ]
