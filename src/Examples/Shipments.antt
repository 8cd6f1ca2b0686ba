-- ===== src/Examples/Shipments.antt =====
-- Shipments with labelled cartons, and requests to the tracking page (wms/shipment_status.py,
-- wms/shipment_tracking_handlers.py, wms/reference_sequences.py).
use asf_wms.Prelude.{
  ℕ, ◌≡◌, ◌≢◌, ◌≤◌, refl, ap, Bool, true, false, Option, none, some, [], ◌∷◌, All, arith,
}
use asf_wms.Prelude.Table.{find, Distinct}
use asf_wms.Text.{Text, padded, decimal, starts_with}
use asf_wms.Rows.{
  ShipmentStatus, CartonStatus, TrackingStatus, Shipment, Carton, Db, Clock, shipment_pk, carton_pk,
  sequence_pk, shipment_code,
}
use asf_wms.Shipment.Reference.{
  year_prefix, should_promote_temp_reference, needs_reference, save_shipment, format_reference,
}
use asf_wms.Shipment.Reference.Laws.{IsCovered, save_shipment-fresh}
use asf_wms.Shipment.Status.{sync_shipment_ready_state}
use asf_wms.Shipment.Status.Laws.{FollowsCartons, sync_shipment_ready_state_lem}
use asf_wms.Shipment.Request.{
  Action, resolve_dispute, other, User, TrackingForm, updated, TrackingRequest,
}
use asf_wms.Shipment.Transitions.{
  validate_tracking_transition, allowed_tracking_statuses, validate_ready_for_planning,
}
use asf_wms.Shipment.Tracking.{
  handle_shipment_tracking_post, handle_dispute_action, update_tracking,
}
use asf_wms.Shipment.Tracking.Moves.{tracking_update_forward, tracking_boarding_ships_cartons}
use asf_wms.Examples.Shelf.{shelf}

abbrev pub clock : Clock
clock = record { now = 1000; year = 2026 }

-- "260004"
abbrev reference : Text
reference = b'2' ∷ b'6' ∷ b'0' ∷ b'0' ∷ b'0' ∷ b'4' ∷ []

abbrev pub a_shipment : Text → ShipmentStatus → Bool → Option ℕ → Shipment
a_shipment text status is_disputed ready_at = record {
  id = 30;
  reference = text;
  status = status;
  is_disputed = is_disputed;
  disputed_at = none;
  ready_at = ready_at;
}

abbrev pub a_carton : ℕ → CartonStatus → Carton
a_carton id status = record {
  id = id;
  code = [];
  status = status;
  shipment = some 30;
  preassigned_destination = none;
  current_location = none;
  length_cm = none;
  width_cm = none;
  height_cm = none;
  prepared_by = none;
  created_on = [];
  items = [];
}

abbrev pub a_db : Shipment → CartonStatus → Db
a_db s status = record {
  stock = shelf;
  cartons = a_carton 50 status ∷ a_carton 51 status ∷ [];
  shipments = s ∷ [];
  status_events = [];
  tracking_events = [];
  shipment_sequences = record { year = 2026; last_number = 4 } ∷ [];
  next_carton = 52;
}

abbrev staff : User
staff = record { pk = 1; is_authenticated = true; is_staff = true }

abbrev a_form : TrackingStatus → TrackingForm
a_form status = record { status = status; actor_name = []; actor_structure = []; comments = [] }

abbrev post : Action → Option User → Option TrackingForm → TrackingRequest
post action user form = record {
  is_post = true;
  action = action;
  user = user;
  form = form;
  return_to = record { return_to_list = false; return_to_view = []; return_to_key = [] };
}

abbrev planned : Shipment
planned = a_shipment reference ShipmentStatus.planned false (some 900)

abbrev boarding : TrackingRequest
boarding = post other (some staff) (some (a_form TrackingStatus.boarding_ok))

abbrev labeled_db : Db
labeled_db = a_db planned CartonStatus.labeled

cartons-Distinct :
    (s : Shipment) (status : CartonStatus) → Distinct carton_pk (a_db s status).cartons
cartons-Distinct s status = ground arith

boarding_accepted :
    (handle_shipment_tracking_post clock boarding planned labeled_db).0.message ≡ some updated
unfolding handle_shipment_tracking_post handle_dispute_action update_tracking
    validate_tracking_transition allowed_tracking_statuses validate_ready_for_planning
boarding_accepted = refl

tracking_update_forward_example :
    (s' : Shipment) × (find shipment_pk 30
        (handle_shipment_tracking_post clock boarding planned labeled_db).1.shipments
      ≡ some s')
    × (s'.status ≡ ShipmentStatus.shipped)
    × (3 ≤ shipment_code s'.status)
    × (s'.is_disputed ≡ false)
tracking_update_forward_example =
    tracking_update_forward clock boarding planned labeled_db refl refl boarding_accepted

tracking_boarding_ships_cartons_example :
    (planned.status ≡ ShipmentStatus.planned)
    × ((s' : Shipment) × (find shipment_pk 30
            (handle_shipment_tracking_post clock boarding planned labeled_db).1.shipments
          ≡ some s')
        × (s'.status ≡ ShipmentStatus.shipped))
    × (find carton_pk 51 (handle_shipment_tracking_post clock boarding planned labeled_db).1.cartons
        ≡ some (a_carton 51 CartonStatus.shipped))
tracking_boarding_ships_cartons_example =
    tracking_boarding_ships_cartons clock boarding planned labeled_db
      (cartons-Distinct planned CartonStatus.labeled) refl refl refl boarding_accepted refl refl

abbrev disputed_shipment : Shipment
disputed_shipment = a_shipment reference ShipmentStatus.shipped true (some 900)

abbrev shipped_db : Db
shipped_db = a_db disputed_shipment CartonStatus.shipped

abbrev resolution : TrackingRequest
resolution = post resolve_dispute (some staff) none

-- A shipment with a temporary reference, which its cartons make ready.
abbrev temporary : Shipment
temporary =
    a_shipment (b'E' ∷ b'X' ∷ b'P' ∷ b'-' ∷ b'T' ∷ b'E' ∷ b'M' ∷ b'P' ∷ b'-' ∷ b'7' ∷ [])
      ShipmentStatus.packed false none

abbrev temporary_db : Db
temporary_db = a_db temporary CartonStatus.labeled

abbrev head : Text → ℕ
head [] = 0
head (c ∷ cs) = c

temporary-IsCovered : IsCovered 2026 4 temporary_db.shipments
unfolding format_reference year_prefix padded decimal
temporary-IsCovered = (
  λ k e. let letter_is_digit : head temporary.reference ≡ b'2' = ap head e in absurd (omega arith),
  tt,
)

needs_one : needs_reference temporary ≡ true
unfolding needs_reference should_promote_temp_reference starts_with
needs_one = refl

save_shipment-fresh_example :
    let db' = save_shipment clock temporary temporary_db in
    ((row : Shipment) × (find shipment_pk 30 db'.shipments ≡ some row)
      × (row.reference ≡ format_reference 2026 5)
      × All (λ t. t.reference ≢ row.reference) temporary_db.shipments)
    × (find sequence_pk 2026 db'.shipment_sequences
        ≡ some (record { year = 2026; last_number = 5 }))
    × IsCovered 2026 5 db'.shipments
save_shipment-fresh_example =
    save_shipment-fresh clock temporary temporary_db refl refl temporary-IsCovered needs_one

sync_shipment_ready_state_lem_example :
    FollowsCartons 30 false temporary_db (sync_shipment_ready_state clock 30 temporary_db)
sync_shipment_ready_state_lem_example =
    sync_shipment_ready_state_lem clock 30 temporary_db refl refl
