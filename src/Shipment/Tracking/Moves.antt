-- ===== src/Shipment/Tracking/Moves.antt =====
-- How tracking moves a shipment (wms/shipment_tracking_handlers.py).
use asf_wms.Prelude.{
  ℕ, true, false, not, ◌≡◌, ◌≢◌, ◌≤◌, refl, ap, ◌∙◌, inl, inr, Bool-cases, Option, none, some, List,
  [], ◌∷◌, All, arith, filter, any, length-filter-le,
}
use asf_wms.Prelude.Table.{find, Distinct}
use asf_wms.Rows.{
  ShipmentStatus, CartonStatus, TrackingStatus, Shipment, Carton, Db, Clock, shipment_pk, carton_pk,
  shipment_code, same_shipment_status, same_tracking_status, in_shipment,
}
use asf_wms.Shipment.Reference.{save_shipment}
use asf_wms.Shipment.Reference.Laws.{saved, save-lem, saved_columns}
use asf_wms.Shipment.Status.{is_labeled}
use asf_wms.Shipment.Status.Laws.{labeled-All, same_status_eq}
use asf_wms.Shipment.Request.{TrackingForm, TrackingRequest, updated}
use asf_wms.Shipment.Transitions.{
  tracking_to_shipment_status, allowed_tracking_statuses, validate_ready_for_planning, needs_ready,
  validate_tracking_transition, latest_tracking_status,
}
use asf_wms.Shipment.Tracking.{
  is_carton_shipped, moved_row, ship_cartons, apply_target, handle_dispute_action, update_tracking,
  record_event, handle_shipment_tracking_post, actor,
}
use asf_wms.Shipment.Tracking.Each.{
  with_status, same_carton_status_eq, set_each-shipments, set_each-find-filter,
}

allowed_forward :
    (status : ShipmentStatus) (last : Option TrackingStatus) (t : TrackingStatus)
    → any (same_tracking_status t) (allowed_tracking_statuses status last) ≡ true
    → shipment_code status ≤ shipment_code (tracking_to_shipment_status t)
unfolding allowed_tracking_statuses
allowed_forward status last t h = ground arith

allowed_boarding :
    (status : ShipmentStatus) (last : Option TrackingStatus)
    → any (same_tracking_status TrackingStatus.boarding_ok) (allowed_tracking_statuses status last)
      ≡ true
    → status ≡ ShipmentStatus.planned
unfolding allowed_tracking_statuses
allowed_boarding status last h = ground arith

ready_labeled :
    (cs : List Carton)
    → validate_ready_for_planning cs ≡ none
    → (cs ≢ []) × All (λ c. is_labeled c.status ≡ true) cs
unfolding validate_ready_for_planning
ready_labeled [] h = cc
ready_labeled (c ∷ cs) h = (
  λ e. cc,
  labeled-All (c ∷ cs)
      (ground (arith, length-filter-le (λ (x : Carton). is_labeled x.status) (c ∷ cs))),
)

validate_ok :
    (s : Shipment) (t : TrackingStatus) (db : Db)
    → validate_tracking_transition s t db ≡ none
    → (any
          (same_tracking_status t)
          (allowed_tracking_statuses s.status (latest_tracking_status s.id db))
        ≡ true)
      × (needs_ready t ≡ true
          → validate_ready_for_planning (filter (in_shipment s.id) db.cartons) ≡ none)
unfolding validate_tracking_transition
validate_ok s t db h = (ground arith, λ n. ground (arith, n))

ship_cartons-shipments :
    (s : Shipment) (user : Option ℕ) (target : ShipmentStatus) (db : Db)
    → (ship_cartons user s target db).shipments ≡ db.shipments
unfolding ship_cartons
ship_cartons-shipments s user target db =
    elim (Bool-cases (same_shipment_status target ShipmentStatus.shipped)) [
      | inl leaves ↦ rw leaves (
          set_each-shipments user "tracking_boarding_ok" CartonStatus.shipped
            (filter (λ c. not (is_carton_shipped c)) (filter (in_shipment s.id) db.cartons)) db)
      | inr stays ↦ rw stays refl
    ]

apply_row :
    (clock : Clock) (s : Shipment) (db : Db) (user : Option ℕ) (target : ShipmentStatus)
    → find shipment_pk s.id db.shipments ≡ some s
    → (s' : Shipment) × (find shipment_pk s.id (apply_target clock user s target db).shipments
        ≡ some s')
      × (s'.status ≡ target)
      × (s'.is_disputed ≡ s.is_disputed)
unfolding apply_target moved_row
apply_row clock s db user target st = elim (Bool-cases (same_shipment_status s.status target)) [
  | inl same ↦ rw same (s, st, same_status_eq s.status target same, refl)
  | inr differs ↦
      let t = moved_row clock s target in
      let (_, status, disputed, _, _) = saved_columns clock t db in
      rw differs (
        saved clock t db,
        ap (find shipment_pk s.id) (ship_cartons-shipments s user target (save_shipment clock t db))
            ∙ (save-lem clock t db st).0,
        status,
        disputed,
      )
]

apply_boarding :
    (clock : Clock) (s : Shipment) (db : Db) (user : Option ℕ) {c : Carton}
    → Distinct carton_pk db.cartons
    → find shipment_pk s.id db.shipments ≡ some s
    → find carton_pk c.id db.cartons ≡ some c
    → in_shipment s.id c ≡ true
    → s.status ≡ ShipmentStatus.planned
    → find carton_pk c.id (apply_target clock user s ShipmentStatus.shipped db).cartons
      ≡ some (with_status CartonStatus.shipped c)
unfolding apply_target ship_cartons moved_row
apply_boarding clock s db user {c} d st fc mine planned =
    let t = moved_row clock s ShipmentStatus.shipped in
    let after = save_shipment clock t db in
    let same = (save-lem clock t db st).1 in
    let leaves = ap (λ v. same_shipment_status v ShipmentStatus.shipped) planned in
    rw leaves (
      set_each-find-filter user "tracking_boarding_ok" CartonStatus.shipped
        (λ x. not (is_carton_shipped x)) (in_shipment s.id) after {c = c} (rw same d) (rw same fc)
        mine (λ e. same_carton_status_eq c.status CartonStatus.shipped (ground (arith, e))))

module _ (clock : Clock) (q : TrackingRequest) (s : Shipment) (db : Db) where
  -- A request that is answered by "updated" passed the checks and was applied.
  updated_ok :
      {form : TrackingForm}
      → q.form ≡ some form
      → (handle_shipment_tracking_post clock q s db).0.message ≡ some updated
      → (validate_tracking_transition s form.status db ≡ none)
        × ((handle_shipment_tracking_post clock q s db).1
            ≡ apply_target clock
                (actor q.user)
                s
                (tracking_to_shipment_status form.status)
                (record_event q s form db))
        × (s.is_disputed ≡ false)
  unfolding handle_shipment_tracking_post handle_dispute_action update_tracking
  updated_ok f h = ground arith

  -- A shipment whose tracking was updated has the status that belongs to the tracking status; it is no
  -- earlier status than before, and the shipment was and is not disputed.
  pub tracking_update_forward :
      {form : TrackingForm}
      → find shipment_pk s.id db.shipments ≡ some s
      → q.form ≡ some form
      → (handle_shipment_tracking_post clock q s db).0.message ≡ some updated
      → let db' = (handle_shipment_tracking_post clock q s db).1 in
        (s' : Shipment) × (find shipment_pk s.id db'.shipments ≡ some s')
        × (s'.status ≡ tracking_to_shipment_status form.status)
        × (shipment_code s.status ≤ shipment_code s'.status)
        × (s'.is_disputed ≡ false)
  tracking_update_forward {form} st f h =
      let (valid, done, calm) = updated_ok f h in
      let (s', found, status, disputed) =
        apply_row clock s (record_event q s form db) (actor q.user)
          (tracking_to_shipment_status form.status) st in
      (
        s',
        ap (λ d. find shipment_pk s.id d.shipments) done ∙ found,
        status,
        rw status (
            allowed_forward s.status (latest_tracking_status s.id db) form.status
              (validate_ok s form.status db valid).0),
        disputed ∙ calm,
      )

  -- A tracking status up to the boarding is recorded only for a shipment with cartons, all of them
  -- labelled or shipped.
  pub tracking_update-labeled :
      {form : TrackingForm}
      → q.form ≡ some form
      → needs_ready form.status ≡ true
      → (handle_shipment_tracking_post clock q s db).0.message ≡ some updated
      → let cartons = filter (in_shipment s.id) db.cartons in
        (cartons ≢ []) × All (λ c. is_labeled c.status ≡ true) cartons
  tracking_update-labeled {form} f n h =
      let (valid, _, _) = updated_ok f h in
      ready_labeled (filter (in_shipment s.id) db.cartons)
        ((validate_ok s form.status db valid).1 n)

  -- Where the cartons have distinct keys, an accepted boarding of a stored shipment finds it planned,
  -- leaves it stored as shipped, and each of its cartons is stored as shipped with all else unchanged.
  pub tracking_boarding_ships_cartons :
      {form : TrackingForm} {c : Carton}
      → Distinct carton_pk db.cartons
      → find shipment_pk s.id db.shipments ≡ some s
      → q.form ≡ some form
      → form.status ≡ TrackingStatus.boarding_ok
      → (handle_shipment_tracking_post clock q s db).0.message ≡ some updated
      → find carton_pk c.id db.cartons ≡ some c
      → in_shipment s.id c ≡ true
      → let db' = (handle_shipment_tracking_post clock q s db).1 in
        (s.status ≡ ShipmentStatus.planned)
        × ((s' : Shipment) × (find shipment_pk s.id db'.shipments ≡ some s')
            × (s'.status ≡ ShipmentStatus.shipped))
        × (find carton_pk c.id db'.cartons ≡ some (with_status CartonStatus.shipped c))
  tracking_boarding_ships_cartons {form} {c} d st f b h fc mine =
      let (valid, done, _) = updated_ok f h in
      let planned =
        allowed_boarding s.status (latest_tracking_status s.id db)
          (rw b at ((validate_ok s form.status db valid).0)) in
      let (s', found, status, _, _) = tracking_update_forward st f h in
      (
        planned,
        (s', found, status ∙ ap tracking_to_shipment_status b),
        ap (λ x. find carton_pk c.id x.cartons) done
            ∙ ap
                (λ t.
                  find carton_pk c.id
                    (apply_target clock (actor q.user) s (tracking_to_shipment_status t)
                      (record_event q s form db)).cartons)
                b
            ∙ apply_boarding clock s (record_event q s form db) (actor q.user) d st fc mine planned,
      )
