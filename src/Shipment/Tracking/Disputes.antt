-- ===== src/Shipment/Tracking/Disputes.antt =====
-- Disputes on the tracking page (wms/shipment_tracking_handlers.py).
use asf_wms.Prelude.{
  ℕ, Bool, true, false, ◌||◌, ◌≡◌, ◌≢◌, refl, ap, ◌∙◌, inl, inr, ◌⊎◌, Bool-cases, Option, some,
  List, arith, filter,
}
use asf_wms.Prelude.Table.{find, Distinct}
use asf_wms.Rows.{
  ShipmentStatus, CartonStatus, Shipment, Carton, Db, Clock, shipment_pk, carton_pk, in_shipment,
  same_carton_status,
}
use asf_wms.Shipment.Reference.{save_shipment}
use asf_wms.Shipment.Reference.Laws.{saved, save-lem, saved_columns}
use asf_wms.Shipment.Status.{is_locked, compute_shipment_progress}
use asf_wms.Shipment.Status.Laws.{sync_shipment_ready_state_lem}
use asf_wms.Shipment.Request.{
  Action, set_disputed, resolve_dispute, other, Message, TrackingRequest, says, still_disputed,
  staff_only,
}
use asf_wms.Shipment.Transitions.{is_resettable}
use asf_wms.Shipment.Tracking.{
  has_left, is_carton_shipped, can_manage_dispute, actor, resolved_row, reset_cartons, resolve,
  handle_dispute_action, handle_shipment_tracking_post,
}
use asf_wms.Shipment.Tracking.Each.{with_status, set_each-shipments, set_each-find-filter}

progress-unlocked :
    (shipment : ℕ) (cs : List Carton)
    → is_locked (compute_shipment_progress shipment cs).status ≡ false
unfolding compute_shipment_progress
progress-unlocked shipment cs = ground arith

reset-shipments :
    (user : Option ℕ) (s : Shipment) (db : Db) → (reset_cartons user s db).shipments ≡ db.shipments
unfolding reset_cartons
reset-shipments user s db = elim (Bool-cases (has_left s.status)) [
  | inl left ↦ rw left (
      set_each-shipments user "dispute_resolve_reset" CartonStatus.labeled
        (filter is_carton_shipped (filter (in_shipment s.id) db.cartons)) db)
  | inr home ↦ rw home refl
]

resolved-unlocked :
    (clock : Clock) (s : Shipment)
    → (is_locked (resolved_row clock s).status ≡ false)
      × ((resolved_row clock s).is_disputed ≡ false)
unfolding resolved_row
resolved-unlocked clock s = ground arith

left_needs :
    (disputed : Bool) (status : ShipmentStatus)
    → has_left status ≡ true
    → (disputed || is_resettable status) ≡ true
left_needs disputed status h = ground arith

-- The shipment and the cartons after `resolve` has something to change.
resolve_ok :
    (clock : Clock) (user : Option ℕ) (s : Shipment) (db : Db)
    → find shipment_pk s.id db.shipments ≡ some s
    → (s.is_disputed || is_resettable s.status) ≡ true
    → let db' = resolve clock user s db in
      (s' : Shipment) × (find shipment_pk s.id db'.shipments ≡ some s')
      × (s'.is_disputed ≡ false)
      × (is_locked s'.status ≡ false)
      × (db'.cartons
          ≡ (reset_cartons user s (save_shipment clock (resolved_row clock s) db)).cartons)
unfolding resolve resolved_row
resolve_ok clock user s db st needed =
    let t = resolved_row clock s in
    let d1 = save_shipment clock t db in
    let d2 = reset_cartons user s d1 in
    let row = saved clock t db in
    let (_, status, disputed, _, _) = saved_columns clock t db in
    let found =
      ap (find shipment_pk s.id) (reset-shipments user s d1) ∙ (save-lem clock t db st).0 in
    let (unlocked, calm) = resolved-unlocked clock s in
    let (s', found', status', _, disputed', cartons') =
      sync_shipment_ready_state_lem clock s.id d2 {s = row} found
        (ap is_locked status ∙ unlocked) in
    rw needed (s', found', disputed' ∙ disputed ∙ calm, status'.2, cartons')

-- The message for a request that a dispute or the lack of the right to manage it refuses.
abbrev pub refusal : Action → Message
refusal other = still_disputed
refusal _ = staff_only

cong_refusal : (a : Action) → a ≡ other → refusal a ≡ still_disputed
cong_refusal a h = rw h refl

refusal_staff : (a : Action) → a ≢ other → refusal a ≡ staff_only
refusal_staff other h = absurd (h refl)
refusal_staff set_disputed h = refl
refusal_staff resolve_dispute h = refl

module _ (clock : Clock) (q : TrackingRequest) (s : Shipment) (db : Db) where
  -- While a shipment is disputed, a posted request that is no dispute action changes nothing and is
  -- answered by a message.
  disputed_blocks_tracking :
      q.is_post ≡ true
      → q.action ≡ other
      → s.is_disputed ≡ true
      → handle_shipment_tracking_post clock q s db ≡ (says q s.id still_disputed, db)
  unfolding handle_shipment_tracking_post handle_dispute_action
  disputed_blocks_tracking p a d = ground arith

  -- A posted dispute action by anyone but signed-in staff changes nothing.
  dispute_needs_staff :
      q.is_post ≡ true
      → q.action ≢ other
      → can_manage_dispute q.user ≡ false
      → handle_shipment_tracking_post clock q s db ≡ (says q s.id staff_only, db)
  unfolding handle_shipment_tracking_post handle_dispute_action
  dispute_needs_staff p a m = ground arith

  -- A posted request that is no dispute action while the shipment is disputed, and a posted dispute action
  -- by anyone but signed-in staff, change nothing and are answered by their message.
  pub refused_request_untouched :
      q.is_post ≡ true
      → ((q.action ≡ other) × (s.is_disputed ≡ true))
        ⊎ ((q.action ≢ other) × (can_manage_dispute q.user ≡ false))
      → handle_shipment_tracking_post clock q s db ≡ (says q s.id (refusal q.action), db)
  refused_request_untouched p (inl (a, d)) =
      rw (cong_refusal q.action a) (disputed_blocks_tracking p a d)
  refused_request_untouched p (inr (a, m)) =
      rw (refusal_staff q.action a) (dispute_needs_staff p a m)

  resolves :
      q.is_post ≡ true
      → q.action ≡ resolve_dispute
      → can_manage_dispute q.user ≡ true
      → (handle_shipment_tracking_post clock q s db).1 ≡ resolve clock (actor q.user) s db
  unfolding handle_shipment_tracking_post handle_dispute_action
  resolves p a m = ground arith

  -- Staff who resolve a dispute of a stored shipment leave it undisputed, and draft, picking or packed.
  pub resolve_dispute_unlocks :
      find shipment_pk s.id db.shipments ≡ some s
      → q.is_post ≡ true
      → q.action ≡ resolve_dispute
      → can_manage_dispute q.user ≡ true
      → let db' = (handle_shipment_tracking_post clock q s db).1 in
        (s' : Shipment) × (find shipment_pk s.id db'.shipments ≡ some s')
        × (s'.is_disputed ≡ false)
        × (is_locked s'.status ≡ false)
  unfolding resolve
  resolve_dispute_unlocks st p a m =
      let done = resolves p a m in
      elim (Bool-cases (s.is_disputed || is_resettable s.status)) [
        | inl needed ↦
            let (s', found, calm, unlocked, _) = resolve_ok clock (actor q.user) s db st needed in
            (s', ap (λ d. find shipment_pk s.id d.shipments) done ∙ found, calm, unlocked)
        | inr idle ↦ (s, rw (done, idle) st, ground arith, ground arith)
      ]

  -- When staff resolve a dispute of a shipment that had left, each of its shipped cartons is labelled
  -- again.
  pub resolve_dispute_relabels :
      {c : Carton}
      → Distinct carton_pk db.cartons
      → find shipment_pk s.id db.shipments ≡ some s
      → q.is_post ≡ true
      → q.action ≡ resolve_dispute
      → can_manage_dispute q.user ≡ true
      → has_left s.status ≡ true
      → find carton_pk c.id db.cartons ≡ some c
      → in_shipment s.id c ≡ true
      → c.status ≡ CartonStatus.shipped
      → find carton_pk c.id (handle_shipment_tracking_post clock q s db).1.cartons
        ≡ some (with_status CartonStatus.labeled c)
  unfolding reset_cartons resolved_row
  resolve_dispute_relabels {c} d st p a m left fc mine gone =
      let t = resolved_row clock s in
      let d1 = save_shipment clock t db in
      let same = (save-lem clock t db st).1 in
      let (_, _, _, _, cartons) =
        resolve_ok clock (actor q.user) s db st (left_needs s.is_disputed s.status left) in
      let is_gone = ap (λ v. same_carton_status v CartonStatus.shipped) gone in
      ap (λ x. find carton_pk c.id x.cartons) (resolves p a m)
      ∙ ap (find carton_pk c.id) cartons
      ∙ rw left (
          set_each-find-filter (actor q.user) "dispute_resolve_reset" CartonStatus.labeled
            is_carton_shipped (in_shipment s.id) d1 {c = c} (rw same d) (rw same fc) mine
            (λ e. absurd (cc is_gone)))
