-- ===== src/Shipment/Status/Laws.antt =====
-- The status of a shipment follows its cartons (wms/shipment_status.py).
use asf_wms.Prelude.{
  ℕ, ◌==◌, ltb, Bool, true, false, some, List, [], ◌∷◌, ◌≡◌, ◌≢◌, ◌↔◌, refl, ap, sym, ◌∙◌, inl, inr,
  Bool-cases, Option-cases, All, arith, if◌then◌else◌, is_some, length, filter, length-filter-le,
}
use mathlib.Core.Path.{subst}
use asf_wms.Prelude.Table.{find, find-key}
use asf_wms.Rows.{
  ShipmentStatus, Shipment, Carton, Db, Clock, shipment_pk, in_shipment, same_shipment_status,
}
use asf_wms.Shipment.Reference.{generate_shipment_reference, save_shipment}
use asf_wms.Shipment.Reference.Laws.{saved, save-lem, saved_columns}
use asf_wms.Shipment.Status.{
  is_locked, is_labeled, is_packed, compute_shipment_progress, synced_ready_at, needs_sync,
  sync_row, sync_found, sync_shipment_ready_state,
}

pub labeled-All :
    (cs : List Carton)
    → length (filter (λ (c : Carton). is_labeled c.status) cs) ≡ length cs
    → All (λ c. is_labeled c.status ≡ true) cs
labeled-All [] h = tt
labeled-All (c ∷ cs) h =
    let bound = length-filter-le (λ (c : Carton). is_labeled c.status) cs in
    elim (Bool-cases (is_labeled c.status)) [
      | inl l ↦ (l, labeled-All cs (ground arith))
      | inr u ↦ absurd (ground (arith, bound))
    ]

All-labeled :
    (cs : List Carton)
    → All (λ c. is_labeled c.status ≡ true) cs
    → length (filter (λ (c : Carton). is_labeled c.status) cs) ≡ length cs
All-labeled [] h = refl
All-labeled (c ∷ cs) h = ground (arith, h.0, All-labeled cs h.1)

-- The status by the two counts.
pub status_of : List Carton → ShipmentStatus
status_of cs =
    if length cs == 0
    then ShipmentStatus.draft
    else if ltb (length (filter (λ (c : Carton). is_labeled c.status) cs)) (length cs)
    then ShipmentStatus.picking
    else ShipmentStatus.packed

pub progress-status_of :
    (shipment : ℕ) (cs : List Carton)
    → (compute_shipment_progress shipment cs).status ≡ status_of (filter (in_shipment shipment) cs)
unfolding compute_shipment_progress status_of
progress-status_of shipment cs = ground arith

status_of-packed :
    (cs : List Carton)
    → (status_of cs ≡ ShipmentStatus.packed)
      ↔ ((cs ≢ []) × All (λ c. is_labeled c.status ≡ true) cs)
unfolding status_of
status_of-packed [] = (λ e. cc, λ (e, _). absurd (e refl))
status_of-packed (c ∷ cs) = (
  λ e. (
    λ z. cc,
    labeled-All (c ∷ cs)
        (ground (arith, e, length-filter-le (λ (x : Carton). is_labeled x.status) (c ∷ cs))),
  ),
  λ (_, h). ground (arith, All-labeled (c ∷ cs) h),
)

status_of-unlocked : (cs : List Carton) → is_locked (status_of cs) ≡ false
unfolding status_of
status_of-unlocked cs = ground arith

status_of-draft : (cs : List Carton) → (status_of cs ≡ ShipmentStatus.draft) ↔ (cs ≡ [])
unfolding status_of
status_of-draft [] = (λ _. refl, λ _. refl)
status_of-draft (c ∷ cs) = (λ e. ground arith, λ e. cc)

-- The status of a shipment with the cartons `cs`: packed exactly when there are cartons and every one
-- is labelled or shipped, a draft exactly when there is none, and else in picking, since it is none of
-- the later statuses.
abbrev pub IsStatusOf : List Carton → ShipmentStatus → Type 0
IsStatusOf cs status =
    ((status ≡ ShipmentStatus.packed)
      ↔ ((cs ≢ []) × All (λ (c : Carton). is_labeled c.status ≡ true) cs))
    × ((status ≡ ShipmentStatus.draft) ↔ (cs ≡ []))
    × (is_locked status ≡ false)

-- The computed status is that of the shipment's cartons.
pub compute_shipment_progress-status :
    (shipment : ℕ) (all_cartons : List Carton)
    → IsStatusOf
        (filter (in_shipment shipment) all_cartons)
        (compute_shipment_progress shipment all_cartons).status
compute_shipment_progress-status shipment all_cartons =
    let cartons = filter (in_shipment shipment) all_cartons in
    rw (progress-status_of shipment all_cartons)
      (status_of-packed cartons, status_of-draft cartons, status_of-unlocked cartons)

pub same_status_eq : (a b : ShipmentStatus) → same_shipment_status a b ≡ true → a ≡ b
same_status_eq a b h = ground arith

-- A row that needs no update is as the update would make it.
unneeded :
    (new_status : ShipmentStatus) (s : Shipment)
    → needs_sync new_status s ≡ false
    → (s.status ≡ new_status) × (is_some s.ready_at ≡ is_packed s.status)
unfolding needs_sync
unneeded new_status s h =
    let same : s.status ≡ new_status = same_status_eq s.status new_status (ground arith) in
    (same, rw same (ground arith))

ready_when_packed :
    (now : ℕ) (new_status : ShipmentStatus) (s : Shipment)
    → is_some (synced_ready_at now new_status s) ≡ is_packed new_status
unfolding synced_ready_at
ready_when_packed now new_status s = ground arith

-- What the update makes of an unlocked row.
synced : Clock → Db → Shipment → Shipment
synced clock db s =
    let new_status = (compute_shipment_progress s.id db.cartons).status in
    record s { status = new_status; ready_at = synced_ready_at clock.now new_status s }

-- A stored shipment has the status of its cartons, a ready date exactly when it is packed, and a given
-- dispute flag, and the cartons are those of an earlier database.
abbrev pub FollowsCartons : ℕ → Bool → Db → Db → Type 0
FollowsCartons shipment disputed db db' =
    (s' : Shipment) × (find shipment_pk shipment db'.shipments ≡ some s')
    × IsStatusOf (filter (in_shipment shipment) db.cartons) s'.status
    × (is_some s'.ready_at ≡ is_packed s'.status)
    × (s'.is_disputed ≡ disputed)
    × (db'.cartons ≡ db.cartons)

sync_row_lem :
    (clock : Clock) (s : Shipment) (db : Db)
    → find shipment_pk s.id db.shipments ≡ some s
    → is_locked s.status ≡ false
    → let db' = sync_row clock s db in FollowsCartons s.id s.is_disputed db db'
unfolding sync_row synced
sync_row_lem clock s db st free =
    let new_status = (compute_shipment_progress s.id db.cartons).status in
    let t = synced clock db s in
    let mine = IsStatusOf (filter (in_shipment s.id) db.cartons) in
    let given = compute_shipment_progress-status s.id db.cartons in
    elim (Bool-cases (needs_sync new_status s)) [
      | inl needed ↦
          let (found, cartons) = save-lem clock t db st in
          let (_, status, disputed, _, ready) = saved_columns clock t db in
          rw (free, needed)
            (
              saved clock t db,
              found,
              subst mine (sym status) given,
              ap is_some ready
                  ∙ ready_when_packed clock.now new_status s
                  ∙ ap is_packed (sym status),
              disputed,
              cartons,
            )
      | inr idle ↦
          let (same, ready) = unneeded new_status s idle in
          rw (free, idle) (s, st, subst mine (sym same) given, ready, refl, refl)
    ]

module _ (clock : Clock) (shipment : ℕ) (db : Db) where
  -- After the update of a stored shipment that is not locked (planned, shipped, received or delivered),
  -- it is packed exactly when it has cartons and every one is labelled or shipped, a draft exactly when
  -- it has none, and else in picking; it has a ready date exactly when it is packed, and its dispute
  -- flag is as before; the cartons are not touched.
  pub sync_shipment_ready_state_lem :
      {s : Shipment}
      → find shipment_pk shipment db.shipments ≡ some s
      → is_locked s.status ≡ false
      → let db' = sync_shipment_ready_state clock shipment db in
        FollowsCartons shipment s.is_disputed db db'
  unfolding sync_shipment_ready_state
  sync_shipment_ready_state_lem {s} st free =
      let key : s.id ≡ shipment = find-key shipment_pk shipment db.shipments st in
      rw (st, sync_found)
        (subst (λ k. FollowsCartons k s.is_disputed db (sync_row clock s db)) key
          (sync_row_lem clock s db
            (subst (λ k. find shipment_pk k db.shipments ≡ some s) (sym key) st) free))

  -- A shipment that is planned, shipped, received or delivered is left alone, with all other data.
  pub sync_shipment_ready_state-locked :
      {s : Shipment}
      → find shipment_pk shipment db.shipments ≡ some s
      → is_locked s.status ≡ true
      → sync_shipment_ready_state clock shipment db ≡ db
  unfolding sync_shipment_ready_state sync_row
  sync_shipment_ready_state-locked st locked = rw (st, sync_found, locked) refl

sync_row-others :
    (clock : Clock) (s : Shipment) (db : Db)
    → ((sync_row clock s db).stock ≡ db.stock) × ((sync_row clock s db).cartons ≡ db.cartons)
unfolding sync_row save_shipment generate_shipment_reference
sync_row-others clock s db = ground arith

-- The update of a shipment's status touches neither the stock nor the cartons.
pub sync-others :
    (clock : Clock) (shipment : ℕ) (db : Db)
    → let db' = sync_shipment_ready_state clock shipment db in
      (db'.stock ≡ db.stock) × (db'.cartons ≡ db.cartons)
unfolding sync_shipment_ready_state sync_found
sync-others clock shipment db = elim (Option-cases (find shipment_pk shipment db.shipments)) [
  | inl missing ↦ rw missing (refl, refl)
  | inr (s, found) ↦ rw found (sync_row-others clock s db)
]
