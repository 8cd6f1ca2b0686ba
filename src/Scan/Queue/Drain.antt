-- ===== src/Scan/Queue/Drain.antt =====
-- A run whose limit covers the queue empties it (wms/document_scan_queue.py,
-- `process_document_scan_queue`).
use asf_wms.Prelude.{
  ℕ, ◌==◌, ◌≤◌, ℤ, Bool, true, false, ◌&&◌, Option, some, List, [], ◌∷◌, length, take, take_all,
  filter, All, ◌≡◌, ◌≢◌, refl, sym, ◌∙◌, inl, inr, ◌⊎◌, ◌||◌, Bool-cases, arith,
}
use mathlib.Core.Path.{subst}
use asf_wms.Prelude.Table.{find, Fresh, Distinct, find-key, find-filter, find-All}
use asf_wms.Prelude.OrderBy.{order_by, length-order_by, All-order_by_back}
use asf_wms.Text.{Text}
use asf_wms.Scan.File.{Settings, Machine, safe_int}
use asf_wms.Scan.Queue.{
  IntegrationStatus, IntegrationEvent, Queue, Claimer, event_pk, in_queue, can_claim,
  has_candidate_status, is_processing, is_stale,
}
use asf_wms.Scan.Queue.Claim.{is_claimable}
use asf_wms.Scan.Queue.Run.{ModelLookup, event_key, select_events, process_document_scan_queue}
use asf_wms.Scan.Queue.Run.Settled.{is_final, Ends}
use asf_wms.Scan.Queue.Correct.{claimer, process_document_scan_queue-settles}

-- An event is among those that end, or none of them has its key.
ended_or_Fresh :
    (id : ℕ) (es events : List IntegrationEvent)
    → All (λ e. Ends e.id events) es
    → Fresh event_pk id es ⊎ Ends id events
ended_or_Fresh id [] events h = inl tt
ended_or_Fresh id (e ∷ es) events h = elim (ended_or_Fresh id es events h.1) [
  | inr ended ↦ inr ended
  | inl fresh ↦ elim (Bool-cases (e.id == id)) [
    | inl same ↦
        let eq : e.id ≡ id = ground (arith, same) in inr (subst (λ i. Ends i events) eq h.0)
    | inr other ↦ inl ((λ eq. let no : (e.id == id) ≡ true = ground (arith, eq) in cc), fresh)
  ]
]

some_eq : {a b : IntegrationEvent} → some a ≡ some b → a ≡ b
some_eq h = cc

and_false : (b : Bool) → (b && false) ≡ false
and_false true = refl
and_false false = refl

status_blocked :
    (status : IntegrationStatus) (stale : Bool)
    → is_final status ≡ true
    → (has_candidate_status false status || (is_processing status && stale)) ≡ false
status_blocked IntegrationStatus.processed stale h = refl
status_blocked IntegrationStatus.failed stale h = refl
status_blocked IntegrationStatus.pending stale h = cc
status_blocked IntegrationStatus.processing stale h = cc

-- A final status is not claimed again, unless failed events are included.
final_blocked :
    (k : Claimer) (e : IntegrationEvent)
    → k.include_failed ≡ false
    → is_final e.status ≡ true
    → is_claimable k e ≡ false
unfolding can_claim
final_blocked k e off final =
    rw (off, status_blocked e.status (is_stale k.timeout k.now e.processed_at) final)
      (and_false (in_queue e))

-- An event that could be claimed and is stored has been selected, if the limit covers all of them.
not_selected :
    (k : Claimer) (n id : ℕ) (events : List IntegrationEvent) {row : IntegrationEvent}
    → length (filter (is_claimable k) events) ≤ n
    → Fresh event_pk id (select_events k n events)
    → find event_pk id events ≡ some row
    → is_claimable k row ≡ false
unfolding select_events
not_selected k n id events {row} fits fresh found = elim (Bool-cases (is_claimable k row)) [
  | inr off ↦ off
  | inl free ↦
      let pool = filter (is_claimable k) events in
      let all_taken : take n (order_by event_key pool) ≡ order_by event_key pool =
        take_all n _ (omega (arith, length-order_by event_key pool, fits)) in
      let fresh' =
        All-order_by_back event_key (λ e. event_pk e ≢ id) pool
          (subst (Fresh event_pk id) all_taken fresh) in
      let kept = find-filter event_pk (is_claimable k) id events {r = row} found free in
      absurd (
        find-All event_pk (λ e. event_pk e ≢ id) id pool {r = row} fresh' kept
          (find-key event_pk id events found))
]

-- Where the keys of the events are distinct and the limit is at least the number of events that can be
-- claimed, a run without the failed events leaves no event that it could claim.
pub process_document_scan_queue-drains :
    (get_model : Text → ModelLookup) (m : Machine) (s : Settings) (now : ℕ) (limit : Option ℤ)
    (override : Option (Option ℤ)) (q : Queue) (id : ℕ) {row : IntegrationEvent}
    → Distinct event_pk q.events
    → length (filter (is_claimable (claimer s now false override)) q.events) ≤ safe_int limit 100 1
    → find event_pk id
        (process_document_scan_queue get_model m s now limit false override q).0.events
      ≡ some row
    → is_claimable (claimer s now false override) row ≡ false
process_document_scan_queue-drains get_model m s now limit override q id {row} d fits found =
    let k = claimer s now false override in
    let after = (process_document_scan_queue get_model m s now limit false override q).0.events in
    let sel = select_events k (safe_int limit 100 1) q.events in
    let (ends, kept) =
      process_document_scan_queue-settles get_model m s now limit false override q d in
    elim (ended_or_Fresh id sel after ends) [
      | inl fresh ↦
          not_selected k (safe_int limit 100 1) id q.events fits fresh (sym (kept id fresh) ∙ found)
      | inr ended ↦
          let same : ended.row ≡ row = some_eq (sym ended.stored ∙ found) in
          subst (λ r. is_claimable k r ≡ false) same (final_blocked k ended.row refl ended.final)
    ]
