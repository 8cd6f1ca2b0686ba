-- ===== src/Scan/Queue/Correct.antt =====
-- What a run of the queue does (wms/document_scan_queue.py, `process_document_scan_queue`).
use asf_wms.Prelude.{
  ℕ, ◌+◌, ◌≤◌, ℤ, Bool, true, Option, List, length, length-map, length-take_le, map, All, All-map,
  All-unmap, ◌≡◌, ◌≢◌, refl, ap, ◌∙◌, is_some, arith,
}
use asf_wms.Prelude.Table.{find, Fresh, Distinct, map-Distinct}
use asf_wms.Text.{Text}
use asf_wms.Scan.File.{Settings, Machine, safe_int}
use asf_wms.Scan.Queue.{IntegrationEvent, Queue, Claimer, event_pk}
use asf_wms.Scan.Queue.Run.{
  ModelLookup, Counts, no_counts, select_events, claim_events, process_events,
  processing_timeout_seconds, process_document_scan_queue,
}
use asf_wms.Scan.Queue.Run.Settled.{
  Ends, outcomes, process_events-counts, process_events-others, process_events-Ends,
}
use asf_wms.Scan.Queue.Run.Claims.{
  marked, IsReady, select_events-IsReady, claim_events-all, claim_events-others,
  claim_events-stored, AsRead-IsStored,
}

-- What the run claims with, and what it selects.
abbrev pub claimer : Settings → ℕ → Bool → Option (Option ℤ) → Claimer
claimer s now include_failed override = record {
  include_failed = include_failed;
  timeout = processing_timeout_seconds s override;
  now = now;
}

module _ (get_model : Text → ModelLookup) (m : Machine) (s : Settings) (now : ℕ) (limit : Option ℤ)
    (include_failed : Bool) (override : Option (Option ℤ)) (q : Queue) where
  abbrev pub selection : List IntegrationEvent
  selection = select_events (claimer s now include_failed override) (safe_int limit 100 1) q.events

  abbrev pub outcome : Queue × Counts
  outcome = process_document_scan_queue get_model m s now limit include_failed override q

  abbrev k : Claimer
  k = claimer s now include_failed override

  module _ (d : Distinct event_pk q.events) where
    ready : IsReady k selection q.events
    ready = select_events-IsReady k (safe_int limit 100 1) q.events d

    claims_all : (claim_events k selection q.events).0 ≡ map marked selection
    claims_all = claim_events-all k selection q.events ready

    abbrev table : Queue
    table = record q { events = (claim_events k selection q.events).1 }

    abbrev start : Queue × Counts
    start = (table, record no_counts { selected = length (map marked selection) })

    -- The run processes what it selected.
    outcome_lem : outcome ≡ process_events get_model m s now (map marked selection) start
    unfolding process_document_scan_queue
    outcome_lem =
        ap
          (λ es.
            process_events get_model m s now es (table, record no_counts { selected = length es }))
          claims_all

    selection-Ends : All (λ e. Ends e.id outcome.0.events) selection
    selection-Ends =
        let events = process_events get_model m s now (map marked selection) start in
        let stored =
          AsRead-IsStored k selection q.events table.events
            (λ id. claim_events-stored k id selection q.events ready) ready.as_read in
        rw outcome_lem (
          All-unmap marked (λ e. Ends e.id events.0.events) selection
            (process_events-Ends get_model m s now (map marked selection) table start.1
              (map-Distinct event_pk marked selection (λ _. refl) ready.keys)
              (All-map marked (λ e. is_some (find event_pk e.id table.events) ≡ true) selection
                stored)))

    others_kept :
        (id : ℕ)
        → Fresh event_pk id selection
        → find event_pk id outcome.0.events ≡ find event_pk id q.events
    others_kept id f =
        ap (λ o. find event_pk id o.0.events) outcome_lem
        ∙ process_events-others get_model m s now id (map marked selection) table start.1
            (All-map marked (λ e. event_pk e ≢ id) selection f)
        ∙ claim_events-others k id selection q.events ready f

  -- Where the keys of the events are distinct, a run leaves each event that it selects with the status
  -- processed or failed, and every other event as it was.
  pub process_document_scan_queue-settles :
      Distinct event_pk q.events
      → All (λ e. Ends e.id outcome.0.events) selection
        × ((id : ℕ)
            → Fresh event_pk id selection
            → find event_pk id outcome.0.events ≡ find event_pk id q.events)
  process_document_scan_queue-settles d = (selection-Ends d, others_kept d)

  -- A run selects at most as many events as its limit, at least 1, allows, and counts each of them once,
  -- as processed, infected or failed.
  pub process_document_scan_queue-counts :
      Distinct event_pk q.events
      → (outcome.1.selected ≡ length selection)
        × (outcome.1.processed + outcome.1.infected + outcome.1.failed ≡ length selection)
        × (length selection ≤ safe_int limit 100 1)
  unfolding select_events
  process_document_scan_queue-counts d =
      let (selected, total) =
        process_events-counts get_model m s now (map marked selection) (table d) (start d).1 in
      let n = length-map marked selection in
      (
        ap (λ o. o.1.selected) (outcome_lem d) ∙ selected ∙ n,
        ap (λ o. outcomes o.1) (outcome_lem d) ∙ omega (arith, total, n),
        length-take_le (safe_int limit 100 1) _,
      )
