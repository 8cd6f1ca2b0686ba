-- ===== src/Scan/Queue/Run/Settled.antt =====
-- What the second loop of a run does to the events (wms/document_scan_queue.py,
-- `process_document_scan_queue`).
use asf_wms.Prelude.{
  ℕ, suc, ◌+◌, Bool, true, false, some, List, [], ◌∷◌, length, All, ◌≡◌, refl, sym, ap, ◌∙◌, inl,
  inr, Option-cases, is_some, arith, Result, ok, err, ◌⊎◌,
}
use asf_wms.Prelude.Table.{
  find, update, Fresh, Distinct, find-update_self, find-update_ne, find-key, is_some-find-update,
}
use asf_wms.Text.{Text}
use asf_wms.Scan.File.{ScanStatus, Settings, Machine, scan_uploaded_file}
use asf_wms.Scan.Queue.{IntegrationStatus, IntegrationEvent, Queue, event_pk}
use asf_wms.Scan.Queue.Run.{
  ModelLookup, resolve_document_instance, Counts, event_outcome, count_scan, process_event,
  process_events,
}

-- `PROCESSED` or `FAILED`
abbrev pub is_final : IntegrationStatus → Bool
is_final IntegrationStatus.processed = true
is_final IntegrationStatus.failed = true
is_final _ = false

event_outcome-final :
    (status : ScanStatus) (message : Text) → is_final (event_outcome status message).0 ≡ true
unfolding event_outcome
event_outcome-final ScanStatus.clean message = refl
event_outcome-final ScanStatus.infected message = refl
event_outcome-final ScanStatus.error message = refl
event_outcome-final ScanStatus.pending message = refl

-- The event with the key is stored with a final status.
pub record Ends (id : ℕ) (events : List IntegrationEvent) : Type 0 where
  pub row : IntegrationEvent
  pub stored : find event_pk id events ≡ some row
  pub final : is_final row.status ≡ true

-- A write of one row that keeps its key and gives it a final status.
record Finishes (id : ℕ) (events events' : List IntegrationEvent) : Type 0 where
  write : IntegrationEvent → IntegrationEvent
  same_key : (row : IntegrationEvent) → event_pk (write row) ≡ event_pk row
  final : (row : IntegrationEvent) → is_final (write row).status ≡ true
  result : events' ≡ update event_pk id write events

-- The scans that are counted.
abbrev pub outcomes : Counts → ℕ
outcomes c = c.processed + c.infected + c.failed

count_scan-outcomes :
    (status : ScanStatus) (c : Counts) → outcomes (count_scan status c) ≡ suc (outcomes c)
unfolding count_scan
count_scan-outcomes ScanStatus.clean c = omega arith
count_scan-outcomes ScanStatus.infected c = omega arith
count_scan-outcomes ScanStatus.error c = omega arith
count_scan-outcomes ScanStatus.pending c = omega arith

count_scan-selected :
    (status : ScanStatus) (c : Counts) → (count_scan status c).selected ≡ c.selected
unfolding count_scan
count_scan-selected ScanStatus.clean c = refl
count_scan-selected ScanStatus.infected c = refl
count_scan-selected ScanStatus.error c = refl
count_scan-selected ScanStatus.pending c = refl

pub Result-cases :
    {A : Type 0} (r : Result Text A) → ((e : Text) × (r ≡ err e)) ⊎ ((a : A) × (r ≡ ok a))
Result-cases (err e) = inl (e, refl)
Result-cases (ok a) = inr (a, refl)

stored_row :
    (id : ℕ) (events : List IntegrationEvent)
    → is_some (find event_pk id events) ≡ true
    → (row : IntegrationEvent) × (find event_pk id events ≡ some row)
stored_row id events h = elim (Option-cases (find event_pk id events)) [
  | inl gone ↦ let no : false ≡ true = sym (ap is_some gone) ∙ h in cc
  | inr found ↦ found
]

abbrev pub IsStored : List IntegrationEvent → IntegrationEvent → Type 0
IsStored events e = is_some (find event_pk e.id events) ≡ true

module _ (get_model : Text → ModelLookup) (m : Machine) (s : Settings) (now : ℕ) where
  process_event-Finishes :
      (e : IntegrationEvent) (q : Queue) (c : Counts)
      → Finishes e.id q.events (process_event get_model m s now e (q, c)).0.events
  unfolding process_event
  process_event-Finishes e q c =
      elim (Result-cases (resolve_document_instance get_model e.payload q.documents)) [
        | inl (message, failed) ↦
            rw (process_event, failed)
              (record { write = _; same_key = λ row. refl; final = λ row. refl; result = refl })
        | inr (d, resolved) ↦
            let (status, message) = scan_uploaded_file m s d.file in
            rw (process_event, resolved)
              (record {
                write = _;
                same_key = λ row. refl;
                final = λ row. event_outcome-final status message;
                result = refl;
              })
      ]

  process_event-counts :
      (e : IntegrationEvent) (q : Queue) (c : Counts)
      → let c' = (process_event get_model m s now e (q, c)).1 in
        (c'.selected ≡ c.selected) × (outcomes c' ≡ suc (outcomes c))
  unfolding process_event
  process_event-counts e q c =
      elim (Result-cases (resolve_document_instance get_model e.payload q.documents)) [
        | inl (message, failed) ↦ rw (process_event, failed) (refl, omega arith)
        | inr (d, resolved) ↦
            let (status, message) = scan_uploaded_file m s d.file in
            rw (process_event, resolved)
              (count_scan-selected status c, count_scan-outcomes status c)
      ]

  -- Each round counts one event.
  pub process_events-counts :
      (es : List IntegrationEvent) (q : Queue) (c : Counts)
      → let c' = (process_events get_model m s now es (q, c)).1 in
        (c'.selected ≡ c.selected) × (outcomes c' ≡ outcomes c + length es)
  unfolding process_events
  process_events-counts [] q c = (refl, omega arith)
  process_events-counts (e ∷ es) q c =
      let (q1, c1) = process_event get_model m s now e (q, c) in
      let (selected, total) = process_event-counts e q c in
      let (selected', total') = process_events-counts es q1 c1 in
      (selected' ∙ selected, omega (arith, total, total'))

  -- The events that a run does not select stay as they are.
  pub process_events-others :
      (id : ℕ) (es : List IntegrationEvent) (q : Queue) (c : Counts)
      → Fresh event_pk id es
      → find event_pk id (process_events get_model m s now es (q, c)).0.events
        ≡ find event_pk id q.events
  unfolding process_events
  process_events-others id [] q c f = refl
  process_events-others id (e ∷ es) q c f =
      let (q1, c1) = process_event get_model m s now e (q, c) in
      let w = process_event-Finishes e q c in
      process_events-others id es q1 c1 f.1
      ∙ ap (find event_pk id) w.result
      ∙ find-update_ne event_pk id e.id w.write q.events w.same_key (λ same. f.0 (sym same))

  still-IsStored :
      (e : IntegrationEvent) (q : Queue) (c : Counts) (es : List IntegrationEvent)
      → All (IsStored q.events) es
      → All (IsStored (process_event get_model m s now e (q, c)).0.events) es
  still-IsStored e q c [] h = tt
  still-IsStored e q c (x ∷ xs) h =
      let w = process_event-Finishes e q c in
      (
        ap (λ t. is_some (find event_pk x.id t)) w.result
            ∙ is_some-find-update event_pk x.id e.id w.write q.events w.same_key
            ∙ h.0,
        still-IsStored e q c xs h.1,
      )

  finished-Ends :
      (e : IntegrationEvent) (q : Queue) (c : Counts)
      → IsStored q.events e
      → Ends e.id (process_event get_model m s now e (q, c)).0.events
  finished-Ends e q c h =
      let w = process_event-Finishes e q c in
      let (row, found) = stored_row e.id q.events h in
      record {
        row = w.write row;
        stored =
            ap (find event_pk e.id) w.result
            ∙ find-update_self event_pk e.id w.write q.events
                (w.same_key row ∙ find-key event_pk e.id q.events found) found;
        final = w.final row;
      }

  -- Each event of the loop that is stored ends with a final status.
  pub process_events-Ends :
      (es : List IntegrationEvent) (q : Queue) (c : Counts)
      → Distinct event_pk es
      → All (IsStored q.events) es
      → All (λ e. Ends e.id (process_events get_model m s now es (q, c)).0.events) es
  unfolding process_events
  process_events-Ends [] q c d h = tt
  process_events-Ends (e ∷ es) q c d h =
      let (q1, c1) = process_event get_model m s now e (q, c) in
      let first = finished-Ends e q c h.0 in
      (
        record {
          row = first.row;
          stored = process_events-others e.id es q1 c1 d.0 ∙ first.stored;
          final = first.final;
        },
        process_events-Ends es q1 c1 d.1 (still-IsStored e q c es h.1),
      )
