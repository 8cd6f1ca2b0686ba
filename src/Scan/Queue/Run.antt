-- ===== src/Scan/Queue/Run.antt =====
-- One run of the queue (wms/document_scan_queue.py, `process_document_scan_queue`).
pub mod Settled
pub mod Claims
use asf_wms.Prelude.{
  ℕ, suc, ◌+◌, ◌==◌, ℤ, Bool, true, false, ◌&&◌, Option, none, some, List, [], ◌∷◌, ◌++◌, length,
  filter, take, if◌then◌else◌, Result, ok, err, or_raise, ◌>>=◌,
}
use asf_wms.Prelude.Table.{update}
use asf_wms.Prelude.OrderBy.{order_by}
use asf_wms.Text.{Text, text_eq, decimal}
use asf_wms.Text.Words.{codes, strip, or_text, text_or_empty}
use asf_wms.Scan.File.{ScanStatus, clean, infected, Settings, Machine, safe_int, scan_uploaded_file}
use asf_wms.Scan.Queue.{
  IntegrationStatus, ScanPayload, Payload, no_dict, dict, IntegrationEvent, Document, Queue,
  Claimer, event_pk, in_queue, can_claim, claim_queue_event,
}

-- `apps.get_model`: it raises, it gives none, or the class with a label.
pub data ModelLookup : Type 0 where
  unknown missing : ModelLookup
  found : Text → ModelLookup

-- `model_class.objects.filter(pk=object_id).first()`
unfoldable pub find_document : Text → ℕ → List Document → Option Document
find_document model pk [] = none
find_document model pk (d ∷ ds) =
    let rest = find_document model pk ds in
    if text_eq d.model model && d.pk == pk then some d else rest

-- The end of `_resolve_document_instance`.
abbrev pub find_instance : ModelLookup → Text → ℕ → List Document → Result Text Document
find_instance unknown label pk documents =
    err (codes "Modèle document inconnu: " ++ label ++ codes ".")
find_instance missing label pk documents =
    err (codes "Modèle document introuvable: " ++ label ++ codes ".")
find_instance (found model) label pk documents =
    or_raise (find_document model pk documents)
      (codes "Document introuvable: " ++ label ++ codes "#" ++ decimal pk ++ codes ".")

abbrev pub with_label :
    (Text → ModelLookup) → Text → Option ℕ → List Document → Result Text Document
with_label get_model [] pk documents = err (codes "Payload sans modèle de document.")
with_label get_model (c ∷ cs) none documents = err (codes "Payload sans identifiant document.")
with_label get_model (c ∷ cs) (some pk) documents =
    find_instance (get_model (c ∷ cs)) (c ∷ cs) pk documents

-- `_resolve_document_instance`, with its message as an error.
unfoldable pub resolve_document_instance :
    (Text → ModelLookup) → Payload → List Document → Result Text Document
resolve_document_instance get_model no_dict documents = err (codes "Payload de scan invalide.")
resolve_document_instance get_model (dict p) documents =
    with_label get_model (strip (text_or_empty p.model)) p.pk documents

-- `_update_document_scan_state`: the row of the document, which its model and key name.
unfoldable pub update_document_scan_state :
    ℕ → Document → ScanStatus → Text → List Document → List Document
update_document_scan_state now d status message [] = []
update_document_scan_state now d status message (row ∷ rows) =
    let rest = update_document_scan_state now d status message rows in
    if text_eq row.model d.model && row.pk == d.pk
    then record row {
      scan_status = status;
      scan_message = take 255 message;
      scan_updated_at = some now;
    }
      ∷ rows
    else row ∷ rest

-- The four counters of a run.
pub record Counts : Type 0 where
  pub selected : ℕ
  pub processed : ℕ
  pub infected : ℕ
  pub failed : ℕ

abbrev pub no_counts : Counts
no_counts = record { selected = 0; processed = 0; infected = 0; failed = 0 }

-- The status and the message that a scan gives its event.
unfoldable pub event_outcome : ScanStatus → Text → IntegrationStatus × Text
event_outcome clean message = (IntegrationStatus.processed, [])
event_outcome infected message =
    (IntegrationStatus.processed, codes "Fichier infecté: accès bloqué.")
event_outcome _ message =
    (IntegrationStatus.failed, take 255 (or_text message (codes "Erreur scan antivirus.")))

unfoldable pub count_scan : ScanStatus → Counts → Counts
count_scan clean c = record c { processed = suc c.processed }
count_scan infected c = record c { infected = suc c.infected }
count_scan _ c = record c { failed = suc c.failed }

-- `event.payload` with the result of the scan.
abbrev pub scanned_payload : ℕ → ScanStatus → Text → Payload → Payload
scanned_payload now status message no_dict = no_dict
scanned_payload now status message (dict p) = dict (record p {
  scan_status = some status;
  scan_message = some (take 255 message);
  scanned_at = some now;
})

-- `event.save(...)`
abbrev pub save_event : ℕ → (IntegrationEvent → IntegrationEvent) → Queue → Queue
save_event id f q = record q { events = update event_pk id f q.events }

-- `get_model` is `apps.get_model`.
module _ (get_model : Text → ModelLookup) (m : Machine) (s : Settings) (now : ℕ) where
  -- One round of the second loop.
  unfoldable pub process_event : IntegrationEvent → Queue × Counts → Queue × Counts
  process_event e (q, c) = elim (resolve_document_instance get_model e.payload q.documents) [
    | err message ↦ (
      save_event e.id
          (λ row. record row {
            status = IntegrationStatus.failed;
            error_message = message;
            processed_at = some now;
          })
          q,
      record c { failed = suc c.failed },
    )
    | ok d ↦
        let (status, message) = scan_uploaded_file m s d.file in
        let (outcome, text) = event_outcome status message in
        let documents = update_document_scan_state now d status message q.documents in
        (
          save_event e.id
              (λ row. record row {
                status = outcome;
                error_message = text;
                processed_at = some now;
                payload = scanned_payload now status message e.payload;
              })
              (record q { documents = documents }),
          count_scan status c,
        )
  ]

  unfoldable pub process_events : List IntegrationEvent → Queue × Counts → Queue × Counts
  process_events [] qc = qc
  process_events (e ∷ es) qc = process_events es (process_event e qc)

-- `order_by("created_at", "id")`
abbrev pub event_key : IntegrationEvent → List ℕ
event_key e = e.created_at ∷ e.id ∷ []

-- The first query of a run.
unfoldable pub select_events : Claimer → ℕ → List IntegrationEvent → List IntegrationEvent
select_events k limit events =
    take limit (order_by event_key (filter (λ e. in_queue e && can_claim k e) events))

-- The first loop: the events that could be claimed, and the table.
unfoldable pub claim_events :
    Claimer
    → List IntegrationEvent
    → List IntegrationEvent
    → List IntegrationEvent × List IntegrationEvent
claim_events k [] events = ([], events)
claim_events k (e ∷ es) events =
    let (n, events') = claim_queue_event k e.id events in
    let (selected, last) = claim_events k es events' in
    if n == 0
    then (selected, last)
    else (record e { status = IntegrationStatus.processing } ∷ selected, last)

-- `_processing_timeout_seconds`
abbrev pub processing_timeout_seconds : Settings → Option (Option ℤ) → ℕ
processing_timeout_seconds s none = safe_int s.processing_timeout 900 1
processing_timeout_seconds s (some override) = safe_int override 900 1

-- `limit` and the override are absent in the inner option where `int(value)` raises.
unfoldable pub process_document_scan_queue :
    (Text → ModelLookup)
    → Machine
    → Settings
    → ℕ
    → Option ℤ
    → Bool
    → Option (Option ℤ)
    → Queue
    → Queue × Counts
process_document_scan_queue get_model m s now limit include_failed override q =
    let k : Claimer = record {
      include_failed = include_failed;
      timeout = processing_timeout_seconds s override;
      now = now;
    } in
    let (selected, events) =
      claim_events k (select_events k (safe_int limit 100 1) q.events) q.events in
    process_events get_model m s now selected
      (record q { events = events }, record no_counts { selected = length selected })
