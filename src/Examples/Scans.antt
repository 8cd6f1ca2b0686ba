-- ===== src/Examples/Scans.antt =====
-- A queue of scans with an infected file, an event of a worker that stopped and an event of another
-- source (wms/document_scan_queue.py).
use asf_wms.Prelude.{
  inl, ℕ, ◌≤◌, ◌≡◌, ◌≢◌, refl, ℤ, pos, true, false, Option, none, some, List, [], ◌∷◌, length, All,
  filter, arith,
}
use asf_wms.Prelude.Table.{find, Fresh, Distinct}
use asf_wms.Prelude.OrderBy.{order_by}
use asf_wms.Text.{Text, text_eq, decimal}
use asf_wms.Text.Words.{codes}
use asf_wms.Scan.File.{
  ScanStatus, completed, at, Settings, Machine, safe_int, scan_backend, read_outcome,
  scan_uploaded_file,
}
use asf_wms.Scan.Queue.{
  IntegrationStatus, IntegrationEvent, Document, Queue, Claimer, event_pk, scan_event, in_queue,
  can_claim, claim_queue_event,
}
use asf_wms.Scan.Queue.Claim.{is_claimable, claim_queue_event-exclusive}
use asf_wms.Scan.Queue.Run.{
  ModelLookup, found, find_document, resolve_document_instance, update_document_scan_state,
  event_outcome, count_scan, Counts, process_event, process_events, select_events, claim_events,
  scanned_payload, process_document_scan_queue,
}
use asf_wms.Scan.Queue.Run.Settled.{Ends}
use asf_wms.Scan.Queue.Correct.{claimer, selection, outcome, process_document_scan_queue-settles}
use asf_wms.Scan.Queue.Vetted.{IsVetted, process_document_scan_queue-IsVetted}
use asf_wms.Scan.Queue.Drain.{process_document_scan_queue-drains}

abbrev a_file : Text
a_file = codes "scan.pdf"

-- Every path exists, and the scanner finds a virus.
abbrev machine : ℤ → Machine
machine code = record { exists = λ _. true; run = λ _ _. completed code [] [] }

abbrev settings : Settings
settings = record {
  backend = [];
  clamav_command = [];
  scan_timeout = none;
  processing_timeout = some (pos 60);
}

abbrev document : ScanStatus → Text → Option ℕ → Document
document status message updated = record {
  model = codes "wms.Document";
  pk = 3;
  file = at a_file;
  scan_status = status;
  scan_message = message;
  scan_updated_at = updated;
}

abbrev first : IntegrationEvent
first = scan_event (document ScanStatus.pending [] none) a_file 500 1

-- A worker took it at 510 and did not finish; its document is gone.
abbrev second : IntegrationEvent
second =
    record (scan_event (record (document ScanStatus.pending [] none) { pk = 4 }) a_file 400 2) {
      status = IntegrationStatus.processing;
      processed_at = some 510;
    }

abbrev third : IntegrationEvent
third = record first { id = 3; source = codes "mail" }

abbrev queue : Queue
queue = record {
  events = third ∷ second ∷ first ∷ [];
  documents = document ScanStatus.pending [] none ∷ [];
  next_event = 4;
}

abbrev models : Text → ModelLookup
models label = found label

abbrev first_done : IntegrationEvent
first_done = record first {
  payload =
      scanned_payload 600 ScanStatus.infected (codes "Fichier infecté détecté.") first.payload;
  status = IntegrationStatus.processed;
  error_message = codes "Fichier infecté: accès bloqué.";
  processed_at = some 600;
}

abbrev second_done : IntegrationEvent
second_done = record second {
  status = IntegrationStatus.failed;
  error_message = codes "Document introuvable: wms.Document#4.";
  processed_at = some 600;
}

abbrev queue_done : Queue
queue_done = record queue {
  events = third ∷ second_done ∷ first_done ∷ [];
  documents = document ScanStatus.infected (codes "Fichier infecté détecté.") (some 600) ∷ [];
}

both_done :
    process_document_scan_queue models (machine (pos 1)) settings 600 none false none queue
    ≡ (queue_done, record { selected = 2; processed = 0; infected = 1; failed = 1 })
unfolding process_document_scan_queue select_events claim_events process_events process_event
    resolve_document_instance find_document update_document_scan_state event_outcome count_scan
    scan_uploaded_file read_outcome scan_backend safe_int in_queue can_claim claim_queue_event
    order_by text_eq decimal
both_done = refl

keys : Distinct event_pk queue.events
keys = ground arith

abbrev run_outcome : Queue × Counts
run_outcome = outcome models (machine (pos 1)) settings 600 none false none queue

abbrev selected : List IntegrationEvent
selected = selection models (machine (pos 1)) settings 600 none false none queue

process_document_scan_queue-settles_example :
    All (λ e. Ends e.id run_outcome.0.events) selected
    × ((id : ℕ)
        → Fresh event_pk id selected
        → find event_pk id run_outcome.0.events ≡ find event_pk id queue.events)
process_document_scan_queue-settles_example =
    process_document_scan_queue-settles models (machine (pos 1)) settings 600 none false none queue
      keys

two_free :
    length (filter (is_claimable (claimer settings 600 false none)) queue.events)
    ≤ safe_int none 100 1
unfolding in_queue can_claim safe_int text_eq
two_free = omega arith

first_found : find event_pk 1 run_outcome.0.events ≡ some first_done
first_found = rw both_done refl

process_document_scan_queue-drains_example :
    is_claimable (claimer settings 600 false none) first_done ≡ false
process_document_scan_queue-drains_example =
    process_document_scan_queue-drains models (machine (pos 1)) settings 600 none none queue 1 keys
      two_free first_found

-- A second worker, a minute short of the timeout.
abbrev worker : ℕ → Claimer
worker now = record { include_failed = true; timeout = 900; now = now }

first_claimed : (claim_queue_event (worker 600) 1 queue.events).0 ≢ 0
unfolding claim_queue_event in_queue can_claim text_eq
first_claimed = λ e. cc

claim_queue_event-exclusive_example :
    claim_queue_event (worker 1440) 1 (claim_queue_event (worker 600) 1 queue.events).1
    ≡ (0, (claim_queue_event (worker 600) 1 queue.events).1)
claim_queue_event-exclusive_example =
    claim_queue_event-exclusive (worker 600) (worker 1440) 1 queue.events keys first_claimed
      (omega arith)

-- The scanner lets the file pass.
process_document_scan_queue-IsVetted_example :
    All
      (IsVetted (machine (pos 0)) settings)
      (process_document_scan_queue models
        (machine (pos 0))
        settings
        600
        none
        true
        none
        queue).0.documents
process_document_scan_queue-IsVetted_example =
    process_document_scan_queue-IsVetted models (machine (pos 0)) settings 600 none true none queue
      (inl (λ e. cc), tt)
