-- ===== src/Scan/Queue.antt =====
-- The queue of scans (wms/document_scan_queue.py; wms/models_domain/integration.py,
-- `IntegrationEvent`). Times are in seconds.
pub mod Claim
pub mod Run
pub mod Correct
pub mod Drain
pub mod Vetted
use asf_wms.Prelude.{
  ℕ, suc, ◌+◌, ◌==◌, leb, ℤ, Bool, true, false, ◌&&◌, ◌||◌, not, Option, none, some, List, [], ◌∷◌,
  ◌++◌, length, filter, take, if◌then◌else◌,
}
use asf_wms.Prelude.Table.{update}
use asf_wms.Prelude.OrderBy.{order_by}
use asf_wms.Text.{Text, text_eq, decimal}
use asf_wms.Text.Words.{codes, strip, or_text, text_or_empty}
use asf_wms.Scan.File.{
  ScanStatus, clean, infected, error, FileField, no_file, Settings, Machine, safe_int,
  scan_uploaded_file,
}

pub data IntegrationDirection : Type 0 where
  inbound outbound : IntegrationDirection

pub data IntegrationStatus : Type 0 where
  pending processing processed failed : IntegrationStatus

-- The keys of a payload that the queue reads or writes.
pub record ScanPayload : Type 0 where
  pub model : Option Text
  pub pk : Option ℕ
  pub file_name : Option Text
  pub scan_status : Option ScanStatus
  pub scan_message : Option Text
  pub scanned_at : Option ℕ

-- A payload that is no dictionary, or one; an empty payload is the dictionary without keys.
pub data Payload : Type 0 where
  no_dict : Payload
  dict : ScanPayload → Payload

pub record IntegrationEvent : Type 0 where
  pub id : ℕ
  pub direction : IntegrationDirection
  pub source : Text
  pub target : Text
  pub event_type : Text
  pub payload : Payload
  pub status : IntegrationStatus
  pub error_message : Text
  pub created_at : ℕ
  pub processed_at : Option ℕ

-- A row of one of the models with documents; `model` is the label of its class.
pub record Document : Type 0 where
  pub model : Text
  pub pk : ℕ
  pub file : FileField
  pub scan_status : ScanStatus
  pub scan_message : Text
  pub scan_updated_at : Option ℕ

pub record Queue : Type 0 where
  pub events : List IntegrationEvent
  pub documents : List Document
  -- the next primary key of the event table
  pub next_event : ℕ

abbrev pub event_pk : IntegrationEvent → ℕ
event_pk e = e.id

abbrev pub queue_source : Text
queue_source = codes "wms.document_scan"

abbrev pub queue_event_type : Text
queue_event_type = codes "scan_document"

abbrev pub has_file : FileField → Bool
has_file no_file = false
has_file _ = true

abbrev pub scan_event : Document → Text → ℕ → ℕ → IntegrationEvent
scan_event d file_name now id = record {
  id = id;
  direction = outbound;
  source = queue_source;
  target = codes "antivirus";
  event_type = queue_event_type;
  payload = dict (record {
    model = some d.model;
    pk = some d.pk;
    file_name = some file_name;
    scan_status = none;
    scan_message = none;
    scanned_at = none;
  });
  status = IntegrationStatus.pending;
  error_message = [];
  created_at = now;
  processed_at = none;
}

-- For a document that is stored; `file_name` is the name of its file, empty if it has none.
unfoldable pub queue_document_scan : ℕ → Text → Document → Queue → Bool × Queue
queue_document_scan now file_name d q =
    if has_file d.file
    then (
      true,
      record q {
        events = scan_event d file_name now q.next_event ∷ q.events;
        next_event = suc q.next_event;
      },
    )
    else (false, q)

abbrev pub is_outbound : IntegrationDirection → Bool
is_outbound outbound = true
is_outbound inbound = false

-- `_base_scan_queue_queryset`
unfoldable pub in_queue : IntegrationEvent → Bool
in_queue e =
    is_outbound e.direction
    && text_eq e.source queue_source
    && text_eq e.event_type queue_event_type

-- `_candidate_statuses`
abbrev pub has_candidate_status : Bool → IntegrationStatus → Bool
has_candidate_status include_failed IntegrationStatus.pending = true
has_candidate_status include_failed IntegrationStatus.failed = include_failed
has_candidate_status include_failed _ = false

abbrev pub is_processing : IntegrationStatus → Bool
is_processing IntegrationStatus.processing = true
is_processing _ = false

-- `processed_at <= now - timeout`
abbrev pub is_stale : ℕ → ℕ → Option ℕ → Bool
is_stale timeout now none = false
is_stale timeout now (some t) = leb (t + timeout) now

-- What a run is started with: `--include-failed`, the timeout in force and the time.
pub record Claimer : Type 0 where
  pub include_failed : Bool
  pub timeout : ℕ
  pub now : ℕ

-- `_queue_claim_filter`
unfoldable pub can_claim : Claimer → IntegrationEvent → Bool
can_claim k e =
    has_candidate_status k.include_failed e.status
    || (is_processing e.status && is_stale k.timeout k.now e.processed_at)

-- The columns that a claim writes.
abbrev pub claimed : Claimer → IntegrationEvent → IntegrationEvent
claimed k e = record e {
  status = IntegrationStatus.processing;
  processed_at = some k.now;
  error_message = [];
}

-- `_claim_queue_event`: one `UPDATE` of the rows with the key that can still be claimed, with their number.
unfoldable pub claim_queue_event : Claimer → ℕ → List IntegrationEvent → ℕ × List IntegrationEvent
claim_queue_event k id [] = (0, [])
claim_queue_event k id (e ∷ es) =
    let (n, rest) = claim_queue_event k id es in
    if e.id == id && in_queue e && can_claim k e then (suc n, claimed k e ∷ rest) else (n, e ∷ rest)
