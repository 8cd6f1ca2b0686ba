-- ===== src/Scan/Queue/Vetted.antt =====
-- No document becomes clean without a scan that passes (wms/document_scan_queue.py,
-- `process_document_scan_queue`).
use asf_wms.Prelude.{
  ℕ, ◌==◌, ℤ, Bool, true, false, ◌&&◌, Option, none, some, List, [], ◌∷◌, All, ◌≡◌, ◌≢◌, refl, sym,
  ◌∙◌, ◌⊎◌, inl, inr, Bool-cases, arith, ok, or_raise,
}
use mathlib.Core.Path.{subst}
use asf_wms.Text.{Text, text_eq}
use asf_wms.Text.Decimal.{text_eq_iff}
use asf_wms.Scan.File.{ScanStatus, clean, FileField, at, Settings, Machine, scan_uploaded_file}
use asf_wms.Scan.File.Laws.{Passes, scan_uploaded_file-clean_iff}
use asf_wms.Scan.Queue.Run.Settled.{Result-cases}
use asf_wms.Scan.Queue.{Payload, dict, no_dict, IntegrationEvent, Document, Queue}
use asf_wms.Scan.Queue.Run.{
  ModelLookup, unknown, missing, found, find_document, find_instance, with_label,
  resolve_document_instance, update_document_scan_state, Counts, process_event, process_events,
  process_document_scan_queue,
}

abbrev is_clean : ScanStatus → Bool
is_clean clean = true
is_clean _ = false

-- The document is not marked as clean, or its file is at a local path that passes the scan.
abbrev pub IsVetted : Machine → Settings → Document → Type 0
IsVetted m s d =
    (d.scan_status ≢ clean) ⊎ ((path : Text) × (d.file ≡ at path) × (path ≢ []) × Passes m s path)

status-cases : (status : ScanStatus) → (status ≡ clean) ⊎ (status ≢ clean)
status-cases clean = inl refl
status-cases ScanStatus.pending = inr (λ e. cc)
status-cases ScanStatus.infected = inr (λ e. cc)
status-cases ScanStatus.error = inr (λ e. cc)

-- What a document with this file may be marked as.
abbrev Fits : Machine → Settings → FileField → ScanStatus → Type 0
Fits m s f status =
    (status ≢ clean) ⊎ ((path : Text) × (f ≡ at path) × (path ≢ []) × Passes m s path)

scan-Fits : (m : Machine) (s : Settings) (f : FileField) → Fits m s f (scan_uploaded_file m s f).0
scan-Fits m s f = elim (status-cases (scan_uploaded_file m s f).0) [
  | inl passed ↦ inr ((scan_uploaded_file-clean_iff m s f).0 passed)
  | inr other ↦ inl other
]

some_eq : {a b : Document} → some a ≡ some b → a ≡ b
some_eq h = cc

and_parts : (a b : Bool) → (a && b) ≡ true → (a ≡ true) × (b ≡ true)
and_parts true b h = (refl, h)
and_parts false b h = cc

module _ (model : Text) (pk : ℕ) (x : Document) (xs : List Document) where
  abbrev is_named : Bool
  is_named = text_eq x.model model && x.pk == pk

  find_first : is_named ≡ true → find_document model pk (x ∷ xs) ≡ some x
  unfolding find_document
  find_first same = rw same refl

  find_later : is_named ≡ false → find_document model pk (x ∷ xs) ≡ find_document model pk xs
  unfolding find_document
  find_later other = rw other refl

none_found :
    (model : Text) (pk : ℕ) {d : Document}
    → find_document model pk [] ≡ some d
    → (d.model ≡ model) × (d.pk ≡ pk)
unfolding find_document
none_found model pk h = cc

-- A document that is found has the model and the key asked for.
found_key :
    (model : Text) (pk : ℕ) (ds : List Document) {d : Document}
    → find_document model pk ds ≡ some d
    → (d.model ≡ model) × (d.pk ≡ pk)
found_key model pk [] h = none_found model pk h
found_key model pk (x ∷ xs) {d} h = elim (Bool-cases (is_named model pk x xs)) [
  | inl same ↦
      let eq = some_eq (sym (find_first model pk x xs same) ∙ h) in
      let (m, k) = and_parts (text_eq x.model model) (x.pk == pk) same in
      subst (λ (y : Document). (y.model ≡ model) × (y.pk ≡ pk)) eq
        ((text_eq_iff x.model model).0 m, ground (arith, k))
  | inr other ↦ found_key model pk xs {d = d} (sym (find_later model pk x xs other) ∙ h)
]

raised : (o : Option Document) (e : Text) {d : Document} → or_raise o e ≡ ok d → o ≡ some d
raised none e h = cc
raised (some d) e h = cc

instance-found :
    (l : ModelLookup) (label : Text) (pk : ℕ) (ds : List Document) {d : Document}
    → find_instance l label pk ds ≡ ok d
    → find_document d.model d.pk ds ≡ some d
instance-found unknown label pk ds h = cc
instance-found missing label pk ds h = cc
instance-found (found model) label pk ds {d} h =
    let stored : find_document model pk ds ≡ some d = raised (find_document model pk ds) _ h in
    let (same_model, same_pk) = found_key model pk ds stored in
    subst (λ k. find_document d.model k ds ≡ some d) (sym same_pk)
      (subst (λ t. find_document t pk ds ≡ some d) (sym same_model) stored)

label-found :
    (get_model : Text → ModelLookup) (label : Text) (pk : Option ℕ) (ds : List Document)
    {d : Document}
    → with_label get_model label pk ds ≡ ok d
    → find_document d.model d.pk ds ≡ some d
label-found get_model [] pk ds h = cc
label-found get_model (c ∷ cs) none ds h = cc
label-found get_model (c ∷ cs) (some pk) ds h = instance-found (get_model (c ∷ cs)) (c ∷ cs) pk ds h

resolved-found :
    (get_model : Text → ModelLookup) (payload : Payload) (ds : List Document) {d : Document}
    → resolve_document_instance get_model payload ds ≡ ok d
    → find_document d.model d.pk ds ≡ some d
unfolding resolve_document_instance
resolved-found get_model no_dict ds h = cc
resolved-found get_model (dict p) ds h = label-found get_model _ p.pk ds h

module _ (m : Machine) (s : Settings) (now : ℕ) where
  -- The write of a scan keeps all documents vetted.
  written-IsVetted :
      (d : Document) (status : ScanStatus) (message : Text) (ds : List Document)
      → find_document d.model d.pk ds ≡ some d
      → Fits m s d.file status
      → All (IsVetted m s) ds
      → All (IsVetted m s) (update_document_scan_state now d status message ds)
  unfolding update_document_scan_state
  written-IsVetted d status message [] h f v = tt
  written-IsVetted d status message (x ∷ xs) h f v =
      elim (Bool-cases (is_named d.model d.pk x xs)) [
        | inl same ↦
            let eq = some_eq (sym (find_first d.model d.pk x xs same) ∙ h) in
            rw same (subst (λ (y : Document). Fits m s y.file status) (sym eq) f, v.1)
        | inr other ↦ rw other (
          v.0,
          written-IsVetted d status message xs (sym (find_later d.model d.pk x xs other) ∙ h) f v.1,
        )
      ]

module _ (get_model : Text → ModelLookup) (m : Machine) (s : Settings) (now : ℕ) where
  process_event-IsVetted :
      (e : IntegrationEvent) (q : Queue) (c : Counts)
      → All (IsVetted m s) q.documents
      → All (IsVetted m s) (process_event get_model m s now e (q, c)).0.documents
  unfolding process_event
  process_event-IsVetted e q c v =
      elim (Result-cases (resolve_document_instance get_model e.payload q.documents)) [
        | inl (message, failed) ↦ rw (process_event, failed) v
        | inr (d, resolved) ↦
            rw (process_event, resolved)
              (written-IsVetted m s now d (scan_uploaded_file m s d.file).0
                (scan_uploaded_file m s d.file).1 q.documents
                (resolved-found get_model e.payload q.documents resolved) (scan-Fits m s d.file) v)
      ]

  process_events-IsVetted :
      (es : List IntegrationEvent) (q : Queue) (c : Counts)
      → All (IsVetted m s) q.documents
      → All (IsVetted m s) (process_events get_model m s now es (q, c)).0.documents
  unfolding process_events
  process_events-IsVetted [] q c v = v
  process_events-IsVetted (e ∷ es) q c v =
      let (q1, c1) = process_event get_model m s now e (q, c) in
      process_events-IsVetted es q1 c1 (process_event-IsVetted e q c v)

  -- If every document that is marked as clean is at a local path that exists and passes, by a backend that
  -- passes everything or a scanner that ends with the return code 0, then a run, whatever its events and
  -- options, keeps this so.
  pub process_document_scan_queue-IsVetted :
      (limit : Option ℤ) (include_failed : Bool) (override : Option (Option ℤ)) (q : Queue)
      → All (IsVetted m s) q.documents
      → All
          (IsVetted m s)
          (process_document_scan_queue get_model m s now limit include_failed override
            q).0.documents
  unfolding process_document_scan_queue
  process_document_scan_queue-IsVetted limit include_failed override q v =
      process_events-IsVetted _ (record q { events = _ }) _ v
