-- ===== src/Scan/Queue/Run/Claims.antt =====
-- The selection and the claims of a run (wms/document_scan_queue.py, `process_document_scan_queue`).
use asf_wms.Prelude.{
  ℕ, true, some, List, [], ◌∷◌, map, filter, All, All-take, All-filter, filter-test, ◌≡◌, refl, sym,
  ap, ◌∙◌, is_some,
}
use asf_wms.Prelude.Table.{
  find, update, Fresh, Distinct, All-found, update-found, update-Distinct, find-update_ne,
  filter-Distinct, take-Distinct, is_some-find-update,
}
use asf_wms.Prelude.OrderBy.{order_by, All-order_by, order_by-Distinct}
use asf_wms.Scan.Queue.{IntegrationStatus, IntegrationEvent, Claimer, event_pk, claimed}
use asf_wms.Scan.Queue.Claim.{is_claimable, claim-claimable}
use asf_wms.Scan.Queue.Run.{event_key, select_events, claim_events}
use asf_wms.Scan.Queue.Run.Settled.{IsStored}

-- The event objects that a run goes on with.
abbrev pub marked : IntegrationEvent → IntegrationEvent
marked e = record e { status = IntegrationStatus.processing }

-- The rows of the selected events are as they were read.
abbrev pub AsRead : List IntegrationEvent → List IntegrationEvent → Type 0
AsRead events es = All (λ e. find event_pk e.id events ≡ some e) es

module _ (k : Claimer) where
  abbrev AreClaimable : List IntegrationEvent → Type 0
  AreClaimable es = All (λ e. is_claimable k e ≡ true) es

  module _ (limit : ℕ) (events : List IntegrationEvent) (d : Distinct event_pk events) where
    select_events-Distinct : Distinct event_pk (select_events k limit events)
    unfolding select_events
    select_events-Distinct =
        let free = filter (is_claimable k) events in
        take-Distinct event_pk limit (order_by event_key free) (
          order_by-Distinct event_key event_pk free
            (filter-Distinct event_pk (is_claimable k) events d))

    select_events-AsRead : AsRead events (select_events k limit events)
    unfolding select_events
    select_events-AsRead =
        let free = filter (is_claimable k) events in
        let P : IntegrationEvent → Type 0 = λ e. find event_pk e.id events ≡ some e in
        All-take P limit (order_by event_key free) (
          All-order_by event_key P free
            (All-filter P (is_claimable k) events (All-found event_pk events d)))

  select_events-AreClaimable :
      (limit : ℕ) (events : List IntegrationEvent) → AreClaimable (select_events k limit events)
  unfolding select_events
  select_events-AreClaimable limit events =
      let free = filter (is_claimable k) events in
      let P : IntegrationEvent → Type 0 = λ e. is_claimable k e ≡ true in
      All-take P limit (order_by event_key free)
        (All-order_by event_key P free (filter-test (is_claimable k) events))

  -- What the loop of the claims starts from.
  pub record IsReady (es events : List IntegrationEvent) : Type 0 where
    pub rows : Distinct event_pk events
    pub keys : Distinct event_pk es
    pub as_read : AsRead events es
    pub claimable : AreClaimable es

  pub select_events-IsReady :
      (limit : ℕ) (events : List IntegrationEvent)
      → Distinct event_pk events
      → IsReady (select_events k limit events) events
  select_events-IsReady limit events d = record {
    rows = d;
    keys = select_events-Distinct limit events d;
    as_read = select_events-AsRead limit events d;
    claimable = select_events-AreClaimable limit events;
  }

  -- One claim in the loop.
  module _ (e : IntegrationEvent) (es events : List IntegrationEvent)
      (r : IsReady (e ∷ es) events) where
    abbrev after : List IntegrationEvent
    after = update event_pk e.id (claimed k) events

    claim_first :
        claim_events k (e ∷ es) events
        ≡ (marked e ∷ (claim_events k es after).0, (claim_events k es after).1)
    unfolding claim_events
    claim_first = rw (claim-claimable k e.id events {row = e} r.rows r.as_read.0 r.claimable.0) refl

    after-IsReady : IsReady es after
    after-IsReady = record {
      rows = update-Distinct event_pk e.id (claimed k) events (λ _. refl) r.rows;
      keys = r.keys.1;
      as_read = update-found event_pk e.id (claimed k) events es (λ _. refl) r.keys.0 r.as_read.1;
      claimable = r.claimable.1;
    }

  -- Every selected event is claimed.
  pub claim_events-all :
      (es events : List IntegrationEvent)
      → IsReady es events
      → (claim_events k es events).0 ≡ map marked es
  unfolding claim_events
  claim_events-all [] events r = refl
  claim_events-all (e ∷ es) events r =
      ap (λ p. p.0) (claim_first e es events r)
      ∙ ap (λ t. marked e ∷ t)
          (claim_events-all es (after e es events r) (after-IsReady e es events r))

  -- The other events stay as they are.
  pub claim_events-others :
      (id : ℕ) (es events : List IntegrationEvent)
      → IsReady es events
      → Fresh event_pk id es
      → find event_pk id (claim_events k es events).1 ≡ find event_pk id events
  unfolding claim_events
  claim_events-others id [] events r f = refl
  claim_events-others id (e ∷ es) events r f =
      ap (λ p. find event_pk id p.1) (claim_first e es events r)
      ∙ claim_events-others id es (after e es events r) (after-IsReady e es events r) f.1
      ∙ find-update_ne event_pk id e.id (claimed k) events (λ _. refl) (λ same. f.0 (sym same))

  -- No row is lost.
  pub claim_events-stored :
      (id : ℕ) (es events : List IntegrationEvent)
      → IsReady es events
      → is_some (find event_pk id (claim_events k es events).1) ≡ is_some (find event_pk id events)
  unfolding claim_events
  claim_events-stored id [] events r = refl
  claim_events-stored id (e ∷ es) events r =
      ap (λ p. is_some (find event_pk id p.1)) (claim_first e es events r)
      ∙ claim_events-stored id es (after e es events r) (after-IsReady e es events r)
      ∙ is_some-find-update event_pk id e.id (claimed k) events (λ _. refl)

  pub AsRead-IsStored :
      (es events events' : List IntegrationEvent)
      → ((id : ℕ) → is_some (find event_pk id events') ≡ is_some (find event_pk id events))
      → AsRead events es
      → All (IsStored events') es
  AsRead-IsStored [] events events' same h = tt
  AsRead-IsStored (e ∷ es) events events' same h =
      (same e.id ∙ ap is_some h.0, AsRead-IsStored es events events' same h.1)
