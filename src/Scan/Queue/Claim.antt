-- ===== src/Scan/Queue/Claim.antt =====
-- A claim of an event (wms/document_scan_queue.py, `_claim_queue_event`).
use asf_wms.Prelude.{
  ℕ, ◌+◌, ◌<◌, ◌==◌, Bool, true, false, ◌&&◌, some, List, [], ◌∷◌, ◌≡◌, ◌≢◌, refl, inl, inr,
  Bool-cases, if◌then◌else◌, arith,
}
use asf_wms.Prelude.Table.{find, update, Fresh, Distinct}
use asf_wms.Scan.Queue.{
  IntegrationEvent, Claimer, event_pk, in_queue, can_claim, claimed, claim_queue_event,
}

abbrev pub is_claimable : Claimer → IntegrationEvent → Bool
is_claimable k e = in_queue e && can_claim k e

eq_ne : (a b : ℕ) → a ≢ b → (a == b) ≡ false
eq_ne a b h = ground (arith, h)

-- A claim writes nothing where no row has the key.
pub claim-Fresh :
    (k : Claimer) (id : ℕ) (es : List IntegrationEvent)
    → Fresh event_pk id es
    → claim_queue_event k id es ≡ (0, es)
unfolding claim_queue_event
claim-Fresh k id [] f = refl
claim-Fresh k id (e ∷ es) f = rw (claim-Fresh k id es f.1, eq_ne e.id id f.0) refl

-- A claim of a stored event that can be claimed writes it and nothing else.
pub claim-claimable :
    (k : Claimer) (id : ℕ) (es : List IntegrationEvent) {row : IntegrationEvent}
    → Distinct event_pk es
    → find event_pk id es ≡ some row
    → is_claimable k row ≡ true
    → claim_queue_event k id es ≡ (1, update event_pk id (claimed k) es)
unfolding claim_queue_event
claim-claimable k id [] d found free = cc
claim-claimable k id (e ∷ es) {row} d found free = elim (Bool-cases (e.id == id)) [
  | inl same ↦
      let eq : e ≡ row = ground (arith, found, same) in
      let e_id : e.id ≡ id = ground (arith, same) in
      let free' : is_claimable k e ≡ true = rw eq free in
      rw (claim-Fresh k id es (rw (← e_id) d.0), same, free') refl
  | inr other ↦
      rw (claim-claimable k id es {row = row} d.1 (ground (arith, found, other)) free, other) refl
]

and_false : {A : Type 0} (b : Bool) (x y : A) → (if b && false then x else y) ≡ y
and_false true x y = refl
and_false false x y = refl

later_blocked :
    (k k' : Claimer) (e : IntegrationEvent)
    → k'.now < k.now + k'.timeout
    → can_claim k' (claimed k e) ≡ false
unfolding can_claim
later_blocked k k' e lt = ground (arith, lt)

-- Where keys are distinct, an event that a worker has claimed cannot be claimed by another one, whatever
-- its options, until its timeout has passed: the second claim writes nothing.
pub claim_queue_event-exclusive :
    (k k' : Claimer) (id : ℕ) (es : List IntegrationEvent)
    → Distinct event_pk es
    → (claim_queue_event k id es).0 ≢ 0
    → k'.now < k.now + k'.timeout
    → claim_queue_event k' id (claim_queue_event k id es).1 ≡ (0, (claim_queue_event k id es).1)
unfolding claim_queue_event
claim_queue_event-exclusive k k' id [] d won lt = refl
claim_queue_event-exclusive k k' id (e ∷ es) d won lt = elim (Bool-cases (e.id == id)) [
  | inr other ↦
      let rest = claim_queue_event-exclusive k k' id es d.1 (λ z. won (rw other z)) lt in
      rw (other, rest) (rw other refl)
  | inl same ↦
      let e_id : e.id ≡ id = ground (arith, same) in
      let fresh : Fresh event_pk id es = rw (← e_id) d.0 in
      elim (Bool-cases (is_claimable k e)) [
        | inr taken ↦ absurd (won (rw (same, claim-Fresh k id es fresh, taken) refl))
        | inl free ↦
            rw (same, claim-Fresh k id es fresh, free)
              (rw (claim-Fresh k' id es fresh, same, later_blocked k k' e lt)
                (and_false (in_queue (claimed k e)) (1, claimed k' (claimed k e) ∷ es)
                  (0, claimed k e ∷ es)))
      ]
]
