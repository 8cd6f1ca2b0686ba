-- ===== src/Order/History/Consistent.antt =====
-- Every store that a sequence of operations reaches is consistent (wms/domain/stock.py and
-- wms/domain/orders.py).
use asf_wms.Prelude.{
  ℕ, suc, ◌+◌, ◌≤◌, ◌≡◌, refl, ap, ◌∙◌, ℤ, pos, ◌+ℤ◌, int_laws, parts_of_eq, [], All, arith, ok,
}
use asf_wms.Prelude.Table.{Fresh, Distinct, All-update, update-Distinct, find-All}
use asf_wms.Stock.{Product, ProductLot, Stock, lot_pk, total_on_hand, ledger_total, Accounts}
use asf_wms.Stock.Receive.{ReceiveRequest, receive_stock}
use asf_wms.Stock.Receive.Laws.{receive_ok, receive_stock-Distinct}
use asf_wms.Stock.Adjust.Laws.{adjust_ok, adjust_stock-Accounts, transfer_ok, transfer_stock_back}
use asf_wms.Stock.Consume.Places.{IsSound}
use asf_wms.Stock.Consume.Correct.{consume_stock_conserves, consume_stock-IsSound}
use asf_wms.Order.Model.{Store, lots_reserved, reservations_total}
use asf_wms.Order.Reserve.Loop.{reserve_stock_for_order-Reserves}
use asf_wms.Order.History.{◌⟶◌, receive, consume, adjust, transfer, reserve, ◌⟶*◌, here, then}
use asf_wms.Order.History.Kept.{
  KeepsKeys, consume_stock-kept, adjust_stock-kept, transfer_stock-kept,
  reserve_stock_for_order-Rests,
}

-- A stock whose lots have distinct keys below the next one and no negative or over-reserved quantity,
-- and whose ledger accounts for all that is there.
pub record IsBalanced (s : Stock) : Type 0 where
  pub distinct : Distinct lot_pk s.lots
  pub unused : (k : ℕ) → s.next_lot ≤ k → Fresh lot_pk k s.lots
  pub sound : All IsSound s.lots
  pub ledger : total_on_hand s.lots ≡ ledger_total s.movements

-- The stock is balanced, and the lots count as reserved what the reservations hold.
pub record IsConsistent (s : Store) : Type 0 where
  pub stock : IsBalanced s.stock
  pub reserved : lots_reserved s.stock.lots ≡ pos (reservations_total s.reservations)

-- A ledger that accounts for a change accounts for the whole if it did before.
ledger-Accounts :
    (s s' : Stock)
    → Accounts s s'
    → total_on_hand s.lots ≡ ledger_total s.movements
    → total_on_hand s'.lots ≡ ledger_total s'.movements
ledger-Accounts s s' a h = omega (int_laws, parts_of_eq a, parts_of_eq h)

keys-unused :
    (s s' : Stock)
    → KeepsKeys s s'
    → ((k : ℕ) → s.next_lot ≤ k → Fresh lot_pk k s.lots)
    → (k : ℕ) → s'.next_lot ≤ k
    → Fresh lot_pk k s'.lots
keys-unused s s' keeps h k le = keeps.unused k (h k (rw (← keeps.next) le))

receive_next :
    (p : Product) (r : ReceiveRequest) (s : Stock) {lot : ProductLot} {s' : Stock}
    → receive_stock p r s ≡ ok (lot, s')
    → s'.next_lot ≡ suc s.next_lot
unfolding receive_stock
receive_next p r s h = ground arith

module _ (p : Product) (r : ReceiveRequest) (s : Stock) {lot : ProductLot} {s' : Stock}
    (h : receive_stock p r s ≡ ok (lot, s')) where
  receive-IsBalanced : IsBalanced s → IsBalanced s'
  receive-IsBalanced b =
      let (q, el, es, acc) = receive_ok p r s h in
      let next = receive_next p r s h in
      record {
        distinct = receive_stock-Distinct p r s (b.unused s.next_lot (omega arith)) b.distinct h;
        unused = λ k le.
            rw es
              ((λ e. absurd (omega (arith, e, le, next))), b.unused k (omega (arith, le, next)));
        sound = rw es ((omega arith, omega (arith, parts_of_eq q)), b.sound);
        ledger = ledger-Accounts s s' acc b.ledger;
      }

  receive-lots_reserved : lots_reserved s'.lots ≡ lots_reserved s.lots
  receive-lots_reserved = let (_, _, es, _) = receive_ok p r s h in rw es (omega int_laws)

-- An operation on stored lots that loses no key, and whose other effects are known.
keeping-IsBalanced :
    (s s' : Stock)
    → KeepsKeys s s'
    → Distinct lot_pk s'.lots
    → All IsSound s'.lots
    → Accounts s s'
    → IsBalanced s
    → IsBalanced s'
keeping-IsBalanced s s' keeps distinct sound acc b = record {
  distinct = distinct;
  unused = keys-unused s s' keeps b.unused;
  sound = sound;
  ledger = ledger-Accounts s s' acc b.ledger;
}

-- Adding to both counts of what is reserved.
added : (a b : ℤ) (n x y : ℕ) → b ≡ a +ℤ pos n → a ≡ pos x → y ≡ x + n → b ≡ pos y
added a b n x y h e f = omega (int_laws, parts_of_eq h, parts_of_eq e, f)

-- Each operation keeps a store consistent.
pub step-IsConsistent : (s t : Store) → s ⟶ t → IsConsistent s → IsConsistent t
step-IsConsistent s _ (receive p r _ lot stock h) c = record {
  stock = receive-IsBalanced p r s.stock h c.stock;
  reserved = receive-lots_reserved p r s.stock h ∙ c.reserved;
}
step-IsConsistent s _ (consume r n _ out stock h) c =
    let (keeps, reserved) = consume_stock-kept r n s.stock h in
    let (_, acc, _) = consume_stock_conserves r n s.stock c.stock.distinct h in
    let (sound, distinct) = consume_stock-IsSound r n s.stock c.stock.distinct c.stock.sound h in
    record {
      stock = keeping-IsBalanced s.stock stock keeps distinct sound acc c.stock;
      reserved = reserved ∙ c.reserved;
    }
step-IsConsistent s _ (adjust user lot delta code notes _ lot' stock st h) c =
    let (keeps, reserved) = adjust_stock-kept user lot delta code notes s.stock h in
    let (_, es, _, _, _) = adjust_ok user lot delta code notes s.stock h in
    let (_, acc, sound, _) =
      adjust_stock-Accounts user lot delta code notes s.stock st c.stock.sound h in
    record {
      stock =
          keeping-IsBalanced s.stock stock keeps
            (rw es (update-Distinct lot_pk lot.id _ s.stock.lots (λ _. refl) c.stock.distinct))
            sound acc c.stock;
      reserved = reserved ∙ c.reserved;
    }
step-IsConsistent s _ (transfer user lot place _ lot' stock st h) c =
    let (keeps, reserved) = transfer_stock-kept user lot place s.stock h in
    let (_, es, _, _) = transfer_ok user lot place s.stock h in
    let (_, acc, _) = transfer_stock_back user lot place s.stock st h in
    let sound =
      All-update lot_pk IsSound lot.id (λ row. record row { location = place }) s.stock.lots
        (λ row found. find-All lot_pk IsSound lot.id s.stock.lots c.stock.sound found)
        c.stock.sound in
    record {
      stock =
          keeping-IsBalanced s.stock stock keeps
            (rw es (update-Distinct lot_pk lot.id _ s.stock.lots (λ _. refl) c.stock.distinct))
            (rw es sound) acc c.stock;
      reserved = reserved ∙ c.reserved;
    }
step-IsConsistent s t (reserve o _ _ h) c =
    let r = reserve_stock_for_order-Reserves o s c.stock.distinct c.stock.sound h in
    let (keeps, movements) = reserve_stock_for_order-Rests o s h in
    record {
      stock =
          keeping-IsBalanced s.stock t.stock keeps r.distinct r.sound
            (omega (int_laws, parts_of_eq r.on_hand, parts_of_eq (ap ledger_total movements)))
            c.stock;
      reserved =
          added (lots_reserved s.stock.lots) (lots_reserved t.stock.lots) _
            (reservations_total s.reservations) (reservations_total t.reservations) r.on_lots
            c.reserved r.on_reservations;
    }

-- From a consistent store, any sequence of receptions, consumptions, corrections and moves of stored
-- lots and reservations of orders that succeed reaches consistent stores only: keys are distinct, no
-- quantity is negative or over-reserved, the ledger adds up to the physical stock, and the lots count
-- as reserved what the reservations hold.
pub runs-IsConsistent : (s t : Store) → s ⟶* t → IsConsistent s → IsConsistent t
runs-IsConsistent s _ here c = c
runs-IsConsistent s u (then {t = t} step rest) c =
    runs-IsConsistent t u rest (step-IsConsistent s t step c)

-- A store without lots, movements and reservations is consistent.
pub empty-IsConsistent :
    (s : Store) → s.stock.lots ≡ [] → s.stock.movements ≡ [] → s.reservations ≡ [] → IsConsistent s
empty-IsConsistent s lots movements reservations = record {
  stock = record {
    distinct = rw lots tt;
    unused = λ k _. rw lots tt;
    sound = rw lots tt;
    ledger = rw (lots, movements) refl;
  };
  reserved = rw (lots, reservations) refl;
}

-- From a store without lots, movements and reservations, any sequence of receptions, consumptions,
-- corrections and moves of stored lots and reservations of orders that succeed reaches a store in which
-- keys are distinct, no quantity is negative or over-reserved, the ledger adds up to the physical stock,
-- and the lots count as reserved what the reservations hold.
pub reached-IsConsistent :
    (s t : Store)
    → s.stock.lots ≡ []
    → s.stock.movements ≡ []
    → s.reservations ≡ []
    → s ⟶* t
    → IsConsistent t
reached-IsConsistent s t lots movements reservations steps =
    runs-IsConsistent s t steps (empty-IsConsistent s lots movements reservations)
