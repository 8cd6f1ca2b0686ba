-- ===== src/Order/Consume/Stale.antt =====
-- Two reservations of a line on one lot (wms/domain/orders.py, `consume_reserved_stock`). The query
-- reads the lot once for each of them, and each write of its quantities starts from what was read.
use asf_wms.Prelude.{
  ℕ, ◌+◌, ◌-◌, ◌<◌, ◌==◌, min, ◌≡◌, refl, ap, ◌∙◌, sym, pos, ◌-ℤ◌, some, List, [], ◌∷◌, arith,
  false, ok, sum_by,
}
use asf_wms.Prelude.Table.{find, find-update_self}
use asf_wms.Stock.{ProductLot, Stock, lot_pk}
use asf_wms.Stock.Consume.{StockConsumeResult}
use asf_wms.Order.Model.{Store, Held, line_reservations}
use asf_wms.Order.Consume.{ConsumeReserved, drawn, draw_held, draw_loop, consume_reserved_stock}
use asf_wms.Order.Consume.Loop.{draw_loop-sum}

module _ (r : ConsumeReserved) where
  draw_whole :
      (h : Held) (hs : List Held) (m : ℕ) (s : Store)
      → 0 < h.reservation.quantity
      → (draw_loop r (h ∷ hs) (h.reservation.quantity + m) s).store
        ≡ (draw_loop r hs m (draw_held r h h.reservation.quantity s)).store
  unfolding draw_loop
  draw_whole h hs m s hp =
      let n = h.reservation.quantity in
      let all : min (n + m) n ≡ n = omega arith in
      let left : n + m - n ≡ m = omega arith in
      let more : (n + m == 0) ≡ false = ground arith in
      let taken : (n == 0) ≡ false = ground arith in rw (more, all, taken, left) refl

  -- What a round leaves of the lot is what the query read, less the round's quantity.
  draw_held-lot :
      (h : Held) (n : ℕ) (s : Store) {l : ProductLot}
      → find lot_pk h.lot.id s.stock.lots ≡ some l
      → h.lot ≡ record l {
        quantity_on_hand = h.lot.quantity_on_hand;
        quantity_reserved = h.lot.quantity_reserved;
      }
      → find lot_pk h.lot.id (draw_held r h n s).stock.lots ≡ some (drawn h.lot n)
  unfolding draw_held
  draw_held-lot h n s {l} st same =
      let q = h.lot.quantity_on_hand -ℤ pos n in
      let p = h.lot.quantity_reserved -ℤ pos n in
      find-update_self lot_pk h.lot.id
        (λ row. record row { quantity_on_hand = q; quantity_reserved = p }) s.stock.lots
        (sym (ap (λ x. x.id) same)) st
      ∙ ap (λ (x : ProductLot). some (record x { quantity_on_hand = q; quantity_reserved = p }))
          (sym same)

module _ (r : ConsumeReserved) (s : Store) (g h : Held) where
  stale_lot :
      h.lot ≡ g.lot
      → find lot_pk g.lot.id s.stock.lots ≡ some g.lot
      → 0 < g.reservation.quantity
      → 0 < h.reservation.quantity
      → find lot_pk g.lot.id
          (draw_loop r
            (g ∷ h ∷ [])
            (g.reservation.quantity + h.reservation.quantity)
            s).store.stock.lots
        ≡ some (drawn g.lot h.reservation.quantity)
  unfolding draw_loop
  stale_lot same st gp hp =
      let n = h.reservation.quantity in
      let s1 = draw_held r g g.reservation.quantity s in
      let s2 = draw_held r h n s1 in
      let zero : n ≡ n + 0 = omega arith in
      let first = draw_whole r g (h ∷ []) n s gp in
      let second : (draw_loop r (h ∷ []) n s1).store ≡ s2 =
        ap (λ m. (draw_loop r (h ∷ []) m s1).store) zero ∙ draw_whole r h [] 0 s1 hp in
      let once = draw_held-lot r g g.reservation.quantity s st refl in
      let read : find lot_pk h.lot.id s1.stock.lots ≡ some (drawn g.lot g.reservation.quantity) =
        ap (λ (x : ProductLot). find lot_pk x.id s1.stock.lots) same ∙ once in
      let twice = draw_held-lot r h n s1 read (
        ap
          (λ (x : ProductLot). record x {
            quantity_on_hand = h.lot.quantity_on_hand;
            quantity_reserved = h.lot.quantity_reserved;
          })
          same) in
      ap (λ (t : Store). find lot_pk g.lot.id t.stock.lots) (first ∙ second)
      ∙ ap (λ (x : ProductLot). find lot_pk x.id s2.stock.lots) (sym same)
      ∙ twice
      ∙ ap (λ x. some (drawn x n)) same

module _ (r : ConsumeReserved) (s : Store) (g h : Held) where
  -- If a line has exactly two reservations and both are on one lot, then consuming all that they hold
  -- returns the full quantity, but the lot loses only the quantity of the second reservation.
  pub consume_reserved_stock-stale :
      {c : List StockConsumeResult} {s' : Store}
      → line_reservations r.line s ≡ g ∷ h ∷ []
      → h.lot ≡ g.lot
      → find lot_pk g.lot.id s.stock.lots ≡ some g.lot
      → 0 < g.reservation.quantity
      → 0 < h.reservation.quantity
      → consume_reserved_stock r (pos (g.reservation.quantity + h.reservation.quantity)) s
        ≡ ok (c, s')
      → (sum_by (λ e. e.quantity) c ≡ g.reservation.quantity + h.reservation.quantity)
        × (find lot_pk g.lot.id s'.stock.lots ≡ some (drawn g.lot h.reservation.quantity))
  unfolding consume_reserved_stock
  consume_reserved_stock-stale {c} {s'} two same st gp hp done =
      let hs = line_reservations r.line s in
      let n = g.reservation.quantity + h.reservation.quantity in
      let out = draw_loop r hs n s in
      let all_drawn : out.remaining ≡ 0 = ground arith in
      let returned : out.consumed ≡ c = ground arith in
      let store : out.store.stock ≡ s'.stock = ground arith in
      let total = draw_loop-sum r hs n s in
      (
        ap (λ x. sum_by (λ (u : StockConsumeResult). u.quantity) x) (sym returned)
            ∙ omega (arith, total, all_drawn),
        ap (λ (t : Stock). find lot_pk g.lot.id t.lots) (sym store)
            ∙ ap (λ l. find lot_pk g.lot.id (draw_loop r l n s).store.stock.lots) two
            ∙ stale_lot r s g h same st gp hp,
      )
