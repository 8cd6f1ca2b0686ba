-- ===== src/Order/Pack/Laws.antt =====
-- What packing from reserved stock moves (wms/domain/orders.py, `pack_carton_from_reserved`).
use asf_wms.Prelude.{
  ℕ, ℤ, ◌&&◌, is_some, pos, pos_part, ◌+ℤ◌, Bool, false, sum_by, ◌≡◌, sym, ap, ◌∙◌, arith, ok,
}
use mathlib.Core.Path.{subst}
use asf_wms.Prelude.Results.{>>=-eq-ok, ok_transport}
use asf_wms.Prelude.Table.{Distinct}
use asf_wms.Text.{Text}
use asf_wms.Stock.Consume.{StockConsumeResult}
use asf_wms.Rows.{Carton, Clock}
use asf_wms.Carton.Tables.{Tables}
use asf_wms.Carton.Prepare.{prepare_carton}
use asf_wms.Carton.Prepare.Laws.{starting_items, requested, prepare_carton-Prepares}
use asf_wms.Carton.Items.Laws.{items_total-add_entries}
use asf_wms.Carton.Pack.{filled, store_items, target_status, reason_for, finish_packing}
use asf_wms.Carton.Pack.Laws.{finish_packing-kept}
use asf_wms.Carton.Unpack.Laws.{items_total}
use asf_wms.Order.Model.{Store, line_reservations}
use asf_wms.Order.Consume.{consume_reserved_stock}
use asf_wms.Order.Consume.Loop.{Draws, AreCurrent, held_lot, consume_reserved_stock-Draws}
use asf_wms.Order.Pack.{
  World, PackReserved, store_of, preparation, consumption, store_consumed, with_tables,
  pack_carton_from_reserved,
}

-- `q` units leave the reserved stock for the carton, which held those of `start`.
pub record PacksReserved (q : ℤ) (start : ℤ) (s : Store) (c' : Carton) (s' : Store) : Type 0 where
  pub draws : Draws (pos_part q) s s'
  pub inside : items_total c'.items ≡ start +ℤ q

Draws-same : (n : ℕ) (s t u : Store) → t.stock ≡ u.stock → Draws n s t → Draws n s u
Draws-same n s t u e h = record {
  on_hand = rw (← e) h.on_hand;
  reserved = rw (← e) h.reserved;
  accounts = rw (← e) h.accounts;
}

requested_none :
    (r : PackReserved) (t : Tables)
    → starting_items (requested (preparation r) t) ≡ starting_items r.carton
requested_none r t = ground arith

-- If the reservations of the line are on different lots, packing from them that succeeds lowers the
-- physical and the reserved stock by the quantity asked for, the ledger accounts for it, and the carton
-- holds that quantity more than before.
pub pack_carton_from_reserved-Packs :
    (fold : Text → Text) (clock : Clock) (today : Text) (manual : Bool) (r : PackReserved) (q : ℤ)
    (w : World) {c : Carton} {w' : World}
    → Distinct held_lot (line_reservations r.line (store_of w))
    → AreCurrent (store_of w) (line_reservations r.line (store_of w))
    → pack_carton_from_reserved fold clock today manual r q w ≡ ok (c, w')
    → PacksReserved q (items_total (starting_items r.carton)) (store_of w) c (store_of w')
unfolding pack_carton_from_reserved store_items
pack_carton_from_reserved-Packs fold clock today manual r q w {c} {w'} distinct current h =
    let ((c1, t1), prepared, h1) = >>=-eq-ok (prepare_carton today (preparation r) w.tables) _ h in
    let p = prepare_carton-Prepares today (preparation r) w.tables prepared in
    let w1 = with_tables w t1 in
    let same : store_of w ≡ store_of w1 =
      ap (λ st. record (store_of w) { stock = st }) (sym p.stock) in
    let ((consumed, s), drawn, h2) =
      >>=-eq-ok (consume_reserved_stock (consumption r c1) q (store_of w1)) _ h1 in
    let (draws, sum) =
      consume_reserved_stock-Draws (consumption r c1) q (store_of w1)
        (subst (λ st. Distinct held_lot (line_reservations r.line st)) same distinct)
        (subst (λ st. AreCurrent st (line_reservations r.line st)) same current) drawn in
    let c2 = filled r.display_expires_on consumed c1 in
    let w2 = store_consumed c2 s w1 in
    let ((c3, t3), finished, done) =
      >>=-eq-ok
        (finish_packing fold clock r.user r.shipment (manual && is_some r.carton)
          (reason_for r.shipment "order_pack_assign" "order_pack_start_picking")
          (target_status r.shipment false c2.status) c2 w2.tables)
        _ h2 in
    let (items, stock) =
      finish_packing-kept fold clock r.user r.shipment _ _ _ c2 w2.tables finished in
    ok_transport
      (λ (x : Carton × World).
        PacksReserved q (items_total (starting_items r.carton)) (store_of w) x.0 (store_of x.1))
      done
      (record {
        draws =
            Draws-same (pos_part q) (store_of w) s (store_of (with_tables w2 t3)) (sym stock)
              (subst (λ st. Draws (pos_part q) st s) (sym same) draws);
        inside =
            ap items_total items
            ∙ items_total-add_entries r.display_expires_on consumed c1.items
            ∙ ap
                (λ i.
                  items_total i +ℤ pos (sum_by (λ (e : StockConsumeResult). e.quantity) consumed))
                (p.items_kept ∙ requested_none r w.tables)
            ∙ ap (λ i. items_total (starting_items r.carton) +ℤ i) sum;
      })
