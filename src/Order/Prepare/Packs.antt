-- ===== src/Order/Prepare/Packs.antt =====
-- What the bins of `prepare_order` add to the lines (wms/domain/orders.py).
use asf_wms.Prelude.{
  ℕ, ◌+◌, ◌-◌, ◌==◌, min, ◌≡◌, refl, sym, ap, ◌∙◌, inl, inr, ℤ, pos, pos_part, Bool, false, ◌&&◌,
  is_some, Option, none, some, List, [], ◌∷◌, sum_by, Bool-cases, ok, or_raise, raise_if, ltb,
  leb_ℤ,
}
use mathlib.Core.Path.{subst}
use asf_wms.Prelude.Results.{>>=-eq-ok, ok_transport, or_raise-eq-ok}
use asf_wms.Prelude.Table.{find, find-key, update, Distinct}
use asf_wms.Errors.{line_missing, invalid_quantity, reservation_insufficient}
use asf_wms.Text.{Text}
use asf_wms.Stock.Consume.{StockConsumeResult}
use asf_wms.Rows.{Carton, Clock}
use asf_wms.Carton.Prepare.{prepare_carton}
use asf_wms.Carton.Pack.{filled, target_status, reason_for, finish_packing}
use asf_wms.Bins.{Floats}
use asf_wms.Bins.Fill.{BinEntry, Bin}
use asf_wms.Order.Model.{OrderLine, Store, Held, line_pk, line_reservations}
use asf_wms.Order.Consume.{ConsumeReserved, draw_held, draw_loop, consume_reserved_stock}
use asf_wms.Order.Pack.{
  World, PackReserved, store_of, preparation, consumption, store_consumed, with_tables,
  pack_carton_from_reserved,
}
use asf_wms.Order.Prepare.{
  Packer, line_product, pack_entry, pack_entries, pack_bins, current_shipment,
}
use asf_wms.Order.Prepare.Gains.{Gains, only, Gains-none, Gains-trans, Gains-Distinct, Gains-update}

draw_loop-lines :
    (r : ConsumeReserved) (hs : List Held) (n : ℕ) (s : Store)
    → (draw_loop r hs n s).store.lines ≡ s.lines
unfolding draw_loop draw_held
draw_loop-lines r [] n s = refl
draw_loop-lines r (h ∷ hs) n s =
    let m = min n h.reservation.quantity in
    elim (Bool-cases (n == 0)) [
      | inl done ↦ rw done refl
      | inr more ↦ elim (Bool-cases (m == 0)) [
        | inl nothing ↦ rw (more, nothing) (draw_loop-lines r hs n s)
        | inr taken ↦ rw (more, taken) (draw_loop-lines r hs (n - m) (draw_held r h m s))
      ]
    ]

-- The write of the line.
abbrev fulfilled : OrderLine → ℕ → List OrderLine → List OrderLine
fulfilled line n ls =
    update line_pk line.id
      (λ l. record l {
        reserved_quantity = line.reserved_quantity - n;
        prepared_quantity = line.prepared_quantity + n;
      })
      ls

consume_reserved_stock-lines :
    (r : ConsumeReserved) (q : ℤ) (s : Store) {c : List StockConsumeResult} {s' : Store}
    → consume_reserved_stock r q s ≡ ok (c, s')
    → s'.lines ≡ fulfilled r.line (pos_part q) s.lines
unfolding consume_reserved_stock
consume_reserved_stock-lines r q s {c} {s'} h =
    let d = draw_loop r (line_reservations r.line s) (pos_part q) s in
    let (_, _, h1) = >>=-eq-ok (raise_if (leb_ℤ q (pos 0)) invalid_quantity) _ h in
    let (_, _, h2) = >>=-eq-ok (raise_if (ltb 0 d.remaining) reservation_insufficient) _ h1 in
    ok_transport
      (λ (x : List StockConsumeResult × Store). x.1.lines ≡ fulfilled r.line (pos_part q) s.lines)
      h2
      (ap (fulfilled r.line (pos_part q))
        (draw_loop-lines r (line_reservations r.line s) (pos_part q) s))

pack_carton_from_reserved-lines :
    (fold : Text → Text) (clock : Clock) (today : Text) (manual : Bool) (r : PackReserved) (q : ℤ)
    (w : World) {c : Carton} {w' : World}
    → pack_carton_from_reserved fold clock today manual r q w ≡ ok (c, w')
    → w'.lines ≡ fulfilled r.line (pos_part q) w.lines
unfolding pack_carton_from_reserved
pack_carton_from_reserved-lines fold clock today manual r q w h =
    let ((c1, t1), prepared, h1) = >>=-eq-ok (prepare_carton today (preparation r) w.tables) _ h in
    let w1 = with_tables w t1 in
    let ((consumed, s), drawn, h2) =
      >>=-eq-ok (consume_reserved_stock (consumption r c1) q (store_of w1)) _ h1 in
    let c2 = filled r.display_expires_on consumed c1 in
    let w2 = store_consumed c2 s w1 in
    let ((c3, t3), finished, done) =
      >>=-eq-ok
        (finish_packing fold clock r.user r.shipment (manual && is_some r.carton)
          (reason_for r.shipment "order_pack_assign" "order_pack_start_picking")
          (target_status r.shipment false c2.status) c2 w2.tables)
        _ h2 in
    ok_transport (λ (x : Carton × World). x.1.lines ≡ fulfilled r.line (pos_part q) w.lines) done
      (consume_reserved_stock-lines (consumption r c1) q (store_of w1) drawn)

-- The gain of a line's key by an entry, by the entries of a bin, by bins.
abbrev pub entry_gain : List OrderLine → BinEntry → ℕ → ℕ
entry_gain lines e j = elim (find line_product e.product lines) [
  | none ↦ 0
  | some m ↦ only m.id e.quantity j
]

abbrev pub entries_gain : List OrderLine → List BinEntry → ℕ → ℕ
entries_gain lines es j = sum_by (λ (e : BinEntry). entry_gain lines e j) es

abbrev pub bins_gain : (F : Floats) → List OrderLine → List (Bin F) → ℕ → ℕ
bins_gain F lines bs j = sum_by (λ (b : Bin F). entries_gain lines b.items j) bs

pub gain_of :
    (lines : List OrderLine) (e : BinEntry) (m : OrderLine)
    → find line_product e.product lines ≡ some m
    → entry_gain lines e ≡ only m.id e.quantity
gain_of lines e m h =
    ap (λ o j. elim o as (λ _. ℕ) [ none ↦ 0 | some x ↦ only (line_pk x) e.quantity j ]) h

pub gain_none :
    (lines : List OrderLine) (e : BinEntry)
    → find line_product e.product lines ≡ none
    → entry_gain lines e ≡ (λ _. 0)
gain_none lines e h =
    ap (λ o j. elim o as (λ _. ℕ) [ none ↦ 0 | some x ↦ only (line_pk x) e.quantity j ]) h

module _ (k : Packer) (lines : List OrderLine) where
  pack_entry-Gains :
      (e : BinEntry) (carton : Option Carton) (w : World) {c : Carton} {w' : World}
      → Distinct line_pk w.lines
      → pack_entry k lines e carton w ≡ ok (c, w')
      → Gains (entry_gain lines e) w.lines w'.lines
  unfolding pack_entry
  pack_entry-Gains e carton w {c} {w'} distinct h =
      let (known, found, h1) =
        >>=-eq-ok (or_raise (find line_product e.product lines) line_missing) _ h in
      let (line, row, packed) =
        >>=-eq-ok (or_raise (find line_pk known.id w.lines) line_missing) _ h1 in
      let known_line = or_raise-eq-ok (find line_product e.product lines) line_missing found in
      let stored = or_raise-eq-ok (find line_pk known.id w.lines) line_missing row in
      let key = find-key line_pk known.id w.lines stored in
      let written =
        pack_carton_from_reserved-lines k.fold k.clock k.today false
          (record {
            user = k.user;
            line = line;
            carton = carton;
            shipment = some (current_shipment w k.shipment);
            current_location = none;
            carton_size = some k.size;
            display_expires_on = none;
          })
          (pos e.quantity) w packed in
      let gain =
        Gains-update line.id e.quantity (line.reserved_quantity - e.quantity) w.lines distinct
          (ap (λ j. find line_pk j w.lines) key ∙ stored) in
      subst (λ ls. Gains (entry_gain lines e) w.lines ls) (sym written)
        (subst (λ g. Gains g w.lines (fulfilled line e.quantity w.lines))
          (ap (λ j. only j e.quantity) key ∙ sym (gain_of lines e known known_line)) gain)

  pack_entries-Gains :
      (es : List BinEntry) (carton : Option Carton) (w : World) {w' : World}
      → Distinct line_pk w.lines
      → pack_entries k lines es carton w ≡ ok w'
      → Gains (entries_gain lines es) w.lines w'.lines
  unfolding pack_entries
  pack_entries-Gains [] carton w distinct h =
      ok_transport (λ (x : World). Gains (λ _. 0) w.lines x.lines) h (Gains-none w.lines)
  pack_entries-Gains (e ∷ es) carton w {w'} distinct h =
      let ((c, w1), first, rest) = >>=-eq-ok (pack_entry k lines e carton w) _ h in
      let gain = pack_entry-Gains e carton w distinct first in
      Gains-trans (entry_gain lines e) (entries_gain lines es) w.lines w1.lines w'.lines gain (
        pack_entries-Gains es (some c) w1
          (Gains-Distinct (entry_gain lines e) w.lines w1.lines gain distinct) rest)

  module _ (F : Floats) where
    pub pack_bins-Gains :
        (bs : List (Bin F)) (w : World) {w' : World}
        → Distinct line_pk w.lines
        → pack_bins F k lines bs w ≡ ok w'
        → Gains (bins_gain F lines bs) w.lines w'.lines
    unfolding pack_bins
    pack_bins-Gains [] w distinct h =
        ok_transport (λ (x : World). Gains (λ _. 0) w.lines x.lines) h (Gains-none w.lines)
    pack_bins-Gains (b ∷ bs) w {w'} distinct h =
        let (w1, first, rest) = >>=-eq-ok (pack_entries k lines b.items none w) _ h in
        let gain = pack_entries-Gains b.items none w distinct first in
        Gains-trans (entries_gain lines b.items) (bins_gain F lines bs) w.lines w1.lines w'.lines
          gain
          (pack_bins-Gains bs w1
            (Gains-Distinct (entries_gain lines b.items) w.lines w1.lines gain distinct) rest)
