-- ===== src/Order/Ready/Step.antt =====
-- What one carton of `assign_ready_cartons_to_order` changes (wms/domain/orders.py).
use asf_wms.Prelude.{
  ℕ, ◌+◌, ◌-◌, ◌==◌, ◌≡◌, refl, ap, ◌∙◌, inl, inr, min, ◌≤◌, pos, pos_part, Option, none, some,
  List, [], ◌∷◌, map, Bool-cases, Option-cases, arith, Result, ok,
}
use asf_wms.Prelude.Results.{>>=-eq-ok, ok_transport}
use asf_wms.Prelude.Table.{find, update, find-own_key}
use asf_wms.Errors.{StockError}
use asf_wms.Stock.{ProductLot}
use asf_wms.Rows.{CartonStatus, Shipment, Carton, Db, carton_pk}
use Prim.Native.String.{String}
use asf_wms.Shipment.Status.{set_carton_status}
use asf_wms.Carton.Unpack.Laws.{items_total}
use asf_wms.Order.Model.{OrderLine, Store, Held, line_pk, line_reservations}
use asf_wms.Order.Release.{release_held, release_loop, release_reserved_stock}
use asf_wms.Order.Pack.{World, store_of}
use asf_wms.Order.Ready.{
  Slot, Assigning, release, release_if_reserved, prepare_line, link_carton, lower_slot, take_carton,
  matching_slot, single_product, item_products, slot_pk,
}

-- A line without its reserved quantity.
abbrev pub unreserved : OrderLine → OrderLine
unreserved l = record l { reserved_quantity = 0 }

unreserved-update :
    (k n : ℕ) (ls : List OrderLine)
    → map unreserved (update line_pk k (λ l. record l { reserved_quantity = n }) ls)
      ≡ map unreserved ls
unreserved-update k n [] = refl
unreserved-update k n (l ∷ ls) = elim (Bool-cases (l.id == k)) [
  | inl same ↦ rw same refl
  | inr other ↦ rw other (ap (λ t. unreserved l ∷ t) (unreserved-update k n ls))
]

release_loop-lines : (hs : List Held) (n : ℕ) (s : Store) → (release_loop hs n s).1.lines ≡ s.lines
unfolding release_loop release_held
release_loop-lines [] n s = refl
release_loop-lines (h ∷ hs) n s = elim (Bool-cases (n == 0)) [
  | inl done ↦ rw done refl
  | inr more ↦
      let m = min n h.reservation.quantity in
      rw more (release_loop-lines hs (n - m) (release_held h m s))
]

release_reserved_stock-lines :
    (l : OrderLine) (n : ℕ) (s : Store) {s' : Store}
    → release_reserved_stock l n s ≡ ok s'
    → map unreserved s'.lines ≡ map unreserved s.lines
unfolding release_reserved_stock
release_reserved_stock-lines l n s {s'} h =
    let r = release_loop (line_reservations l s) n s in
    let same = release_loop-lines (line_reservations l s) n s in
    let k = l.reserved_quantity - (n - r.0) in
    let kept = unreserved-update l.id k r.1.lines in ground (arith, same, kept)

-- The lines but for what they have reserved, and the cartons, are as before.
abbrev Kept : World → World → Type 0
Kept w w' =
    (map unreserved w'.lines ≡ map unreserved w.lines)
    × (w'.tables.db.cartons ≡ w.tables.db.cartons)

release_if_reserved-Kept :
    (o : Option OrderLine) (n : ℕ) (w : World) {w' : World}
    → release_if_reserved o n w ≡ ok w'
    → Kept w w'
unfolding release_if_reserved
release_if_reserved-Kept none n w h = ok_transport (Kept w) h (refl, refl)
release_if_reserved-Kept (some l) n w {w'} h = elim (Bool-cases (l.reserved_quantity == 0)) [
  | inl nothing ↦
      let same : ◌≡◌ {A = Result StockError World} (ok w) (ok w') = ground arith in
      ok_transport (Kept w) same (refl, refl)
  | inr reserved ↦
      let run : release l n w ≡ ok w' = ground arith in
      let (s, released, done) = >>=-eq-ok (release_reserved_stock l n (store_of w)) _ run in
      ok_transport (Kept w) done (release_reserved_stock-lines l n (store_of w) released, refl)
]

-- What taking a carton leaves: the lines but for what they have reserved, the cartons, the dictionary
-- of what remains, and the count.
pub record Takes (shipment : Shipment) (c : Carton) (s : Slot) (a a' : Assigning) : Type 0 where
  pub lines :
      map unreserved a'.world.lines
      ≡ map unreserved (
          update line_pk s.line
            (λ l. record l {
              prepared_quantity = l.prepared_quantity + pos_part (items_total c.items);
            })
            a.world.lines)
  pub cartons :
      a'.world.tables.db.cartons
      ≡ update carton_pk c.id
          (λ _. record c { status = CartonStatus.assigned; shipment = some shipment.id })
          a.world.tables.db.cartons
  pub left : a'.remaining ≡ lower_slot s (pos_part (items_total c.items)) a.remaining
  pub count : a'.assigned ≡ a.assigned + 1

set_carton_status-assigned :
    (user : Option ℕ) (reason : String) (c : Carton) (db : Db)
    → c.status ≡ CartonStatus.packed
    → (set_carton_status user reason CartonStatus.assigned c db).cartons
      ≡ update carton_pk c.id (λ _. record c { status = CartonStatus.assigned }) db.cartons
unfolding set_carton_status
set_carton_status-assigned user reason c db packed = rw packed refl

pub take_carton-Takes :
    (user : Option ℕ) (shipment : Shipment) (c : Carton) (s : Slot) (a : Assigning) {a' : Assigning}
    → c.status ≡ CartonStatus.packed
    → take_carton user shipment c s a ≡ ok a'
    → Takes shipment c s a a'
unfolding take_carton
take_carton-Takes user shipment c s a packed h =
    let n = pos_part (items_total c.items) in
    let w = prepare_line s.line n (link_carton user shipment c a.world) in
    let o = find line_pk s.line w.lines in
    let (w', run, done) = >>=-eq-ok (release_if_reserved o n w) _ h in
    let kept = release_if_reserved-Kept o n w run in
    ok_transport (Takes shipment c s a) done (record {
      lines = kept.0;
      cartons =
          kept.1
          ∙ set_carton_status-assigned user "order_assign_ready_carton"
              (record c { shipment = some shipment.id }) a.world.tables.db packed;
      left = refl;
      count = refl;
    })

-- A slot that takes the carton is the one of its product, and enough remains for the carton's units.
pub matching_slot-fits :
    (lots : List ProductLot) (c : Carton) (ss : List Slot) {s : Slot}
    → matching_slot lots c ss ≡ some s
    → (find slot_pk s.product ss ≡ some s)
      × (pos_part (items_total c.items) ≤ s.remaining)
      × (pos (pos_part (items_total c.items)) ≡ items_total c.items)
unfolding matching_slot
matching_slot-fits lots c ss {s} h =
    elim (Option-cases (single_product (item_products lots c.items))) [
      | inl nothing ↦ absurd (ground arith)
      | inr (p, single) ↦ elim (Option-cases (find slot_pk p ss)) [
        | inl unknown ↦ absurd (ground arith)
        | inr (t, found) ↦
            let same : t ≡ s = ground arith in
            (find-own_key slot_pk p ss (found ∙ ap some same), ground arith, ground arith)
      ]
    ]
