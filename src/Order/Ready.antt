-- ===== src/Order/Ready.antt =====
-- Assigning packed cartons to an order (wms/domain/orders.py, `assign_ready_cartons_to_order`), from
-- where the order has its shipment.
pub mod Step
pub mod Bounds
pub mod Units
pub mod Balance
pub mod Laws
use asf_wms.Prelude.{
  ℕ, ◌+◌, ◌-◌, ◌==◌, leb_ℤ, ltb, ℤ, pos, pos_part, Bool, true, false, ◌&&◌, ◌||◌, not, Option, none,
  some, List, [], ◌∷◌, all, filter, if◌then◌else◌, is_some, Result, ok, ◌>>=◌, ◌>>◌, raise_if,
}
use asf_wms.Prelude.Table.{find, update}
use asf_wms.Prelude.OrderBy.{order_by}
use asf_wms.Errors.{StockError, shipment_disputed, shipment_locked}
use asf_wms.Stock.{ProductLot, lot_pk}
use asf_wms.Rows.{CartonStatus, Shipment, Carton, CartonItem, Db, Clock, same_carton_status}
use asf_wms.Shipment.Status.{is_locked, set_carton_status, sync_shipment_ready_state}
use asf_wms.Carton.Tables.{with_db}
use asf_wms.Carton.Unpack.Laws.{items_total}
use asf_wms.Order.Model.{OrderLine, line_pk}
use asf_wms.Order.Release.{release_reserved_stock}
use asf_wms.Order.Pack.{World, store_of, with_store, with_tables}

-- An entry of the dictionaries `line_by_product` and `remaining`. A product has one line in an order.
pub record Slot : Type 0 where
  pub product : ℕ
  pub line : ℕ
  pub remaining : ℕ

abbrev pub slot_pk : Slot → ℕ
slot_pk s = s.product

-- `max(0, quantity - prepared_quantity)`
abbrev pub remaining_quantity : OrderLine → ℕ
remaining_quantity l = l.quantity - l.prepared_quantity

abbrev pub order_lines : ℕ → List OrderLine → List OrderLine
order_lines order ls = filter (λ (l : OrderLine). l.order == order) ls

unfoldable pub slots : List OrderLine → List Slot
slots [] = []
slots (l ∷ ls) =
    record { product = l.product; line = l.id; remaining = remaining_quantity l } ∷ slots ls

-- The cartons of the query, in the order of their codes (by code points).
abbrev pub is_ready_carton : Carton → Bool
is_ready_carton c = same_carton_status c.status CartonStatus.packed && not (is_some c.shipment)

abbrev pub code_key : Carton → List ℕ
code_key c = c.code

abbrev pub ready_cartons : List Carton → List Carton
ready_cartons cs = order_by code_key (filter is_ready_carton cs)

-- The products of the items. A lot cannot be deleted while an item refers to it.
abbrev pub add_product : Option ProductLot → List ℕ → List ℕ
add_product none ps = ps
add_product (some l) ps = l.product ∷ ps

unfoldable pub item_products : List ProductLot → List CartonItem → List ℕ
item_products lots [] = []
item_products lots (i ∷ is) = add_product (find lot_pk i.product_lot lots) (item_products lots is)

-- The product of all items, if there are items and they have one product.
unfoldable pub single_product : List ℕ → Option ℕ
single_product [] = none
single_product (p ∷ ps) = if all (λ q. q == p) ps then some p else none

abbrev pub slot_for : Option ℕ → List Slot → Option Slot
slot_for none ss = none
slot_for (some p) ss = find slot_pk p ss

-- The line that takes the carton, if the loop does not go on to the next.
unfoldable pub matching_slot : List ProductLot → Carton → List Slot → Option Slot
matching_slot lots c ss = elim (slot_for (single_product (item_products lots c.items)) ss) [
  | none ↦ none
  | some s ↦
      if leb_ℤ (items_total c.items) (pos 0) || ltb s.remaining (pos_part (items_total c.items))
      then none
      else some s
]

pub record Assigning : Type 0 where
  pub world : World
  pub remaining : List Slot
  pub assigned : ℕ

abbrev pub release : OrderLine → ℕ → World → Result StockError World
release l n w = do s ← release_reserved_stock l n (store_of w); ok (with_store w.tables s)

-- `release_reserved_stock`, if the line has reserved stock.
unfoldable pub release_if_reserved : Option OrderLine → ℕ → World → Result StockError World
release_if_reserved none n w = ok w
release_if_reserved (some l) n w = if l.reserved_quantity == 0 then ok w else release l n w

-- `line.prepared_quantity += carton_qty` and its saving
abbrev pub prepare_line : ℕ → ℕ → World → World
prepare_line line n w = record w {
  lines =
      update line_pk line (λ l. record l { prepared_quantity = l.prepared_quantity + n }) w.lines;
}

-- `carton.shipment = shipment` and the change of its status
abbrev pub link_carton : Option ℕ → Shipment → Carton → World → World
link_carton user shipment c w = with_tables w (
    with_db w.tables (
      set_carton_status user "order_assign_ready_carton" CartonStatus.assigned
        (record c { shipment = some shipment.id }) w.tables.db))

abbrev pub lower_slot : Slot → ℕ → List Slot → List Slot
lower_slot s n ss = update slot_pk s.product (λ t. record t { remaining = t.remaining - n }) ss

unfoldable pub take_carton :
    Option ℕ → Shipment → Carton → Slot → Assigning → Result StockError Assigning
take_carton user shipment c s a =
    let n = pos_part (items_total c.items) in
    let w = prepare_line s.line n (link_carton user shipment c a.world) in
    do
      w' ← release_if_reserved (find line_pk s.line w.lines) n w
      ok (record { world = w'; remaining = lower_slot s n a.remaining; assigned = a.assigned + 1 })

abbrev pub take_if_matching :
    Option ℕ → Shipment → Carton → Option Slot → Assigning → Result StockError Assigning
take_if_matching user shipment c none a = ok a
take_if_matching user shipment c (some s) a = take_carton user shipment c s a

-- The loop over the ready cartons.
unfoldable pub assign_cartons :
    Option ℕ → Shipment → List Carton → Assigning → Result StockError Assigning
assign_cartons user shipment [] a = ok a
assign_cartons user shipment (c ∷ cs) a = do
  a' ← take_if_matching user shipment c (matching_slot a.world.tables.db.stock.lots c a.remaining) a
  assign_cartons user shipment cs a'

-- `order` is the key of the order, `user` the user who created it.
unfoldable pub assign_ready_cartons_to_order :
    Clock → Option ℕ → ℕ → Shipment → World → Result StockError (ℕ × World)
assign_ready_cartons_to_order clock user order shipment w = do
  raise_if shipment.is_disputed shipment_disputed
  raise_if (is_locked shipment.status) shipment_locked
  a ←
      assign_cartons user shipment (ready_cartons w.tables.db.cartons)
        (record { world = w; remaining = slots (order_lines order w.lines); assigned = 0 })
  ok (
    a.assigned,
    with_tables a.world
        (with_db a.world.tables (sync_shipment_ready_state clock shipment.id a.world.tables.db)),
  )
