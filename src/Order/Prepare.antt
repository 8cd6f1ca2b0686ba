-- ===== src/Order/Prepare.antt =====
-- The preparation of an order (wms/domain/orders.py, `prepare_order`), from where the order has its
-- shipment: the packed cartons that fit, and the reserved stock in new cartons for the rest.
pub mod Gains
pub mod Packs
pub mod Unique
pub mod Shares
pub mod Laws
use asf_wms.Prelude.{
  ℕ, ◌==◌, ltb, pos, Bool, true, false, Option, none, some, List, [], ◌∷◌, all, filter, map, not,
  if◌then◌else◌, or_default, Result, ok, err, ◌>>=◌, ◌>>◌, raise_if, or_raise,
}
use asf_wms.Prelude.Table.{find, update}
use asf_wms.Errors.{
  StockError, PackError, order_not_reserved, shipment_disputed, shipment_locked, format_missing,
  line_missing, packing_refused,
}
use asf_wms.Text.{Text}
use asf_wms.Rows.{Shipment, Carton, Clock, shipment_pk}
use asf_wms.Shipment.Status.{is_locked, sync_shipment_ready_state}
use asf_wms.Carton.Tables.{
  CartonFormat, Dimensions, with_db, or_first, first_default, format_dimensions,
}
use asf_wms.Bins.{Floats, PackLine, PackingSize}
use asf_wms.Bins.Fill.{BinEntry, Bin, Packing, build_packing_bins}
use asf_wms.Order.Model.{Order, OrderLine, OrderStatus, line_pk, order_pk}
use asf_wms.Order.Pack.{World, with_tables, pack_carton_from_reserved}
use asf_wms.Order.Ready.{remaining_quantity, order_lines, assign_ready_cartons_to_order}

abbrev pub is_preparable : OrderStatus → Bool
is_preparable OrderStatus.reserved = true
is_preparable OrderStatus.preparing = true
is_preparable _ = false

abbrev pub needs_packing : OrderLine → Bool
needs_packing l = ltb 0 (remaining_quantity l)

abbrev pub line_product : OrderLine → ℕ
line_product l = l.product

abbrev pub pack_line : OrderLine → PackLine
pack_line l = record { product = l.product; quantity = remaining_quantity l; expires_on = none }

abbrev pub packing_size : CartonFormat → PackingSize
packing_size f = record {
  length_cm = f.length_cm;
  width_cm = f.width_cm;
  height_cm = f.height_cm;
  max_weight_g = f.max_weight_g;
}

-- The shipment object, in step with its row.
abbrev pub current_shipment : World → Shipment → Shipment
current_shipment w s = or_default (find shipment_pk s.id w.tables.db.shipments) s

-- What the calls of `pack_carton_from_reserved` have in common.
pub record Packer : Type 0 where
  pub fold : Text → Text
  pub clock : Clock
  pub today : Text
  pub user : Option ℕ
  pub shipment : Shipment
  pub size : Dimensions

-- One entry of a bin goes into the carton of the bin; the line's object is in step with its row.
unfoldable pub pack_entry :
    Packer → List OrderLine → BinEntry → Option Carton → World → Result StockError (Carton × World)
pack_entry k lines e carton w = do
  known ← or_raise (find line_product e.product lines) line_missing
  line ← or_raise (find line_pk known.id w.lines) line_missing
  pack_carton_from_reserved k.fold k.clock k.today false
      (record {
        user = k.user;
        line = line;
        carton = carton;
        shipment = some (current_shipment w k.shipment);
        current_location = none;
        carton_size = some k.size;
        display_expires_on = none;
      })
      (pos e.quantity) w

-- The loop over the entries of a bin.
unfoldable pub pack_entries :
    Packer → List OrderLine → List BinEntry → Option Carton → World → Result StockError World
pack_entries k lines [] carton w = ok w
pack_entries k lines (e ∷ es) carton w = do
  (c, w') ← pack_entry k lines e carton w
  pack_entries k lines es (some c) w'

-- The loop over the bins.
unfoldable pub pack_bins :
    (F : Floats) → Packer → List OrderLine → List (Bin F) → World → Result StockError World
pack_bins F k lines [] w = ok w
pack_bins F k lines (b ∷ bs) w = do
  w' ← pack_entries k lines b.items none w
  pack_bins F k lines bs w'

-- `if errors: raise StockError(errors[0])`
abbrev pub bins_or_raise :
    (F : Floats) → List PackError → Option (List (Bin F)) → Result StockError (List (Bin F))
bins_or_raise F (e ∷ es) bins = err (packing_refused e)
bins_or_raise F [] none = ok []
bins_or_raise F [] (some bs) = ok bs

-- The lines with something left, in new cartons.
unfoldable pub pack_rest :
    (F : Floats) → (Dimensions → Packer) → List OrderLine → World → Result StockError World
pack_rest F packer [] w = ok w
pack_rest F packer (l ∷ ls) w = do
  format ← or_raise (or_first (first_default w.tables.formats) w.tables.formats) format_missing
  let packing =
      build_packing_bins F w.tables.products none (map pack_line (l ∷ ls))
        (some (packing_size format))
  bs ← bins_or_raise F packing.errors packing.bins
  pack_bins F (packer (format_dimensions (some format))) (l ∷ ls) bs w

abbrev pub is_prepared : OrderLine → Bool
is_prepared l = remaining_quantity l == 0

-- The status that the order gets, and the status of the shipment.
unfoldable pub close_preparation : Clock → ℕ → ℕ → World → World
close_preparation clock order shipment w =
    let status =
      if all is_prepared (order_lines order w.lines)
      then OrderStatus.ready
      else OrderStatus.preparing in
    let w' = record w {
      orders = update order_pk order (λ o. record o { status = status }) w.orders;
    } in
    with_tables w' (with_db w'.tables (sync_shipment_ready_state clock shipment w'.tables.db))

-- `author` is the user who created the order; the result is the number of packed cartons assigned.
unfoldable pub prepare_order :
    (F : Floats)
    → (Text → Text)
    → Clock
    → Text
    → Option ℕ
    → Option ℕ
    → Order
    → Shipment
    → World
    → Result StockError (ℕ × World)
prepare_order F fold clock today user author order shipment w = do
  raise_if (not (is_preparable order.status)) order_not_reserved
  raise_if shipment.is_disputed shipment_disputed
  raise_if (is_locked shipment.status) shipment_locked
  (assigned, w1) ← assign_ready_cartons_to_order clock author order.id shipment w
  w2 ←
      pack_rest F
        (λ size. record {
          fold = fold;
          clock = clock;
          today = today;
          user = user;
          shipment = shipment;
          size = size;
        })
        (filter needs_packing (order_lines order.id w1.lines)) w1
  ok (assigned, close_preparation clock order.id shipment.id w2)
