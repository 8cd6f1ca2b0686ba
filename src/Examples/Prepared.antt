-- ===== src/Examples/Prepared.antt =====
-- The preparation of an order of nine units (wms/domain/orders.py, `prepare_order`): four are in a
-- packed carton, and the five that remain of the reserved stock go into new cartons of three at most.
use asf_wms.Prelude.{
  ℕ, ◌+◌, ◌≡◌, refl, pos, ◌+ℤ◌, ◌-ℤ◌, All, none, some, [], ◌∷◌, Result, ok, err, arith, length,
  true, false,
}
use asf_wms.Carton.Code.{
  normalize_carton_family, next_in_family, next_linear_carton_sequence, format_linear_carton_code,
  generate_carton_code,
}
use asf_wms.Carton.Code.Ensure.{linear_type, ensure_carton_code}
use asf_wms.Carton.Code.Types.{
  pieces, normalize_type_code, add_type, greatest, dominant, type_totals, dominant_type_code,
}
use asf_wms.Carton.Prepare.{new_code, create_carton, size_carton, pick_carton, prepare_carton}
use asf_wms.Shipment.Status.{sync_row, compute_shipment_progress, sync_shipment_ready_state}
use asf_wms.Shipment.Reference.{needs_reference, save_shipment}
use asf_wms.Carton.Unpack.{sync_if_linked}
use asf_wms.Carton.Items.{add_entry, add_entries}
use asf_wms.Carton.Pack.{store_items, change_status, finish_packing}
use asf_wms.Order.Pack.{pack_carton_from_reserved}
use asf_wms.Order.Consume.{draw_held, draw_loop, consume_reserved_stock}
use asf_wms.Bins.{unit_parts, total_measure, get_product_weight_g, get_product_volume_cm3}
use asf_wms.Bins.Check.{check_measures, check_line, check_lines, sort_items}
use asf_wms.Bins.Fill.{max_fit, place, new_bin, place_or_open, fill, fill_all, build_packing_bins}
use asf_wms.Kit.{expand_new, get_unit_component_quantities}
use asf_wms.Text.{is_digits, decimal, padded, starts_with, text_eq}
use asf_wms.Catalog.{root_category_name}
use asf_wms.Prelude.OrderBy.{order_by}
use asf_wms.Shipment.Status.{sync_row, set_carton_status}
use asf_wms.Order.{line_reservations, with_lots}
use asf_wms.Order.Release.{settle, release_held, release_loop, release_reserved_stock}
use asf_wms.Prelude.Table.{find, Distinct}
use asf_wms.Errors.{StockError}
use asf_wms.Rows.{Carton, CartonStatus, Shipment, ShipmentStatus, carton_pk}
use asf_wms.Carton.Tables.{CartonFormat}
use asf_wms.Order.{OrderStatus, line_pk, order_pk}
use asf_wms.Order.Pack.{World}
use asf_wms.Order.Ready.{
  slots, item_products, single_product, matching_slot, release_if_reserved, take_carton,
  assign_cartons, assign_ready_cartons_to_order, order_lines, remaining_quantity,
}
use asf_wms.Order.Ready.Bounds.{IsBounded}
use asf_wms.Order.Ready.Units.{units_in, cartons_in, prepared_total}
use asf_wms.Order.Ready.Laws.{
  assign_ready_cartons_to_order-IsBounded, assign_ready_cartons_to_order-balances,
}
use asf_wms.Order.Prepare.{
  pack_entry, pack_entries, pack_bins, pack_rest, close_preparation, prepare_order,
}
use asf_wms.Order.Prepare.Unique.{AreUnique}
use asf_wms.Order.Prepare.Laws.{prepare_order-ready}
use asf_wms.Examples.Shipments.{clock, a_shipment, a_carton, a_db}
use asf_wms.Examples.Orders.{order, reserved}
use asf_wms.Examples.Preparing.{whole, products}

abbrev packed_carton : Carton
packed_carton = record (a_carton 50 CartonStatus.packed) {
  code = b'Z' ∷ [];
  shipment = none;
  items = record { product_lot = 1; quantity = pos 4; display_expires_on = none } ∷ [];
}

abbrev format : CartonFormat
format = record {
  length_cm = 1000;
  width_cm = 1000;
  height_cm = 1000;
  max_weight_g = 350;
  is_default = true;
}

abbrev shipment : Shipment
shipment = a_shipment (b'E' ∷ []) ShipmentStatus.draft false none

abbrev world : World
world = record {
  tables = record {
    db = record (a_db shipment CartonStatus.draft) {
      stock = reserved.stock;
      cartons = packed_carton ∷ [];
    };
    sequences = [];
    formats = format ∷ [];
    products = products;
  };
  orders = reserved.orders;
  lines = reserved.lines;
  reservations = reserved.reservations;
  next_reservation = reserved.next_reservation;
}

-- What a run returns and leaves.
abbrev outcome : Result StockError (ℕ × World) → ℕ × World
outcome (ok r) = r
outcome (err _) = (0, world)

abbrev assigned : ℕ × World
assigned = outcome (assign_ready_cartons_to_order clock (some 1) 20 shipment world)

four_assigned : assign_ready_cartons_to_order clock (some 1) 20 shipment world ≡ ok (1, assigned.1)
unfolding assign_ready_cartons_to_order slots order_by assign_cartons matching_slot single_product
    item_products take_carton release_if_reserved release_reserved_stock release_loop release_held
    settle line_reservations with_lots set_carton_status ◌+ℤ◌ ◌-ℤ◌
four_assigned = refl

abbrev prepared : ℕ × World
prepared = outcome (
    prepare_order whole (λ t. t) clock [] (some 1) (some 1) (order OrderStatus.reserved) shipment
      world)

lines-Distinct : Distinct line_pk world.lines
lines-Distinct = ground arith

cartons-Distinct : Distinct carton_pk world.tables.db.cartons
cartons-Distinct = ground arith

assign_ready_cartons_to_order-IsBounded_example : All IsBounded assigned.1.lines
assign_ready_cartons_to_order-IsBounded_example =
    assign_ready_cartons_to_order-IsBounded clock (some 1) 20 shipment world lines-Distinct
      (omega arith, tt) four_assigned

assign_ready_cartons_to_order-balances_example :
    (pos (prepared_total assigned.1.lines) +ℤ units_in 30 world.tables.db.cartons
      ≡ pos (prepared_total world.lines) +ℤ units_in 30 assigned.1.tables.db.cartons)
    × (cartons_in 30 assigned.1.tables.db.cartons ≡ cartons_in 30 world.tables.db.cartons + 1)
assign_ready_cartons_to_order-balances_example =
    assign_ready_cartons_to_order-balances clock (some 1) 20 shipment world lines-Distinct
      cartons-Distinct four_assigned

nine_prepared :
    (prepare_order whole
        (λ t. t)
        clock
        []
        (some 1)
        (some 1)
        (order OrderStatus.reserved)
        shipment
        world
      ≡ ok (1, prepared.1))
    × (find order_pk 20 prepared.1.orders ≡ some (order OrderStatus.ready))
    × (length prepared.1.tables.db.cartons ≡ 3)
unfolding normalize_carton_family next_in_family next_linear_carton_sequence
    format_linear_carton_code generate_carton_code linear_type ensure_carton_code pieces
    normalize_type_code add_type greatest dominant type_totals dominant_type_code new_code
    create_carton size_carton pick_carton prepare_carton set_carton_status compute_shipment_progress
    sync_shipment_ready_state sync_row needs_reference save_shipment sync_if_linked add_entry
    add_entries store_items change_status finish_packing pack_carton_from_reserved draw_held
    draw_loop consume_reserved_stock release_held release_loop release_reserved_stock with_lots
    line_reservations slots item_products single_product matching_slot release_if_reserved
    take_carton assign_cartons assign_ready_cartons_to_order pack_entry pack_entries pack_bins
    pack_rest close_preparation prepare_order unit_parts total_measure get_product_weight_g
    get_product_volume_cm3 check_measures check_line check_lines sort_items max_fit place new_bin
    place_or_open fill fill_all build_packing_bins expand_new get_unit_component_quantities
    is_digits decimal padded starts_with text_eq root_category_name order_by ◌+ℤ◌
nine_prepared = (refl, refl, refl)

lines-AreUnique : AreUnique 20 world.lines
lines-AreUnique = ground arith

prepare_order-ready_example :
    (OrderStatus.ready ≡ OrderStatus.ready)
    × All (λ l. remaining_quantity l ≡ 0) (order_lines 20 prepared.1.lines)
prepare_order-ready_example =
    prepare_order-ready whole (λ t. t) clock [] (some 1) (some 1) (order OrderStatus.reserved)
      shipment world lines-AreUnique nine_prepared.0 nine_prepared.1
