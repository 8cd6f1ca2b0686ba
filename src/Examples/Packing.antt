-- ===== src/Examples/Packing.antt =====
-- Five units of the shelf packed into a new carton (wms/domain/stock.py, `pack_carton`).
use asf_wms.Prelude.{
  ℕ, suc, ◌≡◌, ◌≢◌, err, refl, pos, ◌+ℤ◌, ◌-ℤ◌, false, none, some, [], ◌∷◌, List, ok, length,
}
use asf_wms.Prelude.OrderBy.{order_by}
use asf_wms.Text.{text_eq}
use asf_wms.Stock.{precondition, Stock, StockMovement, available, quarantined}
use asf_wms.Stock.Consume.{fefo_lots, take_from_lot, consume_loop, consume_stock}
use asf_wms.Rows.{Carton, CartonStatus, ShipmentStatus}
use asf_wms.Kit.{
  out_of_fuel, Part, get_component_quantities, get_unit_component_quantities, expand_new,
  expand_items,
}
use asf_wms.Catalog.{PackedProduct}
use asf_wms.Shipment.Status.{set_carton_status}
use asf_wms.Carton.Unpack.{sync_if_linked}
use asf_wms.Carton.Tables.{Tables, resolve_carton_dimensions}
use asf_wms.Carton.Prepare.{find_code, create_carton, size_carton, pick_carton, prepare_carton}
use asf_wms.Carton.Items.{add_entry, add_entries}
use asf_wms.Carton.Code.Ensure.{ensure_carton_code}
use asf_wms.Carton.Pack.{
  items_of, PackRequest, requirements, store_items, pack_parts, change_status, finish_packing,
  pack_carton,
}
use asf_wms.Carton.Pack.Kits.{requirements-terminate}
use asf_wms.Carton.Pack.Laws.{Packs, total_parts, units_of_product, pack_carton-Packs}
use asf_wms.Examples.Shelf.{a_lot, shelf, shelf-Distinct, shelf-IsSound}
use asf_wms.Examples.Shipments.{clock, a_shipment, a_carton, a_db}

-- Kit 6 is two units of product 7.
abbrev products : List PackedProduct
products =
    record {
      id = 6;
      category = none;
      weight_g = 0;
      volume_cm3 = 0;
      length_cm = 0;
      width_cm = 0;
      height_cm = 0;
      kit_items = record { component = 7; quantity = 2 } ∷ [];
    }
    ∷ record {
      id = 7;
      category = none;
      weight_g = 10;
      volume_cm3 = 0;
      length_cm = 0;
      width_cm = 0;
      height_cm = 0;
      kit_items = [];
    }
    ∷ []

abbrev tables : Tables
tables = record {
  db = a_db (a_shipment [] ShipmentStatus.picking false none) CartonStatus.draft;
  sequences = [];
  formats = [];
  products = products;
}

abbrev request : PackRequest
request = record {
  prepare = record {
    user = some 1;
    carton = none;
    shipment = none;
    preassigned_destination = none;
    current_location = some 40;
    carton_code = some (b'A' ∷ b'1' ∷ []);
    carton_size = none;
  };
  display_expires_on = none;
  skip_picking_status = false;
}

abbrev taken : ℕ → ℕ → StockMovement
taken lot n = record {
  movement_type = precondition;
  product = 7;
  product_lot = lot;
  quantity = pos n;
  from_location = some 40;
  to_location = none;
  reason_code = [];
  reason_notes = [];
  related_carton = some 52;
  related_shipment = none;
  created_by = some 1;
}

abbrev left : Stock
left = record {
  lots =
      a_lot 1 available none 10 0
      ∷ a_lot 2 available (some 300) 3 2
      ∷ a_lot 3 available (some 200) 0 0
      ∷ a_lot 4 quarantined (some 150) 9 0
      ∷ [];
  movements = taken 2 2 ∷ taken 3 4 ∷ [];
  next_lot = 5;
}

abbrev packed_carton : Carton
packed_carton = record (a_carton 52 CartonStatus.picking) {
  code = b'A' ∷ b'1' ∷ [];
  shipment = none;
  current_location = some 40;
  prepared_by = some 1;
  items =
      record { product_lot = 3; quantity = pos 4; display_expires_on = none }
      ∷ record { product_lot = 2; quantity = pos 2; display_expires_on = none }
      ∷ [];
}

abbrev packed : Tables
packed = record tables {
  db = record tables.db {
    stock = left;
    cartons = packed_carton ∷ tables.db.cartons;
    status_events =
        record {
          carton = 52;
          previous_status = CartonStatus.draft;
          new_status = CartonStatus.picking;
          reason = "stock_pack_start_picking";
          created_by = some 1;
        }
        ∷ [];
    next_carton = 53;
  };
}

three_kits_packed :
    pack_carton (λ t. t) clock [] request 6 (pos 3) tables ≡ ok (packed_carton, packed)
unfolding pack_carton prepare_carton find_code pick_carton create_carton size_carton
    resolve_carton_dimensions get_component_quantities get_unit_component_quantities expand_new
    expand_items pack_parts store_items consume_stock consume_loop take_from_lot fefo_lots order_by
    add_entries add_entry finish_packing change_status set_carton_status sync_if_linked
    ensure_carton_code text_eq ◌+ℤ◌ ◌-ℤ◌
three_kits_packed = refl

pack_carton-Packs_example :
    (parts : List Part) × (requirements products 6 (pos 3) ≡ ok parts)
    × Packs 7 (total_parts parts) (units_of_product 7 parts) [] shelf packed_carton left
unfolding find_code text_eq
pack_carton-Packs_example =
    pack_carton-Packs (λ t. t) clock [] request 6 (pos 3) tables 7 shelf-Distinct shelf-IsSound
      three_kits_packed

-- Kit 5 contains itself.
abbrev own_kit : List PackedProduct
own_kit =
    record {
      id = 5;
      category = none;
      weight_g = 0;
      volume_cm3 = 0;
      length_cm = 0;
      width_cm = 0;
      height_cm = 0;
      kit_items = record { component = 5; quantity = 1 } ∷ [];
    }
    ∷ []

requirements-terminate_example :
    get_component_quantities (items_of own_kit) (suc (length own_kit)) 5 2 ≢ err out_of_fuel
requirements-terminate_example = requirements-terminate own_kit 5 2
