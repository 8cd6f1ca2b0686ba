-- ===== src/Carton/Pack.antt =====
-- Packing stock into a carton (wms/domain/stock.py, `pack_carton` and `pack_carton_from_input`;
-- wms/domain/dto.py, `PackCartonInput`).
pub mod Laws
pub mod Kits
use asf_wms.Prelude.{
  ℕ, suc, ◌==◌, ℤ, pos, pos_part, leb_ℤ, Bool, true, false, ◌&&◌, ◌||◌, not, Option, none, some,
  List, [], ◌∷◌, length, if◌then◌else◌, is_some, Result, ok, err, ◌>>=◌, ◌>>◌, raise_if, or_raise,
}
use asf_wms.Prelude.Table.{find, update}
use asf_wms.Errors.{
  StockError, kit_cycle, kit_empty, component_missing, invalid_quantity, carton_code_conflict,
  product_required, product_missing, carton_missing, shipment_missing, location_missing,
}
use asf_wms.Text.{Text}
use asf_wms.Stock.{Stock, MovementType, outgoing, precondition}
use asf_wms.Stock.Receive.{get_required, get_optional, own_key}
use asf_wms.Stock.Consume.{ConsumeRequest, StockConsumeResult, consume_stock}
use asf_wms.Rows.{
  CartonStatus, Shipment, Carton, Db, Clock, carton_pk, shipment_pk, same_carton_status,
}
use asf_wms.Shipment.Status.{set_carton_status}
use asf_wms.Kit.{KitItem, Part, KitError, get_component_quantities}
use asf_wms.Catalog.{PackedProduct, product_pk}
use asf_wms.Carton.Code.Ensure.{ensure_carton_code}
use asf_wms.Carton.Tables.{Tables, Dimensions, with_db}
use asf_wms.Carton.Prepare.{PrepareRequest, prepare_carton}
use asf_wms.Carton.Items.{add_entries}
use asf_wms.Carton.Unpack.{sync_if_linked}
use Prim.Native.String.{String}

-- The keyword arguments of `pack_carton`, but the product and the quantity.
pub record PackRequest : Type 0 where
  pub prepare : PrepareRequest
  pub display_expires_on : Option ℕ
  pub skip_picking_status : Bool

abbrev pub items_of : List PackedProduct → ℕ → List KitItem
items_of products p = elim (find product_pk p products) [ none ↦ [] | some q ↦ q.kit_items ]

-- The depth of kits without a cycle is at most the number of products.
abbrev pub requirements : List PackedProduct → ℕ → ℤ → Result StockError (List Part)
requirements products p quantity =
    elim (get_component_quantities (items_of products) (suc (length products)) p
      (pos_part quantity)) [ ok parts ↦ ok parts | err _ ↦ err kit_cycle ]

abbrev pub no_parts : List Part → Bool
no_parts [] = true
no_parts (_ ∷ _) = false

abbrev pub movement_for : Option Shipment → MovementType
movement_for none = precondition
movement_for (some _) = outgoing

abbrev pub consume_request : PackRequest → Carton → ℕ → ConsumeRequest
consume_request r c product = record {
  user = r.prepare.user;
  product = product;
  movement_type = movement_for r.prepare.shipment;
  shipment = elim r.prepare.shipment [ none ↦ none | some s ↦ some s.id ];
  carton = some c.id;
  reason_code = [];
  reason_notes = [];
}

-- The items of a carton, and the stock that they were taken from.
unfoldable pub store_items : Carton → Stock → Tables → Tables
store_items c stock t = with_db t (record t.db {
  stock = stock;
  cartons = update carton_pk c.id (λ row. record row { items = c.items }) t.db.cartons;
})

abbrev pub filled : Option ℕ → List StockConsumeResult → Carton → Carton
filled display consumed c = record c { items = add_entries display consumed c.items }

-- The loop over the components.
unfoldable pub pack_parts :
    PackRequest → List Part → Carton → Tables → Result StockError (Carton × Tables)
pack_parts r [] c t = ok (c, t)
pack_parts r (p ∷ ps) c t = do
  _ ← or_raise (find product_pk p.component t.products) component_missing
  (consumed, stock) ← consume_stock (consume_request r c p.component) (pos p.quantity) t.db.stock
  let c' = filled r.display_expires_on consumed c
  pack_parts r ps c' (store_items c' stock t)

-- The status of a carton after packing; none where it stays.
abbrev pub target_status : Option Shipment → Bool → CartonStatus → Option CartonStatus
target_status (some _) skip status = some CartonStatus.assigned
target_status none skip status =
    if same_carton_status status CartonStatus.draft && not skip
    then some CartonStatus.picking
    else none

abbrev pub reason_for : Option Shipment → String → String → String
reason_for (some _) assign start = assign
reason_for none assign start = start

unfoldable pub change_status :
    Option ℕ → String → Option CartonStatus → Carton → Tables → Carton × Tables
change_status user reason none c t = (c, t)
change_status user reason (some status) c t =
    (record c { status = status }, with_db t (set_carton_status user reason status c t.db))

-- What `pack_carton` does after the loop.
unfoldable pub finish_packing :
    (Text → Text)
    → Clock
    → Option ℕ
    → Option Shipment
    → Bool
    → String
    → Option CartonStatus
    → Carton
    → Tables
    → Result StockError (Carton × Tables)
finish_packing fold clock user shipment manual reason status c t =
    let (c1, t1) = change_status user reason status c t in
    ensure_carton_code fold manual none c1 (with_db t1 (sync_if_linked clock shipment t1.db))

-- `today` is the local date.
unfoldable pub pack_carton :
    (Text → Text)
    → Clock
    → Text
    → PackRequest
    → ℕ
    → ℤ
    → Tables
    → Result StockError (Carton × Tables)
pack_carton fold clock today r product quantity t = do
  (c, t1) ← prepare_carton today r.prepare t
  parts ← requirements t1.products product quantity
  raise_if (no_parts parts) kit_empty
  (c2, t2) ← pack_parts r parts c t1
  finish_packing fold clock r.prepare.user r.prepare.shipment (is_some r.prepare.carton_code)
      (reason_for r.prepare.shipment "stock_pack_assign" "stock_pack_start_picking")
      (target_status r.prepare.shipment r.skip_picking_status c2.status) c2 t2

-- `PackCartonInput`: keys and a code; an empty code is none.
pub record PackCartonInput : Type 0 where
  pub product_id : Option ℕ
  pub quantity : ℤ
  pub carton_id : Option ℕ
  pub carton_code : Option Text
  pub shipment_id : Option ℕ
  pub current_location_id : Option ℕ

-- `locations` are the keys of the locations. The conflict of key and code is a `ValueError`.
unfoldable pub pack_carton_from_input :
    (Text → Text)
    → Clock
    → Text
    → Option ℕ
    → List ℕ
    → PackCartonInput
    → Tables
    → Result StockError (Carton × Tables)
pack_carton_from_input fold clock today user locations payload t = do
  raise_if (leb_ℤ payload.quantity (pos 0)) invalid_quantity
  raise_if (is_some payload.carton_id && is_some payload.carton_code) carton_code_conflict
  product ← get_required product_pk t.products payload.product_id product_required product_missing
  carton ← get_optional carton_pk t.db.cartons payload.carton_id carton_missing
  shipment ← get_optional shipment_pk t.db.shipments payload.shipment_id shipment_missing
  location ← get_optional own_key locations payload.current_location_id location_missing
  pack_carton fold clock today
      (record {
        prepare = record {
          user = user;
          carton = carton;
          shipment = shipment;
          preassigned_destination = none;
          current_location = location;
          carton_code = payload.carton_code;
          carton_size = none;
        };
        display_expires_on = none;
        skip_picking_status = false;
      })
      product.id payload.quantity t
