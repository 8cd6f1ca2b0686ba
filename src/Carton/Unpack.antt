-- ===== src/Carton/Unpack.antt =====
-- Unpacking a carton (wms/domain/stock.py, `unpack_carton`).
pub mod Laws
use asf_wms.Prelude.{
  ℕ, ◌==◌, ℤ, pos, ◌+ℤ◌, Bool, true, false, ◌&&◌, ◌||◌, not, Option, none, some, List, [], ◌∷◌,
  if◌then◌else◌, is_some, Result, ok, err, ◌>>=◌, ◌>>◌, raise_if,
}
use asf_wms.Prelude.Table.{find, update}
use asf_wms.Errors.{StockError, shipment_disputed, shipment_shipped, carton_shipped, carton_empty}
use asf_wms.Stock.{ProductLot, Stock, StockMovement, unpack, lot_pk}
use asf_wms.Rows.{
  ShipmentStatus, CartonStatus, Shipment, Carton, CartonItem, Db, Clock, shipment_pk, carton_pk,
  same_carton_status,
}
use asf_wms.Shipment.Status.{set_carton_status, sync_shipment_ready_state}

-- `carton.shipment`
abbrev pub shipment_of : Carton → Db → Option Shipment
shipment_of c db = elim c.shipment [ none ↦ none | some k ↦ find shipment_pk k db.shipments ]

abbrev pub disputed : Option Shipment → Bool
disputed none = false
disputed (some s) = s.is_disputed

-- `shipment.status in {SHIPPED, RECEIVED_CORRESPONDENT, DELIVERED}`
abbrev pub is_gone : ShipmentStatus → Bool
is_gone ShipmentStatus.shipped = true
is_gone ShipmentStatus.received_correspondent = true
is_gone ShipmentStatus.delivered = true
is_gone _ = false

abbrev pub gone : Option Shipment → Bool
gone none = false
gone (some s) = is_gone s.status

abbrev pub is_shipped : CartonStatus → Bool
is_shipped status = same_carton_status status CartonStatus.shipped

abbrev pub no_items : List CartonItem → Bool
no_items [] = true
no_items (_ ∷ _) = false

-- The writes for one item, whose lot is `lot`.
unfoldable pub return_item : Option ℕ → Carton → CartonItem → ProductLot → Stock → Stock
return_item user c item lot s = record s {
  lots =
      update lot_pk lot.id
        (λ row. record row { quantity_on_hand = lot.quantity_on_hand +ℤ item.quantity }) s.lots;
  movements =
      record {
        movement_type = unpack;
        product = lot.product;
        product_lot = lot.id;
        quantity = item.quantity;
        from_location = none;
        to_location = some lot.location;
        reason_code = [];
        reason_notes = [];
        related_carton = some c.id;
        related_shipment = c.shipment;
        created_by = user;
      }
      ∷ s.movements;
}

-- A lot cannot be deleted while an item refers to it, so that the search always finds it.
unfoldable pub return_found : Option ℕ → Carton → CartonItem → Option ProductLot → Stock → Stock
return_found user c item none s = s
return_found user c item (some lot) s = return_item user c item lot s

-- An item's lot is read when its turn comes: the items of a carton have different lots.
unfoldable pub return_items : Option ℕ → Carton → List CartonItem → Stock → Stock
return_items user c [] s = s
return_items user c (item ∷ items) s =
    return_items user c items (return_found user c item (find lot_pk item.product_lot s.lots) s)

unfoldable pub sync_if_linked : Clock → Option Shipment → Db → Db
sync_if_linked clock none db = db
sync_if_linked clock (some s) db = sync_shipment_ready_state clock s.id db

-- `carton.cartonitem_set.all().delete()`
abbrev pub emptied : Carton → Carton
emptied c = record c { items = [] }

-- The writes of `unpack_carton`.
unfoldable pub unpack_writes : Option ℕ → Carton → Db → Db
unpack_writes user c db =
    set_carton_status user "stock_unpack" CartonStatus.draft
      (record (emptied c) { shipment = none })
      (record db {
        stock = return_items user c c.items db.stock;
        cartons = update carton_pk c.id emptied db.cartons;
      })

unfoldable pub unpack_carton : Clock → Option ℕ → Carton → Db → Result StockError Db
unpack_carton clock user c db = do
  raise_if (disputed (shipment_of c db)) shipment_disputed
  raise_if (gone (shipment_of c db)) shipment_shipped
  raise_if (is_shipped c.status) carton_shipped
  raise_if (no_items c.items) carton_empty
  ok (sync_if_linked clock (shipment_of c db) (unpack_writes user c db))
