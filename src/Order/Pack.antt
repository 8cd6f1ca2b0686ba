-- ===== src/Order/Pack.antt =====
-- Packing the reserved stock of an order's line into a carton (wms/domain/orders.py,
-- `pack_carton_from_reserved`).
pub mod Laws
use asf_wms.Prelude.{ℕ, ℤ, Bool, ◌&&◌, is_some, false, Option, none, some, List, Result, ok, ◌>>=◌}
use asf_wms.Errors.{StockError}
use asf_wms.Text.{Text}
use asf_wms.Stock.{Stock}
use asf_wms.Stock.Consume.{StockConsumeResult}
use asf_wms.Rows.{Shipment, Carton, Db, Clock}
use asf_wms.Carton.Tables.{Tables, Dimensions, with_db}
use asf_wms.Carton.Prepare.{PrepareRequest, key_of, prepare_carton}
use asf_wms.Carton.Pack.{
  movement_for, filled, store_items, target_status, reason_for, finish_packing,
}
use asf_wms.Order.Model.{Order, OrderLine, OrderReservation, Store}
use asf_wms.Order.Consume.{ConsumeReserved, consume_reserved_stock}

-- All tables; the stock is the one of `tables.db`.
pub record World : Type 0 where
  pub tables : Tables
  pub orders : List Order
  pub lines : List OrderLine
  pub reservations : List OrderReservation
  pub next_reservation : ℕ

-- The tables that the operations on reservations see.
abbrev pub store_of : World → Store
store_of w = record {
  stock = w.tables.db.stock;
  orders = w.orders;
  lines = w.lines;
  reservations = w.reservations;
  next_reservation = w.next_reservation;
}

abbrev pub with_store : Tables → Store → World
with_store t s = record {
  tables = with_db t (record t.db { stock = s.stock });
  orders = s.orders;
  lines = s.lines;
  reservations = s.reservations;
  next_reservation = s.next_reservation;
}

-- The keyword arguments of `pack_carton_from_reserved`, but the quantity.
pub record PackReserved : Type 0 where
  pub user : Option ℕ
  pub line : OrderLine
  pub carton : Option Carton
  pub shipment : Option Shipment
  pub current_location : Option ℕ
  pub carton_size : Option Dimensions
  pub display_expires_on : Option ℕ

abbrev pub preparation : PackReserved → PrepareRequest
preparation r = record {
  user = r.user;
  carton = r.carton;
  shipment = r.shipment;
  preassigned_destination = none;
  current_location = r.current_location;
  carton_code = none;
  carton_size = r.carton_size;
}

abbrev pub consumption : PackReserved → Carton → ConsumeReserved
consumption r c = record {
  user = r.user;
  line = r.line;
  movement_type = movement_for r.shipment;
  shipment = key_of r.shipment;
  carton = some c.id;
}

-- The items of the carton and the stock, the orders, the lines and the reservations.
abbrev pub store_consumed : Carton → Store → World → World
store_consumed c s w = record (with_store w.tables s) { tables = store_items c s.stock w.tables }

abbrev pub with_tables : World → Tables → World
with_tables w t = record w { tables = t }

-- `manual` is the mark of the carton object that the caller passes, if any.
unfoldable pub pack_carton_from_reserved :
    (Text → Text)
    → Clock
    → Text
    → Bool
    → PackReserved
    → ℤ
    → World
    → Result StockError (Carton × World)
pack_carton_from_reserved fold clock today manual r quantity w = do
  (c, t1) ← prepare_carton today (preparation r) w.tables
  let w1 = with_tables w t1
  (consumed, s) ← consume_reserved_stock (consumption r c) quantity (store_of w1)
  let c2 = filled r.display_expires_on consumed c
  let w2 = store_consumed c2 s w1
  (c3, t3) ←
      finish_packing fold clock r.user r.shipment (manual && is_some r.carton)
        (reason_for r.shipment "order_pack_assign" "order_pack_start_picking")
        (target_status r.shipment false c2.status) c2 w2.tables
  ok (c3, with_tables w2 t3)
