-- ===== src/Order/History.antt =====
-- The stock over any sequence of operations (wms/domain/stock.py and wms/domain/orders.py).
pub mod Kept
pub mod Consistent
pub mod Totals
use asf_wms.Prelude.{ℕ, ℤ, ◌≡◌, Option, some, List, ok}
use asf_wms.Prelude.Table.{find}
use asf_wms.Stock.{Text, Product, ProductLot, lot_pk, Stock}
use asf_wms.Stock.Receive.{ReceiveRequest, receive_stock}
use asf_wms.Stock.Adjust.{adjust_stock, transfer_stock}
use asf_wms.Stock.Consume.{ConsumeRequest, StockConsumeResult, consume_stock}
use asf_wms.Order.Model.{Order, Store}
use asf_wms.Order.Reserve.{reserve_stock_for_order}

-- The store with its stock replaced.
abbrev pub with_stock : Store → Stock → Store
with_stock s stock = record s { stock = stock }

infix 40 ◌⟶◌ ◌⟶*◌
-- One operation that succeeds. A correction and a move are of a lot as it is stored.
pub data ◌⟶◌ : Store → Store → Type 0 where
  receive :
      (p : Product) (r : ReceiveRequest) (s : Store) (lot : ProductLot) (stock : Stock)
      → receive_stock p r s.stock ≡ ok (lot, stock)
      → s ⟶ with_stock s stock
  consume :
      (r : ConsumeRequest) (n : ℤ) (s : Store) (c : List StockConsumeResult) (stock : Stock)
      → consume_stock r n s.stock ≡ ok (c, stock)
      → s ⟶ with_stock s stock
  adjust :
      (user : Option ℕ) (lot : ProductLot) (delta : ℤ) (code notes : Text) (s : Store)
      (lot' : ProductLot) (stock : Stock)
      → find lot_pk lot.id s.stock.lots ≡ some lot
      → adjust_stock user lot delta code notes s.stock ≡ ok (lot', stock)
      → s ⟶ with_stock s stock
  transfer :
      (user : Option ℕ) (lot : ProductLot) (place : ℕ) (s : Store) (lot' : ProductLot)
      (stock : Stock)
      → find lot_pk lot.id s.stock.lots ≡ some lot
      → transfer_stock user lot place s.stock ≡ ok (lot', stock)
      → s ⟶ with_stock s stock
  reserve : (o : Order) (s s' : Store) → reserve_stock_for_order o s ≡ ok s' → s ⟶ s'

-- Any number of operations.
pub data ◌⟶*◌ : Store → Store → Type 0 where
  here : {s : Store} → s ⟶* s
  then : {s t u : Store} → s ⟶ t → t ⟶* u → s ⟶* u
