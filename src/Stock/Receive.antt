-- ===== src/Stock/Receive.antt =====
-- Stock that comes in (wms/domain/stock.py, `receive_stock`, `receive_stock_from_input`,
-- `receive_receipt_line`; wms/models_domain/inventory.py, `Receipt` and `ReceiptLine`).
pub mod Laws
use asf_wms.Prelude.{
  ℕ, suc, ◌+◌, ◌==◌, ℤ, pos, leb_ℤ, Bool, true, false, ◌&&◌, not, Option, none, some, List, [], ◌∷◌,
  any, filter, if◌then◌else◌, is_some, or_default, or_else, Result, ok, err, ◌>>=◌, ◌>>◌, raise_if,
  or_raise,
}
use asf_wms.Prelude.Table.{find, update}
use asf_wms.Errors.{
  StockError, invalid_quantity, product_required, product_missing, location_required,
  location_missing, receipt_missing, line_already_received, receipt_cancelled,
  reception_location_required,
}
use asf_wms.Stock.Model.{
  Text, ProductLotStatus, quarantined, available, ProductLot, Product, StockMovement, Stock,
  incoming, lot_pk,
}

-- The keyword arguments of `receive_stock`. `None` and the empty text are both "not given" for the
-- texts, so an absent text is `none`.
pub record ReceiveRequest : Type 0 where
  pub user : Option ℕ
  pub quantity : ℤ
  pub location : ℕ
  pub lot_code : Option Text
  pub received_on : Option ℕ
  pub expires_on : Option ℕ
  pub status : Option ProductLotStatus
  pub storage_conditions : Option Text
  pub source_receipt : Option ℕ

abbrev pub receive_text : Text
receive_text = b'r' ∷ b'e' ∷ b'c' ∷ b'e' ∷ b'i' ∷ b'v' ∷ b'e' ∷ []

abbrev pub initial_status : Product → Option ProductLotStatus → ProductLotStatus
initial_status product status =
    or_default status (if product.quarantine_default then quarantined else available)

abbrev pub new_lot : Product → ReceiveRequest → ℕ → ProductLot
new_lot product r id = record {
  id = id;
  product = product.id;
  lot_code = or_default r.lot_code [];
  expires_on = r.expires_on;
  received_on = r.received_on;
  status = initial_status product r.status;
  quantity_on_hand = r.quantity;
  quantity_reserved = pos 0;
  location = r.location;
  source_receipt = r.source_receipt;
  storage_conditions = or_default r.storage_conditions product.storage_conditions;
}

unfoldable pub receive_stock :
    Product → ReceiveRequest → Stock → Result StockError (ProductLot × Stock)
receive_stock product r s = do
  raise_if (leb_ℤ r.quantity (pos 0)) invalid_quantity
  let lot = new_lot product r s.next_lot
  ok (
    lot,
    record {
      lots = lot ∷ s.lots;
      movements =
          record {
            movement_type = incoming;
            product = product.id;
            product_lot = lot.id;
            quantity = r.quantity;
            from_location = none;
            to_location = some r.location;
            reason_code = receive_text;
            reason_notes = [];
            related_carton = none;
            related_shipment = none;
            created_by = r.user;
          }
          ∷ s.movements;
      next_lot = suc s.next_lot;
    },
  )

-- `_get_required` and `_get_optional`
unfoldable pub get_required :
    {A : Type 0} → (A → ℕ) → List A → Option ℕ → StockError → StockError → Result StockError A
get_required key rows object_id required missing = do
  k ← or_raise object_id required
  or_raise (find key k rows) missing

unfoldable pub get_optional :
    {A : Type 0} → (A → ℕ) → List A → Option ℕ → StockError → Result StockError (Option A)
get_optional key rows none missing = ok none
get_optional key rows (some k) missing = do row ← or_raise (find key k rows) missing; ok (some row)

-- `ReceiveStockInput` (wms/domain/dto.py): the request with the keys of the product, the location
-- and the receipt in place of these.
pub record ReceiveStockInput : Type 0 where
  pub product_id : Option ℕ
  pub location_id : Option ℕ
  pub source_receipt_id : Option ℕ
  -- the other fields; its location and source are not read
  pub request : ReceiveRequest

pub record Catalogue : Type 0 where
  pub products : List Product
  pub locations : List ℕ
  pub receipts : List ℕ

abbrev pub product_pk : Product → ℕ
product_pk p = p.id

abbrev pub own_key : ℕ → ℕ
own_key k = k

unfoldable pub receive_stock_from_input :
    Catalogue → ReceiveStockInput → Stock → Result StockError (ProductLot × Stock)
unfolding get_required get_optional
receive_stock_from_input c payload s = do
  raise_if (leb_ℤ payload.request.quantity (pos 0)) invalid_quantity
  product ← get_required product_pk c.products payload.product_id product_required product_missing
  location ← get_required own_key c.locations payload.location_id location_required location_missing
  source ← get_optional own_key c.receipts payload.source_receipt_id receipt_missing
  receive_stock product (record payload.request { location = location; source_receipt = source }) s

pub data ReceiptStatus : Type 0 where
  draft received cancelled : ReceiptStatus

pub record Receipt : Type 0 where
  pub id : ℕ
  pub status : ReceiptStatus
  pub received_on : ℕ

pub record ReceiptLine : Type 0 where
  pub id : ℕ
  pub receipt : ℕ
  pub product : Product
  pub quantity : ℤ
  pub lot_code : Option Text
  pub expires_on : Option ℕ
  pub lot_status : Option ProductLotStatus
  pub location : Option ℕ
  pub storage_conditions : Option Text
  pub received_lot : Option ℕ
  pub received_by : Option ℕ
  pub received_at : Option ℕ

pub record Reception : Type 0 where
  pub stock : Stock
  pub receipts : List Receipt
  pub lines : List ReceiptLine

abbrev pub receipt_pk : Receipt → ℕ
receipt_pk r = r.id

abbrev pub line_pk : ReceiptLine → ℕ
line_pk l = l.id

abbrev pub is_draft : ReceiptStatus → Bool
is_draft draft = true
is_draft _ = false

abbrev pub is_cancelled : ReceiptStatus → Bool
is_cancelled cancelled = true
is_cancelled _ = false

-- `receipt.lines.filter(received_lot__isnull=True).exists()`
abbrev pub has_pending_line : ℕ → List ReceiptLine → Bool
has_pending_line receipt lines =
    any (λ l. l.receipt == receipt && not (is_some l.received_lot)) lines

-- The end of the operation: a draft receipt with no line left becomes received.
unfoldable pub close_receipt : Receipt → Reception → Reception
close_receipt receipt d =
    if is_draft receipt.status && not (has_pending_line receipt.id d.lines)
    then record d {
      receipts = update receipt_pk receipt.id (λ r. record r { status = received }) d.receipts;
    }
    else d

unfoldable pub mark_received : Option ℕ → ℕ → ReceiptLine → ProductLot → Reception → Reception
mark_received user now line lot d = record d {
  lines =
      update line_pk line.id
        (λ l. record l { received_lot = some lot.id; received_by = user; received_at = some now })
        d.lines;
}

-- `receipt` is `line.receipt`, and `now` is `timezone.now()`.
unfoldable pub receive_receipt_line :
    Option ℕ → ℕ → Receipt → ReceiptLine → Reception → Result StockError (ProductLot × Reception)
receive_receipt_line user now receipt line d = do
  raise_if (is_some line.received_lot) line_already_received
  raise_if (is_cancelled receipt.status) receipt_cancelled
  location ←
      or_raise (or_else line.location line.product.default_location) reception_location_required
  (lot, stock) ←
      receive_stock line.product
        (record {
          user = user;
          quantity = line.quantity;
          location = location;
          lot_code = line.lot_code;
          received_on = some receipt.received_on;
          expires_on = line.expires_on;
          status = line.lot_status;
          storage_conditions =
              some (or_default line.storage_conditions line.product.storage_conditions);
          source_receipt = some receipt.id;
        })
        d.stock
  ok (lot, close_receipt receipt (mark_received user now line lot (record d { stock = stock })))
