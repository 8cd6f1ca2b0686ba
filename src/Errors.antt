-- ===== src/Errors.antt =====
-- The messages of `StockError` (wms/domain/stock.py, wms/domain/orders.py), one constructor for
-- each text that is raised, and the one other error that the modelled operations let through.
use asf_wms.Prelude.{ℕ}

-- The errors of `build_packing_bins` (wms/scan_pack_helpers.py), with the product named.
pub data PackError : Type 0 where
  size_required : PackError
  measures_missing too_heavy too_large : ℕ → PackError

pub data StockError : Type 0 where
  invalid_quantity null_quantity : StockError
  insufficient_for_adjustment reserved_stock already_at_location : StockError
  -- "Stock insuffisant: {available_total} disponible(s)."
  insufficient_stock : ℕ → StockError
  -- "{line.product.name}: stock insuffisant ({available_total})."
  insufficient_for_line : ℕ → ℕ → StockError
  product_required location_required carton_code_conflict : StockError
  product_missing location_missing receipt_missing carton_missing shipment_missing : StockError
  line_already_received receipt_cancelled reception_location_required : StockError
  carton_shipped shipment_disputed shipment_shipped carton_linked_elsewhere : StockError
  kit_cycle kit_empty component_missing carton_empty : StockError
  -- Django's `TransactionManagementError`: a query after a failed write in an atomic block.
  transaction_broken : StockError
  order_locked order_not_reserved shipment_locked : StockError
  release_insufficient reservation_insufficient : StockError
  format_missing line_missing : StockError
  packing_refused : PackError → StockError
