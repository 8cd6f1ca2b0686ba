-- ===== src/Stock.antt =====
-- Stock lots and the ledger of movements (wms/models_domain/inventory.py, the lot part, and
-- wms/models_domain/shipment.py, `MovementType` and `StockMovement`).
-- Quantities are database integers, so lots count in ℤ. Dates are day numbers. A text is its list
-- of code points. A table is its list of rows; the ledger has its newest entry first.
mod Model
pub mod Receive
pub mod Adjust
pub mod Consume
pub use Model.*
