-- ===== src/Receipt.antt =====
-- Receipts.
pub mod Reference
