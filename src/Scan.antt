-- ===== src/Scan.antt =====
-- The virus scan of uploaded documents (wms/document_scan_queue.py, wms/document_scan.py).
pub mod File
pub mod Queue
