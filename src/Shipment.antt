-- ===== src/Shipment.antt =====
-- Shipments: their references, their status as it follows from the cartons, and their tracking.
pub mod Reference
pub mod Status
pub mod Request
pub mod Transitions
pub mod Tracking
