-- ===== src/Carton.antt =====
-- Cartons: their codes, unpacking one, and the actions of the carton list page.
pub mod Code
pub mod Tables
pub mod Prepare
pub mod Items
pub mod Pack
pub mod Unpack
pub mod Page
