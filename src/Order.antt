-- ===== src/Order.antt =====
-- Orders: the reservation of stock for their lines, its release and its consumption.
mod Model
pub mod Reserve
pub mod Release
pub mod Consume
pub mod Pack
pub mod Ready
pub mod Prepare
pub mod Parties
pub mod History
unfoldable pub use Model.*
