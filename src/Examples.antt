-- ===== src/Examples.antt =====
-- Runs of the modelled operations on small tables, and each stated property at such a table.
mod Shelf
mod Receipts
mod Orders
mod Shipments
mod Cartons
mod References
mod Kits
mod History
mod Packing
mod Preparing
mod Prepared
mod Reserved
mod Scans
mod Billings
mod Plannings
mod Parties
