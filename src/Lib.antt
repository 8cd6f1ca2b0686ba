-- ===== src/Lib.antt =====
-- The core of the warehouse application: the lots of a stock with their ledger, orders that reserve and
-- consume them, cartons and their packing, the preparation of orders, shipments with their parties and
-- their tracking, the scan queue of documents, equivalent units, billing amounts and planning versions.
--
-- Parts and files:
-- - Prelude: tests, lists, signed integers, results, tables of rows, sorted queries.
-- - Text: texts as code points, and decimal forms.
-- - Stock (wms/domain/stock.py, wms/models_domain/inventory.py): `receive_stock`,
--   `receive_stock_from_input` and `receive_receipt_line` in Stock/Receive, `adjust_stock` and
--   `transfer_stock` in Stock/Adjust, `fefo_lots` and `consume_stock` in Stock/Consume.
-- - Rows (wms/models_domain/shipment.py): the tables of shipments, cartons and tracking.
-- - Shipment: Reference (`generate_shipment_reference` of wms/reference_sequences.py and
--   `Shipment.save`), Status (wms/shipment_status.py and `set_carton_status` of
--   wms/carton_status_events.py), Request, Transitions and Tracking
--   (wms/shipment_tracking_handlers.py).
-- - Catalog (wms/models_domain/catalog.py): categories and products, as far as packing reads them.
-- - Carton (wms/domain/stock.py): Code (`generate_carton_code`, with `ensure_carton_code` in
--   Code/Ensure and the type code of the contents in Code/Types), Tables (what packing reads),
--   Prepare (`_prepare_carton`), Items (the items of a carton), Pack (`pack_carton`), Unpack
--   (`unpack_carton`); Page (wms/carton_handlers.py).
-- - Order (wms/domain/orders.py): `reserve_stock_for_order` in Order/Reserve,
--   `release_reserved_stock` in Order/Release, `consume_reserved_stock` in Order/Consume,
--   `pack_carton_from_reserved` in Order/Pack, `assign_ready_cartons_to_order` in Order/Ready,
--   `prepare_order` in Order/Prepare, the parties of an order's shipment in
--   Order/Parties. Order/History has the sequences of operations on the
--   stock as a relation, and the two counters that they act on.
-- - Receipt (wms/reference_sequences.py, `generate_receipt_reference`, and `Receipt.save`).
-- - Kit (wms/kit_components.py): the expansion of kits.
-- - Scan (wms/document_scan_queue.py): File (`scan_uploaded_file`), Queue (the events and the claim of
--   one), Queue/Run (`process_document_scan_queue`).
-- - Bins (wms/scan_pack_helpers.py, `build_packing_bins`): the checks of the lines in Check, the
--   filling of the bins in Fill.
-- - Party (wms/shipment_party_registry.py, wms/shipment_party_rules.py): who may send and receive in
--   Eligible, the parties of an operation in Resolve, the contacts that the forms offer in Offered,
--   what the checks at the saving of a party leave in Clean.
-- - Units (wms/unit_equivalence.py) and Billing (wms/billing_calculations.py): the rules for equivalent
--   units, and the amount of a billing line.
-- - Planning (wms/planning/versioning.py): `clone_version` and `publish_version`.
-- - Examples: runs on small tables.
--
-- State: an operation takes the tables that it reads and writes and gives them back; an error is a
-- value of `Result`, and what an aborted transaction wrote is not kept. A table is the list of its
-- rows, a write changes the row with the key, and a ledger or log has its newest entry first. An
-- object that a query has read is a row of its own, so that a write from an old object overwrites
-- what was written in between, as in the program. A sorted query is an insertion sort by the
-- columns of its `order_by`, with the missing value of a column first, as in MySQL and SQLite.
-- Requests run one after the other. `timezone.now()` and the date are arguments.
--
-- Loops are recursions on the list that they go through; the decimal form of a number n has fuel
-- n + 1, and each round divides the number by 10. The expansion of a kit has fuel for its depth: more
-- than the rank of the kit is enough, where every item has a lower rank than its kit; packing gives it
-- one more than there are products, which is enough since no product is in progress twice. The loop
-- for the code of a new carton has one round, and so have the attempts with a dated code: a code that is
-- in use fails the insert, after which the next query in the atomic block of the caller raises.
--
-- A line of `build_packing_bins` has fuel for its quantity, since each round places a unit.
--
-- How the parts meet: an order reserves and a carton consumes from `fefo_lots`, or a carton takes what
-- its order has reserved; packing expands kits and gives the carton its code; unpacking brings
-- items back to their lots, resets the carton and then follows up the shipment's status, which a
-- shipment derives from its cartons until it is planned; from there the tracking page moves it.
--
-- The preparation of an order assigns the packed cartons that fit, splits the rest into bins and packs
-- each bin from what the order has reserved.
--
-- Outside the repository: Python's `unicodedata`, which folds a name to ASCII, is a parameter of the
-- receipt references and the carton codes; the virus scanner, the disk and Django's registry of models
-- are parameters of the scan queue. The binary floating point numbers that volumes are compared in are
-- a parameter of Bins, of which nothing is assumed, and the comparison of the database that ignores
-- case is one of Order/Parties.
--
-- Not modelled: the creation of the shipment of an order, the rest of the planning, the billing
-- documents, printing, imports, the labels of contacts, e-mail, the pages and the interface over the
-- operations; of a shipment's saving, the QR code image.
pub mod Prelude
pub mod Text
pub mod Errors
pub mod Stock
pub mod Rows
pub mod Shipment
pub mod Carton
pub mod Order
pub mod Receipt
pub mod Kit
pub mod Catalog
pub mod Units
pub mod Billing
pub mod Bins
pub mod Party
pub mod Planning
pub mod Scan
pub mod Examples
