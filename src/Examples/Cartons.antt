-- ===== src/Examples/Cartons.antt =====
-- A carton with two items of the shelf (wms/domain/stock.py, `unpack_carton`;
-- wms/carton_handlers.py).
use asf_wms.Prelude.{◌≡◌, refl, pos, ◌+ℤ◌, true, false, none, some, [], ◌∷◌, ok}
use asf_wms.Prelude.Table.{find}
use asf_wms.Stock.{total_on_hand, Accounts}
use asf_wms.Rows.{ShipmentStatus, CartonStatus, Carton, Shipment, Db, carton_pk}
use asf_wms.Shipment.Status.{sync_shipment_ready_state}
use asf_wms.Carton.Unpack.{sync_if_linked, unpack_writes, unpack_carton}
use asf_wms.Carton.Unpack.Laws.{items_total, unpack_carton_returns, unpack_carton-draft}
use asf_wms.Carton.Page.{delete_carton, handle_carton_status_update}
use asf_wms.Carton.Page.{carton_can_be_mutated, shipment_allows}
use asf_wms.Carton.Page.Deletion.{delete_carton_returns}
use asf_wms.Examples.Shelf.{shelf}
use asf_wms.Examples.Shipments.{clock, a_shipment, a_carton, a_db}

abbrev filled : CartonStatus → Carton
filled status = record (a_carton 50 status) {
  items =
      record { product_lot = 3; quantity = pos 2; display_expires_on = none }
      ∷ record { product_lot = 1; quantity = pos 6; display_expires_on = none }
      ∷ [];
}

abbrev in_preparation : Shipment
in_preparation = a_shipment (b'2' ∷ b'6' ∷ []) ShipmentStatus.picking false none

abbrev filled_db : CartonStatus → Db
filled_db status = record (a_db in_preparation CartonStatus.labeled) {
  cartons = filled status ∷ a_carton 51 CartonStatus.labeled ∷ [];
}

abbrev unpacked_db : CartonStatus → Db
unpacked_db status =
    sync_shipment_ready_state clock 30 (unpack_writes (some 1) (filled status) (filled_db status))

labeled_unpacked :
    unpack_carton clock (some 1) (filled CartonStatus.labeled) (filled_db CartonStatus.labeled)
    ≡ ok (unpacked_db CartonStatus.labeled)
unfolding unpack_carton sync_if_linked
labeled_unpacked = refl

draft_unpacked :
    unpack_carton clock (some 1) (filled CartonStatus.draft) (filled_db CartonStatus.draft)
    ≡ ok (unpacked_db CartonStatus.draft)
unfolding unpack_carton sync_if_linked
draft_unpacked = refl

unpack_carton_returns_example :
    (total_on_hand (unpacked_db CartonStatus.labeled).stock.lots
      ≡ total_on_hand shelf.lots +ℤ items_total (filled CartonStatus.labeled).items)
    × Accounts shelf (unpacked_db CartonStatus.labeled).stock
unpack_carton_returns_example =
    unpack_carton_returns clock (some 1) (filled CartonStatus.labeled)
      (filled_db CartonStatus.labeled) (refl, (refl, tt)) labeled_unpacked

unpack_carton-draft_example :
    find carton_pk 50 (unpacked_db CartonStatus.draft).cartons
    ≡ some (a_carton 50 CartonStatus.draft)
unpack_carton-draft_example =
    unpack_carton-draft clock (some 1) (filled CartonStatus.draft) (filled_db CartonStatus.draft)
      refl refl draft_unpacked

abbrev held_db : Db
held_db =
    a_db (a_shipment (b'2' ∷ b'6' ∷ []) ShipmentStatus.picking true none) CartonStatus.assigned

filled_allowed :
    carton_can_be_mutated (filled CartonStatus.labeled) (filled_db CartonStatus.labeled) ≡ true
unfolding carton_can_be_mutated shipment_allows
filled_allowed = refl

delete_carton_returns_example :
    let db' =
      (handle_carton_status_update clock
        (some 1)
        true
        delete_carton
        (some (filled CartonStatus.labeled))
        (filled_db CartonStatus.labeled)).1 in
    (total_on_hand db'.stock.lots
      ≡ total_on_hand shelf.lots +ℤ items_total (filled CartonStatus.labeled).items)
    × Accounts shelf db'.stock
delete_carton_returns_example =
    delete_carton_returns clock (some 1) (filled CartonStatus.labeled)
      (filled_db CartonStatus.labeled) (refl, (refl, tt)) filled_allowed
