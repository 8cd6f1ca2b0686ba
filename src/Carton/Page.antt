-- ===== src/Carton/Page.antt =====
-- The actions of the carton list page (wms/carton_handlers.py). Every handled request is answered by
-- the same redirect.
pub mod Laws
pub mod Deletion
use asf_wms.Prelude.{
  Bool, List, Option, Result, [], eq_option, err, false, filter, if◌then◌else◌, is_some, map, none,
  not, ok, some, true, ℕ, ◌&&◌, ◌==◌, ◌||◌, ◌∷◌,
}
use asf_wms.Prelude.Table.{delete}
use asf_wms.Errors.{StockError}
use asf_wms.Rows.{
  Carton, CartonStatus, CartonStatusEvent, Clock, Db, Shipment, ShipmentStatus, carton_pk,
  same_carton_status,
}
use asf_wms.Stock.{StockMovement, Stock}
use asf_wms.Shipment.Status.{is_locked, set_carton_status, sync_shipment_ready_state}
use asf_wms.Carton.Unpack.{
  shipment_of, is_gone, is_shipped, no_items, unpack_carton, sync_if_linked,
}

-- The form's action, with the status value where it is the name of a status.
pub data CartonAction : Type 0 where
  update_carton_status : Option CartonStatus → CartonAction
  mark_carton_labeled mark_carton_assigned delete_carton unknown : CartonAction

-- `_shipment_is_locked`
pub shipment_is_locked : Option Shipment → Bool
shipment_is_locked none = false
shipment_is_locked (some s) = is_locked s.status || s.is_disputed

-- `_carton_can_be_mutated`, for a carton that exists
unfoldable pub shipment_allows : Option Shipment → Bool
shipment_allows none = true
shipment_allows (some s) = not s.is_disputed && not (is_gone s.status)

unfoldable pub carton_can_be_mutated : Carton → Db → Bool
unfolding shipment_allows
carton_can_be_mutated c db = not (is_shipped c.status) && shipment_allows (shipment_of c db)

abbrev pub may_be_set : CartonStatus → Bool
may_be_set CartonStatus.draft = true
may_be_set CartonStatus.picking = true
may_be_set CartonStatus.packed = true
may_be_set _ = false

abbrev pub may_be_labeled : CartonStatus → Bool
may_be_labeled CartonStatus.assigned = true
may_be_labeled CartonStatus.packed = true
may_be_labeled _ = false

pub set_manually : Option ℕ → Carton → Option CartonStatus → Db → Db
set_manually user c none db = db
set_manually user c (some status) db =
    if not (is_shipped c.status) && may_be_set status && not (is_some c.shipment)
    then set_carton_status user "manual_update" status c db
    else db

abbrev pub unlink : ℕ → StockMovement → StockMovement
unlink k m = if eq_option m.related_carton (some k) then record m { related_carton = none } else m

-- `carton.delete()`: its items and status events go with it, and movements lose their link to it.
pub remove : Carton → Db → Db
remove c d = record d {
  cartons = delete carton_pk c.id d.cartons;
  status_events = filter (λ (e : CartonStatusEvent). not (e.carton == c.id)) d.status_events;
  stock = record d.stock { movements = map (unlink c.id) d.stock.movements };
}

-- The inner `transaction.atomic()`
pub unpack_and_delete : Clock → Option ℕ → Carton → Db → Result StockError Db
unpack_and_delete clock user c db =
    elim (if no_items c.items then ok db else unpack_carton clock user c db) [
      | ok d ↦ ok (remove c d)
      | err e ↦ err e
    ]

pub delete_if_allowed : Clock → Option ℕ → Carton → Db → Db
unfolding unpack_and_delete
delete_if_allowed clock user c db =
    if carton_can_be_mutated c db
    then elim (unpack_and_delete clock user c db) [
      | ok d ↦ sync_if_linked clock (shipment_of c db) d
      | err e ↦ db
    ]
    else db

pub relabel : Clock → Option ℕ → Carton → Bool → CartonStatus → Db → Db
relabel clock user c allowed status db =
    if not (is_some c.shipment) || shipment_is_locked (shipment_of c db) || not allowed
    then db
    else sync_if_linked clock (shipment_of c db) (
        set_carton_status user
          (if same_carton_status status CartonStatus.labeled
            then "mark_labeled"
            else "mark_assigned")
          status c db)

-- The change made for a carton that exists.
pub act : Clock → Option ℕ → CartonAction → Carton → Db → Db
unfolding set_manually
act clock user (update_carton_status status) c db = set_manually user c status db
act clock user mark_carton_labeled c db =
    relabel clock user c (may_be_labeled c.status) CartonStatus.labeled db
act clock user mark_carton_assigned c db =
    relabel clock user c (same_carton_status c.status CartonStatus.labeled) CartonStatus.assigned db
act clock user delete_carton c db = delete_if_allowed clock user c db
act clock user unknown c db = db

abbrev pub is_known : CartonAction → Bool
is_known unknown = false
is_known _ = true

-- Whether the request is answered by the redirect, and the database after it.
unfoldable pub handle_carton_status_update :
    Clock → Option ℕ → Bool → CartonAction → Option Carton → Db → Bool × Db
unfolding act
handle_carton_status_update clock user is_post action none db = (is_post && is_known action, db)
handle_carton_status_update clock user is_post action (some c) db =
    (is_post && is_known action, if is_post then act clock user action c db else db)
