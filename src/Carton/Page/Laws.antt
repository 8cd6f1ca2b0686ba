-- ===== src/Carton/Page/Laws.antt =====
-- What the actions of the carton list page leave alone (wms/carton_handlers.py).
use asf_wms.Prelude.{ℕ, Bool, true, ◌||◌, ◌⊎◌, inl, inr, ◌≡◌, Option, some, arith}
use asf_wms.Prelude.Table.{find}
use asf_wms.Rows.{CartonStatus, Carton, Db, Clock, Shipment, shipment_pk}
use asf_wms.Carton.Unpack.{is_gone}
use asf_wms.Carton.Page.{
  CartonAction, shipment_is_locked, carton_can_be_mutated, delete_if_allowed, relabel,
  handle_carton_status_update,
}

-- A carton that was shipped, or one of a shipment that is disputed or has left.
abbrev pub IsProtected : Carton → Db → Type 0
IsProtected c db =
    (c.status ≡ CartonStatus.shipped)
    ⊎ ((k : ℕ) × (s : Shipment) × (c.shipment ≡ some k)
        × (find shipment_pk k db.shipments ≡ some s)
        × ((s.is_disputed || is_gone s.status) ≡ true))

module _ (clock : Clock) (user : Option ℕ) (is_post : Bool) (action : CartonAction) (c : Carton)
    (db : Db) where
  -- No action changes anything for a carton that was shipped.
  shipped_carton_untouched :
      c.status ≡ CartonStatus.shipped
      → (handle_carton_status_update clock user is_post action (some c) db).1 ≡ db
  unfolding handle_carton_status_update relabel delete_if_allowed carton_can_be_mutated
  shipped_carton_untouched gone = ground arith

  -- No action changes anything for a carton of a disputed shipment, nor for one of a shipment that has
  -- left.
  held_carton_untouched :
      {k : ℕ} {s : Shipment}
      → c.shipment ≡ some k
      → find shipment_pk k db.shipments ≡ some s
      → (s.is_disputed || is_gone s.status) ≡ true
      → (handle_carton_status_update clock user is_post action (some c) db).1 ≡ db
  unfolding handle_carton_status_update relabel delete_if_allowed carton_can_be_mutated
      shipment_is_locked
  held_carton_untouched linked found held = ground arith

  -- No action of the page, posted or not, changes anything for a carton that was shipped, nor for one of a
  -- shipment that is disputed or has left.
  pub protected_carton_untouched :
      IsProtected c db → (handle_carton_status_update clock user is_post action (some c) db).1 ≡ db
  protected_carton_untouched (inl gone) = shipped_carton_untouched gone
  protected_carton_untouched (inr (k, s, linked, found, held)) =
      held_carton_untouched linked found held
