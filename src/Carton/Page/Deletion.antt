-- ===== src/Carton/Page/Deletion.antt =====
-- The deletion of a carton from its list page (wms/carton_handlers.py).
use asf_wms.Prelude.{
  ℕ, ◌+ℤ◌, int_laws, true, false, ◌≡◌, refl, inl, inr, Bool-cases, Option, none, some, List, [],
  ◌∷◌, map, eq_option, ok, arith,
}
use asf_wms.Stock.{Stock, StockMovement, effect, ledger_total, total_on_hand, Accounts}
use asf_wms.Rows.{CartonItem, Carton, Db, Clock, Shipment}
use asf_wms.Carton.Unpack.{
  disputed, gone, is_shipped, no_items, shipment_of, sync_if_linked, unpack_writes, unpack_carton,
}
use asf_wms.Carton.Unpack.Laws.{HaveLots, items_total, unpack_carton_returns, sync_if_linked-others}
use asf_wms.Carton.Page.{
  delete_carton, unlink, remove, shipment_allows, carton_can_be_mutated, unpack_and_delete,
  delete_if_allowed, handle_carton_status_update,
}

effect-unlink : (k : ℕ) (m : StockMovement) → effect (unlink k m) ≡ effect m
effect-unlink k m = elim (Bool-cases (eq_option m.related_carton (some k))) [
  | inl linked ↦ rw linked refl
  | inr unlinked ↦ rw unlinked refl
]

ledger_total-unlink :
    (k : ℕ) (ms : List StockMovement) → ledger_total (map (unlink k) ms) ≡ ledger_total ms
ledger_total-unlink k [] = refl
ledger_total-unlink k (m ∷ ms) = rw (effect-unlink k m, ledger_total-unlink k ms) refl

no_items-nil : (items : List CartonItem) → no_items items ≡ true → items ≡ []
no_items-nil [] h = refl
no_items-nil (i ∷ is) h = cc

allowed_parts :
    (o : Option Shipment) → shipment_allows o ≡ true → (disputed o ≡ false) × (gone o ≡ false)
unfolding shipment_allows
allowed_parts none h = (refl, refl)
allowed_parts (some s) h = (ground arith, ground arith)

-- What brings the items of a carton back to the stock.
abbrev Returns : Carton → Stock → Stock → Type 0
Returns c s s' =
    (total_on_hand s'.lots ≡ total_on_hand s.lots +ℤ items_total c.items) × Accounts s s'

remove-Returns :
    (c : Carton) (s : Stock) (d : Db) → Returns c s d.stock → Returns c s (remove c d).stock
unfolding remove
remove-Returns c s d (total, accounts) =
    (total, rw (ledger_total-unlink c.id d.stock.movements) accounts)

module _ (clock : Clock) (user : Option ℕ) (c : Carton) (db : Db) where
  unpack_carton-ok :
      carton_can_be_mutated c db ≡ true
      → no_items c.items ≡ false
      → (d : Db) × (unpack_carton clock user c db ≡ ok d)
  unfolding unpack_carton carton_can_be_mutated
  unpack_carton-ok allowed full =
      let (calm, here) = allowed_parts (shipment_of c db) (ground arith) in
      let unshipped : is_shipped c.status ≡ false = ground arith in
      (
        sync_if_linked clock (shipment_of c db) (unpack_writes user c db),
        rw (calm, here, unshipped, full) refl,
      )

  -- The deletion of a carton that may be changed and whose items' lots exist brings the quantities of
  -- its items back to the stock, and the ledger accounts for them.
  pub delete_carton_returns :
      HaveLots c.items db.stock
      → carton_can_be_mutated c db ≡ true
      → let db' = (handle_carton_status_update clock user true delete_carton (some c) db).1 in
        (total_on_hand db'.stock.lots ≡ total_on_hand db.stock.lots +ℤ items_total c.items)
        × Accounts db.stock db'.stock
  unfolding handle_carton_status_update delete_if_allowed unpack_and_delete
  delete_carton_returns lots allowed =
      let link = shipment_of c db in
      elim (Bool-cases (no_items c.items)) [
        | inl empty ↦
            let none_of_them : c.items ≡ [] = no_items-nil c.items empty in
            let as_it_was : Returns c db.stock db.stock = rw none_of_them (omega int_laws, refl) in
            rw (allowed, empty, (sync_if_linked-others clock link (remove c db)).0)
              (remove-Returns c db.stock db as_it_was)
        | inr full ↦
            let (d, run) = unpack_carton-ok allowed full in
            let back = unpack_carton_returns clock user c db lots run in
            rw (allowed, full, run, (sync_if_linked-others clock link (remove c d)).0)
              (remove-Returns c db.stock d back)
      ]
