-- ===== src/Carton/Unpack/Laws.antt =====
-- What the unpacking of a carton gives back (wms/domain/stock.py).
use asf_wms.Prelude.{
  ℕ, ℤ, pos, ◌+ℤ◌, int_laws, parts_of_eq, true, ◌≡◌, ◌≢◌, refl, ap, ◌∙◌, inl, inr, Bool-cases,
  Option-cases, Option, none, some, List, [], ◌∷◌, All, arith, is_some, ok,
}
use asf_wms.Prelude.Table.{find, update, find-update_self, find-own_key, is_some-find-update}
use asf_wms.Stock.{ProductLot, Stock, lot_pk, total_on_hand, Accounts}
use asf_wms.Stock.Consume.Loop.{total-update, Accounts-trans}
use asf_wms.Rows.{
  CartonStatus, Carton, CartonItem, Db, Clock, Shipment, carton_pk, same_carton_status,
}
use asf_wms.Shipment.Status.{set_carton_status}
use asf_wms.Shipment.Status.Laws.{sync-others}
use asf_wms.Shipment.Tracking.Each.{same_carton_status_eq}
use asf_wms.Carton.Unpack.{
  shipment_of, emptied, return_item, return_found, return_items, sync_if_linked, unpack_writes,
  unpack_carton,
}

-- Every item's lot is in the table, as the foreign key demands.
abbrev pub HaveLots : List CartonItem → Stock → Type 0
HaveLots items s = All (λ (i : CartonItem). is_some (find lot_pk i.product_lot s.lots) ≡ true) items

abbrev pub items_total : List CartonItem → ℤ
items_total [] = pos 0
items_total (i ∷ is) = i.quantity +ℤ items_total is

module _ (user : Option ℕ) (c : Carton) where
  return_item-total :
      (item : CartonItem) (lot : ProductLot) (s : Stock)
      → find lot_pk lot.id s.lots ≡ some lot
      → (total_on_hand (return_item user c item lot s).lots ≡ total_on_hand s.lots +ℤ item.quantity)
        × Accounts s (return_item user c item lot s)
  unfolding return_item
  return_item-total item lot s st =
      let e = total-update lot.id (lot.quantity_on_hand +ℤ item.quantity) s.lots st in
      (omega (int_laws, parts_of_eq e), omega (int_laws, parts_of_eq e))

  return_item-HaveLots :
      (item : CartonItem) (lot : ProductLot) (items : List CartonItem) (s : Stock)
      → HaveLots items s
      → HaveLots items (return_item user c item lot s)
  unfolding return_item
  return_item-HaveLots item lot [] s h = tt
  return_item-HaveLots item lot (i ∷ is) s h = (
    is_some-find-update lot_pk i.product_lot lot.id _ s.lots (λ _. refl) ∙ h.0,
    return_item-HaveLots item lot is s h.1,
  )

  return_step :
      (i : CartonItem) (is : List CartonItem) (lot : ProductLot) (s : Stock)
      → find lot_pk i.product_lot s.lots ≡ some lot
      → return_items user c (i ∷ is) s ≡ return_items user c is (return_item user c i lot s)
  unfolding return_items return_found
  return_step i is lot s found = ap (λ o. return_items user c is (return_found user c i o s)) found

  -- The items' quantities come back to the stock, and the ledger accounts for them.
  return_items-total :
      (items : List CartonItem) (s : Stock)
      → HaveLots items s
      → (total_on_hand (return_items user c items s).lots
          ≡ total_on_hand s.lots +ℤ items_total items)
        × Accounts s (return_items user c items s)
  unfolding return_items
  return_items-total [] s h = (omega int_laws, refl)
  return_items-total (i ∷ is) s h = elim (Option-cases (find lot_pk i.product_lot s.lots)) [
    | inl missing ↦ absurd (cc)
    | inr (lot, found) ↦
        let s1 = return_item user c i lot s in
        let (t, a) = return_item-total i lot s (find-own_key lot_pk i.product_lot s.lots found) in
        let (t', a') = return_items-total is s1 (return_item-HaveLots i lot is s h.1) in
        rw (return_step i is lot s found) (
          omega (int_laws, parts_of_eq t, parts_of_eq t'),
          Accounts-trans s s1 (return_items user c is s1) a a',
        )
  ]

pub sync_if_linked-others :
    (clock : Clock) (o : Option Shipment) (db : Db)
    → ((sync_if_linked clock o db).stock ≡ db.stock)
      × ((sync_if_linked clock o db).cartons ≡ db.cartons)
unfolding sync_if_linked
sync_if_linked-others clock none db = (refl, refl)
sync_if_linked-others clock (some s) db = sync-others clock s.id db

writes-stock :
    (user : Option ℕ) (c : Carton) (db : Db)
    → (unpack_writes user c db).stock ≡ return_items user c c.items db.stock
unfolding unpack_writes set_carton_status
writes-stock user c db = ground arith

writes-draft :
    (user : Option ℕ) (c : Carton) (db : Db)
    → c.status ≡ CartonStatus.draft
    → (unpack_writes user c db).cartons ≡ update carton_pk c.id emptied db.cartons
unfolding unpack_writes set_carton_status
writes-draft user c db h = rw (ap (λ v. same_carton_status v CartonStatus.draft) h) refl

writes-other :
    (user : Option ℕ) (c : Carton) (db : Db)
    → c.status ≢ CartonStatus.draft
    → (unpack_writes user c db).cartons
      ≡ update carton_pk c.id
          (λ _. record c { status = CartonStatus.draft; shipment = none; items = [] })
          (update carton_pk c.id emptied db.cartons)
unfolding unpack_writes set_carton_status
writes-other user c db ne = elim (Bool-cases (same_carton_status c.status CartonStatus.draft)) [
  | inl same ↦ absurd (ne (same_carton_status_eq c.status CartonStatus.draft same))
  | inr other ↦ rw other refl
]

module _ (clock : Clock) (user : Option ℕ) (c : Carton) (db : Db) {db' : Db} where
  unpack_ok :
      unpack_carton clock user c db ≡ ok db'
      → db' ≡ sync_if_linked clock (shipment_of c db) (unpack_writes user c db)
  unfolding unpack_carton
  unpack_ok h = ground arith

  unpack_cartons :
      unpack_carton clock user c db ≡ ok db' → db'.cartons ≡ (unpack_writes user c db).cartons
  unpack_cartons h =
      ap (λ d. d.cartons) (unpack_ok h)
      ∙ (sync_if_linked-others clock (shipment_of c db) (unpack_writes user c db)).1

  unpack_stock :
      unpack_carton clock user c db ≡ ok db' → db'.stock ≡ return_items user c c.items db.stock
  unpack_stock h =
      ap (λ d. d.stock) (unpack_ok h)
      ∙ (sync_if_linked-others clock (shipment_of c db) (unpack_writes user c db)).0
      ∙ writes-stock user c db

  -- Unpacking a carton whose items' lots exist brings the quantities of its items back to the stock,
  -- and the ledger accounts for them.
  pub unpack_carton_returns :
      HaveLots c.items db.stock
      → unpack_carton clock user c db ≡ ok db'
      → (total_on_hand db'.stock.lots ≡ total_on_hand db.stock.lots +ℤ items_total c.items)
        × Accounts db.stock db'.stock
  unpack_carton_returns have h =
      rw (unpack_stock h) (return_items-total user c c.items db.stock have)

  -- An unpacked carton that was not in the status draft is an empty draft carton without a shipment.
  pub unpack_carton_resets :
      find carton_pk c.id db.cartons ≡ some c
      → c.status ≢ CartonStatus.draft
      → unpack_carton clock user c db ≡ ok db'
      → find carton_pk c.id db'.cartons
        ≡ some (record c { status = CartonStatus.draft; shipment = none; items = [] })
  unpack_carton_resets st ne h =
      rw (unpack_cartons h, writes-other user c db ne)
        (find-update_self carton_pk c.id _ (update carton_pk c.id emptied db.cartons) refl
          (find-update_self carton_pk c.id emptied db.cartons refl st))

  -- A carton in the status draft that is unpacked loses its items and keeps its shipment.
  pub unpack_carton-draft :
      find carton_pk c.id db.cartons ≡ some c
      → c.status ≡ CartonStatus.draft
      → unpack_carton clock user c db ≡ ok db'
      → find carton_pk c.id db'.cartons ≡ some (record c { items = [] })
  unpack_carton-draft st eq h =
      rw (unpack_cartons h, writes-draft user c db eq)
        (find-update_self carton_pk c.id emptied db.cartons refl st)
