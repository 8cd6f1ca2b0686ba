-- ===== src/Carton/Pack/Laws.antt =====
-- What packing moves from the stock into a carton (wms/domain/stock.py, `pack_carton`).
use asf_wms.Prelude.{
  ℕ, ◌+◌, ℤ, pos, ◌+ℤ◌, Bool, Option, none, some, List, [], ◌∷◌, All, sum_by, ◌≡◌, refl, sym, ap,
  ◌∙◌, int_laws, parts_of_eq, arith, ok, raise_if, or_raise,
}
use asf_wms.Prelude.Results.{>>=-eq-ok, ok_transport}
use asf_wms.Prelude.Table.{Distinct, find}
use asf_wms.Errors.{component_missing, kit_empty}
use asf_wms.Text.{Text}
use asf_wms.Stock.Consume.Product.{share, consume_stock-on_hand_of}
use asf_wms.Stock.{on_hand_of, Stock, lot_pk, total_on_hand, Accounts}
use asf_wms.Stock.Consume.{StockConsumeResult, consume_stock}
use asf_wms.Stock.Consume.Loop.{Accounts-trans}
use asf_wms.Stock.Consume.Places.{IsSound}
use asf_wms.Stock.Consume.Correct.{consume_stock_conserves, consume_stock-IsSound}
use asf_wms.Rows.{CartonStatus, CartonItem, Carton, Shipment, Clock, Db}
use asf_wms.Kit.{Part}
use asf_wms.Catalog.{product_pk}
use asf_wms.Shipment.Status.{set_carton_status}
use asf_wms.Carton.Code.Ensure.Kept.{ensure_carton_code-Recodes}
use asf_wms.Carton.Tables.{Tables, with_db}
use asf_wms.Carton.Prepare.{prepare_carton}
use asf_wms.Carton.Prepare.Laws.{requested, starting_items, prepare_carton-Prepares}
use asf_wms.Carton.Items.Laws.{items_total-add_entries}
use asf_wms.Carton.Unpack.{sync_if_linked}
use asf_wms.Carton.Unpack.Laws.{items_total, sync_if_linked-others}
use asf_wms.Carton.Pack.{
  PackRequest, requirements, no_parts, consume_request, filled, store_items, pack_parts,
  change_status, finish_packing, pack_carton,
}
use Prim.Native.String.{String}

-- `n` units, `m` of them of the product `k`, leave the stock for the carton, which held `items`; the
-- ledger accounts for them, the keys of the lots stay distinct, and no lot has a negative or
-- over-reserved quantity.
pub record Packs (k n m : ℕ) (items : List CartonItem) (s : Stock) (c' : Carton) (s' : Stock)
    : Type 0 where
  pub on_hand : total_on_hand s'.lots +ℤ pos n ≡ total_on_hand s.lots
  pub on_hand_of_product : on_hand_of k s'.lots +ℤ pos m ≡ on_hand_of k s.lots
  pub inside : items_total c'.items ≡ items_total items +ℤ pos n
  pub accounts : Accounts s s'
  pub distinct : Distinct lot_pk s'.lots
  pub sound : All IsSound s'.lots

-- The stock of a consumption for a carton.
consume-Packs :
    (k : ℕ) (r : PackRequest) (c : Carton) (p : ℕ) (n : ℕ) (s : Stock)
    {consumed : List StockConsumeResult} {s' : Stock}
    → Distinct lot_pk s.lots
    → All IsSound s.lots
    → consume_stock (consume_request r c p) (pos n) s ≡ ok (consumed, s')
    → Packs k n (share p k n) c.items s (filled r.display_expires_on consumed c) s'
consume-Packs k r c p n s {consumed} {s'} d sound h =
    let q = consume_request r c p in
    let (total, acc, sum) = consume_stock_conserves q (pos n) s d h in
    let (sound', d') = consume_stock-IsSound q (pos n) s d sound h in
    record {
      on_hand = total;
      on_hand_of_product = consume_stock-on_hand_of q k (pos n) s d h;
      inside = omega (
        int_laws,
        parts_of_eq (items_total-add_entries r.display_expires_on consumed c.items),
        parts_of_eq sum,
      );
      accounts = acc;
      distinct = d';
      sound = sound';
    }

pub Packs-trans :
    (p m n i j : ℕ) (items : List CartonItem) (c d : Carton) (s t u : Stock)
    → Packs p m i items s c t
    → Packs p n j c.items t d u
    → Packs p (m + n) (i + j) items s d u
Packs-trans p m n i j items c d s t u h k = record {
  on_hand_of_product =
      omega (int_laws, parts_of_eq h.on_hand_of_product, parts_of_eq k.on_hand_of_product);
  on_hand = omega (int_laws, parts_of_eq h.on_hand, parts_of_eq k.on_hand);
  inside = omega (int_laws, parts_of_eq h.inside, parts_of_eq k.inside);
  accounts = Accounts-trans s t u h.accounts k.accounts;
  distinct = k.distinct;
  sound = k.sound;
}

-- How many units the parts are.
abbrev pub total_parts : List Part → ℕ
total_parts ps = sum_by (λ (p : Part). p.quantity) ps

-- How many units of a product the parts are.
abbrev pub units_of_product : ℕ → List Part → ℕ
units_of_product k ps = sum_by (λ (p : Part). share p.component k p.quantity) ps

pack_parts-Packs :
    (k : ℕ) (r : PackRequest) (ps : List Part) (c : Carton) (t : Tables) {c' : Carton} {t' : Tables}
    → Distinct lot_pk t.db.stock.lots
    → All IsSound t.db.stock.lots
    → pack_parts r ps c t ≡ ok (c', t')
    → Packs k (total_parts ps) (units_of_product k ps) c.items t.db.stock c' t'.db.stock
unfolding pack_parts store_items
pack_parts-Packs k r [] c t d sound h =
    ok_transport (λ (x : Carton × Tables). Packs k 0 0 c.items t.db.stock x.0 x.1.db.stock) h
      (record {
        on_hand = omega int_laws;
        on_hand_of_product = omega int_laws;
        inside = omega int_laws;
        accounts = refl;
        distinct = d;
        sound = sound;
      })
pack_parts-Packs k r (p ∷ ps) c t {c'} {t'} d sound h =
    let (_, _, h1) =
      >>=-eq-ok (or_raise (find product_pk p.component t.products) component_missing) _ h in
    let ((consumed, s1), taken, h2) =
      >>=-eq-ok (consume_stock (consume_request r c p.component) (pos p.quantity) t.db.stock) _
        h1 in
    let first = consume-Packs k r c p.component p.quantity t.db.stock d sound taken in
    let c1 = filled r.display_expires_on consumed c in
    let t1 = store_items c1 s1 t in
    let rest = pack_parts-Packs k r ps c1 t1 first.distinct first.sound h2 in
    Packs-trans k p.quantity (total_parts ps) (share p.component k p.quantity)
      (units_of_product k ps) c.items c1 c' t.db.stock s1 t'.db.stock first rest

set_carton_status-stock :
    (user : Option ℕ) (reason : String) (status : CartonStatus) (c : Carton) (d : Db)
    → (set_carton_status user reason status c d).stock ≡ d.stock
unfolding set_carton_status
set_carton_status-stock user reason status c d = ground arith

-- The end of the packing leaves the items and the stock.
pub finish_packing-kept :
    (fold : Text → Text) (clock : Clock) (user : Option ℕ) (shipment : Option Shipment)
    (manual : Bool) (reason : String) (status : Option CartonStatus) (c : Carton) (t : Tables)
    {c' : Carton} {t' : Tables}
    → finish_packing fold clock user shipment manual reason status c t ≡ ok (c', t')
    → (c'.items ≡ c.items) × (t'.db.stock ≡ t.db.stock)
unfolding finish_packing change_status
finish_packing-kept fold clock user shipment manual reason none c t {c'} {t'} h =
    let u = with_db t (sync_if_linked clock shipment t.db) in
    let r = ensure_carton_code-Recodes fold manual none c u h in
    (ap (λ (x : Carton). x.items) r.carton, r.stock ∙ (sync_if_linked-others clock shipment t.db).0)
finish_packing-kept fold clock user shipment manual reason (some status) c t {c'} {t'} h =
    let d = set_carton_status user reason status c t.db in
    let u = with_db t (sync_if_linked clock shipment d) in
    let r = ensure_carton_code-Recodes fold manual none (record c { status = status }) u h in
    (
      ap (λ (x : Carton). x.items) r.carton,
      r.stock
          ∙ (sync_if_linked-others clock shipment d).0
          ∙ set_carton_status-stock user reason status c t.db,
    )

-- From lots with distinct keys, none of them with a negative quantity or more reserved than on hand,
-- packing that succeeds takes the components of the quantity asked for from the stock, of each product as
-- many units as there are of it among them; the carton that is returned holds as many units more as all
-- components are; the ledger accounts for them, and the lots are again as described.
pub pack_carton-Packs :
    (fold : Text → Text) (clock : Clock) (today : Text) (r : PackRequest) (product : ℕ) (q : ℤ)
    (t : Tables) (k : ℕ) {c : Carton} {t' : Tables}
    → Distinct lot_pk t.db.stock.lots
    → All IsSound t.db.stock.lots
    → pack_carton fold clock today r product q t ≡ ok (c, t')
    → (parts : List Part) × (requirements t.products product q ≡ ok parts)
      × Packs k
          (total_parts parts)
          (units_of_product k parts)
          (starting_items (requested r.prepare t))
          t.db.stock
          c
          t'.db.stock
unfolding pack_carton
pack_carton-Packs fold clock today r product q t k {c} {t'} d sound h =
    let ((c1, t1), prepared, h1) = >>=-eq-ok (prepare_carton today r.prepare t) _ h in
    let p = prepare_carton-Prepares today r.prepare t prepared in
    let (parts, required, h2) = >>=-eq-ok (requirements t1.products product q) _ h1 in
    let (_, _, h3) = >>=-eq-ok (raise_if (no_parts parts) kit_empty) _ h2 in
    let ((c2, t2), packed, h4) = >>=-eq-ok (pack_parts r parts c1 t1) _ h3 in
    let (items, stock) =
      finish_packing-kept fold clock r.prepare.user r.prepare.shipment _ _ _ c2 t2 h4 in
    let m = pack_parts-Packs k r parts c1 t1 (rw p.stock d) (rw p.stock sound) packed in
    (
      parts,
      ap (λ ps. requirements ps product q) (sym p.products) ∙ required,
      rw (← p.items_kept, ← p.stock, stock)
          (record {
            on_hand = m.on_hand;
            on_hand_of_product = m.on_hand_of_product;
            inside = ap items_total items ∙ m.inside;
            accounts = m.accounts;
            distinct = m.distinct;
            sound = m.sound;
          }),
    )
