-- ===== src/Carton/Prepare/Laws.antt =====
-- What the preparation of a carton leaves (wms/domain/stock.py, `_prepare_carton`).
use asf_wms.Prelude.{Option, none, some, List, [], ◌≡◌, refl, or_else, arith, ok, raise_if}
use asf_wms.Prelude.Results.{>>=-eq-ok, ok_transport}
use asf_wms.Carton.Code.{CartonSequence}
use asf_wms.Errors.{carton_shipped, shipment_disputed, shipment_shipped, carton_linked_elsewhere}
use asf_wms.Text.{Text}
use asf_wms.Rows.{CartonItem, Carton}
use asf_wms.Carton.Tables.{Tables, Dimensions, resolve_carton_dimensions}
use asf_wms.Carton.Unpack.{disputed, gone}
use asf_wms.Carton.Prepare.{
  PrepareRequest, look_up, code_for, was_shipped, elsewhere, linked, create_carton, reuse_carton,
  size_carton, pick_carton, prepare_carton,
}

abbrev pub starting_items : Option Carton → List CartonItem
starting_items none = []
starting_items (some c) = c.items

-- The carton that a request is about, if it exists.
abbrev pub requested : PrepareRequest → Tables → Option Carton
requested r t = or_else r.carton (look_up r.carton_code t.db.cartons)

-- The carton has the items that it had, and stock, shipments and products are as before.
pub record Prepares (items : List CartonItem) (t : Tables) (c : Carton) (t' : Tables) : Type 0 where
  pub items_kept : c.items ≡ items
  pub stock : t'.db.stock ≡ t.db.stock
  pub shipments : t'.db.shipments ≡ t.db.shipments
  pub products : t'.products ≡ t.products

linked-items : (r : PrepareRequest) (c : Carton) → (linked r c).items ≡ c.items
linked-items r c = ground arith

reuse-Prepares :
    (r : PrepareRequest) (c : Carton) (t : Tables) {c' : Carton} {t' : Tables}
    → reuse_carton r c t ≡ ok (c', t')
    → Prepares c.items t c' t'
unfolding reuse_carton
reuse-Prepares r c t {c'} {t'} h =
    let (_, _, done) =
      >>=-eq-ok (raise_if (elsewhere r.shipment c.shipment) carton_linked_elsewhere) _ h in
    ok_transport (λ (p : Carton × Tables). Prepares c.items t p.0 p.1) done
      (record { items_kept = linked-items r c; stock = refl; shipments = refl; products = refl })

create-Prepares :
    (today : Text) (r : PrepareRequest) (code : Text) (qs : List CartonSequence) (t : Tables)
    → let (c, t') = create_carton today r code qs t in Prepares [] t c t'
unfolding create_carton
create-Prepares today r code qs t = record {
  items_kept = refl;
  stock = refl;
  shipments = refl;
  products = refl;
}

pick-Prepares :
    (today : Text) (r : PrepareRequest) (o : Option Carton) (t : Tables) {c' : Carton} {t' : Tables}
    → pick_carton today r o t ≡ ok (c', t')
    → Prepares (starting_items o) t c' t'
unfolding pick_carton
pick-Prepares today r (some c) t h = reuse-Prepares r c t h
pick-Prepares today r none t {c'} {t'} h =
    let ((code, qs), _, done) = >>=-eq-ok (code_for r.carton_code t) _ h in
    ok_transport (λ (p : Carton × Tables). Prepares [] t p.0 p.1) done
      (create-Prepares today r code qs t)

size-Prepares :
    (size : Dimensions) (items : List CartonItem) (t u : Tables) (c : Carton)
    → Prepares items t c u
    → let (c', t') = size_carton size (c, u) in Prepares items t c' t'
unfolding size_carton
size-Prepares size items t u c h = record {
  items_kept = h.items_kept;
  stock = h.stock;
  shipments = h.shipments;
  products = h.products;
}

pub prepare_carton-Prepares :
    (today : Text) (r : PrepareRequest) (t : Tables) {c : Carton} {t' : Tables}
    → prepare_carton today r t ≡ ok (c, t')
    → Prepares (starting_items (requested r t)) t c t'
unfolding prepare_carton
prepare_carton-Prepares today r t {c} {t'} h =
    let o = requested r t in
    let (_, _, h1) = >>=-eq-ok (raise_if (was_shipped o) carton_shipped) _ h in
    let (_, _, h2) = >>=-eq-ok (raise_if (disputed r.shipment) shipment_disputed) _ h1 in
    let (_, _, h3) = >>=-eq-ok (raise_if (gone r.shipment) shipment_shipped) _ h2 in
    let ((d, u), picked, done) = >>=-eq-ok (pick_carton today r o t) _ h3 in
    let size = resolve_carton_dimensions r.carton_size t.formats in
    ok_transport (λ (p : Carton × Tables). Prepares (starting_items o) t p.0 p.1) done
      (size-Prepares size (starting_items o) t u d (pick-Prepares today r o t picked))
