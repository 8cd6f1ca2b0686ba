-- ===== src/Carton/Code/Ensure/Kept.antt =====
-- A new code leaves the rest of a carton, the stock and the shipments (wms/domain/stock.py).
use asf_wms.Prelude.{
  ℕ, zero, suc, Bool, true, false, Option, none, some, ◌≡◌, refl, inl, inr, Bool-cases,
  if◌then◌else◌, Result, ok,
}
use asf_wms.Errors.{StockError}
use asf_wms.Text.{Text, text_eq}
use asf_wms.Rows.{Carton}
use asf_wms.Carton.Tables.{Tables}
use asf_wms.Carton.Code.{
  normalize_carton_family, next_linear_carton_sequence, format_linear_carton_code,
}
use asf_wms.Carton.Code.Ensure.{
  is_taken, save_code, renumber, redate, ensure_dated, linear_type, by_kind, ensure_carton_code,
}

-- The carton has another code at most, and the tables of stock and shipments are as before.
pub record Recodes (c : Carton) (t : Tables) (c' : Carton) (t' : Tables) : Type 0 where
  pub carton : c' ≡ record c { code = c'.code }
  pub stock : t'.db.stock ≡ t.db.stock
  pub shipments : t'.db.shipments ≡ t.db.shipments

Recodes-refl : (c : Carton) (t : Tables) → Recodes c t c t
Recodes-refl c t = record { carton = refl; stock = refl; shipments = refl }

save_code-Recodes :
    (code : Text) (c : Carton) (t : Tables) → let (c', t') = save_code code c t in Recodes c t c' t'
unfolding save_code
save_code-Recodes code c t = record { carton = refl; stock = refl; shipments = refl }

renumber-Recodes :
    (n : ℕ) (family : Text) (c : Carton) (t : Tables)
    → let (c', t') = renumber n family c t in Recodes c t c' t'
unfolding renumber save_code
renumber-Recodes zero family c t = Recodes-refl c t
renumber-Recodes (suc n) family c t =
    let (k, qs) = next_linear_carton_sequence family t.sequences in
    let code = format_linear_carton_code family k in
    let rest = renumber-Recodes n family c (record t { sequences = qs }) in
    elim (Bool-cases (is_taken code c.id t.db.cartons)) [
      | inl taken ↦
          rw taken (record { carton = rest.carton; stock = rest.stock; shipments = rest.shipments })
      | inr free ↦ rw free (record { carton = refl; stock = refl; shipments = refl })
    ]

-- A pair of a carton and tables that a result holds.
abbrev OkRecodes : Carton → Tables → Result StockError (Carton × Tables) → Type 0
OkRecodes c t r = (c' : Carton) (t' : Tables) → r ≡ ok (c', t') → Recodes c t c' t'

ok-OkRecodes :
    (c : Carton) (t : Tables) (p : Carton × Tables) → Recodes c t p.0 p.1 → OkRecodes c t (ok p)
ok-OkRecodes c t (d, u) h c' t' e =
    let carton : d ≡ c' = cc in let tables : u ≡ t' = cc in rw (← carton, ← tables) h

if-OkRecodes :
    (c : Carton) (t : Tables) (b : Bool) {x y : Result StockError (Carton × Tables)}
    → OkRecodes c t x
    → OkRecodes c t y
    → OkRecodes c t (if b then x else y)
if-OkRecodes c t true h g = h
if-OkRecodes c t false h g = g

unchanged : (c : Carton) (t : Tables) → OkRecodes c t (ok (c, t))
unchanged c t = ok-OkRecodes c t (c, t) (Recodes-refl c t)

redate-Recodes : (code : Text) (c : Carton) (t : Tables) → OkRecodes c t (redate code c t)
unfolding redate
redate-Recodes code c t =
    if-OkRecodes c t (is_taken code c.id t.db.cartons) (λ c' t' e. cc)
      (ok-OkRecodes c t (save_code code c t) (save_code-Recodes code c t))

dated-Recodes :
    (type_code : Text) (c : Carton) (t : Tables) → OkRecodes c t (ensure_dated type_code c t)
unfolding ensure_dated
dated-Recodes type_code c t = if-OkRecodes c t _ (unchanged c t) (redate-Recodes _ c t)

kind-Recodes :
    (type : Option Text) (type_code : Text) (c : Carton) (t : Tables)
    → OkRecodes c t (by_kind type type_code c t)
kind-Recodes (some type) type_code c t =
    let family = normalize_carton_family type_code in
    if-OkRecodes c t (text_eq type family) (unchanged c t)
      (ok-OkRecodes c t (renumber 2 family c t) (renumber-Recodes 2 family c t))
kind-Recodes none type_code c t = if-OkRecodes c t _ (dated-Recodes type_code c t) (unchanged c t)

-- If the code of a carton is ensured without an error, the carton has another code at most, and stock
-- and shipments are as before.
pub ensure_carton_code-Recodes :
    (fold : Text → Text) (manual : Bool) (type_code : Option Text) (c : Carton) (t : Tables)
    {c' : Carton} {t' : Tables}
    → ensure_carton_code fold manual type_code c t ≡ ok (c', t')
    → Recodes c t c' t'
unfolding ensure_carton_code
ensure_carton_code-Recodes fold true type_code c t {c'} {t'} h = unchanged c t c' t' h
ensure_carton_code-Recodes fold false type_code c t {c'} {t'} h =
    kind-Recodes (linear_type c.code) _ c t c' t' h
