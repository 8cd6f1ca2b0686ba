-- ===== src/Shipment/Tracking/Each.antt =====
-- The loops that set the status of several cartons (wms/shipment_tracking_handlers.py).
use asf_wms.Prelude.{
  ℕ, Bool, true, false, ◌==◌, ◌≡◌, ◌≢◌, refl, ap, sym, ◌∙◌, inl, inr, Bool-cases, Option, some,
  List, [], ◌∷◌, All, All-filter, filter, arith,
}
use mathlib.Core.Path.{subst}
use asf_wms.Prelude.Table.{
  find, Fresh, Distinct, find-update_self, find-replace_ne, filter-Distinct, All-found, find-filter,
  filter-Fresh_self,
}
use asf_wms.Rows.{CartonStatus, Carton, Db, carton_pk, same_carton_status}
use asf_wms.Shipment.Status.{set_carton_status}
use asf_wms.Shipment.Tracking.{set_each}
use Prim.Native.String.{String}

abbrev pub AreStored : Db → List Carton → Type 0
AreStored db cs = All (λ c. find carton_pk c.id db.cartons ≡ some c) cs

abbrev pub with_status : CartonStatus → Carton → Carton
with_status status c = record c { status = status }

pub same_carton_status_eq : (a b : CartonStatus) → same_carton_status a b ≡ true → a ≡ b
same_carton_status_eq a b h = ground arith

module _ (user : Option ℕ) (reason : String) (status : CartonStatus) where
  pub set_carton_status-shipments :
      (c : Carton) (db : Db) → (set_carton_status user reason status c db).shipments ≡ db.shipments
  unfolding set_carton_status
  set_carton_status-shipments c db = ground arith

  set-find_self :
      (c : Carton) (db : Db)
      → find carton_pk c.id db.cartons ≡ some c
      → find carton_pk c.id (set_carton_status user reason status c db).cartons
        ≡ some (with_status status c)
  unfolding set_carton_status
  set-find_self c db st = elim (Bool-cases (same_carton_status c.status status)) [
    | inl same ↦
        rw same (st ∙ ap (λ v. some (with_status v c)) (same_carton_status_eq c.status status same))
    | inr differs ↦ rw differs (find-update_self carton_pk c.id _ db.cartons refl st)
  ]

  set-find_ne :
      (j : ℕ) (c : Carton) (db : Db)
      → j ≢ c.id
      → find carton_pk c.id db.cartons ≡ some c
      → find carton_pk j (set_carton_status user reason status c db).cartons
        ≡ find carton_pk j db.cartons
  unfolding set_carton_status
  set-find_ne j c db ne st = elim (Bool-cases (same_carton_status c.status status)) [
    | inl same ↦ rw same refl
    | inr differs ↦
        rw differs (find-replace_ne carton_pk j c.id (with_status status c) db.cartons refl ne)
  ]

  set-AreStored :
      (c : Carton) (cs : List Carton) (db : Db)
      → Fresh carton_pk c.id cs
      → find carton_pk c.id db.cartons ≡ some c
      → AreStored db cs
      → AreStored (set_carton_status user reason status c db) cs
  set-AreStored c [] db f st h = tt
  set-AreStored c (d ∷ cs) db f st h =
      (set-find_ne d.id c db f.0 st ∙ h.0, set-AreStored c cs db f.1 st h.1)

  pub set_each-shipments :
      (cs : List Carton) (db : Db) → (set_each user reason status cs db).shipments ≡ db.shipments
  unfolding set_each
  set_each-shipments [] db = refl
  set_each-shipments (c ∷ cs) db =
      set_each-shipments cs (set_carton_status user reason status c db)
      ∙ set_carton_status-shipments c db

  pub set_each-find-Fresh :
      (j : ℕ) (cs : List Carton) (db : Db)
      → Fresh carton_pk j cs
      → Distinct carton_pk cs
      → AreStored db cs
      → find carton_pk j (set_each user reason status cs db).cartons ≡ find carton_pk j db.cartons
  unfolding set_each
  set_each-find-Fresh j [] db f d st = refl
  set_each-find-Fresh j (c ∷ cs) db f d st =
      set_each-find-Fresh j cs (set_carton_status user reason status c db) f.1 d.1
        (set-AreStored c cs db d.0 st.0 st.1)
      ∙ set-find_ne j c db (λ e. f.0 (sym e)) st.0

  -- A carton of the list has the new status afterwards and is otherwise as before.
  pub set_each-find :
      (cs : List Carton) (db : Db) {c : Carton}
      → Distinct carton_pk cs
      → AreStored db cs
      → find carton_pk c.id cs ≡ some c
      → find carton_pk c.id (set_each user reason status cs db).cartons
        ≡ some (with_status status c)
  unfolding set_each
  set_each-find [] db d st h = cc
  set_each-find (x ∷ cs) db {c} d st h = elim (Bool-cases (x.id == c.id)) [
    | inl same ↦
        let eq : x ≡ c = ground arith in
        subst
          (λ y.
            find carton_pk y.id
              (set_each user reason status cs (set_carton_status user reason status x db)).cartons
            ≡ some (with_status status y))
          eq
          (set_each-find-Fresh x.id cs (set_carton_status user reason status x db) d.0 d.1
              (set-AreStored x cs db d.0 st.0 st.1)
            ∙ set-find_self x db st.0)
    | inr other ↦
        set_each-find cs (set_carton_status user reason status x db) {c = c} d.1
          (set-AreStored x cs db d.0 st.0 st.1) (ground arith)
  ]

  -- A loop over the stored cartons that pass a test, within those of a shipment.
  pub set_each-find-filter :
      (p m : Carton → Bool) (db : Db) {c : Carton}
      → Distinct carton_pk db.cartons
      → find carton_pk c.id db.cartons ≡ some c
      → m c ≡ true
      → ((p c ≡ false) → c.status ≡ status)
      → find carton_pk c.id
          (set_each user reason status (filter p (filter m db.cartons)) db).cartons
        ≡ some (with_status status c)
  set_each-find-filter p m db {c} d fc mine skip =
      let in_shipment_d = filter-Distinct carton_pk m db.cartons d in
      let ds = filter-Distinct carton_pk p (filter m db.cartons) in_shipment_d in
      let stored =
        All-filter (λ x. find carton_pk x.id db.cartons ≡ some x) p (filter m db.cartons)
          (All-filter (λ x. find carton_pk x.id db.cartons ≡ some x) m db.cartons
            (All-found carton_pk db.cartons d)) in
      let fm = find-filter carton_pk m c.id db.cartons fc mine in
      elim (Bool-cases (p c)) [
        | inl taken ↦
            set_each-find (filter p (filter m db.cartons)) db ds stored
              (find-filter carton_pk p c.id (filter m db.cartons) fm taken)
        | inr left ↦
            set_each-find-Fresh c.id (filter p (filter m db.cartons)) db
              (filter-Fresh_self carton_pk p c.id (filter m db.cartons) in_shipment_d fm left) ds
              stored
            ∙ fc
            ∙ ap (λ v. some (with_status v c)) (skip left)
      ]
