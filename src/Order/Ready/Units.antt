-- ===== src/Order/Ready/Units.antt =====
-- The units that `assign_ready_cartons_to_order` moves (wms/domain/orders.py): what the lines gain is
-- what the cartons of the shipment gain.
use asf_wms.Prelude.{
  ℕ, ◌+◌, ◌==◌, ◌≡◌, refl, sym, ap, ◌∙◌, inl, inr, none, some, is_some, List, [], ◌∷◌, true,
  eq_option, filter, length, map, sum_by, ℤ, pos, ◌+ℤ◌, int_laws, Bool-cases, arith, if◌then◌else◌,
}
use asf_wms.Prelude.Table.{find, update}
use asf_wms.Rows.{CartonStatus, Carton, carton_pk, in_shipment}
use asf_wms.Carton.Unpack.Laws.{items_total}
use asf_wms.Order.Model.{OrderLine, line_pk}
use asf_wms.Order.Ready.Step.{unreserved}

-- The units in the cartons of a shipment, and the number of these cartons.
abbrev pub units_in : ℕ → List Carton → ℤ
units_in k [] = pos 0
units_in k (c ∷ cs) =
    let rest = units_in k cs in if in_shipment k c then items_total c.items +ℤ rest else rest

abbrev pub cartons_in : ℕ → List Carton → ℕ
cartons_in k cs = length (filter (in_shipment k) cs)

abbrev pub prepared_total : List OrderLine → ℕ
prepared_total ls = sum_by (λ (l : OrderLine). l.prepared_quantity) ls

abbrev pub assigned_row : ℕ → Carton → Carton
assigned_row k c = record c { status = CartonStatus.assigned; shipment = some k }

ℤ_swap : (a b : ℤ) → a +ℤ b ≡ b +ℤ a
ℤ_swap a b = omega int_laws

self_eq : (k : ℕ) → (k == k) ≡ true
self_eq k = ground arith

units_in_self :
    (k : ℕ) (c : Carton) (cs : List Carton)
    → units_in k (assigned_row k c ∷ cs) ≡ items_total c.items +ℤ units_in k cs
units_in_self k c cs =
    let rest = units_in k cs in
    ap (λ b. if b then items_total c.items +ℤ rest else rest) (self_eq k)

units_in_free :
    (k : ℕ) (c : Carton) (cs : List Carton)
    → c.shipment ≡ none
    → units_in k (c ∷ cs) ≡ units_in k cs
units_in_free k c cs free =
    let rest = units_in k cs in
    ap (λ o. if eq_option o (some k) then items_total c.items +ℤ rest else rest) free

pub units_in-update :
    (k j : ℕ) (cs : List Carton) {c : Carton}
    → find carton_pk j cs ≡ some c
    → c.shipment ≡ none
    → units_in k (update carton_pk j (λ _. assigned_row k c) cs)
      ≡ units_in k cs +ℤ items_total c.items
units_in-update k j [] {c} h free = absurd (cc)
units_in-update k j (x ∷ cs) {c} h free = elim (Bool-cases (x.id == j)) [
  | inl here ↦
      let same : x ≡ c = ground arith in
      let before = units_in_free k x cs (ap (λ (y : Carton). y.shipment) same ∙ free) in
      let after = units_in_self k c cs in
      rw here (
        after
        ∙ ℤ_swap (items_total c.items) (units_in k cs)
        ∙ ap (λ i. i +ℤ items_total c.items) (sym before))
  | inr later ↦
      let ih = units_in-update k j cs {c = c} (ground arith) free in grind (int_laws, later, ih)
]

pub cartons_in-update :
    (k j : ℕ) (cs : List Carton) {c : Carton}
    → find carton_pk j cs ≡ some c
    → c.shipment ≡ none
    → cartons_in k (update carton_pk j (λ _. assigned_row k c) cs) ≡ cartons_in k cs + 1
cartons_in-update k j [] {c} h free = absurd (cc)
cartons_in-update k j (x ∷ cs) {c} h free = elim (Bool-cases (x.id == j)) [
  | inl here ↦ let same : x ≡ c = ground arith in rw (here, same, free) (ground arith)
  | inr later ↦
      let ih = cartons_in-update k j cs {c = c} (ground arith) free in ground (arith, later, ih)
]

pub prepared_total-update :
    (j n : ℕ) (ls : List OrderLine)
    → is_some (find line_pk j ls) ≡ true
    → prepared_total
        (update line_pk j (λ l. record l { prepared_quantity = l.prepared_quantity + n }) ls)
      ≡ prepared_total ls + n
prepared_total-update j n [] h = absurd (cc)
prepared_total-update j n (l ∷ ls) h = elim (Bool-cases (l.id == j)) [
  | inl here ↦ rw here (omega arith)
  | inr later ↦ let ih = prepared_total-update j n ls (ground arith) in rw later (omega (arith, ih))
]

pub prepared_total-unreserved :
    (ls : List OrderLine) → prepared_total (map unreserved ls) ≡ prepared_total ls
prepared_total-unreserved [] = refl
prepared_total-unreserved (l ∷ ls) = omega (arith, prepared_total-unreserved ls)

pub find-unreserved :
    (j : ℕ) (ls : List OrderLine)
    → is_some (find line_pk j (map unreserved ls)) ≡ is_some (find line_pk j ls)
find-unreserved j [] = refl
find-unreserved j (l ∷ ls) = ground (arith, find-unreserved j ls)
