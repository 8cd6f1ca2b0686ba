-- ===== src/Order/Ready/Bounds.antt =====
-- No line is prepared beyond its quantity by `assign_ready_cartons_to_order`
-- (wms/domain/orders.py).
use asf_wms.Prelude.{
  ℕ, ◌+◌, ◌-◌, ◌==◌, ◌≤◌, ◌≡◌, ◌≢◌, refl, sym, ap, ◌∙◌, inl, inr, pos_part, Option, some, List, [],
  ◌∷◌, All, All-map, All-unmap, Bool-cases, Option-cases, arith, ok,
}
use mathlib.Core.Path.{subst}
use asf_wms.Prelude.Table.{find, update, Fresh, Distinct, find-All, update-Distinct_other}
use asf_wms.Prelude.Results.{>>=-eq-ok, ok_transport}
use asf_wms.Rows.{CartonStatus, Shipment, Carton}
use asf_wms.Carton.Unpack.Laws.{items_total}
use asf_wms.Order.Model.{OrderLine, line_pk}
use asf_wms.Order.Ready.{
  matching_slot, take_carton, take_if_matching, assign_cartons, Slot, Assigning, slot_pk,
  lower_slot,
}
use asf_wms.Order.Ready.Step.{unreserved, Takes, take_carton-Takes, matching_slot-fits}

-- Not prepared beyond the quantity.
abbrev pub IsBounded : OrderLine → Type 0
IsBounded l = l.prepared_quantity ≤ l.quantity

abbrev pub slot_line : Slot → ℕ
slot_line s = s.line

-- What the dictionary says remains for the line is no more than what remains.
abbrev Leaves : ℕ → ℕ → ℕ → Slot → Type 0
Leaves k prepared quantity s = s.line ≡ k → prepared + s.remaining ≤ quantity

abbrev pub Admits : List Slot → OrderLine → Type 0
Admits ss l = IsBounded l × All (Leaves l.id l.prepared_quantity l.quantity) ss

Leaves-lower :
    (k p q j n : ℕ) (ss : List Slot)
    → All (Leaves k p q) ss
    → All (Leaves k p q) (update slot_pk j (λ t. record t { remaining = t.remaining - n }) ss)
Leaves-lower k p q j n [] h = tt
Leaves-lower k p q j n (s ∷ ss) h = elim (Bool-cases (s.product == j)) [
  | inl here ↦ rw here ((λ e. let le = h.0 e in omega (arith, le)), h.1)
  | inr later ↦ rw later (h.0, Leaves-lower k p q j n ss h.1)
]

Leaves-prepare :
    (k p q j n : ℕ) (ss : List Slot) {s : Slot}
    → find slot_pk j ss ≡ some s
    → Distinct slot_line ss
    → s.line ≡ k
    → n ≤ s.remaining
    → All (Leaves k p q) ss
    → All (Leaves k (p + n) q) (update slot_pk j (λ t. record t { remaining = t.remaining - n }) ss)
Leaves-prepare k p q j n [] f d e le h = absurd (cc)
Leaves-prepare k p q j n (t ∷ ss) {s} f d e le h = elim (Bool-cases (t.product == j)) [
  | inl here ↦
      let same : t ≡ s = ground arith in
      let line : t.line ≡ k = ap slot_line same ∙ e in
      let enough : n ≤ t.remaining = rw same le in
      rw here (
        (λ e'. let fits = h.0 e' in omega (arith, fits, enough)),
        other_lines ss (subst (λ i. Fresh slot_line i ss) line d.0),
      )
  | inr later ↦ rw later (
    (λ e'. absurd (
        find-All slot_pk (λ u. slot_line u ≢ slot_line t) j ss {r = s} d.0 (ground arith)
          (e ∙ sym e'))),
    Leaves-prepare k p q j n ss {s = s} (ground arith) d.1 e le h.1,
  )
]
  where
    other_lines : (us : List Slot) → Fresh slot_line k us → All (Leaves k (p + n) q) us
    other_lines [] g = tt
    other_lines (u ∷ us) g = ((λ e'. absurd (g.0 e')), other_lines us g.1)

Admits-lower :
    (j n : ℕ) (ss : List Slot) (ls : List OrderLine)
    → All (Admits ss) ls
    → All (Admits (update slot_pk j (λ t. record t { remaining = t.remaining - n }) ss)) ls
Admits-lower j n ss [] h = tt
Admits-lower j n ss (l ∷ ls) h = (
  (h.0.0, Leaves-lower l.id l.prepared_quantity l.quantity j n ss h.0.1),
  Admits-lower j n ss ls h.1,
)

Admits-prepare :
    (s : Slot) (n : ℕ) (ss : List Slot) (ls : List OrderLine)
    → find slot_pk s.product ss ≡ some s
    → Distinct slot_line ss
    → n ≤ s.remaining
    → All (Admits ss) ls
    → All
        (Admits (lower_slot s n ss))
        (update line_pk s.line (λ l. record l { prepared_quantity = l.prepared_quantity + n }) ls)
Admits-prepare s n ss [] f d le h = tt
Admits-prepare s n ss (l ∷ ls) f d le h = elim (Bool-cases (l.id == s.line)) [
  | inl here ↦
      let line : s.line ≡ l.id = ground arith in
      let p = l.prepared_quantity in
      let fits = find-All slot_pk (Leaves l.id p l.quantity) s.product ss {r = s} h.0.1 f line in
      rw here (
        (
          omega (arith, fits, le),
          Leaves-prepare l.id p l.quantity s.product n ss f d line le h.0.1,
        ),
        Admits-lower s.product n ss ls h.1,
      )
  | inr later ↦ rw later (
    (h.0.0, Leaves-lower l.id l.prepared_quantity l.quantity s.product n ss h.0.1),
    Admits-prepare s n ss ls f d le h.1,
  )
]

-- What the loop keeps: the lines admit what the dictionary says, and each line has one entry.
abbrev pub IsConsistent : Assigning → Type 0
IsConsistent a = All (Admits a.remaining) a.world.lines × Distinct slot_line a.remaining

Takes-IsConsistent :
    (shipment : Shipment) (c : Carton) (s : Slot) (a a' : Assigning)
    → matching_slot a.world.tables.db.stock.lots c a.remaining ≡ some s
    → Takes shipment c s a a'
    → IsConsistent a
    → IsConsistent a'
Takes-IsConsistent shipment c s a a' match t (admits, distinct) =
    let n = pos_part (items_total c.items) in
    let (found, le, _) = matching_slot-fits a.world.tables.db.stock.lots c a.remaining match in
    let prepared = Admits-prepare s n a.remaining a.world.lines found distinct le admits in
    let ss = lower_slot s n a.remaining in
    let ls =
      update line_pk s.line (λ l. record l { prepared_quantity = l.prepared_quantity + n })
        a.world.lines in
    (
      All-unmap unreserved (Admits a'.remaining) a'.world.lines (
          subst (λ xs. All (Admits a'.remaining) xs) (sym t.lines)
            (All-map unreserved (Admits a'.remaining) _
              (subst (λ us. All (Admits us) ls) (sym t.left) prepared))),
      subst (Distinct slot_line) (sym t.left)
          (update-Distinct_other slot_pk slot_line s.product _ (λ _. refl) a.remaining distinct),
    )

pub assign_cartons-IsConsistent :
    (user : Option ℕ) (shipment : Shipment) (cs : List Carton) (a : Assigning) {a' : Assigning}
    → All (λ (c : Carton). c.status ≡ CartonStatus.packed) cs
    → IsConsistent a
    → assign_cartons user shipment cs a ≡ ok a'
    → IsConsistent a'
unfolding assign_cartons
assign_cartons-IsConsistent user shipment [] a packed inv h = ok_transport IsConsistent h inv
assign_cartons-IsConsistent user shipment (c ∷ cs) a packed inv h =
    let o = matching_slot a.world.tables.db.stock.lots c a.remaining in
    let (a1, step, rest) = >>=-eq-ok (take_if_matching user shipment c o a) _ h in
    assign_cartons-IsConsistent user shipment cs a1 packed.1
      (elim (Option-cases o) [
        | inl none_fits ↦
            let same : ok a ≡ ok a1 =
              sym (ap (λ x. take_if_matching user shipment c x a) none_fits) ∙ step in
            ok_transport IsConsistent same inv
        | inr (s, match) ↦
            let taken : take_carton user shipment c s a ≡ ok a1 =
              sym (ap (λ x. take_if_matching user shipment c x a) match) ∙ step in
            Takes-IsConsistent shipment c s a a1 match
              (take_carton-Takes user shipment c s a packed.0 taken) inv
      ])
      rest
