-- ===== src/Order/Prepare/Unique.antt =====
-- The keys and products of lines through `assign_ready_cartons_to_order` (wms/domain/orders.py), which
-- changes quantities only.
use asf_wms.Prelude.{
  filter-map, ℕ, ◌+◌, ◌==◌, ◌≡◌, refl, sym, ap, ◌∙◌, inl, inr, pos_part, Option, List, [], ◌∷◌, map,
  All, Bool-cases, Option-cases, ok, raise_if,
}
use mathlib.Core.Path.{subst}
use asf_wms.Prelude.Results.{>>=-eq-ok, ok_transport}
use asf_wms.Prelude.Table.{update, Distinct, map-Distinct, unmap-Distinct}
use asf_wms.Errors.{shipment_disputed, shipment_locked}
use asf_wms.Rows.{CartonStatus, Shipment, Carton, Clock}
use asf_wms.Shipment.Status.{is_locked}
use asf_wms.Carton.Unpack.Laws.{items_total}
use asf_wms.Order.Model.{OrderLine, line_pk}
use asf_wms.Order.Pack.{World}
use asf_wms.Order.Ready.{
  Assigning, order_lines, slots, ready_cartons, matching_slot, take_if_matching, take_carton,
  assign_cartons, assign_ready_cartons_to_order,
}
use asf_wms.Order.Ready.Step.{unreserved, take_carton-Takes}
use asf_wms.Order.Ready.Laws.{ready_cartons-packed}
use asf_wms.Order.Prepare.{line_product}

-- A line without the quantities that change.
abbrev pub bare : OrderLine → OrderLine
bare l = record l { reserved_quantity = 0; prepared_quantity = 0 }

bare-unreserved : (ls : List OrderLine) → map bare (map unreserved ls) ≡ map bare ls
bare-unreserved [] = refl
bare-unreserved (l ∷ ls) = ap (λ t. bare l ∷ t) (bare-unreserved ls)

bare-update :
    (k n : ℕ) (ls : List OrderLine)
    → map bare (update line_pk k (λ l. record l { prepared_quantity = l.prepared_quantity + n }) ls)
      ≡ map bare ls
bare-update k n [] = refl
bare-update k n (l ∷ ls) = elim (Bool-cases (l.id == k)) [
  | inl here ↦ rw here refl
  | inr later ↦ rw later (ap (λ t. bare l ∷ t) (bare-update k n ls))
]

-- The keys are distinct, and no product has two lines in the order.
abbrev pub AreUnique : ℕ → List OrderLine → Type 0
AreUnique order ls = Distinct line_pk ls × Distinct line_product (order_lines order ls)

bare-order_lines :
    (order : ℕ) (ls : List OrderLine)
    → map bare (order_lines order ls) ≡ order_lines order (map bare ls)
bare-order_lines order ls =
    sym (filter-map (λ (l : OrderLine). l.order == order) bare ls (λ _. refl))

AreUnique-bare :
    (order : ℕ) (ls ls' : List OrderLine)
    → map bare ls' ≡ map bare ls
    → AreUnique order ls
    → AreUnique order ls'
AreUnique-bare order ls ls' e (keys, products) =
    let same =
      bare-order_lines order ls' ∙ ap (order_lines order) e ∙ sym (bare-order_lines order ls) in
    (
      unmap-Distinct line_pk bare (λ _. refl) ls'
          (subst (Distinct line_pk) (sym e) (map-Distinct line_pk bare ls (λ _. refl) keys)),
      unmap-Distinct line_product bare (λ _. refl) (order_lines order ls')
          (subst (Distinct line_product) (sym same)
            (map-Distinct line_product bare (order_lines order ls) (λ _. refl) products)),
    )

assign_cartons-bare :
    (user : Option ℕ) (shipment : Shipment) (cs : List Carton) (a : Assigning) {a' : Assigning}
    → All (λ (c : Carton). c.status ≡ CartonStatus.packed) cs
    → assign_cartons user shipment cs a ≡ ok a'
    → map bare a'.world.lines ≡ map bare a.world.lines
unfolding assign_cartons
assign_cartons-bare user shipment [] a packed h =
    ok_transport (λ (b : Assigning). map bare b.world.lines ≡ map bare a.world.lines) h refl
assign_cartons-bare user shipment (c ∷ cs) a packed h =
    let o = matching_slot a.world.tables.db.stock.lots c a.remaining in
    let (a1, step, rest) = >>=-eq-ok (take_if_matching user shipment c o a) _ h in
    assign_cartons-bare user shipment cs a1 packed.1 rest ∙ elim (Option-cases o) [
      | inl none_fits ↦
          let same : ok a ≡ ok a1 =
            sym (ap (λ x. take_if_matching user shipment c x a) none_fits) ∙ step in
          ok_transport (λ (b : Assigning). map bare b.world.lines ≡ map bare a.world.lines) same
            refl
      | inr (s, match) ↦
          let taken : take_carton user shipment c s a ≡ ok a1 =
            sym (ap (λ x. take_if_matching user shipment c x a) match) ∙ step in
          let t = take_carton-Takes user shipment c s a packed.0 taken in
          let n = pos_part (items_total c.items) in
          sym (bare-unreserved a1.world.lines)
          ∙ ap (map bare) t.lines
          ∙ bare-unreserved _
          ∙ bare-update s.line n a.world.lines
    ]

-- The assignment of packed cartons keeps the keys and products of the lines.
pub assign_ready_cartons_to_order-AreUnique :
    (clock : Clock) (user : Option ℕ) (order : ℕ) (shipment : Shipment) (w : World) {n : ℕ}
    {w' : World}
    → assign_ready_cartons_to_order clock user order shipment w ≡ ok (n, w')
    → AreUnique order w.lines
    → AreUnique order w'.lines
unfolding assign_ready_cartons_to_order
assign_ready_cartons_to_order-AreUnique clock user order shipment w h unique =
    let (_, _, h1) = >>=-eq-ok (raise_if shipment.is_disputed shipment_disputed) _ h in
    let (_, _, h2) = >>=-eq-ok (raise_if (is_locked shipment.status) shipment_locked) _ h1 in
    let cs = ready_cartons w.tables.db.cartons in
    let start : Assigning = record {
      world = w;
      remaining = slots (order_lines order w.lines);
      assigned = 0;
    } in
    let (a, run, done) = >>=-eq-ok (assign_cartons user shipment cs start) _ h2 in
    ok_transport (λ (x : ℕ × World). AreUnique order x.1.lines) done
      (AreUnique-bare order w.lines a.world.lines
        (assign_cartons-bare user shipment cs start (ready_cartons-packed w.tables.db.cartons) run)
        unique)
