-- ===== src/Order/Ready/Balance.antt =====
-- The loop of `assign_ready_cartons_to_order` (wms/domain/orders.py) moves units from cartons without
-- a shipment to the lines and to the shipment.
use asf_wms.Prelude.{
  ℕ, ◌+◌, ◌≡◌, refl, sym, ap, ◌∙◌, inl, inr, Option, none, some, is_some, List, [], ◌∷◌, true, pos,
  pos_part, ◌+ℤ◌, int_laws, parts_of_eq, All, All-both, Option-cases, arith, ok,
}
use mathlib.Core.Path.{subst}
use asf_wms.Prelude.Results.{>>=-eq-ok, ok_transport}
use asf_wms.Prelude.Table.{
  find, update, Fresh, Distinct, find-replace_ne, find-All, All-update, is_some-find-update,
}
use asf_wms.Rows.{CartonStatus, Shipment, Carton, carton_pk}
use asf_wms.Carton.Unpack.Laws.{items_total}
use asf_wms.Order.Model.{OrderLine, line_pk}
use asf_wms.Order.Ready.{
  Slot, Assigning, slot_pk, matching_slot, take_carton, take_if_matching, assign_cartons,
}
use asf_wms.Order.Ready.Step.{Takes, take_carton-Takes, matching_slot-fits}
use asf_wms.Order.Ready.Units.{
  units_in, cartons_in, prepared_total, units_in-update, cartons_in-update, prepared_total-update,
  prepared_total-unreserved, find-unreserved,
}

abbrev pub cartons_of : Assigning → List Carton
cartons_of a = a.world.tables.db.cartons

-- What the lines gain, the cartons of the shipment gain; their number grows by the count.
pub record Balances (k : ℕ) (a a' : Assigning) : Type 0 where
  pub units :
      pos (prepared_total a'.world.lines) +ℤ units_in k (cartons_of a)
      ≡ pos (prepared_total a.world.lines) +ℤ units_in k (cartons_of a')
  pub count : cartons_in k (cartons_of a') + a.assigned ≡ cartons_in k (cartons_of a) + a'.assigned

Balances-same : (k : ℕ) (a : Assigning) → Balances k a a
Balances-same k a = record { units = refl; count = refl }

Balances-trans : (k : ℕ) (a b c : Assigning) → Balances k a b → Balances k b c → Balances k a c
Balances-trans k a b c h g = record {
  units = omega (int_laws, parts_of_eq h.units, parts_of_eq g.units);
  count = omega (arith, h.count, g.count);
}

-- A carton of the query: stored, and without a shipment.
abbrev pub Waits : List Carton → Carton → Type 0
Waits cartons c =
    (find carton_pk c.id cartons ≡ some c) × (c.status ≡ CartonStatus.packed) × (c.shipment ≡ none)

-- Each entry of the dictionary is about a stored line.
abbrev pub HasLine : List OrderLine → Slot → Type 0
HasLine ls s = is_some (find line_pk s.line ls) ≡ true

module _ (shipment : Shipment) (c : Carton) (s : Slot) (a a' : Assigning)
    (t : Takes shipment c s a a') where
  abbrev line_change : OrderLine → OrderLine
  line_change l = record l {
    prepared_quantity = l.prepared_quantity + pos_part (items_total c.items);
  }

  Takes-Balances :
      matching_slot a.world.tables.db.stock.lots c a.remaining ≡ some s
      → Waits (cartons_of a) c
      → All (HasLine a.world.lines) a.remaining
      → Balances shipment.id a a'
  Takes-Balances match waits have =
      let n = pos_part (items_total c.items) in
      let (found, _, whole) = matching_slot-fits a.world.tables.db.stock.lots c a.remaining match in
      let line = find-All slot_pk (HasLine a.world.lines) s.product a.remaining have found in
      let lines =
        sym (prepared_total-unreserved a'.world.lines)
        ∙ ap prepared_total t.lines
        ∙ prepared_total-unreserved (update line_pk s.line line_change a.world.lines)
        ∙ prepared_total-update s.line n a.world.lines line in
      let units =
        ap (units_in shipment.id) t.cartons
        ∙ units_in-update shipment.id c.id (cartons_of a) waits.0 waits.2 in
      let count =
        ap (cartons_in shipment.id) t.cartons
        ∙ cartons_in-update shipment.id c.id (cartons_of a) waits.0 waits.2 in
      record {
        units = omega (int_laws, lines, parts_of_eq units, parts_of_eq whole);
        count = omega (arith, count, t.count);
      }

  line_kept :
      (j : ℕ) → is_some (find line_pk j a'.world.lines) ≡ is_some (find line_pk j a.world.lines)
  line_kept j =
      sym (find-unreserved j a'.world.lines)
      ∙ ap (λ ls. is_some (find line_pk j ls)) t.lines
      ∙ find-unreserved j (update line_pk s.line line_change a.world.lines)
      ∙ is_some-find-update line_pk j s.line line_change a.world.lines (λ _. refl)

  Takes-HasLine :
      All (HasLine a.world.lines) a.remaining → All (HasLine a'.world.lines) a'.remaining
  Takes-HasLine have =
      let moved =
        All-both (HasLine a.world.lines) (HasLine a.world.lines) (HasLine a'.world.lines)
          a.remaining (λ u h _. line_kept u.line ∙ h) have have in
      subst (All (HasLine a'.world.lines)) (sym t.left) (
        All-update slot_pk (HasLine a'.world.lines) s.product _ a.remaining
          (λ r found. find-All slot_pk (HasLine a'.world.lines) s.product a.remaining moved found)
          moved)

  Takes-Waits :
      (cs : List Carton)
      → Fresh carton_pk c.id cs
      → All (Waits (cartons_of a)) cs
      → All (Waits (cartons_of a')) cs
  Takes-Waits [] fresh w = tt
  Takes-Waits (d ∷ ds) fresh w = (
    (
      ap (find carton_pk d.id) t.cartons
          ∙ find-replace_ne carton_pk d.id c.id _ (cartons_of a) refl fresh.0
          ∙ w.0.0,
      w.0.1,
      w.0.2,
    ),
    Takes-Waits ds fresh.1 w.1,
  )

module _ (user : Option ℕ) (shipment : Shipment) where
  pub assign_cartons-Balances :
      (cs : List Carton) (a : Assigning) {a' : Assigning}
      → All (Waits (cartons_of a)) cs
      → Distinct carton_pk cs
      → All (HasLine a.world.lines) a.remaining
      → assign_cartons user shipment cs a ≡ ok a'
      → Balances shipment.id a a'
  unfolding assign_cartons
  assign_cartons-Balances [] a waits distinct have h =
      ok_transport (Balances shipment.id a) h (Balances-same shipment.id a)
  assign_cartons-Balances (c ∷ cs) a {a'} waits distinct have h =
      let o = matching_slot a.world.tables.db.stock.lots c a.remaining in
      let (a1, step, rest) = >>=-eq-ok (take_if_matching user shipment c o a) _ h in
      elim (Option-cases o) [
        | inl none_fits ↦
            let same : ok a ≡ ok a1 =
              sym (ap (λ x. take_if_matching user shipment c x a) none_fits) ∙ step in
            assign_cartons-Balances cs a {a' = a'} waits.1 distinct.1 have
              (ok_transport (λ b. assign_cartons user shipment cs b ≡ ok a') (sym same) rest)
        | inr (s, match) ↦
            let taken : take_carton user shipment c s a ≡ ok a1 =
              sym (ap (λ x. take_if_matching user shipment c x a) match) ∙ step in
            let t = take_carton-Takes user shipment c s a waits.0.1 taken in
            Balances-trans shipment.id a a1 a'
              (Takes-Balances shipment c s a a1 t match waits.0 have)
              (assign_cartons-Balances cs a1 {a' = a'}
                (Takes-Waits shipment c s a a1 t cs distinct.0 waits.1) distinct.1
                (Takes-HasLine shipment c s a a1 t have) rest)
      ]
