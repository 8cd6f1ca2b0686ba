-- ===== src/Stock/Consume/Places.antt =====
-- Which lot gives up how much in `consume_stock` (wms/domain/stock.py), and what the loop keeps.
use asf_wms.Prelude.{
  ℕ, ◌-◌, ◌≤◌, min, ◌≡◌, refl, ap, ◌∙◌, pos, pos_part, ◌≤ℤ◌, int_laws, parts_exclusive, some, List,
  [], ◌∷◌, ◌++◌, All, All-middle, arith,
}
use asf_wms.Prelude.Table.{find, Distinct, All-update, find-All, update-Distinct}
use asf_wms.Stock.Model.{ProductLot, Stock, lot_pk, available_quantity}
use asf_wms.Stock.Consume.{ConsumeRequest, take_from_lot, consume_loop, available_total}
use asf_wms.Stock.Consume.Loop.{
  AreStored, lowered, minus_zero, take-find_self, take-AreStored, loop-find-Fresh,
}

-- No negative quantity, and no more reserved than there is.
abbrev pub IsSound : ProductLot → Type 0
IsSound l = (pos 0 ≤ℤ l.quantity_reserved) × (l.quantity_reserved ≤ℤ l.quantity_on_hand)

module _ (r : ConsumeRequest) where
  first_place :
      (l : ProductLot) (after : List ProductLot) (n : ℕ) (s : Stock)
      → Distinct lot_pk (l ∷ after)
      → AreStored s (l ∷ after)
      → find lot_pk l.id (consume_loop r (l ∷ after) n s).1.lots
        ≡ some (lowered l (min n (pos_part (available_quantity l))))
  unfolding consume_loop
  first_place l after n s d st =
      let m = min n (pos_part (available_quantity l)) in
      ground (
        arith,
        minus_zero l.quantity_on_hand,
        loop-find-Fresh r l.id after n s d.0,
        loop-find-Fresh r l.id after (n - m) (take_from_lot r l m s) d.0,
        take-find_self r l m s st.0,
      )

  -- The lot behind others gives up what these leave to take, as far as it has it.
  pub loop-place :
      (before : List ProductLot) (l : ProductLot) (after : List ProductLot) (n : ℕ) (s : Stock)
      → Distinct lot_pk (before ++ l ∷ after)
      → AreStored s (before ++ l ∷ after)
      → find lot_pk l.id (consume_loop r (before ++ l ∷ after) n s).1.lots
        ≡ some (lowered l (min (n - available_total before) (pos_part (available_quantity l))))
  unfolding consume_loop
  loop-place [] l after n s d st =
      first_place l after n s d st ∙ ap (λ k. some (lowered l k)) (omega arith)
  loop-place (b ∷ before) l after n s d st =
      let m = min n (pos_part (available_quantity b)) in
      ground (
        arith,
        minus_zero l.quantity_on_hand,
        All-middle (λ x. find lot_pk x.id s.lots ≡ some x) before l after st.1,
        loop-place before l after n s d.1 st.1,
        loop-place before l after (n - m) (take_from_lot r b m s) d.1,
        take-AreStored r b m s (before ++ l ∷ after) d.0 st.1,
      )

  take-IsSound :
      (l : ProductLot) (n : ℕ) (s : Stock)
      → n ≤ pos_part (available_quantity l)
      → find lot_pk l.id s.lots ≡ some l
      → All IsSound s.lots
      → All IsSound (take_from_lot r l n s).lots
  unfolding take_from_lot
  take-IsSound l n s h st all =
      let sound = find-All lot_pk IsSound l.id s.lots all st in
      All-update lot_pk IsSound l.id _ s.lots
        (λ row e.
          let same : l ≡ row = cc in
          rw (← same) (omega (int_laws, parts_exclusive (available_quantity l))))
        all

  take-Distinct :
      (l : ProductLot) (n : ℕ) (s : Stock)
      → Distinct lot_pk s.lots
      → Distinct lot_pk (take_from_lot r l n s).lots
  unfolding take_from_lot
  take-Distinct l n s d = update-Distinct lot_pk l.id _ s.lots (λ _. refl) d

  pub loop-IsSound :
      (ls : List ProductLot) (n : ℕ) (s : Stock)
      → Distinct lot_pk ls
      → AreStored s ls
      → All IsSound s.lots
      → All IsSound (consume_loop r ls n s).1.lots
  unfolding consume_loop
  loop-IsSound [] n s d st h = h
  loop-IsSound (l ∷ ls) n s d st h =
      let m = min n (pos_part (available_quantity l)) in
      ground (
        arith,
        h,
        loop-IsSound ls n s d.1 st.1 h,
        loop-IsSound ls (n - m) (take_from_lot r l m s) d.1 (take-AreStored r l m s ls d.0 st.1)
            (take-IsSound l m s (omega arith) st.0 h),
      )

  pub loop-Distinct :
      (ls : List ProductLot) (n : ℕ) (s : Stock)
      → Distinct lot_pk s.lots
      → Distinct lot_pk (consume_loop r ls n s).1.lots
  unfolding consume_loop
  loop-Distinct [] n s d = d
  loop-Distinct (l ∷ ls) n s d =
      let m = min n (pos_part (available_quantity l)) in
      ground (
        arith,
        d,
        loop-Distinct ls n s d,
        loop-Distinct ls (n - m) (take_from_lot r l m s) (take-Distinct l m s d),
      )
