-- ===== src/Stock/Consume/Loop.antt =====
-- The loop of `consume_stock` (wms/domain/stock.py), over lots that stand in the table.
use asf_wms.Prelude.{
  ℕ, ◌-◌, ◌≤◌, min, ◌≡◌, ◌≢◌, refl, ap, sym, ℤ, pos, pos_part, ◌+ℤ◌, ◌-ℤ◌, int_laws, parts_of_eq,
  some, List, [], ◌∷◌, All, sum_by, arith,
}
use asf_wms.Prelude.Table.{
  find, update, Fresh, Distinct, find-update_ne, find-update_self, update-found,
}
use asf_wms.Stock.Model.{ProductLot, Stock, lot_pk, available_quantity, total_on_hand, Accounts}
use asf_wms.Stock.Consume.{ConsumeRequest, take_from_lot, consume_loop, available_total}

-- Every lot of the list is a row of the table as it stands.
abbrev pub AreStored : Stock → List ProductLot → Type 0
AreStored s ls = All (λ l. find lot_pk l.id s.lots ≡ some l) ls

-- A lot with its quantity on hand lowered.
abbrev pub lowered : ProductLot → ℕ → ProductLot
lowered l n = record l { quantity_on_hand = l.quantity_on_hand -ℤ pos n }

pub minus_zero : (a : ℤ) → a -ℤ pos 0 ≡ a
minus_zero a = omega int_laws

pub lowered_zero : (l : ProductLot) → lowered l 0 ≡ l
lowered_zero l = ap (λ q. record l { quantity_on_hand = q }) (minus_zero l.quantity_on_hand)

-- The table after a write that sets the quantity of one stored lot.
pub total-update :
    (k : ℕ) (q : ℤ) (ls : List ProductLot) {row : ProductLot}
    → find lot_pk k ls ≡ some row
    → total_on_hand (update lot_pk k (λ r. record r { quantity_on_hand = q }) ls)
        +ℤ row.quantity_on_hand
      ≡ total_on_hand ls +ℤ q
total-update k q [] h = cc
total-update k q (l ∷ ls) {row} h = grind (int_laws, total-update k q ls {row = row})

pub Accounts-trans : (s t u : Stock) → Accounts s t → Accounts t u → Accounts s u
Accounts-trans s t u h k = omega (int_laws, parts_of_eq h, parts_of_eq k)

module _ (r : ConsumeRequest) where
  take-find_ne :
      (j : ℕ) (l : ProductLot) (n : ℕ) (s : Stock)
      → l.id ≢ j
      → find lot_pk j (take_from_lot r l n s).lots ≡ find lot_pk j s.lots
  unfolding take_from_lot
  take-find_ne j l n s h = find-update_ne lot_pk j l.id _ s.lots (λ _. refl) (λ e. h (sym e))

  pub take-find_self :
      (l : ProductLot) (n : ℕ) (s : Stock)
      → find lot_pk l.id s.lots ≡ some l
      → find lot_pk l.id (take_from_lot r l n s).lots ≡ some (lowered l n)
  unfolding take_from_lot
  take-find_self l n s h = find-update_self lot_pk l.id _ s.lots refl h

  pub take-AreStored :
      (l : ProductLot) (n : ℕ) (s : Stock) (ls : List ProductLot)
      → Fresh lot_pk l.id ls
      → AreStored s ls
      → AreStored (take_from_lot r l n s) ls
  unfolding take_from_lot
  take-AreStored l n s ls f h = update-found lot_pk l.id _ s.lots ls (λ _. refl) f h

  take-total :
      (l : ProductLot) (n : ℕ) (s : Stock)
      → find lot_pk l.id s.lots ≡ some l
      → total_on_hand (take_from_lot r l n s).lots +ℤ pos n ≡ total_on_hand s.lots
  unfolding take_from_lot
  take-total l n s h =
      omega (int_laws, parts_of_eq (total-update l.id (l.quantity_on_hand -ℤ pos n) s.lots h))

  -- Rows that are not in the list keep their contents.
  pub loop-find-Fresh :
      (j : ℕ) (ls : List ProductLot) (n : ℕ) (s : Stock)
      → Fresh lot_pk j ls
      → find lot_pk j (consume_loop r ls n s).1.lots ≡ find lot_pk j s.lots
  unfolding consume_loop
  loop-find-Fresh j [] n s f = refl
  loop-find-Fresh j (l ∷ ls) n s f =
      let m = min n (pos_part (available_quantity l)) in
      ground (
        arith,
        loop-find-Fresh j ls n s f.1,
        loop-find-Fresh j ls (n - m) (take_from_lot r l m s) f.1,
        take-find_ne j l m s f.0,
      )

  -- With enough stock in the list, the loop takes what was asked for.
  pub loop-sum :
      (ls : List ProductLot) (n : ℕ) (s : Stock)
      → n ≤ available_total ls
      → sum_by (λ c. c.quantity) (consume_loop r ls n s).0 ≡ n
  unfolding consume_loop
  loop-sum [] n s h = omega arith
  loop-sum (l ∷ ls) n s h =
      let m = min n (pos_part (available_quantity l)) in
      ground (arith, loop-sum ls n s, loop-sum ls (n - m) (take_from_lot r l m s))

  -- The physical stock falls by exactly what was asked for.
  pub loop-total :
      (ls : List ProductLot) (n : ℕ) (s : Stock)
      → n ≤ available_total ls
      → Distinct lot_pk ls
      → AreStored s ls
      → total_on_hand (consume_loop r ls n s).1.lots +ℤ pos n ≡ total_on_hand s.lots
  unfolding consume_loop
  loop-total [] n s h d st = omega int_laws
  loop-total (l ∷ ls) n s h d st =
      let m = min n (pos_part (available_quantity l)) in
      grind (
        int_laws,
        loop-total ls n s,
        loop-total ls (n - m) (take_from_lot r l m s),
        take-AreStored l m s ls d.0 st.1,
        take-total l m s st.0,
      )

  take-Accounts :
      (l : ProductLot) (n : ℕ) (s : Stock)
      → find lot_pk l.id s.lots ≡ some l
      → Accounts s (take_from_lot r l n s)
  unfolding take_from_lot
  take-Accounts l n s h =
      omega (int_laws, parts_of_eq (total-update l.id (l.quantity_on_hand -ℤ pos n) s.lots h))

  -- The ledger accounts for what the loop takes.
  pub loop-Accounts :
      (ls : List ProductLot) (n : ℕ) (s : Stock)
      → Distinct lot_pk ls
      → AreStored s ls
      → Accounts s (consume_loop r ls n s).1
  unfolding consume_loop
  loop-Accounts [] n s d st = refl
  loop-Accounts (l ∷ ls) n s d st =
      let m = min n (pos_part (available_quantity l)) in
      ground (
        arith,
        loop-Accounts ls n s d.1 st.1,
        Accounts-trans s (take_from_lot r l m s)
            (consume_loop r ls (n - m) (take_from_lot r l m s)).1 (take-Accounts l m s st.0)
            (loop-Accounts ls (n - m) (take_from_lot r l m s) d.1
              (take-AreStored l m s ls d.0 st.1)),
      )
