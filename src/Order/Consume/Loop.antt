-- ===== src/Order/Consume/Loop.antt =====
-- The loop of `consume_reserved_stock` (wms/domain/orders.py), where the reservations of the line
-- are on different lots.
use asf_wms.Prelude.{
  ℕ, ◌+◌, ◌-◌, ◌==◌, min, ◌≡◌, refl, ap, ◌∙◌, sym, inl, inr, ℤ, pos, pos_part, ◌+ℤ◌, ◌-ℤ◌, int_laws,
  parts_of_eq, some, List, [], ◌∷◌, All, arith, Bool-cases, ok, sum_by,
}
use mathlib.Core.Path.{subst}
use asf_wms.Prelude.Table.{find, update, Fresh, Distinct, find-update_ne}
use asf_wms.Stock.{ProductLot, lot_pk, total_on_hand, Accounts}
use asf_wms.Stock.Consume.{StockConsumeResult}
use asf_wms.Stock.Consume.Loop.{Accounts-trans}
use asf_wms.Order.Model.{Store, Held, lots_reserved, line_reservations}
use asf_wms.Order.Consume.{ConsumeReserved, draw_held, draw_loop, fulfil, consume_reserved_stock}

-- The key of a joined row's lot.
abbrev pub held_lot : Held → ℕ
held_lot h = h.lot.id

-- Each lot object is the row as it stands.
abbrev pub AreCurrent : Store → List Held → Type 0
AreCurrent s hs = All (λ h. find lot_pk h.lot.id s.stock.lots ≡ some h.lot) hs

abbrev rewritten : ℤ → ℤ → ProductLot → ProductLot
rewritten q p row = record row { quantity_on_hand = q; quantity_reserved = p }

drawn-on_hand :
    (k : ℕ) (q p : ℤ) (ls : List ProductLot) {row : ProductLot}
    → find lot_pk k ls ≡ some row
    → total_on_hand (update lot_pk k (rewritten q p) ls) +ℤ row.quantity_on_hand
      ≡ total_on_hand ls +ℤ q
drawn-on_hand k q p [] h = cc
drawn-on_hand k q p (l ∷ ls) {row} h = grind (int_laws, drawn-on_hand k q p ls {row = row})

drawn-reserved :
    (k : ℕ) (q p : ℤ) (ls : List ProductLot) {row : ProductLot}
    → find lot_pk k ls ≡ some row
    → lots_reserved (update lot_pk k (rewritten q p) ls) +ℤ row.quantity_reserved
      ≡ lots_reserved ls +ℤ p
drawn-reserved k q p [] h = cc
drawn-reserved k q p (l ∷ ls) {row} h = grind (int_laws, drawn-reserved k q p ls {row = row})

-- What drawing `n` units does: the physical stock and the reserved stock fall by `n`, and the ledger
-- accounts for it.
pub record Draws (n : ℕ) (s s' : Store) : Type 0 where
  pub on_hand : total_on_hand s'.stock.lots +ℤ pos n ≡ total_on_hand s.stock.lots
  pub reserved : lots_reserved s'.stock.lots +ℤ pos n ≡ lots_reserved s.stock.lots
  pub accounts : Accounts s.stock s'.stock

Draws-trans : (m n : ℕ) (s t u : Store) → Draws m s t → Draws n t u → Draws (m + n) s u
Draws-trans m n s t u h k = record {
  on_hand = omega (int_laws, parts_of_eq h.on_hand, parts_of_eq k.on_hand);
  reserved = omega (int_laws, parts_of_eq h.reserved, parts_of_eq k.reserved);
  accounts = Accounts-trans s.stock t.stock u.stock h.accounts k.accounts;
}

Draws-none : (s : Store) → Draws 0 s s
Draws-none s = record { on_hand = omega int_laws; reserved = omega int_laws; accounts = refl }

module _ (r : ConsumeReserved) where
  pub draw_held-Draws :
      (h : Held) (n : ℕ) (s : Store)
      → find lot_pk h.lot.id s.stock.lots ≡ some h.lot
      → Draws n s (draw_held r h n s)
  unfolding draw_held
  draw_held-Draws h n s st =
      let q = h.lot.quantity_on_hand -ℤ pos n in
      let p = h.lot.quantity_reserved -ℤ pos n in
      let e = drawn-on_hand h.lot.id q p s.stock.lots st in
      let f = drawn-reserved h.lot.id q p s.stock.lots st in
      record {
        on_hand = omega (int_laws, parts_of_eq e);
        reserved = omega (int_laws, parts_of_eq f);
        accounts = omega (int_laws, parts_of_eq e);
      }

  draw_held-AreCurrent :
      (h : Held) (n : ℕ) (s : Store) (hs : List Held)
      → Fresh held_lot h.lot.id hs
      → AreCurrent s hs
      → AreCurrent (draw_held r h n s) hs
  unfolding draw_held
  draw_held-AreCurrent h n s [] f st = tt
  draw_held-AreCurrent h n s (g ∷ gs) f st = (
    find-update_ne lot_pk g.lot.id h.lot.id _ s.stock.lots (λ _. refl) f.0 ∙ st.0,
    draw_held-AreCurrent h n s gs f.1 st.1,
  )

  -- The loop draws what it does not leave.
  pub draw_loop-sum :
      (hs : List Held) (n : ℕ) (s : Store)
      → let d = draw_loop r hs n s in sum_by (λ e. e.quantity) d.consumed + d.remaining ≡ n
  unfolding draw_loop
  draw_loop-sum [] n s = omega arith
  draw_loop-sum (h ∷ hs) n s =
      let m = min n h.reservation.quantity in
      ground (arith, draw_loop-sum hs n s, draw_loop-sum hs (n - m) (draw_held r h m s))

  pub draw_loop-Draws :
      (hs : List Held) (n : ℕ) (s : Store)
      → Distinct held_lot hs
      → AreCurrent s hs
      → let d = draw_loop r hs n s in (k : ℕ) × (k + d.remaining ≡ n) × Draws k s d.store
  unfolding draw_loop
  draw_loop-Draws [] n s d st = (0, omega arith, Draws-none s)
  draw_loop-Draws (h ∷ hs) n s d st =
      let m = min n h.reservation.quantity in
      let s1 = draw_held r h m s in
      elim (Bool-cases (n == 0)) [
        | inl done ↦ rw done (0, omega arith, Draws-none s)
        | inr more ↦ elim (Bool-cases (m == 0)) [
          | inl nothing ↦ rw (more, nothing) (draw_loop-Draws hs n s d.1 st.1)
          | inr taken ↦
              let (k, left, rest) =
                draw_loop-Draws hs (n - m) s1 d.1 (draw_held-AreCurrent h m s hs d.0 st.1) in
              rw (more, taken)
                (
                  m + k,
                  omega (arith, left),
                  Draws-trans m k s s1 (draw_loop r hs (n - m) s1).store
                      (draw_held-Draws h m s st.0) rest,
                )
        ]
      ]

  -- If the reservations of the line are on different lots, a consumption that succeeds lowers the
  -- physical and the reserved stock by the quantity asked for, the ledger accounts for it, and the
  -- quantities that it returns add up to it.
  pub consume_reserved_stock-Draws :
      (q : ℤ) (s : Store) {c : List StockConsumeResult} {s' : Store}
      → Distinct held_lot (line_reservations r.line s)
      → AreCurrent s (line_reservations r.line s)
      → consume_reserved_stock r q s ≡ ok (c, s')
      → Draws (pos_part q) s s' × (pos (sum_by (λ e. e.quantity) c) ≡ q)
  unfolding consume_reserved_stock
  consume_reserved_stock-Draws q s {c} {s'} d st h =
      let hs = line_reservations r.line s in
      let out = draw_loop r hs (pos_part q) s in
      let all_drawn : out.remaining ≡ 0 = ground arith in
      let (k, left, draws) = draw_loop-Draws hs (pos_part q) s d st in
      let same : k ≡ pos_part q = omega (arith, left, all_drawn) in
      let store : fulfil r.line (pos_part q) out.store ≡ s' = ground arith in
      let draws' = subst (λ j. Draws j s out.store) same draws in
      let total = draw_loop-sum hs (pos_part q) s in
      let returned : out.consumed ≡ c = ground arith in
      let positive : q ≡ pos (pos_part q) = ground arith in
      (
        rw (← store) (record {
          on_hand = draws'.on_hand;
          reserved = draws'.reserved;
          accounts = draws'.accounts;
        }),
        ap (λ x. pos (sum_by (λ (u : StockConsumeResult). u.quantity) x)) (sym returned)
            ∙ ap pos (omega (arith, total, all_drawn))
            ∙ sym positive,
      )
