-- ===== src/Order/Release/Laws.antt =====
-- What the release of reserved stock gives back (wms/domain/orders.py, `release_reserved_stock`).
use asf_wms.Prelude.{
  ℕ, ◌+◌, ◌-◌, ◌≤◌, ◌==◌, min, leb, ◌≡◌, ◌≢◌, refl, ◌∙◌, inl, inr, ℤ, pos, ◌+ℤ◌, ◌-ℤ◌, ◌≤ℤ◌,
  int_laws, parts_of_eq, some, List, [], ◌∷◌, All, arith, Bool-cases, ok,
}
use mathlib.Core.Path.{subst}
use asf_wms.Prelude.Table.{find, update, delete, Fresh, Distinct, find-update_ne}
use asf_wms.Stock.{lot_pk, total_on_hand}
use asf_wms.Order.Model.{
  OrderLine, OrderReservation, Store, Held, reservation_pk, lots_reserved, reservations_total,
  line_reservations,
}
use asf_wms.Order.Reserve.Loop.{lots_reserved-update}
use asf_wms.Order.Release.{
  settle, at_least_zero, release_held, release_loop, release_reserved_stock,
}

abbrev pub held_lot_key : Held → ℕ
held_lot_key h = h.lot.id

abbrev pub held_reservation_key : Held → ℕ
held_reservation_key h = h.reservation.id

-- The joined row is as the tables have it, and its lot has reserved at least what it holds.
abbrev pub IsOpen : Store → Held → Type 0
IsOpen s h =
    (find lot_pk h.lot.id s.stock.lots ≡ some h.lot)
    × (find reservation_pk h.reservation.id s.reservations ≡ some h.reservation)
    × (pos h.reservation.quantity ≤ℤ h.lot.quantity_reserved)

-- What the release of `n` units does: the reserved stock and the reservations fall by `n`, and the
-- physical stock is as before.
pub record Releases (n : ℕ) (s s' : Store) : Type 0 where
  pub on_lots : lots_reserved s'.stock.lots +ℤ pos n ≡ lots_reserved s.stock.lots
  pub on_reservations : reservations_total s'.reservations + n ≡ reservations_total s.reservations
  pub on_hand : total_on_hand s'.stock.lots ≡ total_on_hand s.stock.lots

Releases-trans : (m n : ℕ) (s t u : Store) → Releases m s t → Releases n t u → Releases (m + n) s u
Releases-trans m n s t u h k = record {
  on_lots = omega (int_laws, parts_of_eq h.on_lots, parts_of_eq k.on_lots);
  on_reservations = omega (arith, h.on_reservations, k.on_reservations);
  on_hand = k.on_hand ∙ h.on_hand;
}

Releases-none : (s : Store) → Releases 0 s s
Releases-none s = record { on_lots = omega int_laws; on_reservations = omega arith; on_hand = refl }

reservations_total-delete :
    (k : ℕ) (rs : List OrderReservation) {r : OrderReservation}
    → find reservation_pk k rs ≡ some r
    → reservations_total (delete reservation_pk k rs) + r.quantity ≡ reservations_total rs
reservations_total-delete k [] h = cc
reservations_total-delete k (x ∷ rs) {r} h = ground (arith, reservations_total-delete k rs {r = r})

reservations_total-update :
    (k m : ℕ) (rs : List OrderReservation) {r : OrderReservation}
    → find reservation_pk k rs ≡ some r
    → reservations_total (update reservation_pk k (λ row. record row { quantity = m }) rs)
        + r.quantity
      ≡ reservations_total rs + m
reservations_total-update k m [] h = cc
reservations_total-update k m (x ∷ rs) {r} h =
    ground (arith, reservations_total-update k m rs {r = r})

settle-total :
    (r : OrderReservation) (n : ℕ) (rs : List OrderReservation)
    → n ≤ r.quantity
    → find reservation_pk r.id rs ≡ some r
    → reservations_total (settle r n rs) + n ≡ reservations_total rs
unfolding settle
settle-total r n rs le h = ground (
  arith,
  reservations_total-delete r.id rs h,
  reservations_total-update r.id (r.quantity - n) rs h,
)

find-delete_ne :
    (j k : ℕ) (rs : List OrderReservation)
    → j ≢ k
    → find reservation_pk j (delete reservation_pk k rs) ≡ find reservation_pk j rs
find-delete_ne j k [] ne = refl
find-delete_ne j k (x ∷ rs) ne = ground (arith, find-delete_ne j k rs ne)

find-settle :
    (j : ℕ) (r : OrderReservation) (n : ℕ) (rs : List OrderReservation)
    → j ≢ r.id
    → find reservation_pk j (settle r n rs) ≡ find reservation_pk j rs
unfolding settle
find-settle j r n rs ne = elim (Bool-cases (leb r.quantity n)) [
  | inl used ↦ rw used (find-delete_ne j r.id rs ne)
  | inr left ↦ rw left (find-update_ne reservation_pk j r.id _ rs (λ _. refl) ne)
]

at_least_zero_exact : (a : ℤ) (n : ℕ) → pos n ≤ℤ a → at_least_zero (a -ℤ pos n) ≡ a -ℤ pos n
unfolding ◌-ℤ◌
at_least_zero_exact a n h = ground arith

release_held-Releases :
    (h : Held) (n : ℕ) (s : Store)
    → n ≤ h.reservation.quantity
    → IsOpen s h
    → Releases n s (release_held h n s)
unfolding release_held
release_held-Releases h n s le (lot, reservation, covered) =
    let q = at_least_zero (h.lot.quantity_reserved -ℤ pos n) in
    let exact : q ≡ h.lot.quantity_reserved -ℤ pos n =
      at_least_zero_exact h.lot.quantity_reserved n (omega (arith, le, covered)) in
    let (moved, kept) = lots_reserved-update h.lot.id q s.stock.lots lot in
    record {
      on_lots = omega (int_laws, parts_of_eq moved, parts_of_eq exact);
      on_reservations = settle-total h.reservation n s.reservations le reservation;
      on_hand = kept;
    }

release_held-IsOpen :
    (h : Held) (n : ℕ) (s : Store) (hs : List Held)
    → Fresh held_lot_key h.lot.id hs
    → Fresh held_reservation_key h.reservation.id hs
    → All (IsOpen s) hs
    → All (IsOpen (release_held h n s)) hs
unfolding release_held
release_held-IsOpen h n s [] f g o = tt
release_held-IsOpen h n s (x ∷ hs) f g ((lot, reservation, covered), o) = (
  (
    find-update_ne lot_pk x.lot.id h.lot.id _ s.stock.lots (λ _. refl) f.0 ∙ lot,
    find-settle x.reservation.id h.reservation n s.reservations g.0 ∙ reservation,
    covered,
  ),
  release_held-IsOpen h n s hs f.1 g.1 o,
)

release_loop-Releases :
    (hs : List Held) (n : ℕ) (s : Store)
    → Distinct held_lot_key hs
    → Distinct held_reservation_key hs
    → All (IsOpen s) hs
    → let d = release_loop hs n s in (k : ℕ) × (k + d.0 ≡ n) × Releases k s d.1
unfolding release_loop
release_loop-Releases [] n s d e o = (0, omega arith, Releases-none s)
release_loop-Releases (h ∷ hs) n s d e o =
    let m = min n h.reservation.quantity in
    let s1 = release_held h m s in
    elim (Bool-cases (n == 0)) [
      | inl done ↦ rw done (0, omega arith, Releases-none s)
      | inr more ↦
          let (k, left, rest) =
            release_loop-Releases hs (n - m) s1 d.1 e.1
              (release_held-IsOpen h m s hs d.0 e.0 o.1) in
          rw more (
            m + k,
            omega (arith, left),
            Releases-trans m k s s1 (release_loop hs (n - m) s1).1
                (release_held-Releases h m s (omega arith) o.0) rest,
          )
    ]

-- If the reservations of the line are on different lots that have reserved as much, a release that
-- succeeds lowers the reserved stock and the reservations by just the quantity asked for, and leaves
-- the physical stock.
pub release_reserved_stock-Releases :
    (line : OrderLine) (n : ℕ) (s : Store) {s' : Store}
    → Distinct held_lot_key (line_reservations line s)
    → Distinct held_reservation_key (line_reservations line s)
    → All (IsOpen s) (line_reservations line s)
    → release_reserved_stock line n s ≡ ok s'
    → Releases n s s'
unfolding release_reserved_stock
release_reserved_stock-Releases line n s {s'} d e o h =
    let hs = line_reservations line s in
    let out = release_loop hs n s in
    elim (Bool-cases (n == 0)) [
      | inl nothing ↦
          let zero : n ≡ 0 = ground arith in
          let same : s ≡ s' = ground arith in rw (← same, zero) (Releases-none s)
      | inr some_units ↦
          let all_released : out.0 ≡ 0 = ground arith in
          let (k, left, released) = release_loop-Releases hs n s d e o in
          let all_of_it : k ≡ n = omega (arith, left, all_released) in
          let stock : out.1.stock ≡ s'.stock = ground arith in
          let reservations : out.1.reservations ≡ s'.reservations = ground arith in
          let exactly = subst (λ j. Releases j s out.1) all_of_it released in
          rw (← stock, ← reservations)
            (record {
              on_lots = exactly.on_lots;
              on_reservations = exactly.on_reservations;
              on_hand = exactly.on_hand;
            })
    ]
