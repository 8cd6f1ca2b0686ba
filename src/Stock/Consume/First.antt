-- ===== src/Stock/Consume/First.antt =====
-- First expired, first out (wms/domain/stock.py, `consume_stock`), by the dates of the lots.
use asf_wms.Prelude.{
  ℕ, ◌+◌, ◌-◌, ◌<◌, min, ◌≡◌, ◌≢◌, ◌⊎◌, refl, sym, ap, ◌∙◌, inl, inr, ℤ, pos_part, Bool, true,
  false, Bool-cases, Option, none, some, Option-cases, List, [], ◌∷◌, ◌++◌, All, filter, arith, ok,
  leb,
}
use asf_wms.Prelude.Table.{find, Distinct, find-All, find-filter, filter-Distinct}
use asf_wms.Prelude.Sorted.{find_split, find_front, find-order_by}
use asf_wms.Prelude.OrderBy.{lex_le, IsOrdered, order_by-IsOrdered}
use asf_wms.Stock.Model.{ProductLot, Stock, lot_pk, available_quantity, is_available}
use asf_wms.Stock.Consume.{
  ConsumeRequest, StockConsumeResult, fefo_key, fefo_lots, is_candidate, available_total,
  consume_stock,
}
use asf_wms.Stock.Consume.Loop.{lowered, lowered_zero}
use asf_wms.Stock.Consume.Correct.{consume_stock_place, consume_stock_other_lots}

-- A date before another one; no date is later than every date.
abbrev pub ExpiresSooner : Option ℕ → Option ℕ → Type 0
ExpiresSooner none _ = ◌≡◌ {A = Bool} true false
ExpiresSooner (some d) none = Unit
ExpiresSooner (some d) (some e) = d < e

-- A date before another one; no date is earlier than every date.
abbrev pub ReceivedEarlier : Option ℕ → Option ℕ → Type 0
ReceivedEarlier _ none = ◌≡◌ {A = Bool} true false
ReceivedEarlier none (some d) = Unit
ReceivedEarlier (some d) (some e) = d < e

-- The lot `a` expires before `b`; or on the same day, and it was received before; or that too on the
-- same day, and it has the smaller key.
abbrev pub GoesFirst : ProductLot → ProductLot → Type 0
GoesFirst a b =
    ExpiresSooner a.expires_on b.expires_on
    ⊎ ((a.expires_on ≡ b.expires_on)
        × (ReceivedEarlier a.received_on b.received_on
            ⊎ ((a.received_on ≡ b.received_on) × (a.id < b.id))))

lex_refl : (xs : List ℕ) → lex_le xs xs ≡ true
lex_refl [] = refl
lex_refl (x ∷ xs) = ground (arith, lex_refl xs)

-- What comes later in the sorted list is not before.
behind_le :
    (before : List ProductLot) (b : ProductLot) (after : List ProductLot)
    → IsOrdered fefo_key (before ++ b ∷ after)
    → All (λ y. lex_le (fefo_key b) (fefo_key y) ≡ true) (b ∷ after)
behind_le [] b after h = (lex_refl (fefo_key b), h.0)
behind_le (x ∷ before) b after h = behind_le before b after h.1

sooner-lex :
    (a b : ProductLot)
    → ExpiresSooner a.expires_on b.expires_on
    → lex_le (fefo_key b) (fefo_key a) ≡ false
sooner-lex a b h = elim (Option-cases a.expires_on) [
  | inl open_ ↦ absurd (let e = rw open_ at h in cc)
  | inr (d, da) ↦ elim (Option-cases b.expires_on) [
    | inl endless ↦ rw (da, endless) refl
    | inr (e, eb) ↦ let lt : d < e = rw (da, eb) at h in rw (da, eb) (ground arith)
  ]
]

earlier-lex :
    (a b : ProductLot)
    → a.expires_on ≡ b.expires_on
    → ReceivedEarlier a.received_on b.received_on
    → lex_le (fefo_key b) (fefo_key a) ≡ false
earlier-lex a b same h = elim (Option-cases b.received_on) [
  | inl open_ ↦ absurd (let e = rw open_ at h in cc)
  | inr (e, eb) ↦ elim (Option-cases a.received_on) [
    | inl undated ↦ rw (same, undated, eb) (ground arith)
    | inr (d, da) ↦ let lt : d < e = rw (da, eb) at h in rw (same, da, eb) (ground arith)
  ]
]

GoesFirst-lex : (a b : ProductLot) → GoesFirst a b → lex_le (fefo_key b) (fefo_key a) ≡ false
GoesFirst-lex a b (inl sooner) = sooner-lex a b sooner
GoesFirst-lex a b (inr (same, inl earlier)) = earlier-lex a b same earlier
GoesFirst-lex a b (inr (same, inr (day, least))) = rw (same, day) (ground (arith, least))

available_total-append :
    (xs ys : List ProductLot) → available_total (xs ++ ys) ≡ available_total xs + available_total ys
available_total-append [] ys = omega arith
available_total-append (x ∷ xs) ys = omega (arith, available_total-append xs ys)

fefo-IsOrdered : (p : ℕ) (ls : List ProductLot) → IsOrdered fefo_key (fefo_lots p ls)
unfolding fefo_lots
fefo-IsOrdered p ls = order_by-IsOrdered fefo_key (filter (is_candidate p) ls)

fefo_find :
    (p : ℕ) (s : Stock) {l : ProductLot}
    → Distinct lot_pk s.lots
    → find lot_pk l.id s.lots ≡ some l
    → is_candidate p l ≡ true
    → find lot_pk l.id (fefo_lots p s.lots) ≡ some l
unfolding fefo_lots
fefo_find p s {l} d f c =
    find-order_by lot_pk fefo_key l.id (filter (is_candidate p) s.lots)
      (filter-Distinct lot_pk (is_candidate p) s.lots d)
      (find-filter lot_pk (is_candidate p) l.id s.lots f c)

-- In the offered order, a lot that goes first stands before.
stands_before :
    (p : ℕ) (s : Stock) {a b : ProductLot}
    → Distinct lot_pk s.lots
    → find lot_pk a.id s.lots ≡ some a
    → find lot_pk b.id s.lots ≡ some b
    → is_candidate p a ≡ true
    → is_candidate p b ≡ true
    → GoesFirst a b
    → (x y z : List ProductLot) × (fefo_lots p s.lots ≡ (x ++ a ∷ y) ++ b ∷ z)
stands_before p s {a} {b} d fa fb ca cb g =
    let ls = fefo_lots p s.lots in
    let (before, z, e) = find_split lot_pk b.id ls (fefo_find p s d fb cb) in
    elim (find_front lot_pk a.id before (b ∷ z) (rw e at (fefo_find p s d fa ca))) [
      | inl front ↦
          let (x, y, e') = find_split lot_pk a.id before front in
          (x, y, z, e ∙ ap (λ w. w ++ b ∷ z) e')
      | inr behind ↦
          let le =
            find-All lot_pk (λ y. lex_le (fefo_key b) (fefo_key y) ≡ true) a.id (b ∷ z)
              (behind_le before b z (rw e at (fefo-IsOrdered p s.lots))) behind in
          absurd (cc (le, GoesFirst-lex a b g))
    ]

append_lots : (xs ys zs : List ProductLot) → (xs ++ ys) ++ zs ≡ xs ++ (ys ++ zs)
append_lots [] ys zs = refl
append_lots (x ∷ xs) ys zs = ap (λ l. x ∷ l) (append_lots xs ys zs)

-- First expired, first out: from a table of lots with distinct keys, where a call that succeeds changes
-- a lot, every available lot of the product that goes first has given up all that it had free, and
-- nothing else of it changed. A lot goes first if it expires sooner, one without a date last; on the same
-- day, if it was received earlier, one without a date first; on the same day too, if it has the smaller
-- key.
pub consume_stock_first_expired :
    (r : ConsumeRequest) (q : ℤ) (s : Stock) {a b : ProductLot} {c : List StockConsumeResult}
    {s' : Stock}
    → Distinct lot_pk s.lots
    → consume_stock r q s ≡ ok (c, s')
    → find lot_pk a.id s.lots ≡ some a
    → find lot_pk b.id s.lots ≡ some b
    → a.product ≡ r.product
    → is_available a.status ≡ true
    → GoesFirst a b
    → find lot_pk b.id s'.lots ≢ some b
    → find lot_pk a.id s'.lots ≡ some (lowered a (pos_part (available_quantity a)))
consume_stock_first_expired r q s {a} {b} d h fa fb mine open_ g changed =
    elim (Bool-cases (is_candidate r.product b)) [
      | inr out ↦ absurd (changed (consume_stock_other_lots r q s b.id d fb out h))
      | inl cb ↦ elim (Bool-cases (is_candidate r.product a)) [
        | inr out ↦
            let nothing : pos_part (available_quantity a) ≡ 0 = ground arith in
            consume_stock_other_lots r q s a.id d fa out h
            ∙ sym (ap some (ap (lowered a) nothing ∙ lowered_zero a))
        | inl ca ↦
            let n = pos_part q in
            let (x, y, z, e) = stands_before r.product s d fa fb ca cb g in
            let at_b = consume_stock_place r q s (x ++ a ∷ y) b z d h e in
            let at_a =
              consume_stock_place r q s x a (y ++ b ∷ z) d h (e ∙ append_lots x (a ∷ y) (b ∷ z)) in
            let sum = available_total-append x (a ∷ y) in
            elim (Bool-cases (leb n (available_total (x ++ a ∷ y)))) [
              | inl all_taken ↦
                  let none_left : min (n - available_total (x ++ a ∷ y))
                        (pos_part (available_quantity b))
                      ≡ 0 =
                    ground arith in
                  absurd (changed (at_b ∙ ap some (ap (lowered b) none_left ∙ lowered_zero b)))
              | inr more ↦
                  let whole : min (n - available_total x) (pos_part (available_quantity a))
                      ≡ pos_part (available_quantity a) =
                    ground (arith, sum) in
                  at_a ∙ ap some (ap (lowered a) whole)
            ]
      ]
    ]
