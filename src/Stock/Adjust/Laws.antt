-- ===== src/Stock/Adjust/Laws.antt =====
-- What a correction or a move of a lot keeps (wms/domain/stock.py).
use asf_wms.Prelude.{
  ℕ, zero, suc, negsuc, ◌+◌, ◌≡◌, ◌≢◌, ◌↔◌, ◌⊎◌, refl, ap, ℤ, pos, pos_part, neg_part, ◌-ℤ◌, ◌+ℤ◌,
  ◌≤ℤ◌, ltb_ℤ, int_laws, parts_of_eq, Option, none, some, List, [], ◌∷◌, All, arith, is_some,
  if◌then◌else◌, ok,
}
use asf_wms.Prelude.Table.{find, update, find-update_self, All-update, find-All}
use asf_wms.Prelude.Int.{eq_of_parts}
use asf_wms.Stock.Model.{Text, ProductLot, Stock, lot_pk, total_on_hand, ledger_total, Accounts}
use asf_wms.Stock.Consume.Loop.{total-update}
use asf_wms.Stock.Consume.Places.{IsSound}
use asf_wms.Stock.Adjust.{abs, write_adjustment, adjust_stock, write_transfer, transfer_stock}

-- The ledger entry of a correction stands for the correction.
entry_effect :
    (delta : ℤ) (place : ℕ)
    → (if is_some (if ltb_ℤ (pos 0) delta then some place else none) then abs delta else pos 0)
        -ℤ (if is_some (if ltb_ℤ delta (pos 0) then some place else none) then abs delta else pos 0)
      ≡ delta
unfolding ◌-ℤ◌
entry_effect (pos zero) place = refl
entry_effect (pos (suc n)) place = ground arith
entry_effect (negsuc n) place = ground arith

nonzero_parts : {a : ℤ} → a ≢ pos 0 → pos_part a + neg_part (pos 0) ≢ pos_part (pos 0) + neg_part a
nonzero_parts {a} h e = h (eq_of_parts a (pos 0) e)

module _ (user : Option ℕ) (lot : ProductLot) (delta : ℤ) (code notes : Text) (s : Stock) where
  pub adjust_ok :
      {lot' : ProductLot} {s' : Stock}
      → adjust_stock user lot delta code notes s ≡ ok (lot', s')
      → (lot' ≡ record lot { quantity_on_hand = lot.quantity_on_hand +ℤ delta })
        × (s'.lots
            ≡ update lot_pk lot.id
                (λ r. record r { quantity_on_hand = lot.quantity_on_hand +ℤ delta })
                s.lots)
        × (ledger_total s'.movements ≡ delta +ℤ ledger_total s.movements)
        × (pos 0 ≤ℤ (lot.quantity_on_hand +ℤ delta))
        × ((pos 0 ≤ℤ delta) ⊎ (lot.quantity_reserved ≤ℤ (lot.quantity_on_hand +ℤ delta)))
  unfolding adjust_stock write_adjustment
  adjust_ok h = ground (arith, entry_effect delta lot.location)

  -- A correction is accepted exactly when it is not zero, leaves no negative stock, and, if it takes
  -- stock away, leaves what is reserved.
  pub adjust_stock-ok_iff :
      ((t : ProductLot × Stock) × (adjust_stock user lot delta code notes s ≡ ok t)) ↔ (
        (delta ≢ pos 0)
        × (pos 0 ≤ℤ (lot.quantity_on_hand +ℤ delta))
        × ((pos 0 ≤ℤ delta) ⊎ (lot.quantity_reserved ≤ℤ (lot.quantity_on_hand +ℤ delta))))
  unfolding adjust_stock
  adjust_stock-ok_iff = (
    λ (t, h). (λ z. ground (arith, h, z), ground (arith, h), ground (arith, h)),
    λ (nonzero, nonneg, kept). (
      write_adjustment user lot delta code notes s,
      ground (arith, nonneg, kept, nonzero_parts nonzero),
    ),
  )

  -- A correction of a stored lot that is accepted changes the physical stock by `delta`, enters just
  -- that in the ledger, and keeps every lot free of negative or over-reserved quantities.
  pub adjust_stock-Accounts :
      {lot' : ProductLot} {s' : Stock}
      → find lot_pk lot.id s.lots ≡ some lot
      → All IsSound s.lots
      → adjust_stock user lot delta code notes s ≡ ok (lot', s')
      → (total_on_hand s'.lots ≡ total_on_hand s.lots +ℤ delta)
        × Accounts s s'
        × All IsSound s'.lots
        × (find lot_pk lot.id s'.lots ≡ some lot')
  adjust_stock-Accounts st sound h =
      let (el, es, em, nonneg, kept) = adjust_ok h in
      let q = lot.quantity_on_hand +ℤ delta in
      let total = rw (← es) at (total-update lot.id q s.lots st) in
      let mine = find-All lot_pk IsSound lot.id s.lots sound st in
      (
        omega (int_laws, parts_of_eq total),
        omega (int_laws, parts_of_eq total, parts_of_eq em),
        rw es (
            All-update lot_pk IsSound lot.id _ s.lots
              (λ row e. let same : lot ≡ row = cc in rw (← same) (omega (int_laws, mine, kept)))
              sound),
        rw (es, el) (find-update_self lot_pk lot.id _ s.lots refl st),
      )

total-relocate :
    (k place : ℕ) (ls : List ProductLot)
    → total_on_hand (update lot_pk k (λ r. record r { location = place }) ls) ≡ total_on_hand ls
total-relocate k place [] = refl
total-relocate k place (l ∷ ls) = ground (arith, total-relocate k place ls)

relocate_back :
    (l : ProductLot) (place : ℕ) (ls : List ProductLot)
    → find lot_pk l.id ls ≡ some l
    → update lot_pk l.id
        (λ r. record r { location = l.location })
        (update lot_pk l.id (λ r. record r { location = place }) ls)
      ≡ ls
relocate_back l place [] h = refl
relocate_back l place (x ∷ ls) h = ground (arith, relocate_back l place ls)

module _ (user : Option ℕ) (lot : ProductLot) (place : ℕ) (s : Stock) where
  pub transfer_ok :
      {lot' : ProductLot} {s' : Stock}
      → transfer_stock user lot place s ≡ ok (lot', s')
      → (lot' ≡ record lot { location = place })
        × (s'.lots ≡ update lot_pk lot.id (λ r. record r { location = place }) s.lots)
        × (ledger_total s'.movements
            ≡ (lot.quantity_on_hand -ℤ lot.quantity_on_hand) +ℤ ledger_total s.movements)
        × (lot.location ≢ place)
  unfolding transfer_stock write_transfer
  transfer_ok h = ground arith

  -- A move of a stored lot that is accepted keeps every quantity and balances in the ledger; to move
  -- the lot back is accepted too and restores the table of lots.
  pub transfer_stock_back :
      {lot' : ProductLot} {s' : Stock}
      → find lot_pk lot.id s.lots ≡ some lot
      → transfer_stock user lot place s ≡ ok (lot', s')
      → (total_on_hand s'.lots ≡ total_on_hand s.lots)
        × Accounts s s'
        × ((t : ProductLot × Stock) × (transfer_stock user lot' lot.location s' ≡ ok t)
            × (t.0 ≡ lot)
            × (t.1.lots ≡ s.lots))
  unfolding transfer_stock write_transfer
  transfer_stock_back {lot'} {s'} st h =
      let (el, es, em, ne) = transfer_ok h in
      (
        rw es (total-relocate lot.id place s.lots),
        rw es (rw (total-relocate lot.id place s.lots) (omega (int_laws, parts_of_eq em))),
        (
          write_transfer user lot' lot.location s',
          ground (arith, ap (λ (l : ProductLot). l.location) el),
          ap (λ (l : ProductLot). record l { location = lot.location }) el,
          rw (es, el) (relocate_back lot place s.lots st),
        ),
      )
