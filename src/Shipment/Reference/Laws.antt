-- ===== src/Shipment/Reference/Laws.antt =====
-- References do not repeat (wms/reference_sequences.py), and what the saving of a shipment keeps.
use asf_wms.Prelude.{
  ℕ, suc, ◌≤◌, true, some, List, [], ◌∷◌, ◌++◌, ◌≡◌, ◌≢◌, refl, inl, inr, Bool-cases, All, arith,
  if◌then◌else◌,
}
use asf_wms.Prelude.Table.{find, find-update_self, All-update}
use asf_wms.Text.{padded}
use asf_wms.Text.Decimal.{padded-injective}
use asf_wms.Rows.{Shipment, ShipmentSequence, Db, Clock, shipment_pk, sequence_pk}
use asf_wms.Shipment.Reference.{
  year_prefix, format_reference, next_number, store_number, generate_shipment_reference,
  needs_reference, save_shipment,
}

append-injective : {A : Type 0} (xs ys zs : List A) → xs ++ ys ≡ xs ++ zs → ys ≡ zs
append-injective [] ys zs h = h
append-injective (x ∷ xs) ys zs h = append-injective xs ys zs (cc)

format_reference-injective :
    (year n m : ℕ) → format_reference year n ≡ format_reference year m → n ≡ m
unfolding format_reference
format_reference-injective year n m h =
    padded-injective 4 n m (append-injective (year_prefix year) (padded 4 n) (padded 4 m) h)

-- No shipment has a reference of the year with a number above `n`.
abbrev pub IsCovered : ℕ → ℕ → List Shipment → Type 0
IsCovered year n ss =
    All (λ (s : Shipment). (k : ℕ) → s.reference ≡ format_reference year k → k ≤ n) ss

IsCovered-Fresh :
    (year n : ℕ) (ss : List Shipment)
    → IsCovered year n ss
    → All (λ s. s.reference ≢ format_reference year (suc n)) ss
IsCovered-Fresh year n [] h = tt
IsCovered-Fresh year n (s ∷ ss) h = (
  λ e. absurd (let bad : suc n ≤ n = h.0 (suc n) e in omega arith),
  IsCovered-Fresh year n ss h.1,
)

IsCovered-suc : (year n : ℕ) (ss : List Shipment) → IsCovered year n ss → IsCovered year (suc n) ss
IsCovered-suc year n [] h = tt
IsCovered-suc year n (s ∷ ss) h =
    (λ k e. let low : k ≤ n = h.0 k e in omega arith, IsCovered-suc year n ss h.1)

find-store_number :
    (year n : ℕ) (qs : List ShipmentSequence)
    → find sequence_pk year (store_number year n qs)
      ≡ some (record { year = year; last_number = n })
unfolding store_number
find-store_number year n [] = ground arith
find-store_number year n (q ∷ qs) = ground (arith, find-store_number year n qs)

-- The row that `save_shipment` stores.
pub saved : Clock → Shipment → Db → Shipment
saved clock s db =
    if needs_reference s
    then record s { reference = (generate_shipment_reference clock db).0 }
    else s

pub save-lem :
    (clock : Clock) (s : Shipment) (db : Db) {old : Shipment}
    → find shipment_pk s.id db.shipments ≡ some old
    → (find shipment_pk s.id (save_shipment clock s db).shipments ≡ some (saved clock s db))
      × ((save_shipment clock s db).cartons ≡ db.cartons)
unfolding save_shipment saved generate_shipment_reference
save-lem clock s db st = elim (Bool-cases (needs_reference s)) [
  | inl new ↦ rw new (find-update_self shipment_pk s.id _ db.shipments refl st, refl)
  | inr old ↦ rw old (find-update_self shipment_pk s.id _ db.shipments refl st, refl)
]

module _ (clock : Clock) (s : Shipment) (db : Db) where
  -- Where the year has a sequence and no reference of the year is above its number, a stored shipment
  -- that is saved and needs a reference is then stored with the year's next one, which no shipment had
  -- before; the sequence goes on by one and again no reference of the year is above its number.
  pub save_shipment-fresh :
      {q : ShipmentSequence} {old : Shipment}
      → find shipment_pk s.id db.shipments ≡ some old
      → find sequence_pk clock.year db.shipment_sequences ≡ some q
      → IsCovered clock.year q.last_number db.shipments
      → needs_reference s ≡ true
      → let db' = save_shipment clock s db in
        ((row : Shipment) × (find shipment_pk s.id db'.shipments ≡ some row)
          × (row.reference ≡ format_reference clock.year (suc q.last_number))
          × All (λ t. t.reference ≢ row.reference) db.shipments)
        × (find sequence_pk clock.year db'.shipment_sequences
            ≡ some (record { year = clock.year; last_number = suc q.last_number }))
        × IsCovered clock.year (suc q.last_number) db'.shipments
  unfolding save_shipment generate_shipment_reference next_number
  save_shipment-fresh {q} st fq cov need =
      let next = format_reference clock.year (suc q.last_number) in
      rw (need, fq)
        (
          (
            record s { reference = next },
            find-update_self shipment_pk s.id _ db.shipments refl st,
            refl,
            IsCovered-Fresh clock.year q.last_number db.shipments cov,
          ),
          find-store_number clock.year (suc q.last_number) db.shipment_sequences,
          All-update shipment_pk
              (λ t. (k : ℕ) → t.reference ≡ format_reference clock.year k → k ≤ suc q.last_number)
              s.id _ db.shipments
              (λ _ _ k e.
                let same : suc q.last_number ≡ k =
                  format_reference-injective clock.year (suc q.last_number) k e in
                omega arith)
              (IsCovered-suc clock.year q.last_number db.shipments cov),
        )

-- The saving changes no column of the shipment but the reference.
pub saved_columns :
    (clock : Clock) (s : Shipment) (db : Db)
    → let t = saved clock s db in
      (t.id ≡ s.id)
      × (t.status ≡ s.status)
      × (t.is_disputed ≡ s.is_disputed)
      × (t.disputed_at ≡ s.disputed_at)
      × (t.ready_at ≡ s.ready_at)
unfolding saved
saved_columns clock s db = elim (Bool-cases (needs_reference s)) [
  | inl new ↦ rw new (refl, refl, refl, refl, refl)
  | inr old ↦ rw old (refl, refl, refl, refl, refl)
]
