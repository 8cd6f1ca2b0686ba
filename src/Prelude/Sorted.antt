-- ===== src/Prelude/Sorted.antt =====
-- Rows that are found by their key, in the parts of a list and in a sorted list.
use Prim.Native.Nat.{ℕ}
use mathlib.Core.Path.{◌≡◌, sym, ap, ◌∙◌}
use mathlib.Core.Logic.{◌≢◌, ◌⊎◌, inl, inr}
use mathlib.Core.Option.{none, some}
use mathlib.Core.List.{List, [], ◌∷◌, ◌++◌}
use native.Mathlib.Omega.{arith}
use asf_wms.Prelude.Tests.{◌==◌, Bool-cases, Option-cases}
use asf_wms.Prelude.Table.{find, Fresh, Distinct, find-key, find-All, find-Fresh, All-found}
use asf_wms.Prelude.OrderBy.{order_by, All-order_by, All-order_by_back}

module _ {A : Type 0} (pk : A → ℕ) where
  missing_row-Fresh : (k : ℕ) (xs : List A) → find pk k xs ≡ none → Fresh pk k xs
  missing_row-Fresh k [] h = tt
  missing_row-Fresh k (x ∷ xs) h = (λ e. ground arith, missing_row-Fresh k xs (ground arith))

  -- A row that is found splits the list.
  pub find_split :
      (k : ℕ) (xs : List A) {r : A}
      → find pk k xs ≡ some r
      → (before : List A) × (after : List A) × (xs ≡ before ++ r ∷ after)
  find_split k [] h = absurd (cc)
  find_split k (x ∷ xs) {r} h = elim (Bool-cases (pk x == k)) [
    | inl here ↦ let same : x ≡ r = ground arith in ([], xs, ap (λ y. y ∷ xs) same)
    | inr later ↦
        let (before, after, e) = find_split k xs {r = r} (ground arith) in
        (x ∷ before, after, ap (λ ys. x ∷ ys) e)
  ]

  -- A stored row is found in the front of a list or in its rest.
  pub find_front :
      (k : ℕ) (before rest : List A) {r : A}
      → find pk k (before ++ rest) ≡ some r
      → (find pk k before ≡ some r) ⊎ (find pk k rest ≡ some r)
  find_front k [] rest h = inr h
  find_front k (x ∷ before) rest {r} h = elim (Bool-cases (pk x == k)) [
    | inl here ↦ inl (ground arith)
    | inr later ↦ elim (find_front k before rest {r = r} (ground arith)) [
      | inl front ↦ inl (ground arith)
      | inr behind ↦ inr behind
    ]
  ]

  -- Sorting keeps what is found by a key.
  pub find-order_by :
      (key : A → List ℕ) (k : ℕ) (xs : List A) {r : A}
      → Distinct pk xs
      → find pk k xs ≡ some r
      → find pk k (order_by key xs) ≡ some r
  find-order_by key k xs {r} d h = elim (Option-cases (find pk k (order_by key xs))) [
    | inl missing ↦
        let fresh =
          All-order_by_back key (λ x. pk x ≢ k) xs
            (missing_row-Fresh k (order_by key xs) missing) in
        absurd (let e = find-Fresh pk k xs fresh in cc)
    | inr (y, found) ↦
        let own =
          find-All pk (λ x. find pk (pk x) xs ≡ some x) k (order_by key xs)
            (All-order_by key (λ x. find pk (pk x) xs ≡ some x) xs (All-found pk xs d)) found in
        let same = find-key pk k (order_by key xs) found in
        found ∙ sym own ∙ ap (λ j. find pk j xs) same ∙ h
  ]
