-- ===== src/Prelude/OrderBy.antt =====
-- `order_by(...)` of a query: an insertion sort of the rows by the lexicographic order of their
-- keys. A column that may be NULL has the key 0 for NULL, since MySQL and SQLite, the engines
-- that the settings choose, sort NULL before every value.
use Prim.Native.Nat.{ℕ, suc, ◌+◌}
use mathlib.Core.Path.{◌≡◌, refl, sym}
use mathlib.Core.Logic.{◌≢◌, inl, inr}
use mathlib.Core.Bool.{Bool, true, false}
use mathlib.Core.Option.{Option, none, some}
use mathlib.Core.List.{List, [], ◌∷◌}
use native.Mathlib.Omega.{arith}
use asf_wms.Prelude.Tests.{ltb, ◌==◌, if◌then◌else◌, Bool-cases}
use asf_wms.Prelude.Lists.{All, sum_by, length}
use asf_wms.Prelude.Table.{Fresh, Distinct}

abbrev pub null_first : Option ℕ → ℕ
null_first none = 0
null_first (some n) = suc n

abbrev pub lex_le : List ℕ → List ℕ → Bool
lex_le [] ys = true
lex_le (x ∷ xs) [] = false
lex_le (x ∷ xs) (y ∷ ys) = if ltb x y then true else if x == y then lex_le xs ys else false

lex_le_total : (xs ys : List ℕ) → lex_le xs ys ≡ false → lex_le ys xs ≡ true
lex_le_total [] ys h = cc
lex_le_total (x ∷ xs) [] h = refl
lex_le_total (x ∷ xs) (y ∷ ys) h = ground (arith, lex_le_total xs ys)

lex_le_trans : (xs ys zs : List ℕ) → lex_le xs ys ≡ true → lex_le ys zs ≡ true → lex_le xs zs ≡ true
lex_le_trans [] ys zs h k = refl
lex_le_trans (x ∷ xs) [] zs h k = cc
lex_le_trans (x ∷ xs) (y ∷ ys) [] h k = cc
lex_le_trans (x ∷ xs) (y ∷ ys) (z ∷ zs) h k = ground (arith, lex_le_trans xs ys zs)

module _ {A : Type 0} (key : A → List ℕ) where
  abbrev insert_by : A → List A → List A
  insert_by x [] = x ∷ []
  insert_by x (y ∷ ys) = if lex_le (key x) (key y) then x ∷ y ∷ ys else y ∷ insert_by x ys

  unfoldable pub order_by : List A → List A
  order_by [] = []
  order_by (x ∷ xs) = insert_by x (order_by xs)

  abbrev pub IsOrdered : List A → Type 0
  IsOrdered [] = Unit
  IsOrdered (x ∷ xs) = All (λ y. lex_le (key x) (key y) ≡ true) xs × IsOrdered xs

module _ {A : Type 0} (key : A → List ℕ) where
  All-insert_by :
      (P : A → Type 0) (x : A) (ys : List A) → P x → All P ys → All P (insert_by key x ys)
  All-insert_by P x [] p h = (p, h)
  All-insert_by P x (y ∷ ys) p h = elim (Bool-cases (lex_le (key x) (key y))) [
    | inl first ↦ rw first (p, h)
    | inr later ↦ rw later (h.0, All-insert_by P x ys p h.1)
  ]

  -- What holds of every row holds of every row of the sorted list.
  pub All-order_by : (P : A → Type 0) (xs : List A) → All P xs → All P (order_by key xs)
  unfolding order_by
  All-order_by P [] h = h
  All-order_by P (x ∷ xs) h = All-insert_by P x (order_by key xs) h.0 (All-order_by P xs h.1)

  All-lex_le :
      (k j : List ℕ) (xs : List A)
      → lex_le k j ≡ true
      → All (λ y. lex_le j (key y) ≡ true) xs
      → All (λ y. lex_le k (key y) ≡ true) xs
  All-lex_le k j [] h all = tt
  All-lex_le k j (x ∷ xs) h all = (lex_le_trans k j (key x) h all.0, All-lex_le k j xs h all.1)

  insert_by-IsOrdered :
      (x : A) (ys : List A) → IsOrdered key ys → IsOrdered key (insert_by key x ys)
  insert_by-IsOrdered x [] h = (tt, tt)
  insert_by-IsOrdered x (y ∷ ys) h = elim (Bool-cases (lex_le (key x) (key y))) [
    | inl first ↦ rw first ((first, All-lex_le (key x) (key y) ys first h.0), h)
    | inr later ↦ rw later (
      All-insert_by (λ z. lex_le (key y) (key z) ≡ true) x ys (lex_le_total (key x) (key y) later)
          h.0,
      insert_by-IsOrdered x ys h.1,
    )
  ]

  pub order_by-IsOrdered : (xs : List A) → IsOrdered key (order_by key xs)
  unfolding order_by
  order_by-IsOrdered [] = tt
  order_by-IsOrdered (x ∷ xs) = insert_by-IsOrdered x (order_by key xs) (order_by-IsOrdered xs)

module _ {A : Type 0} (key : A → List ℕ) (pk : A → ℕ) where
  insert_by-Distinct :
      (x : A) (ys : List A) → Fresh pk (pk x) ys → Distinct pk ys → Distinct pk (insert_by key x ys)
  insert_by-Distinct x [] f d = (tt, tt)
  insert_by-Distinct x (y ∷ ys) f d = elim (Bool-cases (lex_le (key x) (key y))) [
    | inl first ↦ rw first (f, d)
    | inr later ↦ rw later (
      All-insert_by key (λ z. pk z ≢ pk y) x ys (λ e. f.0 (sym e)) d.0,
      insert_by-Distinct x ys f.1 d.1,
    )
  ]

  pub order_by-Distinct : (xs : List A) → Distinct pk xs → Distinct pk (order_by key xs)
  unfolding order_by
  order_by-Distinct [] d = tt
  order_by-Distinct (x ∷ xs) d =
      insert_by-Distinct x (order_by key xs) (All-order_by key (λ y. pk y ≢ pk x) xs d.0)
        (order_by-Distinct xs d.1)

module _ {A : Type 0} (key : A → List ℕ) (f : A → ℕ) where
  sum-insert_by : (x : A) (ys : List A) → sum_by f (insert_by key x ys) ≡ f x + sum_by f ys
  sum-insert_by x [] = refl
  sum-insert_by x (y ∷ ys) = ground (arith, sum-insert_by x ys)

  pub sum-order_by : (xs : List A) → sum_by f (order_by key xs) ≡ sum_by f xs
  unfolding order_by
  sum-order_by [] = refl
  sum-order_by (x ∷ xs) = omega (arith, sum-insert_by x (order_by key xs), sum-order_by xs)

module _ {A : Type 0} (key : A → List ℕ) (P : A → Type 0) where
  All-insert_by_back : (x : A) (ys : List A) → All P (insert_by key x ys) → P x × All P ys
  All-insert_by_back x [] = λ h. h
  All-insert_by_back x (y ∷ ys) = elim (Bool-cases (lex_le (key x) (key y))) [
    | inl first ↦ rw first (λ h. h)
    | inr later ↦ rw later (λ h. let (p, rest) = All-insert_by_back x ys h.1 in (p, (h.0, rest)))
  ]

  -- What holds of every row of the sorted list holds of every row.
  pub All-order_by_back : (xs : List A) → All P (order_by key xs) → All P xs
  unfolding order_by
  All-order_by_back [] h = tt
  All-order_by_back (x ∷ xs) h =
      let (p, rest) = All-insert_by_back x (order_by key xs) h in (p, All-order_by_back xs rest)

module _ {A : Type 0} (key : A → List ℕ) where
  length-insert_by : (x : A) (ys : List A) → length (insert_by key x ys) ≡ suc (length ys)
  length-insert_by x [] = refl
  length-insert_by x (y ∷ ys) = ground (arith, length-insert_by x ys)

  pub length-order_by : (xs : List A) → length (order_by key xs) ≡ length xs
  unfolding order_by
  length-order_by [] = refl
  length-order_by (x ∷ xs) = omega (arith, length-insert_by x (order_by key xs), length-order_by xs)
