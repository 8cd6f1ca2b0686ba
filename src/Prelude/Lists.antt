-- ===== src/Prelude/Lists.antt =====
-- Lists measured by native numbers, and predicates on all members.
use Prim.Native.Nat.{ℕ, zero, suc, ◌+◌, ◌≤◌}
use mathlib.Core.Path.{◌≡◌, refl, ap}
use mathlib.Core.Bool.{Bool, true, false, ◌&&◌, ◌||◌}
use mathlib.Core.List.{List, [], ◌∷◌, ◌++◌, map}
use native.Mathlib.Omega.{arith}
use mathlib.Core.Logic.{inl, inr}
use asf_wms.Prelude.Tests.{if◌then◌else◌, ◌==◌, Bool-cases}

module _ {ℓ} {A : Type ℓ} where
  abbrev pub length : List A → ℕ
  length [] = 0
  length (x ∷ xs) = suc (length xs)

  abbrev pub take : ℕ → List A → List A
  take zero xs = []
  take (suc n) [] = []
  take (suc n) (x ∷ xs) = x ∷ take n xs

  -- The library's `filter` wants a decision; the program filters by a test.
  abbrev pub filter : (A → Bool) → List A → List A
  filter p [] = []
  filter p (x ∷ xs) = let rest = filter p xs in if p x then x ∷ rest else rest

  abbrev pub all : (A → Bool) → List A → Bool
  all p [] = true
  all p (x ∷ xs) = p x && all p xs

  abbrev pub any : (A → Bool) → List A → Bool
  any p [] = false
  any p (x ∷ xs) = p x || any p xs

  abbrev pub sum_by : (A → ℕ) → List A → ℕ
  sum_by f [] = 0
  sum_by f (x ∷ xs) = f x + sum_by f xs

  pub length-append : (xs ys : List A) → length (xs ++ ys) ≡ length xs + length ys
  length-append [] ys = omega arith
  length-append (x ∷ xs) ys = omega (arith, length-append xs ys)

  pub length-filter-le : (p : A → Bool) (xs : List A) → length (filter p xs) ≤ length xs
  length-filter-le p [] = omega arith
  length-filter-le p (x ∷ xs) = ground (arith, length-filter-le p xs)

module _ {ℓ κ} {A : Type ℓ} where
  abbrev pub All : (A → Type κ) → List A → Type κ
  All P [] = Unit
  All P (x ∷ xs) = P x × All P xs

  pub All-filter : (P : A → Type κ) (p : A → Bool) (xs : List A) → All P xs → All P (filter p xs)
  All-filter P p [] h = h
  All-filter P p (x ∷ xs) h = elim (Bool-cases (p x)) [
    | inl kept ↦ rw kept (h.0, All-filter P p xs h.1)
    | inr dropped ↦ rw dropped (All-filter P p xs h.1)
  ]

-- `x in xs`, on numbers
abbrev pub elem : ℕ → List ℕ → Bool
elem k [] = false
elem k (x ∷ xs) = (x == k) || elem k xs

module _ {ℓ κ} {A : Type ℓ} where
  pub All-middle : (P : A → Type κ) (xs : List A) (y : A) (zs : List A) → All P (xs ++ y ∷ zs) → P y
  All-middle P [] y zs h = h.0
  All-middle P (x ∷ xs) y zs h = All-middle P xs y zs h.1

module _ {ℓ} {A : Type ℓ} where
  pub filter-test : (p : A → Bool) (xs : List A) → All (λ x. p x ≡ true) (filter p xs)
  filter-test p [] = tt
  filter-test p (x ∷ xs) = elim (Bool-cases (p x)) [
    | inl kept ↦ rw kept (kept, filter-test p xs)
    | inr dropped ↦ rw dropped (filter-test p xs)
  ]

module _ {ℓ κ} {A : Type ℓ} (P Q R : A → Type κ) where
  pub All-both : (xs : List A) → ((x : A) → P x → Q x → R x) → All P xs → All Q xs → All R xs
  All-both [] f h k = tt
  All-both (x ∷ xs) f h k = (f x h.0 k.0, All-both xs f h.1 k.1)

module _ {ℓ κ} {A : Type ℓ} (P : A → Type κ) where
  pub All-take : (n : ℕ) (xs : List A) → All P xs → All P (take n xs)
  All-take zero xs h = tt
  All-take (suc n) [] h = tt
  All-take (suc n) (x ∷ xs) h = (h.0, All-take n xs h.1)

module _ {ℓ} {A : Type ℓ} where
  pub length-take_le : (n : ℕ) (xs : List A) → length (take n xs) ≤ n
  length-take_le zero xs = omega arith
  length-take_le (suc n) [] = omega arith
  length-take_le (suc n) (x ∷ xs) = omega (arith, length-take_le n xs)

  pub take_all : (n : ℕ) (xs : List A) → length xs ≤ n → take n xs ≡ xs
  take_all zero [] h = refl
  take_all zero (x ∷ xs) h = absurd (omega (arith, h))
  take_all (suc n) [] h = refl
  take_all (suc n) (x ∷ xs) h = ap (λ t. x ∷ t) (take_all n xs (omega (arith, h)))

module _ {ℓ κ} {A B : Type ℓ} (f : A → B) (P : B → Type κ) where
  pub All-map : (xs : List A) → All (λ x. P (f x)) xs → All P (map f xs)
  All-map [] h = tt
  All-map (x ∷ xs) h = (h.0, All-map xs h.1)

  pub All-unmap : (xs : List A) → All P (map f xs) → All (λ x. P (f x)) xs
  All-unmap [] h = tt
  All-unmap (x ∷ xs) h = (h.0, All-unmap xs h.1)

pub length-map {ℓ} : {A B : Type ℓ} (f : A → B) (xs : List A) → length (map f xs) ≡ length xs
length-map f [] = refl
length-map f (x ∷ xs) = omega (arith, length-map f xs)

module _ {ℓ κ} {A : Type ℓ} (P : A → Type κ) where
  pub All-append : (xs ys : List A) → All P xs → All P ys → All P (xs ++ ys)
  All-append [] ys h k = k
  All-append (x ∷ xs) ys h k = (h.0, All-append xs ys h.1 k)

module _ {ℓ} {A : Type ℓ} (p : A → Bool) (f : A → A) where
  pub filter-map :
      (xs : List A) → ((x : A) → p (f x) ≡ p x) → filter p (map f xs) ≡ map f (filter p xs)
  filter-map [] same = refl
  filter-map (x ∷ xs) same = elim (Bool-cases (p x)) [
    | inl kept ↦ rw (same x, kept) (ap (λ t. f x ∷ t) (filter-map xs same))
    | inr dropped ↦ rw (same x, dropped) (filter-map xs same)
  ]

  pub all-map : (xs : List A) → ((x : A) → p (f x) ≡ p x) → all p (map f xs) ≡ all p xs
  all-map [] same = refl
  all-map (x ∷ xs) same = rw (same x, all-map xs same) refl

module _ {ℓ} {A : Type ℓ} (p : A → Bool) where
  pub all_of : (xs : List A) → All (λ x. p x ≡ true) xs → all p xs ≡ true
  all_of [] h = refl
  all_of (x ∷ xs) h = rw (h.0, all_of xs h.1) refl

module _ {ℓ} {A : Type ℓ} (p : A → Bool) where
  pub filter_none : (xs : List A) → All (λ x. p x ≡ false) xs → filter p xs ≡ []
  filter_none [] h = refl
  filter_none (x ∷ xs) h = rw (h.0, filter_none xs h.1) refl

module _ {ℓ} {A : Type ℓ} (key : A → ℕ) where
  -- Each member is found among the members by its key.
  pub any_self : (xs : List A) → All (λ y. any (λ t. key t == key y) xs ≡ true) xs
  any_self [] = tt
  any_self (x ∷ xs) = (ground arith, weaker x xs (any_self xs))
    where
      weaker :
          (z : A) (ys : List A)
          → All (λ y. any (λ t. key t == key y) xs ≡ true) ys
          → All (λ y. ((key z == key y) || any (λ t. key t == key y) xs) ≡ true) ys
      weaker z [] h = tt
      weaker z (y ∷ ys) h = (ground (arith, h.0), weaker z ys h.1)

  -- A member that passes a test is found by its key among those that pass.
  pub any-filter :
      (p : A → Bool) (xs : List A)
      → All (λ y. p y ≡ true → any (λ t. key t == key y) (filter p xs) ≡ true) xs
  any-filter p [] = tt
  any-filter p (x ∷ xs) = ((λ e. rw e (self_test x xs)), weaker xs (any-filter p xs))
    where
      self_test :
          (z : A) (ys : List A) → (key z == key z) || any (λ t. key t == key z) (filter p ys) ≡ true
      self_test z ys = ground arith

      weaker :
          (ys : List A)
          → All (λ y. p y ≡ true → any (λ t. key t == key y) (filter p xs) ≡ true) ys
          → All (λ y. p y ≡ true → any (λ t. key t == key y) (filter p (x ∷ xs)) ≡ true) ys
      weaker [] h = tt
      weaker (y ∷ ys) h = (
        (λ e. elim (Bool-cases (p x)) [
          | inl kept ↦ let found = h.0 e in rw kept (ground (arith, found))
          | inr dropped ↦ rw dropped (h.0 e)
        ]),
        weaker ys h.1,
      )

module _ {ℓ} {A : Type ℓ} where
  pub any_mono :
      (p q : A → Bool) (xs : List A)
      → ((x : A) → p x ≡ true → q x ≡ true)
      → any p xs ≡ true
      → any q xs ≡ true
  any_mono p q [] f h = cc
  any_mono p q (x ∷ xs) f h = elim (Bool-cases (p x)) [
    | inl here ↦ rw (f x here) refl
    | inr later ↦ let rest = any_mono p q xs f (ground (arith, h)) in ground (arith, rest)
  ]

module _ {ℓ κ} {A : Type ℓ} (P : A → Type κ) where
  -- A member that passes the test, with what holds of all members.
  pub any-All :
      (p : A → Bool) (xs : List A) → All P xs → any p xs ≡ true → (x : A) × P x × (p x ≡ true)
  any-All p [] h e = absurd (cc)
  any-All p (x ∷ xs) h e = elim (Bool-cases (p x)) [
    | inl here ↦ (x, h.0, here)
    | inr later ↦ any-All p xs h.1 (ground (arith, e))
  ]
