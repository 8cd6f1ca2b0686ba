-- ===== src/Prelude/Table.antt =====
-- A table of rows with a primary key. A read finds the first row with a key and a write changes
-- it; the rows of a table have distinct keys, so these are the row and the write.
use Prim.Native.Nat.{ℕ, zero, suc}
use mathlib.Core.Path.{◌≡◌, refl, ◌∙◌, subst, sym, ap}
use mathlib.Core.Logic.{◌≢◌, inl, inr}
use mathlib.Core.Bool.{Bool, true, false}
use mathlib.Core.Option.{Option, none, some}
use mathlib.Core.List.{List, [], ◌∷◌, map}
use native.Mathlib.Omega.{arith}
use asf_wms.Prelude.Tests.{◌==◌, if◌then◌else◌, Bool-cases, is_some}
use asf_wms.Prelude.Lists.{All, filter, All-filter, All-both, filter-test, take, All-take, All-map}

module _ {A : Type 0} (key : A → ℕ) where
  -- `objects.filter(pk=k).first()`
  abbrev pub find : ℕ → List A → Option A
  find k [] = none
  find k (x ∷ xs) = if key x == k then some x else find k xs

  -- `row.save(update_fields=…)`: the change applies to the stored row.
  abbrev pub update : ℕ → (A → A) → List A → List A
  update k f [] = []
  update k f (x ∷ xs) = if key x == k then f x ∷ xs else x ∷ update k f xs

  -- `row.delete()`
  abbrev pub delete : ℕ → List A → List A
  delete k [] = []
  delete k (x ∷ xs) = if key x == k then xs else x ∷ delete k xs

  abbrev pub Fresh : ℕ → List A → Type 0
  Fresh k xs = All (λ x. key x ≢ k) xs

  abbrev pub Distinct : List A → Type 0
  Distinct [] = Unit
  Distinct (x ∷ xs) = Fresh (key x) xs × Distinct xs

module _ {A : Type 0} (key : A → ℕ) where
  pub find-Fresh : (k : ℕ) (xs : List A) → Fresh key k xs → find key k xs ≡ none
  find-Fresh k [] h = refl
  find-Fresh k (x ∷ xs) h = ground (arith, find-Fresh k xs h.1)

  pub find-key : (k : ℕ) (xs : List A) {r : A} → find key k xs ≡ some r → key r ≡ k
  find-key k [] {r} h = cc
  find-key k (x ∷ xs) {r} h = ground (arith, find-key k xs {r = r})

  pub find-update_self :
      (k : ℕ) (f : A → A) (xs : List A) {r : A}
      → key (f r) ≡ k
      → find key k xs ≡ some r
      → find key k (update key k f xs) ≡ some (f r)
  find-update_self k f [] e h = cc
  find-update_self k f (x ∷ xs) e h = ground (arith, find-update_self k f xs e)

  pub find-update_ne :
      (j k : ℕ) (f : A → A) (xs : List A)
      → ((x : A) → key (f x) ≡ key x)
      → j ≢ k
      → find key j (update key k f xs) ≡ find key j xs
  find-update_ne j k f [] e h = refl
  find-update_ne j k f (x ∷ xs) e h = ground (arith, e x, find-update_ne j k f xs e h)

  pub update-Fresh :
      (j k : ℕ) (f : A → A) (xs : List A)
      → ((x : A) → key (f x) ≡ key x)
      → Fresh key j xs
      → Fresh key j (update key k f xs)
  update-Fresh j k f [] e h = tt
  update-Fresh j k f (x ∷ xs) e h = ground (arith, e x, update-Fresh j k f xs e h.1)

  pub update-Distinct :
      (k : ℕ) (f : A → A) (xs : List A)
      → ((x : A) → key (f x) ≡ key x)
      → Distinct key xs
      → Distinct key (update key k f xs)
  update-Distinct k f [] e h = tt
  update-Distinct k f (x ∷ xs) e h =
      ground (arith, e x, update-Fresh (key x) k f xs e h.0, update-Distinct k f xs e h.1)

  pub filter-Fresh :
      (k : ℕ) (p : A → Bool) (xs : List A) → Fresh key k xs → Fresh key k (filter p xs)
  filter-Fresh k p xs h = All-filter (λ x. key x ≢ k) p xs h

  pub filter-Distinct : (p : A → Bool) (xs : List A) → Distinct key xs → Distinct key (filter p xs)
  filter-Distinct p [] d = d
  filter-Distinct p (x ∷ xs) d = elim (Bool-cases (p x)) [
    | inl kept ↦ rw kept (filter-Fresh (key x) p xs d.0, filter-Distinct p xs d.1)
    | inr dropped ↦ rw dropped (filter-Distinct p xs d.1)
  ]

  Stored-cons :
      (x : A) (xs ys : List A)
      → Fresh key (key x) ys
      → All (λ r. find key (key r) xs ≡ some r) ys
      → All (λ r. find key (key r) (x ∷ xs) ≡ some r) ys
  Stored-cons x xs [] f h = tt
  Stored-cons x xs (y ∷ ys) f h = (ground (arith, f.0, h.0), Stored-cons x xs ys f.1 h.1)

  -- In a table with distinct keys, each row is found by its key.
  pub All-found : (xs : List A) → Distinct key xs → All (λ r. find key (key r) xs ≡ some r) xs
  All-found [] d = tt
  All-found (x ∷ xs) d = (ground arith, Stored-cons x xs xs d.0 (All-found xs d.1))

  -- A write to one row leaves the rows with other keys where they were.
  pub update-found :
      (k : ℕ) (f : A → A) (xs ys : List A)
      → ((x : A) → key (f x) ≡ key x)
      → Fresh key k ys
      → All (λ r. find key (key r) xs ≡ some r) ys
      → All (λ r. find key (key r) (update key k f xs) ≡ some r) ys
  update-found k f xs [] e n h = tt
  update-found k f xs (y ∷ ys) e n h =
      (find-update_ne (key y) k f xs e n.0 ∙ h.0, update-found k f xs ys e n.1 h.1)

  -- A property of all rows survives a write that keeps it at the written row.
  pub All-update :
      (P : A → Type 0) (k : ℕ) (f : A → A) (xs : List A)
      → ((r : A) → find key k xs ≡ some r → P (f r))
      → All P xs
      → All P (update key k f xs)
  All-update P k f [] new h = tt
  All-update P k f (x ∷ xs) new h = elim (Bool-cases (key x == k)) [
    | inl same ↦ rw same (new x (rw same), h.1)
    | inr other ↦ rw other (h.0, All-update P k f xs (λ r e. new r (rw other e)) h.1)
  ]

  pub find-All :
      (P : A → Type 0) (k : ℕ) (xs : List A) {r : A} → All P xs → find key k xs ≡ some r → P r
  find-All P k [] {r} h e = absurd (cc)
  find-All P k (x ∷ xs) {r} h e = elim (Bool-cases (key x == k)) [
    | inl same ↦ let e' : x ≡ r = ground arith in subst P e' h.0
    | inr other ↦ find-All P k xs {r = r} h.1 (ground arith)
  ]

  -- A row that passes the filter is found in the filtered table.
  pub find-filter :
      (p : A → Bool) (k : ℕ) (xs : List A) {r : A}
      → find key k xs ≡ some r
      → p r ≡ true
      → find key k (filter p xs) ≡ some r
  find-filter p k [] h e = cc
  find-filter p k (x ∷ xs) {r} h e = elim (Bool-cases (key x == k)) [
    | inl same ↦ let eq : x ≡ r = ground arith in rw (eq, e, ← eq) (ground arith)
    | inr other ↦ elim (Bool-cases (p x)) [
      | inl kept ↦ rw kept (ground (arith, find-filter p k xs {r = r}))
      | inr dropped ↦ rw dropped (ground (arith, find-filter p k xs {r = r}))
    ]
  ]

  -- A write of a whole row leaves the rows with other keys where they were.
  pub find-replace_ne :
      (j k : ℕ) (row : A) (xs : List A)
      → key row ≡ k
      → j ≢ k
      → find key j (update key k (λ _. row) xs) ≡ find key j xs
  find-replace_ne j k row [] e h = refl
  find-replace_ne j k row (x ∷ xs) e h = ground (arith, find-replace_ne j k row xs e h)

  -- A row that fails the filter leaves its key unused in the filtered table.
  pub filter-Fresh_self :
      (p : A → Bool) (k : ℕ) (xs : List A) {r : A}
      → Distinct key xs
      → find key k xs ≡ some r
      → p r ≡ false
      → Fresh key k (filter p xs)
  filter-Fresh_self p k xs {r} d f out =
      All-both (λ x. p x ≡ true) (λ x. find key (key x) xs ≡ some x) (λ x. key x ≢ k) (filter p xs)
        (λ x passes st e. let same : x ≡ r = cc in absurd (cc (ap p same))) (filter-test p xs)
        (All-filter (λ x. find key (key x) xs ≡ some x) p xs (All-found xs d))

  pub find-own_key :
      (k : ℕ) (xs : List A) {r : A} → find key k xs ≡ some r → find key (key r) xs ≡ some r
  find-own_key k xs {r} h = subst (λ j. find key j xs ≡ some r) (sym (find-key k xs h)) h

  pub is_some-find-update :
      (j k : ℕ) (f : A → A) (xs : List A)
      → ((x : A) → key (f x) ≡ key x)
      → is_some (find key j (update key k f xs)) ≡ is_some (find key j xs)
  is_some-find-update j k f [] e = refl
  is_some-find-update j k f (x ∷ xs) e = ground (arith, e x, is_some-find-update j k f xs e)

module _ {A : Type 0} (key : A → ℕ) where
  pub take-Distinct : (n : ℕ) (xs : List A) → Distinct key xs → Distinct key (take n xs)
  take-Distinct zero xs d = tt
  take-Distinct (suc n) [] d = tt
  take-Distinct (suc n) (x ∷ xs) d =
      (All-take (λ y. key y ≢ key x) n xs d.0, take-Distinct n xs d.1)

  pub map-Distinct :
      (f : A → A) (xs : List A)
      → ((x : A) → key (f x) ≡ key x)
      → Distinct key xs
      → Distinct key (map f xs)
  map-Distinct f [] same d = tt
  map-Distinct f (x ∷ xs) same d = (
    rw (same x) (
        All-map f (λ y. key y ≢ key x) xs
          (All-both (λ y. key y ≢ key x) (λ y. key y ≢ key x) (λ y. key (f y) ≢ key x) xs
            (λ y h _ e. h (sym (same y) ∙ e)) d.0 d.0)),
    map-Distinct f xs same d.1,
  )

-- A write that keeps another column keeps that column's values distinct.
module _ {A : Type 0} (key other : A → ℕ) (j : ℕ) (f : A → A)
    (same : (x : A) → other (f x) ≡ other x) where
  pub update-Fresh_other :
      (k : ℕ) (xs : List A) → Fresh other k xs → Fresh other k (update key j f xs)
  update-Fresh_other k [] h = tt
  update-Fresh_other k (x ∷ xs) h = elim (Bool-cases (key x == j)) [
    | inl here ↦ rw here ((λ e. h.0 (sym (same x) ∙ e)), h.1)
    | inr later ↦ rw later (h.0, update-Fresh_other k xs h.1)
  ]

  pub update-Distinct_other : (xs : List A) → Distinct other xs → Distinct other (update key j f xs)
  update-Distinct_other [] d = tt
  update-Distinct_other (x ∷ xs) d = elim (Bool-cases (key x == j)) [
    | inl here ↦ rw here (subst (λ i. Fresh other i xs) (sym (same x)) d.0, d.1)
    | inr later ↦ rw later (update-Fresh_other (other x) xs d.0, update-Distinct_other xs d.1)
  ]

module _ {A : Type 0} (key : A → ℕ) (f : A → A) (same : (x : A) → key (f x) ≡ key x) where
  unmap-Fresh : (k : ℕ) (xs : List A) → Fresh key k (map f xs) → Fresh key k xs
  unmap-Fresh k [] h = tt
  unmap-Fresh k (x ∷ xs) h = ((λ e. h.0 (same x ∙ e)), unmap-Fresh k xs h.1)

  pub unmap-Distinct : (xs : List A) → Distinct key (map f xs) → Distinct key xs
  unmap-Distinct [] d = tt
  unmap-Distinct (x ∷ xs) d = (
    unmap-Fresh (key x) xs (subst (λ k. Fresh key k (map f xs)) (same x) d.0),
    unmap-Distinct xs d.1,
  )
