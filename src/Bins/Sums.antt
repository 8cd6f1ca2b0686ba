-- ===== src/Bins/Sums.antt =====
-- The bins hold the quantities of the lines (wms/scan_pack_helpers.py, `build_packing_bins`).
use asf_wms.Prelude.{
  ℕ, zero, suc, ◌+◌, ◌-◌, ◌==◌, ◌≤◌, ◌≡◌, refl, inl, inr, Option, some, List, [], ◌∷◌, ◌++◌, sum_by,
  if◌then◌else◌, Bool-cases, Option-cases, arith,
}
use asf_wms.Catalog.{PackedProduct}
use asf_wms.Bins.{Floats, PackLine, Defaults}
use asf_wms.Bins.Check.{
  PackItem, Capacity, check_measures, check_line, check_lines, insert_item, sort_items,
}
use asf_wms.Bins.Fill.{
  BinEntry, Bin, max_fit, room, add_item, put, place, first_fit, new_bin, append_bin, place_or_open,
  fill, fill_all,
}

-- `n` if the product is `p`, else 0.
abbrev pub of_product : ℕ → ℕ → ℕ → ℕ
of_product p q n = if q == p then n else 0

-- The units of product `p` in the entries of a bin, in all bins, in items, in lines.
abbrev pub entries_of : ℕ → List BinEntry → ℕ
entries_of p es = sum_by (λ (e : BinEntry). of_product p e.product e.quantity) es

abbrev pub lines_of : ℕ → List PackLine → ℕ
lines_of p ls = sum_by (λ (l : PackLine). of_product p l.product l.quantity) ls

module _ (F : Floats) where
  abbrev pub bins_of : ℕ → List (Bin F) → ℕ
  bins_of p bs = sum_by (λ (b : Bin F). entries_of p b.items) bs

  abbrev pub items_asked : ℕ → List (PackItem F) → ℕ
  items_asked p is = sum_by (λ (i : PackItem F). of_product p i.product i.quantity) is

of_product-add : (p q m n : ℕ) → of_product p q (m + n) ≡ of_product p q m + of_product p q n
of_product-add p q m n = ground arith

pub empty-append {ℓ} : {A : Type ℓ} (xs ys : List A) → xs ++ ys ≡ [] → (xs ≡ []) × (ys ≡ [])
empty-append [] ys h = (refl, h)
empty-append (x ∷ xs) ys h = absurd (cc)

module _ (F : Floats) (p : ℕ) where
  entries_of-add_item :
      (i : PackItem F) (n : ℕ) (es : List BinEntry)
      → entries_of p (add_item F i n es) ≡ entries_of p es + of_product p i.product n
  unfolding add_item
  entries_of-add_item i n [] = omega arith
  entries_of-add_item i n (e ∷ es) = ground (arith, entries_of-add_item i n es)

  pub max_fit_le : (i : PackItem F) (n : ℕ) (v : F.Float) (w : ℕ) → max_fit F i n v w ≤ n
  unfolding max_fit
  max_fit_le i n v w = ground arith

  place-counts :
      (i : PackItem F) (n : ℕ) (bs : List (Bin F)) {m : ℕ} {bs' : List (Bin F)}
      → place F i n bs ≡ some (m, bs')
      → (1 ≤ m) × (m ≤ n) × (bins_of F p bs' ≡ bins_of F p bs + of_product p i.product m)
  unfolding place put
  place-counts i n [] h = absurd (cc)
  place-counts i n (b ∷ bs) {m} {bs'} h = elim (Bool-cases (room F i n b == 0)) [
    | inl full ↦ elim (Option-cases (place F i n bs)) [
      | inl nothing ↦ absurd (ground arith)
      | inr ((k, cs), placed) ↦ let ih = place-counts i n bs placed in ground (arith, ih)
    ]
    | inr fits ↦
        let sum = entries_of-add_item i (room F i n b) b.items in
        let le = max_fit_le i n b.remaining_volume b.remaining_weight in ground (arith, sum, le)
  ]

  bins_of-append_bin :
      (bs : List (Bin F)) (b : Bin F)
      → bins_of F p (append_bin F bs b) ≡ bins_of F p bs + entries_of p b.items
  bins_of-append_bin [] b = omega arith
  bins_of-append_bin (x ∷ xs) b = omega (arith, bins_of-append_bin xs b)

  place_or_open-counts :
      (c : Capacity F) (i : PackItem F) (n : ℕ) (bs : List (Bin F))
      → 1 ≤ n
      → let r = place_or_open F c i n bs in
        (1 ≤ r.0) × (r.0 ≤ n) × (bins_of F p r.1 ≡ bins_of F p bs + of_product p i.product r.0)
  unfolding place_or_open new_bin
  place_or_open-counts c i n bs some_left = elim (Option-cases (place F i n bs)) [
    | inl nothing ↦
        let m = first_fit F c i n in
        let le = max_fit_le i n c.volume c.weight in
        let sum = bins_of-append_bin bs (new_bin F c i m) in
        rw (place_or_open, nothing)
          (ground arith, ground (arith, some_left, le), omega (arith, sum))
    | inr ((k, cs), placed) ↦ rw (place_or_open, placed) (place-counts i n bs placed)
  ]

  fill-counts :
      (fuel : ℕ) (c : Capacity F) (i : PackItem F) (n : ℕ) (bs : List (Bin F))
      → n ≤ fuel
      → bins_of F p (fill F fuel c i n bs) ≡ bins_of F p bs + of_product p i.product n
  unfolding fill
  fill-counts zero c i n bs le = ground arith
  fill-counts (suc fuel) c i n bs le = elim (Bool-cases (n == 0)) [
    | inl done ↦ ground arith
    | inr more ↦
        let (m, bs') = place_or_open F c i n bs in
        let (least, most, sum) = place_or_open-counts c i n bs (ground arith) in
        let ih = fill-counts fuel c i (n - m) bs' (omega (arith, le, least)) in
        rw more (ground (arith, ih, sum, most))
  ]

  pub fill_all-counts :
      (c : Capacity F) (is : List (PackItem F)) (bs : List (Bin F))
      → bins_of F p (fill_all F c is bs) ≡ bins_of F p bs + items_asked F p is
  unfolding fill_all
  fill_all-counts c [] bs = omega arith
  fill_all-counts c (i ∷ is) bs =
      let first = fill-counts i.quantity c i i.quantity bs (omega arith) in
      let rest = fill_all-counts c is (fill F i.quantity c i i.quantity bs) in
      omega (arith, first, rest)

  items_asked-insert_item :
      (c : Capacity F) (x : PackItem F) (ys : List (PackItem F))
      → items_asked F p (insert_item F c x ys) ≡ items_asked F p (x ∷ ys)
  items_asked-insert_item c x [] = refl
  items_asked-insert_item c x (y ∷ ys) = ground (arith, items_asked-insert_item c x ys)

  pub items_asked-sort_items :
      (c : Capacity F) (is : List (PackItem F))
      → items_asked F p (sort_items F c is) ≡ items_asked F p is
  unfolding sort_items
  items_asked-sort_items c [] = refl
  items_asked-sort_items c (i ∷ is) =
      let first = items_asked-insert_item c i (sort_items F c is) in
      let rest = items_asked-sort_items c is in omega (arith, first, rest)

  items_asked-append :
      (is js : List (PackItem F))
      → items_asked F p (is ++ js) ≡ items_asked F p is + items_asked F p js
  items_asked-append [] js = omega arith
  items_asked-append (i ∷ is) js = omega (arith, items_asked-append is js)

  check_line-counts :
      (products : List PackedProduct) (d : Option Defaults) (c : Capacity F) (l : PackLine)
      → (check_line F products d c l).errors ≡ []
      → items_asked F p (check_line F products d c l).items ≡ of_product p l.product l.quantity
  unfolding check_line check_measures
  check_line-counts products d c l clean = ground (arith, clean)

  pub check_lines-counts :
      (products : List PackedProduct) (d : Option Defaults) (c : Capacity F) (ls : List PackLine)
      → (check_lines F products d c ls).errors ≡ []
      → items_asked F p (check_lines F products d c ls).items ≡ lines_of p ls
  unfolding check_lines
  check_lines-counts products d c [] clean = refl
  check_lines-counts products d c (l ∷ ls) clean =
      let (none_first, none_after) =
        empty-append (check_line F products d c l).errors (check_lines F products d c ls).errors
          clean in
      let sum =
        items_asked-append (check_line F products d c l).items
          (check_lines F products d c ls).items in
      let first = check_line-counts products d c l none_first in
      let rest = check_lines-counts products d c ls none_after in omega (arith, sum, first, rest)
