-- ===== src/Bins/Weight.antt =====
-- No bin is heavier than a carton may be (wms/scan_pack_helpers.py, `build_packing_bins`).
use asf_wms.Prelude.{
  ℕ, zero, suc, ◌+◌, ◌-◌, ◌*◌, ◌/◌, ◌==◌, ◌≤◌, ◌<◌, ◌≡◌, inl, inr, Option, none, some, List, [],
  ◌∷◌, All, All-both, sum_by, Bool-cases, Option-cases, arith,
}
use mathlib.Core.Path.{subst}
use native.Mathlib.Nat.{mul_comm, mul-le-mul_left, le-div_iff_mul-le}
use asf_wms.Catalog.{PackedProduct}
use asf_wms.Bins.{Floats, Defaults, get_product_weight_g, get_product_volume_cm3}
use asf_wms.Bins.Check.{PackItem, Capacity, item_ratio, insert_item, sort_items}
use asf_wms.Bins.Fill.{
  BinEntry, Bin, max_fit, room, add_item, put, place, first_fit, new_bin, append_bin, place_or_open,
  fill, fill_all,
}

-- The weight that is counted for a unit: the product's, else none where it has a volume, else the
-- default.
abbrev pub counted_weight : List PackedProduct → Option Defaults → ℕ → ℕ
counted_weight products d p = elim (get_product_weight_g products p) [
  | some w ↦ w
  | none ↦ elim (get_product_volume_cm3 products p) [
    | some _ ↦ 0
    | none ↦ elim d [ none ↦ 0 | some given ↦ given.weight_g ]
  ]
]

-- What the entries of a bin weigh.
abbrev pub load : (ℕ → ℕ) → List BinEntry → ℕ
load weight es = sum_by (λ (e : BinEntry). e.quantity * weight e.product) es

scaled_le : (w m r : ℕ) → (0 < w → m ≤ r / w) → w * m ≤ r
scaled_le zero m r h = omega arith
scaled_le (suc w) m r h =
    let le = (le-div_iff_mul-le {k = suc w} (omega arith)).0 (h (omega arith)) in grind (arith, le)

load_entry : (w q n e : ℕ) → q * w + n * w + e ≡ (q + n) * w + e
load_entry w q n e = grind arith

module _ (F : Floats) (weight : ℕ → ℕ) (limit : ℕ) where
  -- The contents of the bin and what it may still take are within the limit.
  abbrev IsWithin : Bin F → Type 0
  IsWithin b = load weight b.items + b.remaining_weight ≤ limit

  -- The item is counted with its weight, and one unit is within the limit.
  abbrev pub Suits : PackItem F → Type 0
  Suits i = (weight i.product ≤ i.weight) × (i.weight ≤ limit)

  load-add_item :
      (i : PackItem F) (n : ℕ) (es : List BinEntry)
      → load weight (add_item F i n es) ≡ load weight es + n * weight i.product
  unfolding add_item
  load-add_item i n [] = omega arith
  load-add_item i n (e ∷ es) = elim (Bool-cases (e.product == i.product)) [
    | inl same ↦ let eq : e.product ≡ i.product = ground arith in rw (same, eq) (grind arith)
    | inr other ↦ rw other (omega (arith, load-add_item i n es))
  ]

  max_fit_weight : (i : PackItem F) (n : ℕ) (v : F.Float) (r : ℕ) → i.weight * max_fit F i n v r ≤ r
  unfolding max_fit
  max_fit_weight i n v r = scaled_le i.weight (max_fit F i n v r) r (λ h. ground arith)

  put-IsWithin :
      (i : PackItem F) (n : ℕ) (b : Bin F)
      → Suits i
      → i.weight * n ≤ b.remaining_weight
      → IsWithin b
      → IsWithin (put F i n b)
  unfolding put
  put-IsWithin i n b suits fits h =
      let sum = load-add_item i n b.items in
      let le = mul-le-mul_left n suits.0 in
      let swap = mul_comm n i.weight in omega (arith, sum, le, swap, fits, h)

  place-IsWithin :
      (i : PackItem F) (n : ℕ) (bs : List (Bin F)) {m : ℕ} {bs' : List (Bin F)}
      → Suits i
      → All IsWithin bs
      → place F i n bs ≡ some (m, bs')
      → All IsWithin bs'
  unfolding place
  place-IsWithin i n [] suits w h = absurd (cc)
  place-IsWithin i n (b ∷ bs) {m} {bs'} suits w h = elim (Bool-cases (room F i n b == 0)) [
    | inl full ↦ elim (Option-cases (place F i n bs)) [
      | inl nothing ↦ absurd (ground arith)
      | inr ((k, cs), placed) ↦
          let e : b ∷ cs ≡ bs' = ground arith in
          subst (All IsWithin) e (w.0, place-IsWithin i n bs suits w.1 placed)
    ]
    | inr fits ↦
        let k = room F i n b in
        let e : put F i k b ∷ bs ≡ bs' = ground arith in
        let within = max_fit_weight i n b.remaining_volume b.remaining_weight in
        let light : i.weight * k ≤ b.remaining_weight = ground (arith, within) in
        subst (All IsWithin) e (put-IsWithin i k b suits light w.0, w.1)
  ]

  append_bin-IsWithin :
      (bs : List (Bin F)) (b : Bin F)
      → All IsWithin bs
      → IsWithin b
      → All IsWithin (append_bin F bs b)
  append_bin-IsWithin [] b w h = (h, tt)
  append_bin-IsWithin (x ∷ xs) b w h = (w.0, append_bin-IsWithin xs b w.1 h)

  module _ (c : Capacity F) (full : c.weight ≡ limit) where
    first_fit_weight : (i : PackItem F) (n : ℕ) → Suits i → i.weight * first_fit F c i n ≤ limit
    first_fit_weight i n suits =
        let le = max_fit_weight i n c.volume c.weight in ground (arith, le, suits.1, full)

    new_bin-IsWithin :
        (i : PackItem F) (n : ℕ) → Suits i → i.weight * n ≤ limit → IsWithin (new_bin F c i n)
    unfolding new_bin
    new_bin-IsWithin i n suits fits =
        let le = mul-le-mul_left n suits.0 in
        let swap = mul_comm n i.weight in omega (arith, le, swap, fits, full)

    place_or_open-IsWithin :
        (i : PackItem F) (n : ℕ) (bs : List (Bin F))
        → Suits i
        → All IsWithin bs
        → All IsWithin (place_or_open F c i n bs).1
    unfolding place_or_open
    place_or_open-IsWithin i n bs suits w = elim (Option-cases (place F i n bs)) [
      | inl nothing ↦
          let m = first_fit F c i n in
          rw (place_or_open, nothing)
            (append_bin-IsWithin bs (new_bin F c i m) w
              (new_bin-IsWithin i m suits (first_fit_weight i n suits)))
      | inr ((k, cs), placed) ↦ rw (place_or_open, placed) (place-IsWithin i n bs suits w placed)
    ]

    fill-IsWithin :
        (fuel : ℕ) (i : PackItem F) (n : ℕ) (bs : List (Bin F))
        → Suits i
        → All IsWithin bs
        → All IsWithin (fill F fuel c i n bs)
    unfolding fill
    fill-IsWithin zero i n bs suits w = w
    fill-IsWithin (suc fuel) i n bs suits w = elim (Bool-cases (n == 0)) [
      | inl done ↦ rw done w
      | inr more ↦
          let r = place_or_open F c i n bs in
          rw more (fill-IsWithin fuel i (n - r.0) r.1 suits (place_or_open-IsWithin i n bs suits w))
    ]

    fill_all-IsWithin :
        (is : List (PackItem F)) (bs : List (Bin F))
        → All Suits is
        → All IsWithin bs
        → All IsWithin (fill_all F c is bs)
    unfolding fill_all
    fill_all-IsWithin [] bs suits w = w
    fill_all-IsWithin (i ∷ is) bs suits w =
        fill_all-IsWithin is (fill F i.quantity c i i.quantity bs) suits.1
          (fill-IsWithin i.quantity i i.quantity bs suits.0 w)

    insert_item-Suits :
        (x : PackItem F) (ys : List (PackItem F))
        → Suits x
        → All Suits ys
        → All Suits (insert_item F c x ys)
    insert_item-Suits x [] h hs = (h, tt)
    insert_item-Suits x (y ∷ ys) h hs =
        elim (Bool-cases (F.less (item_ratio F c x) (item_ratio F c y))) [
          | inl later ↦ rw later (hs.0, insert_item-Suits x ys h hs.1)
          | inr here ↦ rw here (h, hs)
        ]

    pub sort_items-Suits : (is : List (PackItem F)) → All Suits is → All Suits (sort_items F c is)
    unfolding sort_items
    sort_items-Suits [] h = tt
    sort_items-Suits (i ∷ is) h =
        insert_item-Suits i (sort_items F c is) h.0 (sort_items-Suits is h.1)

    -- What the bins of the loop weigh.
    pub fill_all-load :
        (is : List (PackItem F))
        → All Suits is
        → All (λ (b : Bin F). load weight b.items ≤ limit) (fill_all F c is [])
    fill_all-load is suits =
        All-both IsWithin IsWithin (λ (b : Bin F). load weight b.items ≤ limit) (fill_all F c is [])
          (λ b h _. omega (arith, h)) (fill_all-IsWithin is [] suits tt)
          (fill_all-IsWithin is [] suits tt)
