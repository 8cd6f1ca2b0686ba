-- ===== src/Bins/Laws.antt =====
-- What `build_packing_bins` promises (wms/scan_pack_helpers.py).
use asf_wms.Prelude.{ℕ, ◌≤◌, ◌≡◌, refl, Option, none, some, List, [], ◌∷◌, All, All-append, arith}
use asf_wms.Catalog.{PackedProduct}
use asf_wms.Bins.{Floats, PackLine, Defaults, PackingSize}
use asf_wms.Bins.Check.{Capacity, check_measures, check_line, check_lines, sort_items}
use asf_wms.Bins.Fill.{Bin, fill_all, build_packing_bins, capacity_of}
use asf_wms.Bins.Weight.{counted_weight, load, Suits, sort_items-Suits, fill_all-load}
use asf_wms.Bins.Sums.{
  empty-append, lines_of, bins_of, fill_all-counts, items_asked-sort_items, check_lines-counts,
}

-- If the packing gives bins, they hold together as many units of each product as the lines ask for,
-- whatever the floating point arithmetic is.
pub build_packing_bins-counts :
    (F : Floats) (products : List PackedProduct) (d : Option Defaults) (ls : List PackLine)
    (size : Option PackingSize) {bs : List (Bin F)}
    → (build_packing_bins F products d ls size).bins ≡ some bs
    → (p : ℕ) → bins_of F p bs ≡ lines_of p ls
unfolding build_packing_bins
build_packing_bins-counts F products d ls none {bs} h p = absurd (cc)
build_packing_bins-counts F products d ls (some size) {bs} h p =
    let c = capacity_of F size in
    let checked = check_lines F products d c ls in
    let sorted = sort_items F c checked.items in
    let clean : checked.errors ≡ [] = ground arith in
    let filled : fill_all F c sorted [] ≡ bs = ground (arith, clean) in
    let sum = fill_all-counts F p c sorted [] in
    let order = items_asked-sort_items F p c checked.items in
    let asked = check_lines-counts F p products d c ls clean in
    rw (← filled) (omega (arith, sum, order, asked))

module _ (F : Floats) (products : List PackedProduct) (d : Option Defaults) where
  check_line-Suits :
      (c : Capacity F) (l : PackLine)
      → (check_line F products d c l).errors ≡ []
      → All (Suits F (counted_weight products d) c.weight) (check_line F products d c l).items
  unfolding check_line check_measures
  check_line-Suits c l clean = ground (arith, clean)

  check_lines-Suits :
      (c : Capacity F) (ls : List PackLine)
      → (check_lines F products d c ls).errors ≡ []
      → All (Suits F (counted_weight products d) c.weight) (check_lines F products d c ls).items
  unfolding check_lines
  check_lines-Suits c [] clean = tt
  check_lines-Suits c (l ∷ ls) clean =
      let (none_first, none_after) =
        empty-append (check_line F products d c l).errors (check_lines F products d c ls).errors
          clean in
      All-append (Suits F (counted_weight products d) c.weight) (check_line F products d c l).items
        (check_lines F products d c ls).items (check_line-Suits c l none_first)
        (check_lines-Suits c ls none_after)

-- If the packing gives bins for a carton, no bin weighs more than the carton's greatest weight, where
-- a unit counts with the weight of its product, with 0 if only its volume is known, and with the
-- default if neither is.
pub build_packing_bins-weight :
    (F : Floats) (products : List PackedProduct) (d : Option Defaults) (ls : List PackLine)
    (size : PackingSize) {bs : List (Bin F)}
    → (build_packing_bins F products d ls (some size)).bins ≡ some bs
    → All (λ (b : Bin F). load (counted_weight products d) b.items ≤ size.max_weight_g) bs
unfolding build_packing_bins
build_packing_bins-weight F products d ls size {bs} h =
    let c = capacity_of F size in
    let weight = counted_weight products d in
    let checked = check_lines F products d c ls in
    let sorted = sort_items F c checked.items in
    let clean : checked.errors ≡ [] = ground arith in
    let filled : fill_all F c sorted [] ≡ bs = ground (arith, clean) in
    rw (← filled) (
      fill_all-load F weight c.weight c refl sorted (
        sort_items-Suits F weight c.weight c refl checked.items
          (check_lines-Suits F products d c ls clean)))
