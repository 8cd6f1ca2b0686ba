-- ===== src/Examples/Preparing.antt =====
-- Two products split into bins of 350 g (wms/scan_pack_helpers.py, `build_packing_bins`).
use asf_wms.Prelude.{
  ℕ, ◌-◌, ◌*◌, ◌/◌, ◌≤◌, ltb, leb, ◌≡◌, refl, All, Option, none, some, List, [], ◌∷◌,
}
use asf_wms.Catalog.{PackedProduct}
use asf_wms.Kit.{get_unit_component_quantities, expand_new}
use asf_wms.Bins.{
  Floats, PackLine, PackingSize, unit_parts, total_measure, get_product_weight_g,
  get_product_volume_cm3,
}
use asf_wms.Bins.Check.{check_measures, check_line, check_lines, item_ratio, sort_items}
use asf_wms.Bins.Fill.{
  Bin, BinEntry, max_fit, add_item, put, place, new_bin, place_or_open, fill, fill_all,
  build_packing_bins,
}
use asf_wms.Bins.Weight.{load, counted_weight}
use asf_wms.Bins.Sums.{bins_of, lines_of}
use asf_wms.Bins.Laws.{build_packing_bins-counts, build_packing_bins-weight}

-- Floating point numbers that are whole millionths.
abbrev pub whole : Floats
whole = record {
  Float = ℕ;
  zero_float = 0;
  from_millionths = λ n. n;
  from_count = λ n. n * 1_000_000;
  less = ltb;
  at_most = leb;
  minus = λ a b. a - b;
  times_count = λ a n. a * n;
  whole_quotient = λ a b. a / b;
  ratio = λ a b. a * 1_000_000 / b;
  ratio_of_counts = λ a b. a * 1_000_000 / b;
}

abbrev pub products : List PackedProduct
products =
    record {
      id = 7;
      category = none;
      weight_g = 100;
      volume_cm3 = 2;
      length_cm = 0;
      width_cm = 0;
      height_cm = 0;
      kit_items = [];
    }
    ∷ record {
      id = 8;
      category = none;
      weight_g = 250;
      volume_cm3 = 0;
      length_cm = 100;
      width_cm = 100;
      height_cm = 100;
      kit_items = [];
    }
    ∷ []

abbrev a_size : PackingSize
a_size = record { length_cm = 1000; width_cm = 1000; height_cm = 1000; max_weight_g = 350 }

abbrev pack_lines : List PackLine
pack_lines =
    record { product = 7; quantity = 4; expires_on = none }
    ∷ record { product = 8; quantity = 1; expires_on = some 300 }
    ∷ []

abbrev entry : ℕ → ℕ → Option ℕ → BinEntry
entry p n e = record { product = p; quantity = n; expires_on = e }

-- The heavier product comes first, and one unit of the other goes beside it.
abbrev two_bins : List (Bin whole)
two_bins =
    record {
      remaining_volume = 997_000_000;
      remaining_weight = 0;
      items = entry 8 1 (some 300) ∷ entry 7 1 none ∷ [];
    }
    ∷ record { remaining_volume = 994_000_000; remaining_weight = 50; items = entry 7 3 none ∷ [] }
    ∷ []

packed_in_two :
    (build_packing_bins whole products none pack_lines (some a_size)).bins ≡ some two_bins
unfolding build_packing_bins check_lines check_line check_measures sort_items item_ratio fill_all
    fill place_or_open place put add_item max_fit new_bin get_product_weight_g
    get_product_volume_cm3 unit_parts total_measure get_unit_component_quantities expand_new
packed_in_two = refl

build_packing_bins-counts_example : bins_of whole 7 two_bins ≡ lines_of 7 pack_lines
build_packing_bins-counts_example =
    build_packing_bins-counts whole products none pack_lines (some a_size) packed_in_two 7

build_packing_bins-weight_example :
    All (λ (b : Bin whole). load (counted_weight products none) b.items ≤ 350) two_bins
build_packing_bins-weight_example =
    build_packing_bins-weight whole products none pack_lines a_size packed_in_two
