-- ===== src/Bins/Check.antt =====
-- The lines of `build_packing_bins` (wms/scan_pack_helpers.py): the checks of their weights and
-- volumes, and their order.
use asf_wms.Prelude.{
  ℕ, ltb, Bool, false, ◌&&◌, not, Option, none, some, List, [], ◌∷◌, ◌++◌, if◌then◌else◌, is_some,
  or_default,
}
use asf_wms.Catalog.{PackedProduct}
use asf_wms.Errors.{PackError, measures_missing, too_heavy, too_large}
use asf_wms.Bins.{
  Floats, PackLine, Defaults, PackWarning, defaults_applied, weight_missing, volume_missing, when,
  get_product_weight_g, get_product_volume_cm3,
}

module _ (F : Floats) where
  pub record PackItem : Type 0 where
    pub product : ℕ
    pub quantity : ℕ
    pub weight : ℕ
    pub volume : F.Float
    pub expires_on : Option ℕ

  -- What the loop over the lines collects.
  pub record Checked : Type 0 where
    pub items : List PackItem
    pub errors : List PackError
    pub warnings : List PackWarning

  -- `float(carton_volume)` and `float(carton_size["max_weight_g"])`
  pub record Capacity : Type 0 where
    pub volume : F.Float
    pub weight : ℕ

module _ (F : Floats) where
  abbrev pub exceeds : Option F.Float → F.Float → Bool
  exceeds none limit = false
  exceeds (some v) limit = F.less limit v

  abbrev pub outweighs : Option ℕ → ℕ → Bool
  outweighs none limit = false
  outweighs (some w) limit = ltb limit w

  -- The end of a round, once a weight or a volume is known.
  unfoldable pub check_measures :
      Capacity F → PackLine → Option ℕ → Option F.Float → List PackWarning → Checked F
  check_measures c line weight volume given = record {
    items =
        record {
          product = line.product;
          quantity = line.quantity;
          weight = or_default weight 0;
          volume = or_default volume F.zero_float;
          expires_on = line.expires_on;
        }
        ∷ [];
    errors =
        when (outweighs weight c.weight) (too_heavy line.product)
        ++ when (exceeds volume c.volume) (too_large line.product);
    warnings =
        given
        ++ when (not (is_some weight)) (weight_missing line.product)
        ++ when (not (is_some volume)) (volume_missing line.product);
  }

  abbrev pub without_measures : Option Defaults → Capacity F → PackLine → Checked F
  without_measures none c line = record {
    items = [];
    errors = measures_missing line.product ∷ [];
    warnings = [];
  }
  without_measures (some d) c line =
      check_measures c line (some d.weight_g) (some (F.from_count d.volume_cm3))
        (defaults_applied line.product ∷ [])

  abbrev pub check_known :
      Option Defaults → Capacity F → PackLine → Option ℕ → Option F.Float → Checked F
  check_known defaults c line none none = without_measures defaults c line
  check_known defaults c line (some w) volume = check_measures c line (some w) volume []
  check_known defaults c line none (some v) = check_measures c line none (some v) []

  -- `float(volume) if volume and volume > 0 else None`
  abbrev pub float_volume : Option ℕ → Option F.Float
  float_volume none = none
  float_volume (some v) = some (F.from_millionths v)

  unfoldable pub check_line :
      List PackedProduct → Option Defaults → Capacity F → PackLine → Checked F
  check_line products defaults c line =
      check_known defaults c line (get_product_weight_g products line.product)
        (float_volume (get_product_volume_cm3 products line.product))

  unfoldable pub check_lines :
      List PackedProduct → Option Defaults → Capacity F → List PackLine → Checked F
  check_lines products defaults c [] = record { items = []; errors = []; warnings = [] }
  check_lines products defaults c (l ∷ ls) =
      let first = check_line products defaults c l in
      let rest = check_lines products defaults c ls in
      record {
        items = first.items ++ rest.items;
        errors = first.errors ++ rest.errors;
        warnings = first.warnings ++ rest.warnings;
      }

  -- `max(ratios) if ratios else 0`: the first of the greatest.
  abbrev pub max_ratio : F.Float → List F.Float → F.Float
  max_ratio best [] = best
  max_ratio best (x ∷ xs) = max_ratio (if F.less best x then x else best) xs

  abbrev pub max_or_zero : List F.Float → F.Float
  max_or_zero [] = F.zero_float
  max_or_zero (x ∷ xs) = max_ratio x xs

  unfoldable pub item_ratio : Capacity F → PackItem F → F.Float
  item_ratio c i = max_or_zero (
      when (F.less F.zero_float i.volume && F.less F.zero_float c.volume)
        (F.ratio i.volume c.volume)
      ++ when (ltb 0 i.weight && ltb 0 c.weight) (F.ratio_of_counts i.weight c.weight))

  -- `items.sort(key=item_ratio, reverse=True)`: equal items stay in their order.
  abbrev pub insert_item : Capacity F → PackItem F → List (PackItem F) → List (PackItem F)
  insert_item c x [] = x ∷ []
  insert_item c x (y ∷ ys) =
      if F.less (item_ratio c x) (item_ratio c y) then y ∷ insert_item c x ys else x ∷ y ∷ ys

  unfoldable pub sort_items : Capacity F → List (PackItem F) → List (PackItem F)
  sort_items c [] = []
  sort_items c (x ∷ xs) = insert_item c x (sort_items c xs)
