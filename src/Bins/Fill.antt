-- ===== src/Bins/Fill.antt =====
-- The loop of `build_packing_bins` (wms/scan_pack_helpers.py) that fills the bins.
use asf_wms.Prelude.{
  ℕ, zero, suc, ◌+◌, ◌*◌, ◌-◌, ◌/◌, ◌==◌, min, leb, ltb, ◌&&◌, Option, none, some, List, [], ◌∷◌,
  if◌then◌else◌,
}
use asf_wms.Catalog.{PackedProduct}
use asf_wms.Errors.{PackError, size_required}
use asf_wms.Bins.{Floats, PackLine, Defaults, PackWarning, PackingSize, get_carton_volume_cm3}
use asf_wms.Bins.Check.{PackItem, Capacity, check_lines, sort_items}

-- An entry of a bin's dictionary of products.
pub record BinEntry : Type 0 where
  pub product : ℕ
  pub quantity : ℕ
  pub expires_on : Option ℕ

abbrev pub earlier_expiry : Option ℕ → Option ℕ → Option ℕ
earlier_expiry current none = current
earlier_expiry none (some d) = some d
earlier_expiry (some e) (some d) = some (min e d)

module _ (F : Floats) where
  pub record Bin : Type 0 where
    pub remaining_volume : F.Float
    pub remaining_weight : ℕ
    pub items : List BinEntry

module _ (F : Floats) where
  -- The lowering of `max_fit` by volume and by weight.
  unfoldable pub max_fit : PackItem F → ℕ → F.Float → ℕ → ℕ
  max_fit item n volume weight =
      let by_volume =
        if F.less F.zero_float item.volume
        then min n (F.whole_quotient volume item.volume)
        else n in
      if ltb 0 item.weight then min by_volume (weight / item.weight) else by_volume

  -- How many of the `n` units the bin takes; 0 where the loop goes on to the next bin.
  abbrev pub room : PackItem F → ℕ → Bin F → ℕ
  room item n b =
      if F.at_most item.volume b.remaining_volume && leb item.weight b.remaining_weight
      then max_fit item n b.remaining_volume b.remaining_weight
      else 0

  unfoldable pub add_item : PackItem F → ℕ → List BinEntry → List BinEntry
  add_item item n [] =
      record { product = item.product; quantity = n; expires_on = item.expires_on } ∷ []
  add_item item n (e ∷ es) =
      let rest = add_item item n es in
      if e.product == item.product
      then record {
        product = e.product;
        quantity = e.quantity + n;
        expires_on = earlier_expiry e.expires_on item.expires_on;
      }
        ∷ es
      else e ∷ rest

  unfoldable pub put : PackItem F → ℕ → Bin F → Bin F
  put item n b = record {
    remaining_volume = F.minus b.remaining_volume (F.times_count item.volume n);
    remaining_weight = b.remaining_weight - item.weight * n;
    items = add_item item n b.items;
  }

  abbrev pub behind : Bin F → Option (ℕ × List (Bin F)) → Option (ℕ × List (Bin F))
  behind b none = none
  behind b (some (k, bs)) = some (k, b ∷ bs)

  -- The first bin that takes a unit, with the number of units that it takes.
  unfoldable pub place : PackItem F → ℕ → List (Bin F) → Option (ℕ × List (Bin F))
  place item n [] = none
  place item n (b ∷ bs) =
      let later = behind b (place item n bs) in
      if room item n b == 0 then later else some (room item n b, put item (room item n b) b ∷ bs)

  -- The number of units in a new bin.
  abbrev pub first_fit : Capacity F → PackItem F → ℕ → ℕ
  first_fit c item n = let m = max_fit item n c.volume c.weight in if m == 0 then 1 else m

  unfoldable pub new_bin : Capacity F → PackItem F → ℕ → Bin F
  new_bin c item n = record {
    remaining_volume = F.minus c.volume (F.times_count item.volume n);
    remaining_weight = c.weight - item.weight * n;
    items = record { product = item.product; quantity = n; expires_on = item.expires_on } ∷ [];
  }

  -- `bins.append(…)`
  abbrev pub append_bin : List (Bin F) → Bin F → List (Bin F)
  append_bin [] b = b ∷ []
  append_bin (x ∷ xs) b = x ∷ append_bin xs b

  -- The number of units that one round places, and the bins after it.
  unfoldable pub place_or_open : Capacity F → PackItem F → ℕ → List (Bin F) → ℕ × List (Bin F)
  place_or_open c item n bs = elim (place item n bs) [
    | some placed ↦ placed
    | none ↦ (first_fit c item n, append_bin bs (new_bin c item (first_fit c item n)))
  ]

  -- Each round places a unit or more, so that as many rounds as units are enough.
  unfoldable pub fill : ℕ → Capacity F → PackItem F → ℕ → List (Bin F) → List (Bin F)
  fill zero c item n bs = bs
  fill (suc fuel) c item n bs =
      let (m, bs') = place_or_open c item n bs in
      let rest = fill fuel c item (n - m) bs' in if n == 0 then bs else rest

  unfoldable pub fill_all : Capacity F → List (PackItem F) → List (Bin F) → List (Bin F)
  fill_all c [] bs = bs
  fill_all c (i ∷ is) bs = fill_all c is (fill i.quantity c i i.quantity bs)

  pub record Packing : Type 0 where
    pub bins : Option (List (Bin F))
    pub errors : List PackError
    pub warnings : List PackWarning

module _ (F : Floats) where
  abbrev pub capacity_of : PackingSize → Capacity F
  capacity_of size = record {
    volume = F.from_millionths (get_carton_volume_cm3 size);
    weight = size.max_weight_g;
  }

  abbrev pub pack_checked :
      Capacity F → List (PackItem F) → List PackError → List PackWarning → Packing F
  pack_checked c items [] warnings = record {
    bins = some (fill_all F c (sort_items F c items) []);
    errors = [];
    warnings = warnings;
  }
  pack_checked c items (e ∷ es) warnings = record {
    bins = none;
    errors = e ∷ es;
    warnings = warnings;
  }

  unfoldable pub build_packing_bins :
      List PackedProduct → Option Defaults → List PackLine → Option PackingSize → Packing F
  build_packing_bins products defaults lines none = record {
    bins = none;
    errors = size_required ∷ [];
    warnings = [];
  }
  build_packing_bins products defaults lines (some size) =
      let checked = check_lines F products defaults (capacity_of size) lines in
      pack_checked (capacity_of size) checked.items checked.errors checked.warnings
