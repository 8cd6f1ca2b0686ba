-- ===== src/Bins.antt =====
-- Splitting lines into cartons (wms/scan_pack_helpers.py, `build_packing_bins`), with the weights and
-- volumes of products (wms/scan_product_helpers.py, wms/scan_carton_helpers.py). Weights are whole
-- numbers of grams, on which the floats of the program are exact. Volumes are its binary floating
-- point numbers: their arithmetic is a parameter, of which nothing is assumed.
pub mod Check
pub mod Fill
pub mod Sums
pub mod Weight
pub mod Laws
use asf_wms.Prelude.{
  ℕ, zero, suc, ◌+◌, ◌*◌, ◌==◌, ltb, Bool, true, false, ◌&&◌, not, Option, none, some, List, [],
  ◌∷◌, ◌++◌, length, if◌then◌else◌, is_some, or_default, ok, err,
}
use asf_wms.Prelude.Table.{find}
use asf_wms.Kit.{Part, get_unit_component_quantities}
use asf_wms.Catalog.{PackedProduct, product_pk}
use asf_wms.Carton.Pack.{items_of}

-- The floating point arithmetic that the program uses.
pub record Floats : Type 1 where
  pub Float : Type 0
  pub zero_float : Float
  -- `float(d)` of a `Decimal`, in millionths
  pub from_millionths : ℕ → Float
  pub from_count : ℕ → Float
  pub less : Float → Float → Bool
  pub at_most : Float → Float → Bool
  pub minus : Float → Float → Float
  pub times_count : Float → ℕ → Float
  -- `int(a // b)`, and 0 where that is negative
  pub whole_quotient : Float → Float → ℕ
  pub ratio : Float → Float → Float
  pub ratio_of_counts : ℕ → ℕ → Float

-- The components of one unit of a product; none for a cycle.
unfoldable pub unit_parts : List PackedProduct → ℕ → Option (List Part)
unit_parts products p =
    elim (get_unit_component_quantities (items_of products) (suc (length products)) p [] []) [
      | ok (parts, _) ↦ some parts
      | err _ ↦ none
    ]

-- The total over the components of a measure that is 0 where it is missing; none if it is missing
-- for a component.
unfoldable pub total_measure : (PackedProduct → ℕ) → List PackedProduct → List Part → Option ℕ
total_measure measure products [] = some 0
total_measure measure products (e ∷ es) = elim (find product_pk e.component products) [
  | none ↦ none
  | some p ↦ elim (total_measure measure products es) [
    | none ↦ none
    | some rest ↦ if measure p == 0 then none else some (measure p * e.quantity + rest)
  ]
]

abbrev pub positive : Option ℕ → Option ℕ
positive none = none
positive (some n) = if n == 0 then none else some n

abbrev pub measured : (PackedProduct → ℕ) → List PackedProduct → Option (List Part) → Option ℕ
measured measure products none = none
measured measure products (some parts) = positive (total_measure measure products parts)

-- Without components the total is 0, so that the result is none.
unfoldable pub get_product_weight_g : List PackedProduct → ℕ → Option ℕ
get_product_weight_g products p = measured (λ q. q.weight_g) products (unit_parts products p)

-- `_get_base_product_volume_cm3`, in millionths of a cubic centimetre
abbrev pub base_volume : PackedProduct → ℕ
base_volume p =
    if p.volume_cm3 == 0 then p.length_cm * p.width_cm * p.height_cm else p.volume_cm3 * 1_000_000

unfoldable pub get_product_volume_cm3 : List PackedProduct → ℕ → Option ℕ
get_product_volume_cm3 products p = measured base_volume products (unit_parts products p)

-- The dictionary `carton_size`, with lengths in hundredths of a centimetre.
pub record PackingSize : Type 0 where
  pub length_cm : ℕ
  pub width_cm : ℕ
  pub height_cm : ℕ
  pub max_weight_g : ℕ

abbrev pub get_carton_volume_cm3 : PackingSize → ℕ
get_carton_volume_cm3 c = c.length_cm * c.width_cm * c.height_cm

pub record PackLine : Type 0 where
  pub product : ℕ
  pub quantity : ℕ
  pub expires_on : Option ℕ

-- `default_weight_g` and `default_volume_cm3`, where `apply_defaults` is set.
pub record Defaults : Type 0 where
  pub weight_g : ℕ
  pub volume_cm3 : ℕ

pub data PackWarning : Type 0 where
  defaults_applied weight_missing volume_missing : ℕ → PackWarning

abbrev pub when {ℓ} : {A : Type ℓ} → Bool → A → List A
when b x = if b then x ∷ [] else []
