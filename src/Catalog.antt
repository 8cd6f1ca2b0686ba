-- ===== src/Catalog.antt =====
-- Categories and products (wms/models_domain/catalog.py), as far as packing reads them.
use asf_wms.Prelude.{ℕ, Option, none, some, List}
use asf_wms.Text.{Text}
use asf_wms.Kit.{KitItem}

-- A category with its ancestors: the chain of parents ends at a root.
pub data Category : Type 0 where
  root : ℕ → Text → Category
  child : ℕ → Text → Category → Category

-- `_root_category_name` (wms/domain/stock.py)
unfoldable pub root_name : Category → Text
root_name (root id name) = name
root_name (child id name parent) = root_name parent

-- A weight, volume or length that is `None` is 0 here: the program takes both alike. Lengths are in
-- hundredths of a centimetre.
pub record PackedProduct : Type 0 where
  pub id : ℕ
  pub category : Option Category
  pub weight_g : ℕ
  pub volume_cm3 : ℕ
  pub length_cm : ℕ
  pub width_cm : ℕ
  pub height_cm : ℕ
  pub kit_items : List KitItem

abbrev pub product_pk : PackedProduct → ℕ
product_pk p = p.id

unfoldable pub root_category_name : PackedProduct → Text
root_category_name p = elim p.category [ none ↦ List.[] | some c ↦ root_name c ]
