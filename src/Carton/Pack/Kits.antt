-- ===== src/Carton/Pack/Kits.antt =====
-- The components of what is packed are always found (wms/domain/stock.py, `pack_carton`;
-- wms/kit_components.py).
use asf_wms.Prelude.{
  ℕ, suc, ◌==◌, true, false, List, [], ◌∷◌, length, length-map, map, elem, ◌≡◌, ◌≢◌, refl, ◌∙◌, inl,
  inr, Bool-cases, err,
}
use mathlib.Core.Path.{subst}
use asf_wms.Kit.{out_of_fuel, get_component_quantities}
use asf_wms.Kit.Fuel.{get_component_quantities-terminates}
use asf_wms.Catalog.{PackedProduct, product_pk}
use asf_wms.Carton.Pack.{items_of}

items_later :
    (q : PackedProduct) (qs : List PackedProduct) (p : ℕ)
    → (q.id == p) ≡ false
    → items_of (q ∷ qs) p ≡ items_of qs p
items_later q qs p other = rw (items_of, other) refl

known_product :
    (products : List PackedProduct) (p : ℕ)
    → items_of products p ≢ []
    → elem p (map product_pk products) ≡ true
known_product [] p = λ h. absurd (h refl)
known_product (q ∷ qs) p = elim (Bool-cases (q.id == p)) [
  | inl same ↦ λ h. rw same refl
  | inr other ↦ λ h. rw other (known_product qs p (λ e. h (items_later q qs p other ∙ e)))
]

-- For whatever products, with whatever kit items, the expansion that packing asks for ends with
-- components or with a cycle: its fuel, one more than there are products, is always enough.
pub requirements-terminate :
    (products : List PackedProduct) (p quantity : ℕ)
    → get_component_quantities (items_of products) (suc (length products)) p quantity
      ≢ err out_of_fuel
requirements-terminate products p quantity =
    subst (λ n. get_component_quantities (items_of products) (suc n) p quantity ≢ err out_of_fuel)
      (length-map product_pk products)
      (get_component_quantities-terminates (items_of products) (map product_pk products)
        (known_product products) p quantity)
