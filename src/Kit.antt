-- ===== src/Kit.antt =====
-- Kits (wms/kit_components.py): the components of a product, with the memo of products that are done
-- and the stack of products in progress. Products are their keys.
pub mod Units
pub mod Fuel
use asf_wms.Prelude.{
  ℕ, zero, suc, ◌+◌, ◌*◌, ◌==◌, Option, none, some, List, [], ◌∷◌, ◌++◌, elem, if◌then◌else◌,
  Result, ok, err, ◌>>=◌,
}
use asf_wms.Prelude.Table.{find}

pub record KitItem : Type 0 where
  pub component : ℕ
  pub quantity : ℕ

-- An entry of a dictionary from components to quantities.
pub record Part : Type 0 where
  pub component : ℕ
  pub quantity : ℕ

-- `KitCycleError`, and the end of the fuel.
pub data KitError : Type 0 where
  kit_cycle : List ℕ → KitError
  out_of_fuel : KitError

pub record MemoEntry : Type 0 where
  pub product : ℕ
  pub parts : List Part

abbrev pub memo_key : MemoEntry → ℕ
memo_key e = e.product

-- `totals[component] += n` on a `defaultdict(int)`
abbrev pub add_to : ℕ → ℕ → List Part → List Part
add_to c n [] = record { component = c; quantity = n } ∷ []
add_to c n (e ∷ es) =
    let rest = add_to c n es in
    if e.component == c then record { component = c; quantity = e.quantity + n } ∷ es else e ∷ rest

-- The loop over the components of a kit's component.
abbrev pub add_all : ℕ → List Part → List Part → List Part
add_all k [] totals = totals
add_all k (e ∷ es) totals = add_all k es (add_to e.component (e.quantity * k) totals)

-- `stack[stack.index(product):]`
abbrev pub from_product : ℕ → List ℕ → List ℕ
from_product p [] = []
from_product p (x ∷ xs) = let rest = from_product p xs in if x == p then x ∷ xs else rest

-- The loop over the items of a kit; `unit` expands a component.
unfoldable pub expand_items :
    (ℕ → List MemoEntry → Result KitError (List Part × List MemoEntry))
    → List KitItem
    → List MemoEntry
    → List Part
    → Result KitError (List Part × List MemoEntry)
expand_items unit [] memo totals = ok (totals, memo)
expand_items unit (i ∷ is) memo totals =
    let skip = expand_items unit is memo totals in
    let rest =
      unit i.component memo
      >>= (λ (d, memo'). expand_items unit is memo' (add_all i.quantity d totals)) in
    if i.quantity == 0 then skip else rest

abbrev pub remember : ℕ → List Part × List MemoEntry → Result KitError (List Part × List MemoEntry)
remember p (d, memo) = ok (d, record { product = p; parts = d } ∷ memo)

-- The parts of a product that is neither in the memo nor on the stack.
unfoldable pub expand_new :
    (ℕ → List MemoEntry → Result KitError (List Part × List MemoEntry))
    → ℕ
    → List KitItem
    → List MemoEntry
    → Result KitError (List Part × List MemoEntry)
expand_new unit p [] memo = remember p (record { component = p; quantity = 1 } ∷ [], memo)
expand_new unit p (i ∷ is) memo = expand_items unit (i ∷ is) memo [] >>= remember p

abbrev pub from_memo :
    Option MemoEntry
    → List MemoEntry
    → Result KitError (List Part × List MemoEntry)
    → Result KitError (List Part × List MemoEntry)
from_memo none memo new = new
from_memo (some e) memo new = ok (e.parts, memo)

-- `kits` gives the items of a product. Each call within a call has one product more on the stack, so
-- that the fuel bounds the depth of the kits.
unfoldable pub get_unit_component_quantities :
    (ℕ → List KitItem)
    → ℕ
    → ℕ
    → List MemoEntry
    → List ℕ
    → Result KitError (List Part × List MemoEntry)
get_unit_component_quantities kits zero p memo stack = err out_of_fuel
get_unit_component_quantities kits (suc fuel) p memo stack =
    let unit : ℕ → List MemoEntry → Result KitError (List Part × List MemoEntry) =
      λ c m. get_unit_component_quantities kits fuel c m (stack ++ p ∷ []) in
    let new = expand_new unit p (kits p) memo in
    from_memo (find memo_key p memo) memo
      (if elem p stack then err (kit_cycle (from_product p stack ++ p ∷ [])) else new)

abbrev pub scaled : ℕ → List Part → List Part
scaled q [] = []
scaled q (e ∷ es) = record { component = e.component; quantity = e.quantity * q } ∷ scaled q es

-- A quantity that is negative or absent counts as 0.
unfoldable pub get_component_quantities :
    (ℕ → List KitItem) → ℕ → ℕ → ℕ → Result KitError (List Part)
get_component_quantities kits fuel p quantity =
    let parts =
      get_unit_component_quantities kits fuel p [] []
      >>= (λ (d, _). ok (if quantity == 1 then d else scaled quantity d)) in
    if quantity == 0 then ok [] else parts
