-- ===== src/Carton/Code/Types.antt =====
-- The type code of a carton (wms/domain/stock.py, `_dominant_type_code` and `_normalize_type_code`).
use asf_wms.Prelude.{
  ℕ, leb, ℤ, pos, ◌+ℤ◌, ltb_ℤ, Bool, true, false, ◌&&◌, ◌||◌, Option, none, some, List, [], ◌∷◌,
  map, filter, if◌then◌else◌,
}
use asf_wms.Prelude.Int.{times}
use asf_wms.Prelude.Table.{find}
use asf_wms.Text.{Text, text_eq, is_digit}
use asf_wms.Stock.{ProductLot, lot_pk}
use asf_wms.Rows.{CartonItem}
use asf_wms.Catalog.{PackedProduct, product_pk, root_category_name}
use asf_wms.Carton.Code.{upper, two_characters}

abbrev pub is_word_char : ℕ → Bool
is_word_char c = (leb b'A' c && leb c b'Z') || (leb b'a' c && leb c b'z') || is_digit c

abbrev pub push : ℕ → List Text → List Text
push c [] = (c ∷ []) ∷ []
push c (w ∷ ws) = (c ∷ w) ∷ ws

-- The pieces between the characters that are in no word.
unfoldable pub pieces : Text → List Text
pieces [] = [] ∷ []
pieces (c ∷ cs) = let rest = pieces cs in if is_word_char c then push c rest else [] ∷ rest

abbrev pub is_word : Text → Bool
is_word [] = false
is_word (_ ∷ _) = true

-- The code before `upper()`: the initials of the first two words, or the start of the only one.
abbrev pub initials : List Text → Text
initials ((a ∷ _) ∷ (b ∷ _) ∷ _) = a ∷ b ∷ []
initials ((a ∷ []) ∷ []) = a ∷ []
initials ((a ∷ b ∷ _) ∷ []) = a ∷ b ∷ []
initials _ = []

-- `two_characters` fills up with "X", and is "XX" where there is no word.
unfoldable pub normalize_type_code : Text → Text
normalize_type_code ascii = two_characters (map upper (initials (filter is_word (pieces ascii))))

-- The entries of `weight_by_type` and `qty_by_type` under one key; both have the same keys in the
-- same order.
pub record TypeTotal : Type 0 where
  pub code : Text
  pub weight : ℤ
  pub quantity : ℤ

unfoldable pub add_type : Text → ℤ → ℤ → List TypeTotal → List TypeTotal
add_type code w q [] = record { code = code; weight = w; quantity = q } ∷ []
add_type code w q (t ∷ ts) =
    let rest = add_type code w q ts in
    if text_eq t.code code
    then record t { weight = t.weight +ℤ w; quantity = t.quantity +ℤ q } ∷ ts
    else t ∷ rest

-- `max(dictionary, key=dictionary.get)`: the first of the greatest.
unfoldable pub greatest : (TypeTotal → ℤ) → TypeTotal → List TypeTotal → TypeTotal
greatest f best [] = best
greatest f best (t ∷ ts) = greatest f (if ltb_ℤ (f best) (f t) then t else best) ts

unfoldable pub dominant : List TypeTotal → Text
dominant [] = b'X' ∷ b'X' ∷ []
dominant (t ∷ ts) =
    let heaviest = greatest (λ e. e.weight) t ts in
    if ltb_ℤ (pos 0) heaviest.weight then heaviest.code else (greatest (λ e. e.quantity) t ts).code

-- `fold` leaves the ASCII characters of a text (`unicodedata.normalize` and `encode`).
module _ (fold : Text → Text) where
  abbrev pub add_item_type : Option PackedProduct → ℤ → List TypeTotal → List TypeTotal
  add_item_type none q ts = ts
  add_item_type (some p) q ts =
      add_type (normalize_type_code (fold (root_category_name p))) (times p.weight_g q) q ts

  abbrev pub product_of : List PackedProduct → Option ProductLot → Option PackedProduct
  product_of products none = none
  product_of products (some l) = find product_pk l.product products

  -- The loop over the items. The foreign keys of an item's lot and product always lead to rows.
  unfoldable pub type_totals :
      List PackedProduct → List ProductLot → List CartonItem → List TypeTotal → List TypeTotal
  type_totals products lots [] ts = ts
  type_totals products lots (i ∷ is) ts =
      type_totals products lots is
        (add_item_type (product_of products (find lot_pk i.product_lot lots)) i.quantity ts)

  unfoldable pub dominant_type_code : List PackedProduct → List ProductLot → List CartonItem → Text
  dominant_type_code products lots items = dominant (type_totals products lots items [])
