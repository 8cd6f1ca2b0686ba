-- ===== src/Carton/Items.antt =====
-- The items of a carton that is packed (wms/domain/stock.py, `pack_carton`;
-- wms/domain/orders.py, `pack_carton_from_reserved`).
pub mod Laws
use asf_wms.Prelude.{
  ℕ, ◌+◌, ◌==◌, min, ℤ, pos, ◌+ℤ◌, ◌≡◌, refl, int_laws, parts_of_eq, arith, inl, inr, Bool-cases,
  Option, none, some, List, [], ◌∷◌, sum_by, if◌then◌else◌, Bool, true, false,
}
use asf_wms.Rows.{CartonItem}
use asf_wms.Stock.Consume.{StockConsumeResult}

-- The earlier of two dates that may be missing.
abbrev pub earliest : Option ℕ → Option ℕ → Option ℕ
earliest none new = new
earliest (some d) none = some d
earliest (some d) (some e) = some (min d e)

-- `get_or_create` of the lot's item, and its new quantity and date.
unfoldable pub add_entry : Option ℕ → StockConsumeResult → List CartonItem → List CartonItem
add_entry display e [] =
    record {
      product_lot = e.lot.id;
      quantity = pos 0 +ℤ pos e.quantity;
      display_expires_on = display;
    }
    ∷ []
add_entry display e (i ∷ is) =
    let rest = add_entry display e is in
    if i.product_lot == e.lot.id
    then record i {
      quantity = i.quantity +ℤ pos e.quantity;
      display_expires_on = earliest i.display_expires_on display;
    }
      ∷ is
    else i ∷ rest

unfoldable pub add_entries : Option ℕ → List StockConsumeResult → List CartonItem → List CartonItem
add_entries display [] items = items
add_entries display (e ∷ es) items = add_entries display es (add_entry display e items)
