-- ===== src/Carton/Items/Laws.antt =====
-- What a carton holds after stock is put into it.
use asf_wms.Prelude.{
  ℕ, ◌==◌, pos, ◌+ℤ◌, ◌≡◌, int_laws, parts_of_eq, inl, inr, Bool-cases, Option, List, [], ◌∷◌,
  sum_by,
}
use asf_wms.Rows.{CartonItem}
use asf_wms.Stock.Consume.{StockConsumeResult}
use asf_wms.Carton.Unpack.Laws.{items_total}
use asf_wms.Carton.Items.{add_entry, add_entries}

pub items_total-add_entry :
    (display : Option ℕ) (e : StockConsumeResult) (is : List CartonItem)
    → items_total (add_entry display e is) ≡ items_total is +ℤ pos e.quantity
unfolding add_entry
items_total-add_entry display e [] = omega int_laws
items_total-add_entry display e (i ∷ is) =
    let rest = items_total-add_entry display e is in
    elim (Bool-cases (i.product_lot == e.lot.id)) [
      | inl same ↦ rw same (omega int_laws)
      | inr other ↦ rw other (omega (int_laws, parts_of_eq rest))
    ]

-- The total rises by what was consumed.
pub items_total-add_entries :
    (display : Option ℕ) (es : List StockConsumeResult) (is : List CartonItem)
    → items_total (add_entries display es is) ≡ items_total is +ℤ pos (sum_by (λ e. e.quantity) es)
unfolding add_entries
items_total-add_entries display [] is = omega int_laws
items_total-add_entries display (e ∷ es) is =
    let first = items_total-add_entry display e is in
    let rest = items_total-add_entries display es (add_entry display e is) in
    omega (int_laws, parts_of_eq first, parts_of_eq rest)
