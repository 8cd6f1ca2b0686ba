-- ===== src/Order/History/Totals.antt =====
-- The stock as two counters: what is on hand and what of it is reserved. Every operation on the tables
-- is a step of the counters (wms/domain/stock.py and wms/domain/orders.py).
use asf_wms.Prelude.{
  ℕ, ◌==◌, filter, ◌-ℤ◌, ◌≡◌, refl, ap, ◌∙◌, ℤ, pos, pos_part, ◌+ℤ◌, ◌≤ℤ◌, int_laws, parts_of_eq,
  List, [], ◌∷◌, All,
}
use mathlib.Core.Path.{subst}
use asf_wms.Stock.{ProductLot, total_on_hand}
use asf_wms.Stock.Receive.Laws.{receive_ok}
use asf_wms.Stock.Adjust.Laws.{adjust_stock-Accounts, transfer_stock_back}
use asf_wms.Stock.Consume.Places.{IsSound}
use asf_wms.Stock.Consume.Correct.{consume_stock_conserves}
use asf_wms.Order.Model.{OrderLine, Store, lots_reserved}
use asf_wms.Order.Reserve.Loop.{wanted, reserve_stock_for_order-Reserves}
use asf_wms.Order.History.{
  ◌⟶◌, receive, consume, adjust, transfer, reserve, ◌⟶*◌, here, then, with_stock,
}
use asf_wms.Order.History.Kept.{consume_stock-kept, adjust_stock-kept, transfer_stock-kept}
use asf_wms.Order.History.Consistent.{IsConsistent, step-IsConsistent}

pub record Totals : Type 0 where
  pub on_hand : ℤ
  pub reserved : ℤ

abbrev pub totals : Store → Totals
totals s = record { on_hand = total_on_hand s.stock.lots; reserved = lots_reserved s.stock.lots }

-- What can happen to the counters.
pub data Change : Type 0 where
  gain lose hold : ℕ → Change
  correct : ℤ → Change
  rest : Change

abbrev pub apply : Change → Totals → Totals
apply (gain n) t = record t { on_hand = t.on_hand +ℤ pos n }
apply (lose n) t = record t { on_hand = t.on_hand -ℤ pos n }
apply (hold n) t = record t { reserved = t.reserved +ℤ pos n }
apply (correct d) t = record t { on_hand = t.on_hand +ℤ d }
apply rest t = t

-- What is reserved is on hand, before and after.
abbrev pub IsCovered : Totals → Type 0
IsCovered t = t.reserved ≤ℤ t.on_hand

abbrev pub Allows : Totals → Change → Type 0
Allows t a = IsCovered t × IsCovered (apply a t)

abbrev pub replay : List Change → Totals → Totals
replay [] t = t
replay (a ∷ cs) t = replay cs (apply a t)

abbrev pub AllowsAll : Totals → List Change → Type 0
AllowsAll t [] = Unit
AllowsAll t (a ∷ cs) = Allows t a × AllowsAll (apply a t) cs

-- The change of an operation, from its arguments.
abbrev pub change_of : {s t : Store} → s ⟶ t → Change
change_of (receive p r _ _ _ _) = gain (pos_part r.quantity)
change_of (consume r n _ _ _ _) = lose (pos_part n)
change_of (adjust _ _ delta _ _ _ _ _ _ _) = correct delta
change_of (transfer _ _ _ _ _ _ _ _) = rest
change_of (reserve o s _ _) = hold (wanted (filter (λ (l : OrderLine). l.order == o.id) s.lines))

abbrev pub changes_of : {s t : Store} → s ⟶* t → List Change
changes_of here = []
changes_of (then step steps) = change_of step ∷ changes_of steps

sound-IsCovered : (ls : List ProductLot) → All IsSound ls → lots_reserved ls ≤ℤ total_on_hand ls
sound-IsCovered [] h = omega int_laws
sound-IsCovered (l ∷ ls) h =
    let rest = sound-IsCovered ls h.1 in let own = h.0.1 in omega (int_laws, rest, own)

totals_eq : (t u : Totals) → t.on_hand ≡ u.on_hand → t.reserved ≡ u.reserved → t ≡ u
totals_eq t u h r = rw (h, r) refl

is_number : {k : ℕ} {n : ℤ} → pos k ≡ n → n ≡ pos (pos_part n)
is_number {k} h = rw (← h) refl

-- The counters follow every operation.
step-apply : (s t : Store) (h : s ⟶ t) → IsConsistent s → totals t ≡ apply (change_of h) (totals s)
step-apply s _ (receive p r _ lot stock h) c =
    let (q, _, lots, _) = receive_ok p r s.stock h in
    totals_eq (totals (with_stock s stock)) _ (rw lots (omega (int_laws, parts_of_eq q)))
      (rw lots (omega int_laws))
step-apply s _ (consume r n _ out stock h) c =
    let (_, reserved) = consume_stock-kept r n s.stock h in
    let (taken, _, sum) = consume_stock_conserves r n s.stock c.stock.distinct h in
    totals_eq (totals (with_stock s stock)) _
      (omega (int_laws, parts_of_eq taken, parts_of_eq (is_number sum))) reserved
step-apply s _ (adjust user lot delta code notes _ lot' stock st h) c =
    let (_, reserved) = adjust_stock-kept user lot delta code notes s.stock h in
    let (on_hand, _, _, _) =
      adjust_stock-Accounts user lot delta code notes s.stock st c.stock.sound h in
    totals_eq (totals (with_stock s stock)) _ on_hand reserved
step-apply s _ (transfer user lot place _ lot' stock st h) c =
    let (_, reserved) = transfer_stock-kept user lot place s.stock h in
    totals_eq (totals (with_stock s stock)) _ (transfer_stock_back user lot place s.stock st h).0
      reserved
step-apply s t (reserve o _ _ h) c =
    let r = reserve_stock_for_order-Reserves o s c.stock.distinct c.stock.sound h in
    totals_eq (totals t) _ r.on_hand r.on_lots

step-Allows : (s t : Store) (h : s ⟶ t) → IsConsistent s → Allows (totals s) (change_of h)
step-Allows s t h c = (
  sound-IsCovered s.stock.lots c.stock.sound,
  subst IsCovered (step-apply s t h c)
      (sound-IsCovered t.stock.lots (step-IsConsistent s t h c).stock.sound),
)

-- From a consistent store, any sequence of receptions, consumptions, corrections and moves of stored
-- lots and reservations of orders that succeed is on two counters, of what is on hand and of what is
-- reserved, a replay of the changes that its arguments say, none of which leaves more reserved than is
-- on hand.
pub runs-replay :
    (s t : Store) (steps : s ⟶* t)
    → IsConsistent s
    → (totals t ≡ replay (changes_of steps) (totals s)) × AllowsAll (totals s) (changes_of steps)
runs-replay s _ here c = (refl, tt)
runs-replay s u (then {t = t} step steps) c =
    let follows = step-apply s t step c in
    let (same, allowed) = runs-replay t u steps (step-IsConsistent s t step c) in
    (
      same ∙ ap (replay (changes_of steps)) follows,
      (step-Allows s t step c, subst (λ x. AllowsAll x (changes_of steps)) follows allowed),
    )
