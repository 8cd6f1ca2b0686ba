-- ===== src/Order/Prepare/Shares.antt =====
-- The share of a line in the bins of `prepare_order` is what remained of it (wms/domain/orders.py).
use asf_wms.Prelude.{
  ℕ, ◌==◌, ◌≡◌, ◌≢◌, refl, sym, ap, ◌∙◌, inl, inr, some, List, [], ◌∷◌, map, All, true, false,
  Bool-cases, Option-cases, arith,
}
use mathlib.Core.Path.{subst}
use asf_wms.Prelude.Table.{find, find-key, find-All, Fresh, Distinct}
use asf_wms.Bins.{Floats}
use asf_wms.Bins.Fill.{BinEntry, Bin}
use asf_wms.Bins.Sums.{of_product, entries_of, bins_of, lines_of}
use asf_wms.Order.Model.{OrderLine, line_pk}
use asf_wms.Order.Ready.{remaining_quantity}
use asf_wms.Order.Prepare.{line_product, pack_line}
use asf_wms.Order.Prepare.Gains.{only}
use asf_wms.Order.Prepare.Packs.{entry_gain, entries_gain, bins_gain, gain_of, gain_none}

ne_of_test : (a b : ℕ) → (a == b) ≡ false → a ≢ b
ne_of_test a b h e = ground arith

share_lem : (k n p q : ℕ) → (q == p) ≡ true → only k n k ≡ of_product p q n
share_lem k n p q h = ground (arith, h)

apart_lem : (k j n p q : ℕ) → k ≢ j → (q == p) ≡ false → only k n j ≡ of_product p q n
apart_lem k j n p q apart h = ground (arith, h, apart)

-- The line is the one of its product among the lines to pack, which the table finds by their keys.
module _ (F : Floats) (table lines : List OrderLine) (l : OrderLine)
    (found : find line_product l.product lines ≡ some l)
    (stored : All (λ m. find line_pk (line_pk m) table ≡ some m) lines) where
  entry_gain-of :
      (e : BinEntry) → entry_gain lines e l.id ≡ of_product l.product e.product e.quantity
  entry_gain-of e = elim (Bool-cases (e.product == l.product)) [
    | inl same ↦
        let eq : e.product ≡ l.product = ground arith in
        let known = ap (λ j. find line_product j lines) eq ∙ found in
        ap (λ g. g l.id) (gain_of lines e l known)
        ∙ share_lem l.id e.quantity l.product e.product same
    | inr other ↦ elim (Option-cases (find line_product e.product lines)) [
      | inl missing ↦ ap (λ g. g l.id) (gain_none lines e missing) ∙ rw other refl
      | inr (m, known) ↦
          let key : m.product ≡ e.product = find-key line_product e.product lines known in
          let row =
            find-All line_product (λ x. find line_pk (line_pk x) table ≡ some x) e.product lines
              stored known in
          let mine =
            find-All line_product (λ x. find line_pk (line_pk x) table ≡ some x) l.product lines
              stored found in
          let apart : m.id ≢ l.id = λ e'.
            let same : m ≡ l = cc (row, mine, e') in
            absurd (ne_of_test e.product l.product other (sym key ∙ ap line_product same)) in
          ap (λ g. g l.id) (gain_of lines e m known)
          ∙ apart_lem m.id l.id e.quantity l.product e.product apart other
    ]
  ]

  entries_gain-of : (es : List BinEntry) → entries_gain lines es l.id ≡ entries_of l.product es
  entries_gain-of [] = refl
  entries_gain-of (e ∷ es) = omega (arith, entry_gain-of e, entries_gain-of es)

  pub bins_gain-of : (bs : List (Bin F)) → bins_gain F lines bs l.id ≡ bins_of F l.product bs
  bins_gain-of [] = refl
  bins_gain-of (b ∷ bs) = omega (arith, entries_gain-of b.items, bins_gain-of bs)

lines_of-Fresh :
    (p : ℕ) (ls : List OrderLine) → Fresh line_product p ls → lines_of p (map pack_line ls) ≡ 0
lines_of-Fresh p [] f = refl
lines_of-Fresh p (l ∷ ls) f = let rest = lines_of-Fresh p ls f.1 in ground (arith, rest, f.0)

pub lines_of-line :
    (ls : List OrderLine) {l : OrderLine} (p : ℕ)
    → Distinct line_product ls
    → find line_product p ls ≡ some l
    → lines_of p (map pack_line ls) ≡ remaining_quantity l
lines_of-line [] p d h = absurd (cc)
lines_of-line (x ∷ ls) {l} p d h = elim (Bool-cases (x.product == p)) [
  | inl here ↦
      let same : x ≡ l = ground arith in
      let key : x.product ≡ p = ground arith in
      let rest = lines_of-Fresh p ls (subst (λ j. Fresh line_product j ls) key d.0) in
      let mine = ap remaining_quantity same in rw here (omega (arith, rest, mine))
  | inr later ↦
      let rest = lines_of-line ls {l = l} p d.1 (ground arith) in rw later (omega (arith, rest))
]
