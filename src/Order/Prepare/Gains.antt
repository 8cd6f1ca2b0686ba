-- ===== src/Order/Prepare/Gains.antt =====
-- What packing adds to the prepared quantities of the lines (wms/domain/orders.py,
-- `pack_carton_from_reserved` as `prepare_order` calls it).
use asf_wms.Prelude.{
  ℕ, ◌+◌, ◌==◌, ◌≡◌, refl, sym, ap, ◌∙◌, inl, inr, some, List, [], ◌∷◌, map, if◌then◌else◌,
  Bool-cases, arith,
}
use mathlib.Core.Path.{subst}
use native.Mathlib.Nat.{add_assoc}
use asf_wms.Prelude.Table.{find, update, Fresh, Distinct, map-Distinct, unmap-Distinct}
use asf_wms.Order.Model.{OrderLine, line_pk}
use asf_wms.Order.Ready.Step.{unreserved}

-- A line with more prepared, and without its reserved quantity.
abbrev pub raised : (ℕ → ℕ) → OrderLine → OrderLine
raised g l = record l { reserved_quantity = 0; prepared_quantity = l.prepared_quantity + g l.id }

-- The lines gain `g` of their keys, but for what they have reserved.
abbrev pub Gains : (ℕ → ℕ) → List OrderLine → List OrderLine → Type 0
Gains g ls ls' = map unreserved ls' ≡ map (raised g) ls

pub Gains-none : (ls : List OrderLine) → Gains (λ _. 0) ls ls
Gains-none [] = refl
Gains-none (l ∷ ls) =
    let same : l.prepared_quantity ≡ l.prepared_quantity + 0 = omega arith in
    cc (Gains-none ls, same)

raised-unreserved :
    (g : ℕ → ℕ) (ls : List OrderLine) → map (raised g) (map unreserved ls) ≡ map (raised g) ls
raised-unreserved g [] = refl
raised-unreserved g (l ∷ ls) = ap (λ t. raised g l ∷ t) (raised-unreserved g ls)

raised-raised :
    (g h : ℕ → ℕ) (ls : List OrderLine)
    → map (raised h) (map (raised g) ls) ≡ map (raised (λ j. g j + h j)) ls
raised-raised g h [] = refl
raised-raised g h (l ∷ ls) =
    let n = add_assoc l.prepared_quantity (g l.id) (h l.id) in
    ap
      (λ m.
        record l { reserved_quantity = 0; prepared_quantity = m }
        ∷ map (raised h) (map (raised g) ls))
      n
    ∙ ap (λ t. raised (λ j. g j + h j) l ∷ t) (raised-raised g h ls)

pub Gains-trans :
    (g h : ℕ → ℕ) (xs ys zs : List OrderLine)
    → Gains g xs ys
    → Gains h ys zs
    → Gains (λ j. g j + h j) xs zs
Gains-trans g h xs ys zs p q =
    q ∙ sym (raised-unreserved h ys) ∙ ap (map (raised h)) p ∙ raised-raised g h xs

pub Gains-Distinct :
    (g : ℕ → ℕ) (xs ys : List OrderLine) → Gains g xs ys → Distinct line_pk xs → Distinct line_pk ys
Gains-Distinct g xs ys p d =
    unmap-Distinct line_pk unreserved (λ _. refl) ys
      (subst (Distinct line_pk) (sym p) (map-Distinct line_pk (raised g) xs (λ _. refl) d))

-- `n` for one key.
abbrev pub only : ℕ → ℕ → ℕ → ℕ
only k n j = if k == j then n else 0

Gains-Fresh : (k n : ℕ) (ls : List OrderLine) → Fresh line_pk k ls → Gains (only k n) ls ls
Gains-Fresh k n [] f = refl
Gains-Fresh k n (l ∷ ls) f =
    let zero_gain : l.prepared_quantity ≡ l.prepared_quantity + only k n l.id =
      ground (arith, f.0) in
    ap (λ m. record l { reserved_quantity = 0; prepared_quantity = m } ∷ map unreserved ls)
      zero_gain
    ∙ ap (λ t. raised (only k n) l ∷ t) (Gains-Fresh k n ls f.1)

pub Gains-update :
    (k n a : ℕ) (ls : List OrderLine) {line : OrderLine}
    → Distinct line_pk ls
    → find line_pk k ls ≡ some line
    → Gains (only k n) ls (
        update line_pk k
          (λ l. record l { reserved_quantity = a; prepared_quantity = line.prepared_quantity + n })
          ls)
Gains-update k n a [] d h = absurd (cc)
Gains-update k n a (l ∷ ls) {line} d h = elim (Bool-cases (l.id == k)) [
  | inl here ↦
      let same : l ≡ line = ground arith in
      let key : l.id ≡ k = ground arith in
      let gain : line.prepared_quantity + n ≡ l.prepared_quantity + only k n l.id =
        rw same (ground arith) in
      rw here (
        ap (λ m. record l { reserved_quantity = 0; prepared_quantity = m } ∷ map unreserved ls) gain
        ∙ ap (λ t. raised (only k n) l ∷ t)
            (Gains-Fresh k n ls (subst (λ j. Fresh line_pk j ls) key d.0)))
  | inr later ↦
      let zero_gain : l.prepared_quantity ≡ l.prepared_quantity + only k n l.id = ground arith in
      let rest = Gains-update k n a ls {line = line} d.1 (ground arith) in
      rw later (
        ap
          (λ m.
            record l { reserved_quantity = 0; prepared_quantity = m }
            ∷ map unreserved (
                update line_pk k
                  (λ x. record x {
                    reserved_quantity = a;
                    prepared_quantity = line.prepared_quantity + n;
                  })
                  ls))
          zero_gain
        ∙ ap (λ t. raised (only k n) l ∷ t) rest)
]
