-- ===== src/Prelude/Results.antt =====
-- Results of operations that may raise. The operations of the model run inside
-- `transaction.atomic`, so an error carries no state: what was written is rolled back.
use mathlib.Core.Bool.{Bool, true, false}
use mathlib.Core.Option.{Option, none, some}
use mathlib.Core.Path.{◌≡◌, refl, ap, subst}

pub data Result {ℓ κ} (E : Type κ) (A : Type ℓ) : Type (ℓ ⊔ κ) where
  ok : A → Result E A
  err : E → Result E A

-- `if o is None: raise e`
abbrev pub or_raise {ℓ κ} : {E : Type κ} {A : Type ℓ} → Option A → E → Result E A
or_raise (some a) e = ok a
or_raise none e = err e

-- `if c: raise e`
abbrev pub raise_if {κ} : {E : Type κ} → Bool → E → Result E (Unit {0})
raise_if false e = ok tt
raise_if true e = err e

infixl 5 ◌>>=◌ ◌>>◌
abbrev pub ◌>>=◌ {ℓ κ μ} :
    {E : Type κ} {A : Type ℓ} {B : Type μ} → Result E A → (A → Result E B) → Result E B
err e >>= next = err e
ok a >>= next = next a

-- What a chain of two that succeeds went through.
pub >>=-eq-ok {ℓ κ μ} :
    {E : Type κ} {A : Type ℓ} {B : Type μ} (r : Result E A) (next : A → Result E B) {last : B}
    → (r >>= next) ≡ ok last
    → (a : A) × (r ≡ ok a) × (next a ≡ ok last)
>>=-eq-ok (err e) next done = cc
>>=-eq-ok (ok a) next done = (a, refl, done)

abbrev pub ◌>>◌ {ℓ κ} : {E : Type κ} {B : Type ℓ} → Result E (Unit {0}) → Result E B → Result E B
check >> rest = check >>= (λ _. rest)

module _ {ℓ κ μ} {E : Type κ} {A : Type ℓ} where
  abbrev held : A → Result E A → A
  held d (ok a) = a
  held d (err _) = d

  -- What holds of a value holds of the value that a result is equal to.
  pub ok_transport : (P : A → Type μ) {a b : A} → ◌≡◌ {A = Result E A} (ok a) (ok b) → P a → P b
  ok_transport P {a} {b} h p = subst P (ap (held a) h) p

pub or_raise-eq-ok {ℓ κ} :
    {E : Type κ} {A : Type ℓ} (o : Option A) (e : E) {a : A} → or_raise o e ≡ ok a → o ≡ some a
or_raise-eq-ok none e h = cc
or_raise-eq-ok (some b) e {a} h = ok_transport (λ x. some b ≡ some x) h refl
