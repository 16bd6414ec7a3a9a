-- ===== src/Base/Results.antt =====
-- A computation that returns a value or throws.
use mathlib.Core.Path.{◌≡◌, refl, sym}
use mathlib.Core.Logic.{◌⊎◌, ◌≢◌, inl, inr}
use mathlib.Core.Bool.{Bool, true, false}

-- A value, or a thrown error.
pub data Result (E A : Type 0) : Type 0 where
  ok : A → Result E A
  err : E → Result E A

abbrev pub is_ok : {E A : Type 0} → Result E A → Bool
is_ok (ok _) = true
is_ok (err _) = false

infixl 5 ◌>>=◌ ◌>>◌
abbrev pub ◌>>=◌ : {E A B : Type 0} → Result E A → (A → Result E B) → Result E B
ok a >>= f = f a
err e >>= f = err e

abbrev pub ◌>>◌ : {E A B : Type 0} → Result E A → Result E B → Result E B
m >> k = m >>= λ _. k

-- `if (!test) throw e`
abbrev pub guard : {E : Type 0} → Bool → E → Result E (Unit {0})
guard true e = ok tt
guard false e = err e

pub ok≢err : {E A : Type 0} {a : A} {e : E} → (ok a ≢ err e)
ok≢err h = cc

pub ok-inj : {E A : Type 0} {a b : A} → (let r : Result E A = ok a in r ≡ ok b) → a ≡ b
ok-inj h = cc

pub Result-cases :
    {E A : Type 0} (r : Result E A) → ((a : A) × (r ≡ ok a)) ⊎ ((e : E) × (r ≡ err e))
Result-cases (ok a) = inl (a, refl)
Result-cases (err e) = inr (e, refl)

module _ {E : Type 0} where
  -- a computation that returns, taken apart
  pub bind-ok :
      {A B : Type 0} (r : Result E A) (f : A → Result E B) (b : B)
      → (r >>= f) ≡ ok b
      → (a : A) × ((r ≡ ok a) × (f a ≡ ok b))
  bind-ok (ok a) f b h = (a, (refl, h))
  bind-ok (err e) f b h = absurd (ok≢err (sym h))

  pub guard-ok : (b : Bool) (e : E) (u : Unit {0}) → guard b e ≡ ok u → b ≡ true
  guard-ok true e u h = refl
  guard-ok false e u h = absurd (ok≢err (sym h))
