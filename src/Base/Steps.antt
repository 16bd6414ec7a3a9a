-- ===== src/Base/Steps.antt =====
-- Calls on ports, recorded in the order they are made, and what a computation made of them leaves.
use mathlib.Core.Path.{◌≡◌, refl}
use mathlib.Core.Bool.{Bool, true, false}
use mathlib.Core.Option.{Option, none, some}
use mathlib.Core.List.{List, [], ◌∷◌, ◌++◌}
use gram_coding_agent.Base.Results.{Result, ok, err}
use gram_coding_agent.Base.Effects.{Eff, and_then, require}

module _ {C E A : Type 0} where
  -- The call c on a port, which answers by the calls made before it; where it throws, it is still made.
  unfoldable pub attempt : E → C → (List C → Option A) → Eff (List C) E A
  attempt e c port calls = elim (port calls) [
    | none ↦ (err e, calls ++ c ∷ [])
    | some a ↦ (ok a, calls ++ c ∷ [])
  ]

module _ {C E A : Type 0} where
  -- a value that must be there; nothing is called
  unfoldable pub expect : E → Option A → Eff (List C) E A
  expect e none calls = (err e, calls)
  expect e (some a) calls = (ok a, calls)

-- what holds of a result and the state left with it
abbrev pub Outcome :
    {S E A : Type 0} → (A → S → Type 0) → (E → S → Type 0) → Result E A × S → Type 0
Outcome post fail (ok a, s) = post a s
Outcome post fail (err e, s) = fail e s

module _ {C E A B : Type 0} (post : B → List C → Type 0) (fail : E → List C → Type 0) where
  answered :
      (e : E) (c : C) (f : A → Eff (List C) E B) (calls : List C) (answer : Option A)
      → fail e (calls ++ c ∷ [])
      → ((a : A) → answer ≡ some a → Outcome post fail (f a (calls ++ c ∷ [])))
      → Outcome post fail (
          and_then f
            (elim answer [ none ↦ (err e, calls ++ c ∷ []) | some a ↦ (ok a, calls ++ c ∷ []) ]))
  answered e c f calls none stop next = stop
  answered e c f calls (some a) stop next = next a refl

  -- a call followed by the rest of a computation
  pub attempt_then :
      (e : E) (c : C) (port : List C → Option A) (f : A → Eff (List C) E B) (calls : List C)
      → fail e (calls ++ c ∷ [])
      → ((a : A) → port calls ≡ some a → Outcome post fail (f a (calls ++ c ∷ [])))
      → Outcome post fail (and_then f (attempt e c port calls))
  unfolding attempt
  attempt_then e c port f calls stop next = answered e c f calls (port calls) stop next

  pub expect_then :
      (e : E) (o : Option A) (f : A → Eff (List C) E B) (calls : List C)
      → fail e calls
      → ((a : A) → o ≡ some a → Outcome post fail (f a calls))
      → Outcome post fail (and_then f (expect e o calls))
  unfolding expect
  expect_then e none f calls stop next = stop
  expect_then e (some a) f calls stop next = next a refl

module _ {C E B : Type 0} (post : B → List C → Type 0) (fail : E → List C → Type 0) where
  -- a test that throws where it fails, followed by the rest
  pub require_then :
      (b : Bool) (e : E) (f : Unit {0} → Eff (List C) E B) (calls : List C)
      → fail e calls
      → (b ≡ true → Outcome post fail (f tt calls))
      → Outcome post fail (and_then f (require b e calls))
  require_then true e f calls stop next = next refl
  require_then false e f calls stop next = stop

-- a computation followed by another, by what holds after each
pub then_lem :
    {S E A B : Type 0} (mid : A → S → Type 0) (post : B → S → Type 0) (fail : E → S → Type 0)
    (f : A → Eff S E B) (o : Result E A × S)
    → Outcome mid fail o
    → ((a : A) (s : S) → mid a s → Outcome post fail (f a s))
    → Outcome post fail (and_then f o)
then_lem mid post fail f (ok a, s) h next = next a s h
then_lem mid post fail f (err e, s) h next = h

module _ {C E A : Type 0} (post : A → List C → Type 0) (fail : E → List C → Type 0) where
  -- a call that ends a computation
  pub attempt_last :
      (e : E) (c : C) (port : List C → Option A) (calls : List C)
      → fail e (calls ++ c ∷ [])
      → ((a : A) → post a (calls ++ c ∷ []))
      → Outcome post fail (attempt e c port calls)
  unfolding attempt
  attempt_last e c port calls stop done =
      elim (port calls)
        as (λ o.
          Outcome post fail
            (elim o [ none ↦ (err e, calls ++ c ∷ []) | some a ↦ (ok a, calls ++ c ∷ []) ])) [
              | none ↦ stop
              | some a ↦ done a
            ]
