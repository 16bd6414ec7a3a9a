-- ===== src/Base/Effects.antt =====
-- Computations that return a value or throw, and thread a state through their steps.
use mathlib.Core.Bool.{Bool, true, false}
use gram_coding_agent.Base.Results.{Result, ok, err}

-- A step reads a state and returns its result with the new state, also where it throws.
abbrev pub Eff : Type 0 → Type 0 → Type 0 → Type 0
Eff S E A = S → Result E A × S

abbrev pub and_then : {S E A B : Type 0} → (A → Eff S E B) → Result E A × S → Result E B × S
and_then f (ok a, s) = f a s
and_then f (err e, s) = (err e, s)

infixl 5 ◌>>=◌ ◌>>◌
abbrev pub ◌>>=◌ : {S E A B : Type 0} → Eff S E A → (A → Eff S E B) → Eff S E B
◌>>=◌ m f s = and_then f (m s)

abbrev pub ◌>>◌ : {S E A B : Type 0} → Eff S E A → Eff S E B → Eff S E B
m >> k = m >>= λ _. k

abbrev pub pure : {S E A : Type 0} → A → Eff S E A
pure a s = (ok a, s)

abbrev pub throw : {S E A : Type 0} → E → Eff S E A
throw e s = (err e, s)

-- `if (!test) throw e`
abbrev pub require : {S E : Type 0} → Bool → E → Eff S E (Unit {0})
require true e = pure tt
require false e = throw e
