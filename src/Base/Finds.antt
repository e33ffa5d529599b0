-- ===== src/Base/Finds.antt =====
-- Actions that return a value.
use mathlib.Core.Path.{◌≡◌}
use spotted_network.Base.Outcome.{Outcome, ok, Action, ◌>>=◌}

-- The call returned a value, which satisfies `Q`.
abbrev pub Finds : {A : Type 0} → (A → Type 0) → Outcome A → Type 0
Finds {A = A} Q o = (a : A) × (o ≡ ok a) × Q a

pub Finds-bind :
    {S A B : Type 0} (R : A → Type 0) (Q : B → Type 0) (m : Action S A) (f : A → Action S B) (s : S)
    → Finds R (m s).0
    → ((a : A) (s' : S) → R a → Finds Q (f a s').0)
    → Finds Q ((m >>= f) s).0
unfolding ◌>>=◌
Finds-bind R Q m f s (a, e, r) k = rw e (k a (m s).1 r)
