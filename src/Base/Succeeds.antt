-- ===== src/Base/Succeeds.antt =====
-- Actions that succeed from every state.
use mathlib.Core.Path.{◌≡◌, refl}
use Prim.Native.String.{String}
use native.Mathlib.Omega.{arith}
use spotted_network.Base.Outcome.{ok, Action, pure, or_wrap, modify, ◌>>=◌}

pub record Succeeds {S A : Type 0} (m : Action S A) : Type 0 where
  pub at : (s : S) → (a : A) × ((m s).0 ≡ ok a)

module _ {S A : Type 0} where
  pub Succeeds-pure : (a : A) → Succeeds {S = S} (pure a)
  unfolding pure
  Succeeds-pure a = record { at = λ s. (a, refl) }

  pub Succeeds-or_wrap : (m : Action S A) (what : String) → Succeeds m → Succeeds (or_wrap m what)
  unfolding or_wrap
  Succeeds-or_wrap m what k = record { at = λ s. let (a, e) = k.at s in (a, ground (arith, e)) }

pub Succeeds-modify : {S : Type 0} (f : S → S) → Succeeds (modify f)
unfolding modify
Succeeds-modify f = record { at = λ s. (tt, refl) }

pub Succeeds-bind :
    {S A B : Type 0} (m : Action S A) (f : A → Action S B)
    → Succeeds m
    → ((a : A) → Succeeds (f a))
    → Succeeds (m >>= f)
unfolding ◌>>=◌
Succeeds-bind m f km kf = record {
  at = λ s. let (a, e) = km.at s in let (b, e') = (kf a).at (m s).1 in (b, rw e e');
}

pub ruleset succeeds_rules = (Succeeds-bind, Succeeds-or_wrap, Succeeds-modify, Succeeds-pure)
