-- ===== src/Base/Returns.antt =====
-- What the value of an action satisfies, wherever it started.
use spotted_network.Base.Tests.{if◌then◌else◌}
use mathlib.Core.Path.{◌≡◌, refl}
use mathlib.Core.Bool.{Bool, true, false}
use mathlib.Core.Option.{Option, none, some}
use Prim.Native.String.{String}
use spotted_network.Base.Outcome.{
  Error, Outcome, ok, err, panic, Action, pure, raise, or_wrap, lift, deref, ◌>>=◌, settle, handle,
}
use spotted_network.Base.Keeps.{Keeps}

-- A value that is there satisfies `Q`.
abbrev pub Answers : {A : Type 0} → (A → Type 0) → Outcome A → Type 0
Answers Q (ok a) = Q a
Answers Q (err e) = Unit
Answers Q panic = Unit

pub Answers-self : {A : Type 0} (o : Outcome A) → Answers (λ a. o ≡ ok a) o
Answers-self (ok a) = refl
Answers-self (err e) = tt
Answers-self panic = tt

pub record Returns {S A : Type 0} (Q : A → Type 0) (m : Action S A) : Type 0 where
  pub from : (s : S) → Answers Q (m s).0

pub Returns-deref : {S A : Type 0} (o : Option A) → Returns {S = S} (λ a. o ≡ some a) (deref o)
unfolding deref
Returns-deref none = record { from = λ s. tt }
Returns-deref (some a) = record { from = λ s. refl }

module _ {S A : Type 0} {Q : A → Type 0} where
  pub Returns-pure : (a : A) → Q a → Returns {S = S} Q (pure a)
  unfolding pure
  Returns-pure a q = record { from = λ s. q }

  pub Returns-raise : (e : Error) → Returns {S = S} Q (raise e)
  unfolding raise
  Returns-raise e = record { from = λ s. tt }

  pub Returns-lift : (r : Outcome A) → Answers Q r → Returns {S = S} Q (lift r)
  unfolding lift
  Returns-lift r q = record { from = λ s. q }

  pub Returns-or_wrap : (m : Action S A) (what : String) → Returns Q m → Returns Q (or_wrap m what)
  unfolding or_wrap
  Returns-or_wrap m what k = record { from = λ s. wrap (m s) (k.from s) }
    where
      wrap :
          (p : Outcome A × S)
          → Answers Q p.0
          → Answers Q
              (elim p.0 as (λ _. Outcome A × S) [
                | ok a ↦ (ok a, p.1)
                | err e ↦ (err (Error.wrapped what e), p.1)
                | panic ↦ (panic, p.1)
              ]).0
      wrap (ok a, s) q = q
      wrap (err e, s) q = tt
      wrap (panic, s) q = tt

  pub Returns-if :
      (b : Bool) (m n : Action S A)
      → (b ≡ true → Returns Q m)
      → (b ≡ false → Returns Q n)
      → Returns Q (if b then m else n)
  Returns-if true m n km kn = km refl
  Returns-if false m n km kn = kn refl

module _ {S A B : Type 0} (R : A → Type 0) {Q : B → Type 0} where
  Answers-settle :
      (r : Outcome A) (f : A → Action S B) (g : Error → Action S B) (s : S)
      → Answers R r
      → ((a : A) → R a → Returns Q (f a))
      → ((e : Error) → Returns Q (g e))
      → Answers Q (settle f g r s).0
  Answers-settle (ok a) f g s q kf kg = (kf a q).from s
  Answers-settle (err e) f g s q kf kg = (kg e).from s
  Answers-settle panic f g s q kf kg = tt

  pub Returns-bind :
      (m : Action S A) (f : A → Action S B)
      → Returns R m
      → ((a : A) → R a → Returns Q (f a))
      → Returns Q (m >>= f)
  unfolding ◌>>=◌
  Returns-bind m f km kf = record {
    from = λ s. Answers-settle (m s).0 f raise (m s).1 (km.from s) kf Returns-raise;
  }

  pub Returns-handle :
      (m : Action S A) (f : A → Action S B) (g : Error → Action S B)
      → Returns R m
      → ((a : A) → R a → Returns Q (f a))
      → ((e : Error) → Returns Q (g e))
      → Returns Q (handle m f g)
  unfolding handle
  Returns-handle m f g km kf kg = record {
    from = λ s. Answers-settle (m s).0 f g (m s).1 (km.from s) kf kg;
  }

module _ {S A B : Type 0} (R : A → Type 0) {P : S → Type 0} where
  Keeps-settle :
      (r : Outcome A) (f : A → Action S B) (g : Error → Action S B) (s : S)
      → Answers R r
      → ((a : A) → R a → Keeps P (f a))
      → ((e : Error) → Keeps P (g e))
      → P s
      → P (settle f g r s).1
  Keeps-settle (ok a) f g s q kf kg h = (kf a q).at s h
  Keeps-settle (err e) f g s q kf kg h = (kg e).at s h
  Keeps-settle panic f g s q kf kg h = h

  -- The rules of `Base.Keeps` where what follows may use what the first action returns.
  pub Keeps-handle_with :
      (m : Action S A) (f : A → Action S B) (g : Error → Action S B)
      → Returns R m
      → Keeps P m
      → ((a : A) → R a → Keeps P (f a))
      → ((e : Error) → Keeps P (g e))
      → Keeps P (handle m f g)
  unfolding handle
  Keeps-handle_with m f g rm km kf kg = record {
    at = λ s h. Keeps-settle (m s).0 f g (m s).1 (rm.from s) kf kg (km.at s h);
  }

  pub Keeps-bind_with :
      (m : Action S A) (f : A → Action S B)
      → Returns R m
      → Keeps P m
      → ((a : A) → R a → Keeps P (f a))
      → Keeps P (m >>= f)
  unfolding ◌>>=◌ raise
  Keeps-bind_with m f rm km kf = record {
    at = λ s h.
        Keeps-settle (m s).0 f raise (m s).1 (rm.from s) kf (λ e. record { at = λ s h. h })
          (km.at s h);
  }

  -- The same, where what the first action returns is known from the invariant.
  pub Keeps-handle_when :
      (m : Action S A) (f : A → Action S B) (g : Error → Action S B)
      → ((s : S) → P s → Answers R (m s).0)
      → Keeps P m
      → ((a : A) → R a → Keeps P (f a))
      → ((e : Error) → Keeps P (g e))
      → Keeps P (handle m f g)
  unfolding handle
  Keeps-handle_when m f g rm km kf kg = record {
    at = λ s h. Keeps-settle (m s).0 f g (m s).1 (rm s h) kf kg (km.at s h);
  }
