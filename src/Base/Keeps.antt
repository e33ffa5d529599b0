-- ===== src/Base/Keeps.antt =====
-- Invariants of actions: one rule for each way to build an action, as a rule set for `search`.
use mathlib.Core.Path.{◌≡◌, refl, sym, subst}
use mathlib.Core.Bool.{Bool, true, false}
use mathlib.Core.Option.{Option, none, some}
use mathlib.Core.List.{List, [], ◌∷◌}
use native.Mathlib.Omega.{arith}
use spotted_network.Base.Tests.{if◌then◌else◌}
use Prim.Native.String.{String}
use spotted_network.Base.Outcome.{
  Error, Outcome, ok, err, panic, Action, pure, raise, gets, or_wrap, or_raise, deref, lift, modify,
  ◌>>=◌, settle, handle, for_each,
}

-- `m` keeps `P`, however it ends.
pub record Keeps {S A : Type 0} (P : S → Type 0) (m : Action S A) : Type 0 where
  pub at : (s : S) → P s → P (m s).1

module _ {S A : Type 0} {P : S → Type 0} where
  -- Any pair of a value and the state that was there.
  untouched : {m : Action S A} → ((s : S) → (m s).1 ≡ s) → Keeps P m
  untouched same = record { at = λ s holds. subst P (sym (same s)) holds }

  pub Keeps-deref : (pointer : Option A) → Keeps P (deref pointer)
  unfolding deref
  Keeps-deref none = untouched (λ s. refl)
  Keeps-deref (some target) = untouched (λ s. refl)

  pub Keeps-or_raise : (pointer : Option A) (e : Error) → Keeps P (or_raise pointer e)
  unfolding or_raise
  Keeps-or_raise none e = untouched (λ s. refl)
  Keeps-or_raise (some target) e = untouched (λ s. refl)

  pub Keeps-pure : (result : A) → Keeps P (pure result)
  unfolding pure
  Keeps-pure result = untouched (λ s. refl)

  pub Keeps-raise : (e : Error) → Keeps P (raise {A = A} e)
  unfolding raise
  Keeps-raise e = untouched (λ s. refl)

  pub Keeps-gets : (view : S → A) → Keeps P (gets view)
  unfolding gets
  Keeps-gets view = untouched (λ s. refl)

  pub Keeps-lift : (result : Outcome A) → Keeps P (lift result)
  unfolding lift
  Keeps-lift result = untouched (λ s. refl)

  pub Keeps-or_wrap : (m : Action S A) (what : String) → Keeps P m → Keeps P (or_wrap m what)
  unfolding or_wrap
  Keeps-or_wrap m what k = record { at = λ s h. ground (arith, k.at s h) }

  -- Each branch may use the test that leads to it.
  pub Keeps-if :
      (test : Bool) (left right : Action S A)
      → (test ≡ true → Keeps P left)
      → (test ≡ false → Keeps P right)
      → Keeps P (if test then left else right)
  Keeps-if false left right on_true on_false = on_false refl
  Keeps-if true left right on_true on_false = on_true refl

pub Keeps-modify :
    {S : Type 0} {P : S → Type 0} (f : S → S) → ((s : S) → P s → P (f s)) → Keeps P (modify f)
unfolding modify
Keeps-modify f k = record { at = k }

module _ {S A B : Type 0} {P : S → Type 0} where
  Keeps-settle :
      (r : Outcome A) (f : A → Action S B) (g : Error → Action S B)
      → ((a : A) → Keeps P (f a))
      → ((e : Error) → Keeps P (g e))
      → Keeps P (settle f g r)
  Keeps-settle (ok a) f g kf kg = record { at = λ s h. (kf a).at s h }
  Keeps-settle (err e) f g kf kg = record { at = λ s h. (kg e).at s h }
  Keeps-settle panic f g kf kg = record { at = λ s h. h }

  pub Keeps-bind :
      (first : Action S A) (next : A → Action S B)
      → Keeps P first
      → ((x : A) → Keeps P (next x))
      → Keeps P (first >>= next)
  unfolding ◌>>=◌
  Keeps-bind first next kept then_kept = record {
    at = λ start before.
        (Keeps-settle (first start).0 next raise then_kept Keeps-raise).at (first start).1
          (kept.at start before);
  }

  pub Keeps-handle :
      (m : Action S A) (f : A → Action S B) (g : Error → Action S B)
      → Keeps P m
      → ((a : A) → Keeps P (f a))
      → ((e : Error) → Keeps P (g e))
      → Keeps P (handle m f g)
  unfolding handle
  Keeps-handle m f g km kf kg = record {
    at = λ s h. let (r, s') = m s in (Keeps-settle r f g kf kg).at s' (km.at s h);
  }

pub Keeps-for_each :
    {S A : Type 0} {P : S → Type 0} (items : List A) (body : A → Action S (Unit {0}))
    → ((item : A) → Keeps P (body item))
    → Keeps P (for_each items body)
unfolding for_each
Keeps-for_each [] body each = record { at = λ s holds. holds }
Keeps-for_each (item ∷ more) body each =
    let remaining = Keeps-for_each more body each in
    record {
      at = λ s holds.
          (Keeps-settle (body item s).0 (λ _. for_each more body) raise (λ _. remaining)
              Keeps-raise).at
            (body item s).1 ((each item).at s holds);
    }

-- In the order in which a search tries them.
pub ruleset keeps_rules = (
  Keeps-bind, Keeps-handle, Keeps-if, Keeps-or_wrap, Keeps-deref, Keeps-or_raise, Keeps-for_each,
  Keeps-modify, Keeps-pure, Keeps-raise, Keeps-gets, Keeps-lift,
)
