-- ===== src/Base/Outcome.antt =====
-- How a Go call ends: with a value, with a non-nil `error`, or by a panic (a read through a nil
-- pointer). Code that changes state is an `Action`: the state comes back however the call ends,
-- since what was written stays written.
use Prim.Native.String.{String, ◌++◌}
use mathlib.Core.Path.{◌≡◌, refl}
use mathlib.Core.Logic.{◌⊎◌, inl, inr}
use mathlib.Core.Bool.{Bool, true, false}
use mathlib.Core.Option.{Option, none, some}
use mathlib.Core.List.{List, [], ◌∷◌}
use text.Mathlib.Text.{find?}

-- `fmt.Errorf` with and without `%w` or `%v` of a cause. The numbers and names that a format string
-- puts into the text are left out.
pub data Error : Type 0 where
  message : String → Error
  wrapped : String → Error → Error

-- `err.Error()`
pub error_text : Error → String
error_text (message s) = s
error_text (wrapped s e) = s ++ (": " ++ error_text e)

-- `fmt.Errorf("%v: %w", e, nil)`
abbrev pub with_nil : Error → Error
with_nil e = message (error_text e ++ ": %!w(<nil>)")

abbrev pub is_some {ℓ} : {A : Type ℓ} → Option A → Bool
is_some none = false
is_some (some _) = true

-- `strings.Contains(s, t)`
pub contains : String → String → Bool
contains s t = is_some (find? s t)

pub data Outcome (A : Type 0) : Type 0 where
  ok : A → Outcome A
  err : Error → Outcome A
  panic : Outcome A

pub Outcome-cases :
    {A : Type 0} (o : Outcome A)
    → ((a : A) × (o ≡ ok a)) ⊎ ((e : Error) × (o ≡ err e)) ⊎ (o ≡ panic)
Outcome-cases (ok a) = inl (a, refl)
Outcome-cases (err e) = inr (inl (e, refl))
Outcome-cases panic = inr (inr refl)

-- What a call of code outside the repository answers: a value or an error.
pub data Reply (A : Type 0) : Type 0 where
  value : A → Reply A
  fault : Error → Reply A

pub Reply-cases :
    {A : Type 0} (r : Reply A) → ((a : A) × (r ≡ value a)) ⊎ ((e : Error) × (r ≡ fault e))
Reply-cases (value a) = inl (a, refl)
Reply-cases (fault e) = inr (e, refl)

abbrev pub outcome : {A : Type 0} → Reply A → Outcome A
outcome (value a) = ok a
outcome (fault e) = err e

-- One pure call after another.
abbrev pub and_then : {A B : Type 0} → Outcome A → (A → Outcome B) → Outcome B
and_then (ok a) f = f a
and_then (err e) f = err e
and_then panic f = panic

abbrev pub Action : Type 0 → Type 0 → Type 0
Action S A = S → Outcome A × S

module _ {S : Type 0} {A : Type 0} where
  unfoldable pub pure : A → Action S A
  pure a s = (ok a, s)

  -- `return err`
  unfoldable pub raise : Error → Action S A
  raise e s = (err e, s)

  unfoldable pub gets : (S → A) → Action S A
  gets f s = (ok (f s), s)

  -- `if err != nil { return fmt.Errorf("what: %w", err) }`
  unfoldable pub or_wrap : Action S A → String → Action S A
  or_wrap m what s =
      let (r, s') = m s in
      elim r [ ok a ↦ (ok a, s') | err e ↦ (err (wrapped what e), s') | panic ↦ (panic, s') ]

  -- A read through a pointer that may be nil.
  unfoldable pub deref : Option A → Action S A
  deref none s = (panic, s)
  deref (some a) s = (ok a, s)

  -- `if missing { return err }`
  unfoldable pub or_raise : Option A → Error → Action S A
  or_raise none e s = (err e, s)
  or_raise (some a) e s = (ok a, s)

  -- A pure call whose result is an `(A, error)`.
  unfoldable pub lift : Outcome A → Action S A
  lift r s = (r, s)

unfoldable pub modify : {S : Type 0} → (S → S) → Action S (Unit {0})
modify f s = (ok tt, f s)

-- What follows a call, by how it ended; a panic goes on.
abbrev pub settle :
    {S A B : Type 0} → (A → Action S B) → (Error → Action S B) → Outcome A → Action S B
settle f g (ok a) s = f a s
settle f g (err e) s = g e s
settle f g panic s = (panic, s)

infixl 5 ◌>>=◌ ◌>>◌
-- Opening this opens what blocks are made of.
unfoldable pub ◌>>=◌ : {S A B : Type 0} → Action S A → (A → Action S B) → Action S B
unfolding pure raise or_wrap gets deref or_raise lift modify
◌>>=◌ m f s = let (r, s') = m s in settle f raise r s'

abbrev pub ◌>>◌ : {S A B : Type 0} → Action S A → Action S B → Action S B
m >> k = m >>= λ _. k

-- `a, err := m(); if err != nil { … } else { … }`
unfoldable pub handle :
    {S A B : Type 0} → Action S A → (A → Action S B) → (Error → Action S B) → Action S B
unfolding ◌>>=◌
handle m f g s = let (r, s') = m s in settle f g r s'

-- A call whose error is only logged.
abbrev pub ignore : {S A : Type 0} → Action S A → Action S (Unit {0})
ignore m = handle m (λ _. pure tt) (λ _. pure tt)

-- `for _, x := range xs { … }`, where the body's errors stay inside it
unfoldable pub for_each : {S A : Type 0} → List A → (A → Action S (Unit {0})) → Action S (Unit {0})
unfolding handle
for_each [] body s = (ok tt, s)
for_each (x ∷ xs) body s = let (r, s') = body x s in settle (λ _. for_each xs body) raise r s'
