-- ===== src/Base/Leads.antt =====
-- What an action that succeeds leaves behind, from what was there before it.
use Prim.Native.String.{String}
use spotted_network.Base.Outcome.{Outcome, ok, err, panic, Action, pure, or_wrap, modify, ◌>>=◌}
use spotted_network.Base.Keeps.{Keeps}
use spotted_network.Base.Returns.{Answers, Returns}

-- A result and a state satisfy `Q`, where there is a result.
abbrev pub After : {S A : Type 0} → (A → S → Type 0) → Outcome A → S → Type 0
After Q (ok a) s = Q a s
After Q (err e) s = Unit
After Q panic s = Unit

pub record Leads {S A : Type 0} (P : S → Type 0) (m : Action S A) (Q : A → S → Type 0)
    : Type 0 where
  pub from : (s : S) → P s → After Q (m s).0 (m s).1

module _ {S A : Type 0} {P : S → Type 0} where
  pub Leads-pure : (Q : A → S → Type 0) (a : A) → ((s : S) → P s → Q a s) → Leads P (pure a) Q
  unfolding pure
  Leads-pure Q a k = record { from = k }

  -- An invariant, as what success leaves behind.
  pub Leads-stays : (m : Action S A) → Keeps P m → Leads P m (λ _. P)
  Leads-stays m k = record { from = λ s h. stays (m s) (k.at s h) }
    where
      stays : (p : Outcome A × S) → P p.1 → After {A = A} (λ _. P) p.0 p.1
      stays (ok a, s) h = h
      stays (err e, s) h = tt
      stays (panic, s) h = tt

  pub Leads-or_wrap :
      {Q : A → S → Type 0} (m : Action S A) (what : String)
      → Leads P m Q
      → Leads P (or_wrap m what) Q
  unfolding or_wrap
  Leads-or_wrap {Q = Q} m what k = record { from = λ s h. wrap (m s) (k.from s h) }
    where
      wrap :
          (p : Outcome A × S)
          → After Q p.0 p.1
          → After Q (or_wrap (λ s. p) what p.1).0 (or_wrap (λ s. p) what p.1).1
      wrap (ok a, s) q = q
      wrap (err e, s) q = tt
      wrap (panic, s) q = tt

  pub Leads-Keeps :
      (R : A → Type 0) (m : Action S A) → Keeps P m → Returns R m → Leads P m (λ a s. R a × P s)
  Leads-Keeps R m k r = record { from = λ s h. both (m s) (r.from s) (k.at s h) }
    where
      both : (p : Outcome A × S) → Answers R p.0 → P p.1 → After (λ a s. R a × P s) p.0 p.1
      both (ok a, s) r h = (r, h)
      both (err e, s) r h = tt
      both (panic, s) r h = tt

module _ {S A B : Type 0} {P : S → Type 0} (Q : A → S → Type 0) {R : B → S → Type 0} where
  pub Leads-bind :
      (m : Action S A) (f : A → Action S B)
      → Leads P m Q
      → ((a : A) → Leads (Q a) (f a) R)
      → Leads P (m >>= f) R
  unfolding ◌>>=◌
  Leads-bind m f km kf = record { from = λ s h. next (m s) (km.from s h) }
    where
      next :
          (p : Outcome A × S)
          → After Q p.0 p.1
          → After R (((λ (s : S). p) >>= f) p.1).0 (((λ (s : S). p) >>= f) p.1).1
      next (ok a, s) q = (kf a).from s q
      next (err e, s) q = tt
      next (panic, s) q = tt

pub Leads-modify :
    {S : Type 0} {P Q : S → Type 0} (f : S → S)
    → ((s : S) → P s → Q (f s))
    → Leads P (modify f) (λ _. Q)
unfolding modify
Leads-modify f k = record { from = k }
