-- ===== src/Watch/Logs.antt =====
-- Logs of events by block, and their parts from a block on.
use spotted_network.Base.{
  ℕ, ◌+◌, ◌≤◌, ◌<◌, ◌≡◌, refl, ap, inl, inr, Bool, true, false, List, [], ◌∷◌, ◌++◌, arith, leb,
  if◌then◌else◌, Bool-cases,
}
use spotted_network.Base.Lists.{All}

module _ {E : Type 0} (block : E → ℕ) where
  -- The events of a list from a block on.
  unfoldable pub from : ℕ → List E → List E
  from first [] = []
  from first (e ∷ l) = let rest = from first l in if leb first (block e) then e ∷ rest else rest

  -- A later log has more events, all of them in later blocks.
  abbrev pub Extends : List E → List E → Type 0
  Extends old now =
      (new : List E) × (now ≡ old ++ new) × All (λ e. All (λ o. block o < block e) old) new

  pub from-append : (first : ℕ) (l m : List E) → from first (l ++ m) ≡ from first l ++ from first m
  unfolding from
  from-append first [] m = refl
  from-append first (e ∷ l) m = elim (Bool-cases (leb first (block e))) [
    | inl late ↦ rw late (ap (λ x. e ∷ x) (from-append first l m))
    | inr early ↦ rw early (from-append first l m)
  ]

  pub from-old : (first : ℕ) (l : List E) → All (λ e. block e < first) l → from first l ≡ []
  unfolding from
  from-old first [] old = refl
  from-old first (e ∷ l) (early, old) = ground (arith, from-old first l old)

  -- Two bounds that the blocks of a list do not fall between.
  pub from-same :
      (a b : ℕ) (l : List E) → All (λ e. leb a (block e) ≡ leb b (block e)) l → from a l ≡ from b l
  unfolding from
  from-same a b [] same = refl
  from-same a b (e ∷ l) (here, same) = rw (here, from-same a b l same) refl

  pub append-nil : (l : List E) → l ++ [] ≡ l
  append-nil [] = refl
  append-nil (e ∷ l) = ap (λ x. e ∷ x) (append-nil l)

  pub append_assoc : (l m k : List E) → (l ++ m) ++ k ≡ l ++ (m ++ k)
  append_assoc [] m k = refl
  append_assoc (e ∷ l) m k = ap (λ x. e ∷ x) (append_assoc l m k)

  pub All-append : (P : E → Type 0) (l m : List E) → All P l → All P m → All P (l ++ m)
  All-append P [] m a b = b
  All-append P (e ∷ l) m (p, a) b = (p, All-append P l m a b)

  pub All-split : (P : E → Type 0) (l m : List E) → All P (l ++ m) → All P l × All P m
  All-split P [] m a = (tt, a)
  All-split P (e ∷ l) m (p, a) = let (x, y) = All-split P l m a in ((p, x), y)

  pub All-weaken : (P Q : E → Type 0) (l : List E) → ((e : E) → P e → Q e) → All P l → All Q l
  All-weaken P Q [] f a = tt
  All-weaken P Q (e ∷ l) f (p, a) = (f e p, All-weaken P Q l f a)

  pub All-from : (P : E → Type 0) (first : ℕ) (l : List E) → All P l → All P (from first l)
  unfolding from
  All-from P first [] a = tt
  All-from P first (e ∷ l) (p, a) = elim (Bool-cases (leb first (block e))) [
    | inl late ↦ rw late (p, All-from P first l a)
    | inr early ↦ rw early (All-from P first l a)
  ]

  -- A bound for the part from a block on is one for all, where it is not before that block.
  pub from-bounded :
      (first last : ℕ) (l : List E)
      → first ≤ last + 1
      → All (λ e. block e ≤ last) (from first l)
      → All (λ e. block e ≤ last) l
  unfolding from
  from-bounded first last [] reach a = tt
  from-bounded first last (e ∷ l) reach a =
      split (from-bounded first last l reach) (leb first (block e)) refl a
    where
      split :
          (All (λ x. block x ≤ last) (from first l) → All (λ x. block x ≤ last) l)
          → (b : Bool) → leb first (block e) ≡ b
          → All (λ x. block x ≤ last) (if b then e ∷ from first l else from first l)
          → (block e ≤ last) × All (λ x. block x ≤ last) l
      split again true t (p, a) = (p, again a)
      split again false t a = (ground arith, again a)
