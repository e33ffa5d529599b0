-- ===== src/Task/Consensus/Order.antt =====
-- A Go map is walked in any order: the consensus check does not depend on it.
use mathlib.Core.List.{Permᴰ}
use spotted_network.Base.{
  String, ◌≡◌, refl, sym, ap, ◌∙◌, Option, none, some, List, [], ◌∷◌, arith, eq_iff,
}
use mathlib.Core.Path.{ap₂, subst}
use spotted_network.Base.Int.{ℤ, pos, ◌+ℤ◌, +ℤ_parts, eq_of_parts}
use spotted_network.Base.Maps.{Map, lookup, keys}
use spotted_network.Base.Sort.{sort_strings, sort_strings-perm}
use spotted_network.Node.{TaskResponse, Env, Node}
use spotted_network.Task.Consensus.{
  calculate_total_weight, signature_of, collect, collect_signatures_and_addresses, record_consensus,
  check_threshold,
}

+ℤ_swap : (t a b : ℤ) → t +ℤ a +ℤ b ≡ t +ℤ b +ℤ a
+ℤ_swap t a b =
    eq_of_parts _ _
      (omega (arith, +ℤ_parts (t +ℤ a) b, +ℤ_parts t a, +ℤ_parts (t +ℤ b) a, +ℤ_parts t b))

total_swap :
    (t : ℤ) (a b : String × Option ℤ) (l : Map (Option ℤ))
    → calculate_total_weight t (a ∷ b ∷ l) ≡ calculate_total_weight t (b ∷ a ∷ l)
unfolding calculate_total_weight
total_swap t (j, none) (k, none) l = refl
total_swap t (j, none) (k, some w) l = refl
total_swap t (j, some v) (k, none) l = refl
total_swap t (j, some v) (k, some w) l = ap (λ s. calculate_total_weight s l) (+ℤ_swap t v w)

total_cons :
    (t : ℤ) (a : String × Option ℤ) (l m : Map (Option ℤ))
    → ((s : ℤ) → calculate_total_weight s l ≡ calculate_total_weight s m)
    → calculate_total_weight t (a ∷ l) ≡ calculate_total_weight t (a ∷ m)
unfolding calculate_total_weight
total_cons t (k, none) l m h = refl
total_cons t (k, some w) l m h = h (t +ℤ w)

calculate_total_weight-perm :
    {l m : Map (Option ℤ)} (t : ℤ)
    → Permᴰ l m
    → calculate_total_weight t l ≡ calculate_total_weight t m
unfolding calculate_total_weight
calculate_total_weight-perm t Permᴰ.nil = refl
calculate_total_weight-perm t (Permᴰ.cons {a} {l₁} {l₂} e p) =
    total_cons t a l₁ l₂ (λ s. calculate_total_weight-perm s p)
    ∙ ap (λ x. calculate_total_weight t (x ∷ l₂)) e
calculate_total_weight-perm t (Permᴰ.swap {a} {b} {l} e f) =
    total_swap t a b l ∙ ap₂ (λ x y. calculate_total_weight t (x ∷ y ∷ l)) f e
calculate_total_weight-perm t (Permᴰ.trans p q) =
    calculate_total_weight-perm t p ∙ calculate_total_weight-perm t q

module _ {V : Type 0} where
  keys-perm : {l m : Map V} → Permᴰ l m → Permᴰ (keys l) (keys m)
  unfolding keys
  keys-perm Permᴰ.nil = Permᴰ.nil
  keys-perm (Permᴰ.cons e p) = Permᴰ.cons (ap (λ x. x.0) e) (keys-perm p)
  keys-perm (Permᴰ.swap e f) = Permᴰ.swap (ap (λ x. x.0) e) (ap (λ x. x.0) f)
  keys-perm (Permᴰ.trans p q) = Permᴰ.trans (keys-perm p) (keys-perm q)

  -- No key has two entries.
  abbrev pub Distinct : Map V → Type 0
  Distinct [] = Unit {0}
  Distinct ((k, v) ∷ m) = (lookup k m ≡ none) × Distinct m

  -- A walk in another order finds the same entries.
  SameEntries : Map V → Map V → Type 0
  SameEntries l m = Distinct m × ((k : String) → lookup k l ≡ lookup k m)

  same_cons :
      (a : String × V) (l m : Map V)
      → Distinct (a ∷ l)
      → SameEntries l m
      → SameEntries (a ∷ l) (a ∷ m)
  unfolding lookup SameEntries
  same_cons (j, v) l m (new, d) (e, h) = ((sym (h j) ∙ new, e), λ k. ground (arith, h k))

  same_swap :
      (a b : String × V) (l : Map V) → Distinct (a ∷ b ∷ l) → SameEntries (a ∷ b ∷ l) (b ∷ a ∷ l)
  unfolding lookup SameEntries
  same_swap (i, v) (j, w) l (new, (other, d)) = (
    (ground (arith, eq_iff i j, eq_iff j i), (ground (arith, eq_iff i j, eq_iff j i), d)),
    λ k. ground (arith, eq_iff i j, eq_iff i k, eq_iff j k, eq_iff j i),
  )

  lookup-perm : {l m : Map V} → Permᴰ l m → Distinct l → SameEntries l m
  unfolding SameEntries
  lookup-perm Permᴰ.nil d = (d, λ k. refl)
  lookup-perm (Permᴰ.cons {a} {l₁} {l₂} e p) d =
      subst (λ x. SameEntries (a ∷ l₁) (x ∷ l₂)) e (same_cons a l₁ l₂ d (lookup-perm p d.1))
  lookup-perm (Permᴰ.swap {a} {b} {l} e f) d =
      subst (λ x. SameEntries (a ∷ b ∷ l) x) (ap₂ (λ x y. x ∷ y ∷ l) f e) (same_swap a b l d)
  lookup-perm (Permᴰ.trans p q) d =
      let (d', h) = lookup-perm p d in let (d'', k) = lookup-perm q d' in (d'', λ j. h j ∙ k j)

signature_cong :
    (k : String) (l m : Map TaskResponse)
    → lookup k l ≡ lookup k m
    → signature_of k l ≡ signature_of k m
unfolding signature_of
signature_cong k l m h = rw (h, signature_of) refl

module _ (env : Env) where
  collect_cong :
      (ks : List String) (l m : Map TaskResponse)
      → ((k : String) → lookup k l ≡ lookup k m)
      → collect env ks l ≡ collect env ks m
  unfolding collect
  collect_cong [] l m h = refl
  collect_cong (k ∷ ks) l m h = rw (collect_cong ks l m h, signature_cong k l m (h k)) refl

  record_consensus-perm :
      {l m : Map TaskResponse} (r : TaskResponse)
      → Permᴰ l m
      → Distinct l
      → record_consensus env r l ≡ record_consensus env r m
  unfolding record_consensus collect_signatures_and_addresses SameEntries
  record_consensus-perm {l} {m} r p d =
      let (e, h) = lookup-perm p d in
      rw (sort_strings-perm (keys-perm p), collect_cong (sort_strings (keys m)) l m h) refl

  -- The consensus check of a task answers the same and changes the same, in whatever order the maps
  -- of its responses and of its weights are walked.
  pub check_threshold-perm :
      {l m : Map TaskResponse} {v w : Map (Option ℤ)} (r : TaskResponse) (n : Node)
      → Permᴰ l m
      → Permᴰ v w
      → Distinct l
      → check_threshold env r l v n ≡ check_threshold env r m w n
  unfolding check_threshold
  check_threshold-perm r n p q d =
      rw (calculate_total_weight-perm (pos 0) q, record_consensus-perm r p d) refl
