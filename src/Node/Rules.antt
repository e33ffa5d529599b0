-- ===== src/Node/Rules.antt =====
-- The rules of `Base.Keeps` for the calls of the world and the queries.
use spotted_network.Base.{ℕ, String, ◌≡◌, ◌⊎◌, refl, ap, none, inl, inr, Option-cases}
use spotted_network.Base.Outcome.{Error, Reply, Outcome, ok, outcome, or_wrap}
use spotted_network.Base.Keeps.{Keeps}
use spotted_network.Base.Returns.{Answers, Returns}
use spotted_network.Base.Leads.{After, Leads, Leads-Keeps, Leads-or_wrap}
use spotted_network.Base.Succeeds.{Succeeds}
use spotted_network.Node.{Node, Env, Step, Cached, cached, ticked, call, query, read}

-- The database answers every query.
abbrev pub Up : Env → Type 0
Up env = (i : ℕ) → env.db_fault i ≡ none

module _ {A : Type 0} {P : Node → Type 0} where
  pub Keeps-call : (f : ℕ → Reply A) → ((n : Node) → P n → P (ticked n)) → Keeps P (call f)
  unfolding call
  Keeps-call f t = record { at = t }

  pub Keeps-query :
      (env : Env) (q : ℕ → Node → Outcome A × Node)
      → ((n : Node) → P n → P (ticked n))
      → ((now : ℕ) (n : Node) → P n → P (q now n).1)
      → Keeps P (query env q)
  unfolding query
  Keeps-query env q t k = record {
    at = λ n h. elim (Option-cases (env.db_fault n.tick)) [
      | inl fine ↦ rw (fine, query) (t _ (k (env.now n.tick) n h))
      | inr (e, failed) ↦ rw (failed, query) (t n h)
    ];
  }

-- What a cache has for an argument.
pub Cached-cases :
    {A : Type 0} (c : Cached A)
    → ((a : A) × (c ≡ Cached.hit a)) ⊎ ((c ≡ Cached.miss) ⊎ ((e : Error) × (c ≡ Cached.fault e)))
Cached-cases (Cached.hit a) = inl (a, refl)
Cached-cases Cached.miss = inr (inl refl)
Cached-cases (Cached.fault e) = inr (inr (e, refl))

pub Keeps-cached :
    {A : Type 0} {P : Node → Type 0} (f : ℕ → Cached A) (behind : Step A)
    → ((n : Node) → P n → P (ticked n))
    → Keeps P behind
    → Keeps P (cached f behind)
unfolding cached
Keeps-cached f behind t k = record {
  at = λ n h. elim (Cached-cases (f n.tick)) [
    | inl (a, held) ↦ rw (held, cached) (t n h)
    | inr (inl nothing) ↦ rw (nothing, cached) (k.at (ticked n) (t n h))
    | inr (inr (e, failed)) ↦ rw (failed, cached) (t n h)
  ];
}

-- What a call of the world returns is its answer at some tick.
pub Returns-call :
    {A : Type 0} (f : ℕ → Reply A) → Returns (λ a. (i : ℕ) × (f i ≡ Reply.value a)) (call f)
unfolding call
Returns-call {A = A} f = record { from = λ n. answer n.tick (f n.tick) refl }
  where
    answer :
        (i : ℕ) (r : Reply A) → f i ≡ r → Answers (λ a. (i : ℕ) × (f i ≡ Reply.value a)) (outcome r)
    answer i (Reply.value a) e = (i, e)
    answer i (Reply.fault x) e = tt

-- What a read returns is read from the process at hand.
pub Answers-read :
    {A : Type 0} (Q : A → Type 0) (env : Env) (f : Node → A) (n : Node)
    → Q (f n)
    → Answers Q (read env f n).0
unfolding query
Answers-read Q env f n q = elim (Option-cases (env.db_fault n.tick)) [
  | inl fine ↦ rw (fine, query) q
  | inr (e, failed) ↦ rw (failed, query) tt
]

module _ {A : Type 0} {P : Node → Type 0} where
  pub Leads-call :
      (f : ℕ → Reply A) (what : String)
      → ((n : Node) → P n → P (ticked n))
      → Leads P (or_wrap (call f) what) (λ a n. ((i : ℕ) × (f i ≡ Reply.value a)) × P n)
  Leads-call f what t =
      Leads-or_wrap (call f) what (Leads-Keeps _ (call f) (Keeps-call f t) (Returns-call f))

  pub Leads-query :
      {Q : A → Node → Type 0} (env : Env) (q : ℕ → Node → Outcome A × Node) (what : String)
      → ((now : ℕ) (n : Node) → P n → After Q (q now n).0 (ticked (q now n).1))
      → Leads P (or_wrap (query env q) what) Q
  unfolding query
  Leads-query env q what k = Leads-or_wrap (query env q) what (record {
    from = λ n h. elim (Option-cases (env.db_fault n.tick)) [
      | inl fine ↦ rw (fine, query) (k (env.now n.tick) n h)
      | inr (e, failed) ↦ rw (failed, query) tt
    ];
  })

-- The calls that succeed.
module _ {A : Type 0} where
  pub Succeeds-call :
      (f : ℕ → Reply A) → ((i : ℕ) → (a : A) × (f i ≡ Reply.value a)) → Succeeds (call f)
  unfolding call
  Succeeds-call f answers = record { at = λ n. let (a, e) = answers n.tick in (a, ap outcome e) }

  pub Succeeds-query :
      (env : Env) (q : ℕ → Node → Outcome A × Node)
      → Up env
      → ((now : ℕ) (n : Node) → (a : A) × ((q now n).0 ≡ ok a))
      → Succeeds (query env q)
  unfolding query
  Succeeds-query env q up k = record {
    at = λ n. let (a, e) = k (env.now n.tick) n in (a, rw (up n.tick, query) e);
  }
