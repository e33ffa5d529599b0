-- ===== src/Task/Entries.antt =====
-- The invariant that every response in the tracker is entitled to stand there.
use spotted_network.Base.{
  String, ◌≡◌, ◌&&◌, Option, none, some, inl, inr, arith, eq_iff, str_eq, if◌then◌else◌, Bool-cases,
}
use mathlib.Core.Path.{subst}
use spotted_network.Base.Int.{ℤ}
use spotted_network.Base.Keeps.{Keeps}
use spotted_network.Node.{TaskResponse, Node, Env}
use spotted_network.Repo.Tasks.{Task}
use spotted_network.Repo.Operators.{Operators}
use spotted_network.Task.Track.{store_response_and_weight}
use spotted_network.Task.Track.Laws.{lookup2, IsPaired}
use spotted_network.Task.Track.Store.{store-written, written-responses, written-IsPaired}
use spotted_network.Task.Frames.{Indifferent, check_consensus-Keeps}
use spotted_network.Task.Process.{own_key}
use spotted_network.Task.Process.Honest.{Own, Closed}

-- What there is satisfies `Q`.
abbrev pub Each : {A : Type 0} → (A → Type 0) → Option A → Type 0
Each Q none = Unit
Each Q (some a) = Q a

-- The maps of the tracker are paired, and `L` holds of every response in them, by task and key. The
-- table of operators is `rows`.
pub record Entitled (L : String → String → TaskResponse → Type 0) (rows : Operators) (n : Node)
    : Type 0 where
  pub paired : IsPaired n.track
  pub entry : (id key : String) → Each (L id key) (lookup2 id key n.track.responses)
  pub operators : n.operators ≡ rows

module _ (L : String → String → TaskResponse → Type 0) (rows : Operators) where
  abbrev E : Node → Type 0
  E = Entitled L rows

  pub Entitled-Indifferent : Indifferent E
  Entitled-Indifferent = record {
    tick = λ n h. record { paired = h.paired; entry = h.entry; operators = h.operators };
    tasks = λ id now n h. record { paired = h.paired; entry = h.entry; operators = h.operators };
    responses = λ p now n h. record { paired = h.paired; entry = h.entry; operators = h.operators };
  }

  stored :
      (r : TaskResponse) (key : String) (id k : String) (o : Option TaskResponse)
      → L r.task_id key r
      → Each (L id k) o
      → Each (L id k) (if str_eq r.task_id id && str_eq key k then some r else o)
  stored r key id k o l rest = elim (Bool-cases (str_eq r.task_id id && str_eq key k)) [
    | inr other ↦ rw other rest
    | inl same ↦
        let same_task : r.task_id ≡ id = ground (arith, eq_iff r.task_id id) in
        let same_key : key ≡ k = ground (arith, eq_iff key k) in
        rw same (subst (λ i. L i k r) same_task (subst (λ j. L r.task_id j r) same_key l))
  ]

  pub store_Keeps :
      (r : TaskResponse) (key : String) (w : Option ℤ)
      → L r.task_id key r
      → Keeps E (store_response_and_weight r key w)
  store_Keeps r key w l = record {
    at = λ n h. rw (store-written r key w n h.paired) (record {
      paired = written-IsPaired r key w n h.paired;
      entry = λ id k.
          rw (written-responses r key w n id k)
            (stored r key id k (lookup2 id k n.track.responses) l (h.entry id k));
      operators = h.operators;
    });
  }

  pub Entitled-Closed :
      (env : Env) (task : Task)
      → ((r : TaskResponse) → Own env task r → L r.task_id (own_key env) r)
      → Closed env task E
  Entitled-Closed env task l = record {
    ticks = Entitled-Indifferent.tick;
    consensus = λ r. check_consensus-Keeps env Entitled-Indifferent r;
    stores = λ r w mine. store_Keeps r (own_key env) w (l r mine);
    sends = λ r n mine h. record { paired = h.paired; entry = h.entry; operators = h.operators };
  }
