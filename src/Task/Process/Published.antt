-- ===== src/Task/Process/Published.antt =====
-- The messages that `ProcessTask` publishes.
use spotted_network.Base.{String, ◌≡◌, refl, Option, inl, inr, List}
use spotted_network.Base.Int.{ℤ}
use spotted_network.Base.Outcome.{Outcome-cases}
use spotted_network.Node.{TaskResponse, TaskResponseMessage, Node, Env}
use spotted_network.Repo.Tasks.{Task}
use spotted_network.Task.Track.{store_response_and_weight, init_task, assign}
use spotted_network.Task.Frames.{Indifferent, check_consensus-Keeps}
use spotted_network.Task.Process.{own_key, process_task}
use spotted_network.Task.Process.Honest.{Honest, silent, sent, Closed, process_task-Keeps}

pub store_published :
    (r : TaskResponse) (k : String) (w : Option ℤ) (n : Node)
    → (store_response_and_weight r k w n).1.published ≡ n.published
unfolding store_response_and_weight
store_published r k w n =
    let t = init_task r.task_id n.track in
    elim (Outcome-cases (assign r.task_id k r t.responses)) [
      | inl (l, e) ↦ elim (Outcome-cases (assign r.task_id k w t.weights)) [
        | inl (v, f) ↦ rw (e, f, store_response_and_weight) refl
        | inr (inl (x, f)) ↦ rw (e, f, store_response_and_weight) refl
        | inr (inr f) ↦ rw (e, f, store_response_and_weight) refl
      ]
      | inr (inl (x, e)) ↦ rw (e, store_response_and_weight) refl
      | inr (inr e) ↦ rw (e, store_response_and_weight) refl
    ]

module _ (env : Env) (T : Task → Type 0) (old : List TaskResponseMessage) where
  abbrev pub Truthful : Node → Type 0
  Truthful n = Honest env T old n.published

  pub Truthful-Indifferent : Indifferent Truthful
  Truthful-Indifferent = record {
    tick = λ n h. h;
    tasks = λ id now n h. h;
    responses = λ p now n h. h;
  }

  pub Truthful-Closed : (task : Task) → T task → Closed env task Truthful
  Truthful-Closed task t = record {
    ticks = λ n h. h;
    consensus = λ r. check_consensus-Keeps env Truthful-Indifferent r;
    stores = λ r w mine. record { at = λ n h. rw (store_published r (own_key env) w n) h };
    sends = λ r n mine h. sent task r t mine h;
  }

-- Every message that processing a task publishes is this operator's signed response to that task,
-- with the value of the task, which the task's chain returned for its key at its block, a block that
-- the chain had reached.
pub process_task_publishes :
    (env : Env) (task : Task) (n : Node)
    → Honest env (λ t. t ≡ task) n.published (process_task env task n).1.published
process_task_publishes env task n =
    (process_task-Keeps env task (Truthful-Closed env (λ t. t ≡ task) n.published task refl)).at n
      silent
