-- ===== src/System/Stable.antt =====
-- Properties of the process that every entry point keeps: what they have to bear.
use spotted_network.Base.{ℕ, String, ◌≡◌, refl, Option, [], ◌∷◌, ◌++◌}
use spotted_network.Base.Int.{ℤ}
use spotted_network.Base.Outcome.{ok}
use spotted_network.Base.Keeps.{Keeps}
use spotted_network.Node.{TaskResponse, EpochState, Node, Env, ticked}
use spotted_network.Repo.Tasks.{
  Task, CreateTaskParams, create_task, delete_task_by_id, increment_retry_count,
  update_task_to_completed, update_task_to_pending,
}
use spotted_network.Repo.Operators.{Operators}
use spotted_network.Repo.Blacklist.{Blacklist}
use spotted_network.Repo.Responses.{CreateConsensusResponseParams, create_consensus_response}
use spotted_network.Task.Track.{
  store_response_and_weight, cleanup_task, cleanup_all_tasks, to_message,
}
use spotted_network.Task.Frames.{Indifferent, check_consensus-Keeps}
use spotted_network.Task.Process.{own_key}
use spotted_network.Task.Process.Honest.{Own, Closed}
use spotted_network.Task.Response.{verify_response}

-- Why a response may stand under a signing key: this operator computed it, and its value is the
-- chain's, or its signature is that of the key.
pub data Warranted (env : Env) (key : String) : TaskResponse → Type 0 where
  computed :
      {r : TaskResponse} (task : Task) → key ≡ own_key env → Own env task r → Warranted env key r
  verified : {r : TaskResponse} → verify_response env r key ≡ ok tt → Warranted env key r

-- `P` bears each thing that the process does to its tables, its tracker and its messages.
pub record Stable (env : Env) (P : Node → Type 0) : Type 0 where
  pub tick : (tick : ℕ) (n : Node) → P n → P (record n { tick = tick })
  pub operators : (rows : Operators) (n : Node) → P n → P (record n { operators = rows })
  pub blacklist : (rows : Blacklist) (n : Node) → P n → P (record n { blacklist = rows })
  pub epoch : (s : EpochState) (n : Node) → P n → P (record n { epoch_state = s })
  pub last : (e : ℕ) (n : Node) → P n → P (record n { last_processed_epoch = e })
  pub stores :
      (r : TaskResponse) (key : String) (weight : Option ℤ)
      → Warranted env key r
      → Keeps P (store_response_and_weight r key weight)
  pub cleans : (id : String) (n : Node) → P n → P (cleanup_task id n)
  pub empties : (n : Node) → P n → P (cleanup_all_tasks n)
  pub sends :
      (task : Task) (r : TaskResponse) (n : Node)
      → Own env task r
      → P n
      → P (record n { published = n.published ++ to_message r ∷ [] })
  pub creates :
      (p : CreateTaskParams) (now : ℕ) (n : Node)
      → P n
      → P (record n { tasks = (create_task p now n.tasks).1 })
  pub deletes :
      (id : String) (n : Node) → P n → P (record n { tasks = delete_task_by_id id n.tasks })
  pub retries :
      (id : String) (now : ℕ) (n : Node)
      → P n
      → P (record n { tasks = (increment_retry_count id now n.tasks).1 })
  pub completes :
      (id : String) (now : ℕ) (n : Node)
      → P n
      → P (record n { tasks = update_task_to_completed id now n.tasks })
  pub resumes :
      (id : String) (now : ℕ) (n : Node)
      → P n
      → P (record n { tasks = update_task_to_pending id now n.tasks })
  pub records :
      (p : CreateConsensusResponseParams) (now : ℕ) (n : Node)
      → P n
      → P (record n { responses = (create_consensus_response p now n.responses).1 })

module _ {env : Env} {P : Node → Type 0} (s : Stable env P) where
  pub ticks : (n : Node) → P n → P (ticked n)
  ticks n h = s.tick _ n h

  pub Stable-Indifferent : Indifferent P
  Stable-Indifferent = record { tick = ticks; tasks = s.completes; responses = s.records }

  pub Stable-Closed : (task : Task) → Closed env task P
  Stable-Closed task = record {
    ticks = ticks;
    consensus = λ r. check_consensus-Keeps env Stable-Indifferent r;
    stores = λ r w mine. s.stores r (own_key env) w (computed task refl mine);
    sends = λ r n mine h. s.sends task r n mine h;
  }
