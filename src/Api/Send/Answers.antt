-- ===== src/Api/Send/Answers.antt =====
-- The answers of `find_or_create`: an already_exists task, and a new one that waits for confirmations.
use spotted_network.Base.{ℕ, ◌+◌, ◌<◌, String, ◌≡◌, Option, none, some, [], ◌∷◌, ◌++◌, arith}
use spotted_network.Base.Int.{ℤ}
use spotted_network.Base.Outcome.{Reply, ok, handle}
use spotted_network.Numeric.Decimal.{to_string}
use spotted_network.Node.{Node, Env, call, query}
use spotted_network.Node.Rules.{Up}
use spotted_network.Repo.Tasks.{Task, confirming, get_task_by_id, create_task, new_task}
use spotted_network.Repo.Responses.{get_by_task_id}
use spotted_network.Api.{SendRequestParams, write_success, generate_task_id, or_fail}
use spotted_network.Api.Send.{
  creation_params, insert_task, start_new, create_new, already_exists, find_or_create,
}

-- The process after some calls of the world.
abbrev pub later : ℕ → Node → Node
later calls n = record n { tick = n.tick + calls }

module _ (env : Env) (up : Up env) (params : SendRequestParams) (epoch client block : ℕ)
    (key : Option ℤ) (value : ℤ) where
  abbrev id : String
  id = generate_task_id env params (to_string value)

  -- The row of the new task, at the database's time.
  abbrev row : ℕ → Task
  row = new_task (creation_params env params epoch block key value confirming)

  pub found :
      (n : Node) (task : Task)
      → get_by_task_id id n.responses ≡ none
      → get_task_by_id id n.tasks ≡ some task
      → find_or_create env params epoch client block key value n
        ≡ (ok (already_exists env task), later 2 n)
  unfolding find_or_create handle query
  found n task fresh there = ground (arith, up n.tick, up (n.tick + 1), fresh, there)

  pub inserted :
      (latest required : ℕ) (n : Node)
      → env.confirmations params.chain_id ≡ some required
      → env.block_number client (n.tick + 2) ≡ Reply.value latest
      → get_by_task_id id n.responses ≡ none
      → get_task_by_id id n.tasks ≡ none
      → block + required < 18446744073709551616
      → latest < block + required
      → find_or_create env params epoch client block key value n ≡ (
        ok (write_success id "confirming" required "Waiting for block confirmations"),
        record n { tasks = n.tasks ++ row (env.now (n.tick + 3)) ∷ []; tick = n.tick + 4 },
      )
  unfolding find_or_create handle query create_new or_fail insert_task create_task call start_new
  inserted latest required n supported height fresh new small early =
      ground (arith, up n.tick, up (n.tick + 1), up (n.tick + 3))
