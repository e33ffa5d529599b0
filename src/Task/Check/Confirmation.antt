-- ===== src/Task/Check/Confirmation.antt =====
-- `checkConfirmations`: a task waits for its confirmations.
use spotted_network.Base.{ℕ, ◌+◌, ◌≤◌, ◌<◌, ◌≡◌, true, ◌⊎◌, inl, inr, arith, leb, Bool-cases}
use spotted_network.Base.Outcome.{Reply, Reply-cases, ◌>>=◌, handle}
use spotted_network.Node.{Node, Env, call}
use spotted_network.Repo.Tasks.{Task}
use spotted_network.Task.Process.{get_client}
use spotted_network.Task.Check.{target_block, check_confirmation}

-- A task that waits is left alone, unless its chain is known and has the confirmations that the task
-- requires on top of its block. Here the sum of block and confirmations is below 2^64.
pub check_confirmation_waits :
    (env : Env) (task : Task) (n : Node)
    → task.block_number + task.required_confirmations < 18446744073709551616
    → ((check_confirmation env task n).1
        ≡ record n { tick = (check_confirmation env task n).1.tick })
      ⊎ ((env.has_chain task.chain_id ≡ true)
          × ((latest : ℕ) × (env.block_number task.chain_id n.tick ≡ Reply.value latest)
              × (task.block_number + task.required_confirmations ≤ latest)))
unfolding check_confirmation get_client call handle ◌>>=◌
check_confirmation_waits env task n fits = elim (Bool-cases (env.has_chain task.chain_id)) [
  | inr missing ↦ inl (ground arith)
  | inl there ↦ elim (Reply-cases (env.block_number task.chain_id n.tick)) [
    | inr (e, down) ↦ inl (ground arith)
    | inl (latest, reached) ↦ elim (Bool-cases (leb (target_block env task) latest)) [
      | inl confirmed ↦ inr (there, (latest, reached, ground arith))
      | inr early ↦ inl (ground arith)
    ]
  ]
]
