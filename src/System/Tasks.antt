-- ===== src/System/Tasks.antt =====
-- The steps that process tasks: the tickers.
use spotted_network.Base.{String}
use spotted_network.Base.Keeps.{Keeps, keeps_rules}
use spotted_network.Node.{ticked, Node, Env}
use spotted_network.Node.Rules.{Keeps-call, Keeps-query}
use spotted_network.Repo.Tasks.{Task}
use spotted_network.Task.Process.{process_task}
use spotted_network.Task.Process.Honest.{get_client-Keeps, process_task-Keeps}
use spotted_network.Task.Check.{
  give_up, increment, check_timeout, check_timeouts, to_pending, check_confirmation,
  check_confirmations,
}
use spotted_network.System.Stable.{Stable, ticks, Stable-Closed}

module _ {env : Env} {P : Node → Type 0} (s : Stable env P) where
  one : (n : Node) → P n → P (ticked n)
  one = ticks s

  pub process_task_kept : (task : Task) → Keeps P (process_task env task)
  process_task_kept task = process_task-Keeps env task (Stable-Closed s task)

  give_up_kept : (id : String) → Keeps P (give_up env id)
  unfolding give_up
  give_up_kept id = search (keeps_rules, Keeps-query, one, s.deletes, s.cleans) depth 14

  pub check_timeouts_kept : Keeps P (check_timeouts env)
  unfolding check_timeouts check_timeout increment
  check_timeouts_kept =
      search (keeps_rules, Keeps-query, one, s.retries, process_task_kept, give_up_kept) depth 16

  confirmation_kept : (task : Task) → Keeps P (check_confirmation env task)
  unfolding check_confirmation to_pending
  confirmation_kept task =
      search
        (
          keeps_rules,
          Keeps-query,
          one,
          s.resumes,
          Keeps-call,
          one,
          get_client-Keeps env task (Stable-Closed s task),
          process_task_kept,
        )
        depth 16

  pub check_confirmations_kept : Keeps P (check_confirmations env)
  unfolding check_confirmations
  check_confirmations_kept = search (keeps_rules, Keeps-query, one, confirmation_kept) depth 16
