-- ===== src/Task/Check.antt =====
-- The periodic checks: pkg/operator/task/check.go. Each function is one tick of its ticker.
pub mod Timeout
pub mod Confirmation
use spotted_network.Base.{
  ℕ, zero, suc, ◌+◌, ◌%◌, String, Bool, true, false, Option, none, some, List, [], ◌∷◌, leb, ◌==◌,
  if◌then◌else◌,
}
use spotted_network.Base.Outcome.{
  Error, Outcome, ok, err, panic, message, ◌>>=◌, ◌>>◌, pure, raise, deref, modify, handle, ignore,
  for_each,
}
use spotted_network.Epoch.{u64}
use spotted_network.Node.{Node, Env, Step, call, query, read, write}
use spotted_network.Repo.Tasks.{
  Task, Tasks, list_pending_tasks, list_confirming_tasks, increment_retry_count, delete_task_by_id,
  update_task_to_pending,
}
use spotted_network.Task.Track.{cleanup_task, cleanup_all_tasks}
use spotted_network.Task.Process.{get_client, process_task}

module _ (env : Env) where
  abbrev pub max_retry_count : ℕ
  max_retry_count = 3

  -- The task is deleted, also from the tracker; a failed deletion is logged.
  unfoldable pub give_up : String → Step (Unit {0})
  give_up id = do
    ignore (write env (λ _ n. record n { tasks = delete_task_by_id id n.tasks }))
    modify (cleanup_task id)

  unfoldable pub increment : String → Step (Option Task)
  increment id = query env λ now n.
      let (row, tasks) = increment_retry_count id now n.tasks in
      (ok row, record n { tasks = tasks })

  -- One task of `checkTimeouts`. The row that `IncrementRetryCount` returns is read without a test
  -- for nil.
  unfoldable pub check_timeout : Task → Step (Unit {0})
  unfolding increment
  check_timeout task =
      handle (increment task.task_id)
        (λ row. do
          new_row ← deref row
          if leb max_retry_count new_row.retry_count
              then give_up task.task_id
              else ignore (process_task env task))
        (λ _. pure tt)

  -- `checkTimeouts`
  unfoldable pub check_timeouts : Step (Unit {0})
  check_timeouts =
      handle (read env (λ n. list_pending_tasks n.tasks)) (λ tasks. for_each tasks check_timeout)
        (λ _. pure tt)

  unfoldable pub to_pending : String → Step (Unit {0})
  to_pending id = write env (λ now n. record n { tasks = update_task_to_pending id now n.tasks })

  -- The block from which a task has the confirmations that it requires, in `uint64`.
  abbrev pub target_block : Task → ℕ
  target_block task = u64 (task.block_number + task.required_confirmations)

  -- One task of `checkConfirmations`
  unfoldable pub check_confirmation : Task → Step (Unit {0})
  unfolding to_pending
  check_confirmation task = ignore do
    client ← get_client env task.chain_id
    latest ← call (env.block_number client)
    if task.block_number == 0
        then pure tt
        else if leb (target_block task) latest
        then to_pending task.task_id >> process_task env task
        else pure tt

  -- `checkConfirmations`
  unfoldable pub check_confirmations : Step (Unit {0})
  check_confirmations =
      handle (read env (λ n. list_confirming_tasks n.tasks))
        (λ tasks. for_each tasks check_confirmation) (λ _. pure tt)

  -- `periodicCleanup`
  unfoldable pub periodic_cleanup : Step (Unit {0})
  periodic_cleanup = modify cleanup_all_tasks
