-- ===== src/Repo/Tasks.antt =====
-- The table `tasks`: pkg/repos/tasks.
use mathlib.Core.List.{reverse}
use spotted_network.Base.{
  ℕ, ◌+◌, String, Bool, true, false, Option, none, some, List, [], ◌∷◌, ◌++◌,
}
use spotted_network.Base.Outcome.{Outcome, ok, err, message}
use spotted_network.Numeric.{Numeric}
use spotted_network.Repo.Table.{find, update, delete, select, order_by}

-- `constants.TaskStatus`
pub data TaskStatus : Type 0 where
  pending completed confirming : TaskStatus

-- `tasks.Tasks`
pub record Task : Type 0 where
  pub task_id : String
  pub chain_id : ℕ
  pub target_address : String
  pub key : Numeric
  pub block_number : ℕ
  pub value : Numeric
  pub epoch : ℕ
  pub status : TaskStatus
  pub required_confirmations : ℕ
  pub retry_count : ℕ
  pub created_at : ℕ
  pub updated_at : ℕ

pub record CreateTaskParams : Type 0 where
  pub task_id : String
  pub target_address : String
  pub chain_id : ℕ
  pub block_number : ℕ
  pub epoch : ℕ
  pub key : Numeric
  pub value : Numeric
  pub status : TaskStatus
  pub required_confirmations : ℕ

abbrev pub Tasks : Type 0
Tasks = List Task

abbrev pub task_key : Task → String
task_key t = t.task_id

-- `GetTaskByID`
abbrev pub get_task_by_id : String → Tasks → Option Task
get_task_by_id = find task_key

abbrev pub new_task : CreateTaskParams → ℕ → Task
new_task p now = record {
  task_id = p.task_id;
  chain_id = p.chain_id;
  target_address = p.target_address;
  key = p.key;
  block_number = p.block_number;
  value = p.value;
  epoch = p.epoch;
  status = p.status;
  required_confirmations = p.required_confirmations;
  retry_count = 0;
  created_at = now;
  updated_at = now;
}

-- `CreateTask`: the primary key refuses an identifier that is there.
unfoldable pub create_task : CreateTaskParams → ℕ → Tasks → Outcome Task × Tasks
create_task p now rows = elim (get_task_by_id p.task_id rows) [
  | none ↦ (ok (new_task p now), rows ++ new_task p now ∷ [])
  | some _ ↦ (err (message "duplicate key value violates unique constraint"), rows)
]

-- `DeleteTaskByID`
unfoldable pub delete_task_by_id : String → Tasks → Tasks
delete_task_by_id = delete task_key

abbrev pub retried : ℕ → Task → Task
retried now t = record t { retry_count = t.retry_count + 1; updated_at = now }

-- `IncrementRetryCount`: the row after the update, nil where there is none
unfoldable pub increment_retry_count : String → ℕ → Tasks → Option Task × Tasks
increment_retry_count id now rows =
    let rows' = update task_key id (retried now) rows in (get_task_by_id id rows', rows')

abbrev pub with_status : TaskStatus → ℕ → Task → Task
with_status s now t = record t { status = s; updated_at = now }

-- `UpdateTaskToCompleted`
unfoldable pub update_task_to_completed : String → ℕ → Tasks → Tasks
update_task_to_completed id now = update task_key id (with_status completed now)

-- `UpdateTaskToPending`
unfoldable pub update_task_to_pending : String → ℕ → Tasks → Tasks
update_task_to_pending id now = update task_key id (with_status pending now)

abbrev pub is_pending : Task → Bool
is_pending t = elim t.status [ pending ↦ true | _ ↦ false ]

abbrev pub is_confirming : Task → Bool
is_confirming t = elim t.status [ confirming ↦ true | _ ↦ false ]

abbrev pub is_completed : Task → Bool
is_completed t = elim t.status [ completed ↦ true | _ ↦ false ]

abbrev creation : Task → ℕ
creation t = t.created_at

-- `ListAllTasks`, `ListPendingTasks` and `ListConfirmingTasks`: the first and the last are newest first
unfoldable pub list_all_tasks : Tasks → Tasks
list_all_tasks rows = reverse (order_by creation rows)

unfoldable pub list_pending_tasks : Tasks → Tasks
list_pending_tasks rows = order_by creation (select task_key is_pending rows)

unfoldable pub list_confirming_tasks : Tasks → Tasks
list_confirming_tasks rows = reverse (order_by creation (select task_key is_confirming rows))
