-- ===== src/Task/Check/Timeout.antt =====
-- `checkTimeouts`: a pending task is tried until its third timeout.
use spotted_network.Base.{
  ◌+◌, ◌≤◌, ◌<◌, String, ◌≡◌, refl, false, none, some, arith, str_eq, eq_iff, if◌then◌else◌,
}
use spotted_network.Base.Outcome.{ok, panic, ◌>>=◌, handle, ignore}
use spotted_network.Node.{TaskResponse, Node, Env, query}
use spotted_network.Node.Rules.{Up}
use spotted_network.Repo.Table.{find-update, find-delete}
use spotted_network.Repo.Tasks.{
  Task, task_key, get_task_by_id, increment_retry_count, delete_task_by_id, retried,
}
use spotted_network.Task.Track.{cleanup_task, already_processed}
use spotted_network.Task.Track.Laws.{inner-erase, lookup-nil}
use spotted_network.Task.Process.{process_task}
use spotted_network.Task.Check.{max_retry_count, give_up, increment, check_timeout}

-- The table and the process after a timeout was counted.
abbrev pub counted : Env → String → Node → Node
counted env id n = record n {
  tasks = (increment_retry_count id (env.now n.tick) n.tasks).1;
  tick = n.tick + 1;
}

module _ (env : Env) (up : Up env) (task : Task) (n : Node) where
  counted_row :
      {row : Task}
      → get_task_by_id task.task_id n.tasks ≡ some row
      → get_task_by_id task.task_id (counted env task.task_id n).tasks
        ≡ some (retried (env.now n.tick) row)
  unfolding increment_retry_count
  counted_row {row} found =
      rw
        (find-update task_key task.task_id task.task_id (retried (env.now n.tick)) n.tasks
          (λ r. refl))
        (ground (arith, eq_iff task.task_id task.task_id))

  incremented : increment env task.task_id n ≡ (
    ok (get_task_by_id task.task_id (counted env task.task_id n).tasks),
    counted env task.task_id n,
  )
  unfolding increment query increment_retry_count
  incremented = ground (arith, up n.tick)

  gives_up :
      (m : Node)
      → give_up env task.task_id m ≡ (
        ok tt,
        cleanup_task task.task_id
            (record m { tasks = delete_task_by_id task.task_id m.tasks; tick = m.tick + 1 }),
      )
  unfolding give_up query handle cleanup_task
  gives_up m = ground (arith, up m.tick)

  module _ (row : Task) (found : get_task_by_id task.task_id n.tasks ≡ some row) where
    again :
        row.retry_count + 1 < max_retry_count env
        → check_timeout env task n ≡ ignore (process_task env task) (counted env task.task_id n)
    unfolding check_timeout handle
    again few = ground (arith, incremented, counted_row found)

    enough :
        max_retry_count env ≤ row.retry_count + 1
        → check_timeout env task n ≡ give_up env task.task_id (counted env task.task_id n)
    unfolding check_timeout handle
    enough many = ground (arith, incremented, counted_row found)

-- The process after the task was given up.
abbrev gone : Env → Task → Node → Node
gone env task n =
    let m = counted env task.task_id n in
    cleanup_task task.task_id
      (record m { tasks = delete_task_by_id task.task_id m.tasks; tick = m.tick + 1 })

gone_tasks :
    (env : Env) (task : Task) (n : Node) (id : String)
    → get_task_by_id id (gone env task n).tasks
      ≡ (if str_eq task.task_id id then none else get_task_by_id id n.tasks)
unfolding cleanup_task delete_task_by_id increment_retry_count
gone_tasks env task n id = ground (
  arith,
  find-delete task_key task.task_id id (counted env task.task_id n).tasks,
  find-update task_key task.task_id id (retried (env.now n.tick)) n.tasks (λ r. refl),
)

gone_track :
    (env : Env) (task : Task) (n : Node) (id key : String)
    → already_processed id key (gone env task n)
      ≡ (if str_eq task.task_id id then false else already_processed id key n)
unfolding cleanup_task already_processed
gone_track env task n id key =
    ground (arith, inner-erase task.task_id id n.track.responses, lookup-nil {V = TaskResponse} key)

-- With a working database, a timeout of a task that is in the table counts one more try. Up to the
-- second, the task is processed again, and its row has the new count. From the third on, it is
-- deleted from the table and from the tracker, and every other task stays as it was.
pub check_timeout_tries :
    (env : Env) (task row : Task) (n : Node)
    → Up env
    → get_task_by_id task.task_id n.tasks ≡ some row
    → (row.retry_count + 1 < 3
        → (check_timeout env task n ≡ ignore (process_task env task) (counted env task.task_id n))
          × (get_task_by_id task.task_id (counted env task.task_id n).tasks
              ≡ some (retried (env.now n.tick) row)))
      × (3 ≤ row.retry_count + 1
          → ((check_timeout env task n).0 ≡ ok tt)
            × ((id : String)
                → get_task_by_id id (check_timeout env task n).1.tasks
                  ≡ (if str_eq task.task_id id then none else get_task_by_id id n.tasks))
            × ((id key : String)
                → already_processed id key (check_timeout env task n).1
                  ≡ (if str_eq task.task_id id then false else already_processed id key n)))
check_timeout_tries env task row n up found = (
  λ few. (again env up task n row found few, counted_row env up task n found),
  λ many.
      rw (enough env up task n row found many, gives_up env up task n (counted env task.task_id n))
        (refl, gone_tasks env task n, gone_track env task n),
)

-- With a working database, a timeout of a task that is no longer in the table is a read through a
-- nil pointer.
pub check_timeout_missing :
    (env : Env) (task : Task) (n : Node)
    → Up env
    → get_task_by_id task.task_id n.tasks ≡ none
    → (check_timeout env task n).0 ≡ panic
unfolding check_timeout increment query handle increment_retry_count ◌>>=◌
check_timeout_missing env task n up missing = ground (
  arith,
  up n.tick,
  find-update task_key task.task_id task.task_id (retried (env.now n.tick)) n.tasks (λ r. refl),
)
