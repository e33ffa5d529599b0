-- ===== src/System/LifeCycle.antt =====
-- The life cycle of a task in the table of tasks.
use mathlib.Core.Option
use spotted_network.Base.{
  ℕ, String, ◌≡◌, refl, Bool, true, false, Option, none, some, arith, inl, inr, Option-cases,
  str_eq, eq_iff, if◌then◌else◌,
}
use mathlib.Core.Path.{subst}
use spotted_network.Base.Int.{ℤ}
use spotted_network.Base.Outcome.{Outcome-cases}
use spotted_network.Node.{TaskResponse, Node, Env, Step}
use spotted_network.Repo.Table.{update, find-update, find-delete, find-insert}
use spotted_network.Repo.Tasks.{
  Task, Tasks, completed, pending, CreateTaskParams, task_key, get_task_by_id, new_task,
  create_task, delete_task_by_id, retried, increment_retry_count, with_status,
  update_task_to_completed, update_task_to_pending,
}
use spotted_network.Task.Track.{
  store_response_and_weight, init_task, assign, cleanup_task, cleanup_all_tasks,
}
use spotted_network.Updator.{MainnetClient}
use spotted_network.System.{Reach}
use spotted_network.System.Stable.{Stable}
use spotted_network.System.Epochs.{Contained}
use spotted_network.System.Moves.{reach_kept}

-- The abstract life cycle of the row of one identifier. A row is only made where there is none, and
-- from then on only its status, its counter and its time change, until it is deleted.
pub data Life (id : String) (start : Option Task) : Option Task → Type 0 where
  begun : Life id start start
  born :
      (p : CreateTaskParams) (now : ℕ)
      → p.task_id ≡ id
      → Life id start none
      → Life id start (some (new_task p now))
  retried_once :
      {t : Task} (now : ℕ) → Life id start (some t) → Life id start (some (retried now t))
  finished :
      {t : Task} (now : ℕ)
      → Life id start (some t)
      → Life id start (some (with_status completed now t))
  resumed :
      {t : Task} (now : ℕ)
      → Life id start (some t)
      → Life id start (some (with_status pending now t))
  deleted : {t : Task} → Life id start (some t) → Life id start none

store_tasks :
    (r : TaskResponse) (k : String) (w : Option ℤ) (n : Node)
    → (store_response_and_weight r k w n).1.tasks ≡ n.tasks
unfolding store_response_and_weight
store_tasks r k w n =
    let t = init_task r.task_id n.track in
    elim (Outcome-cases (assign r.task_id k r t.responses)) [
      | inl (l, e) ↦ elim (Outcome-cases (assign r.task_id k w t.weights)) [
        | inl (v, f) ↦ rw (e, f, store_response_and_weight) refl
        | inr (inl (x, f)) ↦ rw (e, f, store_response_and_weight) refl
        | inr (inr f) ↦ rw (e, f, store_response_and_weight) refl
      ]
      | inr (inl (x, e)) ↦ rw (e, store_response_and_weight) refl
      | inr (inr e) ↦ rw (e, store_response_and_weight) refl
    ]

module _ (id : String) (old : Option Task) where
  mapped :
      (b : Bool) (f : Task → Task) (o : Option Task)
      → ((t : Task) → Life id old (some t) → Life id old (some (f t)))
      → Life id old o
      → Life id old (if b then Option.map f o else o)
  mapped false f o step h = h
  mapped true f none step h = h
  mapped true f (some t) step h = step t h

  dropped : (b : Bool) (o : Option Task) → Life id old o → Life id old (if b then none else o)
  dropped false o h = h
  dropped true none h = h
  dropped true (some t) h = deleted h

  -- An update of the row of `k`, where the life cycle allows it.
  update-Life :
      (k : String) (f : Task → Task) (rows : Tasks)
      → ((t : Task) → task_key (f t) ≡ task_key t)
      → ((t : Task) → Life id old (some t) → Life id old (some (f t)))
      → Life id old (get_task_by_id id rows)
      → Life id old (get_task_by_id id (update task_key k f rows))
  update-Life k f rows kept step h =
      rw (find-update task_key k id f rows kept) (mapped (str_eq k id) f _ step h)

  delete-Life :
      (k : String) (rows : Tasks)
      → Life id old (get_task_by_id id rows)
      → Life id old (get_task_by_id id (delete_task_by_id k rows))
  unfolding delete_task_by_id
  delete-Life k rows h = rw (find-delete task_key k id rows) (dropped (str_eq k id) _ h)

  placed :
      (p : CreateTaskParams) (now : ℕ) (rows : Tasks)
      → get_task_by_id p.task_id rows ≡ none
      → Life id old (get_task_by_id id rows)
      → (b : Bool) → str_eq p.task_id id ≡ b
      → Life id old (if b then some (new_task p now) else get_task_by_id id rows)
  placed p now rows new h false e = h
  placed p now rows new h true e =
      let own : p.task_id ≡ id = ground (arith, eq_iff p.task_id id) in
      born p now own (subst (Life id old) (subst (λ i. get_task_by_id i rows ≡ none) own new) h)

  create-Life :
      (p : CreateTaskParams) (now : ℕ) (rows : Tasks)
      → Life id old (get_task_by_id id rows)
      → Life id old (get_task_by_id id (create_task p now rows).1)
  unfolding create_task
  create-Life p now rows h = elim (Option-cases (get_task_by_id p.task_id rows)) [
    | inr (row, there) ↦ rw (there, create_task) h
    | inl new ↦
        rw (new, create_task)
          (rw (find-insert task_key id (new_task p now) rows new)
            (placed p now rows new h (str_eq p.task_id id) refl))
  ]

module _ (env : Env) (id : String) (old : Option Task) where
  abbrev Cycle : Node → Type 0
  Cycle n = Life id old (get_task_by_id id n.tasks)

  Cycle-Stable : Stable env Cycle
  unfolding cleanup_task cleanup_all_tasks increment_retry_count update_task_to_completed
      update_task_to_pending
  Cycle-Stable = record {
    tick = λ t n h. h;
    operators = λ rows n h. h;
    blacklist = λ rows n h. h;
    epoch = λ e n h. h;
    last = λ e n h. h;
    stores = λ r key w valid. record { at = λ n h. rw (store_tasks r key w n) h };
    cleans = λ k n h. h;
    empties = λ n h. h;
    sends = λ task r n mine h. h;
    creates = λ p now n h. create-Life id old p now n.tasks h;
    deletes = λ k n h. delete-Life id old k n.tasks h;
    retries = λ k now n h.
        update-Life id old k (retried now) n.tasks (λ t. refl) (λ t. retried_once now) h;
    completes = λ k now n h.
        update-Life id old k (with_status completed now) n.tasks (λ t. refl) (λ t. finished now) h;
    resumes = λ k now n h.
        update-Life id old k (with_status pending now) n.tasks (λ t. refl) (λ t. resumed now) h;
    records = λ p now n h. h;
  }

-- In any order of the process's steps, the row of each identifier goes through the abstract life cycle:
-- it is made only where there is none; until it is deleted only its status, its counter and its time
-- change, the status to completed or pending. A transaction ends in the state of its body or in the one
-- before, but for the operators and the number of calls.
pub reachable-Life :
    (env : Env) (main : MainnetClient) (transact : Step (Unit {0}) → Step (Unit {0}))
    → Contained transact
    → (start n : Node) (id : String) → Reach env main transact start n
    → Life id (get_task_by_id id start.tasks) (get_task_by_id id n.tasks)
reachable-Life env main transact contained start n id reach =
    reach_kept (Cycle-Stable env id (get_task_by_id id start.tasks)) main transact contained begun
      reach
