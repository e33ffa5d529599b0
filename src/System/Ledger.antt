-- ===== src/System/Ledger.antt =====
-- The table of consensus responses as a ledger.
use spotted_network.Base.{
  ℕ, String, ◌≡◌, refl, Option, none, some, [], ◌∷◌, ◌++◌, arith, inl, inr, Option-cases, eq_iff,
}
use spotted_network.Base.Int.{ℤ}
use spotted_network.Base.Outcome.{Outcome-cases}
use spotted_network.Node.{TaskResponse, Node, Env, Step}
use spotted_network.Repo.Table.{find-insert}
use spotted_network.Repo.Responses.{
  ConsensusResponse, Responses, CreateConsensusResponseParams, response_key, get_by_task_id,
  get_by_request, new_response, request_of, create_consensus_response,
}
use spotted_network.Task.Track.{
  store_response_and_weight, init_task, assign, cleanup_task, cleanup_all_tasks,
}
use spotted_network.Updator.{MainnetClient}
use spotted_network.System.{Reach}
use spotted_network.System.Stable.{Stable}
use spotted_network.System.Epochs.{Contained}
use spotted_network.System.Moves.{reach_kept}

-- The abstract ledger: it only grows, by a row whose task and whose request are both new.
pub data Grows (old : Responses) : Responses → Type 0 where
  same : Grows old old
  recorded :
      {rows : Responses} (p : CreateConsensusResponseParams) (now : ℕ)
      → get_by_task_id p.task_id rows ≡ none
      → get_by_request (request_of p) rows ≡ none
      → Grows old rows
      → Grows old (rows ++ new_response p now ∷ [])

pub store_responses :
    (r : TaskResponse) (k : String) (w : Option ℤ) (n : Node)
    → (store_response_and_weight r k w n).1.responses ≡ n.responses
unfolding store_response_and_weight
store_responses r k w n =
    let t = init_task r.task_id n.track in
    elim (Outcome-cases (assign r.task_id k r t.responses)) [
      | inl (l, e) ↦ elim (Outcome-cases (assign r.task_id k w t.weights)) [
        | inl (v, f) ↦ rw (e, f, store_response_and_weight) refl
        | inr (inl (x, f)) ↦ rw (e, f, store_response_and_weight) refl
        | inr (inr f) ↦ rw (e, f, store_response_and_weight) refl
      ]
      | inr (inl (x, e)) ↦ rw (e, store_response_and_weight) refl
      | inr (inr e) ↦ rw (e, store_response_and_weight) refl
    ]

module _ (env : Env) (old : Responses) where
  abbrev Ledger : Node → Type 0
  Ledger n = Grows old n.responses

  record_Ledger :
      (p : CreateConsensusResponseParams) (now : ℕ) (rows : Responses)
      → Grows old rows
      → Grows old (create_consensus_response p now rows).1
  unfolding create_consensus_response
  record_Ledger p now rows h = elim (Option-cases (get_by_task_id p.task_id rows)) [
    | inr (row, there) ↦ rw (there, create_consensus_response) h
    | inl new ↦ elim (Option-cases (get_by_request (request_of p) rows)) [
      | inr (row, there) ↦ rw (new, there, create_consensus_response) h
      | inl fresh ↦ rw (new, fresh, create_consensus_response) (recorded p now new fresh h)
    ]
  ]

  Ledger-Stable : Stable env Ledger
  unfolding cleanup_task cleanup_all_tasks
  Ledger-Stable = record {
    tick = λ t n h. h;
    operators = λ rows n h. h;
    blacklist = λ rows n h. h;
    epoch = λ e n h. h;
    last = λ e n h. h;
    stores = λ r key w valid. record { at = λ n h. rw (store_responses r key w n) h };
    cleans = λ id n h. h;
    empties = λ n h. h;
    sends = λ task r n mine h. h;
    creates = λ p now n h. h;
    deletes = λ id n h. h;
    retries = λ id now n h. h;
    completes = λ id now n h. h;
    resumes = λ id now n h. h;
    records = λ p now n h. record_Ledger p now n.responses h;
  }

found-Grows :
    (id : String) (row : ConsensusResponse) {old rows : Responses}
    → get_by_task_id id old ≡ some row
    → Grows old rows
    → get_by_task_id id rows ≡ some row
found-Grows id row found same = found
found-Grows id row found (recorded {rows} p now new fresh h) =
    let before = found-Grows id row found h in
    ground (
      arith,
      before,
      new,
      find-insert response_key id (new_response p now) rows new,
      eq_iff p.task_id id,
    )

module _ (env : Env) (main : MainnetClient) (transact : Step (Unit {0}) → Step (Unit {0}))
    (contained : Contained transact) where
  -- In any order of the process's steps, its table of consensus responses does what an append-only
  -- ledger does: rows are only added, each for a task and a request that had none. A transaction
  -- ends in the state of its body or in the one before, but for the operators and the number of calls.
  pub reachable-Grows :
      (start n : Node) → Reach env main transact start n → Grows start.responses n.responses
  reachable-Grows start n reach =
      reach_kept (Ledger-Stable env start.responses) main transact contained same reach

  -- A consensus that was recorded for a task is found unchanged in every later state. A transaction
  -- ends in the state of its body or in the one before, but for the operators and the number of calls.
  pub reachable_consensus :
      (start n : Node) (id : String) (row : ConsensusResponse)
      → get_by_task_id id start.responses ≡ some row
      → Reach env main transact start n
      → get_by_task_id id n.responses ≡ some row
  reachable_consensus start n id row found reach =
      found-Grows id row found (reachable-Grows start n reach)
