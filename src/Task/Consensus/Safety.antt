-- ===== src/Task/Consensus/Safety.antt =====
-- What the consensus check may change: one row of `consensus_responses`, and only at the threshold.
use spotted_network.Base.{
  ℕ, String, ◌≡◌, false, none, some, ◌⊎◌, inl, inr, List, [], ◌∷◌, ◌++◌, arith, eq_iff, Bool-cases,
  Option-cases,
}
use spotted_network.Base.Int.{ℤ, pos, ltb_ℤ}
use spotted_network.Base.Lists.{is_empty}
use spotted_network.Base.Maps.{Map}
use spotted_network.Base.Outcome.{Outcome-cases, ok, ◌>>=◌}
use spotted_network.Base.Keeps.{Keeps, keeps_rules, Keeps-bind, Keeps-or_raise, Keeps-pure}
use spotted_network.Node.{TaskResponse, Node, Env}
use spotted_network.Node.Rules.{Keeps-query}
use spotted_network.Repo.Table.{find-insert}
use spotted_network.Repo.Responses.{
  Responses, Bytes, ConsensusResponse, response_key, get_by_task_id, get_by_request, request_of,
  new_response, create_consensus_response,
}
use spotted_network.Task.Track.{inner}
use spotted_network.Task.Consensus.{
  calculate_total_weight, collect, collect_signatures_and_addresses, mark_task_as_completed,
  consensus_params, create, record_consensus, check_threshold, check_consensus,
}

-- The row that a check of `r` writes.
abbrev pub row_of : Env → TaskResponse → List Bytes → List String → ℕ → ConsensusResponse
row_of env r signatures addresses now =
    new_response (consensus_params env r signatures addresses) now

-- The rows `new` are `old` or `old` with the one row that a check of `r` writes, where the task had none.
pub data Recorded (env : Env) (r : TaskResponse) (old : Responses) : Responses → Type 0 where
  unchanged : Recorded env r old old
  added :
      (signatures : List Bytes) (addresses : List String) (now : ℕ)
      → get_by_task_id r.task_id old ≡ none
      → Recorded env r old (old ++ row_of env r signatures addresses now ∷ [])

module _ (env : Env) (r : TaskResponse) (old : Responses) where
  abbrev Kept : Node → Type 0
  Kept n = Recorded env r old n.responses

  found_after :
      (signatures : List Bytes) (addresses : List String) (now : ℕ)
      → get_by_task_id r.task_id old ≡ none
      → get_by_task_id r.task_id (old ++ row_of env r signatures addresses now ∷ [])
        ≡ some (row_of env r signatures addresses now)
  found_after s a now h = ground (
    arith,
    find-insert response_key r.task_id (row_of env r s a now) old,
    eq_iff r.task_id r.task_id,
  )

  row_once :
      (s : List Bytes) (a : List String) (now : ℕ)
      → Recorded env r old (create_consensus_response (consensus_params env r s a) now old).1
  unfolding create_consensus_response
  row_once s a now = elim (Option-cases (get_by_task_id r.task_id old)) [
    | inr (c, there) ↦ rw (there, create_consensus_response) unchanged
    | inl new ↦ elim (Option-cases (get_by_request (request_of (consensus_params env r s a)) old)) [
      | inr (c, there) ↦ rw (new, there, create_consensus_response) unchanged
      | inl free ↦ rw (new, free, create_consensus_response) (added s a now new)
    ]
  ]

  create_row :
      (s : List Bytes) (a : List String) (now : ℕ) (rows : Responses)
      → Recorded env r old rows
      → Recorded env r old (create_consensus_response (consensus_params env r s a) now rows).1
  unfolding create_consensus_response
  create_row s a now rows unchanged = row_once s a now
  create_row s a now rows (added s' a' now' new) =
      rw (found_after s' a' now' new, create_consensus_response) (added s' a' now' new)

  create-Kept :
      (signatures : List Bytes) (addresses : List String)
      → Keeps Kept (create env (consensus_params env r signatures addresses))
  unfolding create
  create-Kept s a = Keeps-query env _ (λ n h. h) λ now n h. create_row s a now n.responses h

  collect-Kept :
      (keys : List String) (responses : Map TaskResponse) → Keeps Kept (collect env keys responses)
  unfolding collect
  collect-Kept [] responses = search keeps_rules
  collect-Kept (k ∷ ks) responses = Keeps-bind _ _ (search (keeps_rules, Keeps-query)) λ found.
      Keeps-bind _ _ (Keeps-or_raise _ _)
        λ operator. Keeps-bind _ _ (collect-Kept ks responses) λ x. Keeps-pure _

  record_consensus-Kept :
      (responses : Map TaskResponse) → Keeps Kept (record_consensus env r responses)
  unfolding record_consensus mark_task_as_completed collect_signatures_and_addresses
  record_consensus-Kept responses =
      search (keeps_rules, Keeps-query, collect-Kept, create-Kept) depth 12

-- At the threshold, the check is the recording.
pub check_consensus_reached :
    (env : Env) (r : TaskResponse) (n : Node) (total threshold : ℤ)
    → is_empty (inner r.task_id n.track.responses) ≡ false
    → calculate_total_weight (pos 0) (inner r.task_id n.track.weights) ≡ ok total
    → n.epoch_state.threshold_weight ≡ some threshold
    → ltb_ℤ total threshold ≡ false
    → check_consensus env r n ≡ record_consensus env r (inner r.task_id n.track.responses) n
unfolding check_consensus check_threshold ◌>>=◌
check_consensus_reached env r n total threshold full e known reached = ground arith

-- How the check of a task ends: the process as it was, or the database written, and only at the threshold.
abbrev pub AtThreshold : Env → TaskResponse → Node → Type 0
AtThreshold env r n =
    (total : ℤ) × (threshold : ℤ) × (calculate_total_weight (pos 0)
        (inner r.task_id n.track.weights)
      ≡ ok total)
    × (n.epoch_state.threshold_weight ≡ some threshold)
    × (ltb_ℤ total threshold ≡ false)
    × Recorded env r n.responses (check_consensus env r n).1.responses

-- The consensus check of a response leaves the whole process as it was, or the weights under its task
-- add up to the threshold of the epoch at least. In that case the table of consensus responses is as it was, or has one new
-- row at its end, for that task, which had none.
pub check_consensus_safe :
    (env : Env) (r : TaskResponse) (n : Node)
    → ((check_consensus env r n).1 ≡ n) ⊎ AtThreshold env r n
unfolding check_consensus check_threshold ◌>>=◌
check_consensus_safe env r n =
    let total = calculate_total_weight (pos 0) (inner r.task_id n.track.weights) in
    elim (Bool-cases (is_empty (inner r.task_id n.track.responses))) [
      | inl empty ↦ inl (ground arith)
      | inr full ↦ elim (Outcome-cases total) [
        | inl (t, e) ↦ elim (Option-cases n.epoch_state.threshold_weight) [
          | inl nil ↦ inl (ground arith)
          | inr (h, known) ↦ elim (Bool-cases (ltb_ℤ t h)) [
            | inl below ↦ inl (ground arith)
            | inr reached ↦ inr (
              t,
              h,
              e,
              known,
              reached,
              rw (check_consensus_reached env r n t h full e known reached) (
                  (record_consensus-Kept env r n.responses (inner r.task_id n.track.responses)).at n
                    unchanged),
            )
          ]
        ]
        | inr (inl (x, e)) ↦ inl (ground arith)
        | inr (inr e) ↦ inl (ground arith)
      ]
    ]
