-- ===== src/Task/Consensus.antt =====
-- The consensus check: pkg/operator/task/consensus.go.
pub mod Order
pub mod Safety
pub mod Progress
use spotted_network.Base.{
  ℕ, String, ◌≡◌, refl, Bool, true, false, Option, none, some, List, [], ◌∷◌, if◌then◌else◌,
}
use spotted_network.Base.Int.{ℤ, pos, ◌+ℤ◌, ltb_ℤ}
use spotted_network.Base.Lists.{is_empty}
use spotted_network.Base.Maps.{Map, lookup, keys}
use spotted_network.Base.Sort.{sort_strings}
use spotted_network.Base.Outcome.{
  Outcome, ok, err, panic, message, wrapped, Reply, ◌>>=◌, ◌>>◌, pure, raise, gets, or_wrap,
  or_raise, deref, lift, modify,
}
use spotted_network.Numeric.{string_to_numeric}
use spotted_network.Node.{TaskResponse, Node, Env, Step, query, read, write}
use spotted_network.Repo.Tasks.{get_task_by_id, update_task_to_completed}
use spotted_network.Repo.Operators.{get_operator_by_signing_key}
use spotted_network.Repo.Responses.{
  CreateConsensusResponseParams, ConsensusResponse, Bytes, create_consensus_response,
}
use spotted_network.Task.Track.{inner}

-- `calculateTotalWeight`: `Add` reads through a nil weight
unfoldable pub calculate_total_weight : ℤ → Map (Option ℤ) → Outcome ℤ
calculate_total_weight total [] = ok total
calculate_total_weight total ((_, none) ∷ m) = panic
calculate_total_weight total ((_, some w) ∷ m) = calculate_total_weight (total +ℤ w) m

-- The loop of `collectSignaturesAndAddresses` over the sorted keys. The zero `taskResponse` of a
-- key that is not in the map has no signature.
unfoldable pub signature_of : String → Map TaskResponse → Bytes
signature_of key responses = elim (lookup key responses) [ none ↦ [] | some r ↦ r.signature ]

module _ (env : Env) where
  unfoldable pub collect : List String → Map TaskResponse → Step (List Bytes × List String)
  collect [] responses = pure ([], [])
  collect (key ∷ more) responses = do
    found ←
        or_wrap (read env (λ n. get_operator_by_signing_key key n.operators))
          "failed to get operator for signing key"
    operator ← or_raise found (message "operator not found for signing key")
    (signatures, addresses) ← collect more responses
    pure (signature_of key responses ∷ signatures, operator.address ∷ addresses)

  -- `collectSignaturesAndAddresses`
  unfoldable pub collect_signatures_and_addresses :
      Map TaskResponse → Step (List Bytes × List String)
  unfolding collect signature_of
  collect_signatures_and_addresses responses = collect (sort_strings (keys responses)) responses

  unfoldable pub create : CreateConsensusResponseParams → Step ConsensusResponse
  create p = query env λ now n.
      let (r, responses) = create_consensus_response p now n.responses in
      (r, record n { responses = responses })

  -- `markTaskAsCompleted`: a task that is not there is no error
  unfoldable pub mark_task_as_completed : String → Step (Unit {0})
  mark_task_as_completed id = do
    or_wrap (read env (λ n. get_task_by_id id n.tasks)) "failed to get task"
    or_wrap (write env (λ now n. record n { tasks = update_task_to_completed id now n.tasks }))
        "failed to update task status"

  abbrev pub consensus_params :
      TaskResponse → List Bytes → List String → CreateConsensusResponseParams
  consensus_params response signatures addresses = record {
    task_id = response.task_id;
    epoch = response.epoch;
    value = string_to_numeric response.value;
    key = string_to_numeric response.key;
    chain_id = response.chain_id;
    block_number = response.block_number;
    target_address = response.target_address;
    aggregated_signatures = signatures;
    operator_addresses = addresses;
  }

  -- What `checkConsensus` does once the threshold is reached.
  unfoldable pub record_consensus : TaskResponse → Map TaskResponse → Step (Unit {0})
  unfolding create
  record_consensus response responses = do
    (signatures, addresses) ←
        or_wrap (collect_signatures_and_addresses responses)
          "failed to collect signatures and addresses"
    or_wrap (create (consensus_params response signatures addresses))
        "failed to create consensus response"
    or_wrap (mark_task_as_completed response.task_id) "failed to mark task as completed"

  -- `Cmp` reads through a nil threshold.
  unfoldable pub check_threshold :
      TaskResponse → Map TaskResponse → Map (Option ℤ) → Step (Unit {0})
  check_threshold response responses weights = do
    total ← lift (calculate_total_weight (pos 0) weights)
    known ← gets (λ n. n.epoch_state.threshold_weight)
    threshold ← deref known
    if ltb_ℤ total threshold then pure tt else record_consensus response responses

  -- `checkConsensus`
  unfoldable pub check_consensus : TaskResponse → Step (Unit {0})
  unfolding check_threshold
  check_consensus response n =
      let responses = inner response.task_id n.track.responses in
      let weights = inner response.task_id n.track.weights in
      if is_empty responses then (ok tt, n) else check_threshold response responses weights n
