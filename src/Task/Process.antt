-- ===== src/Task/Process.antt =====
-- Processing a task: pkg/operator/task/task.go.
pub mod Source
pub mod Honest
pub mod Published
use spotted_network.Base.{
  ℕ, zero, suc, String, Bool, true, false, Option, none, some, List, [], ◌∷◌, ◌++◌, ltb, ◌==◌,
  if◌then◌else◌,
}
use spotted_network.Base.Int.{ℤ, eqb_ℤ}
use spotted_network.Base.Outcome.{
  Error, error_text, contains, Outcome, ok, err, panic, message, wrapped, ◌>>=◌, ◌>>◌, pure, raise,
  gets, or_wrap, or_raise, deref, lift, modify, handle, ignore,
}
use spotted_network.Numeric.{numeric_to_big_int, numeric_to_string}
use spotted_network.Numeric.Decimal.{to_string}
use spotted_network.Signer.{Bytes, TaskSignParams, signing_address, sign_task_response}
use spotted_network.Node.{TaskResponse, Node, Env, Step, call, read}
use spotted_network.Repo.Tasks.{Task}
use spotted_network.Repo.Operators.{get_operator_by_signing_key}
use spotted_network.Task.Track.{already_processed, store_response_and_weight, to_message}
use spotted_network.Task.Consensus.{check_consensus}

-- Contract errors after which another try is useless.
unfoldable pub is_final : Error → Option Error
is_final e =
    let t = error_text e in
    if contains t "0x7c44ec9a"
    then some (message "block not found in state history")
    else if contains t "StateManager__KeyNotFound"
    then some (message "key not found for address")
    else if contains t "StateManager__NoHistoryFound"
    then some (message "no state history found for block and key")
    else none

module _ (env : Env) where
  -- `chainManager.GetClientByChainId`; a client is its chain's number
  unfoldable pub get_client : ℕ → Step ℕ
  get_client chain_id n =
      if env.has_chain chain_id then (ok chain_id, n) else (err (message "chain not found"), n)

  -- What follows a failed `GetStateAtBlock`: the loop goes on, unless the error is final.
  unfoldable pub retry : Error → Step ℤ → Step ℤ
  retry e again = elim (is_final e) [ some f ↦ raise f | none ↦ again ]

  -- The loop of `getStateWithRetries`, with the rounds left.
  unfoldable pub state_loop : ℕ → ℕ → Bytes → Option ℤ → ℕ → Step ℤ
  state_loop zero chain target key block n = (err (message "failed to get state after retries"), n)
  state_loop (suc rounds) chain target key block n =
      let again = state_loop rounds chain target key block in
      handle (call (env.block_number chain))
        (λ latest.
          if ltb latest block
          then raise (message "block number is in the future")
          else handle (call (env.state_at chain target key block)) pure (λ e. retry e again))
        (λ _. again) n

  abbrev pub max_retries : ℕ
  max_retries = 3

  -- `getStateWithRetries`
  unfoldable pub get_state_with_retries : ℕ → Bytes → Option ℤ → ℕ → Step ℤ
  unfolding state_loop retry
  get_state_with_retries = state_loop max_retries

  -- `broadcastResponse`: the message reaches the topic, or the call fails
  unfoldable pub broadcast_response : TaskResponse → Step (Unit {0})
  broadcast_response response = do
    call env.publish
    modify (λ n. record n { published = n.published ++ to_message response ∷ [] })

  abbrev pub own_key : String
  own_key = signing_address env.crypto env.signing_key

  -- `ProcessTask` up to the comparison with the chain: the key and the value that it signs.
  unfoldable pub fetch_value : Task → Step (Option ℤ × ℤ)
  fetch_value task = do
    client ← or_wrap (get_client task.chain_id) "failed to get state client"
    key ← or_wrap (lift (numeric_to_big_int task.key)) "failed to convert key to big.Int"
    value ←
        or_wrap
          (get_state_with_retries client (env.crypto.hex_to_address task.target_address) key
            task.block_number)
          "failed to get state"
    expected ←
        or_wrap (lift (numeric_to_big_int task.value)) "failed to convert task value to big.Int"
    expected_value ← deref expected
    if eqb_ℤ value expected_value then pure (key, value) else raise (message "state value mismatch")

  abbrev pub sign_params : Task → Option ℤ → ℤ → TaskSignParams
  sign_params task key value = record {
    user = env.crypto.hex_to_address task.target_address;
    chain_id = task.chain_id;
    block_number = task.block_number;
    key = key;
    value = some value;
  }

  abbrev pub own_response : Task → ℤ → Bytes → TaskResponse
  own_response task value signature = record {
    task_id = task.task_id;
    signature = signature;
    value = to_string value;
    block_number = task.block_number;
    chain_id = task.chain_id;
    target_address = task.target_address;
    key = numeric_to_string task.key;
    epoch = task.epoch;
  }

  -- `ProcessTask` from the signature on. A signing key with no operator is a nil pointer.
  unfoldable pub respond : Task → Option ℤ → ℤ → Step (Unit {0})
  respond task key value = do
    signature ←
        or_wrap (lift (sign_task_response env.crypto env.signing_key (sign_params task key value)))
          "failed to sign response"
    found ←
        or_wrap (read env (λ n. get_operator_by_signing_key own_key n.operators))
          "failed to get operator"
    operator ← deref found
    weight ←
        or_wrap (lift (numeric_to_big_int operator.weight))
          "failed to convert operator weight to big int"
    store_response_and_weight (own_response task value signature) own_key weight
    or_wrap (broadcast_response (own_response task value signature)) "failed to broadcast response"
    ignore (check_consensus env (own_response task value signature))

  -- `ProcessTask` of a task that is not nil
  unfoldable pub process_new : Task → Step (Unit {0})
  process_new task = do (key, value) ← fetch_value task; respond task key value

  unfoldable pub process_task : Task → Step (Unit {0})
  process_task task n =
      if already_processed task.task_id own_key n
      then (ok tt, n)
      else if task.block_number == 0
      then (err (message "task block number is nil"), n)
      else process_new task n
