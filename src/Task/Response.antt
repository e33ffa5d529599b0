-- ===== src/Task/Response.antt =====
-- Responses of other operators: pkg/operator/task/response.go. The goroutines that
-- `handleResponses` starts run `processResponse` one message each.
pub mod Accepted
pub mod Rejected
pub mod Published
use spotted_network.Base.{
  ℕ, zero, suc, String, Bool, true, false, not, ◌||◌, Option, none, some, List, [], ◌∷◌, ◌++◌, ◌==◌,
  if◌then◌else◌,
}
use spotted_network.Base.Int.{ℤ}
use spotted_network.Base.Outcome.{
  error_text, with_nil, Error, Reply, Outcome, ok, err, panic, message, wrapped, outcome, ◌>>=◌,
  ◌>>◌, pure, raise, gets, or_wrap, deref, lift, handle, ignore,
}
use spotted_network.Numeric.{numeric_to_big_int, string_to_big_int, string_to_numeric}
use spotted_network.Signer.{Bytes, TaskSignParams, verify_task_response}
use spotted_network.Node.{TaskResponse, TaskResponseMessage, Node, Env, Step, query, read}
use spotted_network.Peer.{peer_id_to_p2p_key}
use spotted_network.Repo.Tasks.{Task, pending}
use spotted_network.Repo.Operators.{Operator, get_operator_by_p2p_key}
use spotted_network.Repo.Blacklist.{IncrementViolationCountParams, increment_violation_count}
use spotted_network.Repo.Responses.{ConsensusResponse, get_by_task_id}
use spotted_network.Task.Track.{
  already_processed, store_response_and_weight, convert_proto_to_response, is_some,
}
use spotted_network.Task.Consensus.{check_consensus}
use spotted_network.Task.Process.{own_key, process_task}

-- The task that a response stands for; the status, the confirmations and the counter are zero values.
unfoldable pub task_of : TaskResponse → Task
task_of r = record {
  task_id = r.task_id;
  chain_id = r.chain_id;
  target_address = r.target_address;
  key = string_to_numeric r.key;
  block_number = r.block_number;
  value = string_to_numeric r.value;
  epoch = r.epoch;
  status = pending;
  required_confirmations = 0;
  retry_count = 0;
  created_at = 0;
  updated_at = 0;
}

module _ (env : Env) where
  abbrev pub one_violation : String → IncrementViolationCountParams
  one_violation peer = record { peer_id = peer; violation_count = 1; expires_at = none }

  -- `incrementPeerViolation`: it returns an error in any case, `fmt.Errorf("%v: %w", original, err)`.
  -- Where the count succeeds, `err` is nil, which `%w` prints in its way.
  unfoldable pub increment_peer_violation : String → Error → Step (Unit {0})
  increment_peer_violation peer original =
      handle
        (query env λ now n.
          let (entry, rows) = increment_violation_count (one_violation peer) now n.blacklist in
          (ok entry, record n { blacklist = rows }))
        (λ _. raise (with_nil original)) (λ e. raise (wrapped (error_text original) e))

  -- `verifyResponse`
  unfoldable pub verify_response : TaskResponse → String → Outcome (Unit {0})
  verify_response r signing_key =
      verify_task_response env.crypto
        (record {
          user = env.crypto.hex_to_address r.target_address;
          chain_id = r.chain_id;
          block_number = r.block_number;
          key = string_to_big_int r.key;
          value = string_to_big_int r.value;
        })
        r.signature signing_key

  -- The last part of `processResponse`: keep the response, check for consensus, and process the
  -- task if this operator has not.
  unfoldable pub accept : TaskResponse → Operator → Step (Unit {0})
  accept r operator = do
    weight ←
        or_wrap (lift (numeric_to_big_int operator.weight))
          "failed to convert operator weight to big int"
    store_response_and_weight r operator.signing_key weight
    ignore (check_consensus env r)
    processed ← gets (already_processed r.task_id (own_key env))
    if processed then pure tt else or_wrap (process_task env (task_of r)) "failed to process task"

  -- `processResponse` once the task is known to have no consensus.
  unfoldable pub verify_and_accept : String → TaskResponse → Operator → Step (Unit {0})
  verify_and_accept peer r operator =
      handle (lift (verify_response r operator.signing_key)) (λ _. accept r operator)
        (λ e. increment_peer_violation peer (wrapped "failed to verify response" e))

  -- `processResponse` once the operator is known to be active. A failed look-up of the consensus
  -- is taken for none.
  unfoldable pub from_operator : String → TaskResponse → Operator → Step (Unit {0})
  from_operator peer r operator n =
      if already_processed r.task_id operator.signing_key n
      then (ok tt, n)
      else handle (read env (λ m. get_by_task_id r.task_id m.responses))
          (λ consensus. if is_some consensus then pure tt else verify_and_accept peer r operator)
          (λ _. verify_and_accept peer r operator) n

  -- The answer of `GetOperatorByP2PKey`.
  unfoldable pub check_operator : String → TaskResponse → Option Operator → Step (Unit {0})
  check_operator peer r none =
      increment_peer_violation peer (message "operator not exist or not active")
  check_operator peer r (some operator) =
      if operator.is_active
      then from_operator peer r operator
      else increment_peer_violation peer (message "operator not exist or not active")

  -- `processResponse` of a message of the current epoch
  unfoldable pub from_peer : String → TaskResponse → Step (Unit {0})
  from_peer peer r =
      handle (lift (peer_id_to_p2p_key env peer))
        (λ p2p_key.
          handle (read env (λ n. get_operator_by_p2p_key env.lower p2p_key n.operators))
            (check_operator peer r)
            (λ e. increment_peer_violation peer (wrapped "failed to get operator state" e)))
        (λ e. increment_peer_violation peer (wrapped "failed to convert peer ID to P2P key" e))

  -- `processResponse`: the decoded message, if it decodes, and the peer that it was received from
  unfoldable pub process_response : Reply TaskResponseMessage → String → Step (Unit {0})
  process_response decoded peer n = elim decoded [
    | Reply.fault e ↦ (err (wrapped "failed to unmarshal message" e), n)
    | Reply.value msg ↦
        let r = convert_proto_to_response msg in
        if r.epoch == n.epoch_state.epoch_number then from_peer peer r n else (ok tt, n)
  ]

  -- The goroutine of `handleResponses`: errors are logged and panics are recovered.
  unfoldable pub handle_message : Reply TaskResponseMessage → String → Node → Node
  handle_message decoded peer n = (process_response decoded peer n).1
