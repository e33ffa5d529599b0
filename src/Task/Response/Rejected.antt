-- ===== src/Task/Response/Rejected.antt =====
-- What an unacceptable response costs the peer that sent it.
use spotted_network.Base.{ℕ, ◌+◌, String, ◌≡◌, true, false, none, some, arith, ◌==◌}
use spotted_network.Base.Outcome.{
  with_nil, Error, Reply, Outcome, ok, err, handle, wrapped, message,
}
use spotted_network.Node.{TaskResponse, TaskResponseMessage, Node, Env, query}
use spotted_network.Node.Rules.{Up}
use spotted_network.Peer.{peer_id_to_p2p_key}
use spotted_network.Repo.Operators.{Operator, get_operator_by_p2p_key}
use spotted_network.Repo.Blacklist.{increment_violation_count}
use spotted_network.Repo.Responses.{get_by_task_id}
use spotted_network.Task.Track.{already_processed, convert_proto_to_response}
use spotted_network.Task.Response.{
  one_violation, increment_peer_violation, verify_response, verify_and_accept, from_operator,
  check_operator, from_peer, process_response,
}

-- Why a response of the current epoch is not accepted.
pub data Offence (env : Env) (n : Node) (peer : String) (r : TaskResponse) : Type 0 where
  no_key : (e : Error) → peer_id_to_p2p_key env peer ≡ err e → Offence env n peer r
  unknown :
      (p2p_key : String)
      → peer_id_to_p2p_key env peer ≡ ok p2p_key
      → get_operator_by_p2p_key env.lower p2p_key n.operators ≡ none
      → Offence env n peer r
  inactive :
      (p2p_key : String) (operator : Operator)
      → peer_id_to_p2p_key env peer ≡ ok p2p_key
      → get_operator_by_p2p_key env.lower p2p_key n.operators ≡ some operator
      → operator.is_active ≡ false
      → Offence env n peer r
  bad_signature :
      (p2p_key : String) (operator : Operator) (e : Error)
      → peer_id_to_p2p_key env peer ≡ ok p2p_key
      → get_operator_by_p2p_key env.lower p2p_key n.operators ≡ some operator
      → operator.is_active ≡ true
      → already_processed r.task_id operator.signing_key n ≡ false
      → get_by_task_id r.task_id n.responses ≡ none
      → verify_response env r operator.signing_key ≡ err e
      → Offence env n peer r

-- The process `n` after a violation of `peer` was counted at some time.
abbrev pub counted : String → Env → ℕ → ℕ → Node → Node
counted peer env now i n = record n {
  blacklist = (increment_violation_count (one_violation env peer) now n.blacklist).1;
  tick = i;
}

abbrev pub Punished : Env → String → Node → Outcome (Unit {0}) × Node → Type 0
Punished env peer n result =
    (e : Error) × (now : ℕ) × (i : ℕ) × (result ≡ (err e, counted peer env now i n))

module _ (env : Env) (up : Up env) (n : Node) (peer : String) where
  violation_counted :
      (i : ℕ) (e : Error)
      → Punished env peer n (increment_peer_violation env peer e (record n { tick = i }))
  unfolding increment_peer_violation query handle
  violation_counted i e = (with_nil e, env.now i, i + 1, ground (arith, up i))

  from_peer_rejects :
      (r : TaskResponse) → Offence env n peer r → Punished env peer n (from_peer env peer r n)
  unfolding from_peer check_operator from_operator verify_and_accept handle query already_processed
  from_peer_rejects r (no_key e bad) = rw (bad, from_peer) (violation_counted n.tick _)
  from_peer_rejects r (unknown k key missing) =
      let (e, now, i, counted_is) =
        violation_counted (n.tick + 1) (message "operator not exist or not active") in
      (e, now, i, ground (arith, up n.tick, counted_is))
  from_peer_rejects r (inactive k operator key found off) =
      let (e, now, i, counted_is) =
        violation_counted (n.tick + 1) (message "operator not exist or not active") in
      (e, now, i, ground (arith, up n.tick, counted_is))
  from_peer_rejects r (bad_signature k operator e key found on new free invalid) =
      let (x, now, i, counted_is) =
        violation_counted (n.tick + 2) (wrapped "failed to verify response" e) in
      (x, now, i, ground (arith, up n.tick, up (n.tick + 1), counted_is))

-- With a working database: a message of the current epoch costs its sender one violation and is
-- answered with an error, where the sender's key cannot be computed, or no active operator is registered under it, or the
-- signature is not that of the operator's signing key (and the response is new and its task has no
-- consensus). Nothing else changes.
pub process_response_rejects :
    (env : Env) (n : Node) (peer : String) (msg : TaskResponseMessage)
    → Up env
    → msg.epoch ≡ n.epoch_state.epoch_number
    → Offence env n peer (convert_proto_to_response msg)
    → Punished env peer n (process_response env (Reply.value msg) peer n)
unfolding process_response convert_proto_to_response
process_response_rejects env n peer msg up current offence =
    let same : (msg.epoch == n.epoch_state.epoch_number) ≡ true = ground arith in
    rw same (from_peer_rejects env up n peer (convert_proto_to_response msg) offence)
