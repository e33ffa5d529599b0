-- ===== src/Task/Response/Published.antt =====
-- The messages that a received response makes this operator publish.
use spotted_network.Base.{String, ◌≡◌, refl, Option, none, some, inl, inr, List, ◌==◌, Bool-cases}
use spotted_network.Base.Outcome.{Error, Reply}
use spotted_network.Base.Keeps.{
  Keeps, keeps_rules, Keeps-handle, Keeps-if, Keeps-pure, Keeps-raise, Keeps-lift,
}
use spotted_network.Node.{TaskResponse, TaskResponseMessage, Node, Env}
use spotted_network.Node.Rules.{Keeps-query}
use spotted_network.Base.Int.{ℤ}
use spotted_network.Repo.Operators.{Operator}
use spotted_network.Task.Track.{
  already_processed, store_response_and_weight, convert_proto_to_response, is_some,
}
use spotted_network.Task.Frames.{check_consensus-Keeps}
use spotted_network.Task.Process.{process_task}
use spotted_network.Task.Process.Honest.{Honest, silent, process_task-Keeps}
use spotted_network.Task.Process.Published.{
  Truthful, Truthful-Indifferent, Truthful-Closed, store_published,
}
use spotted_network.Task.Response.{
  task_of, increment_peer_violation, accept, verify_and_accept, from_operator, check_operator,
  from_peer, process_response,
}

module _ (env : Env) (old : List TaskResponseMessage) (peer : String) (r : TaskResponse) where
  abbrev P : Node → Type 0
  P = Truthful env (λ t. t ≡ task_of r) old

  violation-Truthful : (e : Error) → Keeps P (increment_peer_violation env peer e)
  unfolding increment_peer_violation
  violation-Truthful e =
      Keeps-handle _ _ _ (Keeps-query env _ (λ n h. h) λ now n h. h) (λ _. Keeps-raise _)
        (λ _. Keeps-raise _)

  store-Truthful : (key : String) (w : Option ℤ) → Keeps P (store_response_and_weight r key w)
  store-Truthful key w = record { at = λ n h. rw (store_published r key w n) h }

  process-Truthful : Keeps P (process_task env (task_of r))
  process-Truthful =
      process_task-Keeps env (task_of r)
        (Truthful-Closed env (λ t. t ≡ task_of r) old (task_of r) refl)

  accept-Truthful : (operator : Operator) → Keeps P (accept env r operator)
  unfolding accept
  accept-Truthful operator =
      search
        (keeps_rules, process-Truthful, check_consensus-Keeps, Truthful-Indifferent, store-Truthful)
        depth 14

  verify_and_accept-Truthful :
      (operator : Operator) → Keeps P (verify_and_accept env peer r operator)
  unfolding verify_and_accept
  verify_and_accept-Truthful operator =
      Keeps-handle _ _ _ (Keeps-lift _) (λ _. accept-Truthful operator) (λ e. violation-Truthful _)

  from_operator-Truthful : (operator : Operator) → Keeps P (from_operator env peer r operator)
  unfolding from_operator
  from_operator-Truthful operator =
      let rest = verify_and_accept-Truthful operator in
      record {
        at = λ n h. elim (Bool-cases (already_processed r.task_id operator.signing_key n)) [
          | inl done ↦ rw done h
          | inr new ↦ rw new (
              (Keeps-handle _ _ _ (Keeps-query env _ (λ n h. h) λ now n h. h)
                  (λ consensus. Keeps-if (is_some consensus) _ _ (λ _. Keeps-pure _) (λ _. rest))
                  (λ _. rest)).at
                n h)
        ];
      }

  check_operator-Truthful : (found : Option Operator) → Keeps P (check_operator env peer r found)
  unfolding check_operator
  check_operator-Truthful none = violation-Truthful _
  check_operator-Truthful (some operator) =
      Keeps-if operator.is_active _ _ (λ _. from_operator-Truthful operator)
        (λ _. violation-Truthful _)

  from_peer-Truthful : Keeps P (from_peer env peer r)
  unfolding from_peer
  from_peer-Truthful =
      Keeps-handle _ _ _ (Keeps-lift _)
        (λ p2p_key.
          Keeps-handle _ _ _ (Keeps-query env _ (λ n h. h) λ now n h. h) check_operator-Truthful
            (λ e. violation-Truthful _))
        (λ e. violation-Truthful _)

-- Every message that this operator publishes while it handles a message from a peer is its own
-- signed response to the task of that message, with the value of the message, which the task's chain
-- returned for its key at its block.
pub process_response_publishes :
    (env : Env) (n : Node) (peer : String) (msg : TaskResponseMessage)
    → Honest env
        (λ t. t ≡ task_of (convert_proto_to_response msg))
        n.published
        (process_response env (Reply.value msg) peer n).1.published
unfolding process_response
process_response_publishes env n peer msg =
    let r = convert_proto_to_response msg in
    elim (Bool-cases (r.epoch == n.epoch_state.epoch_number)) [
      | inr stale ↦ rw stale silent
      | inl current ↦ rw current ((from_peer-Truthful env n.published peer r).at n silent)
    ]
