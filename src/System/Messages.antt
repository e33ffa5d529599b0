-- ===== src/System/Messages.antt =====
-- A received message keeps every stable property.
use spotted_network.Base.{String, ◌≡◌, Option, none, some, inl, inr, ◌==◌, Bool-cases}
use spotted_network.Base.Outcome.{Error, Reply, ok}
use spotted_network.Base.Keeps.{
  Keeps, keeps_rules, Keeps-handle, Keeps-if, Keeps-pure, Keeps-raise, Keeps-lift,
}
use spotted_network.Base.Returns.{Answers-self, Returns-lift, Keeps-handle_with}
use spotted_network.Node.{TaskResponse, TaskResponseMessage, Node, Env}
use spotted_network.Node.Rules.{Keeps-query}
use spotted_network.Repo.Operators.{Operator}
use spotted_network.Base.Int.{ℤ}
use spotted_network.Task.Consensus.{check_consensus}
use spotted_network.Task.Track.{
  store_response_and_weight, already_processed, convert_proto_to_response, is_some,
}
use spotted_network.Task.Frames.{check_consensus-Keeps}
use spotted_network.Task.Process.{process_task}
use spotted_network.Task.Process.Honest.{process_task-Keeps}
use spotted_network.Task.Response.{
  task_of, increment_peer_violation, verify_response, accept, verify_and_accept, from_operator,
  check_operator, from_peer, process_response, handle_message,
}
use spotted_network.System.Stable.{verified, Stable, ticks, Stable-Indifferent, Stable-Closed}

module _ {env : Env} {P : Node → Type 0} (s : Stable env P) where
  violation_kept : (peer : String) (e : Error) → Keeps P (increment_peer_violation env peer e)
  unfolding increment_peer_violation
  violation_kept peer e =
      Keeps-handle _ _ _ (Keeps-query env _ (ticks s) λ now n h. s.blacklist _ n h)
        (λ _. Keeps-raise _) (λ _. Keeps-raise _)

  module _ (peer : String) (r : TaskResponse) where
    process_kept : Keeps P (process_task env (task_of r))
    process_kept = process_task-Keeps env (task_of r) (Stable-Closed s (task_of r))

    check_kept : Keeps P (check_consensus env r)
    check_kept = check_consensus-Keeps env (Stable-Indifferent s) r

    store_kept :
        (key : String) (w : Option ℤ)
        → verify_response env r key ≡ ok tt
        → Keeps P (store_response_and_weight r key w)
    store_kept key w valid = s.stores r key w (verified valid)

    accept_kept :
        (operator : Operator)
        → verify_response env r operator.signing_key ≡ ok tt
        → Keeps P (accept env r operator)
    unfolding accept
    accept_kept operator valid =
        search (keeps_rules, process_kept, check_kept, store_kept, valid) depth 14

    verify_and_accept_kept : (operator : Operator) → Keeps P (verify_and_accept env peer r operator)
    unfolding verify_and_accept
    verify_and_accept_kept operator =
        Keeps-handle_with _ _ _ _ (Returns-lift _ (Answers-self _)) (Keeps-lift _)
          (λ u valid. accept_kept operator valid) (λ e. violation_kept peer _)

    from_operator_kept : (operator : Operator) → Keeps P (from_operator env peer r operator)
    unfolding from_operator
    from_operator_kept operator =
        let rest = verify_and_accept_kept operator in
        record {
          at = λ n h. elim (Bool-cases (already_processed r.task_id operator.signing_key n)) [
            | inl done ↦ rw done h
            | inr new ↦ rw new (
                (Keeps-handle _ _ _ (Keeps-query env _ (ticks s) λ now n h. h)
                    (λ consensus. Keeps-if (is_some consensus) _ _ (λ _. Keeps-pure _) (λ _. rest))
                    (λ _. rest)).at
                  n h)
          ];
        }

    check_operator_kept : (found : Option Operator) → Keeps P (check_operator env peer r found)
    unfolding check_operator
    check_operator_kept none = violation_kept peer _
    check_operator_kept (some operator) =
        Keeps-if operator.is_active _ _ (λ _. from_operator_kept operator)
          (λ _. violation_kept peer _)

    from_peer_kept : Keeps P (from_peer env peer r)
    unfolding from_peer
    from_peer_kept =
        Keeps-handle _ _ _ (Keeps-lift _)
          (λ p2p_key.
            Keeps-handle _ _ _ (Keeps-query env _ (ticks s) λ now n h. h) check_operator_kept
              (λ e. violation_kept peer _))
          (λ e. violation_kept peer _)

  process_response_kept :
      (msg : TaskResponseMessage) (peer : String)
      → Keeps P (process_response env (Reply.value msg) peer)
  unfolding process_response
  process_response_kept msg peer = record {
    at = λ n h.
        let r = convert_proto_to_response msg in
        elim (Bool-cases (r.epoch == n.epoch_state.epoch_number)) [
          | inr stale ↦ rw stale h
          | inl current ↦ rw current ((from_peer_kept peer r).at n h)
        ];
  }

  pub handle_message_kept :
      (decoded : Reply TaskResponseMessage) (peer : String) (n : Node)
      → P n
      → P (handle_message env decoded peer n)
  unfolding handle_message process_response
  handle_message_kept (Reply.fault e) peer n h = h
  handle_message_kept (Reply.value msg) peer n h = (process_response_kept msg peer).at n h
