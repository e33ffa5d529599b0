-- ===== src/Task/Response/Accepted.antt =====
-- Which responses reach the tracker: this operator's own, and verified ones of active operators.
use spotted_network.Base.{
  String, ◌≡◌, refl, sym, ap, true, Option, none, some, inl, inr, arith, ◌==◌, Bool-cases,
}
use spotted_network.Base.Outcome.{Error, Reply, ok}
use spotted_network.Base.Keeps.{
  Keeps, keeps_rules, Keeps-handle, Keeps-pure, Keeps-lift, Keeps-raise, Keeps-if,
}
use spotted_network.Base.Returns.{Answers-self, Returns-lift, Keeps-handle_with, Keeps-handle_when}
use spotted_network.Node.{TaskResponse, TaskResponseMessage, Node, Env, read}
use spotted_network.Node.Rules.{Keeps-query, Answers-read}
use spotted_network.Peer.{peer_id_to_p2p_key}
use spotted_network.Repo.Operators.{Operator, get_operator_by_p2p_key}
use spotted_network.Repo.Responses.{get_by_task_id}
use spotted_network.Task.Track.{already_processed, convert_proto_to_response, is_some}
use spotted_network.Task.Track.Laws.{lookup2, IsPaired}
use spotted_network.Task.Frames.{check_consensus-Keeps}
use spotted_network.Task.Process.{own_key, process_task}
use spotted_network.Task.Process.Honest.{Own, process_task-Keeps}
use spotted_network.Task.Entries.{
  Each, Entitled, Entitled-Indifferent, Entitled-Closed, store_Keeps,
}
use spotted_network.Task.Response.{
  task_of, increment_peer_violation, verify_response, accept, verify_and_accept, from_operator,
  check_operator, from_peer, process_response,
}

-- What may stand under a task and a signing key after a message of `peer` was handled, where `old`
-- was the process before.
pub data Allowed (env : Env) (old : Node) (peer : String) (msg : TaskResponseMessage)
    (id key : String) : TaskResponse → Type 0 where
  before :
      {r : TaskResponse}
      → lookup2 id key old.track.responses ≡ some r
      → Allowed env old peer msg id key r
  computed :
      {r : TaskResponse}
      → key ≡ own_key env
      → Own env (task_of (convert_proto_to_response msg)) r
      → Allowed env old peer msg id key r
  verified :
      (p2p_key : String) (operator : Operator)
      → peer_id_to_p2p_key env peer ≡ ok p2p_key
      → get_operator_by_p2p_key env.lower p2p_key old.operators ≡ some operator
      → operator.is_active ≡ true
      → operator.signing_key ≡ key
      → msg.epoch ≡ old.epoch_state.epoch_number
      → verify_response env (convert_proto_to_response msg) key ≡ ok tt
      → Allowed env old peer msg id key (convert_proto_to_response msg)

module _ (env : Env) (old : Node) (peer : String) (msg : TaskResponseMessage) where
  abbrev P : Node → Type 0
  P = Entitled (Allowed env old peer msg) old.operators

  abbrev r : TaskResponse
  r = convert_proto_to_response msg

  violation_Keeps : (e : Error) → Keeps P (increment_peer_violation env peer e)
  unfolding increment_peer_violation
  violation_Keeps e =
      Keeps-handle _ _ _
        (Keeps-query env _ (Entitled-Indifferent _ _).tick
          λ now n h. record { paired = h.paired; entry = h.entry; operators = h.operators })
        (λ _. Keeps-raise _) (λ _. Keeps-raise _)

  read-Keeps : {A : Type 0} (f : Node → A) → Keeps P (read env f)
  read-Keeps f = Keeps-query env _ (Entitled-Indifferent _ _).tick λ now n h. h

  process_Keeps : Keeps P (process_task env (task_of r))
  unfolding task_of convert_proto_to_response
  process_Keeps =
      process_task-Keeps env (task_of r)
        (Entitled-Closed _ _ env (task_of r) λ x mine. computed refl mine)

  accept-Keeps :
      (operator : Operator)
      → Allowed env old peer msg msg.task_id operator.signing_key r
      → Keeps P (accept env r operator)
  unfolding accept convert_proto_to_response
  accept-Keeps operator allowed =
      search
        (
          keeps_rules,
          process_Keeps,
          check_consensus-Keeps,
          Entitled-Indifferent,
          store_Keeps (Allowed env old peer msg) old.operators r operator.signing_key,
        )
        depth 14

  module _ (p2p_key : String) (key_is : peer_id_to_p2p_key env peer ≡ ok p2p_key)
      (epoch_is : msg.epoch ≡ old.epoch_state.epoch_number) where
    verify_and_accept-Keeps :
        (operator : Operator)
        → get_operator_by_p2p_key env.lower p2p_key old.operators ≡ some operator
        → operator.is_active ≡ true
        → Keeps P (verify_and_accept env peer r operator)
    unfolding verify_and_accept
    verify_and_accept-Keeps operator found active =
        Keeps-handle_with _ _ _ _ (Returns-lift _ (Answers-self _)) (Keeps-lift _)
          (λ u valid.
            accept-Keeps operator
              (verified p2p_key operator key_is found active refl epoch_is valid))
          (λ e. violation_Keeps _)

    from_operator-Keeps :
        (operator : Operator)
        → get_operator_by_p2p_key env.lower p2p_key old.operators ≡ some operator
        → operator.is_active ≡ true
        → Keeps P (from_operator env peer r operator)
    unfolding from_operator
    from_operator-Keeps operator found active =
        let rest = verify_and_accept-Keeps operator found active in
        record {
          at = λ n h. elim (Bool-cases (already_processed r.task_id operator.signing_key n)) [
            | inl done ↦ rw done h
            | inr new ↦ rw new (
                (Keeps-handle _ _ _ (read-Keeps (λ m. get_by_task_id r.task_id m.responses))
                    (λ consensus. Keeps-if (is_some consensus) _ _ (λ _. Keeps-pure _) (λ _. rest))
                    (λ _. rest)).at
                  n h)
          ];
        }

    check_operator-Keeps :
        (found : Option Operator)
        → get_operator_by_p2p_key env.lower p2p_key old.operators ≡ found
        → Keeps P (check_operator env peer r found)
    unfolding check_operator
    check_operator-Keeps none e = violation_Keeps _
    check_operator-Keeps (some operator) e =
        Keeps-if operator.is_active _ _ (from_operator-Keeps operator e) (λ _. violation_Keeps _)

  from_peer-Keeps : msg.epoch ≡ old.epoch_state.epoch_number → Keeps P (from_peer env peer r)
  unfolding from_peer
  from_peer-Keeps epoch_is =
      Keeps-handle_with _ _ _ _ (Returns-lift _ (Answers-self _)) (Keeps-lift _)
        (λ p2p_key key_is.
          Keeps-handle_when
            (λ found. get_operator_by_p2p_key env.lower p2p_key old.operators ≡ found) _ _ _
            (λ s h.
              Answers-read _ env _ s
                (ap (get_operator_by_p2p_key env.lower p2p_key) (sym h.operators)))
            (read-Keeps _) (check_operator-Keeps p2p_key key_is epoch_is) (λ e. violation_Keeps _))
        (λ e. violation_Keeps _)

Each-before : {A : Type 0} (o : Option A) (Q : A → Type 0) → ((a : A) → o ≡ some a → Q a) → Each Q o
Each-before none Q f = tt
Each-before (some a) Q f = f a refl

-- Handling a decoded message keeps the two maps of the tracker paired and the operators as they were.
-- Every response in the tracker afterwards was there before, or is this operator's own response to
-- the message's task, whose value the chain confirmed, or is the message's: then the message is of
-- the current epoch, and its signature is that of the signing key of an active operator, who is
-- registered under the key of the peer that sent it.
pub process_response_entries :
    (env : Env) (old : Node) (peer : String) (msg : TaskResponseMessage)
    → IsPaired old.track
    → Entitled
        (Allowed env old peer msg)
        old.operators
        (process_response env (Reply.value msg) peer old).1
unfolding process_response convert_proto_to_response
process_response_entries env old peer msg p =
    let start : Entitled (Allowed env old peer msg) old.operators old = record {
      paired = p;
      entry = λ id key. Each-before (lookup2 id key old.track.responses) _ λ r e. before e;
      operators = refl;
    } in
    elim (Bool-cases (msg.epoch == old.epoch_state.epoch_number)) [
      | inr stale ↦ rw stale start
      | inl current ↦ rw current ((from_peer-Keeps env old peer msg (ground arith)).at old start)
    ]
