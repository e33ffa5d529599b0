-- ===== src/Task/Tests.antt =====
-- The theorems on the task processor at the world of `Node.Sample`.
use mathlib.Core.List.{Permᴰ}
use spotted_network.Base.{
  ℕ, String, ◌≡◌, refl, ◌⊎◌, false, Option, none, some, List, [], ◌∷◌, map, ◌≤◌, ◌<◌, arith, str_eq,
  if◌then◌else◌,
}
use spotted_network.Base.Int.{ℤ, pos, ◌+ℤ◌}
use spotted_network.Base.Lists.{is_empty}
use spotted_network.Base.Maps.{Map, lookup, keys}
use spotted_network.Base.Sort.{sort_strings}
use spotted_network.Base.Outcome.{Reply, ok, ignore, for_each}
use spotted_network.Base.Returns.{Answers}
use spotted_network.Node.{TaskResponse, Env}
use spotted_network.Node.Sample.{env, one, two, task, response, msg, empty, answered, node}
use spotted_network.Peer.{peer_id_to_p2p_key, encode_hex}
use spotted_network.Repo.Table.{find}
use spotted_network.Repo.Tasks.{get_task_by_id, retried}
use spotted_network.Repo.Responses.{get_by_task_id, get_by_request, request_of}
use spotted_network.Task.Track.{convert_proto_to_response, inner, is_some, already_processed}
use spotted_network.Task.Track.Laws.{IsPaired}
use spotted_network.Task.Track.Ballots.{
  Use, perform, Represents, cast_all, no_ballots, for_each-cast_all,
}
use spotted_network.Task.Entries.{Entitled}
use spotted_network.Task.Consensus.{
  calculate_total_weight, signature_of, consensus_params, check_threshold, check_consensus,
}
use spotted_network.Task.Consensus.Order.{Distinct, check_threshold-perm}
use spotted_network.Task.Consensus.Safety.{AtThreshold, check_consensus_safe}
use spotted_network.Task.Consensus.Progress.{
  Registered, nobody, also, recorded, check_consensus_records,
}
use spotted_network.Task.Process.{get_state_with_retries, process_task}
use spotted_network.Task.Process.Source.{FromChain, Within, get_state_with_retries_lem}
use spotted_network.Task.Process.Honest.{Honest}
use spotted_network.Task.Process.Published.{process_task_publishes}
use spotted_network.Task.Response.{task_of, process_response}
use spotted_network.Task.Response.Published.{process_response_publishes}
use spotted_network.Task.Response.Accepted.{Allowed, process_response_entries}
use spotted_network.Task.Response.Rejected.{Punished, unknown, process_response_rejects}
use spotted_network.Task.Check.{check_timeout}
use spotted_network.Task.Check.Timeout
use spotted_network.Task.Check.Timeout.{check_timeout_tries}

empty-IsPaired : IsPaired empty
unfolding lookup
empty-IsPaired = record { outer = λ id. refl; cells = λ id key. refl }

process_response_entries_example :
    Entitled
      (Allowed env (node empty 0) "peer" (msg (1 ∷ [])))
      (one ∷ two ∷ [])
      (process_response env (Reply.value (msg (1 ∷ []))) "peer" (node empty 0)).1
process_response_entries_example =
    process_response_entries env (node empty 0) "peer" (msg (1 ∷ [])) empty-IsPaired

-- The one response of `answered` has the weight 10, which is the threshold.
paired : IsPaired answered
unfolding lookup
paired = record { outer = λ id. ground arith; cells = λ id key. ground arith }

total_10 : calculate_total_weight (pos 0) (inner "task" answered.weights) ≡ ok (pos 10)
unfolding calculate_total_weight lookup ◌+ℤ◌
total_10 = refl

not_empty : is_empty (inner "task" answered.responses) ≡ false
unfolding lookup
not_empty = refl

check_consensus_safe_example :
    ((check_consensus env response (node answered 0)).1 ≡ node answered 0)
    ⊎ AtThreshold env response (node answered 0)
check_consensus_safe_example = check_consensus_safe env response (node answered 0)

registered :
    Registered
      (one ∷ two ∷ [])
      (sort_strings (keys (inner "task" answered.responses)))
      ("operator one" ∷ [])
unfolding sort_strings keys lookup find
registered = also one refl nobody

no_consensus : get_by_task_id "task" [] ≡ none
unfolding find
no_consensus = refl

no_request : get_by_request (request_of (consensus_params env response [] [])) [] ≡ none
unfolding get_by_request
no_request = refl

check_consensus_records_example :
    (now : ℕ) × (later : ℕ) × (i : ℕ) × (check_consensus env response (node answered 0) ≡ (
      ok tt,
      recorded env response
          (map
            (λ k. signature_of k (inner "task" answered.responses))
            (sort_strings (keys (inner "task" answered.responses))))
          ("operator one" ∷ [])
          now
          later
          i
          (node answered 0),
    ))
check_consensus_records_example =
    check_consensus_records env response (node answered 0) (pos 10) (pos 10) ("operator one" ∷ [])
      (λ i. refl) not_empty total_10 refl refl registered no_consensus no_request

process_task_publishes_example :
    Honest env (λ t. t ≡ task 0) [] (process_task env (task 0) (node empty 0)).1.published
process_task_publishes_example = process_task_publishes env (task 0) (node empty 0)

abbrev pair : Map TaskResponse
pair = ("key one", response) ∷ ("key two", response) ∷ []

abbrev pair' : Map TaskResponse
pair' = ("key two", response) ∷ ("key one", response) ∷ []

abbrev weights : Map (Option ℤ)
weights = ("key one", some (pos 3)) ∷ ("key two", some (pos 4)) ∷ []

abbrev weights' : Map (Option ℤ)
weights' = ("key two", some (pos 4)) ∷ ("key one", some (pos 3)) ∷ []

distinct : Distinct pair
unfolding lookup
distinct = (refl, (refl, tt))

check_threshold-perm_example :
    check_threshold env response pair weights (node answered 0)
    ≡ check_threshold env response pair' weights' (node answered 0)
check_threshold-perm_example =
    check_threshold-perm env response (node answered 0) (Permᴰ.swap refl refl)
      (Permᴰ.swap refl refl) distinct

get_state_with_retries_lem_example :
    Within env 1
      (7 ∷ [])
      (some (pos 7))
      5
      6
      (node empty 0)
      (get_state_with_retries env 1 (7 ∷ []) (some (pos 7)) 5 (node empty 0)).1
    × Answers
        (FromChain env 1 (7 ∷ []) (some (pos 7)) 5)
        (get_state_with_retries env 1 (7 ∷ []) (some (pos 7)) 5 (node empty 0)).0
get_state_with_retries_lem_example =
    get_state_with_retries_lem env 1 (7 ∷ []) (some (pos 7)) 5 (node empty 0)

-- A key that no operator has.
stranger : Env
stranger = record env { extract_public_key = λ _. Reply.value (9 ∷ []) }

process_response_rejects_example :
    Punished stranger "peer"
      (node empty 0)
      (process_response stranger (Reply.value (msg (1 ∷ []))) "peer" (node empty 0))
unfolding stranger peer_id_to_p2p_key encode_hex find
process_response_rejects_example =
    process_response_rejects stranger (node empty 0) "peer" (msg (1 ∷ [])) (λ i. refl) refl
      (unknown "0x09" refl refl)

check_timeout_tries_example :
    (3 < 3
      → (check_timeout env (task 2) (node empty 2)
          ≡ ignore (process_task env (task 2)) (Timeout.counted env "task" (node empty 2)))
        × (get_task_by_id "task" (Timeout.counted env "task" (node empty 2)).tasks
            ≡ some (retried 0 (task 2))))
    × (3 ≤ 3
        → ((check_timeout env (task 2) (node empty 2)).0 ≡ ok tt)
          × ((id : String)
              → get_task_by_id id (check_timeout env (task 2) (node empty 2)).1.tasks
                ≡ (if str_eq "task" id then none else get_task_by_id id (node empty 2).tasks))
          × ((id key : String)
              → already_processed id key (check_timeout env (task 2) (node empty 2)).1
                ≡ (if str_eq "task" id then false else already_processed id key (node empty 2))))
unfolding find
check_timeout_tries_example =
    check_timeout_tries env (task 2) (task 2) (node empty 2) (λ i. refl) refl

process_response_publishes_example :
    Honest env
      (λ t. t ≡ task_of (convert_proto_to_response (msg (1 ∷ []))))
      []
      (process_response env (Reply.value (msg (1 ∷ []))) "peer" (node empty 0)).1.published
process_response_publishes_example =
    process_response_publishes env (node empty 0) "peer" (msg (1 ∷ []))

abbrev uses : List Use
uses =
    Use.store response "key one" (some (pos 10))
    ∷ Use.clean "other"
    ∷ Use.store response "key two" none
    ∷ []

for_each-cast_all_example :
    ((for_each uses perform (node empty 0)).0 ≡ ok tt)
    × Represents (for_each uses perform (node empty 0)).1.track (cast_all uses no_ballots)
    × ((id key : String)
        → already_processed id key (for_each uses perform (node empty 0)).1
          ≡ is_some (cast_all uses no_ballots id key))
for_each-cast_all_example = for_each-cast_all uses (node empty 0) refl
