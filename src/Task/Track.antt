-- ===== src/Task/Track.antt =====
-- The tracker of responses and weights of pkg/operator/task: `alreadyProcessed`,
-- `storeResponseAndWeight`, `cleanupTask`, `cleanupAllTasks`, and the conversion of messages.
pub mod Laws
pub mod Store
pub mod Ballots
use spotted_network.Base.{
  ℕ, String, ◌≡◌, refl, Bool, true, false, Option, none, some, List, [], ◌∷◌, if◌then◌else◌,
}
use spotted_network.Base.Int.{ℤ}
use spotted_network.Base.Maps.{Map, lookup, insert, erase}
use spotted_network.Base.Outcome.{Outcome, ok, err, panic}
use spotted_network.Node.{TaskResponse, TaskResponseMessage, TaskResponseTrack, Node, Step}

-- `m[task]`, where a missing map reads as an empty one
abbrev pub inner : {V : Type 0} → String → Map (Map V) → Map V
inner id m = elim (lookup id m) [ none ↦ [] | some l ↦ l ]

abbrev pub is_some : {V : Type 0} → Option V → Bool
is_some none = false
is_some (some _) = true

-- `_, processed := responses[taskId][signingKey]`
unfoldable pub already_processed : String → String → Node → Bool
already_processed id key n = is_some (lookup key (inner id n.track.responses))

-- The two maps of a task are made together, where the first is missing.
unfoldable pub init_task : String → TaskResponseTrack → TaskResponseTrack
init_task id t = elim (lookup id t.responses) [
  | some _ ↦ t
  | none ↦ record t { responses = insert id [] t.responses; weights = insert id [] t.weights }
]

-- `m[task][key] = v`, which panics where `m[task]` is nil
unfoldable pub assign : {V : Type 0} → String → String → V → Map (Map V) → Outcome (Map (Map V))
assign id key v m = elim (lookup id m) [ none ↦ panic | some l ↦ ok (insert id (insert key v l) m) ]

-- The critical section of `storeResponseAndWeight`, which `ProcessTask` repeats.
unfoldable pub store_response_and_weight : TaskResponse → String → Option ℤ → Step (Unit {0})
unfolding init_task assign
store_response_and_weight response key weight n =
    let t = init_task response.task_id n.track in
    elim (assign response.task_id key response t.responses) [
      | err e ↦ (err e, n)
      | panic ↦ (panic, n)
      | ok responses ↦ elim (assign response.task_id key weight t.weights) [
        | err e ↦ (err e, n)
        | panic ↦ (panic, record n { track = record t { responses = responses } })
        | ok weights ↦
            (ok tt, record n { track = record { responses = responses; weights = weights } })
      ]
    ]

-- `cleanupTask`
unfoldable pub cleanup_task : String → Node → Node
cleanup_task id n = record n {
  track = record { responses = erase id n.track.responses; weights = erase id n.track.weights };
}

-- `cleanupAllTasks`, and the last part of `Stop`
unfoldable pub cleanup_all_tasks : Node → Node
cleanup_all_tasks n = record n { track = record { responses = []; weights = [] } }

-- The message that `broadcastResponse` builds, and `convertProtoToResponse`.
unfoldable pub to_message : TaskResponse → TaskResponseMessage
to_message r = record {
  task_id = r.task_id;
  signature = r.signature;
  value = r.value;
  block_number = r.block_number;
  chain_id = r.chain_id;
  target_address = r.target_address;
  key = r.key;
  epoch = r.epoch;
}

unfoldable pub convert_proto_to_response : TaskResponseMessage → TaskResponse
convert_proto_to_response m = record {
  task_id = m.task_id;
  signature = m.signature;
  epoch = m.epoch;
  chain_id = m.chain_id;
  target_address = m.target_address;
  key = m.key;
  value = m.value;
  block_number = m.block_number;
}
