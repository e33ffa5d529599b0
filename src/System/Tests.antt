-- ===== src/System/Tests.antt =====
-- A run of the sample's process: a request, a message and two tickers.
use spotted_network.Base.{ℕ, String, ◌≡◌, refl, ◌⊎◌, inl, some, [], ◌∷◌}
use spotted_network.Base.Outcome.{Reply, Outcome, ok, err, panic}
use spotted_network.Node.{Node}
use spotted_network.Node.Sample.{env, empty, node, msg, task, whole}
use spotted_network.Repo.Table.{find}
use spotted_network.Repo.Tasks.{get_task_by_id}
use spotted_network.Repo.Responses.{ConsensusResponse, get_by_task_id}
use spotted_network.System.Ledger.{Grows, reachable-Grows, reachable_consensus}
use spotted_network.System.LifeCycle.{Life, reachable-Life}
use spotted_network.Repo.Operators.{Operators}
use spotted_network.Task.Track.Laws.{lookup2, IsPaired}
use spotted_network.Task.Process.Honest.{Honest}
use spotted_network.Task.Response.{handle_message}
use spotted_network.Task.Check.{check_timeouts, check_confirmations}
use spotted_network.Task.Entries.{Each}
use spotted_network.Updator.Sample.{main, finish, transact}
use spotted_network.Api.{SendRequestParams}
use spotted_network.Api.Send.{send_request}
use spotted_network.System.{Move, Reach}
use Reach.{here, later}
use spotted_network.System.Stable.{Warranted}
use spotted_network.System.Sound.{AnyTask}
use spotted_network.System.Epochs.{Contained}
use spotted_network.System.Reachable.{reachable_lem}

ended :
    (n : Node) (body : Outcome (Unit {0}) × Node)
    → (x : Node) × ((x ≡ body.1) ⊎ (x ≡ n))
      × ((rows : Operators) × (tick : ℕ) × ((finish n body).1
            ≡ record x { operators = rows; tick = tick }))
ended n (ok u, m) = (m, inl refl, (m.operators, m.tick, refl))
ended n (err e, m) = (m, inl refl, (n.operators, m.tick, refl))
ended n (panic, m) = (m, inl refl, (n.operators, m.tick, refl))

contained : Contained transact
contained m n = ended n (m n)

abbrev request : SendRequestParams
request = record {
  chain_id = 11155111;
  target_address = "target";
  key = "7";
  block_number = 99;
  timestamp = 0;
}

abbrev after_request : Node → Node
after_request start = (send_request env "POST" (some request) start).1

abbrev after_message : Node → Node
after_message start = handle_message env (Reply.value (msg (1 ∷ []))) "peer" (after_request start)

abbrev after_timeouts : Node → Node
after_timeouts start = (check_timeouts env (after_message start)).1

abbrev end : Node → Node
end start = (check_confirmations env (after_timeouts start)).1

reached : (start : Node) → Reach env main transact start (end start)
reached start =
    later
      (later
        (later (later here (Move.requested "POST" (some request)))
          (Move.received (Reply.value (msg (1 ∷ []))) "peer"))
        Move.timed)
      Move.confirmed

abbrev fresh : Node
fresh = node empty 0

abbrev final : Node
final = end fresh

reachable_lem_example :
    IsPaired final.track
    × ((id key : String) → Each (Warranted env key) (lookup2 id key final.track.responses))
    × Honest env AnyTask [] final.published
reachable_lem_example =
    reachable_lem env main transact contained fresh final refl refl (reached fresh)

-- A process that has recorded a consensus on another task.
abbrev consensus : ConsensusResponse
consensus = record {
  task_id = "older task";
  epoch = 1;
  chain_id = 1;
  target_address = "target";
  block_number = 4;
  key = whole 7;
  value = whole 41;
  aggregated_signatures = (1 ∷ []) ∷ [];
  operator_addresses = "operator one" ∷ [];
  created_at = 0;
  updated_at = 0;
}

abbrev older : Node
older = record fresh { responses = consensus ∷ [] }

reachable-Grows_example : Grows (consensus ∷ []) (end older).responses
reachable-Grows_example =
    reachable-Grows env main transact contained older (end older) (reached older)

reachable_consensus_example : get_by_task_id "older task" (end older).responses ≡ some consensus
unfolding find
reachable_consensus_example =
    reachable_consensus env main transact contained older (end older) "older task" consensus refl
      (reached older)

reachable-Life_example : Life "task" (some (task 0)) (get_task_by_id "task" final.tasks)
unfolding find
reachable-Life_example =
    reachable-Life env main transact contained fresh final "task" (reached fresh)
