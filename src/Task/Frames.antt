-- ===== src/Task/Frames.antt =====
-- The consensus check keeps what the queries on tasks and on consensus responses cannot break.
use spotted_network.Base.{ℕ, String, Option, List, [], ◌∷◌, inl, inr, Bool-cases}
use spotted_network.Base.Int.{ℤ}
use spotted_network.Base.Maps.{Map}
use spotted_network.Base.Keeps.{Keeps, keeps_rules, Keeps-bind, Keeps-or_raise, Keeps-pure}
use spotted_network.Base.Lists.{is_empty}
use spotted_network.Node.{TaskResponse, Node, Env, ticked}
use spotted_network.Node.Rules.{Keeps-query}
use spotted_network.Repo.Tasks.{update_task_to_completed}
use spotted_network.Repo.Responses.{CreateConsensusResponseParams, create_consensus_response}
use spotted_network.Task.Track.{inner}
use spotted_network.Task.Consensus.{
  collect, collect_signatures_and_addresses, mark_task_as_completed, create, record_consensus,
  check_threshold, check_consensus,
}

-- A property that bears what the check does: a call, a task that is completed, a consensus that is
-- recorded.
pub record Indifferent (P : Node → Type 0) : Type 0 where
  pub tick : (n : Node) → P n → P (ticked n)
  pub tasks :
      (id : String) (now : ℕ) (n : Node)
      → P n
      → P (record n { tasks = update_task_to_completed id now n.tasks })
  pub responses :
      (p : CreateConsensusResponseParams) (now : ℕ) (n : Node)
      → P n
      → P (record n { responses = (create_consensus_response p now n.responses).1 })

module _ (env : Env) {P : Node → Type 0} (i : Indifferent P) where
  collect-Keeps :
      (keys : List String) (responses : Map TaskResponse) → Keeps P (collect env keys responses)
  unfolding collect
  collect-Keeps [] responses = search keeps_rules
  collect-Keeps (k ∷ ks) responses =
      Keeps-bind _ _ (search (keeps_rules, Keeps-query, i.tick)) λ found.
        Keeps-bind _ _ (Keeps-or_raise _ _)
          λ operator. Keeps-bind _ _ (collect-Keeps ks responses) λ x. Keeps-pure _

  record_consensus-Keeps :
      (r : TaskResponse) (responses : Map TaskResponse) → Keeps P (record_consensus env r responses)
  unfolding record_consensus mark_task_as_completed collect_signatures_and_addresses create
  record_consensus-Keeps r responses =
      search (keeps_rules, Keeps-query, collect-Keeps, i.tick, i.tasks, i.responses) depth 14

  check_threshold-Keeps :
      (r : TaskResponse) (responses : Map TaskResponse) (weights : Map (Option ℤ))
      → Keeps P (check_threshold env r responses weights)
  unfolding check_threshold
  check_threshold-Keeps r responses weights = search (keeps_rules, record_consensus-Keeps) depth 12

  pub check_consensus-Keeps : (r : TaskResponse) → Keeps P (check_consensus env r)
  unfolding check_consensus
  check_consensus-Keeps r = record {
    at = λ n h.
        let k =
          (check_threshold-Keeps r (inner r.task_id n.track.responses)
              (inner r.task_id n.track.weights)).at
            n h in
        elim (Bool-cases (is_empty (inner r.task_id n.track.responses))) [
          | inl empty ↦ rw empty h
          | inr full ↦ rw full k
        ];
  }
