-- ===== src/Task/Consensus/Progress.antt =====
-- With a working database, a check at the threshold records the consensus.
use spotted_network.Base.{
  ℕ, ◌+◌, String, ◌≡◌, refl, false, none, some, List, [], ◌∷◌, ◌++◌, map, arith,
}
use spotted_network.Base.Int.{ℤ, pos, ltb_ℤ}
use spotted_network.Base.Lists.{is_empty}
use spotted_network.Base.Maps.{Map, keys}
use spotted_network.Base.Sort.{sort_strings}
use spotted_network.Base.Outcome.{ok, ◌>>=◌}
use spotted_network.Node.{TaskResponse, Node, Env, query, ticked}
use spotted_network.Node.Rules.{Up}
use spotted_network.Repo.Operators.{Operator, Operators, get_operator_by_signing_key}
use spotted_network.Repo.Tasks.{update_task_to_completed}
use spotted_network.Repo.Responses.{
  Bytes, get_by_task_id, get_by_request, request_of, create_consensus_response,
}
use spotted_network.Task.Track.{inner}
use spotted_network.Task.Consensus.{
  calculate_total_weight, signature_of, collect, collect_signatures_and_addresses,
  mark_task_as_completed, consensus_params, create, record_consensus, check_consensus,
}
use spotted_network.Task.Consensus.Safety.{row_of, check_consensus_reached}

abbrev pub at_tick : ℕ → Node → Node
at_tick i n = record n { tick = i }

-- The addresses of the operators that sign with the keys, where each key has one.
pub data Registered (rows : Operators) : List String → List String → Type 0 where
  nobody : Registered rows [] []
  also :
      {k : String} {ks addresses : List String} (o : Operator)
      → get_operator_by_signing_key k rows ≡ some o
      → Registered rows ks addresses
      → Registered rows (k ∷ ks) (o.address ∷ addresses)

module _ (env : Env) (up : Up env) (responses : Map TaskResponse) (rows : Operators) where
  collect_all :
      {ks addresses : List String}
      → Registered rows ks addresses
      → (n : Node) → n.operators ≡ rows
      → (i : ℕ) × (collect env ks responses n
          ≡ (ok (map (λ k. signature_of k responses) ks, addresses), at_tick i n))
  unfolding collect query ◌>>=◌
  collect_all nobody n same = (n.tick, refl)
  collect_all (also {k} {ks} {addresses} o found rest) n same =
      let (i, e) = collect_all rest (ticked n) same in
      let found' : get_operator_by_signing_key k n.operators ≡ some o = rw same found in
      (i, ground (arith, up n.tick))

  abbrev signatures : List Bytes
  signatures = map (λ k. signature_of k responses) (sort_strings (keys responses))

-- The process after a consensus was recorded.
abbrev pub recorded : Env → TaskResponse → List Bytes → List String → ℕ → ℕ → ℕ → Node → Node
recorded env r s a now later i n = record n {
  responses = n.responses ++ row_of env r s a now ∷ [];
  tasks = update_task_to_completed r.task_id later n.tasks;
  tick = i;
}

module _ (env : Env) (up : Up env) (r : TaskResponse) (s : List Bytes) (a : List String) where
  create_done :
      (n : Node)
      → get_by_task_id r.task_id n.responses ≡ none
      → get_by_request (request_of (consensus_params env r s a)) n.responses ≡ none
      → create env (consensus_params env r s a) n ≡ (
        ok (row_of env r s a (env.now n.tick)),
        record n {
          responses = n.responses ++ row_of env r s a (env.now n.tick) ∷ [];
          tick = n.tick + 1;
        },
      )
  unfolding create create_consensus_response query
  create_done n new free = ground (arith, up n.tick)

  mark_done :
      (n : Node)
      → mark_task_as_completed env r.task_id n ≡ (
        ok tt,
        record n {
          tasks = update_task_to_completed r.task_id (env.now (n.tick + 1)) n.tasks;
          tick = n.tick + 2;
        },
      )
  unfolding mark_task_as_completed query ◌>>=◌
  mark_done n = ground (arith, up n.tick, up (n.tick + 1))

  record_done :
      (responses : Map TaskResponse) (n : Node) (i : ℕ)
      → collect env (sort_strings (keys responses)) responses n ≡ (ok (s, a), at_tick i n)
      → get_by_task_id r.task_id n.responses ≡ none
      → get_by_request (request_of (consensus_params env r s a)) n.responses ≡ none
      → record_consensus env r responses n
        ≡ (ok tt, recorded env r s a (env.now i) (env.now (i + 2)) (i + 3) n)
  unfolding record_consensus collect_signatures_and_addresses ◌>>=◌
  record_done responses n i collected new free =
      let n' : Node = record n {
        responses = n.responses ++ row_of env r s a (env.now i) ∷ [];
        tick = i + 1;
      } in
      ground (arith, collected, create_done (at_tick i n) new free, mark_done n')

-- With a working database: once the weights under a task reach the threshold of the epoch, all its
-- signers are registered operators, and neither the task nor the request has a consensus, the check
-- succeeds. It adds exactly one consensus row, with the signatures and the addresses in the order of
-- the signing keys, and marks the task as completed.
pub check_consensus_records :
    (env : Env) (r : TaskResponse) (n : Node) (total threshold : ℤ) (addresses : List String)
    → Up env
    → is_empty (inner r.task_id n.track.responses) ≡ false
    → calculate_total_weight (pos 0) (inner r.task_id n.track.weights) ≡ ok total
    → n.epoch_state.threshold_weight ≡ some threshold
    → ltb_ℤ total threshold ≡ false
    → Registered n.operators (sort_strings (keys (inner r.task_id n.track.responses))) addresses
    → get_by_task_id r.task_id n.responses ≡ none
    → get_by_request (request_of (consensus_params env r [] [])) n.responses ≡ none
    → (now : ℕ) × (later : ℕ) × (i : ℕ) × (check_consensus env r n ≡ (
      ok tt,
      recorded env r
          (map
            (λ k. signature_of k (inner r.task_id n.track.responses))
            (sort_strings (keys (inner r.task_id n.track.responses))))
          addresses
          now
          later
          i
          n,
    ))
check_consensus_records env r n t h addresses up full e known reached registered new free =
    let responses = inner r.task_id n.track.responses in
    let (i, collected) = collect_all env up responses n.operators registered n refl in
    let s = map (λ k. signature_of k responses) (sort_strings (keys responses)) in
    (
      env.now i,
      env.now (i + 2),
      i + 3,
      rw (check_consensus_reached env r n t h full e known reached)
          (record_done env up r s addresses responses n i collected new free),
    )
