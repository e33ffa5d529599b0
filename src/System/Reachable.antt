-- ===== src/System/Reachable.antt =====
-- What holds of the operator process in every state that it can reach.
use spotted_network.Base.{String, ◌≡◌, refl, Option, some, [], arith, eq_refl}
use spotted_network.Base.Int.{ℤ}
use spotted_network.Base.Maps.{lookup}
use spotted_network.Base.Outcome.{ok}
use spotted_network.Node.{TaskResponse, Node, Env, Step}
use spotted_network.Task.Track.{store_response_and_weight}
use spotted_network.Task.Track.Laws.{lookup2, IsPaired}
use spotted_network.Task.Track.Store.{store_response_and_weight_lem}
use spotted_network.Task.Process.Honest.{Honest, silent}
use spotted_network.Task.Entries.{Each}
use spotted_network.Updator.{MainnetClient}
use spotted_network.System.{Reach}
use spotted_network.System.Stable.{Warranted}
use spotted_network.System.Sound.{AnyTask, Sound, Sound-Stable}
use spotted_network.System.Epochs.{Contained}
use spotted_network.System.Moves.{reach_kept}

module _ (env : Env) (main : MainnetClient) (transact : Step (Unit {0}) → Step (Unit {0}))
    (contained : Contained transact) where
  abbrev Fresh : Node → Type 0
  Fresh n = (n.track ≡ record { responses = []; weights = [] }) × (n.published ≡ [])

  Fresh-Sound : (n : Node) → Fresh n → Sound env n
  unfolding lookup
  Fresh-Sound n (track, silence) =
      rw (track, silence)
        (record {
          paired = record { outer = λ id. refl; cells = λ id key. refl };
          entry = λ id key. tt;
          honest = silent;
        })

  -- From a process that has stored and published nothing, however its goroutines' steps are ordered and
  -- whatever the world answers: the two maps of the tracker have the same entries; every response in
  -- them is either this operator's own, with a value that its task's chain returned, or carries a
  -- signature that verifies for the key it stands under; and every message ever published is this
  -- operator's own signed response, with a value that the chain returned. A transaction ends in
  -- the state of its body or in the one before, but for the operators and the number of calls.
  pub reachable_lem :
      (start n : Node)
      → start.track ≡ record { responses = []; weights = [] }
      → start.published ≡ []
      → Reach env main transact start n
      → IsPaired n.track
        × ((id key : String) → Each (Warranted env key) (lookup2 id key n.track.responses))
        × Honest env AnyTask [] n.published
  reachable_lem start n track silence reach =
      let h =
        reach_kept (Sound-Stable env) main transact contained (Fresh-Sound start (track, silence))
          reach in
      (h.paired, h.entry, h.honest)

  -- In every state that the process can reach from one that has stored and published nothing, storing
  -- a response meets no nil map and succeeds, and the response is found afterwards. A transaction ends in the
  -- state of its body or in the one before, but for the operators and the number of calls.
  pub reachable_stores :
      (start n : Node) (r : TaskResponse) (key : String) (weight : Option ℤ)
      → start.track ≡ record { responses = []; weights = [] }
      → start.published ≡ []
      → Reach env main transact start n
      → ((store_response_and_weight r key weight n).0 ≡ ok tt)
        × (lookup2 r.task_id key (store_response_and_weight r key weight n).1.track.responses
            ≡ some r)
  reachable_stores start n r key weight track silence reach =
      let h =
        reach_kept (Sound-Stable env) main transact contained (Fresh-Sound start (track, silence))
          reach in
      let (done, paired, written) = store_response_and_weight_lem r key weight n h.paired in
      (done, ground (arith, (written r.task_id key).0, eq_refl r.task_id, eq_refl key))
