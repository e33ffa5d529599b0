-- ===== src/Task/Track/Store.antt =====
-- `storeResponseAndWeight`: what it writes, and that it cannot meet a nil map.
use spotted_network.Base.{
  String, ◌≡◌, refl, false, ◌&&◌, Option, some, arith, str_eq, if◌then◌else◌, inl, inr,
  Option-cases,
}
use spotted_network.Base.Int.{ℤ}
use spotted_network.Base.Maps.{Map, lookup, insert, lookup-insert, lookup-erase}
use spotted_network.Base.Outcome.{ok}
use spotted_network.Node.{TaskResponse, TaskResponseTrack, Node}
use spotted_network.Task.Track.{
  inner, init_task, assign, already_processed, store_response_and_weight, cleanup_task,
}
use spotted_network.Task.Track.Laws.{
  lookup2, lookup2-insert, inner-erase, lookup-nil, IsPaired, init_task-responses,
  init_task-weights, init_task-found, init_task-IsPaired,
}

assign_found :
    {V : Type 0} (id key : String) (v : V) (m : Map (Map V)) (l : Map V)
    → lookup id m ≡ some l
    → assign id key v m ≡ ok (insert id (insert key v (inner id m)) m)
unfolding assign
assign_found id key v m l e = ground arith

module _ (r : TaskResponse) (k : String) (w : Option ℤ) (n : Node) where
  abbrev started : TaskResponseTrack
  started = init_task r.task_id n.track

  -- The tracker after a write that met no nil map.
  abbrev written : TaskResponseTrack
  written = record {
    responses = insert r.task_id (insert k r (inner r.task_id started.responses)) started.responses;
    weights = insert r.task_id (insert k w (inner r.task_id started.weights)) started.weights;
  }

  weights_found :
      IsPaired n.track → (l : Map (Option ℤ)) × (lookup r.task_id started.weights ≡ some l)
  weights_found p =
      let (l, found) = init_task-found r.task_id n.track in
      let q = (init_task-IsPaired r.task_id n.track p).outer r.task_id in
      elim (Option-cases (lookup r.task_id started.weights)) [
        | inl nil ↦ ground arith
        | inr found ↦ found
      ]

  -- Where the two maps have the same tasks, the write succeeds.
  pub store-written :
      IsPaired n.track → store_response_and_weight r k w n ≡ (ok tt, record n { track = written })
  unfolding store_response_and_weight
  store-written p =
      let (l, found) = init_task-found r.task_id n.track in
      let (v, weights) = weights_found p in
      rw
        (
          assign_found r.task_id k r started.responses l found,
          assign_found r.task_id k w started.weights v weights,
          store_response_and_weight,
        )
        refl

  -- The response is found under its task and signing key, and every other entry is as it was.
  pub written-responses :
      (j l : String)
      → lookup2 j l written.responses
        ≡ (if str_eq r.task_id j && str_eq k l then some r else lookup2 j l n.track.responses)
  written-responses j l = ground (
    arith,
    lookup2-insert r.task_id j k l r started.responses,
    init_task-responses r.task_id j l n.track,
  )

  pub written-weights :
      IsPaired n.track
      → (j l : String)
      → lookup2 j l written.weights
        ≡ (if str_eq r.task_id j && str_eq k l then some w else lookup2 j l n.track.weights)
  written-weights p j l = ground (
    arith,
    lookup2-insert r.task_id j k l w started.weights,
    init_task-weights r.task_id j l n.track p,
  )

  pub written-IsPaired : IsPaired n.track → IsPaired written
  written-IsPaired p =
      let q = init_task-IsPaired r.task_id n.track p in
      record {
        outer = λ j. ground (
          arith,
          q.outer j,
          lookup-insert r.task_id j (insert k r (inner r.task_id started.responses))
              started.responses,
          lookup-insert r.task_id j (insert k w (inner r.task_id started.weights)) started.weights,
        );
        cells = λ j l. ground (arith, p.cells j l, written-responses j l, written-weights p j l);
      }

module _ (r : TaskResponse) (k : String) (w : Option ℤ) (n : Node) where
  -- Storing a response in a tracker whose two maps have the same entries does not panic. The maps
  -- have the same entries afterwards, the response and the weight are found under the task and the
  -- signing key, and every other entry is as it was.
  pub store_response_and_weight_lem :
      IsPaired n.track
      → (store_response_and_weight r k w n).0 ≡ ok tt
        × IsPaired (store_response_and_weight r k w n).1.track
        × ((j l : String)
            → lookup2 j l (store_response_and_weight r k w n).1.track.responses ≡ (
                if str_eq r.task_id j && str_eq k l then some r else lookup2 j l n.track.responses)
              × lookup2 j l (store_response_and_weight r k w n).1.track.weights ≡ (
                  if str_eq r.task_id j && str_eq k l then some w else lookup2 j l n.track.weights))
  store_response_and_weight_lem p = rw (store-written r k w n p) (
    refl,
    written-IsPaired r k w n p,
    λ j l. (written-responses r k w n j l, written-weights r k w n p j l),
  )

-- Cleaning up a task empties its entries in both maps, leaves every other task alone, and keeps the
-- two maps paired.
pub cleanup_task_lem :
    (id : String) (n : Node)
    → IsPaired n.track
    → IsPaired (cleanup_task id n).track
      × ((j l : String)
          → already_processed j l (cleanup_task id n)
            ≡ (if str_eq id j then false else already_processed j l n))
unfolding cleanup_task already_processed
cleanup_task_lem id n p = (
  record {
    outer = λ j.
        ground (
          arith,
          p.outer j,
          lookup-erase id j n.track.responses,
          lookup-erase id j n.track.weights,
        );
    cells = λ j l. ground (
      arith,
      p.cells j l,
      inner-erase id j n.track.responses,
      inner-erase id j n.track.weights,
      lookup-nil {V = TaskResponse} l,
      lookup-nil {V = Option ℤ} l,
    );
  },
  λ j l. ground (arith, inner-erase id j n.track.responses, lookup-nil {V = TaskResponse} l),
)
