-- ===== src/Task/Track/Ballots.antt =====
-- What the tracker promises: a ballot for each task and signing key. The two nested maps, which hold
-- responses and weights apart and have to be there before they are written, implement it.
use mathlib.Core.Option
use spotted_network.Base.{
  String, ◌≡◌, refl, ap, ◌∙◌, ◌&&◌, Option, none, some, List, [], ◌∷◌, arith, str_eq, if◌then◌else◌,
}
use spotted_network.Base.Int.{ℤ}
use spotted_network.Base.Maps.{lookup}
use spotted_network.Base.Outcome.{ok, for_each, modify}
use spotted_network.Node.{TaskResponse, TaskResponseTrack, Node, Step}
use spotted_network.Task.Track.{
  already_processed, store_response_and_weight, cleanup_task, cleanup_all_tasks, is_some,
}
use spotted_network.Task.Track.Laws.{lookup2, lookup-nil, inner-erase, IsPaired}
use spotted_network.Task.Track.Store.{store_response_and_weight_lem, cleanup_task_lem}

-- The abstract state: at most one ballot for each task and key.
abbrev pub Ballots : Type 0
Ballots = String → String → Option (TaskResponse × Option ℤ)

abbrev pub no_ballots : Ballots
no_ballots id key = none

-- What the process does with the tracker.
pub data Use : Type 0 where
  store : TaskResponse → String → Option ℤ → Use
  clean : String → Use
  clean_all : Use

-- The effect of a use on the abstract state.
abbrev pub cast : Use → Ballots → Ballots
cast (store r key weight) b id k =
    if str_eq r.task_id id && str_eq key k then some (r, weight) else b id k
cast (clean id) b j k = if str_eq id j then none else b j k
cast clean_all b j k = none

abbrev pub cast_all : List Use → Ballots → Ballots
cast_all [] b = b
cast_all (u ∷ us) b = cast_all us (cast u b)

-- The code of a use.
unfoldable pub perform : Use → Step (Unit {0})
perform (store r key weight) = store_response_and_weight r key weight
perform (clean id) = modify (cleanup_task id)
perform clean_all = modify cleanup_all_tasks

-- The tracker implements the ballots.
pub record Represents (t : TaskResponseTrack) (b : Ballots) : Type 0 where
  pub paired : IsPaired t
  pub responses : (id key : String) → lookup2 id key t.responses ≡ Option.map (λ p. p.0) (b id key)
  pub weights : (id key : String) → lookup2 id key t.weights ≡ Option.map (λ p. p.1) (b id key)

perform-cast :
    (u : Use) (b : Ballots) (n : Node)
    → Represents n.track b
    → ((perform u n).0 ≡ ok tt) × Represents (perform u n).1.track (cast u b)
unfolding perform modify cleanup_task cleanup_all_tasks lookup
perform-cast (store r key weight) b n h =
    let (done, paired, written) = store_response_and_weight_lem r key weight n h.paired in
    (
      done,
      record {
        paired = paired;
        responses = λ id k. ground (arith, (written id k).0, h.responses id k);
        weights = λ id k. ground (arith, (written id k).1, h.weights id k);
      },
    )
perform-cast (clean id) b n h =
    let (paired, gone) = cleanup_task_lem id n h.paired in
    (
      refl,
      record {
        paired = paired;
        responses = λ j k. ground (
          arith,
          h.responses j k,
          inner-erase id j n.track.responses,
          lookup-nil {V = TaskResponse} k,
        );
        weights = λ j k.
            ground
              (arith, h.weights j k, inner-erase id j n.track.weights, lookup-nil {V = Option ℤ} k);
      },
    )
perform-cast clean_all b n h = (
  refl,
  record {
    paired = record { outer = λ id. refl; cells = λ id key. refl };
    responses = λ id key. refl;
    weights = λ id key. refl;
  },
)

seen : (o : Option (TaskResponse × Option ℤ)) → is_some (Option.map (λ p. p.0) o) ≡ is_some o
seen none = refl
seen (some p) = refl

perform_all :
    (us : List Use) (b : Ballots) (n : Node)
    → Represents n.track b
    → ((for_each us perform n).0 ≡ ok tt)
      × Represents (for_each us perform n).1.track (cast_all us b)
unfolding for_each
perform_all [] b n h = (refl, h)
perform_all (u ∷ us) b n h =
    let (done, step) = perform-cast u b n h in
    let (rest, all) = perform_all us (cast u b) (perform u n).1 step in rw done (rest, all)

-- Any sequence of stores and clean-ups on a tracker that starts empty succeeds, without meeting a nil
-- map, and leaves the ballots that the same sequence leaves in the abstract state: a response and a
-- weight are in the maps exactly where there is a ballot, the last that was cast for the task and the
-- key since they were cleaned up, and a key counts as processed exactly where it has one.
pub for_each-cast_all :
    (us : List Use) (n : Node)
    → n.track ≡ record { responses = []; weights = [] }
    → ((for_each us perform n).0 ≡ ok tt)
      × Represents (for_each us perform n).1.track (cast_all us no_ballots)
      × ((id key : String)
          → already_processed id key (for_each us perform n).1
            ≡ is_some (cast_all us no_ballots id key))
unfolding already_processed lookup
for_each-cast_all us n fresh =
    let start : Represents n.track no_ballots = rw fresh (record {
      paired = record { outer = λ id. refl; cells = λ id key. refl };
      responses = λ id key. refl;
      weights = λ id key. refl;
    }) in
    let (done, h) = perform_all us no_ballots n start in
    (done, h, λ id key. ap is_some (h.responses id key) ∙ seen (cast_all us no_ballots id key))
