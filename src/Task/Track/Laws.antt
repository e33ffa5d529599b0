-- ===== src/Task/Track/Laws.antt =====
-- What a stored response changes in the tracker.
use spotted_network.Base.{
  String, ◌≡◌, refl, ◌&&◌, Option, none, some, [], arith, eq_iff, str_eq, if◌then◌else◌, inl, inr,
  Option-cases,
}
use spotted_network.Base.Int.{ℤ}
use spotted_network.Base.Maps.{Map, lookup, insert, erase, lookup-insert, lookup-erase}
use spotted_network.Node.{TaskResponse, TaskResponseTrack}
use spotted_network.Task.Track.{inner, is_some, init_task}

pub lookup-nil : {V : Type 0} (k : String) → lookup {V = V} k [] ≡ none
unfolding lookup
lookup-nil k = refl

module _ {V : Type 0} where
  -- `m[id][key]`
  abbrev pub lookup2 : String → String → Map (Map V) → Option V
  lookup2 id key m = lookup key (inner id m)

  pub inner-insert :
      (i j : String) (l : Map V) (m : Map (Map V))
      → inner j (insert i l m) ≡ (if str_eq i j then l else inner j m)
  inner-insert i j l m = ground (arith, lookup-insert i j l m)

  pub inner-erase :
      (i j : String) (m : Map (Map V))
      → inner j (erase i m) ≡ (if str_eq i j then [] else inner j m)
  inner-erase i j m = ground (arith, lookup-erase i j m)

  pub lookup2-insert :
      (i j k l : String) (v : V) (m : Map (Map V))
      → lookup2 j l (insert i (insert k v (inner i m)) m)
        ≡ (if str_eq i j && str_eq k l then some v else lookup2 j l m)
  lookup2-insert i j k l v m =
      rw (inner-insert i j (insert k v (inner i m)) m)
        (ground (arith, eq_iff i j, lookup-insert k l v (inner i m)))

-- A task has a map of responses exactly where it has one of weights, and in them the same keys.
pub record IsPaired (t : TaskResponseTrack) : Type 0 where
  pub outer : (id : String) → is_some (lookup id t.responses) ≡ is_some (lookup id t.weights)
  pub cells :
      (id key : String) → is_some (lookup2 id key t.responses) ≡ is_some (lookup2 id key t.weights)

pub init_task-responses :
    (id j key : String) (t : TaskResponseTrack)
    → lookup2 j key (init_task id t).responses ≡ lookup2 j key t.responses
unfolding init_task
init_task-responses id j key t = elim (Option-cases (lookup id t.responses)) [
  | inl new ↦
      ground
        (arith, inner-insert id j [] t.responses, eq_iff id j, lookup-nil {V = TaskResponse} key)
  | inr (l, old) ↦ ground arith
]

pub init_task-found :
    (id : String) (t : TaskResponseTrack)
    → (l : Map TaskResponse) × (lookup id (init_task id t).responses ≡ some l)
unfolding init_task
init_task-found id t = elim (Option-cases (lookup id t.responses)) [
  | inl new ↦ ([], ground (arith, lookup-insert id id [] t.responses, eq_iff id id))
  | inr (l, old) ↦ (l, ground arith)
]

pub init_task-IsPaired :
    (id : String) (t : TaskResponseTrack) → IsPaired t → IsPaired (init_task id t)
unfolding init_task
init_task-IsPaired id t p = record {
  outer = λ j.
      ground (arith, p.outer j, lookup-insert id j [] t.responses, lookup-insert id j [] t.weights);
  cells = λ j k. ground (
    arith,
    p.cells j k,
    inner-insert id j [] t.responses,
    inner-insert id j [] t.weights,
    lookup-nil {V = TaskResponse} k,
    lookup-nil {V = Option ℤ} k,
  );
}

pub init_task-weights :
    (id j key : String) (t : TaskResponseTrack)
    → IsPaired t
    → lookup2 j key (init_task id t).weights ≡ lookup2 j key t.weights
unfolding init_task
init_task-weights id j key t p =
    ground (
      arith,
      p.outer id,
      inner-insert id j [] t.weights,
      eq_iff id j,
      lookup-nil {V = Option ℤ} key,
    )
