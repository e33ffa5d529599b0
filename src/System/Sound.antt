-- ===== src/System/Sound.antt =====
-- The invariant of the operator process.
use spotted_network.Base.{
  String, ◌≡◌, refl, Option, none, List, [], arith, inl, inr, str_eq, if◌then◌else◌, Bool-cases,
}
use spotted_network.Base.Int.{ℤ}
use spotted_network.Base.Maps.{lookup}
use spotted_network.Base.Keeps.{Keeps}
use spotted_network.Node.{TaskResponse, TaskResponseMessage, TaskResponseTrack, Node, Env}
use spotted_network.Repo.Tasks.{Task}
use spotted_network.Task.Track.{store_response_and_weight, cleanup_task, cleanup_all_tasks}
use spotted_network.Task.Track.Laws.{lookup2, lookup-nil, inner-erase, IsPaired}
use spotted_network.Task.Track.Store.{cleanup_task_lem}
use spotted_network.Task.Process.Honest.{Honest, sent}
use spotted_network.Task.Process.Published.{store_published}
use spotted_network.Task.Entries.{Each, store_Keeps}
use spotted_network.System.Stable.{Warranted, Stable}

abbrev pub AnyTask : Task → Type 0
AnyTask task = Unit

-- The maps of the tracker are paired, every response in them is warranted, and every message that was
-- ever published is this operator's own, with a value that the chain returned.
pub record Memory (env : Env) (track : TaskResponseTrack) (published : List TaskResponseMessage)
    : Type 0 where
  pub paired : IsPaired track
  pub entry : (id key : String) → Each (Warranted env key) (lookup2 id key track.responses)
  pub honest : Honest env AnyTask [] published

module _ (env : Env) where
  abbrev pub Sound : Node → Type 0
  Sound n = Memory env n.track n.published

  cleared :
      (id j l : String) (n : Node)
      → lookup2 j l (cleanup_task id n).track.responses
        ≡ (if str_eq id j then none else lookup2 j l n.track.responses)
  unfolding cleanup_task
  cleared id j l n =
      ground (arith, inner-erase id j n.track.responses, lookup-nil {V = TaskResponse} l)

  still :
      (id j l : String) (n : Node) (h : Sound n)
      → Each (Warranted env l) (if str_eq id j then none else lookup2 j l n.track.responses)
  still id j l n h = elim (Bool-cases (str_eq id j)) [
    | inl gone ↦ rw gone tt
    | inr kept ↦ rw kept (h.entry j l)
  ]

  cleanup_task-Sound : (id : String) (n : Node) → Sound n → Sound (cleanup_task id n)
  unfolding cleanup_task
  cleanup_task-Sound id n h = record {
    paired = (cleanup_task_lem id n h.paired).0;
    entry = λ j l. rw (cleared id j l n) (still id j l n h);
    honest = h.honest;
  }

  abbrev L : String → String → TaskResponse → Type 0
  L id key = Warranted env key

  store_Sound :
      (r : TaskResponse) (key : String) (w : Option ℤ)
      → Warranted env key r
      → Keeps Sound (store_response_and_weight r key w)
  store_Sound r key w valid = record {
    at = λ n h.
        let e =
          (store_Keeps L n.operators r key w valid).at n
            (record { paired = h.paired; entry = h.entry; operators = refl }) in
        record {
          paired = e.paired;
          entry = e.entry;
          honest = rw (store_published r key w n) h.honest;
        };
  }

  empty_Sound : (n : Node) → Sound n → Sound (cleanup_all_tasks n)
  unfolding cleanup_all_tasks lookup
  empty_Sound n h = record {
    paired = record { outer = λ id. refl; cells = λ id key. refl };
    entry = λ id key. tt;
    honest = h.honest;
  }

  pub Sound-Stable : Stable env Sound
  Sound-Stable = record {
    tick = λ t n h. h;
    operators = λ rows n h. h;
    blacklist = λ rows n h. h;
    epoch = λ e n h. h;
    last = λ e n h. h;
    stores = store_Sound;
    cleans = cleanup_task-Sound;
    empties = empty_Sound;
    sends = λ task r n mine h. record {
      paired = h.paired;
      entry = h.entry;
      honest = sent task r tt mine h.honest;
    };
    creates = λ p now n h. h;
    deletes = λ id n h. h;
    retries = λ id now n h. h;
    completes = λ id now n h. h;
    resumes = λ id now n h. h;
    records = λ p now n h. h;
  }
