-- ===== src/Gater/Permission.antt =====
-- Who may connect.
use spotted_network.Base.{
  ℕ, ◌+◌, ◌≤◌, ◌<◌, String, Bool, Option, ◌≡◌, true, false, some, ◌⊎◌, inl, inr, arith, eq_iff,
  Bool-cases, Option-cases,
}
use spotted_network.Base.Outcome.{Error, Outcome, ok, err, ◌>>=◌, handle}
use spotted_network.Node.{Cached, Node, Env, cached, query}
use spotted_network.Node.Rules.{Cached-cases}
use spotted_network.Peer.{peer_id_to_p2p_key}
use spotted_network.Repo.Table.{find}
use spotted_network.Repo.Operators.{Operator, get_operator_by_p2p_key}
use spotted_network.Repo.Blacklist.{entry_key, is_blocked, increment_violation_count}
use spotted_network.Repo.Blacklist.Blocks.{Unique, violations, increment_violation_count_blocks}
use spotted_network.Task.Response.{one_violation}
use spotted_network.Gater.{is_true, is_blocked_cached, peer_is_blocked, check_peer_permission}

-- Where an answer of `IsBlocked` comes from that lets a peer through: the cache held it, or it held
-- nothing and the table has no block in force.
pub data Unblocked (env : Env) (n : Node) (peer : String) : Type 0 where
  free_in_cache :
      (answer : Option Bool)
      → env.blocked_cached peer n.tick ≡ Cached.hit answer
      → is_true answer ≡ false
      → Unblocked env n peer
  free_in_table :
      env.blocked_cached peer n.tick ≡ Cached.miss
      → is_blocked peer (env.now (n.tick + 1)) n.blacklist ≡ false
      → Unblocked env n peer

-- Where the active operator of a peer's key comes from: the cache held it, or it held nothing and the
-- table has it.
pub data Active (env : Env) (n : Node) (peer : String) (operator : Operator) : Type 0 where
  active_in_cache :
      (p2p_key : String)
      → peer_id_to_p2p_key env peer ≡ ok p2p_key
      → env.operator_cached p2p_key n.tick ≡ Cached.hit (some operator)
      → operator.is_active ≡ true
      → Active env n peer operator
  active_in_table :
      (p2p_key : String)
      → peer_id_to_p2p_key env peer ≡ ok p2p_key
      → env.operator_cached p2p_key n.tick ≡ Cached.miss
      → get_operator_by_p2p_key env.lower p2p_key n.operators ≡ some operator
      → operator.is_active ≡ true
      → Active env n peer operator

abbrev at_tick : ℕ → Node → Node
at_tick i n = record n { tick = i }

module _ (env : Env) (n : Node) (peer : String) where
  abbrev pub Refused : Type 0
  Refused = (i : ℕ) × (check_peer_permission env peer n ≡ (ok false, at_tick i n))

  abbrev pub Granted : Type 0
  Granted =
      (i : ℕ) × (check_peer_permission env peer n ≡ (ok true, at_tick i n))
      × Unblocked env n peer
      × ((looked : ℕ) × (n.tick < looked)
          × (looked ≤ i)
          × (o : Operator) × Active env (at_tick looked n) peer o)

  -- How the test of the block ends.
  abbrev Tested : Outcome Bool × Node → Type 0
  Tested end =
      (i : ℕ) × (n.tick < i)
      × (((end ≡ (ok false, at_tick i n)) × Unblocked env n peer)
          ⊎ ((end ≡ (ok true, at_tick i n)) ⊎ ((e : Error) × (end ≡ (err e, at_tick i n)))))

  peer_is_blocked-Tested : Tested (peer_is_blocked env peer n)
  unfolding peer_is_blocked is_blocked_cached cached query ◌>>=◌
  peer_is_blocked-Tested = elim (Cached-cases (env.blocked_cached peer n.tick)) [
    | inl (answer, held) ↦ elim (Bool-cases (is_true answer)) [
      | inl blocked ↦ (n.tick + 1, omega arith, inr (inl (ground (arith, held, blocked))))
      | inr free ↦ (
        n.tick + 1,
        omega arith,
        inl (ground (arith, held, free), free_in_cache answer held free),
      )
    ]
    | inr (inr (e, failed)) ↦ (n.tick + 1, omega arith, inr (inr (e, ground (arith, failed))))
    | inr (inl nothing) ↦ elim (Option-cases (env.db_fault (n.tick + 1))) [
      | inr (e, down) ↦ (n.tick + 2, omega arith, inr (inr (e, ground (arith, nothing, down))))
      | inl up ↦ elim (Bool-cases (is_blocked peer (env.now (n.tick + 1)) n.blacklist)) [
        | inl blocked ↦ (n.tick + 2, omega arith, inr (inl (ground (arith, nothing, up, blocked))))
        | inr free ↦ (
          n.tick + 2,
          omega arith,
          inl (ground (arith, nothing, up, free), free_in_table nothing free),
        )
      ]
    ]
  ]

  -- How the test of the operator ends.
  abbrev Found : Outcome Bool × Node → Type 0
  Found end =
      (i : ℕ) × (n.tick ≤ i)
      × (((end ≡ (ok true, at_tick i n)) × ((o : Operator) × Active env n peer o))
          ⊎ (end ≡ (ok false, at_tick i n)))

-- A peer with two violations or more commits another one, and the state has the blacklist that this
-- left. An answer that the cache of `IsBlocked` holds for the peer, if it holds one, was read from this
-- blacklist. Then the gater refuses the peer, at every time and whether the database and the cache
-- answer or not.
pub third_violation_refused :
    (env : Env) (peer : String) (now : ℕ) (before after : Node)
    → Unique before.blacklist
    → 2 ≤ violations (find entry_key peer before.blacklist)
    → after.blacklist ≡ (increment_violation_count (one_violation env peer) now before.blacklist).1
    → ((answer : Option Bool)
        → env.blocked_cached peer after.tick ≡ Cached.hit answer
        → (read_at : ℕ) × (answer ≡ some (is_blocked peer read_at after.blacklist)))
    → Refused env after peer
unfolding check_peer_permission handle
third_violation_refused env peer now before after unique two same current =
    let blocked : (later : ℕ) → is_blocked peer later after.blacklist ≡ true = λ later. rw same (
      ground (
        arith,
        (increment_violation_count_blocks (one_violation env peer) now before.blacklist unique).1
            peer later,
        eq_iff peer peer,
      )) in
    let (i, after_call, ended) = peer_is_blocked-Tested env after peer in
    elim ended [
      | inr (inl refused) ↦ (i, ground (arith, refused))
      | inr (inr (e, failed)) ↦ (i, ground (arith, failed))
      | inl (free, free_in_cache answer held false_answer) ↦
          let (read_at, is) = current answer held in
          ground (arith, is, blocked read_at, false_answer)
      | inl (free, free_in_table nothing none_in_force) ↦
          ground (arith, blocked (env.now (after.tick + 1)), none_in_force)
    ]
