-- ===== src/Node.antt =====
-- The state of one operator process, and the world that it calls. The program's calls to the
-- database, to the chains and to the network are numbered by `tick`: the same call made again later
-- may answer differently. A mutex's critical section is one step.
pub mod Rules
pub mod Sample
use spotted_network.Base.{
  ℕ, zero, suc, ◌+◌, String, ◌≡◌, refl, Bool, true, false, Option, none, some, List, [], ◌∷◌, ◌++◌,
  if◌then◌else◌,
}
use spotted_network.Base.Int.{ℤ}
use spotted_network.Base.Maps.{Map}
use spotted_network.Base.Outcome.{Error, Reply, Outcome, ok, err, panic, Action, outcome, handle}
use spotted_network.Repo.Tasks.{Tasks}
use spotted_network.Repo.Operators.{Operator, Operators}
use spotted_network.Repo.Blacklist.{Blacklist}
use spotted_network.Repo.Responses.{Responses}
use spotted_network.Signer.{Bytes, Crypto}

-- `task.taskResponse`
pub record TaskResponse : Type 0 where
  pub task_id : String
  pub signature : Bytes
  pub epoch : ℕ
  pub chain_id : ℕ
  pub target_address : String
  pub key : String
  pub value : String
  pub block_number : ℕ

-- The fields of the protobuf message `TaskResponseMessage`, in the order of the schema.
pub record TaskResponseMessage : Type 0 where
  pub task_id : String
  pub signature : Bytes
  pub value : String
  pub block_number : ℕ
  pub chain_id : ℕ
  pub target_address : String
  pub key : String
  pub epoch : ℕ

-- `task.TaskResponseTrack`: task, then signing key
pub record TaskResponseTrack : Type 0 where
  pub responses : Map (Map TaskResponse)
  pub weights : Map (Map (Option ℤ))

-- `epoch.EpochState`; the weights are nil before the first update
pub record EpochState : Type 0 where
  pub epoch_number : ℕ
  pub minimum_weight : Option ℤ
  pub total_weight : Option ℤ
  pub threshold_weight : Option ℤ

-- The process: the tables of its database, the tracker of the task processor, the state of the
-- epoch updator, and the messages that it has published.
pub record Node : Type 0 where
  pub tasks : Tasks
  pub operators : Operators
  pub blacklist : Blacklist
  pub responses : Responses
  pub track : TaskResponseTrack
  pub epoch_state : EpochState
  pub last_processed_epoch : ℕ
  pub published : List TaskResponseMessage
  pub tick : ℕ

-- What a cache in front of a query has for its argument: an answer that an earlier query gave, nothing,
-- or an error. How long it keeps an answer, and which queries forget it, is the cache's.
pub data Cached (A : Type 0) : Type 0 where
  hit : A → Cached A
  miss : Cached A
  fault : Error → Cached A

-- The answers of the world, by the number of the call: whether the database fails, the database's
-- clock, the chains of the manager and what they answer, and the network. `extract_public_key` is
-- libp2p's `ExtractPublicKey` followed by `MarshalPublicKey`. Chains are named by their identifiers:
-- `block_time` is the time of a block, `current_epoch` what the epoch contract answers. `clock` is the
-- process's own clock in seconds, `confirmations` what the configuration requires for each of its
-- chains, `is_hex_address` go-ethereum's test, and `parse_any_base` `big.Int.SetString(s, 0)`.
-- `blocked_cached` and `operator_cached` are what the caches of `IsBlocked` and `GetOperatorByP2PKey`
-- have for a peer and for a key; a pointer in a cache may be nil.
pub record Env : Type 0 where
  pub db_fault : ℕ → Option Error
  pub now : ℕ → ℕ
  pub has_chain : ℕ → Bool
  pub block_number : ℕ → ℕ → Reply ℕ
  pub state_at : ℕ → Bytes → Option ℤ → ℕ → ℕ → Reply ℤ
  pub block_time : ℕ → ℕ → ℕ → Reply ℕ
  pub current_epoch : ℕ → ℕ → Reply ℕ
  pub publish : ℕ → Reply (Unit {0})
  pub crypto : Crypto
  pub signing_key : ℕ
  pub lower : String → String
  pub extract_public_key : String → Reply Bytes
  pub clock : ℕ → ℕ
  pub confirmations : ℕ → Option ℕ
  pub is_hex_address : String → Bool
  pub parse_any_base : String → Option ℤ
  pub blocked_cached : String → ℕ → Cached (Option Bool)
  pub operator_cached : String → ℕ → Cached (Option Operator)

abbrev pub Step : Type 0 → Type 0
Step = Action Node

abbrev pub ticked : Node → Node
ticked n = record n { tick = n.tick + 1 }

module _ {A : Type 0} where
  -- A call of the world.
  unfoldable pub call : (ℕ → Reply A) → Step A
  unfolding handle
  call f n = (outcome (f n.tick), ticked n)

  -- A query: it fails and changes nothing, or it runs on the tables at the database's time.
  unfoldable pub query : Env → (ℕ → Node → Outcome A × Node) → Step A
  unfolding call
  query env q n = elim (env.db_fault n.tick) [
    | some e ↦ (err e, ticked n)
    | none ↦ let (r, n') = q (env.now n.tick) n in (r, ticked n')
  ]

  -- `GetWithTtl` of a cache: its answer, or that of the query behind it.
  unfoldable pub cached : (ℕ → Cached A) → Step A → Step A
  cached f behind n = elim (f n.tick) [
    | Cached.hit a ↦ (ok a, ticked n)
    | Cached.miss ↦ behind (ticked n)
    | Cached.fault e ↦ (err e, ticked n)
  ]

  -- A query that only reads.
  abbrev pub read : Env → (Node → A) → Step A
  read env f = query env (λ now n. (ok (f n), n))

-- A query that only writes.
abbrev pub write : Env → (ℕ → Node → Node) → Step (Unit {0})
write env f = query env (λ now n. (ok tt, f now n))
