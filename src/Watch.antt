-- ===== src/Watch.antt =====
-- The polling of the registry's events: `WatchOperatorRegistered` and `WatchOperatorDeregistered` of
-- pkg/common/contracts/ethereum/chain_client.go. Both are the same loop over a filter of the contract
-- binding, which is an argument; the sink is the list of the events that were sent.
pub mod Logs
pub mod Sent
pub mod Exact
mod Tests
use spotted_network.Base.{ℕ, zero, suc, ◌+◌, ◌-◌, List, [], ◌∷◌, ◌++◌, ltb, ◌==◌, if◌then◌else◌}
use spotted_network.Base.Outcome.{Reply}
use spotted_network.Epoch.{u64}
use spotted_network.Event.{OperatorRegisteredEvent, OperatorDeregisteredEvent}

pub record Watch (E : Type 0) : Type 0 where
  pub last_block : ℕ
  pub sink : List E
  pub tick : ℕ

module _ {E : Type 0} (block : E → ℕ) (filter : ℕ → ℕ → Reply (List E)) where
  abbrev pub begin : ℕ → Watch E
  begin first = record { last_block = if ltb 0 first then first - 1 else 0; sink = []; tick = 0 }

  -- One event of the inner loop
  abbrev pub send : E → Watch E → Watch E
  send e w = record w {
    sink = w.sink ++ e ∷ [];
    last_block = if ltb w.last_block (block e) then block e else w.last_block;
  }

  unfoldable pub send_all : List E → Watch E → Watch E
  send_all [] w = w
  send_all (e ∷ more) w = send_all more (send e w)

  -- One tick: a filter that fails is tried again at the next.
  unfoldable pub poll : Watch E → Watch E
  poll w = elim (filter (u64 (w.last_block + 1)) w.tick) [
    | Reply.fault _ ↦ record w { tick = w.tick + 1 }
    | Reply.value events ↦ record (send_all events w) { tick = w.tick + 1 }
  ]

  unfoldable pub polls : ℕ → ℕ → Watch E
  polls zero first = begin first
  polls (suc n) first = poll (polls n first)

-- The block of an event, `event.BlockNumber.Uint64()`
abbrev pub registered_block : OperatorRegisteredEvent → ℕ
registered_block e = u64 e.block_number

abbrev pub deregistered_block : OperatorDeregisteredEvent → ℕ
deregistered_block e = u64 e.block_number

-- `WatchOperatorRegistered`, after some ticks
abbrev pub watch_operator_registered :
    (ℕ → ℕ → Reply (List OperatorRegisteredEvent)) → ℕ → ℕ → Watch OperatorRegisteredEvent
watch_operator_registered = polls registered_block

-- `WatchOperatorDeregistered`, after some ticks
abbrev pub watch_operator_deregistered :
    (ℕ → ℕ → Reply (List OperatorDeregisteredEvent)) → ℕ → ℕ → Watch OperatorDeregisteredEvent
watch_operator_deregistered = polls deregistered_block
