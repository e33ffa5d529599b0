-- ===== src/Event.antt =====
-- The event listener: pkg/operator/event/listener.go. The events that a subscription delivers are a
-- list; an event's block number is a `big.Int`, of which the code takes the low 64 bits.
pub mod Window
pub mod Stops
pub mod Subscribe
mod Tests
use spotted_network.Base.{ℕ, String, false, Option, some, List}
use spotted_network.Base.Int.{ℤ, pos}
use spotted_network.Base.Outcome.{
  Outcome, ok, ◌>>=◌, ◌>>◌, pure, or_wrap, deref, handle, ignore, for_each,
}
use spotted_network.Epoch.{u64, no_exit, get_effective_epoch_by_block_number}
use spotted_network.Numeric.{Numeric, big_int_to_numeric}
use spotted_network.Signer.{Bytes}
use spotted_network.Node.{Node, Env, Step, query, read}
use spotted_network.Repo.Operators.{
  Operator, UpsertOperatorParams, get_operator_by_address, upsert_operator,
  update_operator_exit_epoch,
}

-- `ethereum.OperatorRegisteredEvent` and `ethereum.OperatorDeregisteredEvent`
pub record OperatorRegisteredEvent : Type 0 where
  pub operator : Bytes
  pub block_number : ℕ
  pub signing_key : Bytes
  pub p2p_key : Bytes
  pub avs : Bytes

pub record OperatorDeregisteredEvent : Type 0 where
  pub operator : Bytes
  pub block_number : ℕ
  pub avs : Bytes

pub data Event : Type 0 where
  registered : OperatorRegisteredEvent → Event
  deregistered : OperatorDeregisteredEvent → Event

module _ (env : Env) where
  abbrev pub registration : OperatorRegisteredEvent → UpsertOperatorParams
  registration e = record {
    address = env.crypto.hex e.operator;
    signing_key = env.crypto.hex e.signing_key;
    p2p_key = env.crypto.hex e.p2p_key;
    registered_at_block_number = u64 e.block_number;
    active_epoch = get_effective_epoch_by_block_number (u64 e.block_number);
    exit_epoch = no_exit;
    is_active = false;
    weight = big_int_to_numeric (some (pos 0));
  }

  unfoldable pub upsert : UpsertOperatorParams → Step (Option Operator)
  upsert p = query env λ now n.
      let (row, rows) = upsert_operator p now n.operators in (ok row, record n { operators = rows })

  -- `handleOperatorRegistered`
  unfoldable pub handle_operator_registered : OperatorRegisteredEvent → Step (Unit {0})
  unfolding upsert
  handle_operator_registered e = do
    or_wrap (upsert (registration e)) "failed to upsert operator"
    pure tt

  unfoldable pub set_exit_epoch : String → ℕ → Step (Option Operator)
  set_exit_epoch address epoch = query env λ now n.
      let (row, rows) = update_operator_exit_epoch address epoch now n.operators in
      (ok row, record n { operators = rows })

  -- `handleOperatorDeregistered`: the keys of the row are read through a pointer that may be nil
  unfoldable pub handle_operator_deregistered : OperatorDeregisteredEvent → Step (Unit {0})
  unfolding set_exit_epoch
  handle_operator_deregistered e = do
    found ←
        or_wrap (read env (λ n. get_operator_by_address (env.crypto.hex e.operator) n.operators))
          "failed to get operator"
    deref found
    or_wrap
        (set_exit_epoch (env.crypto.hex e.operator)
          (get_effective_epoch_by_block_number (u64 e.block_number)))
        "failed to update operator exit epoch"
    pure tt

  -- One event of the loop of `start`; an error is logged.
  unfoldable pub handle_event : Event → Step (Unit {0})
  handle_event (registered e) = ignore (handle_operator_registered e)
  handle_event (deregistered e) = ignore (handle_operator_deregistered e)

  -- The loop of `start` over the events that arrive. A panic ends it: the goroutine recovers outside
  -- of the loop.
  unfoldable pub listen : List Event → Step (Unit {0})
  unfolding handle_event
  listen events = for_each events handle_event
