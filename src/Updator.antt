-- ===== src/Updator.antt =====
-- The epoch updator: pkg/operator/epoch/updator.go. The main chain's contracts and the database's
-- transactions are arguments.
pub mod Epochs
pub mod Refreshed
pub mod Entered
pub mod Progress
pub mod Sample
mod Tests
use spotted_network.Base.{
  ℕ, String, Bool, true, false, Option, some, List, [], ◌∷◌, ltb, if◌then◌else◌,
}
use spotted_network.Base.Int.{ℤ}
use spotted_network.Base.Outcome.{Reply, Outcome, ok, ◌>>=◌, ◌>>◌, pure, or_wrap, modify, handle}
use spotted_network.Numeric.{big_int_to_numeric}
use spotted_network.Epoch.{calculate_current_epoch_number, is_operator_active}
use spotted_network.Signer.{Bytes}
use spotted_network.Node.{EpochState, Node, Env, Step, call, query, read}
use spotted_network.Repo.Operators.{
  Operator, Operators, UpdateOperatorStateParams, list_all_operators, update_operator_state,
}

-- What the main chain's contracts answer, by the number of the call: `MainnetClient`.
pub record MainnetClient : Type 0 where
  pub block_number : ℕ → Reply ℕ
  pub get_minimum_weight : ℕ → Reply ℤ
  pub get_total_weight : ℕ → Reply ℤ
  pub get_threshold_weight : ℕ → Reply ℤ
  pub get_operator_weight : Bytes → ℕ → Reply ℤ
  pub get_operator_signing_key : Bytes → ℕ → ℕ → Reply Bytes
  pub get_operator_p2p_key : Bytes → ℕ → ℕ → Reply Bytes

module _ (env : Env) (main : MainnetClient) (transact : Step (Unit {0}) → Step (Unit {0})) where
  -- `updateEpochState`
  unfoldable pub update_epoch_state : ℕ → Step (Unit {0})
  update_epoch_state epoch = do
    minimum ← or_wrap (call main.get_minimum_weight) "failed to get minimum stake"
    total ← or_wrap (call main.get_total_weight) "failed to get total stake"
    threshold ← or_wrap (call main.get_threshold_weight) "failed to get threshold weight"
    modify λ n. record n {
      epoch_state = record {
        epoch_number = epoch;
        minimum_weight = some minimum;
        total_weight = some total;
        threshold_weight = some threshold;
      };
    }

  abbrev pub state_params : ℕ → Operator → ℤ → Bytes → Bytes → UpdateOperatorStateParams
  state_params block o weight signing_key p2p_key = record {
    address = o.address;
    is_active = is_operator_active block o.active_epoch o.exit_epoch;
    weight = big_int_to_numeric (some weight);
    signing_key = env.crypto.hex signing_key;
    p2p_key = env.crypto.hex p2p_key;
  }

  unfoldable pub update_state : UpdateOperatorStateParams → Step (Option Operator)
  update_state p = query env λ now n.
      let (row, rows) = update_operator_state p now n.operators in
      (ok row, record n { operators = rows })

  -- One operator of the loop of `handleEpochUpdate`
  unfoldable pub refresh : ℕ → ℕ → Operator → Step (Unit {0})
  refresh block epoch o = do
    weight ←
        or_wrap (call (main.get_operator_weight (env.crypto.hex_to_address o.address)))
          "failed to get weight for operator"
    signing_key ←
        or_wrap (call (main.get_operator_signing_key (env.crypto.hex_to_address o.address) epoch))
          "failed to get signing key for operator"
    p2p_key ←
        or_wrap (call (main.get_operator_p2p_key (env.crypto.hex_to_address o.address) epoch))
          "failed to get P2P key for operator"
    or_wrap (update_state (state_params block o weight signing_key p2p_key))
        "failed to update operator state"
    pure tt

  -- The loop of `handleEpochUpdate`, which ends at the first error.
  unfoldable pub refresh_all : ℕ → ℕ → Operators → Step (Unit {0})
  refresh_all block epoch [] = pure tt
  refresh_all block epoch (o ∷ more) = do refresh block epoch o; refresh_all block epoch more

  -- The transaction of `handleEpochUpdate`
  unfoldable pub update_all : ℕ → ℕ → Step (Unit {0})
  update_all block epoch = do
    or_wrap (update_epoch_state epoch) "failed to update epoch state"
    all ← or_wrap (read env (λ n. list_all_operators n.operators)) "failed to get all operators"
    refresh_all block epoch all

  -- `handleEpochUpdate`
  unfoldable pub handle_epoch_update : ℕ → Step (Unit {0})
  handle_epoch_update epoch = do
    block ← or_wrap (call main.block_number) "failed to get current block number"
    or_wrap (transact (update_all block epoch)) "transaction failed"

  -- The update of an epoch later than the last one that was processed.
  unfoldable pub enter_epoch : ℕ → Step (Unit {0})
  enter_epoch epoch n =
      if ltb n.last_processed_epoch epoch
      then handle (handle_epoch_update epoch)
          (λ _. modify (λ m. record m { last_processed_epoch = epoch })) (λ _. pure tt) n
      else (ok tt, n)

  -- One tick of the loop of `start`
  unfoldable pub check_epoch : Step (Unit {0})
  check_epoch =
      handle (call main.block_number) (λ block. enter_epoch (calculate_current_epoch_number block))
        (λ _. pure tt)
