-- ===== src/Client/Methods.antt =====
-- The methods of a client of one chain: calls of its bindings. The bindings of the main chain's
-- contracts are nil in the client of another chain, and are read through.
use spotted_network.Base.{ℕ, Bool, Option, List, [], ◌∷◌}
use spotted_network.Base.Int.{ℤ}
use spotted_network.Base.Outcome.{message, ◌>>=◌, pure, raise, or_wrap, deref}
use spotted_network.Signer.{Bytes}
use spotted_network.Client.{Backend, ChainClient, Using, ask, int64}

module _ (backend : Backend) (c : ChainClient) where
  -- `GetLatestState`
  unfoldable pub get_latest_state : Bytes → Option ℤ → Using ℤ
  unfolding ask
  get_latest_state target key =
      or_wrap (ask (λ i. backend.current_value i c.state_manager target key))
        "[ChainClient] failed to get latest state"

  -- `GetStateAtBlock`
  unfoldable pub get_state_at_block : Bytes → Option ℤ → ℕ → Using ℤ
  unfolding ask
  get_state_at_block target key block =
      or_wrap (ask (λ i. backend.history_at_block i c.state_manager target key (int64 block)))
        "[ChainClient] failed to get state at block"

  unfoldable pub first_value : List ℤ → Using ℤ
  first_value [] = raise (message "[ChainClient] no state found after timestamp")
  first_value (v ∷ vs) = pure v

  -- `GetStateAtTimestamp`
  unfoldable pub get_state_at_timestamp : Bytes → Option ℤ → ℕ → Using ℤ
  unfolding ask first_value
  get_state_at_timestamp target key timestamp = do
    history ←
        or_wrap
          (ask
            (λ i. backend.history_after_timestamp i c.state_manager target key (int64 timestamp)))
          "[ChainClient] failed to get state at timestamp"
    first_value history

  -- `GetCurrentEpoch`
  unfoldable pub get_current_epoch : Using ℕ
  unfolding ask
  get_current_epoch = do
    epochs ← deref c.epoch_manager
    or_wrap (ask (λ i. backend.current_epoch i epochs)) "[ChainClient] failed to get current epoch"

  -- `GetEffectiveEpochForBlock`
  unfoldable pub get_effective_epoch_for_block : ℕ → Using ℕ
  unfolding ask
  get_effective_epoch_for_block block = do
    epochs ← deref c.epoch_manager
    or_wrap (ask (λ i. backend.effective_epoch_for_block i epochs block))
        "[ChainClient] failed to get effective epoch for block"

  -- `GetOperatorWeight`
  unfoldable pub get_operator_weight : Bytes → Using ℤ
  unfolding ask get_current_epoch
  get_operator_weight operator = do
    epoch ← get_current_epoch
    registry ← deref c.registry
    or_wrap (ask (λ i. backend.operator_weight_at_epoch i registry operator epoch))
        "[ChainClient] failed to get operator weight"

  -- `GetTotalWeight`
  unfoldable pub get_total_weight : Using ℤ
  unfolding ask get_current_epoch
  get_total_weight = do
    epoch ← get_current_epoch
    registry ← deref c.registry
    or_wrap (ask (λ i. backend.total_weight_at_epoch i registry epoch))
        "[ChainClient] failed to get total weight"

  -- `GetMinimumWeight`
  unfoldable pub get_minimum_weight : Using ℤ
  unfolding ask
  get_minimum_weight = do
    registry ← deref c.registry
    or_wrap (ask (λ i. backend.minimum_weight i registry))
        "[ChainClient] failed to get minimum stake"

  -- `GetThresholdWeight`
  unfoldable pub get_threshold_weight : Using ℤ
  unfolding ask get_current_epoch
  get_threshold_weight = do
    epoch ← get_current_epoch
    registry ← deref c.registry
    or_wrap (ask (λ i. backend.threshold_weight_at_epoch i registry epoch))
        "[ChainClient] failed to get threshold weight"

  -- `IsOperatorRegistered`
  unfoldable pub is_operator_registered : Bytes → Using Bool
  unfolding ask
  is_operator_registered operator = do
    registry ← deref c.registry
    or_wrap (ask (λ i. backend.operator_registered i registry operator))
        "[ChainClient] failed to check if operator is registered"

  -- `GetOperatorSigningKey`
  unfoldable pub get_operator_signing_key : Bytes → ℕ → Using Bytes
  unfolding ask
  get_operator_signing_key operator epoch = do
    registry ← deref c.registry
    or_wrap (ask (λ i. backend.operator_signing_key_at_epoch i registry operator epoch))
        "[ChainClient] failed to get operator signing key"

  -- `GetOperatorP2PKey`
  unfoldable pub get_operator_p2p_key : Bytes → ℕ → Using Bytes
  unfolding ask
  get_operator_p2p_key operator epoch = do
    registry ← deref c.registry
    or_wrap (ask (λ i. backend.operator_p2p_key_at_epoch i registry operator epoch))
        "[ChainClient] failed to get operator P2P key"
