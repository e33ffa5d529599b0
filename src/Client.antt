-- ===== src/Client.antt =====
-- The client of one chain: pkg/common/contracts/ethereum/chain_client.go but for its polling loops,
-- which are in Watch. go-ethereum and the generated bindings are an argument: what they answer to the
-- n-th call. A client keeps its connection by number and each binding by the address it is bound to.
pub mod Connects
pub mod Methods
pub mod Panics
pub mod Calls
mod Tests
use spotted_network.Base.{
  ℕ, ◌+◌, ◌-◌, ◌%◌, String, Bool, true, Option, none, some, List, [], ◌∷◌, ltb, ◌==◌, if◌then◌else◌,
}
use spotted_network.Base.Int.{ℤ, pos, negsuc}
use spotted_network.Base.Lists.{without}
use spotted_network.Base.Outcome.{
  Error, message, Reply, Outcome, ok, err, Action, outcome, ◌>>=◌, ◌>>◌, pure, raise, or_wrap,
  deref, handle, modify,
}
use spotted_network.Signer.{Bytes}
use spotted_network.Chains.{ClientConfig}
use spotted_network.Api.Send.{mainnet_chain_id}

-- The first number of each is that of the call; then the address of the contract and its arguments.
pub record Backend : Type 0 where
  pub dial : ℕ → String → Reply (Unit {0})
  pub bind_state_manager : ℕ → Bytes → Reply (Unit {0})
  pub bind_epoch_manager : ℕ → Bytes → Reply (Unit {0})
  pub bind_registry : ℕ → Bytes → Reply (Unit {0})
  pub current_value : ℕ → Bytes → Bytes → Option ℤ → Reply ℤ
  pub history_at_block : ℕ → Bytes → Bytes → Option ℤ → ℤ → Reply ℤ
  pub history_after_timestamp : ℕ → Bytes → Bytes → Option ℤ → ℤ → Reply (List ℤ)
  pub current_epoch : ℕ → Bytes → Reply ℕ
  pub effective_epoch_for_block : ℕ → Bytes → ℕ → Reply ℕ
  pub operator_weight_at_epoch : ℕ → Bytes → Bytes → ℕ → Reply ℤ
  pub total_weight_at_epoch : ℕ → Bytes → ℕ → Reply ℤ
  pub minimum_weight : ℕ → Bytes → Reply ℤ
  pub threshold_weight_at_epoch : ℕ → Bytes → ℕ → Reply ℤ
  pub operator_registered : ℕ → Bytes → Bytes → Reply Bool
  pub operator_signing_key_at_epoch : ℕ → Bytes → Bytes → ℕ → Reply Bytes
  pub operator_p2p_key_at_epoch : ℕ → Bytes → Bytes → ℕ → Reply Bytes

-- `chainClient`
pub record ChainClient : Type 0 where
  pub client : ℕ
  pub state_manager : Bytes
  pub epoch_manager : Option Bytes
  pub registry : Option Bytes

-- The connections that are open, the number of the next one, and the number of calls so far.
pub record Connections : Type 0 where
  pub open_now : List ℕ
  pub next : ℕ
  pub calls : ℕ

abbrev pub Using : Type 0 → Type 0
Using = Action Connections

-- `int64(n)` of a 64 bit number
abbrev pub int64 : ℕ → ℤ
int64 n = if ltb n 9223372036854775808 then pos n else negsuc (18446744073709551616 - n - 1)

-- A call of the chain.
unfoldable pub ask : {A : Type 0} → (ℕ → Reply A) → Using A
ask f s = (outcome (f s.calls), record s { calls = s.calls + 1 })

module _ (backend : Backend) where
  -- `ethclient.Dial`: a new connection, or an error and none
  unfoldable pub connect_to : String → Using ℕ
  unfolding ask
  connect_to endpoint = do
    ask (λ i. backend.dial i endpoint)
    λ s. (ok s.next, record s { open_now = s.next ∷ s.open_now; next = s.next + 1 })

  -- `ethClient.Close()`
  abbrev pub hang_up : ℕ → Connections → Connections
  hang_up c s = record s { open_now = without c s.open_now }

  -- A binding that cannot be made closes the connection.
  unfoldable pub or_close : ℕ → Using (Unit {0}) → String → Using (Unit {0})
  or_close c m what = handle m (λ _. pure tt) (λ e. modify (hang_up c) >> or_wrap (raise e) what)

  -- The last part of `NewChainClient`: the bindings of the main chain
  unfoldable pub bind_main : ClientConfig → ChainClient → Using ChainClient
  unfolding or_close ask
  bind_main cfg c = do
    or_close c.client (ask (λ i. backend.bind_epoch_manager i cfg.epoch_manager_address))
        "[ChainClient] failed to create epoch manager binding"
    or_close c.client (ask (λ i. backend.bind_registry i cfg.registry_address))
        "[ChainClient] failed to create registry binding"
    pure (record c {
      epoch_manager = some cfg.epoch_manager_address;
      registry = some cfg.registry_address;
    })

  -- `NewChainClient`
  unfoldable pub new_chain_client : ClientConfig → Using ChainClient
  unfolding connect_to or_close ask bind_main
  new_chain_client cfg = do
    c ← or_wrap (connect_to cfg.rpc_endpoint) "[ChainClient] failed to connect to Ethereum node"
    or_close c (ask (λ i. backend.bind_state_manager i cfg.state_manager_address))
        "[ChainClient] failed to create state manager binding"
    let client : ChainClient = record {
      client = c;
      state_manager = cfg.state_manager_address;
      epoch_manager = none;
      registry = none;
    }
    if cfg.chain_id == mainnet_chain_id then bind_main cfg client else pure client

  -- `Close`
  unfoldable pub close_client : ChainClient → Using (Unit {0})
  close_client c s = (ok tt, hang_up c.client s)
