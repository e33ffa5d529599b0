-- ===== src/Chains.antt =====
-- The clients of the chains: pkg/common/contracts/ethereum/manager.go. A client is made and closed by
-- chain_client.go, over go-ethereum; both are arguments. A Go map is the list of its entries.
pub mod Manager
mod Tests
use spotted_network.Base.{
  ℕ, String, Option, none, some, List, [], ◌∷◌, ◌++◌, map, ◌==◌, if◌then◌else◌,
}
use spotted_network.Base.Outcome.{Error, Reply, Outcome, ok, err, panic, message, wrapped}
use spotted_network.Signer.{Bytes}
use spotted_network.Config.{ChainConfig}
use spotted_network.Api.Send.{mainnet_chain_id}

-- `ethereum.Config`
pub record ClientConfig : Type 0 where
  pub chain_id : ℕ
  pub rpc_endpoint : String
  pub state_manager_address : Bytes
  pub epoch_manager_address : Bytes
  pub registry_address : Bytes

module _ {V : Type 0} where
  -- `m[k]`
  unfoldable pub at : ℕ → List (ℕ × V) → Option V
  at k [] = none
  at k ((j, v) ∷ m) = if j == k then some v else at k m

  -- `m[k] = v`
  unfoldable pub set_at : ℕ → V → List (ℕ × V) → List (ℕ × V)
  set_at k v [] = (k, v) ∷ []
  set_at k v ((j, w) ∷ m) = if j == k then (j, v) ∷ m else (j, w) ∷ set_at k v m

  -- `delete(m, k)`
  unfoldable pub delete_at : ℕ → List (ℕ × V) → List (ℕ × V)
  delete_at k [] = []
  delete_at k ((j, w) ∷ m) = let rest = delete_at k m in if j == k then rest else (j, w) ∷ rest

module _ {Client : Type 0} (hex_to_address : String → Bytes)
    (new_client : ClientConfig → Reply Client) (close : Client → Reply (Unit {0})) where
  abbrev pub client_config : ℕ → ChainConfig → ClientConfig
  client_config chain_id c = record {
    chain_id = chain_id;
    rpc_endpoint = c.rpc;
    state_manager_address = hex_to_address c.contracts.state_manager;
    epoch_manager_address = hex_to_address c.contracts.epoch_manager;
    registry_address = hex_to_address c.contracts.registry;
  }

  abbrev pub clients : List (ℕ × Client) → List Client
  clients = map (λ entry. entry.1)

  -- The errors that `Close` collects.
  unfoldable pub close_errors : List Client → List Error
  close_errors [] = []
  close_errors (c ∷ more) =
      let rest = close_errors more in
      elim (close c) [
        | Reply.value _ ↦ rest
        | Reply.fault e ↦ wrapped "failed to close chain" e ∷ rest
      ]

  abbrev pub close_result : List Error → Outcome (Unit {0})
  close_result [] = ok tt
  close_result (e ∷ more) = err (wrapped "errors closing chains" e)

  -- `Close`: the result, and the clients that were closed; of the errors, the first is kept
  unfoldable pub close_manager : List (ℕ × Client) → Outcome (Unit {0}) × List Client
  close_manager m = (close_result (close_errors (clients m)), clients m)

  -- The loop of `NewManager`, with the map so far: the result, and the clients that were closed.
  -- A nil entry is read through.
  unfoldable pub connect :
      List (ℕ × Option ChainConfig) → List (ℕ × Client) → Outcome (List (ℕ × Client)) × List Client
  connect [] m = (ok m, [])
  connect ((chain_id, none) ∷ more) m = (panic, [])
  connect ((chain_id, some c) ∷ more) m =
      let again = connect more in
      elim (new_client (client_config chain_id c)) [
        | Reply.fault e ↦ (err (wrapped "failed to initialize chain" e), (close_manager m).1)
        | Reply.value client ↦ again (set_at chain_id client m)
      ]

  -- `NewManager`
  unfoldable pub new_manager :
      List (ℕ × Option ChainConfig) → Outcome (List (ℕ × Client)) × List Client
  new_manager chains = connect chains []

  -- `GetClientByChainId`
  unfoldable pub get_client_by_chain_id : ℕ → List (ℕ × Client) → Outcome Client
  get_client_by_chain_id chain_id m = elim (at chain_id m) [
    | none ↦ err (message "chain not found")
    | some client ↦ ok client
  ]

  -- `GetMainnetClient`
  unfoldable pub get_mainnet_client : List (ℕ × Client) → Outcome Client
  get_mainnet_client = get_client_by_chain_id mainnet_chain_id

  -- `AddChain`
  unfoldable pub add_chain :
      ClientConfig → List (ℕ × Client) → Outcome (Unit {0}) × List (ℕ × Client)
  add_chain config m = elim (at config.chain_id m) [
    | some _ ↦ (err (message "chain already exists"), m)
    | none ↦ elim (new_client config) [
      | Reply.fault e ↦ (err (wrapped "failed to create chain" e), m)
      | Reply.value client ↦ (ok tt, set_at config.chain_id client m)
    ]
  ]

  -- `RemoveChain`
  unfoldable pub remove_chain : ℕ → List (ℕ × Client) → Outcome (Unit {0}) × List (ℕ × Client)
  remove_chain chain_id m = elim (at chain_id m) [
    | none ↦ (err (message "chain not found"), m)
    | some client ↦ elim (close client) [
      | Reply.fault e ↦ (err (wrapped "failed to close chain" e), m)
      | Reply.value _ ↦ (ok tt, delete_at chain_id m)
    ]
  ]

  -- `ListChains`
  unfoldable pub list_chains : List (ℕ × Client) → List ℕ
  list_chains = map (λ entry. entry.0)
