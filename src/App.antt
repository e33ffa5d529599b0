-- ===== src/App.antt =====
-- The application: cmd/operator/app/app.go, with what it constructs. A component is the test whether
-- the application's field for it is set; what stays open or running after a call is kept beside the
-- fields. What the application calls outside of the repository is an argument.
pub mod Parts
pub mod Init
pub mod Stages
pub mod Works
pub mod Starts
pub mod Releases
mod Tests
use spotted_network.Base.{ℕ, String, Bool, Option, List}
use spotted_network.Base.Int.{ℤ}
use spotted_network.Base.Outcome.{Reply, Action}
use spotted_network.Signer.{Bytes}
use spotted_network.Config.{Config}
use spotted_network.Chains.{ClientConfig}
use spotted_network.Discovery.{Network, PeerHost}

-- The goroutines that the application's components start, but for those of its node
pub data Service : Type 0 where
  metric_server : Service
  event_listener : Service
  epoch_updator : Service
  task_processor : Service
  api_server : Service
  health_checker : Service

-- `parse_config` reads, expands and parses a file; `C` are clients of chains. The keystore, the
-- encodings, the database, the cache, libp2p and its publish-subscribe answer once each.
pub record World (C : Type 0) : Type 0 where
  pub parse_config : String → Reply Config
  pub read_file : String → Reply Bytes
  pub decrypt_key : Bytes → String → Reply ℕ
  pub decode_hex : String → Reply Bytes
  pub to_ecdsa : Bytes → Reply ℕ
  pub base64_to_priv_key : String → Reply ℕ
  pub new_pool : Reply (Unit {0})
  pub ping_primary : Reply (Unit {0})
  pub ping_replicas : List (Reply (Unit {0}))
  pub new_dcache : Reply (Unit {0})
  pub hex_to_address : String → Bytes
  pub new_client : ClientConfig → Reply C
  pub close_client : C → Reply (Unit {0})
  pub addr_info_from_string : String → Reply String
  pub new_host : ℤ → ℕ → Reply (Unit {0})
  pub network : Network
  pub new_gossip_sub : Reply (Unit {0})
  pub join : Reply (Unit {0})
  pub subscribe : Reply (Unit {0})

-- `App`: the fields that later steps read, then what is open and running
pub record App (C : Type 0) : Type 0 where
  pub is_key_path : Bool
  pub signing_key_path : String
  pub signing_key_priv : String
  pub p2p_key : String
  pub password : String
  pub cfg : Option Config
  pub signer : Option ℕ
  pub chain_manager : Option (List (ℕ × C))
  pub mainnet_client : Option C
  pub db : Bool
  pub redis_conn : Bool
  pub repos : Bool
  pub host : Bool
  pub node : Bool
  pub gater : Bool
  pub task_processor : Bool
  pub epoch_updator : Bool
  pub pool_open : Bool
  pub redis_open : Bool
  pub clients_open : List C
  pub peers : PeerHost
  pub services : List Service

abbrev pub Building : Type 0 → Type 0 → Type 0
Building C = Action (App C)
