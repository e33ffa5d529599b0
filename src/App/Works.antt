-- ===== src/App/Works.antt =====
-- What the outside answers where all of `Run` succeeds.
use spotted_network.Base.{ℕ, ◌≡◌, String, Bool, true, false, none, List, [], str_eq}
use spotted_network.Base.Outcome.{Reply, ok}
use spotted_network.Signer.{Bytes}
use spotted_network.Config.{Config, validate, get_bootstrap_peers}
use spotted_network.Chains.{new_manager, get_mainnet_client}
use spotted_network.Discovery.{PeerHost}
use spotted_network.App.{World, App}
use spotted_network.App.Parts.{trim_0x}
use spotted_network.App.Init.{ping_all}

-- `New`: nothing is set, open or running
abbrev pub fresh_peers : PeerHost
fresh_peers = record { host_open = false; dht_open = false; running = []; dialled = []; calls = 0 }

abbrev pub new_app : {C : Type 0} → App C
new_app = record {
  is_key_path = false;
  signing_key_path = "";
  signing_key_priv = "";
  p2p_key = "";
  password = "";
  cfg = none;
  signer = none;
  chain_manager = none;
  mainnet_client = none;
  db = false;
  redis_conn = false;
  repos = false;
  host = false;
  node = false;
  gater = false;
  task_processor = false;
  epoch_updator = false;
  pool_open = false;
  redis_open = false;
  clients_open = [];
  peers = fresh_peers;
  services = [];
}

module _ {C : Type 0} (world : World C) where
  -- The key can be read: from its file with the password, or from its hexadecimal digits.
  abbrev pub KeyReads : Bool → String → String → ℕ → Type 0
  KeyReads true path password key =
      (str_eq path "" ≡ false)
      × ((json : Bytes) × (world.read_file path ≡ Reply.value json)
          × (world.decrypt_key json password ≡ Reply.value key))
  KeyReads false digits password key =
      (str_eq digits "" ≡ false)
      × ((bytes : Bytes) × (world.decode_hex (trim_0x world digits) ≡ Reply.value bytes)
          × (world.to_ecdsa bytes ≡ Reply.value key))

  -- What `Run` calls first succeeds: the configuration, the signing key, the database, and the clients of
  -- the chains.
  pub record Begins (is_key_path : Bool) (signing_key password : String) : Type 0 where
    pub config : Config
    pub parsed : world.parse_config "config/operator.yaml" ≡ Reply.value config
    pub valid : validate world.addr_info_from_string config ≡ ok tt
    pub key : ℕ
    pub reads : KeyReads is_key_path signing_key password key
    pub pool : world.new_pool ≡ Reply.value tt
    pub primary : world.ping_primary ≡ Reply.value tt
    pub replicas : ping_all world world.ping_replicas ≡ ok tt
    pub cache : world.new_dcache ≡ Reply.value tt
    pub manager : List (ℕ × C)
    pub closed : List C
    pub made :
        new_manager world.hex_to_address world.new_client world.close_client config.chains
        ≡ (ok manager, closed)

  -- Everything that `Run` calls outside of the repository succeeds, for a valid configuration that has
  -- the main chain.
  pub record Works (is_key_path : Bool) (signing_key p2p_key password : String) : Type 0 where
    pub begins : Begins is_key_path signing_key password
    pub main : C
    pub found :
        get_mainnet_client world.hex_to_address world.new_client world.close_client begins.manager
        ≡ ok main
    pub identity : ℕ
    pub decoded : world.base64_to_priv_key p2p_key ≡ Reply.value identity
    pub listens : world.new_host begins.config.p2p.port identity ≡ Reply.value tt
    pub bootstrap : List String
    pub bootstraps :
        get_bootstrap_peers world.addr_info_from_string begins.config.p2p.bootstrap_peers
        ≡ ok bootstrap
    pub named : str_eq begins.config.p2p.rendezvous "" ≡ false
    pub table : world.network.new_dht 0 bootstrap ≡ Reply.value tt
    pub boots : world.network.bootstrap 1 ≡ Reply.value tt
    pub gossip : world.new_gossip_sub ≡ Reply.value tt
    pub joins : world.join ≡ Reply.value tt
    pub subscribes : world.subscribe ≡ Reply.value tt
