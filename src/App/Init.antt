-- ===== src/App/Init.antt =====
-- The steps of `Run`, in their order, and `Shutdown`.
use spotted_network.Base.{String, Bool, true, false, some, List, [], ◌∷◌, if◌then◌else◌}
use spotted_network.Base.Outcome.{
  is_some, Reply, Outcome, ok, err, panic, Action, outcome, ◌>>=◌, ◌>>◌, pure, or_wrap, deref, lift,
  gets, modify, ignore,
}
use spotted_network.Config.{get_bootstrap_peers}
use spotted_network.Chains.{new_manager, get_mainnet_client, clients}
use spotted_network.Discovery.{NodeConfig, PeerHost, new_node, stop_node}
use spotted_network.App.{World, App, Service, Building}
use spotted_network.App.Parts.{
  load_config, new_local_signer, starts, new_event_listener, new_connection_gater,
  new_epoch_updator, new_task_processor, start_task_processor, new_handler, new_health_checker,
  stop_health_checker,
}

module _ {C : Type 0} (world : World C) where
  -- What Go's runtime makes of a process that `log.Fatalf` ends is the model's panic.
  abbrev pub or_exit : Reply (Unit {0}) → Building C (Unit {0})
  or_exit (Reply.value _) = pure tt
  or_exit (Reply.fault _) = lift panic

  -- A step on the node among its peers
  unfoldable pub on_peers : {A : Type 0} → Action PeerHost A → Building C A
  on_peers m a = let (r, peers) = m a.peers in (r, record a { peers = peers })

  -- `initConfig`
  unfoldable pub init_config : Building C (Unit {0})
  unfolding load_config
  init_config = do
    c ← or_wrap (load_config world "config/operator.yaml") "failed to load config"
    modify (λ a. record a { cfg = some c })

  -- `initMetrics`
  unfoldable pub init_metrics : Building C (Unit {0})
  init_metrics = do c ← gets (λ a. a.cfg); deref c; starts Service.metric_server

  -- `initSigner`
  unfoldable pub init_signer : Building C (Unit {0})
  unfolding new_local_signer
  init_signer = do
    a ← gets (λ a. a)
    key ←
        or_wrap
          (if a.is_key_path
            then new_local_signer world a.signing_key_path "" a.password
            else new_local_signer world "" a.signing_key_priv "")
          "failed to initialize signer"
    modify (λ a. record a { signer = some key })

  abbrev pub ping_all : List (Reply (Unit {0})) → Outcome (Unit {0})
  ping_all [] = ok tt
  ping_all (Reply.fault e ∷ more) = err e
  ping_all (Reply.value _ ∷ more) = ping_all more

  -- `NewWPGXPool`: a pool that does not answer stays open
  unfoldable pub new_wpgx_pool : Building C (Unit {0})
  new_wpgx_pool = do
    lift (outcome world.new_pool)
    modify (λ a. record a { pool_open = true })
    lift (outcome world.ping_primary)
    lift (ping_all world.ping_replicas)

  -- `InitCache`: the connection is opened before the cache is made, and is not closed on an error
  unfoldable pub init_cache : Building C (Unit {0})
  init_cache = do
    modify (λ a. record a { redis_open = true })
    or_wrap (lift (outcome world.new_dcache)) "failed to create dcache"

  -- `initDatabase`
  unfoldable pub init_database : Building C (Unit {0})
  unfolding new_wpgx_pool init_cache
  init_database = do
    or_wrap new_wpgx_pool "failed to connect to database"
    modify (λ a. record a { db = true })
    or_wrap init_cache "failed to initialize cache"
    modify (λ a. record a { redis_conn = true; repos = true })

  -- `initChainManagerAndMainnetClient`
  unfoldable pub init_chain_manager_and_mainnet_client : Building C (Unit {0})
  init_chain_manager_and_mainnet_client = do
    c ← gets (λ a. a.cfg)
    cfg ← deref c
    manager ←
        or_wrap
          (lift (new_manager world.hex_to_address world.new_client world.close_client cfg.chains).0)
          "failed to initialize chain manager"
    modify (λ a. record a {
      clients_open = clients world.hex_to_address world.new_client world.close_client manager;
    })
    client ←
        or_wrap
          (lift
            (get_mainnet_client world.hex_to_address world.new_client world.close_client manager))
          "failed to create mainnet client"
    modify (λ a. record a { chain_manager = some manager; mainnet_client = some client })

  -- A read of a field of `a.repos`, which may be nil
  abbrev read_repos : Building C Bool
  read_repos a = if a.repos then (ok true, a) else (panic, a)

  -- `initEventListener`
  unfoldable pub init_event_listener : Building C (Unit {0})
  unfolding new_event_listener
  init_event_listener = do
    operators ← read_repos
    client ← gets (λ a. is_some a.mainnet_client)
    or_wrap (new_event_listener client operators) "failed to create event listener"

  -- `initGater`
  unfoldable pub init_gater : Building C (Unit {0})
  unfolding new_connection_gater
  init_gater = do
    repos ← read_repos
    or_wrap (new_connection_gater repos repos) "failed to create gater"
    modify (λ a. record a { gater = true })

  -- `initNode`
  unfoldable pub init_node : Building C (Unit {0})
  unfolding on_peers
  init_node = do
    key_text ← gets (λ a. a.p2p_key)
    key ← or_wrap (lift (outcome (world.base64_to_priv_key key_text))) "failed to load P2P key"
    c ← gets (λ a. a.cfg)
    cfg ← deref c
    or_wrap (lift (outcome (world.new_host cfg.p2p.port key))) "failed to create host"
    modify (λ a. record a { host = true; peers = record a.peers { host_open = true } })
    bootstrap ←
        or_wrap (lift (get_bootstrap_peers world.addr_info_from_string cfg.p2p.bootstrap_peers))
          "failed to create bootstrap peers"
    let config : NodeConfig = record {
      has_host = true;
      bootstrap_peers = bootstrap;
      rendezvous = cfg.p2p.rendezvous;
    }
    or_wrap (on_peers (new_node world.network config)) "failed to create operator node"
    modify (λ a. record a { node = true })

  -- `initEpochUpdator`: the pool is a pointer in an interface, which is not nil
  unfoldable pub init_epoch_updator : Building C (Unit {0})
  unfolding new_epoch_updator
  init_epoch_updator = do
    operators ← read_repos
    client ← gets (λ a. is_some a.mainnet_client)
    or_wrap (new_epoch_updator operators client true) "failed to create epoch updator"
    modify (λ a. record a { epoch_updator = true })

  -- `initTaskProcessor`
  unfoldable pub init_task_processor : Building C (Unit {0})
  unfolding new_task_processor start_task_processor
  init_task_processor = do
    or_wrap (lift (outcome world.new_gossip_sub)) "failed to create gossipsub"
    or_exit world.join
    or_exit world.subscribe
    repos ← read_repos
    a ← gets (λ a. a)
    or_wrap
        (new_task_processor (is_some a.signer) a.epoch_updator repos repos repos
          (is_some a.chain_manager) true)
        "failed to create task processor"
    or_wrap start_task_processor "failed to start task processor"
    modify (λ a. record a { task_processor = true })

  -- `initAPI`
  unfoldable pub init_api : Building C (Unit {0})
  unfolding new_handler
  init_api = do
    repos ← read_repos
    a ← gets (λ a. a)
    or_wrap (new_handler a.task_processor (is_some a.chain_manager) repos repos)
        "failed to create API handler"
    c ← gets (λ a. a.cfg)
    deref c
    starts Service.api_server

  -- `initHealthChecker`: the checker is stopped when it returns; what its one check does to the peers
  -- is left out
  unfoldable pub init_health_checker : Building C (Unit {0})
  unfolding new_health_checker stop_health_checker
  init_health_checker = do
    node ← gets (λ a. a.node)
    or_wrap (new_health_checker node true) "failed to create health checker"
    stop_health_checker

  -- The parameters that `Run` stores first
  abbrev pub store_parameters : Bool → String → String → String → App C → App C
  store_parameters is_key_path signing_key p2p_key password a =
      if is_key_path
      then record a {
        is_key_path = true;
        signing_key_path = signing_key;
        password = password;
        p2p_key = p2p_key;
      }
      else record a { is_key_path = false; signing_key_priv = signing_key; p2p_key = p2p_key }

  -- `if err := step(); err != nil { return fmt.Errorf("what: %w", err) }`, for each of the steps
  unfoldable pub in_order : List (Building C (Unit {0}) × String) → Building C (Unit {0})
  in_order [] = pure tt
  in_order ((step, what) ∷ more) = or_wrap step what >> in_order more

  -- The steps of `Run`
  unfoldable pub run_steps : List (Building C (Unit {0}) × String)
  run_steps =
      (init_config, "failed to load config")
      ∷ (init_metrics, "failed to initialize metrics")
      ∷ (init_signer, "failed to initialize signer")
      ∷ (init_database, "failed to initialize database")
      ∷ (
        init_chain_manager_and_mainnet_client,
        "failed to initialize chain manager and mainnet client",
      )
      ∷ (init_event_listener, "failed to initialize event listener")
      ∷ (init_gater, "failed to initialize gater")
      ∷ (init_node, "failed to initialize node")
      ∷ (init_epoch_updator, "failed to initialize epoch updator")
      ∷ (init_task_processor, "failed to initialize task processor")
      ∷ (init_api, "failed to initialize API")
      ∷ (init_health_checker, "failed to initialize health checker")
      ∷ []

  -- `Run` up to its wait
  unfoldable pub run : Bool → String → String → String → Building C (Unit {0})
  unfolding in_order
  run is_key_path signing_key p2p_key password = do
    modify (store_parameters is_key_path signing_key p2p_key password)
    in_order run_steps

  -- `Shutdown`: the errors of closing are dropped
  unfoldable pub shutdown : Building C (Unit {0})
  unfolding on_peers
  shutdown = do
    modify (λ a. record a { pool_open = if a.db then false else a.pool_open })
    modify (λ a. record a { redis_open = if a.redis_conn then false else a.redis_open })
    node ← gets (λ a. a.node)
    if node then ignore (on_peers (stop_node world.network)) else pure tt
    modify (λ a. record a { clients_open = if is_some a.chain_manager then [] else a.clients_open })
