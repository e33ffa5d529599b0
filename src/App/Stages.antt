-- ===== src/App/Stages.antt =====
-- Each step of `Run` where what it calls succeeds, and the components that it reads are set.
use spotted_network.Base.{refl, [], ℕ, ◌≡◌, String, true, false, some, List, ◌∷◌, arith, str_eq}
use spotted_network.Base.Outcome.{Error, err, wrapped, Reply, ok, ◌>>=◌}
use spotted_network.Config.{Config, validate, get_bootstrap_peers}
use spotted_network.Chains.{new_manager, get_mainnet_client, clients}
use spotted_network.Discovery.{PeerHost, new_node}
use spotted_network.App.{World, App, Service, Building}
use spotted_network.Signer.{Bytes}
use spotted_network.App.Parts.{
  load_config, new_local_signer, key_of_file, key_of_hex, trim_0x, other_services,
  new_event_listener, new_connection_gater, new_epoch_updator, new_task_processor,
  start_task_processor, new_handler, new_health_checker, stop_health_checker,
}
use spotted_network.App.Init.{
  on_peers, in_order, init_config, init_metrics, init_signer, ping_all, new_wpgx_pool, init_cache,
  init_database, init_chain_manager_and_mainnet_client, init_event_listener, init_gater, init_node,
  init_epoch_updator, init_task_processor, init_api, init_health_checker,
}

-- Steps that succeed one after another, from one state to another.
pub data Done {C : Type 0} : List (Building C (Unit {0}) × String) → App C → App C → Type 0 where
  all_done : {a : App C} → Done [] a a
  next :
      {step : Building C (Unit {0})} {what : String} {more : List (Building C (Unit {0}) × String)}
      {a b c : App C}
      → step a ≡ (ok tt, b)
      → Done more b c
      → Done ((step, what) ∷ more) a c

pub in_order-Done :
    {C : Type 0} (world : World C) {steps : List (Building C (Unit {0}) × String)} {a c : App C}
    → Done steps a c
    → in_order world steps a ≡ (ok tt, c)
unfolding in_order ◌>>=◌
in_order-Done world all_done = refl
in_order-Done world (next fine rest) = ground (arith, fine, in_order-Done world rest)

-- Steps of which one fails, with the error that it ends the start with.
pub data Failed {C : Type 0} (e : Error)
    : List (Building C (Unit {0}) × String) → App C → App C → Type 0 where
  fails :
      {step : Building C (Unit {0})} {what : String} {more : List (Building C (Unit {0}) × String)}
      {a b : App C} (cause : Error)
      → step a ≡ (err cause, b)
      → e ≡ wrapped what cause
      → Failed e ((step, what) ∷ more) a b
  after :
      {step : Building C (Unit {0})} {what : String} {more : List (Building C (Unit {0}) × String)}
      {a b c : App C}
      → step a ≡ (ok tt, b)
      → Failed e more b c
      → Failed e ((step, what) ∷ more) a c

pub in_order-Failed :
    {C : Type 0} (world : World C) {e : Error} {steps : List (Building C (Unit {0}) × String)}
    {a c : App C}
    → Failed e steps a c
    → in_order world steps a ≡ (err e, c)
unfolding in_order ◌>>=◌
in_order-Failed world (fails cause failed is) = ground (arith, failed, is)
in_order-Failed world (after fine rest) = ground (arith, fine, in_order-Failed world rest)

module _ {C : Type 0} (world : World C) (a : App C) where
  pub config_step :
      (cfg : Config)
      → world.parse_config "config/operator.yaml" ≡ Reply.value cfg
      → validate world.addr_info_from_string cfg ≡ ok tt
      → init_config world a ≡ (ok tt, record a { cfg = some cfg })
  unfolding init_config load_config ◌>>=◌
  config_step cfg parsed valid = ground (arith, parsed, valid)

  pub metrics_step :
      (cfg : Config)
      → a.cfg ≡ some cfg
      → init_metrics world a ≡ (ok tt, record a { services = Service.metric_server ∷ a.services })
  unfolding init_metrics ◌>>=◌
  metrics_step cfg there = ground (arith, there)

  pub database_step :
      world.new_pool ≡ Reply.value tt
      → world.ping_primary ≡ Reply.value tt
      → ping_all world world.ping_replicas ≡ ok tt
      → world.new_dcache ≡ Reply.value tt
      → init_database world a ≡ (
        ok tt,
        record a {
          db = true;
          redis_conn = true;
          repos = true;
          pool_open = true;
          redis_open = true;
        },
      )
  unfolding init_database new_wpgx_pool init_cache ◌>>=◌
  database_step pool primary replicas cache = ground (arith, pool, primary, replicas, cache)

  pub chains_step :
      (cfg : Config) (m : List (ℕ × C)) (closed : List C) (main : C)
      → a.cfg ≡ some cfg
      → new_manager world.hex_to_address world.new_client world.close_client cfg.chains
        ≡ (ok m, closed)
      → get_mainnet_client world.hex_to_address world.new_client world.close_client m ≡ ok main
      → init_chain_manager_and_mainnet_client world a ≡ (
        ok tt,
        record a {
          chain_manager = some m;
          mainnet_client = some main;
          clients_open = clients world.hex_to_address world.new_client world.close_client m;
        },
      )
  unfolding init_chain_manager_and_mainnet_client ◌>>=◌
  chains_step cfg m closed main there made found = ground (arith, there, made, found)

  pub file_step :
      (json : Bytes) (key : ℕ)
      → a.is_key_path ≡ true
      → str_eq a.signing_key_path "" ≡ false
      → world.read_file a.signing_key_path ≡ Reply.value json
      → world.decrypt_key json a.password ≡ Reply.value key
      → init_signer world a ≡ (ok tt, record a { signer = some key })
  unfolding init_signer new_local_signer key_of_file key_of_hex ◌>>=◌
  file_step json key is_path path read opens = ground (arith, is_path, path, read, opens)

  pub hex_step :
      (bytes : Bytes) (key : ℕ)
      → a.is_key_path ≡ false
      → str_eq a.signing_key_priv "" ≡ false
      → world.decode_hex (trim_0x world a.signing_key_priv) ≡ Reply.value bytes
      → world.to_ecdsa bytes ≡ Reply.value key
      → init_signer world a ≡ (ok tt, record a { signer = some key })
  unfolding init_signer new_local_signer key_of_file key_of_hex ◌>>=◌
  hex_step bytes key is_path path decodes fits = ground (arith, is_path, path, decodes, fits)

  pub listener_step :
      (main : C)
      → a.repos ≡ true
      → a.mainnet_client ≡ some main
      → init_event_listener world a
        ≡ (ok tt, record a { services = Service.event_listener ∷ a.services })
  unfolding init_event_listener new_event_listener ◌>>=◌
  listener_step main repos client = ground (arith, repos, client)

  pub gater_step : a.repos ≡ true → init_gater world a ≡ (ok tt, record a { gater = true })
  unfolding init_gater new_connection_gater ◌>>=◌
  gater_step repos = ground (arith, repos)

  pub node_step :
      (cfg : Config) (key : ℕ) (bootstrap : List String) (peers : PeerHost)
      → a.cfg ≡ some cfg
      → world.base64_to_priv_key a.p2p_key ≡ Reply.value key
      → world.new_host cfg.p2p.port key ≡ Reply.value tt
      → get_bootstrap_peers world.addr_info_from_string cfg.p2p.bootstrap_peers ≡ ok bootstrap
      → new_node world.network
          (record { has_host = true; bootstrap_peers = bootstrap; rendezvous = cfg.p2p.rendezvous })
          (record a.peers { host_open = true })
        ≡ (ok tt, peers)
      → init_node world a ≡ (ok tt, record a { host = true; node = true; peers = peers })
  unfolding init_node on_peers ◌>>=◌
  node_step cfg key bootstrap peers there decoded opened found made =
      ground (arith, there, decoded, opened, found, made)

  pub updator_step :
      (main : C)
      → a.repos ≡ true
      → a.mainnet_client ≡ some main
      → init_epoch_updator world a
        ≡ (ok tt, record a { epoch_updator = true; services = Service.epoch_updator ∷ a.services })
  unfolding init_epoch_updator new_epoch_updator ◌>>=◌
  updator_step main repos client = ground (arith, repos, client)

  pub processor_step :
      (key : ℕ) (m : List (ℕ × C))
      → world.new_gossip_sub ≡ Reply.value tt
      → world.join ≡ Reply.value tt
      → world.subscribe ≡ Reply.value tt
      → a.repos ≡ true
      → a.signer ≡ some key
      → a.epoch_updator ≡ true
      → a.chain_manager ≡ some m
      → init_task_processor world a ≡ (
        ok tt,
        record a { task_processor = true; services = Service.task_processor ∷ a.services },
      )
  unfolding init_task_processor new_task_processor start_task_processor ◌>>=◌
  processor_step key m gossip join subscribe repos signer epochs chains =
      ground (arith, gossip, join, subscribe, repos, signer, epochs, chains)

  pub api_step :
      (cfg : Config) (m : List (ℕ × C))
      → a.cfg ≡ some cfg
      → a.repos ≡ true
      → a.task_processor ≡ true
      → a.chain_manager ≡ some m
      → init_api world a ≡ (ok tt, record a { services = Service.api_server ∷ a.services })
  unfolding init_api new_handler ◌>>=◌
  api_step cfg m there repos processor chains = ground (arith, there, repos, processor, chains)

  pub health_step :
      a.node ≡ true
      → init_health_checker world a ≡ (ok tt, record a { services = other_services a.services })
  unfolding init_health_checker new_health_checker stop_health_checker ◌>>=◌
  health_step node = ground (arith, node)

  -- The clients of a manager that lacks the main chain stay open, and the manager is not kept.
  pub chains_failure :
      (cfg : Config) (m : List (ℕ × C)) (closed : List C) (e : Error)
      → a.cfg ≡ some cfg
      → new_manager world.hex_to_address world.new_client world.close_client cfg.chains
        ≡ (ok m, closed)
      → get_mainnet_client world.hex_to_address world.new_client world.close_client m ≡ err e
      → init_chain_manager_and_mainnet_client world a ≡ (
        err (wrapped "failed to create mainnet client" e),
        record a {
          clients_open = clients world.hex_to_address world.new_client world.close_client m;
        },
      )
  unfolding init_chain_manager_and_mainnet_client ◌>>=◌
  chains_failure cfg m closed e there made missing = ground (arith, there, made, missing)
