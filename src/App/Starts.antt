-- ===== src/App/Starts.antt =====
-- `Run` where everything that it calls outside of the repository succeeds.
use spotted_network.Base.{◌≡◌, refl, ◌∙◌, ap, String, Bool, true, false, some, List, [], ◌∷◌}
use spotted_network.Base.Outcome.{ok, ◌>>=◌}
use spotted_network.Chains.{clients}
use spotted_network.Discovery.{NodeConfig, PeerHost, new_node}
use spotted_network.Discovery.Life.{made_node}
use spotted_network.App.{World, App, Service}
use spotted_network.App.Parts.{other_services}
use spotted_network.App.Init.{
  store_parameters, init_signer, in_order, run_steps, run, init_epoch_updator, init_task_processor,
  init_api, init_health_checker,
}
use spotted_network.App.Works.{fresh_peers, new_app, Works}
use spotted_network.App.Stages.{
  Done, all_done, next, in_order-Done, config_step, metrics_step, file_step, hex_step,
  database_step, chains_step, listener_step, gater_step, node_step, updator_step, processor_step,
  api_step, health_step,
}

module _ {C : Type 0} (world : World C) where
  module _ (is_key_path : Bool) (signing_key p2p_key password : String)
      (w : Works world is_key_path signing_key p2p_key password) where
    abbrev pub node_config : NodeConfig
    node_config = record {
      has_host = true;
      bootstrap_peers = w.bootstrap;
      rendezvous = w.begins.config.p2p.rendezvous;
    }

    -- The application when `Run` waits.
    abbrev pub waiting : App C → App C
    waiting a = record a {
      cfg = some w.begins.config;
      signer = some w.begins.key;
      chain_manager = some w.begins.manager;
      mainnet_client = some w.main;
      db = true;
      redis_conn = true;
      repos = true;
      host = true;
      node = true;
      gater = true;
      task_processor = true;
      epoch_updator = true;
      pool_open = true;
      redis_open = true;
      clients_open =
          clients world.hex_to_address world.new_client world.close_client w.begins.manager;
      peers = (new_node world.network node_config (record fresh_peers { host_open = true })).1;
      services =
          Service.api_server ∷ Service.task_processor ∷ Service.epoch_updator
          ∷ Service.event_listener ∷ Service.metric_server ∷ [];
    }

    node_made :
        new_node world.network node_config (record fresh_peers { host_open = true })
        ≡ (ok tt, (new_node world.network node_config (record fresh_peers { host_open = true })).1)
    node_made =
        let h : PeerHost = record fresh_peers { host_open = true } in
        let made = made_node world.network node_config h refl refl refl w.named w.table w.boots in
        ap (λ r. (r, (new_node world.network node_config h).1)) made.0

    -- The application after the first two steps.
    abbrev pub measured : App C → App C
    measured a = record a {
      cfg = some w.begins.config;
      services = Service.metric_server ∷ a.services;
    }

    -- The application once the clients of the chains are there.
    abbrev linked : App C → App C
    linked a = record (measured a) {
      signer = some w.begins.key;
      db = true;
      redis_conn = true;
      repos = true;
      pool_open = true;
      redis_open = true;
      chain_manager = some w.begins.manager;
      mainnet_client = some w.main;
      clients_open =
          clients world.hex_to_address world.new_client world.close_client w.begins.manager;
    }

    -- The application once its node runs.
    abbrev joined : App C → App C
    joined a = record (linked a) {
      services = Service.event_listener ∷ (linked a).services;
      gater = true;
      host = true;
      node = true;
      peers = (new_node world.network node_config (record fresh_peers { host_open = true })).1;
    }

    abbrev serving : App C → App C
    serving a = record (joined a) {
      epoch_updator = true;
      task_processor = true;
      services =
          Service.api_server ∷ Service.task_processor ∷ Service.epoch_updator ∷ (joined a).services;
    }

    -- The last four steps of `Run`.
    last_steps :
        (a : App C)
        → Done
            ((init_epoch_updator world, "failed to initialize epoch updator")
              ∷ (init_task_processor world, "failed to initialize task processor")
              ∷ (init_api world, "failed to initialize API")
              ∷ (init_health_checker world, "failed to initialize health checker")
              ∷ [])
            (joined a)
            (record (serving a) { services = other_services (serving a).services })
    last_steps a =
        let a8 : App C = record (joined a) {
          epoch_updator = true;
          services = Service.epoch_updator ∷ (joined a).services;
        } in
        let a9 : App C = record a8 {
          task_processor = true;
          services = Service.task_processor ∷ a8.services;
        } in
        next (updator_step world (joined a) w.main refl refl) (
          next
            (processor_step world a8 w.begins.key w.begins.manager w.gossip w.joins w.subscribes
              refl refl refl refl)
            (next (api_step world a9 w.begins.config w.begins.manager refl refl refl refl)
              (next (health_step world (serving a) refl) all_done)))

    -- The steps one after another, from the stored parameters.
    steps :
        (a : App C)
        → a.p2p_key ≡ p2p_key
        → a.services ≡ []
        → a.peers ≡ fresh_peers
        → init_signer world (measured a)
          ≡ (ok tt, record (measured a) { signer = some w.begins.key })
        → in_order world (run_steps world) a ≡ (ok tt, waiting a)
    unfolding run_steps
    steps a p2p idle apart signed =
        let a1 : App C = record a { cfg = some w.begins.config } in
        let a2 : App C = record (measured a) { signer = some w.begins.key } in
        let a3 : App C = record a2 {
          db = true;
          redis_conn = true;
          repos = true;
          pool_open = true;
          redis_open = true;
        } in
        let a5 : App C = record (linked a) {
          services = Service.event_listener ∷ (linked a).services;
        } in
        let made =
          node_step world (record a5 { gater = true }) w.begins.config w.identity w.bootstrap
            (joined a).peers refl (rw p2p w.decoded) w.listens w.bootstraps (rw apart node_made) in
        let linking =
          chains_step world a3 w.begins.config w.begins.manager w.begins.closed w.main refl
            w.begins.made w.found in
        let opening =
          database_step world a2 w.begins.pool w.begins.primary w.begins.replicas w.begins.cache in
        let from_chains = next linking (
          next (listener_step world (linked a) w.main refl refl)
            (next (gater_step world a5 refl) (next made (last_steps a)))) in
        let first = next (config_step world a w.begins.config w.begins.parsed w.begins.valid) (
          next (metrics_step world a1 w.begins.config refl)
            (next signed (next opening from_chains))) in
        in_order-Done world first
        ∙ ap (λ l. (ok tt, record (serving a) { services = running l })) idle
      where
        running : List Service → List Service
        running l =
            Service.api_server
            ∷ Service.task_processor
            ∷ Service.epoch_updator
            ∷ Service.event_listener
            ∷ Service.metric_server
            ∷ other_services l

  pub run_lem :
      (is_key_path : Bool) (signing_key p2p_key password : String)
      (w : Works world is_key_path signing_key p2p_key password)
      → run world is_key_path signing_key p2p_key password new_app ≡ (
        ok tt,
        waiting is_key_path signing_key p2p_key password w
            (store_parameters world is_key_path signing_key p2p_key password new_app),
      )
  unfolding run ◌>>=◌
  run_lem true path p2p_key password w =
      let a : App C = store_parameters world true path p2p_key password new_app in
      let (given, (json, read, opens)) = w.begins.reads in
      steps true path p2p_key password w a refl refl refl (
        file_step world (measured true path p2p_key password w a) json w.begins.key refl given read
          opens)
  run_lem false digits p2p_key password w =
      let a : App C = store_parameters world false digits p2p_key password new_app in
      let (given, (bytes, decodes, fits)) = w.begins.reads in
      steps false digits p2p_key password w a refl refl refl (
        hex_step world (measured false digits p2p_key password w a) bytes w.begins.key refl given
          decodes fits)
