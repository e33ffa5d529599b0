-- ===== src/App/Releases.antt =====
-- What runs once `Run` waits, and what `Shutdown` releases.
use spotted_network.Base.{
  ℕ, inl, inr, ◌≡◌, refl, ap, String, Bool, true, false, some, List, [], ◌∷◌, arith,
}
use spotted_network.Base.Outcome.{Error, err, wrapped, ok, ◌>>=◌, handle}
use spotted_network.Discovery.{PeerHost}
use spotted_network.Discovery.Life.{Alive, Stopped, made_node, stop_node-Stopped, stop_node_returns}
use spotted_network.App.{World, App, Service}
use spotted_network.Chains.{get_mainnet_client, clients}
use spotted_network.App.Init.{
  on_peers, in_order, init_signer, store_parameters, run_steps, run, shutdown,
}
use spotted_network.App.Works.{fresh_peers, new_app, Begins, Works}
use spotted_network.App.Starts.{node_config, run_lem}
use spotted_network.App.Stages.{
  fails, after, in_order-Failed, config_step, metrics_step, database_step, file_step, hex_step,
  chains_failure,
}

module _ {C : Type 0} (world : World C) where
  -- Nothing that `Run` opens is open.
  abbrev pub Released : App C → Type 0
  Released a =
      (a.pool_open ≡ false)
      × (a.redis_open ≡ false)
      × (a.clients_open ≡ [])
      × Stopped world.network a.peers

  shutdown-Released :
      (a : App C) (m : List (ℕ × C))
      → a.db ≡ true
      → a.redis_conn ≡ true
      → a.node ≡ true
      → a.chain_manager ≡ some m
      → Released (shutdown world a).1
  unfolding shutdown on_peers ◌>>=◌ handle
  shutdown-Released a m db redis node chains =
      let s = stop_node-Stopped world.network a.peers in
      elim (stop_node_returns world.network a.peers) [
        | inl fine ↦ ground (arith, db, redis, node, chains, s.0, s.1, s.2, fine)
        | inr (e, failed) ↦ ground (arith, db, redis, node, chains, s.0, s.1, s.2, failed)
      ]

  -- Where everything that it calls outside of the repository succeeds, for a valid configuration that
  -- has the main chain, `Run` comes to its wait: no component is missing to another. Then the
  -- metric server, the listener, the epoch updator, the task processor, the API and all four loops of
  -- the node are running, and the health checker is not. `Shutdown` then releases the pool, the
  -- connection of the cache, the clients of the chains, and the node's loops, table and host.
  pub run-Released :
      (is_key_path : Bool) (signing_key p2p_key password : String)
      → Works world is_key_path signing_key p2p_key password
      → let end = run world is_key_path signing_key p2p_key password new_app in
        (end.0 ≡ ok tt)
        × (end.1.services
            ≡ Service.api_server ∷ Service.task_processor ∷ Service.epoch_updator
              ∷ Service.event_listener ∷ Service.metric_server ∷ [])
        × Alive world.network end.1.peers
        × Released (shutdown world end.1).1
  run-Released is_key_path signing_key p2p_key password w =
      let h : PeerHost = record fresh_peers { host_open = true } in
      let config = node_config world is_key_path signing_key p2p_key password w in
      rw (run_lem world is_key_path signing_key p2p_key password w) (
        refl,
        refl,
        (made_node world.network config h refl refl refl w.named w.table w.boots).1,
        shutdown-Released _ w.begins.manager refl refl refl refl,
      )

  -- The steps before the clients of the chains, and then a manager that lacks the main chain.
  main_missing :
      (is_key_path : Bool) (signing_key p2p_key password : String)
      (b : Begins world is_key_path signing_key password) (e : Error) (a : App C)
      → get_mainnet_client world.hex_to_address world.new_client world.close_client b.manager
        ≡ err e
      → init_signer world
          (record a { cfg = some b.config; services = Service.metric_server ∷ a.services })
        ≡ (
          ok tt,
          record a {
            cfg = some b.config;
            services = Service.metric_server ∷ a.services;
            signer = some b.key;
          },
        )
      → in_order world (run_steps world) a ≡ (
        err (
            wrapped "failed to initialize chain manager and mainnet client"
              (wrapped "failed to create mainnet client" e)),
        record a {
          cfg = some b.config;
          services = Service.metric_server ∷ a.services;
          signer = some b.key;
          db = true;
          redis_conn = true;
          repos = true;
          pool_open = true;
          redis_open = true;
          clients_open = clients world.hex_to_address world.new_client world.close_client b.manager;
        },
      )
  unfolding run_steps
  main_missing is_key_path signing_key p2p_key password b e a missing signed =
      let a1 : App C = record a { cfg = some b.config } in
      let a2 : App C = record a1 {
        services = Service.metric_server ∷ a.services;
        signer = some b.key;
      } in
      let a3 : App C = record a2 {
        db = true;
        redis_conn = true;
        repos = true;
        pool_open = true;
        redis_open = true;
      } in
      in_order-Failed world (
        after (config_step world a b.config b.parsed b.valid) (
          after (metrics_step world a1 b.config refl) (
            after signed (
              after (database_step world a2 b.pool b.primary b.replicas b.cache) (
                fails (wrapped "failed to create mainnet client" e)
                  (chains_failure world a3 b.config b.manager b.closed e refl b.made missing)
                  refl)))))

  -- Where the configuration, the key, the database and the clients of the chains are made, but the main
  -- chain is not among the chains: `Run` fails, and `Shutdown` after it closes no client of a chain.
  pub run-missing :
      (is_key_path : Bool) (signing_key p2p_key password : String)
      (b : Begins world is_key_path signing_key password) (e : Error)
      → get_mainnet_client world.hex_to_address world.new_client world.close_client b.manager
        ≡ err e
      → let end = run world is_key_path signing_key p2p_key password new_app in
        (end.0
          ≡ err (
              wrapped "failed to initialize chain manager and mainnet client"
                (wrapped "failed to create mainnet client" e)))
        × ((shutdown world end.1).1.clients_open
            ≡ clients world.hex_to_address world.new_client world.close_client b.manager)
  unfolding run shutdown ◌>>=◌
  run-missing true path p2p_key password b e missing =
      let a : App C = store_parameters world true path p2p_key password new_app in
      let (given, (json, read, opens)) = b.reads in
      let failed =
        main_missing true path p2p_key password b e a missing
          (file_step world _ json b.key refl given read opens) in
      (ap (λ r. r.0) failed, ap (λ r. (shutdown world r.1).1.clients_open) failed)
  run-missing false digits p2p_key password b e missing =
      let a : App C = store_parameters world false digits p2p_key password new_app in
      let (given, (bytes, decodes, fits)) = b.reads in
      let failed =
        main_missing false digits p2p_key password b e a missing
          (hex_step world _ bytes b.key refl given decodes fits) in
      (ap (λ r. r.0) failed, ap (λ r. (shutdown world r.1).1.clients_open) failed)
