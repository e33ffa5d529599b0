-- ===== src/App/Tests.antt =====
-- A world in which everything succeeds, with the main chain configured, and one without it.
use spotted_network.Base.{ℕ, ◌≡◌, refl, true, false, some, [], ◌∷◌, ◌==◌}
use spotted_network.Base.Int.{pos}
use spotted_network.Base.Outcome.{message, wrapped, Reply, ok, err}
use spotted_network.Config.{
  Float64, Config, ChainConfig, validate, check_chains, check_chain, check_contracts, check_p2p,
  check_peers_config, get_bootstrap_peers,
}
use spotted_network.Chains.{
  new_manager, connect, set_at, at, get_mainnet_client, get_client_by_chain_id,
}
use spotted_network.Discovery.{Network}
use spotted_network.Discovery.Life.{Alive}
use spotted_network.App.{World, Service}
use spotted_network.App.Init.{run, shutdown}
use spotted_network.App.Works.{new_app, Begins, Works}
use spotted_network.App.Releases.{Released, run-Released, run-missing}

abbrev network : Network
network = record {
  self = "me";
  dial = λ i p. Reply.value tt;
  connected = λ i p. true;
  timed_out = λ i. false;
  context_error = message "context deadline exceeded";
  new_dht = λ i peers. Reply.value tt;
  bootstrap = λ i. Reply.value tt;
  advertise = λ i r. Reply.fault (message "no peers");
  find_peers = λ i r. Reply.value [];
  close_dht = λ i. Reply.value tt;
  close_host = λ i. Reply.value tt;
}

abbrev chain : ChainConfig
chain = record {
  rpc = "http://node";
  contracts = record { registry = "a"; epoch_manager = "b"; state_manager = "c" };
  required_confirmations = 3;
  average_block_time = Float64.finite (pos 3) (pos 2);
}

abbrev config : ℕ → Config
config chain_id = record {
  chains = (chain_id, some chain) ∷ [];
  p2p = record { port = pos 4001; bootstrap_peers = []; rendezvous = "room" };
}

-- A client is the number of its chain.
abbrev world : ℕ → World ℕ
world chain_id = record {
  parse_config = λ path. Reply.value (config chain_id);
  read_file = λ path. Reply.value [];
  decrypt_key = λ json password. Reply.value 5;
  decode_hex = λ s. Reply.value (5 ∷ []);
  to_ecdsa = λ b. Reply.value 5;
  base64_to_priv_key = λ s. Reply.value 6;
  new_pool = Reply.value tt;
  ping_primary = Reply.value tt;
  ping_replicas = Reply.value tt ∷ [];
  new_dcache = Reply.value tt;
  hex_to_address = λ s. [];
  new_client = λ c. Reply.value c.chain_id;
  close_client = λ c. Reply.value tt;
  addr_info_from_string = λ s. Reply.value s;
  new_host = λ port key. Reply.value tt;
  network = network;
  new_gossip_sub = Reply.value tt;
  join = Reply.value tt;
  subscribe = Reply.value tt;
}

is_valid :
    (chain_id : ℕ)
    → (chain_id == 1) ≡ false
    → validate (world chain_id).addr_info_from_string (config chain_id) ≡ ok tt
unfolding validate check_chains check_chain check_contracts check_p2p check_peers_config
is_valid chain_id other = rw other refl

one_client :
    (chain_id : ℕ)
    → let w = world chain_id in
      new_manager w.hex_to_address w.new_client w.close_client (config chain_id).chains
      ≡ (ok ((chain_id, chain_id) ∷ []), [])
unfolding new_manager connect set_at
one_client chain_id = refl

abbrev begins : (chain_id : ℕ) → (chain_id == 1) ≡ false → Begins (world chain_id) false "0xab" ""
begins chain_id other = record {
  config = config chain_id;
  parsed = refl;
  valid = is_valid chain_id other;
  key = 5;
  reads = (refl, (5 ∷ [], refl, refl));
  pool = refl;
  primary = refl;
  replicas = refl;
  cache = refl;
  manager = (chain_id, chain_id) ∷ [];
  closed = [];
  made = one_client chain_id;
}

has_main :
    let w = world 11155111 in
    get_mainnet_client w.hex_to_address w.new_client w.close_client ((11155111, 11155111) ∷ [])
    ≡ ok 11155111
unfolding get_mainnet_client get_client_by_chain_id at
has_main = refl

lacks_main :
    let w = world 137 in
    get_mainnet_client w.hex_to_address w.new_client w.close_client ((137, 137) ∷ [])
    ≡ err (message "chain not found")
unfolding get_mainnet_client get_client_by_chain_id at
lacks_main = refl

no_peers :
    get_bootstrap_peers (world 11155111).addr_info_from_string (config 11155111).p2p.bootstrap_peers
    ≡ ok []
unfolding get_bootstrap_peers
no_peers = refl

abbrev works : Works (world 11155111) false "0xab" "key" ""
works = record {
  begins = begins 11155111 refl;
  main = 11155111;
  found = has_main;
  identity = 6;
  decoded = refl;
  listens = refl;
  bootstrap = [];
  bootstraps = no_peers;
  named = refl;
  table = refl;
  boots = refl;
  gossip = refl;
  joins = refl;
  subscribes = refl;
}

run-Released_example :
    let end = run (world 11155111) false "0xab" "key" "" new_app in
    (end.0 ≡ ok tt)
    × (end.1.services
        ≡ Service.api_server ∷ Service.task_processor ∷ Service.epoch_updator
          ∷ Service.event_listener ∷ Service.metric_server ∷ [])
    × Alive network end.1.peers
    × Released (world 11155111) (shutdown (world 11155111) end.1).1
run-Released_example = run-Released (world 11155111) false "0xab" "key" "" works

run-missing_example :
    let end = run (world 137) false "0xab" "key" "" new_app in
    (end.0
      ≡ err (
          wrapped "failed to initialize chain manager and mainnet client"
            (wrapped "failed to create mainnet client" (message "chain not found"))))
    × ((shutdown (world 137) end.1).1.clients_open ≡ 137 ∷ [])
run-missing_example =
    run-missing (world 137) false "0xab" "key" "" (begins 137 refl) (message "chain not found")
      lacks_main
