-- ===== src/Discovery.antt =====
-- The node among its peers: pkg/operator/node/node.go. libp2p's host, its table of peers and its
-- discovery are an argument: what they answer to the n-th call. A tick of a loop is one action.
pub mod Rounds
pub mod Maintain
pub mod Life
mod Tests
use spotted_network.Base.{
  ℕ, zero, suc, ◌+◌, String, Bool, true, false, Option, none, some, List, [], ◌∷◌, ◌++◌, str_eq,
  if◌then◌else◌,
}
use spotted_network.Base.Outcome.{
  Error, message, wrapped, error_text, contains, Reply, Outcome, ok, err, Action, outcome, ◌>>=◌,
  ◌>>◌, pure, raise, or_wrap, handle, ignore, modify, gets, for_each, settle,
}

-- The first number is that of the call. `connected` is `len(ConnsToPeer(p)) > 0`, `timed_out` whether
-- the context of ten seconds is done; peers are named by their identifiers.
pub record Network : Type 0 where
  pub self : String
  pub dial : ℕ → String → Reply (Unit {0})
  pub connected : ℕ → String → Bool
  pub timed_out : ℕ → Bool
  pub context_error : Error
  pub new_dht : ℕ → List String → Reply (Unit {0})
  pub bootstrap : ℕ → Reply (Unit {0})
  pub advertise : ℕ → String → Reply ℕ
  pub find_peers : ℕ → String → Reply (List String)
  pub close_dht : ℕ → Reply (Unit {0})
  pub close_host : ℕ → Reply (Unit {0})

-- The goroutines of a node
pub data Loop : Type 0 where
  bootstrap_connections : Loop
  peer_discovery : Loop
  routing_table : Loop
  peer_info : Loop

-- What the node holds: whether its host and its table of peers are open, the loops of its context,
-- and the peers that it dialled.
pub record PeerHost : Type 0 where
  pub host_open : Bool
  pub dht_open : Bool
  pub running : List Loop
  pub dialled : List String
  pub calls : ℕ

abbrev pub Hosted : Type 0 → Type 0
Hosted = Action PeerHost

-- `node.Config`: the host may be nil
pub record NodeConfig : Type 0 where
  pub has_host : Bool
  pub bootstrap_peers : List String
  pub rendezvous : String

abbrev counted : PeerHost → PeerHost
counted h = record h { calls = h.calls + 1 }

unfoldable pub observe : {A : Type 0} → (ℕ → A) → Hosted A
observe f h = (ok (f h.calls), counted h)

unfoldable pub host_request : {A : Type 0} → (ℕ → Reply A) → Hosted A
host_request f h = (outcome (f h.calls), counted h)

module _ (net : Network) where
  -- `host.Connect`
  unfoldable pub host_connect : String → Hosted (Unit {0})
  host_connect peer h = (
    outcome (net.dial h.calls peer),
    record h { dialled = h.dialled ++ peer ∷ []; calls = h.calls + 1 },
  )

  -- The wait of `connectWithTimeout`, with the rounds left
  unfoldable pub wait_connected : ℕ → String → Hosted (Unit {0})
  unfolding observe
  wait_connected zero peer = raise (message "connection not established after timeout")
  wait_connected (suc left) peer =
      let again = wait_connected left peer in
      observe net.timed_out >>= λ over.
      if over
      then raise net.context_error
      else (observe (λ i. net.connected i peer) >>= λ there. if there then pure tt else again)

  abbrev pub dial_error : Error → Error
  dial_error e = if contains (error_text e) "failed to dial" then wrapped "failed to dial" e else e

  -- `connectWithTimeout`
  unfoldable pub connect_with_timeout : String → Hosted (Unit {0})
  unfolding host_connect wait_connected
  connect_with_timeout peer =
      handle (host_connect peer) (λ _. wait_connected 5 peer) (λ e. raise (dial_error e))

  -- The loop over the attempts of `maintainBootstrapConnections`, with the attempts left: an error
  -- is logged
  unfoldable pub attempts : ℕ → String → Hosted (Unit {0})
  unfolding connect_with_timeout
  attempts zero peer = pure tt
  attempts (suc left) peer =
      let again = attempts left peer in
      handle (connect_with_timeout peer) (λ _. pure tt) (λ _. again)

  -- One peer of a tick of `maintainBootstrapConnections`
  unfoldable pub reconnect : String → Hosted (Unit {0})
  unfolding observe attempts
  reconnect peer =
      observe (λ i. net.connected i peer) >>= λ there. if there then pure tt else attempts 3 peer

  -- A tick of `maintainBootstrapConnections`
  unfoldable pub maintain_bootstrap_connections : List String → Hosted (Unit {0})
  unfolding reconnect
  maintain_bootstrap_connections peers = for_each peers reconnect

  -- One peer that a tick of `discoverPeers` found
  unfoldable pub meet : String → Hosted (Unit {0})
  unfolding host_connect
  meet peer = if str_eq peer net.self then pure tt else ignore (host_connect peer)

  -- A tick of `discoverPeers`
  unfoldable pub discover_peers : String → Hosted (Unit {0})
  unfolding host_request meet
  discover_peers rendezvous =
      handle (host_request (λ i. net.find_peers i rendezvous)) (λ found. for_each found meet)
        (λ _. pure tt)

  abbrev pub start_loop : Loop → Hosted (Unit {0})
  start_loop loop = modify (λ h. record h { running = loop ∷ h.running })

  -- `initDHT`
  unfoldable pub init_dht : List String → Hosted (Unit {0})
  unfolding host_request
  init_dht peers = do
    or_wrap (host_request (λ i. net.new_dht i peers)) "failed to create DHT"
    modify (λ h. record h { dht_open = true })
    or_wrap (host_request net.bootstrap) "failed to bootstrap DHT"
    start_loop bootstrap_connections

  -- `startPeerDiscovery`: that the node cannot advertise itself is only logged
  unfoldable pub start_peer_discovery : String → Hosted (Unit {0})
  unfolding host_request
  start_peer_discovery rendezvous = do
    ignore (host_request (λ i. net.advertise i rendezvous))
    start_loop peer_discovery
    start_loop routing_table

  -- The context's `cancel` ends its loops.
  abbrev pub cancel : Hosted (Unit {0})
  cancel = modify (λ h. record h { running = [] })

  -- `NewNode`
  unfoldable pub new_node : NodeConfig → Hosted (Unit {0})
  unfolding init_dht start_peer_discovery
  new_node cfg =
      if cfg.has_host
      then (if str_eq cfg.rendezvous ""
          then raise (message "rendezvous string is required")
          else handle (init_dht cfg.bootstrap_peers)
              (λ _.
                handle (start_peer_discovery cfg.rendezvous) (λ _. start_loop peer_info)
                  (λ e. cancel >> raise (wrapped "failed to start peer discovery" e)))
              (λ e. cancel >> raise (wrapped "failed to initialize DHT" e)))
      else raise (message "host is required")

  -- `Stop` of a node that `NewNode` made: an error of the table is only logged
  unfoldable pub stop_node : Hosted (Unit {0})
  unfolding host_request
  stop_node = do
    cancel
    ignore (host_request net.close_dht)
    modify (λ h. record h { dht_open = false })
    r ← handle (host_request net.close_host) (λ _. pure none) (λ e. pure (some e))
    modify (λ h. record h { host_open = false })
    elim r [ none ↦ pure tt | some e ↦ raise e ]
