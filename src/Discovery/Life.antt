-- ===== src/Discovery/Life.antt =====
-- Who a tick of the discovery dials, and what a node runs and holds from `NewNode` to `Stop`.
use spotted_network.Base.{
  ◌+◌, ◌≡◌, refl, ap, sym, ◌∙◌, ◌⊎◌, inl, inr, String, true, false, List, [], ◌∷◌, ◌++◌, arith,
  str_eq, Bool-cases, if◌then◌else◌,
}
use mathlib.Core.List.{append_assoc, append-nil}
use spotted_network.Base.Outcome.{
  Error, message, wrapped, Reply, Reply-cases, ok, err, ◌>>=◌, handle, for_each,
}
use spotted_network.Discovery.{
  Network, Loop, PeerHost, NodeConfig, host_connect, meet, discover_peers, host_request, init_dht,
  start_peer_discovery, new_node, stop_node,
}

module _ (net : Network) where
  -- The peers that are not the node itself
  abbrev pub others : List String → List String
  others [] = []
  others (p ∷ ps) = if str_eq p net.self then others ps else p ∷ others ps

  each_met :
      (ps : List String) (h : PeerHost)
      → ((for_each ps (meet net) h).0 ≡ ok tt)
        × ((for_each ps (meet net) h).1.dialled ≡ h.dialled ++ others ps)
  unfolding for_each meet host_connect handle ◌>>=◌
  each_met [] h = (refl, sym (append-nil h.dialled))
  each_met (p ∷ ps) h = elim (Bool-cases (str_eq p net.self)) [
    | inl self ↦ rw self (each_met ps h)
    | inr other ↦
        let mid : PeerHost = record h { dialled = h.dialled ++ p ∷ []; calls = h.calls + 1 } in
        let rest = each_met ps mid in
        let step : for_each (p ∷ ps) (meet net) h ≡ for_each ps (meet net) mid =
          elim (Reply-cases (net.dial h.calls p)) [
            | inl (_, up) ↦ ground (arith, other, up)
            | inr (e, down) ↦ ground (arith, other, down)
          ] in
        rw (step, other) (rest.0, rest.1 ∙ append_assoc h.dialled (p ∷ []) (others ps))
  ]

  -- A tick of the discovery ends without an error. It dials the peers that were found, in order and
  -- each as often as it was found, but for the node itself, whether or not the ones before could be
  -- reached; and nobody if the search failed.
  pub discover_peers_lem :
      (rendezvous : String) (h : PeerHost)
      → let end = discover_peers net rendezvous h in
        (end.0 ≡ ok tt)
        × (((e : Error) × (net.find_peers h.calls rendezvous ≡ Reply.fault e)
              × (end.1.dialled ≡ h.dialled))
            ⊎ ((found : List String) × (net.find_peers h.calls rendezvous ≡ Reply.value found)
                × (end.1.dialled ≡ h.dialled ++ others found)))
  unfolding discover_peers host_request handle ◌>>=◌
  discover_peers_lem rendezvous h = elim (Reply-cases (net.find_peers h.calls rendezvous)) [
    | inr (e, down) ↦ (ground (arith, down), inl (e, down, ground (arith, down)))
    | inl (found, up) ↦
        let mid : PeerHost = record h { calls = h.calls + 1 } in
        let step : discover_peers net rendezvous h ≡ for_each found (meet net) mid =
          ground (arith, up) in
        let met = each_met found mid in
        (ap (λ r. r.0) step ∙ met.0, inr (found, up, ap (λ r. r.1.dialled) step ∙ met.1))
  ]

  -- Every loop of a node
  abbrev pub all_loops : List Loop
  all_loops =
      Loop.peer_info ∷ Loop.routing_table ∷ Loop.peer_discovery ∷ Loop.bootstrap_connections ∷ []

  -- What a node holds once it was made, and once it was stopped.
  abbrev pub Alive : PeerHost → Type 0
  Alive h = (h.running ≡ all_loops) × (h.dht_open ≡ true) × (h.host_open ≡ true)

  abbrev pub Stopped : PeerHost → Type 0
  Stopped h = (h.running ≡ []) × (h.dht_open ≡ false) × (h.host_open ≡ false)

  pub stop_node-Stopped : (h : PeerHost) → Stopped (stop_node net h).1
  unfolding stop_node host_request handle ◌>>=◌
  stop_node-Stopped h = elim (Reply-cases (net.close_dht h.calls)) [
    | inl (_, a) ↦ elim (Reply-cases (net.close_host (h.calls + 1))) [
      | inl (_, b) ↦ ground (arith, a, b)
      | inr (e, b) ↦ ground (arith, a, b)
    ]
    | inr (d, a) ↦ elim (Reply-cases (net.close_host (h.calls + 1))) [
      | inl (_, b) ↦ ground (arith, a, b)
      | inr (e, b) ↦ ground (arith, a, b)
    ]
  ]

  pub stop_node_returns :
      (h : PeerHost) → ((stop_node net h).0 ≡ ok tt) ⊎ ((e : Error) × ((stop_node net h).0 ≡ err e))
  unfolding stop_node host_request handle ◌>>=◌
  stop_node_returns h = elim (Reply-cases (net.close_dht h.calls)) [
    | inl (_, a) ↦ elim (Reply-cases (net.close_host (h.calls + 1))) [
      | inl (_, b) ↦ inl (ground (arith, a, b))
      | inr (e, b) ↦ inr (e, ground (arith, a, b))
    ]
    | inr (d, a) ↦ elim (Reply-cases (net.close_host (h.calls + 1))) [
      | inl (_, b) ↦ inl (ground (arith, a, b))
      | inr (e, b) ↦ inr (e, ground (arith, a, b))
    ]
  ]

  pub made_node :
      (cfg : NodeConfig) (h : PeerHost)
      → h.running ≡ []
      → h.host_open ≡ true
      → cfg.has_host ≡ true
      → str_eq cfg.rendezvous "" ≡ false
      → net.new_dht h.calls cfg.bootstrap_peers ≡ Reply.value tt
      → net.bootstrap (h.calls + 1) ≡ Reply.value tt
      → ((new_node net cfg h).0 ≡ ok tt) × Alive (new_node net cfg h).1
  unfolding new_node init_dht start_peer_discovery host_request handle ◌>>=◌
  made_node cfg h idle up host named made ready =
      elim (Reply-cases (net.advertise (h.calls + 2) cfg.rendezvous)) [
        | inr (e, down) ↦ ground (arith, host, named, made, ready, down)
        | inl (ttl, said) ↦ ground (arith, host, named, made, ready, said)
      ]

  -- On an open host with no loops, `NewNode` makes a node with all four loops and a table of peers, or
  -- it fails with no loop running and the host still open. `Stop` of a node that was made ends the
  -- loops and closes the table and the host, whatever closing them answers.
  pub new_node-Alive :
      (cfg : NodeConfig) (h : PeerHost)
      → h.running ≡ []
      → h.host_open ≡ true
      → let end = new_node net cfg h in
        ((end.0 ≡ ok tt) × Alive end.1 × Stopped (stop_node net end.1).1)
        ⊎ ((e : Error) × (end.0 ≡ err e) × (end.1.running ≡ []) × (end.1.host_open ≡ true))
  unfolding new_node init_dht start_peer_discovery stop_node host_request handle ◌>>=◌
  new_node-Alive cfg h idle up = elim (Bool-cases cfg.has_host) [
    | inr none ↦ inr (
      message "host is required",
      ground (arith, none),
      ground (arith, none),
      ground (arith, none),
    )
    | inl host ↦ elim (Bool-cases (str_eq cfg.rendezvous "")) [
      | inl empty ↦ inr (
        message "rendezvous string is required",
        ground (arith, host, empty),
        ground (arith, host, empty),
        ground (arith, host, empty),
      )
      | inr named ↦ elim (Reply-cases (net.new_dht h.calls cfg.bootstrap_peers)) [
        | inr (e, down) ↦ inr (
          wrapped "failed to initialize DHT" (wrapped "failed to create DHT" e),
          ground (arith, host, named, down),
          ground (arith, host, named, down),
          ground (arith, host, named, down),
        )
        | inl (_, made) ↦ elim (Reply-cases (net.bootstrap (h.calls + 1))) [
          | inr (e, down) ↦ inr (
            wrapped "failed to initialize DHT" (wrapped "failed to bootstrap DHT" e),
            ground (arith, host, named, made, down),
            ground (arith, host, named, made, down),
            ground (arith, host, named, made, down),
          )
          | inl (_, ready) ↦
              let all = made_node cfg h idle up host named made ready in
              inl (all.0, all.1, stop_node-Stopped (new_node net cfg h).1)
        ]
      ]
    ]
  ]
