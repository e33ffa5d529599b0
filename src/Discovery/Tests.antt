-- ===== src/Discovery/Tests.antt =====
-- A network of three peers: one is connected, one can be dialled, and one cannot.
use spotted_network.Base.{◌≡◌, refl, ◌⊎◌, true, false, [], ◌∷◌, str_eq, if◌then◌else◌, leb}
use spotted_network.Base.Outcome.{Error, message, Reply, ok, err, for_each, handle, ◌>>=◌}
use spotted_network.Discovery.{
  Network, PeerHost, NodeConfig, maintain_bootstrap_connections, new_node, stop_node,
}
use spotted_network.Discovery.Maintain.{Maintained, maintain-Maintained}
use spotted_network.Discovery.Life.{Alive, Stopped, new_node-Alive}

abbrev net : Network
net = record {
  self = "me";
  dial = λ i p. if str_eq p "gone" then Reply.fault (message "failed to dial") else Reply.value tt;
  connected = λ i p. if str_eq p "near" then true else if str_eq p "gone" then false else leb 6 i;
  timed_out = λ i. false;
  context_error = message "context deadline exceeded";
  new_dht = λ i peers. Reply.value tt;
  bootstrap = λ i. Reply.value tt;
  advertise = λ i r. Reply.fault (message "no peers");
  find_peers = λ i r. Reply.value ("far" ∷ "me" ∷ "gone" ∷ []);
  close_dht = λ i. Reply.value tt;
  close_host = λ i. Reply.fault (message "busy");
}

abbrev idle : PeerHost
idle = record { host_open = true; dht_open = false; running = []; dialled = []; calls = 0 }

-- The peer that is connected is not dialled, the others are, until they are connected.
dials :
    (maintain_bootstrap_connections net ("near" ∷ "gone" ∷ "far" ∷ []) idle).1.dialled
    ≡ "gone" ∷ "gone" ∷ "gone" ∷ "far" ∷ []
unfolding maintain_bootstrap_connections for_each handle ◌>>=◌
dials = refl

maintain-Maintained_example :
    Maintained net
      ("near" ∷ "gone" ∷ "far" ∷ [])
      idle
      (maintain_bootstrap_connections net ("near" ∷ "gone" ∷ "far" ∷ []) idle)
maintain-Maintained_example = maintain-Maintained net ("near" ∷ "gone" ∷ "far" ∷ []) idle

abbrev config : NodeConfig
config = record { has_host = true; bootstrap_peers = "near" ∷ []; rendezvous = "room" }

new_node-Alive_example :
    let end = new_node net config idle in
    ((end.0 ≡ ok tt) × Alive net end.1 × Stopped net (stop_node net end.1).1)
    ⊎ ((e : Error) × (end.0 ≡ err e) × (end.1.running ≡ []) × (end.1.host_open ≡ true))
new_node-Alive_example = new_node-Alive net config idle refl refl
