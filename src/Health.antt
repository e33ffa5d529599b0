-- ===== src/Health.antt =====
-- The health check: pkg/operator/health/health.go, and the disconnection of a peer by
-- pkg/operator/node/disconnect.go. The libp2p host is an argument, with a state of its own; a ping is
-- numbered, so that a peer may answer differently later. Waiting and time-outs are part of the
-- answers. What a ping answers is the result that is received from its channel: where that is closed
-- without a result, this is the zero result, which has no error and a round trip of 0.
pub mod Alive
mod Tests
use spotted_network.Base.{ℕ, ◌+◌, String, Bool, true, false, not, List, if◌then◌else◌}
use spotted_network.Base.Maps.{Map, insert}
use spotted_network.Base.Outcome.{
  Error, Reply, Outcome, ok, err, outcome, message, Action, ◌>>=◌, ◌>>◌, pure, raise, gets, modify,
  handle, ignore, for_each,
}

-- What the code calls of a libp2p host.
pub record Host (H : Type 0) : Type 0 where
  pub peers : H → List String
  pub connected : String → H → Bool
  pub close_peer : String → H → Reply (Unit {0}) × H
  pub clear_addrs : String → H → H
  pub remove_peer : String → H → H

-- `healthChecker`, with the host of its node
pub record Checker (H : Type 0) : Type 0 where
  pub host : H
  pub peer_status : Map ℕ
  pub pings : ℕ

module _ {H : Type 0} (host : Host H) (ping : String → ℕ → Reply ℕ) where
  abbrev pub Check : Type 0 → Type 0
  Check = Action (Checker H)

  -- `cleanupPeerResources`
  abbrev pub cleanup : String → Checker H → Checker H
  cleanup peer c = record c { host = host.remove_peer peer (host.clear_addrs peer c.host) }

  unfoldable pub close_peer : String → Check (Unit {0})
  close_peer peer c = let (r, h) = host.close_peer peer c.host in (outcome r, record c { host = h })

  -- The last test of `closeConnection`
  unfoldable pub closed : String → Check (Unit {0})
  closed peer c =
      if host.connected peer c.host
      then (err (message "failed to close all connections to peer"), c)
      else (ok tt, c)

  -- `closeConnection`
  unfoldable pub close_connection : String → Check (Unit {0})
  close_connection peer c =
      if host.connected peer c.host
      then (close_peer peer >> modify (cleanup peer) >> closed peer) c
      else (ok tt, c)

  -- `DisconnectPeer`: an error is only logged
  unfoldable pub disconnect_peer : String → Check (Unit {0})
  disconnect_peer peer = ignore (close_connection peer) >> modify (cleanup peer)

  unfoldable pub send_ping : String → Check ℕ
  send_ping peer c = (outcome (ping peer c.pings), record c { pings = c.pings + 1 })

  -- `pingPeer`
  unfoldable pub ping_peer : String → Check (Unit {0})
  ping_peer peer = do
    rtt ← send_ping peer
    modify (λ c. record c { peer_status = insert peer rtt c.peer_status })

  -- One peer of `checkPeers`
  unfoldable pub check_peer : String → Check (Unit {0})
  check_peer peer = handle (ping_peer peer) (λ _. pure tt) (λ _. disconnect_peer peer)

  -- `checkPeers`, which each tick and `TriggerCheck` run
  unfoldable pub check_peers : Check (Unit {0})
  check_peers = do peers ← gets (λ c. host.peers c.host); for_each peers check_peer

  -- `GetStatus`
  unfoldable pub get_status : Check (Map ℕ)
  get_status = gets (λ c. c.peer_status)
