-- ===== src/Gater.antt =====
-- The connection gater: pkg/operator/gater. The peers that it is asked about are texts, and the
-- tests of an address (`validateBasicAddr`) are left out with the library that parses it. What the
-- caches in front of its two queries hold is an answer of the world (Node).
pub mod Permission
mod Tests
use spotted_network.Base.{String, Bool, true, false, Option, none, some, if◌then◌else◌}
use spotted_network.Base.Outcome.{Outcome, ok, ◌>>=◌, ◌>>◌, pure, or_wrap, lift, handle}
use spotted_network.Node.{Node, Env, Step, cached, query, read, write}
use spotted_network.Peer.{peer_id_to_p2p_key}
use spotted_network.Repo.Operators.{Operator, get_operator_by_p2p_key}
use spotted_network.Repo.Blacklist.{
  IncrementViolationCountParams, is_blocked, increment_violation_count, unblock_node,
}

-- The answer for a pointer that may be nil.
abbrev pub is_true : Option Bool → Bool
is_true none = false
is_true (some b) = b

-- The answer for an operator that may be nil.
abbrev pub active : Option Operator → Bool
active none = false
active (some o) = o.is_active

module _ (env : Env) where
  -- The repository's `IsBlocked`, with its cache
  unfoldable pub is_blocked_cached : String → Step (Option Bool)
  is_blocked_cached peer =
      cached (env.blocked_cached peer)
        (query env (λ now n. (ok (some (is_blocked peer now n.blacklist)), n)))

  -- `isBlocked`
  unfoldable pub peer_is_blocked : String → Step Bool
  unfolding is_blocked_cached
  peer_is_blocked peer = do blocked ← is_blocked_cached peer; pure (is_true blocked)

  -- The repository's `GetOperatorByP2PKey`, with its cache
  unfoldable pub operator_by_p2p_key_cached : String → Step (Option Operator)
  operator_by_p2p_key_cached p2p_key =
      cached (env.operator_cached p2p_key)
        (read env (λ n. get_operator_by_p2p_key env.lower p2p_key n.operators))

  -- `isActiveOperator`
  unfoldable pub is_active_operator : String → Step Bool
  unfolding operator_by_p2p_key_cached
  is_active_operator peer = do
    p2p_key ← or_wrap (lift (peer_id_to_p2p_key env peer)) "failed to convert peerID to p2p key"
    found ← operator_by_p2p_key_cached p2p_key
    pure (active found)

  -- The second test of `checkPeerPermission`.
  unfoldable pub permit_active : String → Step Bool
  permit_active peer = handle (is_active_operator peer) pure (λ _. pure false)

  -- `checkPeerPermission`, which `InterceptPeerDial`, `InterceptAddrDial` and `InterceptSecured`
  -- return
  unfoldable pub check_peer_permission : String → Step Bool
  unfolding permit_active
  check_peer_permission peer =
      handle (peer_is_blocked peer) (λ blocked. if blocked then pure false else permit_active peer)
        (λ _. pure false)

  -- `IncrementViolationCount` of the gater
  unfoldable pub add_violations : IncrementViolationCountParams → Step (Unit {0})
  add_violations p =
      write env λ now n. record n { blacklist = (increment_violation_count p now n.blacklist).1 }

  -- `UnblockNode` of the gater
  unfoldable pub unblock : String → Step (Unit {0})
  unblock peer = write env λ now n. record n { blacklist = unblock_node peer n.blacklist }
