-- ===== src/System/Memory.antt =====
-- The steps that touch neither tasks nor messages keep every stable property.
use spotted_network.Base.{String}
use spotted_network.Base.Outcome.{modify}
use spotted_network.Base.Keeps.{Keeps, keeps_rules}
use spotted_network.Node.{ticked, Node, Env}
use spotted_network.Node.Rules.{Keeps-cached, Keeps-query}
use spotted_network.Repo.Blacklist.{IncrementViolationCountParams}
use spotted_network.Task.Check.{periodic_cleanup}
use spotted_network.Gater.{
  is_blocked_cached, operator_by_p2p_key_cached, peer_is_blocked, is_active_operator, permit_active,
  check_peer_permission, add_violations, unblock,
}
use spotted_network.Event.{
  Event, registered, deregistered, upsert, set_exit_epoch, handle_operator_registered,
  handle_operator_deregistered, handle_event,
}
use spotted_network.System.Stable.{Stable, ticks}

module _ {env : Env} {P : Node → Type 0} (s : Stable env P) where
  one : (n : Node) → P n → P (ticked n)
  one = ticks s

  pub periodic_cleanup_kept : Keeps P (periodic_cleanup env)
  unfolding periodic_cleanup modify
  periodic_cleanup_kept = record { at = s.empties }

  pub handle_event_kept : (e : Event) → Keeps P (handle_event env e)
  unfolding handle_event handle_operator_registered handle_operator_deregistered upsert
      set_exit_epoch
  handle_event_kept (registered e) = search (keeps_rules, Keeps-query, one, s.operators) depth 14
  handle_event_kept (deregistered e) = search (keeps_rules, Keeps-query, one, s.operators) depth 14

  pub check_peer_permission_kept : (peer : String) → Keeps P (check_peer_permission env peer)
  unfolding check_peer_permission permit_active is_active_operator peer_is_blocked is_blocked_cached
      operator_by_p2p_key_cached
  check_peer_permission_kept peer = search (keeps_rules, Keeps-cached, Keeps-query, one) depth 14

  pub add_violations_kept : (p : IncrementViolationCountParams) → Keeps P (add_violations env p)
  unfolding add_violations
  add_violations_kept p = search (keeps_rules, Keeps-query, one, s.blacklist) depth 14

  pub unblock_kept : (peer : String) → Keeps P (unblock env peer)
  unfolding unblock
  unblock_kept peer = search (keeps_rules, Keeps-query, one, s.blacklist) depth 14
