-- ===== src/System/Moves.antt =====
-- Every step keeps every stable property, and so does every run.
use spotted_network.Node.{Node, Env, Step}
use spotted_network.Updator.{MainnetClient}
use spotted_network.System.{Move, Reach}
use Reach.{here, later}
use Move.{
  received, timed, confirmed, cleaned, ticked_epoch, listened, requested, dialled, violated,
  unblocked,
}
use spotted_network.System.Stable.{Stable}
use spotted_network.System.Memory.{
  periodic_cleanup_kept, handle_event_kept, check_peer_permission_kept, add_violations_kept,
  unblock_kept,
}
use spotted_network.System.Epochs.{Contained, check_epoch_kept}
use spotted_network.System.Tasks.{check_timeouts_kept, check_confirmations_kept}
use spotted_network.System.Messages.{handle_message_kept}
use spotted_network.System.Requests.{send_request_kept}

module _ {env : Env} {P : Node → Type 0} (s : Stable env P) (main : MainnetClient)
    (transact : Step (Unit {0}) → Step (Unit {0})) (contained : Contained transact) where
  move_kept : {n m : Node} → P n → Move env main transact n m → P m
  move_kept {n} h (received decoded peer) = handle_message_kept s decoded peer n h
  move_kept {n} h timed = (check_timeouts_kept s).at n h
  move_kept {n} h confirmed = (check_confirmations_kept s).at n h
  move_kept {n} h cleaned = (periodic_cleanup_kept s).at n h
  move_kept {n} h ticked_epoch = (check_epoch_kept s main transact contained).at n h
  move_kept {n} h (listened e) = (handle_event_kept s e).at n h
  move_kept {n} h (requested method body) = (send_request_kept s method body).at n h
  move_kept {n} h (dialled peer) = (check_peer_permission_kept s peer).at n h
  move_kept {n} h (violated p) = (add_violations_kept s p).at n h
  move_kept {n} h (unblocked peer) = (unblock_kept s peer).at n h

  pub reach_kept : {start n : Node} → P start → Reach env main transact start n → P n
  reach_kept h here = h
  reach_kept h (later r m) = move_kept (reach_kept h r) m
