-- ===== src/System.antt =====
-- The operator process: the entry points of its goroutines over one state, interleaved in any order.
-- Each entry point is one step: message of pkg/operator/task/response.go, the tickers of
-- pkg/operator/task/check.go and pkg/operator/epoch/updator.go, the listener of
-- pkg/operator/event/listener.go, the handlers of pkg/operator/api and the gater of
-- pkg/operator/gater. Calls inside a step may answer differently each time.
pub mod Stable
pub mod Sound
pub mod Messages
pub mod Moves
pub mod Tasks
pub mod Requests
pub mod Memory
pub mod Epochs
pub mod Reachable
pub mod Ledger
pub mod LifeCycle
mod Tests
use spotted_network.Base.{String, Option}
use spotted_network.Base.Outcome.{Reply}
use spotted_network.Node.{TaskResponseMessage, Node, Env, Step}
use spotted_network.Repo.Blacklist.{IncrementViolationCountParams}
use spotted_network.Task.Response.{handle_message}
use spotted_network.Task.Check.{check_timeouts, check_confirmations, periodic_cleanup}
use spotted_network.Gater.{check_peer_permission, add_violations, unblock}
use spotted_network.Updator.{MainnetClient, check_epoch}
use spotted_network.Event.{Event, handle_event}
use spotted_network.Api.{SendRequestParams}
use spotted_network.Api.Send.{send_request}

module _ (env : Env) (main : MainnetClient) (transact : Step (Unit {0}) → Step (Unit {0})) where
  pub data Move (n : Node) : Node → Type 0 where
    received :
        (decoded : Reply TaskResponseMessage) (peer : String)
        → Move n (handle_message env decoded peer n)
    timed : Move n (check_timeouts env n).1
    confirmed : Move n (check_confirmations env n).1
    cleaned : Move n (periodic_cleanup env n).1
    ticked_epoch : Move n (check_epoch env main transact n).1
    listened : (e : Event) → Move n (handle_event env e n).1
    requested :
        (method : String) (body : Option SendRequestParams)
        → Move n (send_request env method body n).1
    dialled : (peer : String) → Move n (check_peer_permission env peer n).1
    violated : (p : IncrementViolationCountParams) → Move n (add_violations env p n).1
    unblocked : (peer : String) → Move n (unblock env peer n).1

  pub data Reach (start : Node) : Node → Type 0 where
    here : Reach start start
    later : {n m : Node} → Reach start n → Move n m → Reach start m
