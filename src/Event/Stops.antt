-- ===== src/Event/Stops.antt =====
-- What ends the loop of the listener.
use spotted_network.Base.{◌+◌, ◌≡◌, none, List, ◌∷◌, arith}
use spotted_network.Base.Outcome.{panic, ◌>>=◌, for_each}
use spotted_network.Node.{Node, Env, query}
use spotted_network.Node.Rules.{Up}
use spotted_network.Repo.Operators.{get_operator_by_address}
use spotted_network.Event.{
  Event, deregistered, OperatorDeregisteredEvent, handle_operator_deregistered, handle_event,
  listen,
}

-- With a working database, the deregistration of an address that has no row is a read through a nil
-- pointer: it ends the loop, changes no table, and every event that follows is lost.
pub deregistered_unknown :
    (env : Env) (e : OperatorDeregisteredEvent) (later : List Event) (n : Node)
    → Up env
    → get_operator_by_address (env.crypto.hex e.operator) n.operators ≡ none
    → listen env (deregistered e ∷ later) n ≡ (panic, record n { tick = n.tick + 1 })
unfolding listen handle_event handle_operator_deregistered query ◌>>=◌ for_each
deregistered_unknown env e later n up missing = ground (arith, up n.tick)
