-- ===== src/Event/Subscribe/Tests.antt =====
-- A client that refuses the second subscription of the first round.
use spotted_network.Base.{ℕ, zero, suc, ◌≤◌, ◌≡◌, ◌⊎◌, Bool, false, [], ◌∷◌, arith}
use spotted_network.Base.Outcome.{Error, message, Reply, ok, err}
use spotted_network.Event.Subscribe.{
  Topic, registrations, deregistrations, Subscriptions, subscribe_to_events,
}
use spotted_network.Event.Subscribe.Leaks.{with_both, subscribe_to_events-Ends}

abbrev refuses_once : Topic → ℕ → Reply (Unit {0})
refuses_once registrations i = Reply.value tt
refuses_once deregistrations zero = Reply.fault (message "refused")
refuses_once deregistrations (suc i) = Reply.value tt

abbrev never : ℕ → Bool
never i = false

abbrev one_open : Subscriptions
one_open = record { open_now = 0 ∷ []; made = 1 }

subscribe_to_events-Ends_example :
    ((first : ℕ) × ((1 ≤ first)
        × (subscribe_to_events refuses_once never (message "done") one_open
            ≡ (ok (first, suc first), with_both first one_open))))
    ⊎ ((e : Error) × (made : ℕ) × ((1 ≤ made)
          × (subscribe_to_events refuses_once never (message "done") one_open
              ≡ (err e, record one_open { made = made }))))
subscribe_to_events-Ends_example =
    subscribe_to_events-Ends refuses_once never (message "done") one_open (omega arith, tt)
