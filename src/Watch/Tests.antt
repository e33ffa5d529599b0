-- ===== src/Watch/Tests.antt =====
-- A contract that logs two deregistrations, one after the other, and a filter that fails once.
use mathlib.Core.Path.{◌≡◌}
use spotted_network.Base.{
  ℕ, zero, suc, ◌+◌, ◌≤◌, ◌<◌, refl, ◌⊎◌, inl, inr, List, [], ◌∷◌, arith, ◌==◌, if◌then◌else◌,
  Bool-cases,
}
use spotted_network.Base.Lists.{All}
use spotted_network.Base.Outcome.{Error, Reply, message}
use spotted_network.Epoch.{u64}
use spotted_network.Event.{OperatorDeregisteredEvent}
use spotted_network.Watch.{deregistered_block, watch_operator_deregistered, poll, polls, send_all}
use spotted_network.Watch.Logs.{from, Extends}
use spotted_network.Watch.Exact.{first_block, polls-log}

abbrev leaving : ℕ → OperatorDeregisteredEvent
leaving block = record { operator = 7 ∷ []; block_number = block; avs = [] }

abbrev log : ℕ → List OperatorDeregisteredEvent
log zero = leaving 7698500 ∷ []
log (suc n) = leaving 7698500 ∷ leaving 7698600 ∷ []

abbrev filter : ℕ → ℕ → Reply (List OperatorDeregisteredEvent)
filter start tick =
    if tick == 1
    then Reply.fault (message "timeout")
    else Reply.value (from deregistered_block start (log tick))

answered :
    (start tick : ℕ)
    → ((e : Error) × (filter start tick ≡ Reply.fault e))
      ⊎ (filter start tick ≡ Reply.value (from deregistered_block start (log tick)))
answered start tick = elim (Bool-cases (tick == 1)) [
  | inl down ↦ inl (message "timeout", ground arith)
  | inr up ↦ inr (ground arith)
]

grown : (i j : ℕ) → i ≤ j → Extends deregistered_block (log i) (log j)
grown zero zero before = ([], refl, tt)
grown zero (suc j) before = (leaving 7698600 ∷ [], refl, ((omega arith, tt), tt))
grown (suc i) zero before = ground arith
grown (suc i) (suc j) before = ([], refl, tt)

fits : (i : ℕ) → All (λ e. deregistered_block e < 18446744073709551615) (log i)
fits zero = (omega arith, tt)
fits (suc i) = (omega arith, (omega arith, tt))

all_sent : (watch_operator_deregistered filter 3 7698497).sink ≡ log 2
unfolding polls poll send_all from
all_sent = refl

polls-log_example :
    ((e : Error) × (filter (u64 ((watch_operator_deregistered filter 2 7698497).last_block + 1)) 2
        ≡ Reply.fault e)
      × ((watch_operator_deregistered filter 3 7698497).sink
          ≡ (watch_operator_deregistered filter 2 7698497).sink))
    ⊎ ((watch_operator_deregistered filter 3 7698497).sink
        ≡ from deregistered_block (first_block 7698497) (log 2))
polls-log_example =
    polls-log deregistered_block filter log answered grown fits 7698497 (omega arith) 2
