-- ===== src/Event/Tests.antt =====
-- The theorems on the event listener at the world of `Node.Sample`.
use spotted_network.Base.{ℕ, ◌<◌, ◌≡◌, refl, ◌&&◌, some, [], ◌∷◌, arith, ltb, leb}
use spotted_network.Epoch.{
  no_exit, calculate_current_epoch_number, get_effective_epoch_by_block_number, is_operator_active,
}
use spotted_network.Epoch.Bounds.{InRange}
use spotted_network.Node.Sample.{env, empty, node}
use spotted_network.Repo.Operators.{Operator, get_operator_by_address}
use spotted_network.Event.{
  OperatorRegisteredEvent, OperatorDeregisteredEvent, handle_operator_registered,
  handle_operator_deregistered,
}
use spotted_network.Event.Window.{registered_then_deregistered}

abbrev joins : OperatorRegisteredEvent
joins = record {
  operator = 1 ∷ [];
  block_number = 7698506;
  signing_key = 1 ∷ [];
  p2p_key = 5 ∷ [];
  avs = [];
}

abbrev leaves : OperatorDeregisteredEvent
leaves = record { operator = 1 ∷ []; block_number = 7698600; avs = [] }

order : get_effective_epoch_by_block_number 7698506 < get_effective_epoch_by_block_number 7698600
unfolding get_effective_epoch_by_block_number
order = omega arith

in_range : get_effective_epoch_by_block_number 7698600 < no_exit
unfolding get_effective_epoch_by_block_number
in_range = omega arith

registered_then_deregistered_example :
    (o : Operator) × (get_operator_by_address "key one"
        (handle_operator_deregistered env leaves
          (handle_operator_registered env joins (node empty 0)).1).1.operators
      ≡ some o)
    × ((block : ℕ)
        → InRange block
        → is_operator_active block o.active_epoch o.exit_epoch ≡ (
            leb (get_effective_epoch_by_block_number 7698506) (calculate_current_epoch_number block)
            && ltb
                (calculate_current_epoch_number block)
                (get_effective_epoch_by_block_number 7698600)))
registered_then_deregistered_example =
    registered_then_deregistered env joins leaves (node empty 0) (λ i. refl) refl order in_range
