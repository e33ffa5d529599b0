-- ===== src/Epoch/Tests.antt =====
-- Epochs at concrete blocks.
use spotted_network.Base.{◌≡◌, refl, ◌&&◌, ltb, leb, arith}
use spotted_network.Epoch.{
  calculate_current_epoch_number, get_effective_epoch_by_block_number, is_operator_active,
}
use spotted_network.Epoch.Activity.{is_operator_active_window}

effective_epochs :
    (get_effective_epoch_by_block_number 7698505 ≡ 1)
    × (get_effective_epoch_by_block_number 7698506 ≡ 2)
unfolding get_effective_epoch_by_block_number
effective_epochs = (refl, refl)

is_operator_active_window_example : is_operator_active 7698600 2 5 ≡ (
    leb 2 (calculate_current_epoch_number 7698600)
    && ltb (calculate_current_epoch_number 7698600) 5)
is_operator_active_window_example =
    is_operator_active_window 7698600 2 5 (omega arith, omega arith) (omega arith) (omega arith)
