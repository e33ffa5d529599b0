-- ===== src/Epoch/Activity.antt =====
-- When an operator is active, in terms of the epochs of the chain.
use spotted_network.Base.{ℕ, ◌<◌, ◌≡◌, ◌&&◌, ◌||◌, arith, ltb, leb}
use spotted_network.Epoch.{start_block, no_exit, calculate_current_epoch_number, is_operator_active}
use spotted_network.Epoch.Bounds.{InRange, calculate_current_epoch_number_bounds}

-- An operator that has not left is active exactly from its active epoch on.
pub is_operator_active-no_exit :
    (block active : ℕ)
    → InRange block
    → active < no_exit
    → is_operator_active block active no_exit ≡ leb active (calculate_current_epoch_number block)
unfolding is_operator_active
is_operator_active-no_exit block active r h =
    ground (arith, calculate_current_epoch_number_bounds block r)

-- An operator that leaves after it joined is active exactly in the epochs from its active epoch up
-- to, and without, its exit epoch.
pub is_operator_active_window :
    (block active exit : ℕ)
    → InRange block
    → active < exit
    → exit < no_exit
    → is_operator_active block active exit ≡ (
        leb active (calculate_current_epoch_number block)
        && ltb (calculate_current_epoch_number block) exit)
unfolding is_operator_active
is_operator_active_window block active exit r h k =
    ground (arith, calculate_current_epoch_number_bounds block r)

-- An operator whose exit epoch lies before its active epoch is inactive exactly from the first
-- block of its exit epoch to the first block of its active epoch, that block included.
pub is_operator_active_rejoined :
    (block active exit : ℕ)
    → exit < active
    → active < no_exit
    → is_operator_active block active exit
      ≡ (ltb block (start_block exit) || ltb (start_block active) block)
unfolding is_operator_active
is_operator_active_rejoined block active exit h k = ground arith
