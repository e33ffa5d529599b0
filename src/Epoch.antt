-- ===== src/Epoch.antt =====
-- Epochs of the main chain: pkg/operator/constants/common.go, the epoch functions of
-- pkg/common/utils.go and pkg/operator/epoch/helpers.go. A `uint64` or `uint32` is a number, and
-- every conversion and every sum that can wrap is taken modulo its width.
pub mod Bounds
pub mod Activity
mod Tests
use spotted_network.Base.{
  ℕ, ◌+◌, ◌-◌, ◌*◌, ◌/◌, ◌%◌, Bool, true, false, ◌&&◌, ltb, leb, ◌==◌, if◌then◌else◌,
}

abbrev pub u32 : ℕ → ℕ
u32 n = n % 4294967296

abbrev pub u64 : ℕ → ℕ
u64 n = n % 18446744073709551616

-- `a - b` of two `uint64` values
abbrev pub sub_u64 : ℕ → ℕ → ℕ
sub_u64 a b = u64 (a + 18446744073709551616 - b)

abbrev pub genesis_block : ℕ
genesis_block = 7698497

abbrev pub epoch_period : ℕ
epoch_period = 12

abbrev pub grace_period : ℕ
grace_period = 3

-- The exit epoch of an operator that has not left, 2^32 - 1.
abbrev pub no_exit : ℕ
no_exit = 4294967295

-- `CalculateCurrentEpochNumber`
unfoldable pub calculate_current_epoch_number : ℕ → ℕ
calculate_current_epoch_number block = u32 (sub_u64 block genesis_block / epoch_period)

-- `GetEffectiveEpochByBlockNumber`
unfoldable pub get_effective_epoch_by_block_number : ℕ → ℕ
get_effective_epoch_by_block_number current =
    let absolute_epoch : ℕ = u32 (sub_u64 current genesis_block / epoch_period) in
    let epoch_start_block : ℕ = u64 (genesis_block + u64 (absolute_epoch * epoch_period)) in
    let epoch_end_block : ℕ = u64 (epoch_start_block + epoch_period) in
    if leb (sub_u64 epoch_end_block grace_period) current
    then u32 (absolute_epoch + 2)
    else u32 (absolute_epoch + 1)

-- The first block of an epoch, as the code computes it in `uint64`.
abbrev pub start_block : ℕ → ℕ
start_block epoch = u64 (genesis_block + u64 (epoch * epoch_period))

-- `IsOperatorActive`
unfoldable pub is_operator_active : ℕ → ℕ → ℕ → Bool
is_operator_active current active_epoch exit_epoch =
    if active_epoch == exit_epoch
    then false
    else if exit_epoch == no_exit
    then leb (start_block active_epoch) current
    else if ltb active_epoch exit_epoch
    then leb (start_block active_epoch) current && ltb current (start_block exit_epoch)
    else if ltb current (start_block exit_epoch)
    then true
    else if leb (start_block exit_epoch) current && leb current (start_block active_epoch)
    then false
    else true
