-- ===== src/Epoch/Bounds.antt =====
-- The epoch of a block, and the epoch in which a registration of that block takes effect.
use spotted_network.Base.{ℕ, ◌+◌, ◌*◌, ◌≤◌, ◌<◌, arith}
use spotted_network.Epoch.{
  genesis_block, epoch_period, grace_period, calculate_current_epoch_number,
  get_effective_epoch_by_block_number,
}

-- The blocks that the program can meet: from the genesis block to the end of epoch 2^32 - 3.
abbrev pub InRange : ℕ → Type 0
InRange block = (genesis_block ≤ block) × (block < genesis_block + 12 * 4294967294)

-- A block of the range lies in the epoch that `CalculateCurrentEpochNumber` computes: at or after
-- its first block, and before the first block of the next.
pub calculate_current_epoch_number_bounds :
    (block : ℕ)
    → InRange block
    → let e = calculate_current_epoch_number block in
      (genesis_block + e * epoch_period ≤ block) × (block < genesis_block + (e + 1) * epoch_period)
unfolding calculate_current_epoch_number
calculate_current_epoch_number_bounds block (lo, hi) = omega arith

-- The epoch in which a registration takes effect starts more than `GracePeriod` blocks after the
-- registration's block, and at most a period and `GracePeriod` after it; so it is the first epoch
-- that leaves the grace period free.
pub get_effective_epoch_bounds :
    (block : ℕ)
    → InRange block
    → let e = get_effective_epoch_by_block_number block in
      (block + grace_period < genesis_block + e * epoch_period)
      × (genesis_block + e * epoch_period ≤ block + grace_period + epoch_period)
unfolding get_effective_epoch_by_block_number
get_effective_epoch_bounds block (lo, hi) = ground arith

-- Later blocks have no earlier epoch, and no earlier effective epoch.
pub epochs_monotone :
    (b c : ℕ)
    → InRange b
    → InRange c
    → b ≤ c
    → (calculate_current_epoch_number b ≤ calculate_current_epoch_number c)
      × (get_effective_epoch_by_block_number b ≤ get_effective_epoch_by_block_number c)
epochs_monotone b c hb hc h = omega (
  arith,
  calculate_current_epoch_number_bounds b hb,
  calculate_current_epoch_number_bounds c hc,
  get_effective_epoch_bounds b hb,
  get_effective_epoch_bounds c hc,
)
