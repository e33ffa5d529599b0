-- ===== src/BlockTime.antt =====
-- From a time to a block: `BlockNumberToTimestamp`, `TimestampToBlockNumber` and
-- `ValidateBlockNumberAndTimestamp` of pkg/common/utils.go. The quotient that the code computes in
-- `float64` is exact for differences below 2^48 seconds, and is taken as the whole number here.
pub mod Closest
pub mod Passes
pub mod Nearest
mod Tests
use spotted_network.Base.{
  ℕ, zero, suc, ◌+◌, ◌-◌, ◌*◌, ◌/◌, ◌%◌, Bool, true, false, Option, none, some, ltb, leb, ◌==◌,
  if◌then◌else◌,
}
use spotted_network.Base.Outcome.{Outcome, message, ◌>>=◌, ◌>>◌, pure, raise, or_wrap, handle}
use spotted_network.Epoch.{u64}
use spotted_network.Node.{Node, Env, Step, call}

-- `math.Floor(seconds / averageBlockTime)` with the block time of the chain: 12.5, 2 or 3 seconds
abbrev pub decrease_blocks : ℕ → ℕ → ℕ
decrease_blocks chain seconds =
    if chain == 137 then seconds / 2 else if chain == 56 then seconds / 3 else 2 * seconds / 25

-- Where a pass over the blocks ends: with the result, or at a block and its time.
pub data Pass : Type 0 where
  done : ℕ → Pass
  arrived : ℕ → ℕ → Pass

module _ (env : Env) (chain : ℕ) where
  -- `BlockNumberToTimestamp`
  unfoldable pub block_number_to_timestamp : ℕ → Step ℕ
  block_number_to_timestamp number =
      or_wrap (call (env.block_time chain number)) "failed to get block"

  -- The first pass: back by the average time of a block. A jump to block 0 keeps the old block's time.
  unfoldable pub first_pass : ℕ → ℕ → ℕ → ℕ → Step (ℕ × ℕ)
  first_pass zero timestamp number time = pure (number, time)
  first_pass (suc fuel) timestamp number time =
      let again = first_pass fuel timestamp in
      let back : ℕ = decrease_blocks chain (time - timestamp) in
      if leb time timestamp
      then pure (number, time)
      else if back == 0
      then pure (number, time)
      else if leb number back
      then pure (0, time)
      else or_wrap (call (env.block_time chain (number - back))) "failed to get block"
        >>= again (number - back)

  abbrev pub closer : ℕ → ℕ → ℕ → ℕ → ℕ → Pass
  closer timestamp low low_time high high_time =
      if ltb (timestamp - low_time) (high_time - timestamp) then done low else done high

  -- The second pass, forward. A block that cannot be read ends it.
  unfoldable pub forward : ℕ → ℕ → ℕ → ℕ → ℕ → Step Pass
  forward zero timestamp current number time = pure (arrived number time)
  forward (suc fuel) timestamp current number time =
      let again = forward fuel timestamp current in
      let next : ℕ = u64 (number + 1) in
      if leb timestamp time
      then pure (arrived number time)
      else if ltb current next
      then pure (arrived number time)
      else handle (call (env.block_time chain next))
          (λ next_time.
            if ltb timestamp next_time
            then pure (closer timestamp number time next next_time)
            else again next next_time)
          (λ _. pure (arrived number time))

  -- The third pass, backward.
  unfoldable pub backward : ℕ → ℕ → ℕ → ℕ → Step ℕ
  backward zero timestamp number time = pure number
  backward (suc fuel) timestamp number time =
      let again = backward fuel timestamp in
      if leb time timestamp
      then pure number
      else if number == 0
      then pure number
      else handle (call (env.block_time chain (number - 1)))
          (λ prev_time.
            if ltb prev_time timestamp
            then pure
                (if ltb (timestamp - prev_time) (time - timestamp) then number - 1 else number)
            else again (number - 1) prev_time)
          (λ _. pure number)

  -- What follows the second pass. Each round backward lowers the number, so that many are enough.
  unfoldable pub after_forward : ℕ → Pass → Step ℕ
  after_forward timestamp (done number) = pure number
  after_forward timestamp (arrived number time) = backward (suc number) timestamp number time

  -- The second and the third pass: each round forward raises the number, up to the current block.
  unfoldable pub fine_tune : ℕ → ℕ → ℕ × ℕ → Step ℕ
  unfolding after_forward
  fine_tune timestamp current (number, time) =
      forward (suc (current - number)) timestamp current number time >>= after_forward timestamp

  -- `TimestampToBlockNumber`: each round of the first pass lowers the number.
  unfoldable pub timestamp_to_block_number : ℕ → Step ℕ
  timestamp_to_block_number timestamp = do
    current ← or_wrap (call (env.block_number chain)) "failed to get latest block"
    time ← or_wrap (call (env.block_time chain current)) "failed to get current block"
    near ← first_pass (suc current) timestamp current time
    fine_tune timestamp current near

  -- `ValidateBlockNumberAndTimestamp`: the block and the time
  unfoldable pub validate_block_number_and_timestamp : Option ℕ → Option ℕ → Step (ℕ × ℕ)
  validate_block_number_and_timestamp none none =
      raise (message "exactly one of block_number or timestamp must be provided")
  validate_block_number_and_timestamp (some number) (some timestamp) =
      raise (message "exactly one of block_number or timestamp must be provided")
  validate_block_number_and_timestamp (some number) none = do
    time ← or_wrap (block_number_to_timestamp number) "failed to convert block number to timestamp"
    pure (number, time)
  validate_block_number_and_timestamp none (some timestamp) = do
    number ←
        or_wrap (timestamp_to_block_number timestamp) "failed to convert timestamp to block number"
    pure (number, timestamp)
