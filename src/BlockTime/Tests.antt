-- ===== src/BlockTime/Tests.antt =====
-- Runs of the search on the chain of the sample, and the property at that chain.
use spotted_network.Base.{ℕ, ◌+◌, ◌*◌, ◌≤◌, ◌≡◌, refl, ◌⊎◌, none, some, arith}
use spotted_network.Base.Outcome.{ok, ◌>>=◌}
use spotted_network.Node.{call}
use spotted_network.Node.Sample.{env, node, empty}
use spotted_network.BlockTime.{
  first_pass, forward, backward, fine_tune, timestamp_to_block_number,
  validate_block_number_and_timestamp,
}
use spotted_network.BlockTime.Closest.{Closest, BeforeGenesis}
use spotted_network.BlockTime.Nearest.{timestamp_to_block_number_lem}

abbrev blocks_at : ℕ → ℕ
blocks_at k = 1000 + k * 12

between : (timestamp_to_block_number env 1 1605 (node empty 0)).0 ≡ ok 50
unfolding timestamp_to_block_number ◌>>=◌ call first_pass fine_tune forward backward
between = refl

above : (timestamp_to_block_number env 1 1607 (node empty 0)).0 ≡ ok 51
unfolding timestamp_to_block_number ◌>>=◌ call first_pass fine_tune forward backward
above = refl

from_time :
    (validate_block_number_and_timestamp env 1 none (some 1612) (node empty 0)).0 ≡ ok (51, 1612)
unfolding validate_block_number_and_timestamp timestamp_to_block_number ◌>>=◌ call first_pass
    fine_tune forward backward
from_time = refl

timestamp_to_block_number_lem_example :
    (b : ℕ) × ((timestamp_to_block_number env 1 1605 (node empty 0)).0 ≡ ok b)
    × ((b ≤ 100) × (Closest blocks_at 100 1605 b ⊎ (b ≡ 0) × BeforeGenesis 1 blocks_at 100 1605))
timestamp_to_block_number_lem_example =
    timestamp_to_block_number_lem env 1 1605 100 blocks_at (λ j k below. omega arith)
      (λ k tick below. refl) (omega arith) (λ tick. refl) (node empty 0)
