-- ===== src/BlockTime/Nearest.antt =====
-- Which block `TimestampToBlockNumber` of pkg/common/utils.go finds, on a chain whose answers do not
-- change during the call.
use spotted_network.Base.{ℕ, suc, ◌+◌, ◌≤◌, ◌<◌, ◌≡◌, ◌⊎◌, arith}
use spotted_network.Base.Outcome.{Reply, Outcome, ok, ◌>>=◌}
use spotted_network.Base.Finds.{Finds-bind}
use spotted_network.Node.{Node, Env, call, ticked}
use spotted_network.BlockTime.{first_pass, fine_tune, timestamp_to_block_number}
use spotted_network.BlockTime.Closest.{Closest, BeforeGenesis}
use spotted_network.BlockTime.Passes.{Found, Near, first_pass-Near, fine_tune-Found}

module _ (env : Env) (chain timestamp current : ℕ) (time : ℕ → ℕ)
    (monotone : (j k : ℕ) → j ≤ k → time j ≤ time k)
    (blocks : (k tick : ℕ) → k ≤ current → env.block_time chain k tick ≡ Reply.value (time k))
    (small : current + 1 < 18446744073709551616) where
  -- What is left once the chain has named its latest block and given its time.
  rest : Node → Outcome ℕ × Node
  rest n =
      (first_pass env chain (suc current) timestamp current (time current)
          >>= fine_tune env chain timestamp current)
        (ticked (ticked n))

  begun :
      ((tick : ℕ) → env.block_number chain tick ≡ Reply.value current)
      → (n : Node) → timestamp_to_block_number env chain timestamp n ≡ rest n
  unfolding timestamp_to_block_number call ◌>>=◌ rest
  begun latest n = ground (arith, latest n.tick, blocks current (n.tick + 1) (omega arith))

  -- On a chain that answers the same number of its latest block throughout, the same time for each
  -- block, and times that grow with the number, the search always ends with a block: one whose time is
  -- as close to the one asked for as that of any block so far, or block 0, in case the average time of
  -- a block led back from some block past the beginning of the chain.
  pub timestamp_to_block_number_lem :
      ((tick : ℕ) → env.block_number chain tick ≡ Reply.value current)
      → (n : Node)
      → (b : ℕ) × ((timestamp_to_block_number env chain timestamp n).0 ≡ ok b)
        × ((b ≤ current)
            × (Closest time current timestamp b
                ⊎ (b ≡ 0) × BeforeGenesis chain time current timestamp))
  unfolding rest
  timestamp_to_block_number_lem latest n = rw (begun latest n) (
      Finds-bind (Near env chain timestamp current time monotone blocks small)
        (Found env chain timestamp current time monotone blocks small)
        (first_pass env chain (suc current) timestamp current (time current))
        (fine_tune env chain timestamp current) (ticked (ticked n))
        (first_pass-Near env chain timestamp current time monotone blocks small (suc current)
          current (ticked (ticked n)) (omega arith) (omega arith))
        (fine_tune-Found env chain timestamp current time monotone blocks small))
