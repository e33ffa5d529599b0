-- ===== src/BlockTime/Closest.antt =====
-- The block of a chain that is closest to a time, where the times grow with the blocks.
use spotted_network.Base.{ℕ, suc, ◌+◌, ◌-◌, ◌≤◌, ◌<◌, ◌≡◌, ◌⊎◌, inl, inr, arith, leb, Bool-cases}
use spotted_network.BlockTime.{decrease_blocks}

abbrev pub gap : ℕ → ℕ → ℕ
gap a b = (a - b) + (b - a)

-- No block up to the current one is closer in time.
abbrev pub Closest : (ℕ → ℕ) → ℕ → ℕ → ℕ → Type 0
Closest time current timestamp b =
    (j : ℕ) → j ≤ current → gap (time b) timestamp ≤ gap (time j) timestamp

-- From some block, the average time of a block leads to block 0 or beyond.
abbrev pub BeforeGenesis : ℕ → (ℕ → ℕ) → ℕ → ℕ → Type 0
BeforeGenesis chain time current timestamp =
    (j : ℕ) × (j ≤ current)
    × (timestamp < time j)
    × (j ≤ decrease_blocks chain (time j - timestamp))

module _ (timestamp current : ℕ) (time : ℕ → ℕ)
    (monotone : (j k : ℕ) → j ≤ k → time j ≤ time k) where
  -- Two neighbours on either side of a time: one of them is closest.
  pub low-Closest :
      (low high : ℕ)
      → high ≡ suc low
      → time low ≤ timestamp
      → timestamp ≤ time high
      → timestamp - time low ≤ time high - timestamp
      → Closest time current timestamp low
  low-Closest low high next before after nearer j known = elim (Bool-cases (leb j low)) [
    | inl left ↦ omega (arith, before, after, nearer, monotone j low (ground arith))
    | inr right ↦ omega (arith, before, after, nearer, monotone high j (ground arith))
  ]

  pub high-Closest :
      (low high : ℕ)
      → high ≡ suc low
      → time low ≤ timestamp
      → timestamp ≤ time high
      → time high - timestamp ≤ timestamp - time low
      → Closest time current timestamp high
  high-Closest low high next before after nearer j known = elim (Bool-cases (leb j low)) [
    | inl left ↦ omega (arith, before, after, nearer, monotone j low (ground arith))
    | inr right ↦ omega (arith, before, after, nearer, monotone high j (ground arith))
  ]

  pub exact-Closest : (m : ℕ) → time m ≡ timestamp → Closest time current timestamp m
  exact-Closest m same j known = omega (arith, same)

  pub last-Closest : time current ≤ timestamp → Closest time current timestamp current
  last-Closest before j known = omega (arith, monotone j current known)

  pub settled :
      (number : ℕ)
      → time number ≤ timestamp
      → (timestamp ≤ time number) ⊎ (number ≡ current)
      → Closest time current timestamp number
  settled number before (inl after) j below = omega (arith, before, after)
  settled number before (inr last) j below = omega (arith, before, monotone j number (ground arith))

  pub start : timestamp < time 0 → Closest time current timestamp 0
  start after j below = omega (arith, monotone 0 j (ground arith))
