-- ===== src/Api/Validate/Sound.antt =====
-- What a request that passes `validateRequest` of pkg/operator/api/handlers.go satisfies.
use spotted_network.Base.{
  ℕ, ◌^◌, ◌≤◌, ◌<◌, ◌≡◌, refl, true, false, some, ◌⊎◌, inl, inr, Option-cases, Bool-cases, arith,
  ◌==◌,
}
use spotted_network.Base.Int.{ℤ, pos}
use spotted_network.Base.Outcome.{Reply, Reply-cases, Outcome-cases, ok, err, message, ◌>>=◌}
use spotted_network.Node.{Node, Env, call}
use spotted_network.Task.Process.{get_client}
use spotted_network.Api.{SendRequestParams}
use spotted_network.Api.Validate.{
  check_key, check_block, check_timestamp, check_height, validate_request,
}

module _ (env : Env) (params : SendRequestParams) where
  -- Exactly one of the block and the time is given; it is not in the future.
  abbrev pub Height : Type 0
  Height =
      ((params.timestamp ≡ 0)
        × (0 < params.block_number)
        × (env.has_chain params.chain_id ≡ true)
        × ((i latest : ℕ) × (env.block_number params.chain_id i ≡ Reply.value latest)
            × (params.block_number ≤ latest)))
      ⊎ (params.block_number ≡ 0)
        × (0 < params.timestamp)
        × ((i : ℕ) × (params.timestamp ≤ env.clock i))

  abbrev pub Key : Type 0
  Key = (k : ℕ) × (env.parse_any_base params.key ≡ some (pos k)) × (k < 2 ^ 256)

  check_key-Key : (n : Node) → (check_key env params n).0 ≡ ok tt → Key
  unfolding check_key ◌>>=◌
  check_key-Key n done = elim (Option-cases (env.parse_any_base params.key)) [
    | inl bad ↦ ground arith
    | inr (pos k, e) ↦ (k, e, ground arith)
    | inr (ℤ.negsuc k, e) ↦ ground arith
  ]

  client_there :
      (n : Node)
      → env.has_chain params.chain_id ≡ true
      → get_client env params.chain_id n ≡ (ok params.chain_id, n)
  unfolding get_client
  client_there n e = rw e refl

  client_missing :
      (n : Node)
      → env.has_chain params.chain_id ≡ false
      → get_client env params.chain_id n ≡ (err (message "chain not found"), n)
  unfolding get_client
  client_missing n e = rw e refl

  check_block-Height :
      (n : Node)
      → (check_block env params n).0 ≡ ok tt
      → (env.has_chain params.chain_id ≡ true)
        × ((i latest : ℕ) × (env.block_number params.chain_id i ≡ Reply.value latest)
            × (params.block_number ≤ latest))
  unfolding check_block ◌>>=◌ call
  check_block-Height n done = elim (Bool-cases (env.has_chain params.chain_id)) [
    | inr missing ↦ ground (arith, client_missing n missing)
    | inl there ↦ elim (Reply-cases (env.block_number params.chain_id n.tick)) [
      | inl (latest, e) ↦ (there, (n.tick, latest, e, ground (arith, client_there n there)))
      | inr (x, e) ↦ ground (arith, client_there n there)
    ]
  ]

  check_height-Height : (n : Node) → (check_height env params n).0 ≡ ok tt → Height
  unfolding check_height check_timestamp ◌>>=◌
  check_height-Height n done = elim (Bool-cases (params.block_number == 0)) [
    | inl by_time ↦ inr (ground arith, ground arith, (n.tick, ground arith))
    | inr by_block ↦
        let (client, reached) = check_block-Height n (ground arith) in
        inl (ground arith, ground arith, client, reached)
  ]

  -- A request that passes names a chain that is configured, and not 0, an address, and a key in the
  -- range of a `uint256`, whatever the base that it is written in. It gives either a block, which
  -- the chain has reached, or a time, which is not after the process's clock, and not both.
  pub validate_request-Height :
      (n : Node)
      → (validate_request env params n).0 ≡ ok tt
      → (0 < params.chain_id)
        × ((required : ℕ) × (env.confirmations params.chain_id ≡ some required))
        × (env.is_hex_address params.target_address ≡ true)
        × Key
        × Height
  unfolding validate_request ◌>>=◌
  validate_request-Height n done = elim (Option-cases (env.confirmations params.chain_id)) [
    | inl missing ↦ ground arith
    | inr (required, e) ↦ elim (Outcome-cases (check_key env params n).0) [
      | inl (_, key) ↦ (
        ground arith,
        (required, e),
        ground arith,
        check_key-Key n (ground arith),
        check_height-Height (check_key env params n).1 (ground arith),
      )
      | inr (inl (x, bad)) ↦ ground arith
      | inr (inr bad) ↦ ground arith
    ]
  ]
