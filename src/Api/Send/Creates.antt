-- ===== src/Api/Send/Creates.antt =====
-- What `SendRequest` of pkg/operator/api/handlers.go does with a valid request for a block.
use spotted_network.Base.{
  ℕ, ◌+◌, ◌^◌, ◌%◌, ◌≤◌, ◌<◌, String, ◌≡◌, refl, sym, true, none, some, [], ◌∷◌, ◌++◌, arith,
  eq_refl,
}
use spotted_network.Base.Int.{ℤ, pos}
use spotted_network.Base.Outcome.{Reply, ok, handle, ◌>>=◌}
use spotted_network.Numeric.{string_to_big_int}
use spotted_network.Numeric.Decimal.{to_string}
use spotted_network.Node.{Node, Env, call}
use spotted_network.Node.Rules.{Up}
use spotted_network.Repo.Table.{find-insert}
use spotted_network.Repo.Tasks.{Task, confirming, get_task_by_id, new_task, task_key}
use spotted_network.Repo.Responses.{get_by_task_id}
use spotted_network.Task.Process.{get_client}
use spotted_network.Api.{SendRequestParams, write_success, generate_task_id, or_fail}
use spotted_network.Api.Validate.{check_key, check_block, check_height, validate_request}
use spotted_network.Api.Send.{
  mainnet_chain_id, state_client, requested_block, creation_params, already_exists, find_or_create,
  accept_request, send_request,
}
use spotted_network.Api.Send.Answers.{later, found, inserted}

-- The row of the task of a request for a block, with the value that the chain answered.
abbrev pub waiting : Env → SendRequestParams → ℕ → ℤ → ℕ → Task
waiting env params epoch value = new_task (
    creation_params env params epoch params.block_number (string_to_big_int params.key) value
      confirming)

module _ (env : Env) (up : Up env) (params : SendRequestParams) (k latest epoch required : ℕ)
    (value : ℤ) (supported : env.confirmations params.chain_id ≡ some required)
    (address : env.is_hex_address params.target_address ≡ true)
    (number : env.parse_any_base params.key ≡ some (pos k)) (range : k < 2 ^ 256)
    (block : 0 < params.block_number) (no_time : params.timestamp ≡ 0)
    (past : params.block_number ≤ latest) (chain : 1 < params.chain_id)
    (main_client : env.has_chain mainnet_chain_id ≡ true)
    (client : env.has_chain params.chain_id ≡ true)
    (height : (i : ℕ) → env.block_number params.chain_id i ≡ Reply.value latest)
    (epochs : (i : ℕ) → env.current_epoch mainnet_chain_id i ≡ Reply.value epoch)
    (state : (i : ℕ)
      → env.state_at params.chain_id
          (env.crypto.hex_to_address params.target_address)
          (string_to_big_int params.key)
          params.block_number
          i
        ≡ Reply.value value) where
  known : (n : Node) → get_client env params.chain_id n ≡ (ok params.chain_id, n)
  unfolding get_client
  known n = rw client refl

  key_valid : (n : Node) → check_key env params n ≡ (ok tt, n)
  unfolding check_key ◌>>=◌
  key_valid n = ground (arith, number)

  block_valid : (n : Node) → check_block env params n ≡ (ok tt, later 1 n)
  unfolding check_block ◌>>=◌ call
  block_valid n = ground (arith, known n, height n.tick)

  height_valid : (n : Node) → check_height env params n ≡ (ok tt, later 1 n)
  unfolding check_height ◌>>=◌
  height_valid n = ground (arith, block_valid n)

  valid : (n : Node) → validate_request env params n ≡ (ok tt, later 1 n)
  unfolding validate_request ◌>>=◌
  valid n = ground (arith, key_valid n, height_valid n)

  pub accepted :
      (n : Node)
      → accept_request env params n
        ≡ find_or_create env params epoch params.chain_id params.block_number
            (string_to_big_int params.key)
            value
            (later 2 n)
  unfolding accept_request or_fail requested_block state_client get_client handle call
  accepted n = ground (arith, epochs n.tick, state (n.tick + 1))

  pub opened :
      (n : Node)
      → send_request env "POST" (some params) n
        ≡ find_or_create env params epoch params.chain_id params.block_number
            (string_to_big_int params.key)
            value
            (later 3 n)
  unfolding send_request handle
  opened n = ground (arith, valid n, accepted (later 1 n), eq_refl "POST")

  abbrev name : String
  name = generate_task_id env params (to_string value)

  -- A request by block: its block is above 0 and not above the chain's latest, and it has no timestamp.
  -- Its chain is configured and its number is above 1, its address is a hexadecimal one, and its key is
  -- in the range of a `uint256`. There are clients of its chain and of the main chain, which answer the
  -- same height, epoch and value throughout, and the database works. The task that the identifier names
  -- has neither a consensus nor a row, and the block and its confirmations together fit in 64 bits and
  -- are above the latest block. Then the row is created with what the chain answered, and nothing else
  -- changes; and the same request again changes nothing, and is answered with that row.
  pub send_request_twice :
      (n : Node)
      → get_by_task_id name n.responses ≡ none
      → get_task_by_id name n.tasks ≡ none
      → params.block_number + required < 18446744073709551616
      → latest < params.block_number + required
      → let created = record n {
        tasks = n.tasks ++ waiting env params epoch value (env.now (n.tick + 6)) ∷ [];
        tick = n.tick + 7;
      } in
        (send_request env "POST" (some params) n ≡ (
          ok (write_success name "confirming" required "Waiting for block confirmations"),
          created,
        ))
        × (send_request env "POST" (some params) created ≡ (
          ok (
              write_success name "confirming" required
                "Task already exists with status: confirming"),
          later 5 created,
        ))
  send_request_twice n fresh new small early =
      let new_row = waiting env params epoch value (env.now (n.tick + 6)) in
      let created = record n { tasks = n.tasks ++ new_row ∷ []; tick = n.tick + 7 } in
      let there : get_task_by_id name created.tasks ≡ some new_row =
        ground (arith, find-insert task_key name new_row n.tasks new, eq_refl name) in
      (
        ground (
          arith,
          opened n,
          inserted env up params epoch params.chain_id params.block_number
              (string_to_big_int params.key) value latest required (later 3 n) supported
              (height (n.tick + 3 + 2)) fresh new small early,
        ),
        ground (
          arith,
          opened created,
          found env up params epoch params.chain_id params.block_number
              (string_to_big_int params.key) value (later 3 created) new_row fresh there,
          supported,
        ),
      )

  -- An identifier holds only the last byte of the chain's number and of the block's, and no epoch. A
  -- request by block is for a chain that is configured and has a number above 1, with a block above 0
  -- and not above the chain's latest, no timestamp, a hexadecimal address and a key in the range of a
  -- `uint256`. There are clients of its chain and of the main chain, which answer the same height, epoch
  -- and value throughout, and the database works. Another request, for another chain or block, has the
  -- same target and key, and the same last bytes of its chain and of its block; the identifier that the
  -- code makes of it with the same value names a task that has a row and no consensus. Then the first
  -- request is answered with the row of that task, and gets no task of its own.
  pub send_request_collides :
      (other : SendRequestParams) (task : Task) (n : Node)
      → other.target_address ≡ params.target_address
      → other.key ≡ params.key
      → other.chain_id % 256 ≡ params.chain_id % 256
      → other.block_number % 256 ≡ params.block_number % 256
      → get_by_task_id (generate_task_id env other (to_string value)) n.responses ≡ none
      → get_task_by_id (generate_task_id env other (to_string value)) n.tasks ≡ some task
      → send_request env "POST" (some params) n ≡ (ok (already_exists env task), later 5 n)
  unfolding generate_task_id
  send_request_collides other task n target key chains blocks fresh there =
      let same : generate_task_id env other (to_string value) ≡ name =
        rw (target, key, chains, blocks) refl in
      let gone : get_by_task_id name n.responses ≡ none = rw (sym same) fresh in
      let held : get_task_by_id name n.tasks ≡ some task = rw (sym same) there in
      ground (
        arith,
        opened n,
        found env up params epoch params.chain_id params.block_number (string_to_big_int params.key)
            value (later 3 n) task gone held,
      )
