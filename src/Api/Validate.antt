-- ===== src/Api/Validate.antt =====
-- `validateRequest` of pkg/operator/api/handlers.go.
pub mod Sound
use spotted_network.Base.{
  ℕ, ◌-◌, ◌^◌, Bool, true, false, ◌&&◌, not, Option, none, some, ltb, ◌==◌, if◌then◌else◌,
}
use spotted_network.Base.Int.{ℤ, pos, negsuc}
use spotted_network.Base.Outcome.{is_some, message, ◌>>=◌, ◌>>◌, pure, raise, or_wrap}
use spotted_network.Node.{Node, Env, Step, call}
use spotted_network.Task.Process.{get_client}
use spotted_network.Api.{SendRequestParams}

-- The test of the range of a `uint256`.
abbrev pub in_uint256 : ℤ → Bool
in_uint256 (pos n) = not (ltb (2 ^ 256 - 1) n)
in_uint256 (negsuc n) = false

module _ (env : Env) where
  -- 3. The key, read with the base that its prefix names.
  unfoldable pub check_key : SendRequestParams → Step (Unit {0})
  check_key params = elim (env.parse_any_base params.key) [
    | none ↦ raise (message "invalid key: must be valid uint256")
    | some key ↦
        if in_uint256 key
        then pure tt
        else raise (message "invalid key: must be within uint256 range")
  ]

  -- 5. A block that is given
  unfoldable pub check_block : SendRequestParams → Step (Unit {0})
  check_block params = do
    client ← or_wrap (get_client env params.chain_id) "failed to get state client"
    latest ← or_wrap (call (env.block_number client)) "failed to get latest block"
    if ltb latest params.block_number
        then raise (message "block number is in the future")
        else pure tt

  -- 6. A time that is given, with the clock at the time of the test
  unfoldable pub check_timestamp : SendRequestParams → Step (Unit {0})
  check_timestamp params n =
      if ltb (env.clock n.tick) params.timestamp
      then raise (message "timestamp is in the future") n
      else pure tt n

  -- 4. to 6.: exactly one of the block and the time, and what it must satisfy
  unfoldable pub check_height : SendRequestParams → Step (Unit {0})
  check_height params =
      if (params.block_number == 0) && (params.timestamp == 0)
      then raise (message "either block number or timestamp must be provided")
      else if not (params.block_number == 0) && not (params.timestamp == 0)
      then raise (message "only one of block number or timestamp should be provided")
      else if params.block_number == 0
      then check_timestamp params
      else check_block params

  -- `validateRequest`
  unfoldable pub validate_request : SendRequestParams → Step (Unit {0})
  unfolding check_key check_height
  validate_request params =
      if params.chain_id == 0
      then raise (message "invalid chain ID: must be positive integer")
      else if not (is_some (env.confirmations params.chain_id))
      then raise (message "unsupported chain ID")
      else if not (env.is_hex_address params.target_address)
      then raise (message "invalid target address: must be valid EVM address")
      else check_key params >> check_height params
