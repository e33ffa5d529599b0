-- ===== src/Api/Consensus.antt =====
-- The two handlers of pkg/operator/api/handlers.go that read a consensus.
use spotted_network.Base.{ℕ, String, not, Option, none, some, if◌then◌else◌, ltb}
use spotted_network.Base.Outcome.{message, pure}
use spotted_network.Epoch.{u32}
use spotted_network.Numeric.{string_to_numeric}
use spotted_network.Numeric.Decimal.{parse_nat}
use spotted_network.Node.{Env, Step, read}
use spotted_network.Repo.Responses.{
  ConsensusResponse, GetByRequestParams, get_by_task_id, get_by_request,
}
use spotted_network.Api.{HttpResponse, write_error, write_consensus, or_fail}

-- `strconv.ParseUint(s, 10, 64)`: `none` where it reports an error
unfoldable pub parse_uint : String → Option ℕ
parse_uint s = elim (parse_nat s) [
  | none ↦ none
  | some n ↦ if ltb n 18446744073709551616 then some n else none
]

abbrev pub consensus_answer : Option ConsensusResponse → HttpResponse
consensus_answer none = write_error 404 (message "Consensus not found")
consensus_answer (some row) = write_consensus row "Consensus found successfully"

module _ (env : Env) where
  -- `GetTaskConsensusByTaskID`
  unfoldable pub get_task_consensus_by_task_id : String → Step HttpResponse
  get_task_consensus_by_task_id id =
      or_fail 500 "Failed to get consensus" (read env (λ n. get_by_task_id id n.responses))
        (λ row. pure (consensus_answer row))

  abbrev pub request_params : String → ℕ → ℕ → String → GetByRequestParams
  request_params target chain block key = record {
    target_address = target;
    chain_id = u32 chain;
    block_number = block;
    key = string_to_numeric key;
  }

  -- `GetConsensusResponseByRequest`, of the texts of the four query parameters
  unfoldable pub get_consensus_response_by_request :
      String → String → String → String → Step HttpResponse
  get_consensus_response_by_request target chain block key =
      if not (env.is_hex_address target)
      then pure (write_error 400 (message "Invalid target address"))
      else elim (parse_uint chain) [
        | none ↦ pure (write_error 400 (message "Invalid chain_id"))
        | some chain_id ↦ elim (parse_uint block) [
          | none ↦ pure (write_error 400 (message "Invalid block_number"))
          | some number ↦
              or_fail 500 "Failed to get consensus"
                (read env
                  (λ n. get_by_request (request_params target chain_id number key) n.responses))
                (λ row. pure (consensus_answer row))
        ]
      ]
