-- ===== src/Api/Send.antt =====
-- `SendRequest` of pkg/operator/api/handlers.go.
pub mod Answers
pub mod Creates
use Prim.Native.String
use spotted_network.Base.{
  ℕ, ◌+◌, String, Bool, not, Option, none, some, ltb, ◌==◌, if◌then◌else◌, str_eq,
}
use spotted_network.Base.Int.{ℤ}
use spotted_network.Base.Outcome.{Error, error_text, message, wrapped, pure, handle, ◌>>=◌}
use spotted_network.Epoch.{u64}
use spotted_network.Numeric.{string_to_big_int, big_int_to_numeric}
use spotted_network.Numeric.Decimal.{to_string}
use spotted_network.Node.{Node, Env, Step, call, query, read}
use spotted_network.Repo.Tasks.{
  Task, TaskStatus, pending, completed, confirming, CreateTaskParams, get_task_by_id, create_task,
  is_pending,
}
use spotted_network.Repo.Responses.{ConsensusResponse, get_by_task_id}
use spotted_network.Task.Process.{get_client, process_task}
use spotted_network.BlockTime.{timestamp_to_block_number}
use spotted_network.Api.{
  SendRequestParams, HttpResponse, write_error, write_success, status_text, generate_task_id,
  get_required_confirmations, or_fail, internal,
}
use spotted_network.Api.Validate.{validate_request}

-- `ethereum.MainnetChainID`
abbrev pub mainnet_chain_id : ℕ
mainnet_chain_id = 11155111

module _ (env : Env) where
  -- The client whose state is asked for: for chain 1, the main client.
  unfoldable pub state_client : ℕ → ℕ → Step ℕ
  state_client mainnet chain = if chain == 1 then pure mainnet else get_client env chain

  -- Chain 1 and the main chain have the same average block time.
  unfoldable pub requested_block : ℕ → SendRequestParams → Step ℕ
  requested_block client params =
      if params.timestamp == 0
      then pure params.block_number
      else timestamp_to_block_number env client params.timestamp

  abbrev pub creation_params :
      SendRequestParams → ℕ → ℕ → Option ℤ → ℤ → TaskStatus → CreateTaskParams
  creation_params params epoch block key value status = record {
    task_id = generate_task_id env params (to_string value);
    target_address = params.target_address;
    chain_id = params.chain_id;
    block_number = block;
    epoch = epoch;
    key = big_int_to_numeric key;
    value = big_int_to_numeric (some value);
    status = status;
    required_confirmations = get_required_confirmations env params.chain_id;
  }

  unfoldable pub insert_task : CreateTaskParams → Step Task
  insert_task p =
      query env
        λ now n. let (row, tasks) = create_task p now n.tasks in (row, record n { tasks = tasks })

  abbrev pub created : Task → String → HttpResponse
  created task text =
      write_success task.task_id (status_text task.status) task.required_confirmations text

  -- A pending task is processed at once; an error changes only the text.
  unfoldable pub start_new : String → Task → Step HttpResponse
  start_new text task =
      if is_pending task
      then handle (process_task env task) (λ _. pure (created task text))
          (λ e. pure (created task (error_text (wrapped "Task created but processing failed" e))))
      else pure (created task text)

  abbrev pub status_at : ℕ → ℕ → ℕ → TaskStatus
  status_at latest block required =
      if ltb latest (u64 (block + required)) then confirming else pending

  abbrev pub status_message : ℕ → ℕ → ℕ → String
  status_message latest block required =
      if ltb latest (u64 (block + required))
      then "Waiting for block confirmations"
      else "Task has sufficient confirmations"

  -- `SendRequest` where there is neither a consensus nor a task.
  unfoldable pub create_new : SendRequestParams → ℕ → ℕ → ℕ → Option ℤ → ℤ → Step HttpResponse
  unfolding insert_task
  create_new params epoch client block key value =
      let required = get_required_confirmations env params.chain_id in
      or_fail 500 "Failed to get latest block" (call (env.block_number client)) λ latest.
        or_fail 500 "Failed to create task"
          (insert_task
            (creation_params params epoch block key value (status_at latest block required)))
          (start_new (status_message latest block required))

  abbrev pub already_exists : Task → HttpResponse
  already_exists task =
      write_success task.task_id (status_text task.status) task.required_confirmations
        (String.◌++◌ "Task already exists with status: " (status_text task.status))

  abbrev pub already_completed : String → HttpResponse
  already_completed id =
      write_success id "completed" 0 "Task already completed with consensus reached"

  -- `SendRequest` from the task's identifier on.
  unfoldable pub find_or_create : SendRequestParams → ℕ → ℕ → ℕ → Option ℤ → ℤ → Step HttpResponse
  find_or_create params epoch client block key value =
      let id = generate_task_id env params (to_string value) in
      handle (read env (λ n. get_by_task_id id n.responses))
        (λ consensus. elim consensus [
          | some _ ↦ pure (already_completed id)
          | none ↦
              handle (read env (λ n. get_task_by_id id n.tasks))
                (λ task. elim task [
                  | some t ↦ pure (already_exists t)
                  | none ↦ create_new params epoch client block key value
                ])
                (λ _. pure internal)
        ])
        (λ _. pure internal)

  -- `SendRequest` of a request that is valid.
  unfoldable pub accept_request : SendRequestParams → Step HttpResponse
  accept_request params =
      let key = string_to_big_int params.key in
      let target = env.crypto.hex_to_address params.target_address in
      or_fail 500 "Failed to get mainnet client" (get_client env mainnet_chain_id) λ mainnet.
        or_fail 500 "Failed to get current epoch" (call (env.current_epoch mainnet)) λ epoch.
          or_fail 400 "Failed to get state client" (state_client mainnet params.chain_id) λ client.
            or_fail 500 "Failed to convert timestamp to block number"
              (requested_block client params)
              λ block.
                or_fail 500 "Failed to get state at block"
                  (call (env.state_at client target key block))
                  (find_or_create params epoch client block key)

  -- `SendRequest`: the method, and the body if it decodes
  unfoldable pub send_request : String → Option SendRequestParams → Step HttpResponse
  send_request method body =
      if not (str_eq method "POST")
      then pure (write_error 405 (message "Method not allowed"))
      else elim body [
        | none ↦ pure (write_error 400 (message "Invalid request body"))
        | some params ↦
            handle (validate_request env params) (λ _. accept_request params)
              (λ e. pure (write_error 400 e))
      ]
