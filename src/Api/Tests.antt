-- ===== src/Api/Tests.antt =====
-- Requests to the sample's process, and the properties at them.
use spotted_network.Base.{ℕ, ◌<◌, String, ◌≡◌, refl, true, none, some, [], ◌∷◌, ◌++◌, arith}
use spotted_network.Base.Int.{pos}
use spotted_network.Base.Outcome.{Reply, ok, message, ◌>>=◌, pure}
use spotted_network.Node.{Node, Env, call}
use spotted_network.Node.Sample.{env as quiet, node, empty, task}
use spotted_network.Repo.Table.{find}
use spotted_network.Repo.Tasks.{Task}
use spotted_network.Task.Process.{get_client}
use spotted_network.Api.{
  SendRequestParams, write_error, write_success, generate_task_id, text_bytes,
}
use spotted_network.Api.Validate.{validate_request, check_key, check_block, check_height}
use spotted_network.Api.Validate.Sound.{Key, Height, validate_request-Height}
use spotted_network.Api.Send.{send_request, already_exists}
use spotted_network.Api.Send.Answers.{later}
use spotted_network.Api.Send.Creates.{waiting, send_request_twice, send_request_collides}
use spotted_network.Api.Consensus.{parse_uint}
use spotted_network.Numeric.Decimal.{parse_nat, to_string}
use spotted_network.Peer.{encode_hex}

-- The sample's world, where every chain has reached block 400.
abbrev env : Env
env = record quiet { block_number = λ chain tick. Reply.value 400 }

abbrev request : ℕ → SendRequestParams
request block = record {
  chain_id = 11155111;
  target_address = "target";
  key = "7";
  block_number = block;
  timestamp = 0;
}

parse_uint_runs : parse_uint "18446744073709551616" ≡ none
unfolding parse_uint parse_nat
parse_uint_runs = refl

utf8_runs : text_bytes "é€" ≡ 195 ∷ 169 ∷ 226 ∷ 130 ∷ 172 ∷ []
unfolding text_bytes
utf8_runs = refl

get_refused :
    (send_request env "GET" (some (request 44)) (node empty 0)).0
    ≡ ok (write_error 405 (message "Method not allowed"))
unfolding send_request pure
get_refused = refl

abbrev id_of : ℕ → String
id_of block = generate_task_id env (request block) "42"

validate_request-Height_example :
    (0 < 11155111)
    × ((required : ℕ) × (some 3 ≡ some required))
    × (true ≡ true)
    × Key env (request 44)
    × Height env (request 44)
unfolding validate_request check_key check_block check_height ◌>>=◌ get_client call
validate_request-Height_example = validate_request-Height env (request 44) (node empty 0) refl

send_request_twice_example :
    let start = node empty 0 in
    let created = record start {
      tasks = start.tasks ++ waiting env (request 399) 1 (pos 42) 6 ∷ [];
      tick = 7;
    } in
    (send_request env "POST" (some (request 399)) start
      ≡ (ok (write_success (id_of 399) "confirming" 3 "Waiting for block confirmations"), created))
    × (send_request env "POST" (some (request 399)) created ≡ (
      ok (write_success (id_of 399) "confirming" 3 "Task already exists with status: confirming"),
      later 5 created,
    ))
unfolding find generate_task_id text_bytes encode_hex to_string
send_request_twice_example =
    send_request_twice env (λ i. refl) (request 399) 7 400 1 3 (pos 42) refl refl refl (omega arith)
      (omega arith) refl (omega arith) (omega arith) refl refl (λ i. refl) (λ i. refl) (λ i. refl)
      (node empty 0) refl refl (omega arith) (omega arith)

abbrev other_task : Task
other_task = record (task 0) { task_id = id_of 300; block_number = 300 }

abbrev with_other : Node
with_other = record (node empty 0) { tasks = other_task ∷ [] }

send_request_collides_example :
    send_request env "POST" (some (request 44)) with_other
    ≡ (ok (already_exists env other_task), later 5 with_other)
unfolding find generate_task_id text_bytes encode_hex to_string
send_request_collides_example =
    send_request_collides env (λ i. refl) (request 44) 7 400 1 3 (pos 42) refl refl refl
      (omega arith) (omega arith) refl (omega arith) (omega arith) refl refl (λ i. refl) (λ i. refl)
      (λ i. refl) (request 300) other_task with_other refl refl refl refl refl refl
