-- ===== src/Api.antt =====
-- The HTTP interface: pkg/operator/api. A request is what `net/http`, `chi` and the JSON decoder make
-- of it, and a response is what the three writers of helpers.go are given. As in `Base.Outcome`, the
-- numbers and dates that a format string puts into a text are left out.
pub mod Validate
pub mod Send
pub mod Consensus
mod Tests
use Prim.Native.Char.{Char, code}
use Prim.Native.String
use spotted_network.Base.{
  ℕ, ◌+◌, ◌/◌, ◌%◌, String, Option, none, some, List, [], ◌∷◌, ◌++◌, ltb, if◌then◌else◌,
}
use spotted_network.Base.Outcome.{Error, pure, handle}
use spotted_network.Signer.{Bytes}
use spotted_network.Node.{Env, Step}
use spotted_network.Peer.{encode_hex}
use spotted_network.Repo.Tasks.{TaskStatus, pending, completed, confirming}
use spotted_network.Repo.Responses.{ConsensusResponse}

-- A field that the body leaves out is zero.
pub record SendRequestParams : Type 0 where
  pub chain_id : ℕ
  pub target_address : String
  pub key : String
  pub block_number : ℕ
  pub timestamp : ℕ

-- `writeError`, `writeSuccess`, and `writeJSON` of a `ConsensusResponseWrapper`
pub data HttpResponse : Type 0 where
  write_error : ℕ → Error → HttpResponse
  write_success : String → String → ℕ → String → HttpResponse
  write_consensus : ConsensusResponse → String → HttpResponse

abbrev pub status_text : TaskStatus → String
status_text pending = "pending"
status_text completed = "completed"
status_text confirming = "confirming"

-- The UTF-8 of a character.
abbrev utf8 : ℕ → Bytes
utf8 c =
    if ltb c 128
    then c ∷ []
    else if ltb c 2048
    then (192 + c / 64) ∷ (128 + c % 64) ∷ []
    else if ltb c 65536
    then (224 + c / 4096) ∷ (128 + c / 64 % 64) ∷ (128 + c % 64) ∷ []
    else (240 + c / 262144) ∷ (128 + c / 4096 % 64) ∷ (128 + c / 64 % 64) ∷ (128 + c % 64) ∷ []

-- `[]byte(s)`
unfoldable pub text_bytes : String → Bytes
text_bytes String.[] = []
text_bytes (String.◌∷◌ c s) = utf8 (code c) ++ text_bytes s

-- `byte(n)`
abbrev byte : ℕ → ℕ
byte n = n % 256

module _ (env : Env) where
  -- What `generateTaskID` hashes.
  abbrev pub task_id_data : SendRequestParams → String → Bytes
  task_id_data params value =
      env.crypto.hex_to_address params.target_address
      ++ byte params.chain_id ∷ byte params.block_number ∷ text_bytes params.key
      ++ text_bytes value

  -- `generateTaskID`
  unfoldable pub generate_task_id : SendRequestParams → String → String
  generate_task_id params value = encode_hex (env.crypto.keccak256 (task_id_data params value))

  -- `getRequiredConfirmations`
  abbrev pub get_required_confirmations : ℕ → ℕ
  get_required_confirmations chain = elim (env.confirmations chain) [ some n ↦ n | none ↦ 12 ]

-- `if err != nil { writeError(w, status, fmt.Sprintf("what: %v", err)); return }`
unfoldable pub or_fail :
    {A : Type 0} → ℕ → String → Step A → (A → Step HttpResponse) → Step HttpResponse
unfolding handle
or_fail status what m k = handle m k (λ e. pure (write_error status (Error.wrapped what e)))

-- The answer where the error is only logged.
abbrev pub internal : HttpResponse
internal = write_error 500 (Error.message "Internal server error")
