-- ===== src/Repo/Responses.antt =====
-- The table `consensus_responses`: pkg/repos/consensus_responses.
use spotted_network.Base.{
  ℕ, String, Bool, false, ◌&&◌, Option, none, some, List, [], ◌∷◌, ◌++◌, str_eq, ◌==◌,
  if◌then◌else◌,
}
use spotted_network.Base.Outcome.{Outcome, ok, err, message}
use spotted_network.Base.Int.{ℤ, eqb_ℤ}
use spotted_network.Numeric.{Numeric}
use spotted_network.Repo.Table.{find}

abbrev pub Bytes : Type 0
Bytes = List ℕ

-- `consensus_responses.ConsensusResponse`
pub record ConsensusResponse : Type 0 where
  pub task_id : String
  pub epoch : ℕ
  pub chain_id : ℕ
  pub target_address : String
  pub block_number : ℕ
  pub key : Numeric
  pub value : Numeric
  pub aggregated_signatures : List Bytes
  pub operator_addresses : List String
  pub created_at : ℕ
  pub updated_at : ℕ

pub record CreateConsensusResponseParams : Type 0 where
  pub task_id : String
  pub epoch : ℕ
  pub value : Numeric
  pub key : Numeric
  pub chain_id : ℕ
  pub block_number : ℕ
  pub target_address : String
  pub aggregated_signatures : List Bytes
  pub operator_addresses : List String

pub record GetByRequestParams : Type 0 where
  pub target_address : String
  pub chain_id : ℕ
  pub block_number : ℕ
  pub key : Numeric

abbrev pub Responses : Type 0
Responses = List ConsensusResponse

abbrev pub response_key : ConsensusResponse → String
response_key r = r.task_id

-- `GetConsensusResponseByTaskId`
abbrev pub get_by_task_id : String → Responses → Option ConsensusResponse
get_by_task_id = find response_key

-- `=` of two NUMERIC columns, where neither has an exponent
abbrev same_int : Option ℤ → Option ℤ → Bool
same_int none _ = false
same_int (some a) none = false
same_int (some a) (some b) = eqb_ℤ a b

abbrev pub same_request : String → ℕ → ℕ → Numeric → ConsensusResponse → Bool
same_request target chain block key r =
    str_eq r.target_address target
    && (r.chain_id == chain)
    && (r.block_number == block)
    && same_int r.key.int key.int

-- `GetConsensusResponseByRequest`
unfoldable pub get_by_request : GetByRequestParams → Responses → Option ConsensusResponse
get_by_request p [] = none
get_by_request p (r ∷ rows) =
    let rest = get_by_request p rows in
    if same_request p.target_address p.chain_id p.block_number p.key r then some r else rest

abbrev pub new_response : CreateConsensusResponseParams → ℕ → ConsensusResponse
new_response p now = record {
  task_id = p.task_id;
  epoch = p.epoch;
  chain_id = p.chain_id;
  target_address = p.target_address;
  block_number = p.block_number;
  key = p.key;
  value = p.value;
  aggregated_signatures = p.aggregated_signatures;
  operator_addresses = p.operator_addresses;
  created_at = now;
  updated_at = now;
}

abbrev pub request_of : CreateConsensusResponseParams → GetByRequestParams
request_of p = record {
  target_address = p.target_address;
  chain_id = p.chain_id;
  block_number = p.block_number;
  key = p.key;
}

abbrev duplicate : {A : Type 0} → Outcome A
duplicate = err (message "duplicate key value violates unique constraint")

-- `CreateConsensusResponse`: neither the task nor the request may be there, by the primary key and
-- by `unique_consensus_request`.
unfoldable pub create_consensus_response :
    CreateConsensusResponseParams → ℕ → Responses → Outcome ConsensusResponse × Responses
create_consensus_response p now rows = elim (get_by_task_id p.task_id rows) [
  | some _ ↦ (duplicate, rows)
  | none ↦ elim (get_by_request (request_of p) rows) [
    | some _ ↦ (duplicate, rows)
    | none ↦ (ok (new_response p now), rows ++ new_response p now ∷ [])
  ]
]
