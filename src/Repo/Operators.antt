-- ===== src/Repo/Operators.antt =====
-- The table `operators`: pkg/repos/operators. The functions are the SQL of the queries; the cache of
-- ten seconds in front of the reads is a library's, and Gater has it where it asks for an operator.
-- `LOWER` is an argument, as the database has it.
pub mod Upsert
use spotted_network.Base.{
  ℕ, String, ◌≡◌, refl, Bool, true, false, ◌&&◌, Option, none, some, List, [], ◌∷◌, ◌++◌, str_eq,
  if◌then◌else◌,
}
use spotted_network.Numeric.{Numeric}
use spotted_network.Repo.Table.{find, update, select}

-- `operators.Operators`
pub record Operator : Type 0 where
  pub address : String
  pub signing_key : String
  pub p2p_key : String
  pub registered_at_block_number : ℕ
  pub active_epoch : ℕ
  pub exit_epoch : ℕ
  pub is_active : Bool
  pub weight : Numeric
  pub created_at : ℕ
  pub updated_at : ℕ

pub record UpsertOperatorParams : Type 0 where
  pub address : String
  pub signing_key : String
  pub p2p_key : String
  pub registered_at_block_number : ℕ
  pub active_epoch : ℕ
  pub exit_epoch : ℕ
  pub is_active : Bool
  pub weight : Numeric

pub record UpdateOperatorStateParams : Type 0 where
  pub address : String
  pub is_active : Bool
  pub weight : Numeric
  pub signing_key : String
  pub p2p_key : String

abbrev pub Operators : Type 0
Operators = List Operator

abbrev pub operator_key : Operator → String
operator_key o = o.address

abbrev signing : Operator → String
signing o = o.signing_key

-- `GetOperatorByAddress` and `GetOperatorBySigningKey`
abbrev pub get_operator_by_address : String → Operators → Option Operator
get_operator_by_address = find operator_key

abbrev pub get_operator_by_signing_key : String → Operators → Option Operator
get_operator_by_signing_key = find signing

-- `GetOperatorByP2PKey`: the key is compared in lower case
abbrev pub get_operator_by_p2p_key : (String → String) → String → Operators → Option Operator
get_operator_by_p2p_key lower k = find (λ o. lower o.p2p_key) (lower k)

-- `IsActiveOperator`
unfoldable pub exists_active : (String → String) → String → Operators → Bool
exists_active lower k [] = false
exists_active lower k (o ∷ rows) =
    let rest = exists_active lower k rows in
    if str_eq (lower o.p2p_key) (lower k) && o.is_active then true else rest

abbrev row_active : Operator → Bool
row_active o = o.is_active

-- `ListActiveOperators` and `ListAllOperators`
unfoldable pub list_active_operators : Operators → Operators
list_active_operators = select operator_key row_active

unfoldable pub list_all_operators : Operators → Operators
list_all_operators rows = rows

abbrev pub exiting : ℕ → ℕ → Operator → Operator
exiting epoch now o = record o { exit_epoch = epoch; updated_at = now }

-- `UpdateOperatorExitEpoch`
unfoldable pub update_operator_exit_epoch : String → ℕ → ℕ → Operators → Option Operator × Operators
update_operator_exit_epoch address epoch now rows =
    let rows' = update operator_key address (exiting epoch now) rows in
    (get_operator_by_address address rows', rows')

abbrev pub refreshed : UpdateOperatorStateParams → ℕ → Operator → Operator
refreshed p now o = record o {
  is_active = p.is_active;
  weight = p.weight;
  signing_key = p.signing_key;
  p2p_key = p.p2p_key;
  updated_at = now;
}

-- `UpdateOperatorState`
unfoldable pub update_operator_state :
    UpdateOperatorStateParams → ℕ → Operators → Option Operator × Operators
update_operator_state p now rows =
    let rows' = update operator_key p.address (refreshed p now) rows in
    (get_operator_by_address p.address rows', rows')

abbrev pub new_operator : UpsertOperatorParams → ℕ → Operator
new_operator p now = record {
  address = p.address;
  signing_key = p.signing_key;
  p2p_key = p.p2p_key;
  registered_at_block_number = p.registered_at_block_number;
  active_epoch = p.active_epoch;
  exit_epoch = p.exit_epoch;
  is_active = p.is_active;
  weight = p.weight;
  created_at = now;
  updated_at = now;
}

abbrev pub overwritten : UpsertOperatorParams → ℕ → Operator → Operator
overwritten p now o = record o {
  signing_key = p.signing_key;
  p2p_key = p.p2p_key;
  registered_at_block_number = p.registered_at_block_number;
  active_epoch = p.active_epoch;
  exit_epoch = p.exit_epoch;
  is_active = p.is_active;
  weight = p.weight;
  updated_at = now;
}

-- `UpsertOperator`: insert, or on a conflict of the address overwrite all but the creation time
unfoldable pub upsert_operator : UpsertOperatorParams → ℕ → Operators → Option Operator × Operators
upsert_operator p now rows =
    let rows' : Operators = elim (get_operator_by_address p.address rows) [
      | none ↦ rows ++ new_operator p now ∷ []
      | some _ ↦ update operator_key p.address (overwritten p now) rows
    ] in
    (get_operator_by_address p.address rows', rows')
