-- ===== src/Signer.antt =====
-- The signer of task responses: pkg/common/crypto/signer/signer.go. Hashing, signing and the
-- recovery of a public key are a library's, and are arguments.
pub mod Message
pub mod Packing
mod Tests
use spotted_network.Base.{
  ℕ, zero, suc, ◌-◌, ◌/◌, ◌%◌, String, Bool, Option, none, some, List, [], ◌∷◌, ◌++◌, ltb, ◌==◌,
  str_eq, if◌then◌else◌,
}
use spotted_network.Base.Int.{ℤ, pos, negsuc}
use spotted_network.Base.Lists.{length, replicate}
use spotted_network.Base.Outcome.{
  Reply, Outcome, ok, err, panic, message, wrapped, and_then, outcome,
}

abbrev pub Bytes : Type 0
Bytes = List ℕ

-- What go-ethereum's `crypto` and `common` packages provide. An address is its 20 bytes; keys are
-- numbers.
pub record Crypto : Type 0 where
  pub keccak256 : Bytes → Bytes
  pub sign : Bytes → ℕ → Reply Bytes
  pub sig_to_pub : Bytes → Bytes → Reply ℕ
  pub public_key : ℕ → ℕ
  pub pubkey_to_address : ℕ → Bytes
  pub hex : Bytes → String
  pub hex_to_address : String → Bytes

-- `TaskSignParams`
pub record TaskSignParams : Type 0 where
  pub user : Bytes
  pub chain_id : ℕ
  pub block_number : ℕ
  pub key : Option ℤ
  pub value : Option ℤ

-- The digits of `n` in base 256 before `acc`, on fuel.
base256 : ℕ → ℕ → Bytes → Bytes
base256 zero n acc = acc
base256 (suc f) n acc =
    let rest = base256 f (n / 256) ((n % 256) ∷ acc) in if n == 0 then acc else rest

-- `big.Int.Bytes` of a number: big-endian, with no leading zero; `n` digits are enough
unfoldable pub big_endian : ℕ → Bytes
unfolding base256
big_endian n = base256 n n []

-- `big.Int.Bytes` takes the absolute value, and reads through a nil pointer.
unfoldable pub abs_bytes : Option ℤ → Outcome Bytes
abs_bytes none = panic
abs_bytes (some (pos n)) = ok (big_endian n)
abs_bytes (some (negsuc n)) = ok (big_endian (suc n))

-- `common.LeftPadBytes`
unfoldable pub left_pad : Bytes → ℕ → Bytes
left_pad b n = replicate (n - length b) 0 ++ b

-- `big.NewInt(int64(n)).Bytes()` of a `uint64`: above the `int64` range the integer is negative
unfoldable pub int64_bytes : ℕ → Bytes
int64_bytes n =
    if ltb n 9223372036854775808 then big_endian n else big_endian (18446744073709551616 - n)

-- The packing that `SignTaskResponse` and `VerifyTaskResponse` share.
unfoldable pub task_message : TaskSignParams → Outcome Bytes
task_message p = and_then (abs_bytes p.key) λ key. and_then (abs_bytes p.value) λ value. ok (
    p.user
    ++ left_pad (int64_bytes p.chain_id) 32
    ++ left_pad (int64_bytes p.block_number) 32
    ++ left_pad key 32
    ++ left_pad value 32)

module _ (c : Crypto) where
  -- `GetSigningAddress().Hex()`
  unfoldable pub signing_address : ℕ → String
  signing_address private = c.hex (c.pubkey_to_address (c.public_key private))

  -- `SignTaskResponse`
  unfoldable pub sign_task_response : ℕ → TaskSignParams → Outcome Bytes
  sign_task_response private p =
      and_then (task_message p) λ msg. outcome (c.sign (c.keccak256 msg) private)

  -- `Sign`
  unfoldable pub sign_message : ℕ → Bytes → Outcome Bytes
  sign_message private msg = outcome (c.sign (c.keccak256 msg) private)

  check_signer : Bytes → Bytes → String → Outcome (Unit {0})
  check_signer msg signature signer_addr = elim (c.sig_to_pub (c.keccak256 msg) signature) [
    | Reply.fault e ↦ err (wrapped "failed to recover public key" e)
    | Reply.value pub_key ↦
        if str_eq (c.hex (c.pubkey_to_address pub_key)) signer_addr
        then ok tt
        else err (message "invalid signature: recovered address does not match signer")
  ]

  -- `VerifyTaskResponse`
  unfoldable pub verify_task_response : TaskSignParams → Bytes → String → Outcome (Unit {0})
  unfolding check_signer
  verify_task_response p signature signer_addr =
      and_then (task_message p) λ msg. check_signer msg signature signer_addr
