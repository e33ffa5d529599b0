-- ===== src/Signer/Message.antt =====
-- Signing and verifying fit together.
use spotted_network.Base.{ℕ, String, ◌≡◌, inl, inr, arith, str_eq, if◌then◌else◌}
use spotted_network.Base.Outcome.{Reply, Reply-cases, Outcome-cases, ok, err, message}
use spotted_network.Signer.{
  Bytes, Crypto, TaskSignParams, task_message, signing_address, sign_task_response, check_signer,
  verify_task_response,
}

-- A signature gives back the public key of the key that made it.
abbrev pub Recovers : Crypto → Type 0
Recovers c =
    (hash : Bytes) (private : ℕ) (signature : Bytes)
    → c.sign hash private ≡ Reply.value signature
    → c.sig_to_pub hash signature ≡ Reply.value (c.public_key private)

-- A response that was signed with a key verifies for the same parameters against that key's address,
-- and is refused for any other address.
pub verify_task_response-sign_task_response :
    (c : Crypto) (private : ℕ) (p : TaskSignParams) (signature : Bytes) (address : String)
    → Recovers c
    → sign_task_response c private p ≡ ok signature
    → verify_task_response c p signature address ≡ (
        if str_eq (signing_address c private) address
        then ok tt
        else err (message "invalid signature: recovered address does not match signer"))
unfolding sign_task_response verify_task_response check_signer signing_address
verify_task_response-sign_task_response c private p signature address recovers signed =
    elim (Outcome-cases (task_message p)) [
      | inr (inl (e, bad)) ↦ ground arith
      | inr (inr bad) ↦ ground arith
      | inl (msg, packed) ↦ elim (Reply-cases (c.sign (c.keccak256 msg) private)) [
        | inr (e, bad) ↦ ground arith
        | inl (s, made) ↦ ground (arith, recovers (c.keccak256 msg) private s made)
      ]
    ]
