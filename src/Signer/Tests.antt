-- ===== src/Signer/Tests.antt =====
-- The theorems on the signer at concrete keys and parameters.
use spotted_network.Base.{ℕ, ◌≡◌, refl, ap, some, [], ◌∷◌, arith, str_eq, if◌then◌else◌}
use mathlib.Core.Path.{subst}
use spotted_network.Base.Int.{pos}
use spotted_network.Base.Lists.{drop, replicate}
use spotted_network.Base.Outcome.{Reply, ok, err, message}
use spotted_network.Signer.{
  Bytes, Crypto, TaskSignParams, abs_bytes, task_message, big_endian, left_pad, signing_address,
  sign_task_response, verify_task_response,
}
use spotted_network.Signer.Message.{Recovers, verify_task_response-sign_task_response}
use spotted_network.Signer.Packing.{Fits, task_message_injective}

-- Keys are their own signatures and addresses.
abbrev crypto : Crypto
crypto = record {
  keccak256 = λ b. b;
  sign = λ hash private. Reply.value (private ∷ []);
  sig_to_pub = λ hash signature. elim signature [ [] ↦ Reply.value 0 | k ∷ _ ↦ Reply.value k ];
  public_key = λ private. private;
  pubkey_to_address = λ key. key ∷ [];
  hex = λ b. elim b [ [] ↦ "nobody" | k ∷ _ ↦ "somebody" ];
  hex_to_address = λ _. [];
}

abbrev head : Bytes → ℕ
head [] = 0
head (k ∷ _) = k

abbrev of_reply : Reply Bytes → Bytes
of_reply (Reply.value b) = b
of_reply (Reply.fault e) = []

recovers : Recovers crypto
recovers hash private signature e =
    subst (λ s. crypto.sig_to_pub hash s ≡ Reply.value private) (ap of_reply e) refl

abbrev params : TaskSignParams
params = record {
  user = replicate 20 7;
  chain_id = 1;
  block_number = 5;
  key = some (pos 7);
  value = some (pos 42);
}

abbrev seven : ℕ
seven = 7

abbrev forty_two : ℕ
forty_two = 42

signed : sign_task_response crypto 3 params ≡ ok (3 ∷ [])
unfolding sign_task_response task_message abs_bytes
signed = refl

verify_task_response-sign_task_response_example :
    verify_task_response crypto params (3 ∷ []) "somebody" ≡ (
      if str_eq (signing_address crypto 3) "somebody"
      then ok tt
      else err (message "invalid signature: recovered address does not match signer"))
verify_task_response-sign_task_response_example =
    verify_task_response-sign_task_response crypto 3 params (3 ∷ []) "somebody" recovers signed

fits : Fits params 7 42
fits = record {
  user = refl;
  chain = omega arith;
  block = omega arith;
  key_is = refl;
  value_is = refl;
  key_fits = omega arith;
  value_fits = omega arith;
}

task_message_injective_example :
    (params.user ≡ params.user)
    × (params.chain_id ≡ 1)
    × (params.block_number ≡ 5)
    × (seven ≡ 7)
    × (forty_two ≡ 42)
task_message_injective_example =
    task_message_injective params params seven 7 forty_two 42 fits fits refl

-- The last two bytes of a padded number.
padded_300 : drop 30 (left_pad (big_endian 300) 32) ≡ 1 ∷ 44 ∷ []
unfolding left_pad big_endian
padded_300 = refl
