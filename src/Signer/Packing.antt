-- ===== src/Signer/Packing.antt =====
-- What the signed message determines: numbers in 32 bytes can be read back, and the fields split off.
use spotted_network.Base.{
  ℕ, zero, suc, ◌+◌, ◌-◌, ◌*◌, ◌/◌, ◌%◌, ◌^◌, ◌≤◌, ◌<◌, ◌≡◌, refl, sym, ap, ◌∙◌, some, [], ◌∷◌,
  ◌++◌, arith,
}
use mathlib.Core.List.{append_assoc}
use spotted_network.Base.Int.{pos}
use spotted_network.Base.Lists.{length, length-append, replicate}
use spotted_network.Base.Outcome.{Outcome, ok, err, panic}
use spotted_network.Signer.{
  Bytes, TaskSignParams, base256, big_endian, abs_bytes, left_pad, int64_bytes, task_message,
}

-- The number that bytes write in base 256.
abbrev pub number : ℕ → Bytes → ℕ
number acc [] = acc
number acc (b ∷ bs) = number (acc * 256 + b) bs

number_append : (acc : ℕ) (xs ys : Bytes) → number acc (xs ++ ys) ≡ number (number acc xs) ys
number_append acc [] ys = refl
number_append acc (x ∷ xs) ys = number_append (acc * 256 + x) xs ys

number_zeros : (n : ℕ) (b : Bytes) → number 0 (replicate n 0 ++ b) ≡ number 0 b
number_zeros zero b = refl
number_zeros (suc n) b = number_zeros n b

-- With enough fuel the digits before `acc` write `n`, so that reading goes on from `n`.
number-base256 : (f n : ℕ) (acc : Bytes) → n ≤ f → number 0 (base256 f n acc) ≡ number n acc
unfolding base256
number-base256 zero n acc h = ground arith
number-base256 (suc f) n acc h =
    let small : n / 256 ≤ f = omega arith in
    let whole : n / 256 * 256 + n % 256 ≡ n = omega arith in
    let rest = number-base256 f (n / 256) ((n % 256) ∷ acc) small ∙ ap (λ k. number k acc) whole in
    ground (arith, rest)

number-big_endian : (n : ℕ) → number 0 (big_endian n) ≡ n
unfolding big_endian
number-big_endian n = number-base256 n n [] (omega arith)

-- A number below 256^k is written with at most k bytes more than `acc`.
length-base256 : (f k n : ℕ) (acc : Bytes) → n < 256 ^ k → length (base256 f n acc) ≤ k + length acc
unfolding base256
length-base256 zero k n acc h = omega arith
length-base256 (suc f) zero n acc h = ground arith
length-base256 (suc f) (suc k) n acc h =
    let small : n / 256 < 256 ^ k = omega arith in
    ground (arith, length-base256 f k (n / 256) ((n % 256) ∷ acc) small)

length-big_endian : (k n : ℕ) → n < 256 ^ k → length (big_endian n) ≤ k
unfolding big_endian
length-big_endian k n h = omega (arith, length-base256 n k n [] h)

length-replicate : (n : ℕ) → length (replicate {A = ℕ} n 0) ≡ n
length-replicate zero = refl
length-replicate (suc n) = ap suc (length-replicate n)

number-left_pad : (b : Bytes) (n : ℕ) → number 0 (left_pad b n) ≡ number 0 b
unfolding left_pad
number-left_pad b n = number_zeros (n - length b) b

length-left_pad : (b : Bytes) (n : ℕ) → length b ≤ n → length (left_pad b n) ≡ n
unfolding left_pad
length-left_pad b n h =
    omega (arith, length-append (replicate (n - length b) 0) b, length-replicate (n - length b))

-- Lists of the same length in front can be split off.
append_split :
    (xs ys us vs : Bytes) → length xs ≡ length ys → xs ++ us ≡ ys ++ vs → (xs ≡ ys) × (us ≡ vs)
append_split [] [] us vs h e = (refl, e)
append_split [] (y ∷ ys) us vs h e = ground arith
append_split (x ∷ xs) [] us vs h e = ground arith
append_split (x ∷ xs) (y ∷ ys) us vs h e =
    let (front, back) = append_split xs ys us vs (omega arith) (ground arith) in
    (ground arith, back)

-- `common.LeftPadBytes(n.Bytes(), 32)`
abbrev padded : ℕ → Bytes
padded n = left_pad (big_endian n) 32

length-padded : (n : ℕ) → n < 256 ^ 32 → length (padded n) ≡ 32
length-padded n h = length-left_pad (big_endian n) 32 (length-big_endian 32 n h)

padded_injective : (a b : ℕ) → padded a ≡ padded b → a ≡ b
padded_injective a b e =
    sym (number-left_pad (big_endian a) 32 ∙ number-big_endian a)
    ∙ (ap (number 0) e ∙ (number-left_pad (big_endian b) 32 ∙ number-big_endian b))

-- One padded number in front.
padded_split :
    (a b : ℕ) (us vs : Bytes)
    → a < 256 ^ 32
    → b < 256 ^ 32
    → padded a ++ us ≡ padded b ++ vs
    → (a ≡ b) × (us ≡ vs)
padded_split a b us vs ha hb e =
    let (front, back) =
      append_split (padded a) (padded b) us vs (length-padded a ha ∙ sym (length-padded b hb)) e in
    (padded_injective a b front, back)

-- Parameters whose fields fit the message: an address of 20 bytes, a chain and a block in the range
-- of `int64`, and a key and a value from 0 to 2^256.
pub record Fits (p : TaskSignParams) (key value : ℕ) : Type 0 where
  pub user : length p.user ≡ 20
  pub chain : p.chain_id < 9223372036854775808
  pub block : p.block_number < 9223372036854775808
  pub key_is : p.key ≡ some (pos key)
  pub value_is : p.value ≡ some (pos value)
  pub key_fits : key < 256 ^ 32
  pub value_fits : value < 256 ^ 32

abbrev packed : TaskSignParams → ℕ → ℕ → Bytes
packed p key value =
    p.user ++ (padded p.chain_id ++ (padded p.block_number ++ (padded key ++ padded value)))

message_packed :
    (p : TaskSignParams) (key value : ℕ)
    → Fits p key value
    → task_message p ≡ ok (packed p key value)
unfolding task_message int64_bytes abs_bytes
message_packed p key value f =
    let c : Bytes = padded p.chain_id in
    let b : Bytes = padded p.block_number in
    let nested =
      append_assoc (p.user ++ c ++ b) (padded key) (padded value)
      ∙ (append_assoc (p.user ++ c) b _ ∙ append_assoc p.user c _) in
    ground (arith, f.chain, f.block, f.key_is, f.value_is, nested)

bytes : Outcome Bytes → Bytes
bytes (ok b) = b
bytes (err e) = []
bytes panic = []

-- Two tasks whose fields fit the message are signed by the same message only if they agree in the
-- target, the chain, the block, the key and the value.
pub task_message_injective :
    (p q : TaskSignParams) (j k v w : ℕ)
    → Fits p j v
    → Fits q k w
    → task_message p ≡ task_message q
    → (p.user ≡ q.user)
      × (p.chain_id ≡ q.chain_id)
      × (p.block_number ≡ q.block_number)
      × (j ≡ k)
      × (v ≡ w)
unfolding bytes
task_message_injective p q j k v w f g e =
    let same : packed p j v ≡ packed q k w =
      ap bytes (sym (message_packed p j v f) ∙ (e ∙ message_packed q k w g)) in
    let (user, e1) = append_split p.user q.user _ _ (f.user ∙ sym g.user) same in
    let (chain, e2) =
      padded_split p.chain_id q.chain_id _ _ (omega (arith, f.chain)) (omega (arith, g.chain)) e1 in
    let (block, e3) =
      padded_split p.block_number q.block_number _ _ (omega (arith, f.block))
        (omega (arith, g.block)) e2 in
    let (key, e4) = padded_split j k _ _ f.key_fits g.key_fits e3 in
    (user, chain, block, key, padded_injective v w e4)
