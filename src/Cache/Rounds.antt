-- ===== src/Cache/Rounds.antt =====
-- How `GetWithExpire` ends.
use spotted_network.Base.{ℕ, ◌+◌, ◌≡◌, inl, inr, String, Option, ◌∷◌, [], arith}
use spotted_network.Base.Outcome.{Reply, Reply-cases, Outcome, err, outcome, ◌>>=◌, handle, lift}
use spotted_network.Cache.{
  Redis, Value, Target, Codec, Limits, Served, store, lock, marshal, unmarshal, command,
  invalid_key, read_through, get_no_cache,
}
use spotted_network.Signer.{Bytes}

module _ {V R : Type 0} (codec : Codec V) (redis : Redis R) (limits : Limits)
    (load : ℕ → Reply (Value V × ℕ)) (key : String) (target : Target) where
  -- What the function's answer becomes: its error, or its value, packed and unpacked.
  abbrev pub passed : Reply Bytes → Outcome (Option (Value V))
  passed (Reply.fault e) = err e
  passed (Reply.value bytes) = outcome (unmarshal codec bytes target)

  abbrev pub through : Reply (Value V × ℕ) → Outcome (Option (Value V))
  through (Reply.fault e) = err e
  through (Reply.value found) = passed (marshal codec found.0)

  -- `getNoCache` calls the function once, and answers what it answered, whatever the server does.
  pub get_no_cache_lem :
      (s : Served R)
      → ((get_no_cache codec redis limits load key target s).0 ≡ through (load s.loads))
        × ((get_no_cache codec redis limits load key target s).1.loads ≡ s.loads + 1)
  unfolding get_no_cache read_through command invalid_key handle lift ◌>>=◌
  get_no_cache_lem s = elim (Reply-cases (load s.loads)) [
    | inr (e, down) ↦ elim (Reply-cases (redis.del (lock key ∷ []) s.server).0) [
      | inl (n, gone) ↦ ground (arith, down, gone)
      | inr (f, kept) ↦ ground (arith, down, kept)
    ]
    | inl (found, up) ↦ elim (Reply-cases (marshal codec found.0)) [
      | inr (e, bad) ↦ ground (arith, up, bad)
      | inl (bytes, good) ↦ elim (Reply-cases (redis.set (store key) bytes found.1 s.server).0) [
        | inl (u, written) ↦ ground (arith, up, good, written)
        | inr (f, lost) ↦ ground (arith, up, good, lost)
      ]
    ]
  ]
