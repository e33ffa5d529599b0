-- ===== src/Cache/Coherent.antt =====
-- What a call reads after an invalidation and after a write, on a server that keeps what it is given.
use spotted_network.Base.{
  ℕ, suc, ◌+◌, ◌/◌, ◌≡◌, refl, ap, ◌∙◌, String, Bool, true, false, ◌||◌, Option, none, some, List,
  ◌∷◌, [], arith, str_eq, eq_refl, if◌then◌else◌,
}
use spotted_network.Base.Outcome.{Reply, Outcome, ok, outcome, ◌>>=◌, handle, lift, for_each}
use spotted_network.Cache.{
  Redis, Value, Target, Codec, Limits, Served, store, lock, marshal, unmarshal, command,
  invalid_key, invalidate, set, read_through, get_no_cache, rounds, get_with_expire,
}
use spotted_network.Signer.{Bytes}

abbrev pub among : String → List String → Bool
among k [] = false
among k (j ∷ js) = str_eq k j || among k js

abbrev pub is_missing : {A : Type 0} → Option A → Bool
is_missing none = true
is_missing (some a) = false

-- Redis's documented behaviour within the lifetime of the keys: `view` is what a state has under each
-- key. The server answers every command.
pub record Keeping {R : Type 0} (redis : Redis R) (view : R → String → Option Bytes) : Type 0 where
  pub get_answers : (k : String) (r : R) → (redis.get k r).0 ≡ Reply.value (view r k)
  pub get_keeps : (k j : String) (r : R) → view (redis.get k r).1 j ≡ view r j
  pub set_answers :
      (k : String) (b : Bytes) (t : ℕ) (r : R) → (redis.set k b t r).0 ≡ Reply.value tt
  pub set_writes :
      (k : String) (b : Bytes) (t : ℕ) (r : R) (j : String)
      → view (redis.set k b t r).1 j ≡ (if str_eq j k then some b else view r j)
  pub set_nx_answers :
      (k : String) (t : ℕ) (r : R) → (redis.set_nx k t r).0 ≡ Reply.value (is_missing (view r k))
  pub del_answers : (ks : List String) (r : R) → (n : ℕ) × ((redis.del ks r).0 ≡ Reply.value n)
  pub del_removes :
      (ks : List String) (r : R) (j : String)
      → view (redis.del ks r).1 j ≡ (if among j ks then none else view r j)

module _ {V R : Type 0} (codec : Codec V) (redis : Redis R) (limits : Limits)
    (view : R → String → Option Bytes) (keeping : Keeping redis view)
    (load : ℕ → Reply (Value V × ℕ)) (key : String) (target : Target) (others : ℕ → R → R)
    (nap : ℕ → ℕ) (cancelled : ℕ → Bool) where
  abbrev pub Answer : Type 0
  Answer = Outcome (Option (Value V))

  abbrev pub get_it : Served R → Option (Answer × Served R)
  get_it = get_with_expire codec redis limits load key target others nap cancelled

  first_round :
      (s : Served R)
      → get_it s
        ≡ rounds codec redis limits load key target others nap cancelled
            (suc (limits.max_waiting_time / 50))
            0
            s
  unfolding get_with_expire
  first_round s =
      let e : limits.max_waiting_time / 50 + 1 ≡ suc (limits.max_waiting_time / 50) = omega arith in
      ap (λ f. rounds codec redis limits load key target others nap cancelled f 0 s) e

  -- A call that finds the key answers what is under it, and does not call the function.
  get-hit :
      (s : Served R) (bytes : Bytes)
      → view s.server (store key) ≡ some bytes
      → (end : Served R) × (get_it s ≡ some (outcome (unmarshal codec bytes target), end))
        × (end.loads ≡ s.loads)
  unfolding rounds command
  get-hit s bytes there = (
    record s { server = (redis.get (store key) s.server).1 },
    first_round s ∙ ground (arith, there, keeping.get_answers (store key) s.server),
    refl,
  )

  -- A call that finds neither the key nor its lock calls the function, and leaves its value.
  get-miss :
      (s : Served R) (v : Value V) (ttl : ℕ) (bytes : Bytes)
      → view s.server (store key) ≡ none
      → view s.server (lock key) ≡ none
      → load s.loads ≡ Reply.value (v, ttl)
      → marshal codec v ≡ Reply.value bytes
      → (end : Served R) × (get_it s ≡ some (outcome (unmarshal codec bytes target), end))
        × (end.loads ≡ s.loads + 1)
        × (view end.server (store key) ≡ some bytes)
  unfolding rounds command get_no_cache read_through handle lift ◌>>=◌
  get-miss s v ttl bytes gone unlocked loads packs =
      let got = (redis.get (store key) s.server).1 in
      let held = (redis.set_nx (lock key) limits.read_through_per_key_limit got).1 in
      let written = redis.set (store key) bytes ttl held in
      (
        record s { server = written.1; loads = s.loads + 1 },
        first_round s
            ∙ ground (
              arith,
              gone,
              unlocked,
              loads,
              packs,
              keeping.get_answers (store key) s.server,
              keeping.get_keeps (store key) (lock key) s.server,
              keeping.set_nx_answers (lock key) limits.read_through_per_key_limit got,
              keeping.set_answers (store key) bytes ttl held,
            ),
        refl,
        ground
            (arith, keeping.set_writes (store key) bytes ttl held (store key), eq_refl (store key)),
      )

  invalidate_lem :
      (s : Served R)
      → let end = invalidate codec redis limits (key ∷ []) s in
        (end.0 ≡ ok tt)
        × (end.1.loads ≡ s.loads)
        × (view end.1.server (store key) ≡ none)
        × (view end.1.server (lock key) ≡ none)
  unfolding invalidate invalid_key command for_each ◌>>=◌
  invalidate_lem s =
      let ks = lock key ∷ store key ∷ [] in
      let (n, answered) = keeping.del_answers ks s.server in
      (
        ground (arith, answered),
        ground (arith, answered),
        ground (arith, answered, keeping.del_removes ks s.server (store key), eq_refl (store key)),
        ground (arith, answered, keeping.del_removes ks s.server (lock key), eq_refl (lock key)),
      )

  -- On a server that answers every command and keeps what it is given, and where the function answers a
  -- value that can be packed: `Invalidate` of the key succeeds; the next `GetWithExpire` calls the
  -- function once and answers its value, packed and unpacked; and the one after that answers the same
  -- without a call of the function.
  pub get_with_expire-invalidate :
      (s : Served R) (v : Value V) (ttl : ℕ) (bytes : Bytes)
      → load s.loads ≡ Reply.value (v, ttl)
      → marshal codec v ≡ Reply.value bytes
      → let invalidated = invalidate codec redis limits (key ∷ []) s in
        let answer = outcome (unmarshal codec bytes target) in
        (invalidated.0 ≡ ok tt)
        × ((first : Served R) × (get_it invalidated.1 ≡ some (answer, first))
            × (first.loads ≡ s.loads + 1)
            × ((again : Served R) × (get_it first ≡ some (answer, again))
                × (again.loads ≡ first.loads)))
  get_with_expire-invalidate s v ttl bytes loads packs =
      let cleared = invalidate_lem s in
      let mid = (invalidate codec redis limits (key ∷ []) s).1 in
      let (first, got, once, kept) =
        get-miss mid v ttl bytes cleared.2 cleared.3 (ap load cleared.1 ∙ loads) packs in
      (cleared.0, (first, got, once ∙ ap (λ n. n + 1) cleared.1, get-hit first bytes kept))

  -- On such a server, `Set` of a value that can be packed succeeds, and the next `GetWithExpire` of the
  -- key answers that value, packed and unpacked, without a call of the function.
  pub get_with_expire-set :
      (s : Served R) (v : Value V) (ttl : ℕ) (bytes : Bytes)
      → marshal codec v ≡ Reply.value bytes
      → let written = set codec redis limits key v ttl s in
        (written.0 ≡ ok tt)
        × ((end : Served R) × (get_it written.1
              ≡ some (outcome (unmarshal codec bytes target), end))
            × (end.loads ≡ s.loads))
  unfolding set command lift ◌>>=◌
  get_with_expire-set s v ttl bytes packs =
      let put = redis.set (store key) bytes ttl s.server in
      let stored : Served R = record s { server = put.1 } in
      let answered = keeping.set_answers (store key) bytes ttl s.server in
      let is : set codec redis limits key v ttl s ≡ (ok tt, stored) =
        ground (arith, packs, answered) in
      let there : view put.1 (store key) ≡ some bytes = ground (
        arith,
        keeping.set_writes (store key) bytes ttl s.server (store key),
        eq_refl (store key),
      ) in
      rw is (refl, get-hit stored bytes there)
