-- ===== src/Cache.antt =====
-- The cache client: internal/database/cache/cache.go. The Redis server and msgpack are arguments, and
-- so are the function that is read through, what others do to the server while a caller sleeps, how
-- long it sleeps, and when its context is cancelled. A target is left as it was where `none` is read.
pub mod Rounds
pub mod Ends
pub mod Coherent
mod Tests
use spotted_network.Base.{
  ℕ, zero, suc, ◌+◌, ◌/◌, String, Bool, true, false, Option, none, some, List, [], ◌∷◌, ltb,
  if◌then◌else◌,
}
use Prim.Native.String.{◌++◌}
use spotted_network.Base.Outcome.{
  Error, message, Reply, Outcome, ok, err, panic, Action, outcome, ◌>>=◌, ◌>>◌, pure, raise, lift,
  handle, ignore, for_each,
}
use spotted_network.Signer.{Bytes}

-- The commands of a Redis server with state `R`: an answer or an error, and the state afterwards. A
-- key that is missing is `none`, as `redis.Nil` is.
pub record Redis (R : Type 0) : Type 0 where
  pub get : String → R → Reply (Option Bytes) × R
  pub set : String → Bytes → ℕ → R → Reply (Unit {0}) × R
  pub set_nx : String → ℕ → R → Reply Bool × R
  pub del : List String → R → Reply ℕ × R

-- What is stored: nil, bytes, a text, or a value that msgpack packs; and what it is read into
pub data Value (V : Type 0) : Type 0 where
  nothing : Value V
  raw : Bytes → Value V
  text : String → Value V
  object : V → Value V

pub data Target : Type 0 where
  into_nil : Target
  into_raw : Target
  into_text : Target
  into_object : Target

pub record Codec (V : Type 0) : Type 0 where
  pub pack : V → Reply Bytes
  pub unpack : Bytes → Reply V
  pub utf8 : String → Bytes
  pub as_text : Bytes → String

-- `Client`, with times in milliseconds
pub record Limits : Type 0 where
  pub read_through_per_key_limit : ℕ
  pub max_waiting_time : ℕ

-- The server, and how often the function was called and the caller slept
pub record Served (R : Type 0) : Type 0 where
  pub server : R
  pub loads : ℕ
  pub naps : ℕ

-- `store` and `lock`
abbrev pub store : String → String
store key = "#" ++ (key ++ "#")

abbrev pub lock : String → String
lock key = "#" ++ (key ++ "#_lock")

abbrev pub err_timeout : Error
err_timeout = message "timeout"

abbrev pub loaded_value : {V : Type 0} → Reply V → (V → Value V) → Reply (Option (Value V))
loaded_value (Reply.value v) f = Reply.value (some (f v))
loaded_value (Reply.fault e) f = Reply.fault e

module _ {V : Type 0} (codec : Codec V) where
  -- `marshal`
  unfoldable pub marshal : Value V → Reply Bytes
  marshal Value.nothing = Reply.value []
  marshal (Value.raw b) = Reply.value b
  marshal (Value.text s) = Reply.value (codec.utf8 s)
  marshal (Value.object v) = codec.pack v

  abbrev pub unmarshal_into : Target → Bytes → Reply (Option (Value V))
  unmarshal_into Target.into_nil b = Reply.value none
  unmarshal_into Target.into_raw b = Reply.value (some (Value.raw b))
  unmarshal_into Target.into_text b = Reply.value (some (Value.text (codec.as_text b)))
  unmarshal_into Target.into_object b = loaded_value (codec.unpack b) Value.object

  -- `unmarshal`
  unfoldable pub unmarshal : Bytes → Target → Reply (Option (Value V))
  unmarshal [] target = Reply.value none
  unmarshal (b ∷ bs) target = unmarshal_into target (b ∷ bs)

  module _ {R : Type 0} (redis : Redis R) (limits : Limits) where
    abbrev pub Cached : Type 0 → Type 0
    Cached = Action (Served R)

    -- A command of the server
    unfoldable pub command : {A : Type 0} → (R → Reply A × R) → Cached A
    command f s = let (r, server) = f s.server in (outcome r, record s { server = server })

    -- `invalidKey`
    unfoldable pub invalid_key : List String → Cached (Unit {0})
    unfolding command
    invalid_key keys = command (redis.del keys) >> pure tt

    -- `Invalidate`: the first error ends it
    unfoldable pub invalidate : List String → Cached (Unit {0})
    unfolding invalid_key
    invalidate keys = for_each keys (λ key. invalid_key (lock key ∷ store key ∷ []))

    -- `Set`
    unfoldable pub set : String → Value V → ℕ → Cached (Unit {0})
    unfolding command
    set key value ttl = do
      bytes ← lift (outcome (marshal value))
      command (redis.set (store key) bytes ttl)

    module _ (load : ℕ → Reply (Value V × ℕ)) (key : String) (target : Target) where
      -- A call of the function that is read through
      unfoldable pub read_through : Cached (Value V × ℕ)
      read_through s = (outcome (load s.loads), record s { loads = s.loads + 1 })

      -- `getNoCache`
      unfoldable pub get_no_cache : Cached (Option (Value V))
      unfolding read_through command invalid_key
      get_no_cache =
          handle read_through
            (λ found. do
              bytes ← lift (outcome (marshal found.0))
              ignore (command (redis.set (store key) bytes found.1))
              lift (outcome (unmarshal bytes target)))
            (λ e. ignore (invalid_key (lock key ∷ [])) >> raise e)

      module _ (others : ℕ → R → R) (nap : ℕ → ℕ) (cancelled : ℕ → Bool) where
        -- The loop of `GetWithExpire` after having waited, on fuel; `none` if the fuel runs out
        unfoldable pub rounds : ℕ → ℕ → Served R → Option (Outcome (Option (Value V)) × Served R)
        unfolding get_no_cache command
        rounds zero waited s = none
        rounds (suc fuel) waited s =
            let again = rounds fuel in
            let (held, s') = command (redis.get (store key)) s in
            elim held [
              | ok (some bytes) ↦ some (outcome (unmarshal bytes target), s')
              | err e ↦ some (get_no_cache s')
              | panic ↦ some (panic, s')
              | ok none ↦
                  let (locked, s'') =
                    command (redis.set_nx (lock key) limits.read_through_per_key_limit) s' in
                  elim locked [
                    | ok true ↦ some (get_no_cache s'')
                    | err e ↦ some (get_no_cache s'')
                    | panic ↦ some (panic, s'')
                    | ok false ↦
                        let waits = waited + nap s''.naps in
                        let rested : Served R = record s'' {
                          server = others s''.naps s''.server;
                          naps = s''.naps + 1;
                        } in
                        let retry = again waits rested in
                        if cancelled s''.naps
                        then some (err err_timeout, s'')
                        else if ltb limits.max_waiting_time waits
                        then some (err err_timeout, s'')
                        else retry
                  ]
            ]

        -- `GetWithExpire`: no more rounds than the waiting time has of the shortest sleeps
        unfoldable pub get_with_expire : Served R → Option (Outcome (Option (Value V)) × Served R)
        unfolding rounds
        get_with_expire s = rounds (limits.max_waiting_time / 50 + 1) 0 s
