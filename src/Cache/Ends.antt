-- ===== src/Cache/Ends.antt =====
-- How `GetWithExpire` ends, after any number of rounds.
use spotted_network.Base.{
  ℕ, zero, suc, ◌+◌, ◌*◌, ◌/◌, ◌≤◌, ◌<◌, ◌≡◌, refl, ap, ◌∙◌, inl, inr, String, Bool, true, false,
  Option, none, some, arith, ltb, Bool-cases,
}
use spotted_network.Base.Outcome.{Reply, Reply-cases, Outcome, err, outcome}
use spotted_network.Cache.{
  Redis, Value, Target, Codec, Limits, Served, store, lock, err_timeout, unmarshal, command,
  get_no_cache, rounds, get_with_expire,
}
use spotted_network.Cache.Rounds.{through, get_no_cache_lem}
use spotted_network.Signer.{Bytes}

module _ {V R : Type 0} (codec : Codec V) (redis : Redis R) (limits : Limits)
    (load : ℕ → Reply (Value V × ℕ)) (key : String) (target : Target) where
  -- Why a call answers what it does: the server had the key; or the function was called, once; or the
  -- key was missing and another caller held the lock when the waiting ended.
  pub data Cause (loads : ℕ) (o : Outcome (Option (Value V))) (end : Served R) : Type 0 where
    cached :
        (at : R) (bytes : Bytes)
        → (redis.get (store key) at).0 ≡ Reply.value (some bytes)
        → o ≡ outcome (unmarshal codec bytes target)
        → end.loads ≡ loads
        → Cause loads o end
    read :
        o ≡ through codec redis limits load key target (load loads)
        → end.loads ≡ loads + 1
        → Cause loads o end
    late :
        (at : R)
        → (redis.get (store key) at).0 ≡ Reply.value none
        → (redis.set_nx (lock key) limits.read_through_per_key_limit (redis.get (store key) at).1).0
          ≡ Reply.value false
        → o ≡ err err_timeout
        → end.loads ≡ loads
        → Cause loads o end

  pub record Ended (loads : ℕ) (r : Option (Outcome (Option (Value V)) × Served R)) : Type 0 where
    pub answer : Outcome (Option (Value V))
    pub end : Served R
    pub ended : r ≡ some (answer, end)
    pub cause : Cause loads answer end

  module _ (others : ℕ → R → R) (nap : ℕ → ℕ) (cancelled : ℕ → Bool)
      (long_enough : (n : ℕ) → 50 ≤ nap n) where
    read_Ended :
        (s t : Served R) (r : Option (Outcome (Option (Value V)) × Served R))
        → t.loads ≡ s.loads
        → r ≡ some (get_no_cache codec redis limits load key target t)
        → Ended s.loads r
    read_Ended s t r same is =
        let lem = get_no_cache_lem codec redis limits load key target t in
        record {
          answer = (get_no_cache codec redis limits load key target t).0;
          end = (get_no_cache codec redis limits load key target t).1;
          ended = is;
          cause =
              read (lem.0 ∙ ap (λ n. through codec redis limits load key target (load n)) same)
                (lem.1 ∙ ap (λ n. n + 1) same);
        }

    rounds-Ended :
        (fuel waited : ℕ) (s : Served R)
        → waited ≤ limits.max_waiting_time
        → limits.max_waiting_time < waited + 50 * fuel
        → Ended s.loads
            (rounds codec redis limits load key target others nap cancelled fuel waited s)
    unfolding rounds command
    rounds-Ended zero waited s low enough = absurd (omega arith)
    rounds-Ended (suc fuel) waited s low enough =
        let held = redis.get (store key) s.server in
        let s' : Served R = record s { server = held.1 } in
        elim (Reply-cases held.0) [
          | inr (e, down) ↦ read_Ended s s' _ refl (ground (arith, down))
          | inl (some bytes, hit) ↦ record {
            answer = outcome (unmarshal codec bytes target);
            end = s';
            ended = ground (arith, hit);
            cause = cached s.server bytes hit refl refl;
          }
          | inl (none, missing) ↦
              let locked = redis.set_nx (lock key) limits.read_through_per_key_limit held.1 in
              let s'' : Served R = record s { server = locked.1 } in
              elim (Reply-cases locked.0) [
                | inr (e, down) ↦ read_Ended s s'' _ refl (ground (arith, missing, down))
                | inl (true, mine) ↦ read_Ended s s'' _ refl (ground (arith, missing, mine))
                | inl (false, theirs) ↦ elim (Bool-cases (cancelled s.naps)) [
                  | inl stops ↦ record {
                    answer = err err_timeout;
                    end = s'';
                    ended = ground (arith, missing, theirs, stops);
                    cause = late s.server missing theirs refl refl;
                  }
                  | inr goes ↦
                      elim (Bool-cases (ltb limits.max_waiting_time (waited + nap s.naps))) [
                        | inl over ↦ record {
                          answer = err err_timeout;
                          end = s'';
                          ended = ground (arith, missing, theirs, goes, over);
                          cause = late s.server missing theirs refl refl;
                        }
                        | inr in_time ↦
                            let rested : Served R = record s'' {
                              server = others s.naps locked.1;
                              naps = s.naps + 1;
                            } in
                            let again : rounds codec redis limits load key target others nap
                                  cancelled (suc fuel) waited s
                                ≡ rounds codec redis limits load key target others nap cancelled
                                    fuel (waited + nap s.naps) rested =
                              ground (arith, missing, theirs, goes, in_time) in
                            rw again (
                              rounds-Ended fuel (waited + nap s.naps) rested
                                (ground (arith, in_time)) (omega (arith, long_enough s.naps)))
                      ]
                ]
              ]
        ]

    -- If every sleep lasts 50 ms at least, `GetWithExpire` ends within its rounds, whatever the server
    -- answers and others do to it: with what the server held under the key, unpacked; or with what
    -- the function answered to a single call, packed and unpacked; or, with no call of it, with a
    -- time-out after the server had no such key and another caller's lock.
    pub get_with_expire-Ended :
        (s : Served R)
        → Ended s.loads (get_with_expire codec redis limits load key target others nap cancelled s)
    unfolding get_with_expire
    get_with_expire-Ended s =
        rounds-Ended (limits.max_waiting_time / 50 + 1) 0 s (omega arith) (omega arith)
