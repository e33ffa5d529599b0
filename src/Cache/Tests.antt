-- ===== src/Cache/Tests.antt =====
-- A server that is a table of its keys, and a function that answers the number of its call.
use spotted_network.Base.{
  ℕ, ◌≡◌, refl, String, false, Option, none, some, ◌∷◌, [], arith, str_eq, if◌then◌else◌,
}
use spotted_network.Base.Outcome.{Reply, ok, err, outcome}
use spotted_network.Cache.{
  Redis, Value, into_object, Codec, Limits, Served, err_timeout, marshal, unmarshal, invalidate,
  get_with_expire,
}
use spotted_network.Cache.Ends.{Ended, get_with_expire-Ended}
use spotted_network.Cache.Coherent.{Keeping, among, is_missing, get_it, get_with_expire-invalidate}
use spotted_network.Signer.{Bytes}

abbrev Table : Type 0
Table = String → Option Bytes

abbrev redis : Redis Table
redis = record {
  get = λ k r. (Reply.value (r k), r);
  set = λ k b t r. (Reply.value tt, λ j. if str_eq j k then some b else r j);
  set_nx = λ k t r. (
    Reply.value (is_missing (r k)),
    λ j. if is_missing (r k) then (if str_eq j k then some [] else r j) else r j,
  );
  del = λ ks r. (Reply.value 0, λ j. if among j ks then none else r j);
}

keeping : Keeping redis (λ r k. r k)
keeping = record {
  get_answers = λ k r. refl;
  get_keeps = λ k j r. refl;
  set_answers = λ k b t r. refl;
  set_writes = λ k b t r j. refl;
  set_nx_answers = λ k t r. refl;
  del_answers = λ ks r. (0, refl);
  del_removes = λ ks r j. refl;
}

first_byte : Bytes → ℕ
first_byte [] = 0
first_byte (b ∷ bs) = b

abbrev codec : Codec ℕ
codec = record {
  pack = λ v. Reply.value (v ∷ []);
  unpack = λ b. Reply.value (first_byte b);
  utf8 = λ s. [];
  as_text = λ b. "";
}

abbrev limits : Limits
limits = record { read_through_per_key_limit = 1000; max_waiting_time = 120 }

abbrev load : ℕ → Reply (Value ℕ × ℕ)
load n = Reply.value (Value.object n, 60)

abbrev nap : ℕ → ℕ
nap n = 50

-- Another caller holds the lock and never writes.
abbrev locked : Served Table
locked = record { server = λ k. if str_eq k "#a#_lock" then some [] else none; loads = 0; naps = 0 }

waits_and_gives_up :
    get_with_expire codec redis limits load "a" into_object (λ i r. r) nap (λ i. false) locked
    ≡ some (err err_timeout, record locked { naps = 2 })
unfolding get_with_expire
waits_and_gives_up = refl

get_with_expire-Ended_example :
    Ended codec redis limits load "a" into_object 0
      (get_with_expire codec redis limits load "a" into_object (λ i r. r) nap (λ i. false) locked)
get_with_expire-Ended_example =
    get_with_expire-Ended codec redis limits load "a" into_object (λ i r. r) nap (λ i. false)
      (λ n. omega arith) locked

get_with_expire-invalidate_example :
    let get =
      get_it codec redis limits
        (λ r k. r k)
        keeping
        load
        "a"
        into_object
        (λ i r. r)
        nap
        (λ i. false) in
    let invalidated = invalidate codec redis limits ("a" ∷ []) locked in
    let answer = outcome (unmarshal codec (0 ∷ []) into_object) in
    (invalidated.0 ≡ ok tt)
    × ((first : Served Table) × (get invalidated.1 ≡ some (answer, first))
        × (first.loads ≡ 1)
        × ((again : Served Table) × (get first ≡ some (answer, again))
            × (again.loads ≡ first.loads)))
unfolding marshal
get_with_expire-invalidate_example =
    get_with_expire-invalidate codec redis limits (λ r k. r k) keeping load "a" into_object
      (λ i r. r) nap (λ i. false) locked (Value.object 0) 60 (0 ∷ []) refl refl
