-- ===== src/Watch/Exact.antt =====
-- The polling loops against the log of the contract.
use spotted_network.Base.{
  ℕ, zero, suc, ◌+◌, ◌≤◌, ◌<◌, ◌≡◌, refl, ap, ◌∙◌, ◌⊎◌, inl, inr, List, [], ◌∷◌, arith, ltb,
  if◌then◌else◌,
}
use spotted_network.Base.Lists.{All}
use spotted_network.Base.Outcome.{Error, Reply}
use spotted_network.Epoch.{u64}
use spotted_network.Watch.{Watch, send_all, poll, polls}
use spotted_network.Watch.Sent.{Caught, catches_up}
use spotted_network.Watch.Logs.{from, Extends}

module _ {E : Type 0} (block : E → ℕ) (filter : ℕ → ℕ → Reply (List E)) where
  -- The number of ticks does not matter.
  at_any_tick :
      (first : ℕ) (seen : List E) (w : Watch E) (t : ℕ)
      → Caught block filter first seen w
      → Caught block filter first seen (record w { tick = t })
  at_any_tick first seen w t h = record {
    sent = h.sent;
    reached = h.reached;
    past = h.past;
    next = h.next;
  }

  poll_fault :
      (w : Watch E) (e : Error)
      → filter (u64 (w.last_block + 1)) w.tick ≡ Reply.fault e
      → poll block filter w ≡ record w { tick = w.tick + 1 }
  unfolding poll
  poll_fault w e down = rw (down, poll) refl

  poll_value :
      (w : Watch E) (es : List E)
      → filter (u64 (w.last_block + 1)) w.tick ≡ Reply.value es
      → poll block filter w ≡ record (send_all block filter es w) { tick = w.tick + 1 }
  unfolding poll
  poll_value w es up = rw (up, poll) refl

-- The first block that the loop asks for.
abbrev pub first_block : ℕ → ℕ
first_block start = if ltb 0 start then start else 1

module _ {E : Type 0} (block : E → ℕ) (filter : ℕ → ℕ → Reply (List E)) (log : ℕ → List E)
    (answers : (start tick : ℕ)
      → ((e : Error) × (filter start tick ≡ Reply.fault e))
        ⊎ (filter start tick ≡ Reply.value (from block start (log tick))))
    (grows : (i j : ℕ) → i ≤ j → Extends block (log i) (log j))
    (small : (i : ℕ) → All (λ e. block e < 18446744073709551615) (log i)) (start : ℕ)
    (start_small : start < 18446744073709551615) where
  none_before : (l : List E) → All (λ e. All (λ o. block o < block e) []) l
  none_before [] = tt
  none_before (e ∷ l) = (tt, none_before l)

  -- What the loop has seen: nothing yet, or the log at some earlier tick.
  data Seen (n : ℕ) : List E → Type 0 where
    nothing : Seen n []
    earlier : (k : ℕ) → k ≤ n → Seen n (log k)

  extend_log : (n : ℕ) (seen : List E) → Seen n seen → Extends block seen (log n)
  extend_log n seen nothing = (log n, refl, none_before (log n))
  extend_log n seen (earlier k before) = grows k n before

  early_log : (n : ℕ) (seen : List E) → Seen n seen → All (λ e. block e < 18446744073709551615) seen
  early_log n seen nothing = tt
  early_log n seen (earlier k before) = small k

  later_log : (n : ℕ) (seen : List E) → Seen n seen → Seen (suc n) seen
  later_log n seen nothing = nothing
  later_log n seen (earlier k before) = earlier k (omega arith)

  record State (n : ℕ) : Type 0 where
    seen : List E
    is_seen : Seen n seen
    caught : Caught block filter (first_block start) seen (polls block filter n start)
    at_tick : (polls block filter n start).tick ≡ n

  begun : State 0
  unfolding polls from
  begun = record {
    seen = [];
    is_seen = nothing;
    caught = record {
      sent = refl;
      reached = ground arith;
      past = tt;
      next = λ b above all. ground arith;
    };
    at_tick = refl;
  }

  abbrev now : ℕ → Watch E
  now n = polls block filter n start

  -- The next tick fails and sends nothing, or sends all of the log that was left.
  data TickOutcome (n : ℕ) : Type 0 where
    failed :
        (e : Error)
        → filter (u64 ((now n).last_block + 1)) n ≡ Reply.fault e
        → (now (suc n)).sink ≡ (now n).sink
        → State (suc n)
        → TickOutcome n
    complete :
        (now (suc n)).sink ≡ from block (first_block start) (log n) → State (suc n) → TickOutcome n

  tick_once : (n : ℕ) → State n → TickOutcome n
  unfolding polls
  tick_once n s =
      let w = now n in
      let extended = extend_log n s.seen s.is_seen in
      let fits : u64 (w.last_block + 1) ≡ w.last_block + 1 =
        ground (
          arith,
          s.caught.next 18446744073709551615 (ground arith) (early_log n s.seen s.is_seen),
        ) in
      elim (answers (u64 (w.last_block + 1)) n) [
        | inl (e, down) ↦
            let ended = poll_fault block filter w e (rw s.at_tick down) in
            failed e down (ap (λ x. x.sink) ended) (record {
              seen = s.seen;
              is_seen = later_log n s.seen s.is_seen;
              caught = rw ended (at_any_tick block filter _ _ _ _ s.caught);
              at_tick = ap (λ x. x.tick) ended ∙ omega (arith, s.at_tick);
            })
        | inr up ↦
            let asked : filter (u64 (w.last_block + 1)) w.tick
                ≡ Reply.value (from block (w.last_block + 1) (log n)) =
              rw s.at_tick (up ∙ ap (λ k. Reply.value (from block k (log n))) fits) in
            let ended = poll_value block filter w (from block (w.last_block + 1) (log n)) asked in
            let h = catches_up block filter _ s.seen (log n) w s.caught extended in
            complete (ap (λ x. x.sink) ended ∙ h.sent) (record {
              seen = log n;
              is_seen = earlier n (omega arith);
              caught = rw ended (at_any_tick block filter _ _ _ _ h);
              at_tick = ap (λ x. x.tick) ended ∙ omega (arith, s.at_tick);
            })
      ]

  state : (n : ℕ) → State n
  state zero = begun
  state (suc n) = elim (tick_once n (state n)) [ failed e down same s ↦ s | complete all s ↦ s ]

  -- The log of the contract only grows, by events of later blocks, and the numbers of its blocks and the
  -- start are below 2^64 - 1; the filter fails, or gives the events of the log from the block that it is
  -- asked for, in order. Then each tick of the loop either fails and sends nothing, or after it the loop
  -- has sent exactly the log from its first block on, each event once and in order, however many ticks
  -- failed before.
  pub polls-log :
      (n : ℕ)
      → ((e : Error) × (filter (u64 ((polls block filter n start).last_block + 1)) n
            ≡ Reply.fault e)
          × ((polls block filter (suc n) start).sink ≡ (polls block filter n start).sink))
        ⊎ ((polls block filter (suc n) start).sink ≡ from block (first_block start) (log n))
  polls-log n = elim (tick_once n (state n)) [
    | failed e down same s ↦ inl (e, down, same)
    | complete all s ↦ inr all
  ]
