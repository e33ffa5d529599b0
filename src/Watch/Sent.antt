-- ===== src/Watch/Sent.antt =====
-- What a loop sends in one tick.
use spotted_network.Base.{
  ℕ, ◌+◌, ◌≤◌, ◌<◌, ◌≡◌, refl, ap, ◌∙◌, sym, inl, inr, List, [], ◌∷◌, ◌++◌, arith, leb, Bool-cases,
}
use spotted_network.Base.Lists.{All}
use spotted_network.Base.Outcome.{Reply}
use spotted_network.Watch.{Watch, send, send_all}
use spotted_network.Watch.Logs.{
  from, Extends, from-append, from-old, from-same, append-nil, append_assoc, All-append, All-split,
  All-weaken, All-from, from-bounded,
}

module _ {E : Type 0} (block : E → ℕ) (filter : ℕ → ℕ → Reply (List E)) where
  sent_sink : (es : List E) (w : Watch E) → (send_all block filter es w).sink ≡ w.sink ++ es
  unfolding send_all
  sent_sink [] w = sym (append-nil block w.sink)
  sent_sink (e ∷ es) w =
      sent_sink es (send block filter e w) ∙ append_assoc block w.sink (e ∷ []) es

  sent_tick : (es : List E) (w : Watch E) → (send_all block filter es w).tick ≡ w.tick
  unfolding send_all
  sent_tick [] w = refl
  sent_tick (e ∷ es) w = sent_tick es (send block filter e w)

  sent_grows : (es : List E) (w : Watch E) → w.last_block ≤ (send_all block filter es w).last_block
  unfolding send_all
  sent_grows [] w = omega arith
  sent_grows (e ∷ es) w = ground (arith, sent_grows es (send block filter e w))

  sent_covers :
      (es : List E) (w : Watch E) → All (λ e. block e ≤ (send_all block filter es w).last_block) es
  unfolding send_all
  sent_covers [] w = tt
  sent_covers (e ∷ es) w = (
    ground (arith, sent_grows es (send block filter e w)),
    sent_covers es (send block filter e w),
  )

  sent_below :
      (b : ℕ) (es : List E) (w : Watch E)
      → w.last_block < b
      → All (λ e. block e < b) es
      → (send_all block filter es w).last_block < b
  unfolding send_all
  sent_below b [] w low all = low
  sent_below b (e ∷ es) w low (here, all) =
      sent_below b es (send block filter e w) (ground arith) all

  -- The loop has sent `seen` from its first block on, and will ask for what comes after.
  pub record Caught (first : ℕ) (seen : List E) (w : Watch E) : Type 0 where
    pub sent : w.sink ≡ from block first seen
    pub reached : first ≤ w.last_block + 1
    pub past : All (λ e. block e ≤ w.last_block) seen
    pub next : (b : ℕ) → first ≤ b → All (λ e. block e < b) seen → w.last_block < b

  -- A log that has more events, all later: they are what the filter gives, and the loop sends them.
  pub catches_up :
      (first : ℕ) (seen now : List E) (w : Watch E)
      → Caught first seen w
      → Extends block seen now
      → Caught first now (send_all block filter (from block (w.last_block + 1) now) w)
  catches_up first seen now w h (new, log, later) =
      rw (log, fetched)
        (record {
          sent =
              sent_sink fresh w
              ∙ ap (λ l. l ++ fresh) h.sent
              ∙ sym (from-append block first seen new);
          reached = ground (arith, h.reached, sent_grows fresh w);
          past =
              All-append block (λ e. block e ≤ end) seen new
                (All-weaken block _ _ seen (λ e p. ground (arith, p, sent_grows fresh w)) h.past)
                (from-bounded block first end new (ground (arith, h.reached, sent_grows fresh w))
                  (sent_covers fresh w));
          next = λ b start all.
              let (old, recent) = All-split block (λ e. block e < b) seen new all in
              sent_below b fresh w (h.next b start old) (All-from block _ first new recent);
        })
    where
      fresh : List E
      fresh = from block first new

      end : ℕ
      end = (send_all block filter fresh w).last_block

      same :
          (e : E)
          → All (λ o. block o < block e) seen
          → leb (w.last_block + 1) (block e) ≡ leb first (block e)
      same e after = elim (Bool-cases (leb first (block e))) [
        | inl late ↦ ground (arith, h.next (block e) (ground arith) after)
        | inr early ↦ ground (arith, h.reached)
      ]

      fetched : from block (w.last_block + 1) (seen ++ new) ≡ fresh
      fetched =
          from-append block (w.last_block + 1) seen new
          ∙ ap (λ l. l ++ from block (w.last_block + 1) new)
              (from-old block (w.last_block + 1) seen
                (All-weaken block _ _ seen (λ e p. ground (arith, p)) h.past))
          ∙ from-same block (w.last_block + 1) first new (All-weaken block _ _ new same later)
