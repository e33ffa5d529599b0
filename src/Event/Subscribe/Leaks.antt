-- ===== src/Event/Subscribe/Leaks.antt =====
-- What the rounds of `subscribeToEvents` leave open.
use spotted_network.Base.{
  ℕ, zero, suc, ◌+◌, ◌≤◌, ◌<◌, ◌≡◌, ◌⊎◌, inl, inr, Bool, List, [], ◌∷◌, arith, Bool-cases,
  if◌then◌else◌,
}
use spotted_network.Base.Lists.{All, without_lem}
use spotted_network.Base.Outcome.{Error, Reply, Reply-cases, Outcome, ok, err, wrapped}
use spotted_network.Event.Subscribe.{
  Topic, registrations, deregistrations, Subscriptions, watch_topic, subscribe_once,
  subscribe_rounds, subscribe_to_events,
}

-- The two subscriptions of a round are new ones.
abbrev pub with_both : ℕ → Subscriptions → Subscriptions
with_both first s = record { open_now = suc first ∷ first ∷ s.open_now; made = first + 2 }

module _ (watch : Topic → ℕ → Reply (Unit {0})) (done : ℕ → Bool) (context_error : Error) where
  -- How an action that subscribes ends: with two new subscriptions, or with those that were open.
  abbrev Ends : Subscriptions → Outcome (ℕ × ℕ) × Subscriptions → Type 0
  Ends s end =
      ((first : ℕ) × ((s.made ≤ first) × (end ≡ (ok (first, suc first), with_both first s))))
      ⊎ ((e : Error) × (made : ℕ) × ((s.made ≤ made) × (end ≡ (err e, record s { made = made }))))

  once-Ends :
      (i : ℕ) (s : Subscriptions)
      → All (λ h. h < s.made) s.open_now
      → Ends s (subscribe_once watch done context_error i s)
  unfolding subscribe_once watch_topic
  once-Ends i s all = elim (Reply-cases (watch registrations i)) [
    | inr (e, down) ↦ inr (e, s.made, (omega arith, ground (arith, down)))
    | inl (_, up) ↦ elim (Reply-cases (watch deregistrations i)) [
      | inr (e, down) ↦ inr (
        e,
        s.made + 1,
        (omega arith, ground (arith, up, down, without_lem s.made s.open_now all)),
      )
      | inl (_, also) ↦ inl (s.made, (omega arith, ground (arith, up, also)))
    ]
  ]

  All-later : (j k : ℕ) (hs : List ℕ) → j ≤ k → All (λ h. h < j) hs → All (λ h. h < k) hs
  All-later j k [] le all = tt
  All-later j k (h ∷ hs) le (low, all) = (omega (arith, low, le), All-later j k hs le all)

  rounds-Ends :
      (more i : ℕ) (s : Subscriptions)
      → All (λ h. h < s.made) s.open_now
      → Ends s (subscribe_rounds watch done context_error more i s)
  unfolding subscribe_rounds
  rounds-Ends zero i s all = elim (once-Ends i s all) [
    | inl (first, (le, same)) ↦ inl (first, (le, ground (arith, same)))
    | inr (e, made, (le, same)) ↦ inr (
      if done i then context_error else wrapped "failed to subscribe after retries" e,
      made,
      (le, ground (arith, same)),
    )
  ]
  rounds-Ends (suc more) i s all = elim (once-Ends i s all) [
    | inl (first, (le, same)) ↦ inl (first, (le, ground (arith, same)))
    | inr (e, made, (le, same)) ↦ elim (Bool-cases (done i)) [
      | inl stops ↦ inr (context_error, made, (le, ground (arith, same, stops)))
      | inr goes ↦
          let again : subscribe_rounds watch done context_error (suc more) i s
              ≡ subscribe_rounds watch done context_error more (i + 1) (record s { made = made }) =
            ground (arith, same, goes) in
          rw again
            (elim (rounds-Ends more (i + 1) (record s { made = made })
              (All-later _ _ s.open_now le all)) [
                | inl (first, (le2, end)) ↦ inl (first, (omega arith, end))
                | inr (f, most, (le2, end)) ↦ inr (f, most, (omega arith, end))
              ])
    ]
  ]

  -- The numbers of the open subscriptions have all been given out. Then `subscribeToEvents` ends with
  -- two new subscriptions, which it returns and which are open beside those that were, or with an error
  -- and the same subscriptions open as before, whatever the client answers at each attempt and
  -- whenever the context is done.
  pub subscribe_to_events-Ends :
      (s : Subscriptions)
      → All (λ h. h < s.made) s.open_now
      → Ends s (subscribe_to_events watch done context_error s)
  unfolding subscribe_to_events
  subscribe_to_events-Ends s all = rounds-Ends 2 0 s all
