-- ===== src/Event/Subscribe.antt =====
-- Subscribing to both events: `subscribeToEvents` of pkg/operator/event/listener.go. The client is the
-- interface of pkg/common/contracts/ethereum/interface.go: what it answers when asked for a topic at an
-- attempt is an argument, and so is whether the context is done in the wait that follows an attempt.
pub mod Leaks
mod Tests
use spotted_network.Base.{ℕ, zero, suc, ◌+◌, Bool, true, false, List, [], ◌∷◌, ◌==◌, if◌then◌else◌}
use spotted_network.Base.Lists.{without}
use spotted_network.Base.Outcome.{Error, wrapped, Reply, Action, ok, err, panic}

-- What a client is asked to watch: `WatchOperatorRegistered` or `WatchOperatorDeregistered`
pub data Topic : Type 0 where
  registrations : Topic
  deregistrations : Topic

-- The subscriptions that are open, each by a number of its own.
pub record Subscriptions : Type 0 where
  pub open_now : List ℕ
  pub made : ℕ

module _ (watch : Topic → ℕ → Reply (Unit {0})) (done : ℕ → Bool) (context_error : Error) where
  -- A call of the client: a new subscription, or an error and none.
  unfoldable pub watch_topic : Topic → ℕ → Action Subscriptions ℕ
  watch_topic topic i s = elim (watch topic i) [
    | Reply.fault e ↦ (err e, s)
    | Reply.value _ ↦ (ok s.made, record { open_now = s.made ∷ s.open_now; made = s.made + 1 })
  ]

  -- `Unsubscribe`
  abbrev pub unsubscribe : ℕ → Subscriptions → Subscriptions
  unsubscribe handle s = record s { open_now = without handle s.open_now }

  -- One round of the loop: the second subscription that fails closes the first.
  unfoldable pub subscribe_once : ℕ → Action Subscriptions (ℕ × ℕ)
  unfolding watch_topic
  subscribe_once i s =
      let (first, opened) = watch_topic registrations i s in
      elim first [
        | ok reg ↦
            let (second, both) = watch_topic deregistrations i opened in
            elim second [
              | ok dereg ↦ (ok (reg, dereg), both)
              | err e ↦ (err e, unsubscribe reg both)
              | panic ↦ (panic, both)
            ]
        | err e ↦ (err e, opened)
        | panic ↦ (panic, opened)
      ]

  -- The rounds from `i` on, `more` of them after this one.
  unfoldable pub subscribe_rounds : ℕ → ℕ → Action Subscriptions (ℕ × ℕ)
  unfolding subscribe_once
  subscribe_rounds zero i s =
      let (tried, after) = subscribe_once i s in
      elim tried [
        | ok subs ↦ (ok subs, after)
        | err e ↦ (
          err (if done i then context_error else wrapped "failed to subscribe after retries" e),
          after,
        )
        | panic ↦ (panic, after)
      ]
  subscribe_rounds (suc more) i s =
      let (tried, after) = subscribe_once i s in
      elim tried [
        | ok subs ↦ (ok subs, after)
        | err e ↦ elim (done i) [
          | true ↦ (err context_error, after)
          | false ↦ subscribe_rounds more (i + 1) after
        ]
        | panic ↦ (panic, after)
      ]

  -- `subscribeToEvents`
  unfoldable pub subscribe_to_events : Action Subscriptions (ℕ × ℕ)
  unfolding subscribe_rounds
  subscribe_to_events s = subscribe_rounds 2 0 s
