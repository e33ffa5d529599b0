-- ===== src/Discovery/Rounds.antt =====
-- The attempts to reach one peer: how often it is dialled, and how they end.
use spotted_network.Base.{
  ℕ, zero, suc, ◌+◌, ◌≤◌, ◌<◌, ◌≡◌, refl, ap, sym, ◌∙◌, ◌⊎◌, inl, inr, String, true, [], ◌∷◌, ◌++◌,
  arith, Bool-cases,
}
use mathlib.Core.List.{append_assoc, append-nil}
use spotted_network.Base.Lists.{replicate}
use spotted_network.Base.Outcome.{Error, Reply-cases, Outcome, ok, err, ◌>>=◌, handle, message}
use spotted_network.Discovery.{
  Network, PeerHost, host_connect, observe, wait_connected, dial_error, connect_with_timeout,
  attempts,
}

module _ (net : Network) where
  -- The network showed a connection to the peer at one of the calls from `lo` to `hi`.
  abbrev pub Seen : String → ℕ → ℕ → Type 0
  Seen peer lo hi = (t : ℕ) × (lo ≤ t) × (t < hi) × (net.connected t peer ≡ true)

  -- How a wait or an attempt ends: with a connection that was seen, or with an error.
  record Tried (peer : String) (h : PeerHost) (dials : ℕ) (end : Outcome (Unit {0}) × PeerHost)
      : Type 0 where
    dialled : end.1.dialled ≡ h.dialled ++ replicate dials peer
    later : h.calls ≤ end.1.calls
    result : (Seen peer h.calls end.1.calls × (end.0 ≡ ok tt)) ⊎ ((e : Error) × (end.0 ≡ err e))

  replicate-add : (j k : ℕ) (p : String) → replicate j p ++ replicate k p ≡ replicate (j + k) p
  replicate-add zero k p = ground arith
  replicate-add (suc j) k p =
      let e : suc j + k ≡ suc (j + k) = omega arith in rw e (ap (λ l. p ∷ l) (replicate-add j k p))

  -- An attempt that follows others.
  then_Tried :
      (peer : String) (h mid : PeerHost) (j k : ℕ) (end : Outcome (Unit {0}) × PeerHost)
      → mid.dialled ≡ h.dialled ++ replicate j peer
      → h.calls ≤ mid.calls
      → Tried peer mid k end
      → Tried peer h (j + k) end
  then_Tried peer h mid j k end before le t = record {
    dialled =
        t.dialled
        ∙ ap (λ l. l ++ replicate k peer) before
        ∙ append_assoc h.dialled (replicate j peer) (replicate k peer)
        ∙ ap (λ l. h.dialled ++ l) (replicate-add j k peer);
    later = omega (arith, t.later);
    result = elim t.result [
      | inl ((i, lo, hi, there), fine) ↦ inl ((i, omega arith, hi, there), fine)
      | inr failed ↦ inr failed
    ];
  }

  wait-Tried :
      (left : ℕ) (peer : String) (h : PeerHost) → Tried peer h 0 (wait_connected net left peer h)
  unfolding wait_connected observe ◌>>=◌
  wait-Tried zero peer h = record {
    dialled = sym (append-nil h.dialled);
    later = ground arith;
    result = inr (message "connection not established after timeout", refl);
  }
  wait-Tried (suc left) peer h = elim (Bool-cases (net.timed_out h.calls)) [
    | inl over ↦ record {
      dialled = ground (arith, over, append-nil h.dialled);
      later = ground (arith, over);
      result = inr (net.context_error, ground (arith, over));
    }
    | inr in_time ↦ elim (Bool-cases (net.connected (h.calls + 1) peer)) [
      | inl there ↦ record {
        dialled = ground (arith, in_time, there, append-nil h.dialled);
        later = ground (arith, in_time, there);
        result = inl (
          (h.calls + 1, ground arith, ground (arith, in_time, there), there),
          ground (arith, in_time, there),
        );
      }
      | inr missing ↦
          let again : wait_connected net (suc left) peer h
              ≡ wait_connected net left peer (record h { calls = h.calls + 2 }) =
            ground (arith, in_time, missing) in
          rw again (
            then_Tried peer h _ 0 0 _ (sym (append-nil h.dialled)) (omega arith)
              (wait-Tried left peer (record h { calls = h.calls + 2 })))
    ]
  ]

  once-Tried : (peer : String) (h : PeerHost) → Tried peer h 1 (connect_with_timeout net peer h)
  unfolding connect_with_timeout host_connect handle ◌>>=◌
  once-Tried peer h = elim (Reply-cases (net.dial h.calls peer)) [
    | inr (e, down) ↦ record {
      dialled = ground (arith, down);
      later = ground (arith, down);
      result = inr (dial_error net e, ground (arith, down));
    }
    | inl (_, up) ↦
        let mid : PeerHost = record h { dialled = h.dialled ++ peer ∷ []; calls = h.calls + 1 } in
        let waits : connect_with_timeout net peer h ≡ wait_connected net 5 peer mid =
          ground (arith, up) in
        rw waits (then_Tried peer h mid 1 0 _ refl (omega arith) (wait-Tried 5 peer mid))
  ]

  -- How the attempts at one peer end: the last attempt was made, or a connection was seen.
  pub record Reached (left : ℕ) (peer : String) (h : PeerHost) (end : Outcome (Unit {0}) × PeerHost)
      : Type 0 where
    pub dials : ℕ
    pub few : dials ≤ left
    pub some_dial : 0 < left → 0 < dials
    pub dialled : end.1.dialled ≡ h.dialled ++ replicate dials peer
    pub later : h.calls ≤ end.1.calls
    pub fine : end.0 ≡ ok tt
    pub result : (dials ≡ left) ⊎ Seen peer h.calls end.1.calls

  pub attempts-Reached :
      (left : ℕ) (peer : String) (h : PeerHost) → Reached left peer h (attempts net left peer h)
  unfolding attempts handle ◌>>=◌
  attempts-Reached zero peer h = record {
    dials = 0;
    few = omega arith;
    some_dial = λ p. p;
    dialled = sym (append-nil h.dialled);
    later = omega arith;
    fine = refl;
    result = inl refl;
  }
  attempts-Reached (suc left) peer h =
      let t = once-Tried peer h in
      let mid = (connect_with_timeout net peer h).1 in
      elim t.result [
        | inl (seen, done) ↦
            let ends : attempts net (suc left) peer h ≡ (ok tt, mid) = ground (arith, done) in
            rw ends (record {
              dials = 1;
              few = omega arith;
              some_dial = λ p. omega arith;
              dialled = t.dialled;
              later = t.later;
              fine = refl;
              result = inr seen;
            })
        | inr (e, failed) ↦
            let again : attempts net (suc left) peer h ≡ attempts net left peer mid =
              ground (arith, failed) in
            let r = attempts-Reached left peer mid in
            rw again (record {
              dials = suc r.dials;
              few = omega (arith, r.few);
              some_dial = λ p. omega arith;
              dialled =
                  r.dialled
                  ∙ ap (λ l. l ++ replicate r.dials peer) t.dialled
                  ∙ append_assoc h.dialled (peer ∷ []) (replicate r.dials peer);
              later = omega (arith, t.later, r.later);
              fine = r.fine;
              result = elim r.result [
                | inl all ↦ inl (omega arith)
                | inr (i, lo, hi, there) ↦ inr (i, omega (arith, t.later), hi, there)
              ];
            })
      ]
