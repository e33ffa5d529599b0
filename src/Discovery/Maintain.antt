-- ===== src/Discovery/Maintain.antt =====
-- A tick of the loop over the bootstrap peers: who is dialled, and how often.
use spotted_network.Base.{
  ℕ, ◌+◌, ◌≤◌, ◌<◌, ◌≡◌, refl, ap, sym, ◌∙◌, ◌⊎◌, inl, inr, String, true, false, List, [], ◌∷◌,
  ◌++◌, arith, Bool-cases,
}
use mathlib.Core.List.{append_assoc, append-nil}
use spotted_network.Base.Lists.{replicate}
use spotted_network.Base.Outcome.{Outcome, ok, ◌>>=◌, for_each}
use spotted_network.Discovery.{
  Network, PeerHost, observe, attempts, reconnect, maintain_bootstrap_connections,
}
use spotted_network.Discovery.Rounds.{Seen, attempts-Reached}

module _ (net : Network) where
  -- A round over the peers, from one call to another, and whom it dialled. Each turn starts with the
  -- question whether there is a connection to its peer. If there is, the peer is passed over; if not,
  -- it is dialled up to three times, less only if a connection to it is seen during its own turn.
  pub data Round (hi : ℕ) : ℕ → List String → List String → Type 0 where
    done : Round hi hi [] []
    connected :
        {lo : ℕ} {peers dialled : List String} (peer : String)
        → net.connected lo peer ≡ true
        → Round hi (lo + 1) peers dialled
        → Round hi lo (peer ∷ peers) dialled
    tried :
        {lo mid : ℕ} {peers dialled : List String} (peer : String) (dials : ℕ)
        → net.connected lo peer ≡ false
        → 0 < dials
        → dials ≤ 3
        → (dials ≡ 3) ⊎ Seen net peer (lo + 1) mid
        → Round hi mid peers dialled
        → Round hi lo (peer ∷ peers) (replicate dials peer ++ dialled)

  -- How a tick over peers ends.
  pub record Maintained (peers : List String) (h : PeerHost) (end : Outcome (Unit {0}) × PeerHost)
      : Type 0 where
    pub fine : end.0 ≡ ok tt
    pub fresh : List String
    pub dialled : end.1.dialled ≡ h.dialled ++ fresh
    pub round : Round end.1.calls h.calls peers fresh

  -- A tick over the bootstrap peers ends without an error. The peers take their turns in order,
  -- whatever happened to the ones before. A turn starts with the question whether the network has a
  -- connection to the peer. A peer that has one is not dialled and its turn is over; any other is
  -- dialled once to three times, and less than three times only if the network showed a connection to
  -- it during its turn.
  pub maintain-Maintained :
      (peers : List String) (h : PeerHost)
      → Maintained peers h (maintain_bootstrap_connections net peers h)
  unfolding maintain_bootstrap_connections for_each reconnect observe ◌>>=◌
  maintain-Maintained [] h = record {
    fine = refl;
    fresh = [];
    dialled = sym (append-nil h.dialled);
    round = done;
  }
  maintain-Maintained (peer ∷ peers) h =
      let asked : PeerHost = record h { calls = h.calls + 1 } in
      elim (Bool-cases (net.connected h.calls peer)) [
        | inl there ↦
            let rest = maintain-Maintained peers asked in
            let step : maintain_bootstrap_connections net (peer ∷ peers) h
                ≡ maintain_bootstrap_connections net peers asked =
              ground (arith, there) in
            rw step (record {
              fine = rest.fine;
              fresh = rest.fresh;
              dialled = rest.dialled;
              round = connected peer there rest.round;
            })
        | inr missing ↦
            let r = attempts-Reached net 3 peer asked in
            let mid = (attempts net 3 peer asked).1 in
            let rest = maintain-Maintained peers mid in
            let step : maintain_bootstrap_connections net (peer ∷ peers) h
                ≡ maintain_bootstrap_connections net peers mid =
              ground (arith, missing, r.fine) in
            rw step (record {
              fine = rest.fine;
              fresh = replicate r.dials peer ++ rest.fresh;
              dialled =
                  rest.dialled
                  ∙ ap (λ l. l ++ rest.fresh) r.dialled
                  ∙ append_assoc h.dialled (replicate r.dials peer) rest.fresh;
              round =
                  tried peer r.dials missing (r.some_dial (omega arith)) r.few r.result rest.round;
            })
      ]
