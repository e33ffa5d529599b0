-- ===== src/Health/Alive.antt =====
-- Which peers are connected after a health check.
use spotted_network.Base.{
  ℕ, ◌+◌, String, ◌≡◌, refl, ap, ◌∙◌, Bool, true, false, not, ◌&&◌, ◌||◌, Option, none, some, List,
  [], ◌∷◌, arith, inl, inr, str_eq, eq_iff, eq_refl, if◌then◌else◌, Bool-cases,
}
use spotted_network.Base.Maps.{lookup, lookup-insert}
use spotted_network.Base.Outcome.{
  Reply, Reply-cases, Outcome, ok, ◌>>=◌, handle, modify, for_each, gets,
}
use spotted_network.Health.{
  Host, Checker, close_peer, closed, close_connection, disconnect_peer, send_ping, ping_peer,
  check_peer, check_peers,
}

abbrev pub member : String → List String → Bool
member p [] = false
member p (q ∷ l) = str_eq q p || member p l

abbrev pub answers : Reply ℕ → Bool
answers (Reply.value rtt) = true
answers (Reply.fault e) = false

abbrev pub round_trip : Reply ℕ → Option ℕ
round_trip (Reply.value rtt) = some rtt
round_trip (Reply.fault e) = none

module _ {H : Type 0} (host : Host H) (ping : String → ℕ → Reply ℕ) (reply : String → Reply ℕ)
    (steady : (peer : String) (i : ℕ) → ping peer i ≡ reply peer)
    (closes : (peer : String) (h : H) → (host.close_peer peer h).0 ≡ Reply.value tt)
    (cuts : (peer other : String) (h : H)
      → host.connected other (host.close_peer peer h).1
        ≡ (if str_eq peer other then false else host.connected other h))
    (forgets : (peer other : String) (h : H)
      → host.connected other (host.remove_peer peer (host.clear_addrs peer h))
        ≡ host.connected other h) where
  -- A peer that does not answer is disconnected, and nothing else is.
  silent_cut :
      (peer other : String) (c : Checker H)
      → host.connected other (disconnect_peer host ping peer c).1.host
        ≡ (if str_eq peer other then false else host.connected other c.host)
  unfolding disconnect_peer close_connection close_peer closed ◌>>=◌ modify handle
  silent_cut peer other c =
      let cut = (host.close_peer peer c.host).1 in
      let gone = host.remove_peer peer (host.clear_addrs peer cut) in
      elim (Bool-cases (host.connected peer c.host)) [
        | inl on ↦ ground (
          arith,
          on,
          closes peer c.host,
          cuts peer other c.host,
          cuts peer peer c.host,
          forgets peer other cut,
          forgets peer peer cut,
          forgets peer other gone,
          eq_refl peer,
        )
        | inr off ↦ ground (arith, off, forgets peer other c.host, eq_iff peer other)
      ]

  cut_quiet :
      (peer : String) (c : Checker H)
      → ((disconnect_peer host ping peer c).0 ≡ ok tt)
        × ((disconnect_peer host ping peer c).1.peer_status ≡ c.peer_status)
  unfolding disconnect_peer close_connection close_peer closed ◌>>=◌ modify handle
  cut_quiet peer c = elim (Bool-cases (host.connected peer c.host)) [
    | inl on ↦ (
      ground (arith, on, closes peer c.host, left peer c, eq_refl peer),
      ground (arith, on, closes peer c.host, left peer c, eq_refl peer),
    )
    | inr off ↦ (ground (arith, off), ground (arith, off))
  ]
    where
      left :
          (peer : String) (c : Checker H)
          → host.connected peer
              (host.remove_peer peer (host.clear_addrs peer (host.close_peer peer c.host).1))
            ≡ false
      left peer c = ground (
        arith,
        forgets peer peer (host.close_peer peer c.host).1,
        cuts peer peer c.host,
        eq_refl peer,
      )

  -- One peer: it stays connected where it answers, and its status is the answer.
  Checked : String → String → Checker H → Outcome (Unit {0}) × Checker H → Type 0
  Checked peer other c after =
      (after.0 ≡ ok tt)
      × (host.connected other after.1.host ≡ (
          if str_eq peer other && not (answers (reply peer))
          then false
          else host.connected other c.host))
      × (lookup other after.1.peer_status ≡ (
          if str_eq peer other && answers (reply peer)
          then round_trip (reply peer)
          else lookup other c.peer_status))

  checked :
      (peer other : String) (c : Checker H) → Checked peer other c (check_peer host ping peer c)
  unfolding check_peer ping_peer send_ping ◌>>=◌ handle modify Checked
  checked peer other c =
      let asked = record c { pings = c.pings + 1 } in
      let ping_is = steady peer c.pings in
      elim (Reply-cases (reply peer)) [
        | inl (rtt, alive) ↦ (
          ground (arith, alive, ping_is),
          ground (arith, alive, ping_is),
          ground (arith, alive, ping_is, lookup-insert peer other rtt c.peer_status),
        )
        | inr (e, silent) ↦ (
          ground (arith, silent, ping_is, (cut_quiet peer asked).0),
          ground (arith, silent, ping_is, silent_cut peer other asked),
          ground (arith, silent, ping_is, (cut_quiet peer asked).1),
        )
      ]

  -- The same for the peers of a list, by the answer of each.
  Swept : String → List String → Checker H → Outcome (Unit {0}) × Checker H → Type 0
  Swept other peers c after =
      (after.0 ≡ ok tt)
      × (host.connected other after.1.host ≡ (
          if member other peers && not (answers (reply other))
          then false
          else host.connected other c.host))
      × (lookup other after.1.peer_status ≡ (
          if member other peers && answers (reply other)
          then round_trip (reply other)
          else lookup other c.peer_status))

  swept :
      (other : String) (peers : List String) (c : Checker H)
      → Swept other peers c (for_each peers (check_peer host ping) c)
  unfolding for_each Swept Checked
  swept other [] c = (refl, refl, refl)
  swept other (peer ∷ more) c =
      let (done, connected, status) = checked peer other c in
      let (rest_done, rest_connected, rest_status) =
        swept other more (check_peer host ping peer c).1 in
      let same : str_eq peer other ≡ true → reply peer ≡ reply other =
        λ e. ap reply (equal peer other e) in
      elim (Bool-cases (str_eq peer other)) [
        | inl here ↦
            let e = same here in
            rw done (
              rest_done,
              rest_connected ∙ ground (arith, here, e, connected),
              rest_status ∙ ground (arith, here, e, status),
            )
        | inr elsewhere ↦ rw done (
          rest_done,
          rest_connected ∙ ground (arith, elsewhere, connected),
          rest_status ∙ ground (arith, elsewhere, status),
        )
      ]
    where
      equal : (p q : String) → str_eq p q ≡ true → p ≡ q
      equal p q e = ground (arith, eq_iff p q)

  -- Where closing a connection works, closes it, and leaves every other one, clearing the peerstore
  -- leaves all connections, and each peer answers its pings alike: after a check a peer is connected
  -- where it was and is not among the host's peers or answered. The status of each of the host's peers
  -- that answered is the round trip of its answer. Every other status is as it was, also that of a peer
  -- that was disconnected. A peer answered where the result that was received has no error; the zero
  -- result of a closed channel has none.
  pub check_peers_lem :
      (other : String) (c : Checker H)
      → ((check_peers host ping c).0 ≡ ok tt)
        × (host.connected other (check_peers host ping c).1.host ≡ (
            if member other (host.peers c.host) && not (answers (reply other))
            then false
            else host.connected other c.host))
        × (lookup other (check_peers host ping c).1.peer_status ≡ (
            if member other (host.peers c.host) && answers (reply other)
            then round_trip (reply other)
            else lookup other c.peer_status))
  unfolding check_peers gets ◌>>=◌ Swept
  check_peers_lem other c = swept other (host.peers c.host) c
