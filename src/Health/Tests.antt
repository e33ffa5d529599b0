-- ===== src/Health/Tests.antt =====
-- A host that is the list of its connections, one of which does not answer.
use spotted_network.Base.{
  ℕ, String, ◌≡◌, refl, false, some, List, [], ◌∷◌, arith, str_eq, eq_iff, if◌then◌else◌,
}
use spotted_network.Base.Maps.{lookup}
use spotted_network.Base.Outcome.{Reply, ok, message}
use spotted_network.Health.{Host, Checker, check_peers}
use spotted_network.Health.Alive.{member, check_peers_lem}

cut : String → List String → List String
cut peer [] = []
cut peer (other ∷ more) =
    let rest = cut peer more in if str_eq peer other then rest else other ∷ rest

member-cut :
    (peer other : String) (l : List String)
    → member other (cut peer l) ≡ (if str_eq peer other then false else member other l)
unfolding cut
member-cut peer other [] = ground arith
member-cut peer other (x ∷ l) =
    ground (arith, member-cut peer other l, eq_iff peer x, eq_iff peer other, eq_iff x other)

abbrev host : Host (List String)
unfolding cut
host = record {
  peers = λ h. h;
  connected = member;
  close_peer = λ peer h. (Reply.value tt, cut peer h);
  clear_addrs = λ peer h. h;
  remove_peer = λ peer h. h;
}

abbrev reply : String → Reply ℕ
reply peer = if str_eq peer "dead" then Reply.fault (message "timeout") else Reply.value 7

abbrev checker : Checker (List String)
checker = record { host = "alive" ∷ "dead" ∷ []; peer_status = ("dead", 5) ∷ []; pings = 0 }

check_peers_lem_example :
    ((check_peers host (λ peer i. reply peer) checker).0 ≡ ok tt)
    × (member "dead" (check_peers host (λ peer i. reply peer) checker).1.host ≡ false)
    × (lookup "dead" (check_peers host (λ peer i. reply peer) checker).1.peer_status ≡ some 5)
unfolding lookup host
check_peers_lem_example =
    check_peers_lem host (λ peer i. reply peer) reply (λ peer i. refl) (λ peer h. refl) member-cut
      (λ peer other h. refl) "dead" checker
