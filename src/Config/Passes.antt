-- ===== src/Config/Passes.antt =====
-- Which configurations pass `validate` of pkg/config/config.go.
use spotted_network.Base.{
  ℕ, String, ◌≡◌, refl, ◌↔◌, ◌⊎◌, inl, inr, true, false, Option, none, some, List, [], ◌∷◌, ◌<◌,
  arith, ◌==◌, str_eq, Bool-cases,
}
use spotted_network.Base.Lists.{length, All}
use spotted_network.Base.Int.{ℤ, pos, ◌<ℤ◌, ◌≤ℤ◌}
use spotted_network.Base.Outcome.{Reply, Reply-cases, Outcome, Outcome-cases, ok, err, and_then}
use spotted_network.Config.{
  Float64, nan, plus_infinity, minus_infinity, finite, at_most_zero, ChainConfig, P2pConfig, Config,
  given, check_contracts, check_chain, check_chains, get_bootstrap_peers, check_peers_config,
  check_p2p, validate,
}

-- A block time that passes: a number above zero, the positive infinity, or not a number.
pub data PassingTime : Float64 → Type 0 where
  not_a_number : PassingTime nan
  infinite : PassingTime plus_infinity
  above_zero :
      {mantissa : ℤ} (exponent : ℤ) → pos 0 <ℤ mantissa → PassingTime (finite mantissa exponent)

passes_time : (x : Float64) → at_most_zero x ≡ false → PassingTime x
passes_time nan h = not_a_number
passes_time plus_infinity h = infinite
passes_time minus_infinity h = ground arith
passes_time (finite mantissa exponent) h = above_zero exponent (ground arith)

time_passes : {x : Float64} → PassingTime x → at_most_zero x ≡ false
time_passes not_a_number = refl
time_passes infinite = refl
time_passes (above_zero exponent above) = ground arith

-- What each chain needs.
abbrev pub Usable : ℕ → ChainConfig → Type 0
Usable chain_id c =
    (((chain_id == 1) ≡ false)
      ⊎ (given c.contracts.registry ≡ true) × (given c.contracts.epoch_manager ≡ true))
    × (given c.rpc ≡ true)
    × (given c.contracts.state_manager ≡ true)
    × (0 < c.required_confirmations)
    × PassingTime c.average_block_time

abbrev pub UsableEntry : ℕ × Option ChainConfig → Type 0
UsableEntry (chain_id, entry) = (c : ChainConfig) × (entry ≡ some c) × Usable chain_id c

check_chain-Usable :
    (chain_id : ℕ) (c : ChainConfig) → check_chain chain_id (some c) ≡ ok tt → Usable chain_id c
unfolding check_chain check_contracts
check_chain-Usable chain_id c done = elim (Bool-cases (chain_id == 1)) [
  | inr other ↦ (
    inl other,
    ground arith,
    ground arith,
    ground arith,
    passes_time c.average_block_time (ground arith),
  )
  | inl main ↦ (
    inr (ground arith, ground arith),
    ground arith,
    ground arith,
    ground arith,
    passes_time c.average_block_time (ground arith),
  )
]

entry_passes :
    (chain_id : ℕ) (c : ChainConfig) → Usable chain_id c → check_chain chain_id (some c) ≡ ok tt
unfolding check_chain check_contracts
entry_passes chain_id c (inl other, rpc, manager, confirmations, time) =
    ground (arith, time_passes time)
entry_passes chain_id c (inr (registry, epochs), rpc, manager, confirmations, time) =
    ground (arith, time_passes time)

entry-Usable :
    (chain_id : ℕ) (entry : Option ChainConfig)
    → check_chain chain_id entry ≡ ok tt
    → UsableEntry (chain_id, entry)
unfolding check_chain
entry-Usable chain_id none done = ground arith
entry-Usable chain_id (some c) done = (c, refl, check_chain-Usable chain_id c done)

check_chains-Usable :
    (chains : List (ℕ × Option ChainConfig)) → check_chains chains ≡ ok tt → All UsableEntry chains
unfolding check_chains
check_chains-Usable [] done = tt
check_chains-Usable ((chain_id, entry) ∷ more) done =
    let (first, rest) = both (check_chain chain_id entry) (check_chains more) done in
    (entry-Usable chain_id entry first, check_chains-Usable more rest)
  where
    both : (a b : Outcome (Unit {0})) → and_then a (λ _. b) ≡ ok tt → (a ≡ ok tt) × (b ≡ ok tt)
    both (ok tt) b e = (refl, e)
    both (err x) b e = ground arith
    both Outcome.panic b e = ground arith

chains_pass :
    (chains : List (ℕ × Option ChainConfig)) → All UsableEntry chains → check_chains chains ≡ ok tt
unfolding check_chains
chains_pass [] usable = refl
chains_pass ((chain_id, entry) ∷ more) ((c, e, first), rest) =
    rw (e, entry_passes chain_id c first) (chains_pass more rest)

module _ {Address : Type 0} (parse : String → Reply Address) where
  -- An empty address is skipped; any other has to be one that libp2p reads.
  abbrev pub Readable : String → Type 0
  Readable addr = (str_eq addr "" ≡ true) ⊎ ((a : Address) × (parse addr ≡ Reply.value a))

  Read : List String → Type 0
  Read addrs = (peers : List Address) × (get_bootstrap_peers parse addrs ≡ ok peers)

  peers-Readable :
      (addrs : List String) (peers : List Address)
      → get_bootstrap_peers parse addrs ≡ ok peers
      → All Readable addrs
  unfolding get_bootstrap_peers
  peers-Readable [] peers e = tt
  peers-Readable (addr ∷ more) peers e = elim (Bool-cases (str_eq addr "")) [
    | inl skip ↦ (inl skip, peers-Readable more peers (ground arith))
    | inr there ↦ elim (Reply-cases (parse addr)) [
      | inr (x, bad) ↦ ground arith
      | inl (a, good) ↦ elim (Outcome-cases (get_bootstrap_peers parse more)) [
        | inl (rest, f) ↦ (inr (a, good), peers-Readable more rest f)
        | inr (inl (x, f)) ↦ ground arith
        | inr (inr f) ↦ ground arith
      ]
    ]
  ]

  addresses_pass : (addrs : List String) → All Readable addrs → Read addrs
  unfolding get_bootstrap_peers Read
  addresses_pass [] readable = ([], refl)
  addresses_pass (addr ∷ more) (first, rest) =
      let (peers, e) = addresses_pass more rest in
      elim (Bool-cases (str_eq addr "")) [
        | inl skip ↦ (peers, ground (arith, e))
        | inr there ↦ elim first [
          | inl skip ↦ (peers, ground (arith, e))
          | inr (a, good) ↦ (a ∷ peers, ground (arith, e))
        ]
      ]

  abbrev pub UsableP2p : P2pConfig → Type 0
  UsableP2p p = (pos 0 ≤ℤ p.port) × (given p.rendezvous ≡ true) × All Readable p.bootstrap_peers

  peers_checked :
      (addrs : List String) → check_peers_config parse addrs ≡ ok tt → All Readable addrs
  unfolding check_peers_config
  peers_checked [] e = tt
  peers_checked (addr ∷ more) e = elim (Outcome-cases (get_bootstrap_peers parse (addr ∷ more))) [
    | inl (peers, f) ↦ peers-Readable (addr ∷ more) peers f
    | inr (inl (x, f)) ↦ ground arith
    | inr (inr f) ↦ ground arith
  ]

  peers_pass : (addrs : List String) → All Readable addrs → check_peers_config parse addrs ≡ ok tt
  unfolding check_peers_config Read
  peers_pass [] readable = refl
  peers_pass (addr ∷ more) readable =
      let (peers, e) = addresses_pass (addr ∷ more) readable in ground (arith, e)

  p2p_Usable : (p : P2pConfig) → check_p2p parse p ≡ ok tt → UsableP2p p
  unfolding check_p2p
  p2p_Usable p done = (ground arith, ground arith, peers_checked p.bootstrap_peers (ground arith))

  p2p_passes : (p : P2pConfig) → UsableP2p p → check_p2p parse p ≡ ok tt
  unfolding check_p2p
  p2p_passes p (port, rendezvous, peers) = ground (arith, port, peers_pass p.bootstrap_peers peers)

  config_Usable :
      (chains : List (ℕ × Option ChainConfig)) (p : P2pConfig)
      → validate parse (record { chains = chains; p2p = p }) ≡ ok tt
      → (0 < length chains) × All UsableEntry chains × UsableP2p p
  unfolding validate
  config_Usable [] p done = ground arith
  config_Usable (chain ∷ more) p done = elim (Outcome-cases (check_chains (chain ∷ more))) [
    | inl (tt, e) ↦
        (omega arith, check_chains-Usable (chain ∷ more) e, p2p_Usable p (ground (arith, e)))
    | inr (inl (x, e)) ↦ ground (arith, e)
    | inr (inr e) ↦ ground (arith, e)
  ]

  config_passes :
      (chains : List (ℕ × Option ChainConfig)) (p : P2pConfig)
      → (0 < length chains) × All UsableEntry chains × UsableP2p p
      → validate parse (record { chains = chains; p2p = p }) ≡ ok tt
  unfolding validate
  config_passes [] p (some_chain, usable, good) = ground arith
  config_passes (chain ∷ more) p (some_chain, usable, good) =
      rw (chains_pass (chain ∷ more) usable) (p2p_passes p good)

  -- A configuration passes exactly where it has a chain; every chain has an entry with an address of
  -- its node and of its state manager, positive confirmations, a block time that is a number above zero,
  -- infinite or not a number, and for chain 1 the addresses of the registry and the epoch manager; the port is not negative, the rendezvous is there,
  -- and every bootstrap peer is empty or an address that libp2p reads. So the order in which the loop
  -- meets the chains does not decide whether it passes.
  pub validate-Usable :
      (c : Config)
      → (validate parse c ≡ ok tt)
        ↔ ((0 < length c.chains) × All UsableEntry c.chains × UsableP2p c.p2p)
  validate-Usable c = (config_Usable c.chains c.p2p, config_passes c.chains c.p2p)
