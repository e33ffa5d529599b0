-- ===== src/Config.antt =====
-- The configuration: pkg/config/config.go. Its sections for the database, HTTP, logging, metrics and
-- Redis are read by nothing here, and are left out. The map of chains is the list of its entries in
-- the order in which a loop meets them, which Go leaves open.
pub mod Passes
mod Tests
use spotted_network.Base.{
  ℕ, String, Bool, true, false, not, ◌||◌, ◌&&◌, Option, none, some, List, [], ◌∷◌, ◌==◌,
  if◌then◌else◌, str_eq,
}
use spotted_network.Base.Int.{ℤ, pos, negsuc, ltb_ℤ}
use spotted_network.Base.Outcome.{Error, Reply, Outcome, ok, err, message, wrapped, and_then}

pub record ContractsConfig : Type 0 where
  pub registry : String
  pub epoch_manager : String
  pub state_manager : String

-- A `float64`: not a number, an infinity, or a number with its exponent of two. A zero has no sign here,
-- as the two zeros compare equal.
pub data Float64 : Type 0 where
  nan plus_infinity minus_infinity : Float64
  finite : (mantissa exponent : ℤ) → Float64

pub record ChainConfig : Type 0 where
  pub rpc : String
  pub contracts : ContractsConfig
  pub required_confirmations : ℕ
  pub average_block_time : Float64

pub record P2pConfig : Type 0 where
  pub port : ℤ
  pub bootstrap_peers : List String
  pub rendezvous : String

pub record Config : Type 0 where
  pub chains : List (ℕ × Option ChainConfig)
  pub p2p : P2pConfig

abbrev pub require : Bool → String → Outcome (Unit {0}) → Outcome (Unit {0})
require holds what rest = if holds then rest else err (message what)

abbrev pub given : String → Bool
given text = not (str_eq text "")

-- The contracts of the main chain.
unfoldable pub check_contracts : ℕ → ContractsConfig → Outcome (Unit {0})
check_contracts chain_id c =
    if chain_id == 1
    then require (given c.registry) "registry address is required for mainnet"
        (require (given c.epoch_manager) "epoch manager address is required for mainnet" (ok tt))
    else ok tt

-- `x <= 0`, which is false where `x` is not a number
abbrev pub at_most_zero : Float64 → Bool
at_most_zero nan = false
at_most_zero plus_infinity = false
at_most_zero minus_infinity = true
at_most_zero (finite mantissa exponent) = not (ltb_ℤ (pos 0) mantissa)

-- One round of the loop of `validate`; an entry may be a nil pointer
unfoldable pub check_chain : ℕ → Option ChainConfig → Outcome (Unit {0})
check_chain chain_id none = Outcome.panic
check_chain chain_id (some c) = and_then (check_contracts chain_id c.contracts) λ _.
    require (given c.rpc) "rpc url is required" (
      require (given c.contracts.state_manager) "state manager address is required" (
        require (not (c.required_confirmations == 0)) "required confirmations must be positive" (
          require (not (at_most_zero c.average_block_time)) "average block time must be positive"
            (ok tt))))

-- The loop of `validate`
unfoldable pub check_chains : List (ℕ × Option ChainConfig) → Outcome (Unit {0})
check_chains [] = ok tt
check_chains ((chain_id, c) ∷ more) = and_then (check_chain chain_id c) λ _. check_chains more

module _ {Address : Type 0} (addr_info_from_string : String → Reply Address) where
  -- `GetBootstrapPeers`, over libp2p's `AddrInfoFromString`
  unfoldable pub get_bootstrap_peers : List String → Outcome (List Address)
  get_bootstrap_peers [] = ok []
  get_bootstrap_peers (addr ∷ more) =
      let rest = get_bootstrap_peers more in
      if str_eq addr "" then rest else elim (addr_info_from_string addr) [
        | Reply.fault e ↦ err (wrapped "invalid bootstrap peer address" e)
        | Reply.value peer ↦ and_then rest λ peers. ok (peer ∷ peers)
      ]

  unfoldable pub check_peers_config : List String → Outcome (Unit {0})
  check_peers_config [] = ok tt
  check_peers_config (addr ∷ more) = elim (get_bootstrap_peers (addr ∷ more)) [
    | ok _ ↦ ok tt
    | err e ↦ err (wrapped "invalid bootstrap peers" e)
    | Outcome.panic ↦ Outcome.panic
  ]

  unfoldable pub check_p2p : P2pConfig → Outcome (Unit {0})
  unfolding check_peers_config
  check_p2p p = require (not (ltb_ℤ p.port (pos 0))) "p2p port must be non-negative" (
      require (given p.rendezvous) "p2p rendezvous string is required"
        (check_peers_config p.bootstrap_peers))

  -- `validate`
  unfoldable pub validate : Config → Outcome (Unit {0})
  validate c = elim c.chains [
    | [] ↦ err (message "at least one chain configuration is required")
    | _ ∷ _ ↦ and_then (check_chains c.chains) λ _. check_p2p c.p2p
  ]
