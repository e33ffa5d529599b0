-- ===== src/Config/Tests.antt =====
-- A configuration whose main chain has no registry.
use spotted_network.Base.{String, ◌≡◌, ◌↔◌, ◌<◌, none, some, [], ◌∷◌, refl}
use spotted_network.Base.Lists.{length, All}
use spotted_network.Base.Int.{pos}
use spotted_network.Base.Outcome.{Reply, Outcome, ok}
use spotted_network.Config.{
  Float64, ChainConfig, Config, check_chain, check_contracts, check_chains, check_p2p,
  get_bootstrap_peers, validate,
}
use spotted_network.Config.Passes.{UsableEntry, UsableP2p, validate-Usable}

abbrev sepolia : ChainConfig
sepolia = record {
  rpc = "http://node";
  contracts = record { registry = ""; epoch_manager = ""; state_manager = "0x01" };
  required_confirmations = 3;
  average_block_time = Float64.finite (pos 3) (pos 2);
}

abbrev config : Config
config = record {
  chains = (11155111, some sepolia) ∷ [];
  p2p = record { port = pos 4001; bootstrap_peers = "" ∷ "peer" ∷ []; rendezvous = "spotted" };
}

abbrev read : String → Reply String
read address = Reply.value address

passes : validate read config ≡ ok tt
unfolding validate check_chains check_chain check_contracts check_p2p get_bootstrap_peers
passes = refl

-- A block time that is not a number passes.
no_number : check_chain 5 (some (record sepolia { average_block_time = Float64.nan })) ≡ ok tt
unfolding check_chain check_contracts
no_number = refl

missing_entry : check_chain 5 none ≡ Outcome.panic
unfolding check_chain
missing_entry = refl

validate-Usable_example :
    (validate read config ≡ ok tt)
    ↔ ((0 < length config.chains) × All UsableEntry config.chains × UsableP2p read config.p2p)
validate-Usable_example = validate-Usable read config
