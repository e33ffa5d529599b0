-- ===== src/Chains/Tests.antt =====
-- A manager of two chains, whose clients are named by their chains.
use spotted_network.Base.{
  ℕ, String, ◌==◌, if◌then◌else◌, ◌≡◌, refl, Option, none, some, List, [], ◌∷◌,
}
use spotted_network.Base.Int.{pos}
use spotted_network.Base.Outcome.{Reply, ok, err, message, wrapped}
use spotted_network.Signer.{Bytes}
use spotted_network.Config.{Float64, ChainConfig}
use spotted_network.Chains.{ClientConfig, at, set_at, connect, new_manager, close_manager}
use spotted_network.Chains.Manager.{Made, new_manager-Made}

abbrev chain : ChainConfig
chain = record {
  rpc = "http://node";
  contracts = record { registry = "a"; epoch_manager = "b"; state_manager = "c" };
  required_confirmations = 3;
  average_block_time = Float64.finite (pos 3) (pos 2);
}

abbrev opens : ClientConfig → Reply ℕ
opens config = Reply.value config.chain_id

abbrev closes : ℕ → Reply (Unit {0})
closes client = Reply.value tt

abbrev no_address : String → Bytes
no_address text = []

abbrev chains : List (ℕ × Option ChainConfig)
chains = (1, some chain) ∷ (137, some chain) ∷ []

abbrev both : List (ℕ × ℕ)
both = (1, 1) ∷ (137, 137) ∷ []

-- The clients that were made are closed when a later one cannot be made.
abbrev opens_first : ClientConfig → Reply ℕ
opens_first config =
    if config.chain_id == 137 then Reply.fault (message "down") else Reply.value config.chain_id

closes_made :
    new_manager no_address opens_first closes chains
    ≡ (err (wrapped "failed to initialize chain" (message "down")), 1 ∷ [])
unfolding new_manager connect close_manager set_at
closes_made = refl

made_both : new_manager no_address opens closes chains ≡ (ok both, [])
unfolding new_manager connect set_at
made_both = refl

new_manager-Made_example : Made no_address opens closes 137 (at 137 chains) none (at 137 both)
unfolding at
new_manager-Made_example =
    new_manager-Made no_address opens closes chains both [] (refl, (refl, tt)) made_both 137

abbrev third : ClientConfig
third = record {
  chain_id = 56;
  rpc_endpoint = "http://third";
  state_manager_address = [];
  epoch_manager_address = [];
  registry_address = [];
}
