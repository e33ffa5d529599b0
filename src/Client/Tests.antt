-- ===== src/Client/Tests.antt =====
-- A main chain whose contracts answer, and another chain.
use spotted_network.Base.{◌+◌, ◌≡◌, ◌≢◌, ◌⊎◌, refl, true, none, [], ◌∷◌, arith}
use spotted_network.Base.Int.{ℤ, pos}
use spotted_network.Base.Outcome.{message, Reply, ok, handle, ◌>>=◌}
use spotted_network.Chains.{ClientConfig}
use spotted_network.Api.Send.{mainnet_chain_id}
use spotted_network.Client.{
  Backend, ChainClient, Connections, connect_to, or_close, ask, new_chain_client, int64,
}
use spotted_network.Client.Connects.{Ends, new_chain_client-Ends}
use spotted_network.Client.Panics.{Panics, NoPanic, AllMethods, new_chain_client-Panics}

-- The registry cannot be bound at the fourth call.
abbrev backend : Backend
backend = record {
  dial = λ i endpoint. Reply.value tt;
  bind_state_manager = λ i a. Reply.value tt;
  bind_epoch_manager = λ i a. Reply.value tt;
  bind_registry = λ i a. Reply.fault (message "down");
  current_value = λ i a target key. Reply.value (pos i);
  history_at_block = λ i a target key block. Reply.value block;
  history_after_timestamp = λ i a target key time. Reply.value [];
  current_epoch = λ i a. Reply.value 7;
  effective_epoch_for_block = λ i a block. Reply.value block;
  operator_weight_at_epoch = λ i a operator epoch. Reply.value (pos (i + epoch));
  total_weight_at_epoch = λ i a epoch. Reply.value (pos (i + epoch));
  minimum_weight = λ i a. Reply.value (pos i);
  threshold_weight_at_epoch = λ i a epoch. Reply.value (pos (i + epoch));
  operator_registered = λ i a operator. Reply.value true;
  operator_signing_key_at_epoch = λ i a operator epoch. Reply.value operator;
  operator_p2p_key_at_epoch = λ i a operator epoch. Reply.value operator;
}

abbrev main : ClientConfig
main = record {
  chain_id = 11155111;
  rpc_endpoint = "http://main";
  state_manager_address = 1 ∷ [];
  epoch_manager_address = 2 ∷ [];
  registry_address = 3 ∷ [];
}

abbrev other : ClientConfig
other = record main { chain_id = 137 }

abbrev one_open : Connections
one_open = record { open_now = 0 ∷ []; next = 1; calls = 0 }

new_chain_client-Ends_example : Ends backend main one_open (new_chain_client backend main one_open)
new_chain_client-Ends_example = new_chain_client-Ends backend main one_open (omega arith, tt)

-- The client of the other chain, on the connection that is opened for it.
abbrev lonely : ChainClient
lonely = record { client = 1; state_manager = 1 ∷ []; epoch_manager = none; registry = none }

made : (new_chain_client backend other one_open).0 ≡ ok lonely
unfolding new_chain_client connect_to or_close ask handle ◌>>=◌
made = refl

new_chain_client-Panics_example :
    ((137 ≡ mainnet_chain_id) × AllMethods (λ A. NoPanic) backend lonely)
    ⊎ ((137 ≢ mainnet_chain_id) × AllMethods (λ A. Panics) backend lonely)
new_chain_client-Panics_example = new_chain_client-Panics backend other one_open lonely made

-- A block number of 64 bits with the highest bit set is asked for as a negative number.
wraps : int64 18446744073709551615 ≡ ℤ.negsuc 0
wraps = refl
