-- ===== src/Client/Connects.antt =====
-- What `NewChainClient` leaves open, and what the client that it makes holds.
use spotted_network.Base.{
  ℕ, ◌+◌, ◌<◌, ◌≡◌, ◌⊎◌, inl, inr, none, some, ◌∷◌, arith, ◌==◌, if◌then◌else◌, Bool-cases,
}
use spotted_network.Base.Lists.{All, without_lem}
use spotted_network.Base.Outcome.{Error, Reply-cases, Outcome, ok, err, wrapped, ◌>>=◌, handle}
use spotted_network.Chains.{ClientConfig}
use spotted_network.Api.Send.{mainnet_chain_id}
use spotted_network.Client.{
  Backend, ChainClient, Connections, new_chain_client, connect_to, or_close, bind_main, ask,
}

-- The client of a configuration on a connection: the main chain's alone has its two contracts.
abbrev pub configured : ClientConfig → ℕ → ChainClient
configured cfg c = record {
  client = c;
  state_manager = cfg.state_manager_address;
  epoch_manager = if cfg.chain_id == mainnet_chain_id then some cfg.epoch_manager_address else none;
  registry = if cfg.chain_id == mainnet_chain_id then some cfg.registry_address else none;
}

module _ (backend : Backend) (cfg : ClientConfig) (s : Connections) where
  -- How making a client ends: with a new connection that the client holds, or with those that were open.
  abbrev pub Ends : Outcome ChainClient × Connections → Type 0
  Ends end =
      ((end.0 ≡ ok (configured cfg s.next)) × (end.1.open_now ≡ s.next ∷ s.open_now))
      ⊎ ((e : Error) × ((end.0 ≡ err e) × (end.1.open_now ≡ s.open_now)))

  -- The connections that are open have numbers below the next one. Then `NewChainClient` ends with one
  -- new connection, which the client holds, and with the epoch and registry contracts exactly if the
  -- chain is the main chain; or with an error and the same connections open as before, whichever call
  -- fails.
  pub new_chain_client-Ends :
      All (λ d. d < s.next) s.open_now → Ends (new_chain_client backend cfg s)
  unfolding new_chain_client connect_to or_close bind_main ask handle ◌>>=◌
  new_chain_client-Ends all = elim (Reply-cases (backend.dial s.calls cfg.rpc_endpoint)) [
    | inr (e, down) ↦ inr (
      wrapped "[ChainClient] failed to connect to Ethereum node" e,
      (ground (arith, down), ground (arith, down)),
    )
    | inl (_, up) ↦
        elim (Reply-cases (backend.bind_state_manager (s.calls + 1) cfg.state_manager_address)) [
          | inr (e, down) ↦ inr (
            wrapped "[ChainClient] failed to create state manager binding" e,
            (ground (arith, up, down), ground (arith, up, down, without_lem s.next s.open_now all)),
          )
          | inl (_, state) ↦ elim (Bool-cases (cfg.chain_id == mainnet_chain_id)) [
            | inr other ↦ inl (ground (arith, up, state, other), ground (arith, up, state, other))
            | inl main ↦
                elim (Reply-cases
                  (backend.bind_epoch_manager (s.calls + 2) cfg.epoch_manager_address)) [
                    | inr (e, down) ↦ inr (
                      wrapped "[ChainClient] failed to create epoch manager binding" e,
                      (
                        ground (arith, up, state, main, down),
                        ground (arith, up, state, main, down, without_lem s.next s.open_now all),
                      ),
                    )
                    | inl (_, epochs) ↦
                        elim (Reply-cases
                          (backend.bind_registry (s.calls + 3) cfg.registry_address)) [
                            | inr (e, down) ↦ inr (
                              wrapped "[ChainClient] failed to create registry binding" e,
                              (
                                ground (arith, up, state, main, epochs, down),
                                ground (
                                  arith,
                                  up,
                                  state,
                                  main,
                                  epochs,
                                  down,
                                  without_lem s.next s.open_now all,
                                ),
                              ),
                            )
                            | inl (_, made) ↦ inl (
                              ground (arith, up, state, main, epochs, made),
                              ground (arith, up, state, main, epochs, made),
                            )
                          ]
                  ]
          ]
        ]
  ]
