-- ===== src/Client/Calls.antt =====
-- What the methods of a client ask of its contracts.
use spotted_network.Base.{ℕ, String, refl, ap, ◌∙◌, true, ◌+◌, ◌≡◌, inl, inr, arith, ◌==◌}
use spotted_network.Base.Outcome.{Reply, Reply-cases, ok, ◌>>=◌, or_wrap}
use spotted_network.Signer.{Bytes}
use spotted_network.Chains.{ClientConfig}
use spotted_network.Api.Send.{mainnet_chain_id}
use spotted_network.Client.{Backend, Connections, Using, ask}
use spotted_network.Client.Connects.{configured}
use spotted_network.Client.Methods.{
  get_current_epoch, get_operator_weight, get_total_weight, get_threshold_weight,
}

module _ (backend : Backend) (cfg : ClientConfig) (conn : ℕ) (s : Connections) where
  -- What a call at the epoch of the epoch contract answers: the epoch is asked for first, and then the
  -- registry at that epoch.
  abbrev pub AtEpoch : {A : Type 0} → (ℕ → ℕ → Reply A) → Using A → Type 0
  AtEpoch {A} call m =
      (a : A)
      → (m s).0 ≡ ok a
      → (epoch : ℕ) × ((backend.current_epoch s.calls cfg.epoch_manager_address ≡ Reply.value epoch)
          × (call (s.calls + 1) epoch ≡ Reply.value a))

  at_epoch :
      {A : Type 0} (call : ℕ → ℕ → Reply A) (m : Using A) (what : String)
      → (cfg.chain_id == mainnet_chain_id) ≡ true
      → m s
        ≡ (get_current_epoch backend (configured cfg conn) >>= λ epoch.
              or_wrap (ask (λ i. call i epoch)) what)
            s
      → AtEpoch call m
  unfolding get_current_epoch ◌>>=◌ ask
  at_epoch call m what main same a done =
      elim (Reply-cases (backend.current_epoch s.calls cfg.epoch_manager_address)) [
        | inr (e, down) ↦ ground (arith, main, same, done, down)
        | inl (epoch, up) ↦ elim (Reply-cases (call (s.calls + 1) epoch)) [
          | inr (e, down) ↦ ground (arith, main, same, done, up, down)
          | inl (b, answer) ↦
              (epoch, (up, answer ∙ ap Reply.value (ground (arith, main, same, done, up, answer))))
        ]
      ]

  -- The client of the main chain: a weight that one of the three methods returns is the registry's
  -- answer at the epoch that the epoch contract has just answered.
  pub weights-AtEpoch :
      (operator : Bytes)
      → (cfg.chain_id == mainnet_chain_id) ≡ true
      → AtEpoch
          (λ i epoch. backend.operator_weight_at_epoch i cfg.registry_address operator epoch)
          (get_operator_weight backend (configured cfg conn) operator)
        × AtEpoch
            (λ i epoch. backend.total_weight_at_epoch i cfg.registry_address epoch)
            (get_total_weight backend (configured cfg conn))
        × AtEpoch
            (λ i epoch. backend.threshold_weight_at_epoch i cfg.registry_address epoch)
            (get_threshold_weight backend (configured cfg conn))
  unfolding get_operator_weight get_total_weight get_threshold_weight ◌>>=◌
  weights-AtEpoch operator main = (
    at_epoch (λ i epoch. backend.operator_weight_at_epoch i cfg.registry_address operator epoch)
        (get_operator_weight backend (configured cfg conn) operator)
        "[ChainClient] failed to get operator weight" main (rw main refl),
    at_epoch (λ i epoch. backend.total_weight_at_epoch i cfg.registry_address epoch)
        (get_total_weight backend (configured cfg conn)) "[ChainClient] failed to get total weight"
        main (rw main refl),
    at_epoch (λ i epoch. backend.threshold_weight_at_epoch i cfg.registry_address epoch)
        (get_threshold_weight backend (configured cfg conn))
        "[ChainClient] failed to get threshold weight" main (rw main refl),
  )
