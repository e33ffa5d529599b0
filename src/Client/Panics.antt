-- ===== src/Client/Panics.antt =====
-- Which clients panic: what `NewChainClient` returns, and the methods that read its contracts.
use spotted_network.Base.{
  ℕ, String, refl, ◌∙◌, ◌+◌, ◌≡◌, inl, inr, ◌⊎◌, none, some, ◌≢◌, Bool-cases, arith, ◌==◌,
}
use spotted_network.Base.Outcome.{
  Error, Reply, Reply-cases, ok, err, wrapped, panic, ◌>>=◌, or_wrap, deref, handle,
}
use spotted_network.Signer.{Bytes}
use spotted_network.Chains.{ClientConfig}
use spotted_network.Api.Send.{mainnet_chain_id}
use spotted_network.Client.{
  Backend, ChainClient, Connections, Using, ask, connect_to, or_close, bind_main, new_chain_client,
}
use spotted_network.Client.Connects.{configured}
use spotted_network.Client.Methods.{
  get_current_epoch, get_effective_epoch_for_block, get_operator_weight, get_total_weight,
  get_minimum_weight, get_threshold_weight, is_operator_registered, get_operator_signing_key,
  get_operator_p2p_key,
}

-- A call through a contract that is nil panics before anything is asked.
abbrev pub Panics : {A : Type 0} → Using A → Type 0
Panics m = (s : Connections) → m s ≡ (panic, s)

-- A call that answers or fails.
pub record NoPanic {A : Type 0} (m : Using A) : Type 0 where
  pub at : (s : Connections) → ((a : A) × ((m s).0 ≡ ok a)) ⊎ ((e : Error) × ((m s).0 ≡ err e))

asked-NoPanic : {A : Type 0} (f : ℕ → Reply A) (what : String) → NoPanic (or_wrap (ask f) what)
unfolding ask or_wrap
asked-NoPanic f what = record {
  at = λ s. elim (Reply-cases (f s.calls)) [
    | inl (a, answer) ↦ inl (a, ground (arith, answer))
    | inr (e, failed) ↦ inr (wrapped what e, ground (arith, failed))
  ];
}

module _ {A B : Type 0} where
  bind-NoPanic :
      (m : Using A) (f : A → Using B) → NoPanic m → ((a : A) → NoPanic (f a)) → NoPanic (m >>= f)
  unfolding ◌>>=◌
  bind-NoPanic m f km kf = record {
    at = λ s. elim (km.at s) [
      | inl (a, answer) ↦ rw answer ((kf a).at (m s).1)
      | inr (e, failed) ↦ inr (e, ground (arith, failed))
    ];
  }

  deref-NoPanic : (a : A) (f : A → Using B) → NoPanic (f a) → NoPanic (deref (some a) >>= f)
  unfolding ◌>>=◌
  deref-NoPanic a f k = record { at = k.at }

-- All nine methods of a client on the epochs and on the registry have the property.
abbrev pub AllMethods : ((A : Type 0) → Using A → Type 0) → Backend → ChainClient → Type 0
AllMethods P backend c =
    P _ (get_current_epoch backend c)
    × ((block : ℕ) → P _ (get_effective_epoch_for_block backend c block))
    × ((operator : Bytes) → P _ (get_operator_weight backend c operator))
    × P _ (get_total_weight backend c)
    × P _ (get_minimum_weight backend c)
    × P _ (get_threshold_weight backend c)
    × ((operator : Bytes) → P _ (is_operator_registered backend c operator))
    × ((operator : Bytes) (epoch : ℕ) → P _ (get_operator_signing_key backend c operator epoch))
    × ((operator : Bytes) (epoch : ℕ) → P _ (get_operator_p2p_key backend c operator epoch))

abbrev unbound : ℕ → Bytes → ChainClient
unbound connection state_manager = record {
  client = connection;
  state_manager = state_manager;
  epoch_manager = none;
  registry = none;
}

abbrev bound : ℕ → Bytes → Bytes → Bytes → ChainClient
bound connection state_manager epochs registry = record {
  client = connection;
  state_manager = state_manager;
  epoch_manager = some epochs;
  registry = some registry;
}

unbound-Panics :
    (backend : Backend) (connection : ℕ) (state_manager : Bytes)
    → AllMethods (λ A. Panics) backend (unbound connection state_manager)
unfolding get_current_epoch get_effective_epoch_for_block get_operator_weight get_total_weight
    get_minimum_weight get_threshold_weight is_operator_registered get_operator_signing_key
    get_operator_p2p_key ◌>>=◌
unbound-Panics backend connection state_manager = (
  λ s. refl,
  λ block s. refl,
  λ operator s. refl,
  λ s. refl,
  λ s. refl,
  λ s. refl,
  λ operator s. refl,
  λ operator epoch s. refl,
  λ operator epoch s. refl,
)

module _ (backend : Backend) (connection : ℕ) (state_manager epochs registry : Bytes) where
  abbrev main_client : ChainClient
  main_client = bound connection state_manager epochs registry

  epoch-NoPanic : NoPanic (get_current_epoch backend main_client)
  unfolding get_current_epoch
  epoch-NoPanic = deref-NoPanic epochs _ (asked-NoPanic _ _)

  bound-NoPanic : AllMethods (λ A. NoPanic) backend main_client
  unfolding get_effective_epoch_for_block get_operator_weight get_total_weight get_minimum_weight
      get_threshold_weight is_operator_registered get_operator_signing_key get_operator_p2p_key
  bound-NoPanic = (
    epoch-NoPanic,
    λ block. deref-NoPanic epochs _ (asked-NoPanic _ _),
    λ operator.
        bind-NoPanic _ _ epoch-NoPanic (λ epoch. deref-NoPanic registry _ (asked-NoPanic _ _)),
    bind-NoPanic _ _ epoch-NoPanic (λ epoch. deref-NoPanic registry _ (asked-NoPanic _ _)),
    deref-NoPanic registry _ (asked-NoPanic _ _),
    bind-NoPanic _ _ epoch-NoPanic (λ epoch. deref-NoPanic registry _ (asked-NoPanic _ _)),
    λ operator. deref-NoPanic registry _ (asked-NoPanic _ _),
    λ operator epoch. deref-NoPanic registry _ (asked-NoPanic _ _),
    λ operator epoch. deref-NoPanic registry _ (asked-NoPanic _ _),
  )

-- The client that `NewChainClient` returns is the one of its configuration.
new_chain_client-configured :
    (backend : Backend) (cfg : ClientConfig) (s : Connections) (c : ChainClient)
    → (new_chain_client backend cfg s).0 ≡ ok c
    → c ≡ configured cfg s.next
unfolding new_chain_client connect_to or_close bind_main ask handle ◌>>=◌
new_chain_client-configured backend cfg s c made =
    elim (Reply-cases (backend.dial s.calls cfg.rpc_endpoint)) [
      | inr (e, down) ↦ ground (arith, made, down)
      | inl (_, up) ↦
          elim (Reply-cases (backend.bind_state_manager (s.calls + 1) cfg.state_manager_address)) [
            | inr (e, down) ↦ ground (arith, made, up, down)
            | inl (_, state) ↦ elim (Bool-cases (cfg.chain_id == mainnet_chain_id)) [
              | inr other ↦ ground (arith, made, up, state, other)
              | inl main ↦
                  elim (Reply-cases
                    (backend.bind_epoch_manager (s.calls + 2) cfg.epoch_manager_address)) [
                      | inr (e, down) ↦ ground (arith, made, up, state, main, down)
                      | inl (_, epochs) ↦
                          elim (Reply-cases
                            (backend.bind_registry (s.calls + 3) cfg.registry_address)) [
                              | inr (e, down) ↦ ground (arith, made, up, state, main, epochs, down)
                              | inl (_, bound) ↦
                                  ground (arith, made, up, state, main, epochs, bound)
                            ]
                    ]
            ]
          ]
    ]

-- What `NewChainClient` returns, if it returns a client, is one of two kinds. For the main chain, none of
-- its nine methods on the epochs and on the registry panics: each answers or fails, whatever the chain
-- answers. For any other chain all nine panic through a nil pointer, before they ask anything.
pub new_chain_client-Panics :
    (backend : Backend) (cfg : ClientConfig) (s : Connections) (c : ChainClient)
    → (new_chain_client backend cfg s).0 ≡ ok c
    → ((cfg.chain_id ≡ mainnet_chain_id) × AllMethods (λ A. NoPanic) backend c)
      ⊎ ((cfg.chain_id ≢ mainnet_chain_id) × AllMethods (λ A. Panics) backend c)
new_chain_client-Panics backend cfg s c made =
    let is = new_chain_client-configured backend cfg s c made in
    elim (Bool-cases (cfg.chain_id == mainnet_chain_id)) [
      | inl main ↦
          let same : c
              ≡ bound s.next cfg.state_manager_address cfg.epoch_manager_address
                  cfg.registry_address =
            is ∙ rw main refl in
          inl (
            ground arith,
            rw same (
                bound-NoPanic backend s.next cfg.state_manager_address cfg.epoch_manager_address
                  cfg.registry_address),
          )
      | inr other ↦
          let same : c ≡ unbound s.next cfg.state_manager_address = is ∙ rw other refl in
          inr (λ e. ground arith, rw same (unbound-Panics backend s.next cfg.state_manager_address))
    ]
