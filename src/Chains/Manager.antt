-- ===== src/Chains/Manager.antt =====
-- The manager of the chain clients: what it holds after it was made, and after a chain was added and
-- removed.
use spotted_network.Base.{
  ℕ, String, ◌≡◌, refl, sym, ◌∙◌, Option, none, some, List, [], ◌∷◌, arith, inl, inr, ◌==◌,
  if◌then◌else◌, Bool-cases,
}
use mathlib.Core.Path.{subst}
use spotted_network.Base.Outcome.{Reply, Reply-cases, ok}
use spotted_network.Signer.{Bytes}
use spotted_network.Config.{ChainConfig}
use spotted_network.Chains.{
  ClientConfig, at, set_at, delete_at, client_config, connect, new_manager, get_client_by_chain_id,
  add_chain, remove_chain,
}

module _ {V : Type 0} where
  at-set_at :
      (k j : ℕ) (v : V) (m : List (ℕ × V))
      → at j (set_at k v m) ≡ (if k == j then some v else at j m)
  unfolding at set_at
  at-set_at k j v [] = ground arith
  at-set_at k j v ((i, w) ∷ m) = ground (arith, at-set_at k j v m)

  at-delete_at :
      (k j : ℕ) (m : List (ℕ × V)) → at j (delete_at k m) ≡ (if k == j then none else at j m)
  unfolding at delete_at
  at-delete_at k j [] = ground arith
  at-delete_at k j ((i, w) ∷ m) = ground (arith, at-delete_at k j m)

  -- The keys of a Go map are different.
  abbrev pub Apart : List (ℕ × V) → Type 0
  Apart [] = Unit
  Apart ((k, v) ∷ m) = (at k m ≡ none) × Apart m

module _ {Client : Type 0} (hex_to_address : String → Bytes)
    (new_client : ClientConfig → Reply Client) (close : Client → Reply (Unit {0})) where
  -- The entry of a chain in the configuration, the client that there was, and the one that there is.
  pub data Made (id : ℕ)
      : Option (Option ChainConfig) → Option Client → Option Client → Type 0 where
    kept : {o : Option Client} → Made id none o o
    made :
        {o : Option Client} (c : ChainConfig) (client : Client)
        → new_client (client_config hex_to_address new_client close id c) ≡ Reply.value client
        → Made id (some (some c)) o (some client)

  kept_only :
      {id : ℕ} {s : Option (Option ChainConfig)} {o p : Option Client}
      → Made id s o p
      → s ≡ none
      → p ≡ o
  kept_only kept e = refl
  kept_only (made c client f) e = ground arith

  connect-Made :
      (chains : List (ℕ × Option ChainConfig)) (m made_m : List (ℕ × Client)) (closed : List Client)
      → Apart chains
      → connect hex_to_address new_client close chains m ≡ (ok made_m, closed)
      → (id : ℕ) → Made id (at id chains) (at id m) (at id made_m)
  unfolding connect at
  connect-Made [] m made_m closed apart done id =
      let e : made_m ≡ m = ground arith in
      subst (λ x. Made id none (at id m) (at id x)) (sym e) kept
  connect-Made ((k, none) ∷ more) m made_m closed apart done id = ground arith
  connect-Made ((k, some c) ∷ more) m made_m closed (alone, apart) done id =
      elim (Reply-cases (new_client (client_config hex_to_address new_client close k c))) [
        | inr (e, bad) ↦ ground arith
        | inl (client, good) ↦
            let rest =
              connect-Made more (set_at k client m) made_m closed apart (ground (arith, good)) id in
            elim (Bool-cases (k == id)) [
              | inl same ↦
                  let here : k ≡ id = ground arith in
                  let fresh : at id more ≡ none = subst (λ i. at i more ≡ none) here alone in
                  let there : at id (set_at k client m) ≡ some client =
                    ground (arith, at-set_at k id client m) in
                  let mine : new_client (client_config hex_to_address new_client close id c)
                      ≡ Reply.value client =
                    subst
                      (λ i.
                        new_client (client_config hex_to_address new_client close i c)
                        ≡ Reply.value client)
                      here good in
                  rw (same, kept_only rest fresh ∙ there) (made c client mine)
              | inr other ↦
                  let there : at id (set_at k client m) ≡ at id m =
                    ground (arith, at-set_at k id client m) in
                  rw other (subst (λ o. Made id (at id more) o (at id made_m)) there rest)
            ]
      ]

  -- Where the manager is made, it has a client for each chain of the configuration, made from the
  -- chain's entry under the chain's number, and for no other chain.
  pub new_manager-Made :
      (chains : List (ℕ × Option ChainConfig)) (m : List (ℕ × Client)) (closed : List Client)
      → Apart chains
      → new_manager hex_to_address new_client close chains ≡ (ok m, closed)
      → (id : ℕ) → Made id (at id chains) none (at id m)
  unfolding new_manager at
  new_manager-Made chains m closed apart done id = connect-Made chains [] m closed apart done id

  -- A chain that is added, where there was none and its client can be made and closed, is found under
  -- its number; removing it succeeds, and every chain is found as before.
  pub remove_chain-add_chain :
      (config : ClientConfig) (client : Client) (m : List (ℕ × Client))
      → at config.chain_id m ≡ none
      → new_client config ≡ Reply.value client
      → close client ≡ Reply.value tt
      → let added = add_chain hex_to_address new_client close config m in
        let removed = remove_chain hex_to_address new_client close config.chain_id added.1 in
        (added.0 ≡ ok tt)
        × (get_client_by_chain_id hex_to_address new_client close config.chain_id added.1
            ≡ ok client)
        × (removed.0 ≡ ok tt)
        × ((id : ℕ)
            → get_client_by_chain_id hex_to_address new_client close id removed.1
              ≡ get_client_by_chain_id hex_to_address new_client close id m)
  unfolding add_chain remove_chain get_client_by_chain_id
  remove_chain-add_chain config client m absent opens closes =
      let held = set_at config.chain_id client m in
      let there : at config.chain_id held ≡ some client =
        ground (arith, at-set_at config.chain_id config.chain_id client m) in
      (
        ground (arith, opens),
        ground (arith, opens, there),
        ground (arith, opens, there, closes),
        λ id. ground (
          arith,
          opens,
          there,
          closes,
          absent,
          at-set_at config.chain_id id client m,
          at-delete_at config.chain_id id held,
        ),
      )
