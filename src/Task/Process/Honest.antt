-- ===== src/Task/Process/Honest.antt =====
-- What `ProcessTask` stores and publishes: only values that the chain confirmed, under its own key.
use spotted_network.Base.{
  ℕ, ◌≡◌, refl, sym, ap, ◌∙◌, true, Option, some, inl, inr, List, [], ◌∷◌, ◌++◌, arith, ◌==◌,
  Bool-cases,
}
use mathlib.Core.Path.{subst}
use spotted_network.Base.Int.{ℤ, eqb_ℤ, eq_of_parts}
use spotted_network.Base.Outcome.{ok}
use spotted_network.Base.Keeps.{Keeps, keeps_rules, Keeps-bind, Keeps-modify}
use spotted_network.Base.Returns.{
  Answers-self, Returns, Returns-bind, Returns-or_wrap, Returns-lift, Returns-if, Returns-raise,
  Returns-pure, Returns-deref, Keeps-bind_with,
}
use spotted_network.Numeric.{numeric_to_big_int}
use spotted_network.Signer.{Bytes, sign_task_response}
use spotted_network.Node.{TaskResponse, TaskResponseMessage, Node, Env, ticked}
use spotted_network.Node.Rules.{Keeps-call, Keeps-query}
use spotted_network.Repo.Tasks.{Task}
use spotted_network.Task.Track.{already_processed, store_response_and_weight, to_message}
use spotted_network.Task.Consensus.{check_consensus}
use spotted_network.Task.Process.{
  get_client, broadcast_response, own_key, own_response, sign_params, fetch_value, respond,
  process_new, process_task,
}
use spotted_network.Task.Process.Source.{
  FromChain, get_state_with_retries-Returns, get_state_with_retries-Keeps,
}

-- The chain confirmed the value of the task.
pub record Confirmed (env : Env) (task : Task) (key : Option ℤ) (value : ℤ) : Type 0 where
  pub key_is : numeric_to_big_int task.key ≡ ok key
  pub value_is : numeric_to_big_int task.value ≡ ok (some value)
  pub source :
      FromChain env task.chain_id
        (env.crypto.hex_to_address task.target_address)
        key
        task.block_number
        value

-- A response of this operator to `task`, whose value the chain confirmed.
pub data Own (env : Env) (task : Task) : TaskResponse → Type 0 where
  own :
      (key : Option ℤ) (value : ℤ) (signature : Bytes)
      → Confirmed env task key value
      → sign_task_response env.crypto env.signing_key (sign_params env task key value)
        ≡ ok signature
      → Own env task (own_response env task value signature)

-- What a property must bear to be kept by `ProcessTask` of `task`.
pub record Closed (env : Env) (task : Task) (P : Node → Type 0) : Type 0 where
  pub ticks : (n : Node) → P n → P (ticked n)
  pub consensus : (r : TaskResponse) → Keeps P (check_consensus env r)
  pub stores :
      (r : TaskResponse) (weight : Option ℤ)
      → Own env task r
      → Keeps P (store_response_and_weight r (own_key env) weight)
  pub sends :
      (r : TaskResponse) (n : Node)
      → Own env task r
      → P n
      → P (record n { published = n.published ++ to_message r ∷ [] })

module _ (env : Env) (task : Task) where
  same_number : (a b : ℤ) → eqb_ℤ a b ≡ true → a ≡ b
  same_number a b e = eq_of_parts a b (ground arith)

  get_client-Returns : (chain : ℕ) → Returns (λ client. client ≡ chain) (get_client env chain)
  unfolding get_client
  get_client-Returns chain = record {
    from = λ n. elim (Bool-cases (env.has_chain chain)) [
      | inl there ↦ rw (there, get_client) refl
      | inr missing ↦ rw (missing, get_client) tt
    ];
  }

  fetch_value-Returns : Returns (λ found. Confirmed env task found.0 found.1) (fetch_value env task)
  unfolding fetch_value
  fetch_value-Returns =
      Returns-bind _ _ _ (Returns-or_wrap _ _ (get_client-Returns task.chain_id)) λ client same.
        Returns-bind _ _ _ (Returns-or_wrap _ _ (Returns-lift _ (Answers-self _))) λ key key_is.
          Returns-bind _ _ _
            (Returns-or_wrap _ _ (
              get_state_with_retries-Returns env client
                (env.crypto.hex_to_address task.target_address) key task.block_number))
            λ value source.
              Returns-bind _ _ _ (Returns-or_wrap _ _ (Returns-lift _ (Answers-self _)))
                λ expected expected_is. Returns-bind _ _ _ (Returns-deref expected) λ number there.
                  Returns-if (eqb_ℤ value number) _ _
                    (λ equal. Returns-pure _ (record {
                      key_is = key_is;
                      value_is =
                          expected_is
                          ∙ ap ok (there ∙ ap some (sym (same_number value number equal)));
                      source =
                          subst
                            (λ c.
                              FromChain env c (env.crypto.hex_to_address task.target_address) key
                                task.block_number value)
                            same source;
                    }))
                    (λ _. Returns-raise _)

  module _ {P : Node → Type 0} (c : Closed env task P) where
    pub get_client-Keeps : (chain : ℕ) → Keeps P (get_client env chain)
    unfolding get_client
    get_client-Keeps chain = record {
      at = λ n h. elim (Bool-cases (env.has_chain chain)) [
        | inl there ↦ rw there h
        | inr missing ↦ rw missing h
      ];
    }

    fetch_value-Keeps : Keeps P (fetch_value env task)
    unfolding fetch_value
    fetch_value-Keeps =
        search (keeps_rules, get_client-Keeps, get_state_with_retries-Keeps, c.ticks) depth 14

    broadcast_Keeps : (r : TaskResponse) → Own env task r → Keeps P (broadcast_response env r)
    unfolding broadcast_response
    broadcast_Keeps r mine =
        Keeps-bind _ _ (Keeps-call _ c.ticks) λ sent. Keeps-modify _ λ n h. c.sends r n mine h

    respond-Keeps :
        (key : Option ℤ) (value : ℤ)
        → Confirmed env task key value
        → Keeps P (respond env task key value)
    unfolding respond
    respond-Keeps key value confirmed =
        Keeps-bind_with _ _ _ (Returns-or_wrap _ _ (Returns-lift _ (Answers-self _)))
          (search (keeps_rules))
          λ signature signed.
            let mine : Own env task (own_response env task value signature) =
              own key value signature confirmed signed in
            search (keeps_rules, Keeps-query, broadcast_Keeps, c.ticks, c.consensus, c.stores) depth
              14

    pub process_task-Keeps : Keeps P (process_task env task)
    unfolding process_task process_new
    process_task-Keeps = record {
      at = λ n h. elim (Bool-cases (already_processed task.task_id (own_key env) n)) [
        | inl done ↦ rw done h
        | inr new ↦ elim (Bool-cases (task.block_number == 0)) [
          | inl zero ↦ rw (new, zero) h
          | inr block ↦
              rw (new, block)
                ((Keeps-bind_with _ _ _ fetch_value-Returns fetch_value-Keeps
                    (λ found confirmed. respond-Keeps found.0 found.1 confirmed)).at
                  n h)
        ]
      ];
    }

-- The messages published since `old` are this operator's responses to tasks of `T`, with values that
-- the chain confirmed.
pub data Honest (env : Env) (T : Task → Type 0) (old : List TaskResponseMessage)
    : List TaskResponseMessage → Type 0 where
  silent : Honest env T old old
  sent :
      {now : List TaskResponseMessage} (task : Task) (r : TaskResponse)
      → T task
      → Own env task r
      → Honest env T old now
      → Honest env T old (now ++ to_message r ∷ [])
