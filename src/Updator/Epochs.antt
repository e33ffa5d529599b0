-- ===== src/Updator/Epochs.antt =====
-- What an update of the epoch leaves behind when it fails, and how epochs advance.
use spotted_network.Base.{ℕ, ◌<◌, ◌≡◌, refl, ◌∙◌, ◌⊎◌, inl, inr, [], ◌∷◌, arith, ltb, Bool-cases}
use spotted_network.Base.Outcome.{
  Error, Reply, Reply-cases, Outcome, Outcome-cases, ok, err, panic, ◌>>=◌, or_wrap, modify, handle,
}
use spotted_network.Base.Keeps.{Keeps, keeps_rules, Keeps-bind, Keeps-or_wrap}
use spotted_network.Epoch.{calculate_current_epoch_number}
use spotted_network.Node.{Node, Env, Step, call, ticked}
use spotted_network.Node.Rules.{Keeps-call, Keeps-query}
use spotted_network.Repo.Operators.{Operator, Operators}
use spotted_network.Updator.{
  MainnetClient, update_epoch_state, update_state, refresh, refresh_all, update_all,
  handle_epoch_update, enter_epoch, check_epoch,
}

-- A transaction commits what its body wrote, or ends without success and leaves the table of
-- operators as it was; it does not touch the epoch that was processed last.
pub data Transacted (n : Node) (body : Outcome (Unit {0}) × Node)
    : Outcome (Unit {0}) × Node → Type 0 where
  committed : body.0 ≡ ok tt → Transacted n body body
  failed :
      (e : Error) (m : Node)
      → m.operators ≡ n.operators
      → m.last_processed_epoch ≡ body.1.last_processed_epoch
      → Transacted n body (err e, m)
  panicked :
      (m : Node)
      → m.operators ≡ n.operators
      → m.last_processed_epoch ≡ body.1.last_processed_epoch
      → Transacted n body (panic, m)

abbrev pub Atomic : (Step (Unit {0}) → Step (Unit {0})) → Type 0
Atomic transact = (m : Step (Unit {0})) (n : Node) → Transacted n (m n) (transact m n)

-- The result of a transaction, by how it ended.
abbrev Ends : Node → Outcome (Unit {0}) × Node → Type 0
Ends n p =
    (p.0 ≡ ok tt)
    ⊎ ((((e : Error) × (p.0 ≡ err e)) ⊎ (p.0 ≡ panic)) × (p.1.operators ≡ n.operators))

ends :
    {n : Node} {body p : Outcome (Unit {0}) × Node}
    → Transacted n body p
    → Ends n p × (p.1.last_processed_epoch ≡ body.1.last_processed_epoch)
ends (committed e) = (inl e, refl)
ends (failed e m same last) = (inr (inl (e, refl), same), last)
ends (panicked m same last) = (inr (inr refl, same), last)

module _ (env : Env) (main : MainnetClient) (transact : Step (Unit {0}) → Step (Unit {0})) where
  -- Where transactions are atomic, an update of the epoch succeeds or leaves the table of operators
  -- as it was.
  pub handle_epoch_update-Atomic :
      (epoch : ℕ) (n : Node)
      → Atomic transact
      → ((handle_epoch_update env main transact epoch n).0 ≡ ok tt)
        ⊎ ((handle_epoch_update env main transact epoch n).1.operators ≡ n.operators)
  unfolding handle_epoch_update call ◌>>=◌ or_wrap
  handle_epoch_update-Atomic epoch n atomic = elim (Reply-cases (main.block_number n.tick)) [
    | inr (e, down) ↦ inr (ground arith)
    | inl (block, reached) ↦
        elim (ends (atomic (update_all env main transact block epoch) (ticked n))).0 [
          | inl done ↦ inl (ground arith)
          | inr (inl (e, bad), same) ↦ inr (ground arith)
          | inr (inr bad, same) ↦ inr (ground arith)
        ]
  ]

  module _ (last : ℕ) where
    abbrev Last : Node → Type 0
    Last n = n.last_processed_epoch ≡ last

    refresh-Last :
        (block epoch : ℕ) (o : Operator) → Keeps Last (refresh env main transact block epoch o)
    unfolding refresh update_state
    refresh-Last block epoch o = search (keeps_rules, Keeps-call, Keeps-query) depth 14

    refresh_all-Last :
        (block epoch : ℕ) (all : Operators)
        → Keeps Last (refresh_all env main transact block epoch all)
    unfolding refresh_all
    refresh_all-Last block epoch [] = search keeps_rules
    refresh_all-Last block epoch (o ∷ more) =
        Keeps-bind _ _ (refresh-Last block epoch o) λ _. refresh_all-Last block epoch more

    update_all-Last : (block epoch : ℕ) → Keeps Last (update_all env main transact block epoch)
    unfolding update_all update_epoch_state
    update_all-Last block epoch =
        search (keeps_rules, Keeps-call, Keeps-query, refresh_all-Last) depth 14

    transact-Last : Atomic transact → (m : Step (Unit {0})) → Keeps Last m → Keeps Last (transact m)
    transact-Last atomic m k = record { at = λ n h. (ends (atomic m n)).1 ∙ k.at n h }

    pub handle_epoch_update-Last :
        Atomic transact → (epoch : ℕ) → Keeps Last (handle_epoch_update env main transact epoch)
    unfolding handle_epoch_update
    handle_epoch_update-Last atomic epoch =
        Keeps-bind _ _ (search (keeps_rules, Keeps-call))
          λ block. Keeps-or_wrap _ _ (transact-Last atomic _ (update_all-Last block epoch))

  -- Where transactions are atomic, a tick of the updator leaves the epoch that was processed last as
  -- it was, or advances it to a later one, which is the epoch of a block that the main chain
  -- answered.
  check_epoch_advances :
      (n : Node)
      → Atomic transact
      → ((check_epoch env main transact n).1.last_processed_epoch ≡ n.last_processed_epoch)
        ⊎ ((block : ℕ) × (main.block_number n.tick ≡ Reply.value block)
            × (n.last_processed_epoch < calculate_current_epoch_number block)
            × ((check_epoch env main transact n).1.last_processed_epoch
                ≡ calculate_current_epoch_number block))
  unfolding check_epoch enter_epoch handle call modify
  check_epoch_advances n atomic = elim (Reply-cases (main.block_number n.tick)) [
    | inr (e, down) ↦ inl (ground arith)
    | inl (block, reached) ↦
        let epoch = calculate_current_epoch_number block in
        let kept =
          (handle_epoch_update-Last n.last_processed_epoch atomic epoch).at (ticked n) refl in
        elim (Bool-cases (ltb n.last_processed_epoch epoch)) [
          | inr old ↦ inl (ground arith)
          | inl new ↦
              elim (Outcome-cases (handle_epoch_update env main transact epoch (ticked n)).0) [
                | inl (u, done) ↦ inr (block, reached, ground arith, ground arith)
                | inr (inl (e, bad)) ↦ inl (ground arith)
                | inr (inr bad) ↦ inl (ground arith)
              ]
        ]
  ]
