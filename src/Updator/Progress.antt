-- ===== src/Updator/Progress.antt =====
-- The updator where the main chain and the database answer.
use spotted_network.Base.{ℕ, ◌≡◌, refl, [], ◌∷◌, arith, ltb, if◌then◌else◌}
use spotted_network.Base.Int.{ℤ}
use spotted_network.Base.Outcome.{Reply, ok, modify, handle}
use spotted_network.Base.Succeeds.{Succeeds, succeeds_rules, Succeeds-bind, Succeeds-or_wrap}
use spotted_network.Epoch.{calculate_current_epoch_number}
use spotted_network.Signer.{Bytes}
use spotted_network.Node.{Node, Env, Step, call, ticked}
use spotted_network.Node.Rules.{Up, Succeeds-call, Succeeds-query}
use spotted_network.Repo.Operators.{Operator, Operators, UpdateOperatorStateParams}
use spotted_network.Updator.{
  MainnetClient, update_epoch_state, update_state, refresh, refresh_all, update_all,
  handle_epoch_update, enter_epoch, check_epoch,
}
use spotted_network.Updator.Epochs.{Atomic, handle_epoch_update-Last}

-- Every call of the main chain is answered.
pub record Answering (main : MainnetClient) : Type 0 where
  pub blocks : (i : ℕ) → (block : ℕ) × (main.block_number i ≡ Reply.value block)
  pub minimum : (i : ℕ) → (w : ℤ) × (main.get_minimum_weight i ≡ Reply.value w)
  pub total : (i : ℕ) → (w : ℤ) × (main.get_total_weight i ≡ Reply.value w)
  pub threshold : (i : ℕ) → (w : ℤ) × (main.get_threshold_weight i ≡ Reply.value w)
  pub weight : (who : Bytes) (i : ℕ) → (w : ℤ) × (main.get_operator_weight who i ≡ Reply.value w)
  pub signing_key :
      (who : Bytes) (epoch i : ℕ)
      → (key : Bytes) × (main.get_operator_signing_key who epoch i ≡ Reply.value key)
  pub p2p_key :
      (who : Bytes) (epoch i : ℕ)
      → (key : Bytes) × (main.get_operator_p2p_key who epoch i ≡ Reply.value key)

-- A transaction whose body succeeds commits.
abbrev pub Commits : (Step (Unit {0}) → Step (Unit {0})) → Type 0
Commits transact = (m : Step (Unit {0})) (n : Node) → (m n).0 ≡ ok tt → transact m n ≡ m n

module _ (env : Env) (main : MainnetClient) (transact : Step (Unit {0}) → Step (Unit {0}))
    (up : Up env) (answering : Answering main) (commits : Commits transact) where
  update_epoch_state-Succeeds : (epoch : ℕ) → Succeeds (update_epoch_state env main transact epoch)
  unfolding update_epoch_state
  update_epoch_state-Succeeds epoch =
      let minimum = answering.minimum in
      let total = answering.total in
      let threshold = answering.threshold in
      search (succeeds_rules, Succeeds-call, minimum, total, threshold) depth 14

  update_state-Succeeds :
      (p : UpdateOperatorStateParams) → Succeeds (update_state env main transact p)
  unfolding update_state
  update_state-Succeeds p = Succeeds-query env _ up (λ now n. (_, refl))

  refresh-Succeeds :
      (block epoch : ℕ) (o : Operator) → Succeeds (refresh env main transact block epoch o)
  unfolding refresh
  refresh-Succeeds block epoch o =
      let weight = answering.weight in
      let signing_key = answering.signing_key in
      let p2p_key = answering.p2p_key in
      search (succeeds_rules, Succeeds-call, update_state-Succeeds, weight, signing_key, p2p_key)
        depth 14

  refresh_all-Succeeds :
      (block epoch : ℕ) (all : Operators) → Succeeds (refresh_all env main transact block epoch all)
  unfolding refresh_all
  refresh_all-Succeeds block epoch [] = search succeeds_rules
  refresh_all-Succeeds block epoch (o ∷ more) =
      Succeeds-bind _ _ (refresh-Succeeds block epoch o) λ _. refresh_all-Succeeds block epoch more

  update_all-Succeeds : (block epoch : ℕ) → Succeeds (update_all env main transact block epoch)
  unfolding update_all
  update_all-Succeeds block epoch =
      Succeeds-bind _ _ (Succeeds-or_wrap _ _ (update_epoch_state-Succeeds epoch)) λ _.
        Succeeds-bind _ _ (Succeeds-or_wrap _ _ (Succeeds-query env _ up (λ now n. (_, refl))))
          λ all. refresh_all-Succeeds block epoch all

  transact-Succeeds : (m : Step (Unit {0})) → Succeeds m → Succeeds (transact m)
  transact-Succeeds m k = record { at = λ n. let (u, e) = k.at n in (tt, rw (commits m n e) e) }

  handle_epoch_update-Succeeds :
      (epoch : ℕ) → Succeeds (handle_epoch_update env main transact epoch)
  unfolding handle_epoch_update
  handle_epoch_update-Succeeds epoch =
      let blocks = answering.blocks in
      search (succeeds_rules, Succeeds-call, blocks, transact-Succeeds, update_all-Succeeds) depth
        14

  -- Where the database and the main chain answer every call, and transactions are atomic and commit
  -- where their body succeeds, a tick of the updator catches up: the epoch that was processed last
  -- is afterwards the one of the block that the main chain answered, where that is a later one, and
  -- what it was otherwise.
  pub check_epoch_enters :
      (n : Node)
      → Atomic transact
      → (block : ℕ) × (main.block_number n.tick ≡ Reply.value block)
        × ((check_epoch env main transact n).1.last_processed_epoch ≡ (
            if ltb n.last_processed_epoch (calculate_current_epoch_number block)
            then calculate_current_epoch_number block
            else n.last_processed_epoch))
  unfolding check_epoch enter_epoch handle call modify
  check_epoch_enters n atomic =
      let (block, answered) = answering.blocks n.tick in
      let epoch = calculate_current_epoch_number block in
      let (u, done) = (handle_epoch_update-Succeeds epoch).at (ticked n) in
      let kept =
        (handle_epoch_update-Last env main transact n.last_processed_epoch atomic epoch).at
          (ticked n) refl in
      (block, answered, ground (arith, answered, done, kept))
