-- ===== src/System/Epochs.antt =====
-- The epoch updator's step leaves the tracker and the messages alone.
use spotted_network.Base.{ℕ, ◌≡◌, ◌⊎◌, inl, inr, [], ◌∷◌, Bool-cases, ltb}
use spotted_network.Base.Outcome.{modify, handle, pure}
use spotted_network.Base.Keeps.{Keeps, keeps_rules, Keeps-bind}
use spotted_network.Node.{ticked, Node, Env, Step}
use spotted_network.Node.Rules.{Keeps-call, Keeps-query}
use spotted_network.Repo.Operators.{Operators}
use spotted_network.Updator.{
  MainnetClient, update_epoch_state, update_state, refresh, refresh_all, update_all,
  handle_epoch_update, enter_epoch, check_epoch,
}
use spotted_network.System.Stable.{Stable, ticks}

-- A transaction leaves the process as its body does, or as it was, but for the table of operators and
-- the number of calls.
abbrev pub Contained : (Step (Unit {0}) → Step (Unit {0})) → Type 0
Contained transact =
    (m : Step (Unit {0})) (n : Node)
    → (x : Node) × ((x ≡ (m n).1) ⊎ (x ≡ n))
      × ((rows : Operators) × (tick : ℕ) × ((transact m n).1
            ≡ record x { operators = rows; tick = tick }))

module _ {env : Env} {P : Node → Type 0} (s : Stable env P) (main : MainnetClient)
    (transact : Step (Unit {0}) → Step (Unit {0})) (contained : Contained transact) where
  one : (n : Node) → P n → P (ticked n)
  one = ticks s

  transact_kept : (m : Step (Unit {0})) → Keeps P m → Keeps P (transact m)
  transact_kept m k = record {
    at = λ n h.
        let (x, which, (rows, tick, ended)) = contained m n in
        rw ended (
          s.tick tick _
            (s.operators rows x (elim which [ inl e ↦ rw e (k.at n h) | inr e ↦ rw e h ])));
  }

  refresh_all_kept :
      (block epoch : ℕ) (all : Operators) → Keeps P (refresh_all env main transact block epoch all)
  unfolding refresh_all refresh update_state
  refresh_all_kept block epoch [] = search keeps_rules
  refresh_all_kept block epoch (o ∷ more) =
      let rest = refresh_all_kept block epoch more in
      Keeps-bind _ _ (search (keeps_rules, Keeps-call, Keeps-query, one, s.operators) depth 14)
        λ u. rest

  handle_epoch_update_kept : (epoch : ℕ) → Keeps P (handle_epoch_update env main transact epoch)
  unfolding handle_epoch_update update_all update_epoch_state
  handle_epoch_update_kept epoch =
      search (keeps_rules, Keeps-call, Keeps-query, one, s.epoch, transact_kept, refresh_all_kept)
        depth 16

  entering :
      (epoch : ℕ)
      → Keeps P (
          handle
            (handle_epoch_update env main transact epoch)
            (λ _. modify (λ m. record m { last_processed_epoch = epoch }))
            (λ _. pure tt))
  entering epoch = search (keeps_rules, handle_epoch_update_kept, s.last)

  enter_epoch_kept : (epoch : ℕ) → Keeps P (enter_epoch env main transact epoch)
  unfolding enter_epoch
  enter_epoch_kept epoch = record {
    at = λ n h. elim (Bool-cases (ltb n.last_processed_epoch epoch)) [
      | inr old ↦ rw old h
      | inl new ↦ rw new ((entering epoch).at n h)
    ];
  }

  pub check_epoch_kept : Keeps P (check_epoch env main transact)
  unfolding check_epoch
  check_epoch_kept = search (keeps_rules, Keeps-call, one, enter_epoch_kept)
