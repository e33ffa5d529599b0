-- ===== src/Updator/Entered.antt =====
-- An update of the epoch that succeeds: the state of the epoch, and the whole update.
use mathlib.Core.List.{Memᴰ}
use mathlib.Core.Path.{subst}
use spotted_network.Base.{ℕ, ◌≡◌, refl, some, [], ◌∷◌, arith, eq_iff, ◌⊎◌, inl, inr}
use spotted_network.Base.Int.{ℤ}
use spotted_network.Base.Outcome.{Reply, Outcome, ok, err, panic}
use spotted_network.Base.Keeps.{Keeps, keeps_rules, Keeps-bind, Keeps-or_wrap}
use spotted_network.Base.Leads.{After, Leads, Leads-stays, Leads-or_wrap, Leads-bind, Leads-modify}
use spotted_network.Node.{EpochState, Node, Env, Step}
use spotted_network.Node.Rules.{Keeps-call, Keeps-query, Leads-call}
use spotted_network.Repo.Operators.{Operator, Operators, get_operator_by_address}
use spotted_network.Updator.{
  MainnetClient, update_epoch_state, update_state, refresh, refresh_all, update_all,
  handle_epoch_update,
}
use spotted_network.Updator.Refreshed.{Fresh, Alone, Refreshed, update_all-Refreshed}
use spotted_network.Updator.Epochs.{
  Atomic, Transacted, committed, failed, panicked, handle_epoch_update-Atomic,
}

-- The state of the epoch after the update: the number is the epoch's, and the weights are what the
-- main chain answered.
pub record Stated (main : MainnetClient) (epoch : ℕ) (state : EpochState) : Type 0 where
  pub minimum : ℤ
  pub total : ℤ
  pub threshold : ℤ
  pub minimum_answered : (i : ℕ) × (main.get_minimum_weight i ≡ Reply.value minimum)
  pub total_answered : (i : ℕ) × (main.get_total_weight i ≡ Reply.value total)
  pub threshold_answered : (i : ℕ) × (main.get_threshold_weight i ≡ Reply.value threshold)
  pub all : state ≡ record {
    epoch_number = epoch;
    minimum_weight = some minimum;
    total_weight = some total;
    threshold_weight = some threshold;
  }

-- A transaction that commits leaves behind what its body left.
transact-Leads :
    (transact : Step (Unit {0}) → Step (Unit {0})) (m : Step (Unit {0})) {P Q : Node → Type 0}
    → Atomic transact
    → Leads P m (λ _. Q)
    → Leads P (transact m) (λ _. Q)
transact-Leads transact m {Q = Q} atomic k = record {
  from = λ n h. ended (atomic m n) (k.from n h);
}
  where
    ended :
        {n : Node} {body p : Outcome (Unit {0}) × Node}
        → Transacted n body p
        → After (λ _. Q) body.0 body.1
        → After (λ _. Q) p.0 p.1
    ended (committed e) q = q
    ended (failed e m same last) q = tt
    ended (panicked m same last) q = tt

module _ (env : Env) (main : MainnetClient) (transact : Step (Unit {0}) → Step (Unit {0}))
    (epoch block : ℕ) where
  abbrev Updated : Node → Type 0
  Updated n = Stated main epoch n.epoch_state

  refresh-Updated : (o : Operator) → Keeps Updated (refresh env main transact block epoch o)
  unfolding refresh update_state
  refresh-Updated o = search (keeps_rules, Keeps-call, Keeps-query) depth 14

  refresh_all-Updated :
      (rows : Operators) → Keeps Updated (refresh_all env main transact block epoch rows)
  unfolding refresh_all
  refresh_all-Updated [] = search keeps_rules
  refresh_all-Updated (o ∷ rows) = Keeps-bind _ _ (refresh-Updated o) λ _. refresh_all-Updated rows

  update_epoch_state-Updated :
      Leads (λ _. Unit {0}) (update_epoch_state env main transact epoch) (λ _. Updated)
  unfolding update_epoch_state
  update_epoch_state-Updated = Leads-bind _ _ _ (Leads-call _ _ (λ n h. h)) λ minimum.
      Leads-bind _ _ _ (Leads-call _ _ (λ n h. h)) λ total.
        Leads-bind _ _ _ (Leads-call _ _ (λ n h. h)) λ threshold.
          Leads-modify _ λ n (k, (t, (m, h))). record {
            minimum = minimum;
            total = total;
            threshold = threshold;
            minimum_answered = m;
            total_answered = t;
            threshold_answered = k;
            all = refl;
          }

  update_all-Updated :
      Leads (λ _. Unit {0}) (update_all env main transact block epoch) (λ _. Updated)
  unfolding update_all
  update_all-Updated =
      Leads-bind (λ _. Updated) _ _ (Leads-or_wrap _ _ update_epoch_state-Updated)
        λ _. Leads-stays _ (
          Keeps-bind _ _ (Keeps-or_wrap _ _ (Keeps-query env _ (λ n h. h) (λ now n h. h)))
            λ all. refresh_all-Updated all)

-- Every row is what is found under its address: the address is the primary key.
abbrev pub Keyed : Operators → Type 0
Keyed rows = (r : Operator) → Memᴰ r rows → get_operator_by_address r.address rows ≡ some r

alone : (o : Operator) (rows : Operators) → Memᴰ o rows → Keyed rows → Alone o rows
alone o rows m keyed r there same =
    ground (arith, keyed r there, keyed o m, eq_iff r.address o.address)

module _ (env : Env) (main : MainnetClient) (transact : Step (Unit {0}) → Step (Unit {0})) where
  -- After an update of the epoch that succeeds, where transactions are atomic and the address is the
  -- primary key of the operators.
  abbrev pub Entered : ℕ → Operator → Node → Type 0
  Entered epoch o n =
      (block : ℕ) × ((i : ℕ) × (main.block_number i ≡ Reply.value block))
      × Fresh env main epoch block o (get_operator_by_address o.address n.operators)
      × Stated main epoch n.epoch_state

  handle_epoch_update-Leads :
      (epoch : ℕ) (o : Operator) (rows : Operators)
      → Atomic transact
      → Keyed rows
      → Memᴰ o rows
      → Leads
          (λ n. n.operators ≡ rows)
          (handle_epoch_update env main transact epoch)
          (λ _. Entered epoch o)
  unfolding handle_epoch_update
  handle_epoch_update-Leads epoch o rows atomic keyed m =
      Leads-bind _ _ _ (Leads-call _ _ (λ n h. h)) λ block. Leads-or_wrap _ _ (
        transact-Leads transact _ atomic (record {
          from = λ n (answered, same).
              entered block answered _ _
                ((update_all-Refreshed env main transact epoch block o rows m (keyed o m)
                    (alone o rows m keyed)).from
                  n same)
                ((update_all-Updated env main transact epoch block).from n tt);
        }))
    where
      entered :
          (block : ℕ)
          → (i : ℕ) × (main.block_number i ≡ Reply.value block)
          → (r : Outcome (Unit {0})) (n : Node)
          → After (λ _. Refreshed env main transact epoch block o) r n
          → After (λ _. Updated env main transact epoch block) r n
          → After (λ _. Entered epoch o) r n
      entered block answered (ok u) n f s = (block, answered, f, s)
      entered block answered (err e) n f s = tt
      entered block answered panic n f s = tt

  -- An update of the epoch ends in one of two ways for an operator of the table, where transactions
  -- are atomic and the address is the table's primary key. It succeeds, and then the operator's row
  -- is the old one with the new weight, keys and activity: the operator is active where a block that
  -- the main chain answered is within the operator's own epochs, the weight and the keys (those of
  -- the new epoch) are what the main chain answered for the operator's address, and the epoch's
  -- state has the number of the epoch with the three weights that the main chain answered. Or the
  -- table of operators is as it was.
  pub handle_epoch_update-Entered :
      (epoch : ℕ) (o : Operator) (n : Node)
      → Atomic transact
      → Keyed n.operators
      → Memᴰ o n.operators
      → ((handle_epoch_update env main transact epoch n).0 ≡ ok tt)
          × Entered epoch o (handle_epoch_update env main transact epoch n).1
        ⊎ ((handle_epoch_update env main transact epoch n).1.operators ≡ n.operators)
  handle_epoch_update-Entered epoch o n atomic keyed m =
      elim (handle_epoch_update-Atomic env main transact epoch n atomic) [
        | inr same ↦ inr same
        | inl done ↦ inl (
          done,
          subst
              (λ r.
                After (λ _. Entered epoch o) r (handle_epoch_update env main transact epoch n).1)
              done ((handle_epoch_update-Leads epoch o n.operators atomic keyed m).from n refl),
        )
      ]
