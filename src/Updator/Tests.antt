-- ===== src/Updator/Tests.antt =====
-- The theorems on the epoch updator, with a transaction that puts the operators back on an error.
use mathlib.Core.List.Memᴰ
use spotted_network.Base.{ℕ, ◌≡◌, refl, ◌⊎◌, inl, inr, [], ◌∷◌, ltb, if◌then◌else◌}
use spotted_network.Base.Int.{pos}
use spotted_network.Base.Outcome.{Reply, Outcome, ok, err, panic, ◌>>=◌}
use spotted_network.Epoch.{calculate_current_epoch_number}
use spotted_network.Node.{Node, call, query}
use spotted_network.Node.Sample.{env, empty, node, two}
use spotted_network.Updator.Sample.{main, finish, transact}
use spotted_network.Repo.Table.{find}
use spotted_network.Repo.Operators.{list_all_operators}
use spotted_network.Updator.{
  update_epoch_state, update_state, refresh, refresh_all, update_all, handle_epoch_update,
  check_epoch,
}
use spotted_network.Updator.Progress.{Answering, Commits, check_epoch_enters}
use spotted_network.Updator.Entered.{Keyed, Entered, handle_epoch_update-Entered}
use spotted_network.Updator.Epochs.{Atomic, Transacted, committed, failed, panicked}

finished : (n : Node) (body : Outcome (Unit {0}) × Node) → Transacted n body (finish n body)
finished n (ok u, m) = committed refl
finished n (err e, m) = failed e _ refl refl
finished n (panic, m) = panicked _ refl refl

atomic : Atomic transact
atomic m n = finished n (m n)

keyed : Keyed (node empty 0).operators
unfolding find
keyed r m = elim (Memᴰ.cases_cons m) [
  | inl e ↦ rw e refl
  | inr more ↦ rw (Memᴰ.eq_of_singleton more) refl
]

handle_epoch_update-Entered_example :
    ((handle_epoch_update env main transact 8 (node empty 0)).0 ≡ ok tt)
      × Entered env main transact 8 two (handle_epoch_update env main transact 8 (node empty 0)).1
    ⊎ ((handle_epoch_update env main transact 8 (node empty 0)).1.operators
        ≡ (node empty 0).operators)
handle_epoch_update-Entered_example =
    handle_epoch_update-Entered env main transact 8 two (node empty 0) atomic keyed
      (Memᴰ.tail (Memᴰ.head refl))

-- It does succeed here.
succeeds : (handle_epoch_update env main transact 8 (node empty 0)).0 ≡ ok tt
unfolding handle_epoch_update ◌>>=◌ call update_all update_epoch_state query refresh_all
    list_all_operators refresh update_state
succeeds = refl

answering : Answering main
answering = record {
  blocks = λ i. (7698600, refl);
  minimum = λ i. (pos 1, refl);
  total = λ i. (pos 20, refl);
  threshold = λ i. (pos 10, refl);
  weight = λ who i. (pos 10, refl);
  signing_key = λ who epoch i. (1 ∷ [], refl);
  p2p_key = λ who epoch i. (5 ∷ [], refl);
}

commits : Commits transact
commits m n done = finish_lem n (m n) done
  where
    finish_lem : (n : Node) (p : Outcome (Unit {0}) × Node) → p.0 ≡ ok tt → finish n p ≡ p
    finish_lem n (ok u, m) e = refl
    finish_lem n (err x, m) e = cc
    finish_lem n (panic, m) e = cc

check_epoch_enters_example :
    (block : ℕ) × (main.block_number 0 ≡ Reply.value block)
    × ((check_epoch env main transact (node empty 0)).1.last_processed_epoch ≡ (
        if ltb 1 (calculate_current_epoch_number block)
        then calculate_current_epoch_number block
        else 1))
check_epoch_enters_example =
    check_epoch_enters env main transact (λ i. refl) answering commits (node empty 0) atomic
