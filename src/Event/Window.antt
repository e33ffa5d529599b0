-- ===== src/Event/Window.antt =====
-- From the events of an operator to the epochs in which it is active.
use spotted_network.Base.{
  ℕ, ◌+◌, ◌<◌, String, ◌≡◌, refl, false, ◌&&◌, Option, none, some, arith, str_eq, eq_iff, ltb, leb,
  if◌then◌else◌,
}
use spotted_network.Base.Outcome.{ok, ◌>>=◌}
use spotted_network.Epoch.{
  u64, no_exit, calculate_current_epoch_number, get_effective_epoch_by_block_number,
  is_operator_active,
}
use spotted_network.Epoch.Bounds.{InRange}
use spotted_network.Epoch.Activity.{is_operator_active_window}
use spotted_network.Node.{Node, Env, query}
use spotted_network.Node.Rules.{Up}
use spotted_network.Repo.Table.{find-update}
use spotted_network.Repo.Operators.{
  Operator, operator_key, get_operator_by_address, upsert_operator, update_operator_exit_epoch,
  exiting,
}
use spotted_network.Repo.Operators.Upsert.{upserted, upsert_operator_lem}
use spotted_network.Event.{
  OperatorRegisteredEvent, OperatorDeregisteredEvent, registration, handle_operator_registered,
  handle_operator_deregistered,
}

-- The row of the operator after its registration.
abbrev pub joined : Env → OperatorRegisteredEvent → Node → Operator
joined env e n =
    upserted (registration env e) (env.now n.tick)
      (get_operator_by_address (env.crypto.hex e.operator) n.operators)

abbrev Taken : Env → OperatorRegisteredEvent → Operator → Type 0
Taken env e o =
    (o.active_epoch ≡ get_effective_epoch_by_block_number (u64 e.block_number))
    × (o.exit_epoch ≡ no_exit)
    × (o.is_active ≡ false)

taken :
    (env : Env) (e : OperatorRegisteredEvent) (now : ℕ) (old : Option Operator)
    → Taken env e (upserted (registration env e) now old)
taken env e now none = (refl, refl, refl)
taken env e now (some o) = (refl, refl, refl)

module _ (env : Env) (up : Up env) where
  register :
      (e : OperatorRegisteredEvent) (n : Node)
      → handle_operator_registered env e n ≡ (
        ok tt,
        record n {
          operators = (upsert_operator (registration env e) (env.now n.tick) n.operators).1;
          tick = n.tick + 1;
        },
      )
  unfolding handle_operator_registered query ◌>>=◌
  register e n = ground (arith, up n.tick)

  -- With a working database, a registration gives the operator's address a row that takes effect in
  -- the effective epoch of its block and has no exit, no weight and is not yet active, and leaves
  -- every other address alone.
  pub handle_operator_registered_lem :
      (e : OperatorRegisteredEvent) (n : Node)
      → ((handle_operator_registered env e n).0 ≡ ok tt)
        × ((address : String)
            → get_operator_by_address address (handle_operator_registered env e n).1.operators ≡ (
                if str_eq (env.crypto.hex e.operator) address
                then some (joined env e n)
                else get_operator_by_address address n.operators))
        × ((joined env e n).active_epoch ≡ get_effective_epoch_by_block_number (u64 e.block_number))
        × ((joined env e n).exit_epoch ≡ no_exit)
        × ((joined env e n).is_active ≡ false)
  handle_operator_registered_lem e n =
      let (row, rows) = upsert_operator_lem (registration env e) (env.now n.tick) n.operators in
      let (active, exit, off) =
        taken env e (env.now n.tick)
          (get_operator_by_address (env.crypto.hex e.operator) n.operators) in
      rw (register e n) (refl, rows, active, exit, off)

  deregister :
      (e : OperatorDeregisteredEvent) (n : Node) (o : Operator)
      → get_operator_by_address (env.crypto.hex e.operator) n.operators ≡ some o
      → handle_operator_deregistered env e n ≡ (
        ok tt,
        record n {
          operators =
              (update_operator_exit_epoch
                (env.crypto.hex e.operator)
                (get_effective_epoch_by_block_number (u64 e.block_number))
                (env.now (n.tick + 1))
                n.operators).1;
          tick = n.tick + 2;
        },
      )
  unfolding handle_operator_deregistered query ◌>>=◌
  deregister e n o found = ground (arith, up n.tick, up (n.tick + 1))

  left :
      (e : OperatorDeregisteredEvent) (n : Node) (o : Operator)
      → get_operator_by_address (env.crypto.hex e.operator) n.operators ≡ some o
      → get_operator_by_address
          (env.crypto.hex e.operator)
          (handle_operator_deregistered env e n).1.operators
        ≡ some (
            exiting
              (get_effective_epoch_by_block_number (u64 e.block_number))
              (env.now (n.tick + 1))
              o)
  unfolding update_operator_exit_epoch
  left e n o found =
      let address = env.crypto.hex e.operator in
      let change =
        exiting (get_effective_epoch_by_block_number (u64 e.block_number)) (env.now (n.tick + 1)) in
      rw (deregister e n o found) (
        ground (
          arith,
          found,
          find-update operator_key address address change n.operators (λ r. refl),
          eq_iff address address,
        ))

-- With a working database, an operator whose registration is followed by its deregistration has a
-- row whose epochs make it active exactly from the effective epoch of the first event's block up to,
-- and without, that of the second's, where the second is later and lies in the range of epochs.
pub registered_then_deregistered :
    (env : Env) (e : OperatorRegisteredEvent) (d : OperatorDeregisteredEvent) (n : Node)
    → Up env
    → env.crypto.hex d.operator ≡ env.crypto.hex e.operator
    → get_effective_epoch_by_block_number (u64 e.block_number)
      < get_effective_epoch_by_block_number (u64 d.block_number)
    → get_effective_epoch_by_block_number (u64 d.block_number) < no_exit
    → (o : Operator) × (get_operator_by_address
          (env.crypto.hex d.operator)
          (handle_operator_deregistered env d (handle_operator_registered env e n).1).1.operators
        ≡ some o)
      × ((block : ℕ)
          → InRange block
          → is_operator_active block o.active_epoch o.exit_epoch ≡ (
              leb
                (get_effective_epoch_by_block_number (u64 e.block_number))
                (calculate_current_epoch_number block)
              && ltb
                  (calculate_current_epoch_number block)
                  (get_effective_epoch_by_block_number (u64 d.block_number))))
registered_then_deregistered env e d n up same order small =
    let (done, rows, active, exit, off) = handle_operator_registered_lem env up e n in
    let m = (handle_operator_registered env e n).1 in
    let found : get_operator_by_address (env.crypto.hex d.operator) m.operators
        ≡ some (joined env e n) =
      ground (
        arith,
        rows (env.crypto.hex d.operator),
        eq_iff (env.crypto.hex e.operator) (env.crypto.hex d.operator),
      ) in
    (
      exiting (get_effective_epoch_by_block_number (u64 d.block_number)) (env.now (m.tick + 1))
          (joined env e n),
      left env up d m (joined env e n) found,
      λ block range. rw active (is_operator_active_window block _ _ range order small),
    )
