-- ===== src/Updator/Refreshed.antt =====
-- The rows of the operators after an update of the epoch that succeeds.
use mathlib.Core.List.{Memᴰ}
use mathlib.Core.Option
use mathlib.Core.List.Memᴰ
use spotted_network.Base.{
  ℕ, String, ◌≡◌, refl, ap, ◌∙◌, true, false, Option, some, [], ◌∷◌, arith, str_eq, eq_refl,
  Bool-cases, if◌then◌else◌, inl, inr,
}
use spotted_network.Base.Int.{ℤ}
use spotted_network.Base.Outcome.{Reply}
use spotted_network.Base.Keeps.{Keeps, keeps_rules, Keeps-bind, Keeps-or_wrap}
use spotted_network.Base.Leads.{Leads, Leads-pure, Leads-stays, Leads-bind}
use spotted_network.Numeric.{big_int_to_numeric}
use spotted_network.Epoch.{is_operator_active}
use spotted_network.Signer.{Bytes}
use spotted_network.Node.{Node, Env, Step}
use spotted_network.Node.Rules.{Keeps-call, Keeps-query, Leads-call, Leads-query}
use spotted_network.Repo.Table.{update, find-update}
use spotted_network.Repo.Operators.{
  Operator, Operators, UpdateOperatorStateParams, refreshed, get_operator_by_address, operator_key,
  update_operator_state, list_all_operators,
}
use spotted_network.Updator.{
  MainnetClient, state_params, update_epoch_state, update_state, refresh, refresh_all, update_all,
}

-- The row of an operator after the update: the operator is active where the block is within its
-- own epochs, and the weight and the keys are what the main chain answered, at some call of it.
pub record Fresh (env : Env) (main : MainnetClient) (epoch block : ℕ) (o : Operator)
    (found : Option Operator) : Type 0 where
  pub weight : ℤ
  pub signing_key : Bytes
  pub p2p_key : Bytes
  pub now : ℕ
  pub weight_answered :
      (i : ℕ) × (main.get_operator_weight (env.crypto.hex_to_address o.address) i
        ≡ Reply.value weight)
  pub signing_key_answered :
      (i : ℕ) × (main.get_operator_signing_key (env.crypto.hex_to_address o.address) epoch i
        ≡ Reply.value signing_key)
  pub p2p_key_answered :
      (i : ℕ) × (main.get_operator_p2p_key (env.crypto.hex_to_address o.address) epoch i
        ≡ Reply.value p2p_key)
  pub row :
      found
      ≡ some (record o {
        is_active = is_operator_active block o.active_epoch o.exit_epoch;
        weight = big_int_to_numeric (some weight);
        signing_key = env.crypto.hex signing_key;
        p2p_key = env.crypto.hex p2p_key;
        updated_at = now;
      })

-- Some row is there, which differs from `o` in what an update overwrites only.
abbrev Held : Operator → Option Operator → Type 0
Held o found =
    (r : Operator) × (found ≡ some r)
    × ((p : UpdateOperatorStateParams) (now : ℕ) → refreshed p now r ≡ refreshed p now o)

-- The rows with the address of `o` are `o`.
abbrev pub Alone : Operator → Operators → Type 0
Alone o rows = (o' : Operator) → Memᴰ o' rows → str_eq o'.address o.address ≡ true → o' ≡ o

update-found :
    (p : UpdateOperatorStateParams) (now : ℕ) (address : String) (rows : Operators)
    → get_operator_by_address address (update operator_key p.address (refreshed p now) rows) ≡ (
        if str_eq p.address address
        then Option.map (refreshed p now) (get_operator_by_address address rows)
        else get_operator_by_address address rows)
update-found p now address rows =
    find-update operator_key p.address address (refreshed p now) rows (λ r. refl)

module _ (env : Env) (main : MainnetClient) (transact : Step (Unit {0}) → Step (Unit {0}))
    (epoch block : ℕ) (o : Operator) where
  abbrev At : (Option Operator → Type 0) → Node → Type 0
  At Q n = Q (get_operator_by_address o.address n.operators)

  abbrev pub Refreshed : Node → Type 0
  Refreshed = At (Fresh env main epoch block o)

  update_state-At :
      (Q : Option Operator → Type 0) (p : UpdateOperatorStateParams)
      → str_eq p.address o.address ≡ false
      → Keeps (At Q) (update_state env main transact p)
  unfolding update_state update_operator_state
  update_state-At Q p other =
      Keeps-query env _ (λ n h. h) λ now n h. rw (update-found p now o.address n.operators, other) h

  -- The refresh of another operator.
  refresh-At :
      (Q : Option Operator → Type 0) (other : Operator)
      → str_eq other.address o.address ≡ false
      → Keeps (At Q) (refresh env main transact block epoch other)
  unfolding refresh
  refresh-At Q other differs = Keeps-bind _ _ (search (keeps_rules, Keeps-call)) λ weight.
      Keeps-bind _ _ (search (keeps_rules, Keeps-call)) λ signing_key.
        Keeps-bind _ _ (search (keeps_rules, Keeps-call)) λ p2p_key.
          Keeps-bind _ _
            (Keeps-or_wrap _ _ (
              update_state-At Q
                (state_params env main transact block other weight signing_key p2p_key) differs))
            λ _. search keeps_rules

  refresh-Refreshed : Leads (At (Held o)) (refresh env main transact block epoch o) (λ _. Refreshed)
  unfolding refresh update_state update_operator_state
  refresh-Refreshed = Leads-bind _ _ _ (Leads-call _ _ (λ n h. h)) λ weight.
      Leads-bind _ _ _ (Leads-call _ _ (λ n h. h)) λ signing_key.
        Leads-bind _ _ _ (Leads-call _ _ (λ n h. h)) λ p2p_key.
          Leads-bind (λ _. Refreshed) _ _
            (Leads-query env _ _ λ now n (k, (s, (w, held))). record {
              weight = weight;
              signing_key = signing_key;
              p2p_key = p2p_key;
              now = now;
              weight_answered = w;
              signing_key_answered = s;
              p2p_key_answered = k;
              row =
                  rw
                    (
                      update-found
                          (state_params env main transact block o weight signing_key p2p_key) now
                          o.address n.operators,
                      eq_refl o.address,
                      held.1,
                      held.2,
                    )
                    refl;
            })
            λ _. Leads-pure _ tt (λ n h. h)

  again : Leads Refreshed (refresh env main transact block epoch o) (λ _. Refreshed)
  again = record { from = λ n h. refresh-Refreshed.from n (_, h.row, λ p now. refl) }

  refresh_all-Refreshed :
      (rows : Operators)
      → Alone o rows
      → Leads Refreshed (refresh_all env main transact block epoch rows) (λ _. Refreshed)
  unfolding refresh_all
  refresh_all-Refreshed [] alone = Leads-pure _ tt (λ n h. h)
  refresh_all-Refreshed (o' ∷ rows) alone =
      Leads-bind (λ _. Refreshed) _ _
        (elim (Bool-cases (str_eq o'.address o.address)) [
          | inl own ↦ rw (alone o' (Memᴰ.head refl) own) again
          | inr other ↦ Leads-stays _ (refresh-At (Fresh env main epoch block o) o' other)
        ])
        λ _. refresh_all-Refreshed rows (λ r m. alone r (Memᴰ.tail m))

  refresh_all-At :
      (rows : Operators)
      → Alone o rows
      → Memᴰ o rows
      → Leads (At (Held o)) (refresh_all env main transact block epoch rows) (λ _. Refreshed)
  unfolding refresh_all
  refresh_all-At [] alone m = absurd (Memᴰ.not-nil m)
  refresh_all-At (o' ∷ rows) alone m = elim (Bool-cases (str_eq o'.address o.address)) [
    | inl own ↦
        Leads-bind (λ _. Refreshed) _ _ (rw (alone o' (Memᴰ.head refl) own) refresh-Refreshed)
          λ _. refresh_all-Refreshed rows rest
    | inr other ↦
        Leads-bind (λ _. At (Held o)) _ _ (Leads-stays _ (refresh-At (Held o) o' other))
          λ _.
            refresh_all-At rows rest
              (elim (Memᴰ.cases_cons m) [ inl e ↦ absurd (itself e other) | inr later ↦ later ])
  ]
    where
      itself : o ≡ o' → str_eq o'.address o.address ≡ false → ⊥
      itself e other = ground (arith, eq_refl o.address, e)

      rest : Alone o rows
      rest r later = alone r (Memᴰ.tail later)

  pub update_all-Refreshed :
      (rows : Operators)
      → Memᴰ o rows
      → get_operator_by_address o.address rows ≡ some o
      → Alone o rows
      → Leads (λ n. n.operators ≡ rows) (update_all env main transact block epoch) (λ _. Refreshed)
  unfolding update_all update_epoch_state list_all_operators
  update_all-Refreshed rows m found alone =
      Leads-bind (λ _ n. n.operators ≡ rows) _ _
        (Leads-stays _ (search (keeps_rules, Keeps-call) depth 14))
        λ _.
          Leads-bind (λ all n. (all ≡ rows) × (n.operators ≡ rows)) _ _
            (Leads-query env _ _ λ now n same. (same, same))
            λ all. record {
              from = λ n (listed, same). rw listed (
                  (refresh_all-At rows alone m).from n
                    (o, ap (get_operator_by_address o.address) same ∙ found, λ p now. refl));
            }
