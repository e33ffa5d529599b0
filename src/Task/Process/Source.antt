-- ===== src/Task/Process/Source.antt =====
-- Where the value of `getStateWithRetries` comes from, and how often it asks.
use spotted_network.Base.{
  ℕ, zero, suc, ◌+◌, ◌*◌, ◌≤◌, ◌≡◌, Option, inl, inr, arith, ltb, Bool-cases, Option-cases,
}
use spotted_network.Base.Int.{ℤ}
use spotted_network.Base.Outcome.{Error, Reply, Reply-cases, handle}
use spotted_network.Base.Keeps.{Keeps, Keeps-handle, Keeps-if, Keeps-raise, Keeps-pure}
use spotted_network.Base.Returns.{
  Answers, Returns, Returns-handle, Returns-if, Returns-raise, Returns-pure,
}
use spotted_network.Node.{Node, Env, Step, call, ticked}
use spotted_network.Node.Rules.{Keeps-call, Returns-call}
use spotted_network.Signer.{Bytes}
use spotted_network.Task.Process.{is_final, retry, state_loop, get_state_with_retries}

module _ (env : Env) (chain : ℕ) (target : Bytes) (key : Option ℤ) (block : ℕ) where
  -- The chain answered `value` for the key at the block, and had reached the block.
  pub data FromChain (value : ℤ) : Type 0 where
    from_chain :
        (i j latest : ℕ)
        → env.block_number chain i ≡ Reply.value latest
        → block ≤ latest
        → env.state_at chain target key block j ≡ Reply.value value
        → FromChain value

  retry-Returns :
      (e : Error) (again : Step ℤ) → Returns FromChain again → Returns FromChain (retry env e again)
  unfolding retry
  retry-Returns e again k = elim (Option-cases (is_final e)) [
    | inl go_on ↦ rw (go_on, retry) k
    | inr (f, final) ↦ rw (final, retry) (Returns-raise f)
  ]

  state_loop-Returns :
      (rounds : ℕ) → Returns FromChain (state_loop env rounds chain target key block)
  unfolding state_loop
  state_loop-Returns zero = record { from = λ n. tt }
  state_loop-Returns (suc rounds) =
      let again = state_loop-Returns rounds in
      record {
        from = λ n.
            (Returns-handle _ _ _ _ (Returns-call _)
                (λ latest reached.
                  Returns-if (ltb latest block) _ _ (λ _. Returns-raise _)
                    λ not_future.
                      Returns-handle _ _ _ _ (Returns-call _)
                        (λ value read.
                          Returns-pure value
                            (from_chain reached.0 read.0 latest reached.1 (ground arith) read.1))
                        (λ e. retry-Returns e _ again))
                (λ _. again)).from
              n;
      }

  pub get_state_with_retries-Returns :
      Returns FromChain (get_state_with_retries env chain target key block)
  unfolding get_state_with_retries
  get_state_with_retries-Returns = state_loop-Returns 3

  state_loop-Keeps :
      {P : Node → Type 0} (rounds : ℕ)
      → ((n : Node) → P n → P (ticked n))
      → Keeps P (state_loop env rounds chain target key block)
  unfolding state_loop retry
  state_loop-Keeps zero t = record { at = λ n h. h }
  state_loop-Keeps {P} (suc rounds) t =
      let again = state_loop-Keeps {P = P} rounds t in
      record {
        at = λ n.
            (Keeps-handle _ _ _ (Keeps-call _ t)
                (λ latest.
                  Keeps-if (ltb latest block) _ _ (λ _. Keeps-raise _)
                    λ _.
                      Keeps-handle _ _ _ (Keeps-call _ t) (λ value. Keeps-pure _)
                        (λ e. retry_Keeps e again))
                (λ _. again)).at
              n;
      }
    where
      retry_Keeps :
          {P : Node → Type 0} {again : Step ℤ} (e : Error)
          → Keeps P again
          → Keeps P (retry env e again)
      retry_Keeps e k = elim (Option-cases (is_final e)) [
        | inl go_on ↦ rw (go_on, retry) k
        | inr (f, final) ↦ rw (final, retry) (Keeps-raise f)
      ]

  pub get_state_with_retries-Keeps :
      {P : Node → Type 0}
      → ((n : Node) → P n → P (ticked n))
      → Keeps P (get_state_with_retries env chain target key block)
  unfolding get_state_with_retries
  get_state_with_retries-Keeps t = state_loop-Keeps 3 t

  -- The process after some calls of the world.
  abbrev pub after : ℕ → Node → Node
  after calls n = record n { tick = n.tick + calls }

  abbrev pub Within : ℕ → Node → Node → Type 0
  Within most n n' = (calls : ℕ) × (calls ≤ most) × (n' ≡ after calls n)

  state_loop_calls :
      (rounds : ℕ) (n : Node)
      → Within (rounds * 2) n (state_loop env rounds chain target key block n).1
  unfolding state_loop handle call retry
  state_loop_calls zero n = (0, omega arith, ground arith)
  state_loop_calls (suc rounds) n =
      let (c, few, e) = state_loop_calls rounds (ticked n) in
      let (d, few', f) = state_loop_calls rounds (ticked (ticked n)) in
      elim (Reply-cases (env.block_number chain n.tick)) [
        | inr (x, failed) ↦ (c + 1, omega arith, ground arith)
        | inl (latest, reached) ↦ elim (Bool-cases (ltb latest block)) [
          | inl future ↦ (1, omega arith, ground arith)
          | inr past ↦ elim (Reply-cases (env.state_at chain target key block (n.tick + 1))) [
            | inl (v, read) ↦ (2, omega arith, ground arith)
            | inr (x, failed) ↦ elim (Option-cases (is_final x)) [
              | inl go_on ↦ (d + 2, omega arith, ground arith)
              | inr (e, final) ↦ (2, omega arith, ground arith)
            ]
          ]
        ]
      ]

  -- Reading the state of a chain makes at most six calls and changes nothing in the process. A value
  -- that it returns is the chain's answer for the key at the block that was asked for, and the chain
  -- had reached that block.
  pub get_state_with_retries_lem :
      (n : Node)
      → Within 6 n (get_state_with_retries env chain target key block n).1
        × Answers FromChain (get_state_with_retries env chain target key block n).0
  unfolding get_state_with_retries
  get_state_with_retries_lem n = (state_loop_calls 3 n, (state_loop-Returns 3).from n)
