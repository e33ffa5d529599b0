-- ===== src/System/Requests.antt =====
-- The step of the HTTP interface.
use spotted_network.Base.{
  ℕ, zero, suc, String, Option, none, some, Option-cases, inl, inr, Bool-cases, ltb,
}
use spotted_network.Base.Int.{ℤ}
use spotted_network.Base.Outcome.{pure, raise}
use spotted_network.Base.Keeps.{Keeps, keeps_rules, Keeps-handle, Keeps-pure, Keeps-bind}
use spotted_network.Node.{ticked, Node, Env, Step}
use spotted_network.Node.Rules.{Keeps-call, Keeps-query}
use spotted_network.Repo.Tasks.{Task}
use spotted_network.Repo.Responses.{ConsensusResponse}
use spotted_network.Task.Process.{get_client}
use spotted_network.BlockTime.{
  Pass, done, arrived, first_pass, forward, backward, after_forward, fine_tune,
  timestamp_to_block_number,
}
use spotted_network.Api.{SendRequestParams, HttpResponse, or_fail}
use spotted_network.Api.Validate.{
  check_key, check_block, check_timestamp, check_height, validate_request,
}
use spotted_network.Api.Send.{
  state_client, requested_block, insert_task, start_new, create_new, find_or_create, accept_request,
  send_request,
}
use spotted_network.System.Stable.{Stable, ticks}
use spotted_network.Task.Process.{process_task}
use spotted_network.System.Tasks.{process_task_kept}

module _ {env : Env} {P : Node → Type 0} (s : Stable env P) where
  one : (n : Node) → P n → P (ticked n)
  one = ticks s

  process : (task : Task) → Keeps P (process_task env task)
  process = process_task_kept s

  client_kept : (chain : ℕ) → Keeps P (get_client env chain)
  unfolding get_client
  client_kept chain = record {
    at = λ n h. elim (Bool-cases (env.has_chain chain)) [
      | inl there ↦ rw there h
      | inr missing ↦ rw missing h
    ];
  }

  first_pass_kept :
      (chain fuel timestamp number time : ℕ)
      → Keeps P (first_pass env chain fuel timestamp number time)
  unfolding first_pass
  first_pass_kept chain zero timestamp number time = Keeps-pure _
  first_pass_kept chain (suc fuel) timestamp number time =
      let again = first_pass_kept chain fuel timestamp in
      search (keeps_rules, Keeps-call, one, again) depth 14

  forward_kept :
      (chain fuel timestamp current number time : ℕ)
      → Keeps P (forward env chain fuel timestamp current number time)
  unfolding forward
  forward_kept chain zero timestamp current number time = Keeps-pure _
  forward_kept chain (suc fuel) timestamp current number time =
      let again = forward_kept chain fuel timestamp current in
      search (keeps_rules, Keeps-call, one, again) depth 14

  backward_kept :
      (chain fuel timestamp number time : ℕ)
      → Keeps P (backward env chain fuel timestamp number time)
  unfolding backward
  backward_kept chain zero timestamp number time = Keeps-pure _
  backward_kept chain (suc fuel) timestamp number time =
      let again = backward_kept chain fuel timestamp in
      search (keeps_rules, Keeps-call, one, again) depth 14

  after_forward_kept :
      (chain timestamp : ℕ) (p : Pass) → Keeps P (after_forward env chain timestamp p)
  unfolding after_forward
  after_forward_kept chain timestamp (done number) = Keeps-pure _
  after_forward_kept chain timestamp (arrived number time) =
      backward_kept chain _ timestamp number time

  fine_tune_kept :
      (chain timestamp current : ℕ) (near : ℕ × ℕ)
      → Keeps P (fine_tune env chain timestamp current near)
  unfolding fine_tune
  fine_tune_kept chain timestamp current (number, time) =
      Keeps-bind _ _ (forward_kept chain _ timestamp current number time)
        (after_forward_kept chain timestamp)

  timestamp_to_block_number_kept :
      (chain timestamp : ℕ) → Keeps P (timestamp_to_block_number env chain timestamp)
  unfolding timestamp_to_block_number
  timestamp_to_block_number_kept chain timestamp =
      search (keeps_rules, Keeps-call, one, first_pass_kept, fine_tune_kept) depth 14

  or_fail_kept :
      {A : Type 0} (status : ℕ) (what : String) (m : Step A) (k : A → Step HttpResponse)
      → Keeps P m
      → ((a : A) → Keeps P (k a))
      → Keeps P (or_fail status what m k)
  unfolding or_fail
  or_fail_kept status what m k km kk = Keeps-handle _ _ _ km kk λ e. Keeps-pure _

  check_key_kept : (params : SendRequestParams) → Keeps P (check_key env params)
  unfolding check_key
  check_key_kept params = elim (Option-cases (env.parse_any_base params.key)) [
    | inl e ↦ rw (e, check_key) (search keeps_rules)
    | inr (key, e) ↦ rw (e, check_key) (search keeps_rules)
  ]

  check_timestamp_kept : (params : SendRequestParams) → Keeps P (check_timestamp env params)
  unfolding check_timestamp pure raise
  check_timestamp_kept params = record {
    at = λ n h. elim (Bool-cases (ltb (env.clock n.tick) params.timestamp)) [
      | inl late ↦ rw late h
      | inr early ↦ rw early h
    ];
  }

  validate_request_kept : (params : SendRequestParams) → Keeps P (validate_request env params)
  unfolding validate_request check_block check_height
  validate_request_kept params =
      search (keeps_rules, Keeps-call, one, client_kept, check_key_kept, check_timestamp_kept) depth
        16

  start_new_kept : (text : String) (task : Task) → Keeps P (start_new env text task)
  unfolding start_new
  start_new_kept text task = search (keeps_rules, process) depth 14

  create_new_kept :
      (params : SendRequestParams) (epoch client block : ℕ) (key : Option ℤ) (value : ℤ)
      → Keeps P (create_new env params epoch client block key value)
  unfolding create_new insert_task
  create_new_kept params epoch client block key value =
      search (keeps_rules, or_fail_kept, Keeps-call, Keeps-query, one, s.creates, start_new_kept)
        depth 16

  existing_or :
      (found : Option Task) (a : Task → HttpResponse) (m : Step HttpResponse)
      → Keeps P m
      → Keeps P (elim found [ some t ↦ pure (a t) | none ↦ m ])
  existing_or none a m k = k
  existing_or (some t) a m k = Keeps-pure _

  consensus_or :
      (found : Option ConsensusResponse) (a : HttpResponse) (m : Step HttpResponse)
      → Keeps P m
      → Keeps P (elim found [ some _ ↦ pure a | none ↦ m ])
  consensus_or none a m k = k
  consensus_or (some t) a m k = Keeps-pure _

  find_or_create_kept :
      (params : SendRequestParams) (epoch client block : ℕ) (key : Option ℤ) (value : ℤ)
      → Keeps P (find_or_create env params epoch client block key value)
  unfolding find_or_create
  find_or_create_kept params epoch client block key value =
      Keeps-handle _ _ _ (search (keeps_rules, Keeps-query, one))
        (λ consensus. consensus_or consensus _ _ (
          Keeps-handle _ _ _ (search (keeps_rules, Keeps-query, one))
            (λ task. existing_or task _ _ (create_new_kept params epoch client block key value))
            λ e. Keeps-pure _))
        λ e. Keeps-pure _

  accept_request_kept : (params : SendRequestParams) → Keeps P (accept_request env params)
  unfolding accept_request state_client requested_block
  accept_request_kept params =
      search
        (
          keeps_rules, or_fail_kept, Keeps-call, one, client_kept, timestamp_to_block_number_kept,
          find_or_create_kept,
        )
        depth 20

  pub send_request_kept :
      (method : String) (body : Option SendRequestParams) → Keeps P (send_request env method body)
  unfolding send_request
  send_request_kept method none = search keeps_rules
  send_request_kept method (some params) =
      search (keeps_rules, validate_request_kept, accept_request_kept) depth 14
