-- ===== src/Guards/Service/Lifecycle.antt =====
-- backend/app/guards/service.py: `decide` and `execute`, and the agreement of statuses with decisions.
use remedy_graph.Prelude.{
  String, ◌≡◌, refl, ap, Option, some, Bool, true, false, not, ◌==◌, eq_iff, arith, Bool-cases,
  Option-cases, inl, inr,
}
use remedy_graph.Result.{result_cases, Result, ok, err}
use remedy_graph.Models.{Project}
use remedy_graph.Guards.Contracts.{
  GuardSpec, GuardApproval, GuardExecution, GuardStatus, previewed, rejected, written,
}
use remedy_graph.Storage.{Store, commit}
use remedy_graph.Storage.Guards.{
  get_guard, get_guard_approval, record_guard_decision, restore_guard_preview, save_guard_execution,
}
use remedy_graph.Guards.Service.{
  Runner, as_http, is_previewed, is_executable, is_valid_approval, outcome, find_guard, runner_of,
  approval_of, written_or_restored, approve, reject, settle, decide, run_guard, execute_approved,
  execute,
}
use remedy_graph.Guards.Service.Agreement.{
  agreed, Agrees, lookup-update_guard, record_guard_decision-Agrees, restore_guard_preview-Agrees,
  save_guard_execution-Agrees,
}

module _ (accepts : Store → Bool) where
  -- after a recorded decision the guard's row is the new one
  record_guard_decision-row :
      (old g : GuardSpec) (a : GuardApproval) (s : Store) (u : Unit {0})
      → get_guard s g.id ≡ some old
      → old.run_id ≡ g.run_id
      → (record_guard_decision accepts g a s).0 ≡ ok u
      → get_guard (record_guard_decision accepts g a s).1 g.id ≡ some g
  unfolding record_guard_decision commit get_guard
  record_guard_decision-row old g a s u e r h = ground (
    arith,
    lookup-update_guard g g.id s.guard_specs,
    eq_iff g.id g.id,
    eq_iff old.run_id g.run_id,
  )

module _ (sha256_hex : String → String) (accepts : Store → Bool)
    (runner_for : Project → Result Runner) where
  reject-Agrees :
      (g : GuardSpec) (a : GuardApproval) (s : Store)
      → get_guard s g.id ≡ some g
      → Agrees s
      → Agrees (reject sha256_hex accepts runner_for g a s).1
  unfolding reject
  reject-Agrees g a s e h =
      let g' : GuardSpec = record g { status = rejected } in
      let keeps = record_guard_decision-Agrees accepts g g' a s e refl h in
      elim (result_cases (record_guard_decision accepts g' a s).0) [
        | inr (u, r) ↦ rw r keeps
        | inl (z, r) ↦ rw r keeps
      ]

  written_or_restored-Agrees :
      (old g g' : GuardSpec) (r : Result (Unit {0})) (s : Store)
      → get_guard s g.id ≡ some old
      → old.run_id ≡ g.run_id
      → g.status ≡ previewed
      → Agrees s
      → Agrees (written_or_restored sha256_hex accepts runner_for g g' r s).1
  unfolding written_or_restored
  written_or_restored-Agrees old g g' (ok u) s e r p h = h
  written_or_restored-Agrees old g g' (err z) s e r p h =
      let keeps = restore_guard_preview-Agrees accepts old g s e r p h in
      elim (result_cases (restore_guard_preview accepts g s).0) [
        | inr (u, q) ↦ rw q keeps
        | inl (y, q) ↦ rw q keeps
      ]

  approve-Agrees :
      (runner : Runner) (g : GuardSpec) (a : GuardApproval) (s : Store)
      → get_guard s g.id ≡ some g
      → g.status ≡ previewed
      → Agrees s
      → Agrees (approve sha256_hex accepts runner_for runner g a s).1
  unfolding approve
  approve-Agrees runner g a s e p h =
      let g' : GuardSpec = record g { status = written } in
      let keeps = record_guard_decision-Agrees accepts g g' a s e refl h in
      elim (result_cases (runner.validate_preview g)) [
        | inl (z, v) ↦ rw v h
        | inr (u, v) ↦ rw v (elim (result_cases (record_guard_decision accepts g' a s).0) [
          | inl (z, r) ↦ rw r keeps
          | inr (w, r) ↦ rw r (
              written_or_restored-Agrees g' g g' (runner.write_approved g')
                (record_guard_decision accepts g' a s).1
                (record_guard_decision-row accepts g g' a s w e refl r) refl p keeps)
        ])
      ]

  settle-Agrees :
      (approved : Bool) (run_id : String) (g : GuardSpec) (a : GuardApproval) (s : Store)
      → get_guard s g.id ≡ some g
      → g.status ≡ previewed
      → Agrees s
      → Agrees (settle sha256_hex accepts runner_for approved run_id g a s).1
  unfolding settle
  settle-Agrees false run_id g a s e p h = reject-Agrees g a s e h
  settle-Agrees true run_id g a s e p h =
      elim (result_cases (runner_of sha256_hex accepts runner_for run_id s)) [
        | inl (z, r) ↦ rw r h
        | inr (runner, r) ↦ rw r (approve-Agrees runner g a s e p h)
      ]

  -- A guard that is found stands under its own id.
  found_guard :
      (run_id k : String) (s : Store) (g : GuardSpec)
      → Agrees s
      → find_guard run_id k s ≡ ok g
      → get_guard s g.id ≡ some g
  unfolding find_guard
  found_guard run_id k s g h f = elim (Option-cases (get_guard s k)) [
    | inl e ↦ absurd (ground arith)
    | inr (g', e) ↦
        let same : g' ≡ g = ground arith in
        let own : g'.id ≡ k = ground (arith, h k, eq_iff g'.id k) in
        cc (ap (λ (x : GuardSpec). x.id) same)
  ]

  is_previewed_eq : (st : GuardStatus) → not (is_previewed st) ≡ false → st ≡ previewed
  is_previewed_eq st h = ground arith

  -- Whatever is decided, and whether the decision is recorded, refused or rolled back after a
  -- failed write, the statuses of all guards agree with the recorded decisions afterwards.
  pub decide-Agrees :
      (run_id k : String) (approved : Bool) (sha : String) (s : Store)
      → Agrees s
      → Agrees (decide sha256_hex accepts runner_for run_id k approved sha s).1
  unfolding decide
  decide-Agrees run_id k approved sha s h = elim (result_cases (find_guard run_id k s)) [
    | inl (z, e) ↦ rw e h
    | inr (g, e) ↦ rw e (elim (Bool-cases (not (is_previewed g.status))) [
      | inl d ↦ rw d h
      | inr d ↦ rw d (elim (Bool-cases (not (sha == g.preview_sha256))) [
        | inl c ↦ rw c h
        | inr c ↦ rw c (
            settle-Agrees approved run_id g
              (approval_of sha256_hex accepts runner_for run_id g approved sha) s
              (found_guard run_id k s g h e) (is_previewed_eq g.status d) h)
      ])
    ])
  ]

  executed_agrees :
      (st : GuardStatus) (g : GuardSpec) (a : Option GuardApproval)
      → is_valid_approval g a ≡ true
      → is_executable st ≡ true
      → agreed st g.preview_sha256 a ≡ true
  executed_agrees st g a v x = ground arith

  outcome_executable : (x : GuardExecution) → is_executable (outcome x.status) ≡ true
  outcome_executable x = ground arith

  run_guard-Agrees :
      (g : GuardSpec) (runner : Runner) (s : Store)
      → get_guard s g.id ≡ some g
      → is_valid_approval g (get_guard_approval s g.id) ≡ true
      → Agrees s
      → Agrees (run_guard sha256_hex accepts runner_for g runner s).1
  unfolding run_guard
  run_guard-Agrees g runner s e v h = elim (result_cases (as_http (runner.execute g))) [
    | inl (z, r) ↦ rw r h
    | inr (x, r) ↦
        let g' : GuardSpec = record g { status = outcome x.status } in
        let fits : agreed g'.status g'.preview_sha256 (get_guard_approval s g'.id) ≡ true =
          executed_agrees g'.status g (get_guard_approval s g.id) v (outcome_executable x) in
        let keeps = save_guard_execution-Agrees accepts g g' x s e refl fits h in
        rw r (elim (result_cases (save_guard_execution accepts g' x s).0) [
          | inr (u, q) ↦ rw q keeps
          | inl (y, q) ↦ rw q keeps
        ])
  ]

  execute_approved-Agrees :
      (run_id : String) (g : GuardSpec) (s : Store)
      → get_guard s g.id ≡ some g
      → Agrees s
      → Agrees
          (execute_approved sha256_hex accepts runner_for run_id g (get_guard_approval s g.id) s).1
  unfolding execute_approved
  execute_approved-Agrees run_id g s e h =
      elim (Bool-cases (is_valid_approval g (get_guard_approval s g.id))) [
        | inr v ↦ rw v h
        | inl v ↦
            rw v (elim (result_cases (as_http (runner_of sha256_hex accepts runner_for run_id s))) [
              | inl (z, r) ↦ rw r h
              | inr (runner, r) ↦ rw r (run_guard-Agrees g runner s e v h)
            ])
      ]

  -- An execution, whatever its outcome, leaves the statuses of all guards in agreement with the
  -- recorded decisions.
  pub execute-Agrees :
      (run_id k : String) (s : Store)
      → Agrees s
      → Agrees (execute sha256_hex accepts runner_for run_id k s).1
  unfolding execute
  execute-Agrees run_id k s h = elim (result_cases (find_guard run_id k s)) [
    | inl (z, e) ↦ rw e h
    | inr (g, e) ↦ rw e (elim (Bool-cases (not (is_executable g.status))) [
      | inl d ↦ rw d h
      | inr d ↦ rw d (execute_approved-Agrees run_id g s (found_guard run_id k s g h e) h)
    ])
  ]
