-- ===== src/Guards/Service/Rollback.antt =====
-- backend/app/guards/service.py: an approval whose artifact cannot be written.
use remedy_graph.Prelude.{
  String, ◌≡◌, refl, inl, inr, none, some, Bool, true, false, arith, eq_iff, insert, lookup-insert,
  ap, ◌∙◌,
}
use remedy_graph.Result.{Error, Result, err, is_ok, result_cases}
use remedy_graph.Models.{Project}
use remedy_graph.Guards.Contracts.{GuardSpec, GuardApproval, GuardStatus, written}
use remedy_graph.Storage.{Store, commit}
use remedy_graph.Storage.Guards.{
  get_guard, get_guard_approval, get_run_summary, validate_guard, check_decision,
  record_guard_decision, restore_guard_preview, update_guard, delete_approval,
}
use remedy_graph.Guards.Service.{Runner, written_or_restored, approve}
use remedy_graph.Guards.Service.Agreement.{lookup-update_guard, lookup-delete_approval}

-- Two stores show the same guards and decisions.
abbrev pub SameGuards : Store → Store → Type 0
SameGuards s t =
    (k : String)
    → (get_guard s k ≡ get_guard t k) × (get_guard_approval s k ≡ get_guard_approval t k)

module _ (accepts : Store → Bool) where
  decision-error_unchanged :
      (g : GuardSpec) (a : GuardApproval) (s : Store)
      → is_ok (record_guard_decision accepts g a s).0 ≡ false
      → (record_guard_decision accepts g a s).1 ≡ s
  unfolding record_guard_decision commit
  decision-error_unchanged g a s h = ground arith

  -- a recorded decision was the first, and its store
  decision-ok :
      (g : GuardSpec) (a : GuardApproval) (s : Store)
      → is_ok (record_guard_decision accepts g a s).0 ≡ true
      → (get_guard_approval s g.id ≡ none)
        × (is_ok (validate_guard s g) ≡ true)
        × ((record_guard_decision accepts g a s).1 ≡ record s {
          guard_specs = update_guard g s.guard_specs;
          guard_approvals = insert g.id a s.guard_approvals;
        })
  unfolding record_guard_decision check_decision commit
  decision-ok g a s h = ground arith

  restore-ok :
      (g : GuardSpec) (t : Store)
      → ((u : Store) → accepts u ≡ true)
      → is_ok (validate_guard t g) ≡ true
      → (restore_guard_preview accepts g t).1 ≡ record t {
        guard_specs = update_guard g t.guard_specs;
        guard_approvals = delete_approval g.id t.guard_approvals;
      }
  unfolding restore_guard_preview commit
  restore-ok g t all valid = ground (
    arith,
    all (record t {
      guard_specs = update_guard g t.guard_specs;
      guard_approvals = delete_approval g.id t.guard_approvals;
    }),
  )

  -- the store after a decision on `g` that gives it the status `st`
  abbrev decided : GuardSpec → GuardStatus → GuardApproval → Store → Store
  decided g st a s = record s {
    guard_specs = update_guard (record g { status = st }) s.guard_specs;
    guard_approvals = insert g.id a s.guard_approvals;
  }

  validate-decided :
      (g : GuardSpec) (st : GuardStatus) (a : GuardApproval) (s : Store)
      → validate_guard (decided g st a s) g ≡ validate_guard s (record g { status = st })
  unfolding validate_guard get_run_summary
  validate-decided g st a s = refl

  restored :
      (g : GuardSpec) (st : GuardStatus) (a : GuardApproval) (s : Store)
      → ((t : Store) → accepts t ≡ true)
      → get_guard s g.id ≡ some g
      → get_guard_approval s g.id ≡ none
      → is_ok (validate_guard s (record g { status = st })) ≡ true
      → SameGuards (restore_guard_preview accepts g (decided g st a s)).1 s
  unfolding get_guard get_guard_approval
  restored g st a s all found none_yet valid k =
      let g' : GuardSpec = record g { status = st } in
      rw (restore-ok g (decided g st a s) all (ap is_ok (validate-decided g st a s) ∙ valid)) (
        ground (
          arith,
          lookup-update_guard g k (update_guard g' s.guard_specs),
          lookup-update_guard g' k s.guard_specs,
          lookup-delete_approval g.id k (insert g.id a s.guard_approvals),
          lookup-insert g.id k a s.guard_approvals,
          eq_iff g.id k,
          eq_iff g.run_id g.run_id,
        ))

module _ (sha256_hex : String → String) (accepts : Store → Bool)
    (runner_for : Project → Result Runner) where
  -- If the database accepts every commit and the runner fails to write the artifact, then an
  -- approval fails, and every guard and every decision is shown as it was before.
  pub failed_write_restores :
      (runner : Runner) (g : GuardSpec) (a : GuardApproval) (s : Store) (z : Error)
      → ((t : Store) → accepts t ≡ true)
      → get_guard s g.id ≡ some g
      → runner.write_approved (record g { status = written }) ≡ err z
      → (is_ok (approve sha256_hex accepts runner_for runner g a s).0 ≡ false)
        × SameGuards (approve sha256_hex accepts runner_for runner g a s).1 s
  unfolding approve written_or_restored
  failed_write_restores runner g a s z all found failed =
      let g' : GuardSpec = record g { status = written } in
      elim (result_cases (runner.validate_preview g)) [
        | inl (y, v) ↦ rw v (refl, λ k. (refl, refl))
        | inr (u, v) ↦ rw v (elim (result_cases (record_guard_decision accepts g' a s).0) [
          | inl (y, r) ↦
              rw (r, decision-error_unchanged accepts g' a s (ap is_ok r)) (refl, λ k. (refl, refl))
          | inr (w, r) ↦
              let (first, valid, store) = decision-ok accepts g' a s (ap is_ok r) in
              let same = restored accepts g written a s all found first valid in
              elim (result_cases
                (restore_guard_preview accepts g (decided accepts g written a s)).0) [
                  | inl (y, q) ↦ rw (r, store, failed, q) (refl, same)
                  | inr (x, q) ↦ rw (r, store, failed, q) (refl, same)
                ]
        ])
      ]
