-- ===== src/Audit/Workflow/Checking.antt =====
-- backend/app/audit/workflow.py: the checks of a run, with `DeterministicCheckRunner` of
-- backend/app/audit/checks.py as their runner.
use remedy_graph.Prelude.{append_assoc, append_nil}
use remedy_graph.Prelude.{
  String, some, List, [], ◌∷◌, ◌++◌, map, All, ◌≡◌, refl, sym, ap, ◌∙◌, lookup, index_by,
}
use remedy_graph.Result.{ok}
use remedy_graph.Models.{Project}
use remedy_graph.Audit.Contracts.{
  CompiledInvariant, DeterministicCheckSpec, DeterministicCheckResult, CheckExecution,
  AuditWorkflowState,
}
use remedy_graph.Audit.Budget.{record_check}
use remedy_graph.Rag.Safety.Walk.{RepositoryFile}
use remedy_graph.Audit.Checks.Keys.{CheckTools}
use remedy_graph.Audit.Checks.Run.{run_check}
use remedy_graph.Audit.Checks.Fitting.{IsFitting}
use remedy_graph.Audit.Checks.Outcomes.{run_check-IsFitting}
use remedy_graph.Audit.Checks.Reading.{IsRegular}
use remedy_graph.Audit.Checks.Total.{Returns, run_check-total}
use remedy_graph.Prelude.{Bool, true, false, any, ◌⊎◌, inl, inr, arith}
use remedy_graph.Result.{err, overflow_error}
use remedy_graph.Audit.Contracts.{DeterministicCheckType}
use remedy_graph.Audit.Workflow.{Services}
use remedy_graph.Audit.Workflow.Parts.{Checked, execute_spec, check_all}

abbrev spec_ids : List DeterministicCheckResult → List String
spec_ids results = map (λ (r : DeterministicCheckResult). r.check_spec_id) results

spec_ids-append :
    (xs ys : List DeterministicCheckResult) → spec_ids (xs ++ ys) ≡ spec_ids xs ++ spec_ids ys
spec_ids-append [] ys = refl
spec_ids-append (x ∷ xs) ys = ap (λ l. x.check_spec_id ∷ l) (spec_ids-append xs ys)

-- the requirement of the check is one of the run
abbrev pub IsKnown : AuditWorkflowState → DeterministicCheckSpec → Type 0
IsKnown state spec =
    (i : CompiledInvariant) × (lookup spec.invariant_id
        (index_by (λ (x : CompiledInvariant). x.id) state.invariants)
      ≡ some i)

abbrev is_configuration_type : DeterministicCheckType → Bool
is_configuration_type DeterministicCheckType.configuration_value = true
is_configuration_type _ = false

abbrev pub is_configuration : DeterministicCheckSpec → Bool
is_configuration spec = is_configuration_type spec.check_type

module _ (sha256_hex : String → String) (tools : CheckTools) (set_order : List String → List String)
    (files : Project → List RepositoryFile) (others : Services) where
  -- the services of a run whose checks are run by `DeterministicCheckRunner`
  abbrev pub with_runner : Services
  with_runner = record others {
    run_check = λ project spec run_id action_id.
        run_check sha256_hex tools set_order (files project) spec run_id action_id;
  }

  module _ (regular : IsRegular tools) (state : AuditWorkflowState) (project : Project) where
    execute_spec-returns :
        (spec : DeterministicCheckSpec)
        → IsKnown state spec
        → ((x : CheckExecution) × (execute_spec with_runner state project spec ≡ ok x)
            × (x.result.check_spec_id ≡ spec.id))
          ⊎ ((m : String) × (spec.check_type ≡ DeterministicCheckType.configuration_value)
              × (execute_spec with_runner state project spec ≡ err (overflow_error m)))
    unfolding execute_spec IsFitting Returns
    execute_spec-returns spec (i, e) =
        elim (run_check-total tools regular sha256_hex set_order (files project) spec
          state.summary.id i.action_id) [
            | inr (m, kind, r) ↦ inr (m, kind, rw e r)
            | inl (x, r) ↦
                let fits =
                  run_check-IsFitting sha256_hex tools set_order (files project) spec
                    state.summary.id i.action_id x r in
                inl (x, rw e r, fits.2)
          ]

    -- Where the checks run are those of `DeterministicCheckRunner` on what it can read, the loop over
    -- specifications of requirements that the run has either returns one result more for each
    -- specification, in their order, or raises an OverflowError, and then one of them is a
    -- configuration check.
    pub check_all-returns :
        (specs : List DeterministicCheckSpec) (p : Checked)
        → All (IsKnown state) specs
        → ((q : Checked) × (check_all with_runner state project specs p ≡ ok q)
            × (spec_ids q.results
                ≡ spec_ids p.results ++ map (λ (c : DeterministicCheckSpec). c.id) specs))
          ⊎ ((m : String) × (any is_configuration specs ≡ true)
              × (check_all with_runner state project specs p ≡ err (overflow_error m)))
    unfolding check_all
    check_all-returns [] p h = inl (p, refl, sym (append_nil (spec_ids p.results)))
    check_all-returns (spec ∷ specs) p h = elim (execute_spec-returns spec h.0) [
      | inr (m, kind, e) ↦ inr (m, rw kind refl, rw e refl)
      | inl (x, e, owned) ↦
          let next : Checked = record {
            tracker = (record_check p.tracker).1;
            evidence = p.evidence ++ x.evidence;
            results = p.results ++ x.result ∷ [];
          } in
          elim (check_all-returns specs next h.1) [
            | inr (m, some_kind, f) ↦ inr (m, ground (arith, some_kind), rw e f)
            | inl (q, f, same) ↦ inl (
              q,
              rw e f,
              same
                  ∙ ap (λ l. l ++ map (λ (c : DeterministicCheckSpec). c.id) specs)
                      (spec_ids-append p.results (x.result ∷ [])
                        ∙ ap (λ k. spec_ids p.results ++ k ∷ []) owned)
                  ∙ append_assoc (spec_ids p.results) (spec.id ∷ [])
                      (map (λ (c : DeterministicCheckSpec). c.id) specs),
            )
          ]
    ]
