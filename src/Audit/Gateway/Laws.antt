-- ===== src/Audit/Gateway/Laws.antt =====
-- backend/app/audit/budget.py: what a call of the provider costs.
use remedy_graph.Prelude.{
  suc, ◌<◌, String, ◌≡◌, ap, sym, ◌∙◌, inl, inr, some, Bool, arith, eq_iff, Option-cases,
}
use remedy_graph.Result.{Result, ok, result_cases}
use remedy_graph.Audit.Contracts.{AuditWorkflowState, BudgetUsage}
use remedy_graph.Storage.{Store, commit}
use remedy_graph.Storage.Budget.{get_incident_budget}
use remedy_graph.Storage.Budget.Laws.{Request, used, reserve, used-reserve, granted-lt}
use remedy_graph.Storage.Snapshot.{write_snapshot, save_audit_state, load_audit_state}
use remedy_graph.Audit.Gateway.{charged_state, generate_for, generate}

used-save :
    (accepts : Store → Bool) (j : String) (state : AuditWorkflowState) (s : Store)
    → used j (save_audit_state accepts state s).1 ≡ used j s
unfolding used get_incident_budget save_audit_state commit write_snapshot
used-save accepts j state s = ground arith

module _ (sha256_hex : String → String) (accepts : Store → Bool) (locked : Bool) where
  abbrev request_of : AuditWorkflowState → Request
  request_of state = record {
    locked = locked;
    incident_id = state.summary.incident_id;
    limit = state.summary.budget.model_calls_limit;
  }

  -- a reservation that is granted, as the gateway sees it
  reserved :
      (state : AuditWorkflowState) (s : Store) (u : BudgetUsage)
      → (reserve accepts (request_of state) s).0 ≡ ok u
      → (used state.summary.incident_id s < 6)
        × (used state.summary.incident_id (reserve accepts (request_of state) s).1
            ≡ suc (used state.summary.incident_id s))
  reserved state s u h = ground (
    arith,
    granted-lt accepts (request_of state) s,
    used-reserve accepts state.summary.incident_id (request_of state) s,
    eq_iff state.summary.incident_id state.summary.incident_id,
  )

  generate-eq :
      {Request Output : Type 0} (provider : Request → Result Output) (run_id : String)
      (request : Request) (state : AuditWorkflowState) (s : Store)
      → load_audit_state s run_id ≡ ok (some state)
      → generate sha256_hex accepts provider run_id locked request s
        ≡ generate_for sha256_hex accepts provider run_id locked request state s
  unfolding generate
  generate-eq provider run_id request state s e = rw e

  module _ {Request Output : Type 0} (provider : Request → Result Output) (run_id : String) where
    generate_for-ok :
        (request : Request) (state : AuditWorkflowState) (s : Store) (out : Output)
        → (generate_for sha256_hex accepts provider run_id locked request state s).0 ≡ ok out
        → (provider request ≡ ok out)
          × (used state.summary.incident_id s < 6)
          × (used state.summary.incident_id
                (generate_for sha256_hex accepts provider run_id locked request state s).1
              ≡ suc (used state.summary.incident_id s))
    unfolding generate_for
    generate_for-ok request state s out h =
        elim (result_cases (reserve accepts (request_of state) s).0) [
          | inl (z, e) ↦ absurd (ground arith)
          | inr (u, e) ↦
              let st = charged_state sha256_hex run_id state u in
              let t = (reserve accepts (request_of state) s).1 in
              elim (result_cases (save_audit_state accepts st t).0) [
                | inl (z, f) ↦ absurd (ground arith)
                | inr (w, f) ↦
                    ground (
                      arith,
                      reserved state s u e,
                      used-save accepts state.summary.incident_id st t,
                    )
              ]
        ]

    -- An output that `generate` returns is the provider's answer for a run that was loaded, whose
    -- incident had used fewer than 6 calls and has used one more afterwards.
    pub generate-ok :
        (request : Request) (s : Store) (out : Output)
        → (generate sha256_hex accepts provider run_id locked request s).0 ≡ ok out
        → (provider request ≡ ok out)
          × (state : AuditWorkflowState) × (load_audit_state s run_id ≡ ok (some state))
          × (used state.summary.incident_id s < 6)
          × (used state.summary.incident_id
                (generate sha256_hex accepts provider run_id locked request s).1
              ≡ suc (used state.summary.incident_id s))
    unfolding generate
    generate-ok request s out h = elim (result_cases (load_audit_state s run_id)) [
      | inl (z, e) ↦ absurd (ground arith)
      | inr (found, e) ↦ elim (Option-cases found) [
        | inl n ↦ absurd (ground arith)
        | inr (state, n) ↦
            let loaded = e ∙ ap ok n in
            let eq = generate-eq provider run_id request state s loaded in
            let charged =
              generate_for-ok request state s out
                (ap (λ (x : Result Output × Store). x.0) (sym eq) ∙ h) in
            (charged.0, state, loaded, charged.1, rw eq charged.2)
      ]
    ]

  module _ {Request Output : Type 0} (provider other : Request → Result Output)
      (run_id : String) where
    generate_for-uncharged :
        (request : Request) (state : AuditWorkflowState) (s : Store)
        → used state.summary.incident_id
            (generate_for sha256_hex accepts provider run_id locked request state s).1
          ≡ used state.summary.incident_id s
        → (generate_for sha256_hex accepts provider run_id locked request state s).0
          ≡ (generate_for sha256_hex accepts other run_id locked request state s).0
    unfolding generate_for
    generate_for-uncharged request state s h =
        elim (result_cases (reserve accepts (request_of state) s).0) [
          | inl (z, e) ↦ rw e
          | inr (u, e) ↦
              let st = charged_state sha256_hex run_id state u in
              let t = (reserve accepts (request_of state) s).1 in
              elim (result_cases (save_audit_state accepts st t).0) [
                | inl (z, f) ↦ rw (e, f)
                | inr (w, f) ↦ absurd (
                    ground (
                      arith,
                      reserved state s u e,
                      used-save accepts state.summary.incident_id st t,
                    ))
              ]
        ]

    -- The provider is never called before the charge: where the call leaves the counter of the
    -- incident of the loaded run as it was, any other provider would have given the same result.
    pub generate_uncharged :
        (request : Request) (state : AuditWorkflowState) (s : Store)
        → load_audit_state s run_id ≡ ok (some state)
        → used state.summary.incident_id
            (generate sha256_hex accepts provider run_id locked request s).1
          ≡ used state.summary.incident_id s
        → (generate sha256_hex accepts provider run_id locked request s).0
          ≡ (generate sha256_hex accepts other run_id locked request s).0
    generate_uncharged request state s e h =
        let eq = generate-eq provider run_id request state s e in
        rw (eq, generate-eq other run_id request state s e)
          (generate_for-uncharged request state s
            (ap (λ (x : Result Output × Store). used state.summary.incident_id x.1) (sym eq) ∙ h))
