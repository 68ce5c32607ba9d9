-- ===== src/Audit/Workflow/Parts.antt =====
-- backend/app/audit/workflow.py: what the stages compute from a state without the database.
use remedy_graph.Prelude.{
  ℕ, String, Option, none, some, List, [], ◌∷◌, ◌++◌, map, filter, Bool, true, false, ◌==◌, length,
  lookup, index_by,
}
use remedy_graph.Result.{key_error, Result, or_raise, ok, ◌>>=◌}
use remedy_graph.Ids.{stable_id}
use remedy_graph.Models.{Verdict, EvidenceKind, Project, ActionItem, Incident}
use remedy_graph.Audit.Contracts.{
  CompiledInvariant, DeterministicCheckType, DeterministicCheckSpec, DeterministicCheckResult,
  CheckExecution, EvidenceRole, EvidenceRecord, ActionVerdict, RepositoryIndexMetadata,
  AuditWorkflowState,
}
use remedy_graph.Audit.Budget.{BudgetTracker, record_check}
use remedy_graph.Audit.Graph.Keys.{Records}
use remedy_graph.Audit.Graph.{traverse}
use remedy_graph.Audit.Verifier.{verify_action, assessed_coverage}
use remedy_graph.Rag.Chunking.{DocumentType}
use remedy_graph.Audit.Workflow.{RepositoryIndexResult, EvidenceCandidate, Services}

abbrev pub owned_by : Option String → String → Bool
owned_by none project_id = false
owned_by (some id) project_id = id == project_id

-- the kind of evidence that a candidate is
abbrev pub kind_of : DocumentType → EvidenceKind
kind_of DocumentType.source = EvidenceKind.code
kind_of DocumentType.configuration = EvidenceKind.configuration
kind_of DocumentType.test = EvidenceKind.test
kind_of DocumentType.document = EvidenceKind.document

abbrev pub is_test_protection : DeterministicCheckType → Bool
is_test_protection DeterministicCheckType.test_protection = true
is_test_protection _ = false

-- what the loops of a stage carry
pub record Progress : Type 0 where
  pub tracker : BudgetTracker
  pub state : AuditWorkflowState
  pub evidence : List EvidenceRecord

pub record Checked : Type 0 where
  pub tracker : BudgetTracker
  pub evidence : List EvidenceRecord
  pub results : List DeterministicCheckResult

-- Verdict.…: sum(item.verdict == verdict for item in verdicts)
abbrev pub same_verdict : Verdict → Verdict → Bool
same_verdict Verdict.verified Verdict.verified = true
same_verdict Verdict.partial Verdict.partial = true
same_verdict Verdict.missing Verdict.missing = true
same_verdict Verdict.unverifiable Verdict.unverifiable = true
same_verdict _ _ = false

unfoldable pub verdict_counts : List ActionVerdict → List (Verdict × ℕ)
verdict_counts verdicts =
    map
      (λ verdict.
        (verdict, length (filter (λ (v : ActionVerdict). same_verdict v.verdict verdict) verdicts)))
      (Verdict.verified ∷ Verdict.partial ∷ Verdict.missing ∷ Verdict.unverifiable ∷ [])

module _ (sha256_hex : String → String) where
  unfoldable pub index_metadata :
      AuditWorkflowState → Project → RepositoryIndexResult → RepositoryIndexMetadata
  index_metadata state project result = record {
    id = stable_id sha256_hex "repository_index" (state.summary.id ∷ project.id ∷ result.chunk_ids);
    project_id = project.id;
    run_id = some state.summary.id;
    index_version = "day3-v1";
    documents_indexed = result.documents_indexed;
    chunks_indexed = result.chunks_indexed;
    total_bytes = result.total_bytes;
    chunk_ids = result.chunk_ids;
    failures = result.failures;
    skipped = result.skipped;
  }

  unfoldable pub candidate_evidence :
      String → CompiledInvariant → EvidenceCandidate → EvidenceRecord
  candidate_evidence run_id invariant candidate = record {
    id = stable_id sha256_hex "evidence" (run_id ∷ invariant.id ∷ candidate.chunk.id ∷ []);
    run_id = run_id;
    action_id = invariant.action_id;
    invariant_id = invariant.id;
    kind = kind_of candidate.chunk.document_type;
    role = EvidenceRole.supporting_only;
    source_path = some candidate.chunk.source_path;
    line_start = some candidate.chunk.line_start;
    line_end = some candidate.chunk.line_end;
    excerpt = some candidate.chunk.text;
    source_record_id = some candidate.chunk.id;
    metadata = [];
  }

  -- the verdicts of the run's actions
  unfoldable pub assign : AuditWorkflowState → Result (List ActionVerdict)
  assign state =
      traverse
        (λ (action : ActionItem).
          verify_action sha256_hex state.summary.id action
            (filter (λ (i : CompiledInvariant). i.action_id == action.id) state.invariants)
            state.check_results state.evidence)
        state.actions

unfoldable pub run_records : AuditWorkflowState → Incident → Records
run_records state incident = record {
  run_id = state.summary.id;
  incident = incident;
  actions = state.actions;
  invariants = state.invariants;
  evidence = state.evidence;
  checks = state.check_results;
  verdicts = state.verdicts;
}

-- the summary counts the verdicts
unfoldable pub with_verdicts : List ActionVerdict → AuditWorkflowState → AuditWorkflowState
unfolding verdict_counts
with_verdicts verdicts state = record state {
  summary = record state.summary {
    completed_actions = length verdicts;
    verdict_counts = verdict_counts verdicts;
    assessed_protection_coverage = assessed_coverage verdicts;
  };
  verdicts = verdicts;
}

-- the execution of one specification
unfoldable pub execute_spec :
    Services → AuditWorkflowState → Project → DeterministicCheckSpec → Result CheckExecution
execute_spec services state project spec = do
  invariant ←
      or_raise
        (lookup spec.invariant_id (index_by (λ (i : CompiledInvariant). i.id) state.invariants))
        (key_error spec.invariant_id)
  services.run_check project spec state.summary.id invariant.action_id

-- the loop over the specifications
unfoldable pub check_all :
    Services → AuditWorkflowState → Project → List DeterministicCheckSpec → Checked → Result Checked
check_all services state project [] p = ok p
check_all services state project (spec ∷ specs) p = do
  execution ← execute_spec services state project spec
  check_all services state project specs (record {
    tracker = (record_check p.tracker).1;
    evidence = p.evidence ++ execution.evidence;
    results = p.results ++ execution.result ∷ [];
  })
