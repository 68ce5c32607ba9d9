-- ===== src/Audit/Workflow.antt =====
-- backend/app/audit/workflow.py: `AuditWorkflow`, what its stages share: the log of events, the
-- settings, and the parts of the program that the stages call through an interface.
pub mod Parts
pub mod Stages
pub mod Run
pub mod Machine
pub mod Log
pub mod Keeps
pub mod Facts
pub mod Preparing
pub mod Indexing
pub mod Judging
pub mod Outcome
pub mod Stored
pub mod Laws
pub mod Checking
use Prim.Native.String.{◌++◌ as ◌<>◌}
use remedy_graph.Prelude.{
  ℕ, String, Option, none, some, List, [], ◌∷◌, ◌++◌, map, Bool, length, lookup, index_by,
}
use remedy_graph.Result.{Error, runtime_error, Result, ok, or_raise}
use remedy_graph.Ids.{stable_id, str}
use remedy_graph.Models.{RunStatus, Project, Incident}
use remedy_graph.Audit.Contracts.{
  DeterministicCheckSpec, CheckExecution, EvidenceRecord, BudgetUsage, AuditRunSummary,
  WorkflowEvent, WorkflowEventType, stage_started, stage_completed, budget_consumed, failure,
  AuditWorkflowState,
}
use remedy_graph.Rag.Chunking.{DocumentChunk}
use remedy_graph.Storage.{Store}
use remedy_graph.Storage.Action.{Action, reads}
use remedy_graph.Storage.Incidents.{get_incident}
use remedy_graph.Storage.Records.{get_project}

-- the settings that the stages read
pub record Settings : Type 0 where
  pub max_model_calls : ℕ
  pub max_investigation_rounds : ℕ
  pub retrieval_top_k : ℕ

-- `RepositoryIndexResult`; `failures` by the text of each
pub record RepositoryIndexResult : Type 0 where
  pub documents_indexed : ℕ
  pub chunks_indexed : ℕ
  pub chunk_ids : List String
  pub failures : List String
  pub skipped : List (String × ℕ)
  pub total_bytes : ℕ

-- `EvidenceCandidate` without its scores, which are floating point
pub record EvidenceCandidate : Type 0 where
  pub chunk : DocumentChunk
  pub matched_terms : List String
  pub reasons : List String

-- What the stages call on a repository. `search` answers from the index that was built: its
-- arguments are the query, `top_k` and `prefer_tests`.
pub record Services : Type 0 where
  pub build_index : Project → Result RepositoryIndexResult
  pub search : Project → String → ℕ → Bool → Result (List EvidenceCandidate)
  pub run_check : Project → DeterministicCheckSpec → String → String → Result CheckExecution

-- the values of the enumerations
abbrev pub event_value : WorkflowEventType → String
event_value stage_started = "stage_started"
event_value stage_completed = "stage_completed"
event_value budget_consumed = "budget_consumed"
event_value failure = "failure"

abbrev pub status_value : RunStatus → String
status_value RunStatus.queued = "QUEUED"
status_value RunStatus.parsing = "PARSING"
status_value RunStatus.extracting_actions = "EXTRACTING_ACTIONS"
status_value RunStatus.compiling_invariants = "COMPILING_INVARIANTS"
status_value RunStatus.indexing = "INDEXING"
status_value RunStatus.investigating = "INVESTIGATING"
status_value RunStatus.verifying = "VERIFYING"
status_value RunStatus.complete = "COMPLETE"
status_value RunStatus.partial_complete = "PARTIAL_COMPLETE"
status_value RunStatus.failed = "FAILED"
status_value RunStatus.cancelled = "CANCELLED"

module _ (sha256_hex : String → String) where
  abbrev pub new_event : WorkflowEventType → RunStatus → String → AuditWorkflowState → WorkflowEvent
  new_event event_type stage detail state = record {
    id =
        stable_id sha256_hex "workflow_event"
          (state.summary.id ∷ str (length state.events) ∷ event_value event_type ∷ []);
    run_id = state.summary.id;
    sequence = length state.events;
    event_type = event_type;
    stage = stage;
    detail = detail;
  }

  -- `_event`
  unfoldable pub event :
      WorkflowEventType → RunStatus → String → AuditWorkflowState → AuditWorkflowState
  event event_type stage detail state = record state {
    events = state.events ++ new_event event_type stage detail state ∷ [];
  }

  -- `_stage`
  unfoldable pub stage : RunStatus → AuditWorkflowState → AuditWorkflowState
  unfolding event
  stage status state =
      event stage_started status (status_value status <> " started")
        (record state { summary = record state.summary { status = status } })

-- state.model_copy(update={"summary": state.summary.model_copy(update={"budget": usage}), …})
abbrev pub with_usage : BudgetUsage → List EvidenceRecord → AuditWorkflowState → AuditWorkflowState
with_usage usage evidence state = record state {
  summary = record state.summary { budget = usage };
  evidence = evidence;
}

-- list({item.id: item for item in evidence}.values())
unfoldable pub by_id : List EvidenceRecord → List EvidenceRecord
by_id evidence =
    map (λ (r : String × EvidenceRecord). r.1) (index_by (λ (e : EvidenceRecord). e.id) evidence)

unfoldable pub required_project : String → Action Project
required_project project_id =
    reads (λ s. or_raise (get_project s project_id) (runtime_error "project not found"))

unfoldable pub required_incident : String → Action Incident
required_incident incident_id =
    reads (λ s. or_raise (get_incident s incident_id) (runtime_error "incident not found"))
