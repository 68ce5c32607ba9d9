-- ===== src/Storage.antt =====
-- backend/app/storage.py: the tables of `SQLiteStore`, and the statements on them. A table with a
-- text primary key is a `Dict`; a table of the rows of a run is a list of rows with their run_id,
-- in the order of their rowid. The table of the schema's version is left
-- out.
pub mod Budget
pub mod Action
pub mod Guards
pub mod Incidents
pub mod Records
pub mod Validate
pub mod Snapshot
use remedy_graph.Prelude.{
  ℕ, String, Option, none, some, List, [], ◌∷◌, ◌++◌, map, filter, not, Bool, true, false, ◌==◌,
  Dict, lookup, if◌then◌else◌,
}
use remedy_graph.Result.{Error, Result, ok, err}
use remedy_graph.Models.{Project, Incident, ActionItem}
use remedy_graph.Audit.Contracts.{
  CompiledInvariant, DeterministicCheckSpec, EvidenceRecord, DeterministicCheckResult,
  RepositoryIndexMetadata, ActionVerdict, EvidenceGraphNode, EvidenceGraphEdge, BudgetUsage,
  AuditRunSummary, WorkflowEvent,
}
use remedy_graph.Guards.Contracts.{GuardSpec, GuardApproval, GuardExecution}

-- The rows of a table with a `run_id` column.
abbrev pub Rows : Type 0 → Type 0
Rows A = List (String × A)

pub record Store : Type 0 where
  pub projects : Dict Project
  pub incidents : Dict Incident
  pub corrective_actions : Dict ActionItem
  pub repository_index_metadata : Dict RepositoryIndexMetadata
  pub incident_budget_counters : Dict BudgetUsage
  pub audit_runs : Dict AuditRunSummary
  pub compiled_invariants : Rows CompiledInvariant
  pub deterministic_checks : Rows DeterministicCheckSpec
  pub evidence : Rows EvidenceRecord
  pub deterministic_check_results : Rows DeterministicCheckResult
  pub verdicts : Rows ActionVerdict
  pub evidence_graph_nodes : Rows EvidenceGraphNode
  pub evidence_graph_edges : Rows EvidenceGraphEdge
  pub workflow_events : Rows WorkflowEvent
  pub budget_counters : Dict BudgetUsage
  pub guard_specs : Dict GuardSpec
  pub guard_approvals : Dict GuardApproval
  pub guard_executions : Dict GuardExecution

module _ {A : Type 0} where
  -- DELETE FROM table WHERE run_id = run
  unfoldable pub delete_run : String → Rows A → Rows A
  delete_run run rows = filter (λ (r : String × A). not (r.0 == run)) rows

  -- INSERT INTO table, a row for each record
  unfoldable pub insert_rows : String → List A → Rows A → Rows A
  insert_rows run xs rows = rows ++ map (λ x. (run, x)) xs

  -- SELECT payload FROM table WHERE run_id = run ORDER BY rowid
  unfoldable pub select_rows : String → Rows A → List A
  select_rows run [] = []
  select_rows run ((r, x) ∷ rows) =
      let rest = select_rows run rows in if r == run then x ∷ rest else rest

-- The end of `with self.connection:`. The database accepts the new tables, or it raises
-- `IntegrityError`, which the method turns into `e`, and the transaction is rolled back.
unfoldable pub commit {ℓ} :
    {A : Type ℓ} → (Store → Bool) → Error → A → Store → Store → Result A × Store
commit accepts e a before after = if accepts after then (ok a, after) else (err e, before)
