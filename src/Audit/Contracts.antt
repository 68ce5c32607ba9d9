-- ===== src/Audit/Contracts.antt =====
-- backend/app/audit/contracts.py: the records of an audit, and their validators.
use remedy_graph.Prelude.{
  ℕ, String, Option, none, some, List, Bool, true, false, not, ◌&&◌, ◌||◌, leb, all, is_empty, ◌==◌,
}
use remedy_graph.Models.{Verdict, EvidenceKind, RunStatus, ActionItem}

pub data RequirementKind : Type 0 where
  numeric_configuration code_static test_protection runtime_context unsupported : RequirementKind

pub data RequirementAvailability : Type 0 where
  supported unsupported unavailable : RequirementAvailability

pub data DeterministicCheckType : Type 0 where
  configuration_value static_code static_pattern : DeterministicCheckType
  test_protection runtime_context unsupported : DeterministicCheckType

pub data CheckOperator : Type 0 where
  equals less_than_or_equal greater_than_or_equal exists : CheckOperator

pub data CheckOutcome : Type 0 where
  passed failed not_found error unsupported unavailable : CheckOutcome

pub data EvidenceRole : Type 0 where
  supporting contradictory supporting_only missing unavailable : EvidenceRole

pub data GraphNodeType : Type 0 where
  incident action invariant evidence check verdict : GraphNodeType

pub data GraphEdgeType : Type 0 where
  contains compiled_to supported_by contradicted_by : GraphEdgeType
  tested_by checked_by classified_as evidence_gap : GraphEdgeType

pub data WorkflowEventType : Type 0 where
  stage_started stage_completed budget_consumed failure : WorkflowEventType

pub data AuditFailureCode : Type 0 where
  model_call_budget_exhausted investigation_round_budget_exhausted : AuditFailureCode
  invalid_state workflow_failed : AuditFailureCode

-- The decimal `mantissa / 10 ^ scale`, for a number written in an action or a configuration.
pub record Number : Type 0 where
  pub mantissa : ℕ
  pub scale : ℕ

-- A float: `finite` has a sign and its value, which is a decimal for every double.
pub data Float : Type 0 where
  finite : Bool → Number → Float
  infinite : Bool → Float
  not_a_number : Float

-- an int, with its sign, or a float
pub data Numeral : Type 0 where
  integer : Bool → ℕ → Numeral
  floating : Float → Numeral

-- A leaf of a configuration file: `other` is a value of another type that can be hashed, and
-- `unhashable` of one that cannot, such as a set.
pub data Scalar : Type 0 where
  none_value : Scalar
  boolean : Bool → Scalar
  numeral : Numeral → Scalar
  string : String → Scalar
  other : String → Scalar
  unhashable : String → Scalar

pub record Observation : Type 0 where
  pub path : String
  pub key : String
  pub value : Scalar
  pub passed : Bool

-- The values that the audit puts into a field of type `Any`.
pub data Value : Type 0 where
  number : Number → Value
  text : String → Value
  texts : List String → Value
  count : ℕ → Value
  observations : List Observation → Value
  terms : List String → Value
  counts : List (String × ℕ) → Value
  located : List (String × String) → Value

pub record SourceLocation : Type 0 where
  pub line : Option ℕ
  pub section : Option String

pub record CompiledInvariant : Type 0 where
  pub id : String
  pub action_id : String
  pub original_action : String
  pub source_location : SourceLocation
  pub statement : String
  pub requirement_kind : RequirementKind
  pub availability : RequirementAvailability
  pub expected_value : Option Value
  pub unit : Option String
  pub required_proof : List String
  pub unavailable_reason : Option String

pub record DeterministicCheckSpec : Type 0 where
  pub id : String
  pub invariant_id : String
  pub check_type : DeterministicCheckType
  pub operator : CheckOperator
  pub description : String
  pub expected : Option Value
  pub unit : Option String
  pub required : Bool
  pub core : Bool
  pub availability : RequirementAvailability
  pub parameters : List (String × Value)
  pub unavailable_reason : Option String

pub record EvidenceCitation : Type 0 where
  pub evidence_id : String
  pub source_path : Option String
  pub line_start : Option ℕ
  pub line_end : Option ℕ

pub record EvidenceRecord : Type 0 where
  pub id : String
  pub run_id : String
  pub action_id : String
  pub invariant_id : String
  pub kind : EvidenceKind
  pub role : EvidenceRole
  pub source_path : Option String
  pub line_start : Option ℕ
  pub line_end : Option ℕ
  pub excerpt : Option String
  pub source_record_id : Option String
  pub metadata : List (String × String)

unfoldable pub citation : EvidenceRecord → EvidenceCitation
citation e = record {
  evidence_id = e.id;
  source_path = e.source_path;
  line_start = e.line_start;
  line_end = e.line_end;
}

pub record DeterministicCheckResult : Type 0 where
  pub id : String
  pub run_id : String
  pub invariant_id : String
  pub check_spec_id : String
  pub outcome : CheckOutcome
  pub passed : Option Bool
  pub core : Bool
  pub expected : Option Value
  pub actual : Option Value
  pub detail : String
  pub evidence_ids : List String

pub record CheckExecution : Type 0 where
  pub result : DeterministicCheckResult
  pub evidence : List EvidenceRecord

-- `confidence` in tenths.
pub record ActionVerdict : Type 0 where
  pub id : String
  pub run_id : String
  pub action_id : String
  pub verdict : Verdict
  pub rationale : String
  pub invariant_ids : List String
  pub citations : List EvidenceCitation
  pub missing_proofs : List String
  pub confidence : ℕ

pub record EvidenceGraphNode : Type 0 where
  pub id : String
  pub run_id : String
  pub node_type : GraphNodeType
  pub record_id : String
  pub label : String

pub record EvidenceGraphEdge : Type 0 where
  pub id : String
  pub run_id : String
  pub source_node_id : String
  pub target_node_id : String
  pub edge_type : GraphEdgeType

-- `failures` by the text of each.
pub record RepositoryIndexMetadata : Type 0 where
  pub id : String
  pub project_id : String
  pub run_id : Option String
  pub index_version : String
  pub documents_indexed : ℕ
  pub chunks_indexed : ℕ
  pub total_bytes : ℕ
  pub chunk_ids : List String
  pub failures : List String
  pub skipped : List (String × ℕ)

pub record BudgetUsage : Type 0 where
  pub model_calls_used : ℕ
  pub model_calls_limit : ℕ
  pub investigation_round_limit : ℕ
  pub investigation_rounds : List (String × ℕ)
  pub deterministic_checks_run : ℕ

pub record AuditRunSummary : Type 0 where
  pub id : String
  pub project_id : String
  pub incident_id : String
  pub status : RunStatus
  pub total_actions : ℕ
  pub completed_actions : ℕ
  pub verdict_counts : List (Verdict × ℕ)
  pub assessed_protection_coverage : ℕ
  pub budget : BudgetUsage
  pub failure_code : Option AuditFailureCode
  pub error : Option String

pub record WorkflowEvent : Type 0 where
  pub id : String
  pub run_id : String
  pub sequence : ℕ
  pub event_type : WorkflowEventType
  pub stage : RunStatus
  pub detail : String

pub record AuditWorkflowState : Type 0 where
  pub summary : AuditRunSummary
  pub actions : List ActionItem
  pub invariants : List CompiledInvariant
  pub check_specs : List DeterministicCheckSpec
  pub evidence : List EvidenceRecord
  pub check_results : List DeterministicCheckResult
  pub verdicts : List ActionVerdict
  pub graph_nodes : List EvidenceGraphNode
  pub graph_edges : List EvidenceGraphEdge
  pub events : List WorkflowEvent

-- A missing or an empty text is false in Python.
abbrev pub has_text : Option String → Bool
has_text none = false
has_text (some s) = not (s == "")

abbrev pub is_supported : RequirementAvailability → Bool
is_supported supported = true
is_supported _ = false

-- `unavailable_requirements_explain_why` and `unavailable_checks_explain_why`
unfoldable pub explains_why : RequirementAvailability → Option String → Bool
explains_why availability reason = is_supported availability || has_text reason

-- `citation_range_is_ordered` and `evidence_range_is_ordered`
unfoldable pub range_is_ordered : Option ℕ → Option ℕ → Bool
range_is_ordered none none = true
range_is_ordered none (some b) = false
range_is_ordered (some a) none = true
range_is_ordered (some a) (some b) = leb a b

-- `outcome_matches_passed`
unfoldable pub outcome_matches_passed : CheckOutcome → Option Bool → Bool
outcome_matches_passed passed (some true) = true
outcome_matches_passed failed (some false) = true
outcome_matches_passed not_found (some false) = true
outcome_matches_passed error none = true
outcome_matches_passed unsupported none = true
outcome_matches_passed unavailable none = true
outcome_matches_passed _ _ = false

-- `verdict_has_traceability`
unfoldable pub verdict_has_traceability : ActionVerdict → Bool
verdict_has_traceability v = not (is_empty v.citations && is_empty v.missing_proofs)

-- `usage_does_not_exceed_limits`, after the bounds that the fields declare
unfoldable pub usage_does_not_exceed_limits : BudgetUsage → Bool
usage_does_not_exceed_limits u =
    leb 1 u.model_calls_limit
    && leb 1 u.investigation_round_limit
    && leb u.model_calls_used u.model_calls_limit
    && all (λ (r : String × ℕ). leb r.1 u.investigation_round_limit) u.investigation_rounds
