-- ===== src/Audit/Checks/Runner.antt =====
-- backend/app/audit/checks.py: `DeterministicCheckRunner`, the checks and their dispatch, on the files
-- of a walk.
use Prim.Native.String.{◌++◌ as ◌<>◌}
use remedy_graph.Prelude.{
  ℕ, String, Option, none, some, List, [], ◌∷◌, map, all, Bool, true, false, ◌==◌, if◌then◌else◌,
}
use remedy_graph.Result.{Error, Result, ok, ◌>>=◌}
use remedy_graph.Ids.{stable_id}
use remedy_graph.Models.{EvidenceKind}
use remedy_graph.Audit.Contracts.{
  Scalar, numeral, Numeral, integer, floating, finite, Observation, Value, CheckOperator,
  CheckOutcome, EvidenceRole, DeterministicCheckSpec, EvidenceRecord, CheckExecution,
}
use remedy_graph.Audit.Graph.Keys.{outcome_value}
use remedy_graph.Audit.Workflow.Run.{error_name}
use remedy_graph.Audit.Checks.Keys.{
  CheckTools, ends_with, as_float, compare_number, key_matches, expected_for_key,
}
use remedy_graph.Audit.Checks.Scan.{Located}

-- a matching value with its verdict
pub record Measured : Type 0 where
  pub located : Located
  pub passed : Bool

abbrev operator_value : CheckOperator → String
operator_value CheckOperator.equals = "equals"
operator_value CheckOperator.less_than_or_equal = "less_than_or_equal"
operator_value CheckOperator.greater_than_or_equal = "greater_than_or_equal"
operator_value CheckOperator.exists = "exists"

abbrev pub expected_number : Option Value → Option Numeral
expected_number (some (Value.number n)) = some (floating (finite false n))
expected_number (some (Value.count n)) = some (integer false n)
expected_number _ = none

abbrev pub code_or_configuration : String → EvidenceKind
code_or_configuration path =
    if ends_with path ".py" then EvidenceKind.code else EvidenceKind.configuration

abbrev pub ids : List EvidenceRecord → List String
ids evidence = map (λ (e : EvidenceRecord). e.id) evidence

abbrev pub pattern_suffixes : List String
pattern_suffixes = ".py" ∷ ".json" ∷ ".toml" ∷ ".yaml" ∷ ".yml" ∷ ".ini" ∷ ".cfg" ∷ ".md" ∷ []

abbrev pub use_suffixes : List String
use_suffixes = ".json" ∷ ".toml" ∷ ".yaml" ∷ ".yml" ∷ ".ini" ∷ ".cfg" ∷ []

-- `spec.unavailable_reason or …`
abbrev reason_or : Option String → String → String
reason_or none default = default
reason_or (some s) default = if s == "" then default else s

abbrev role_for : CheckOutcome → EvidenceRole
role_for CheckOutcome.unavailable = EvidenceRole.unavailable
role_for _ = EvidenceRole.missing

-- `passed` of `_configuration` and what goes with it
pub record Judgement : Type 0 where
  pub outcome : CheckOutcome
  pub passed : Option Bool
  pub detail : String

abbrev pub with_measured : Option Measured → List Measured → List Measured
with_measured none rest = rest
with_measured (some m) rest = m ∷ rest

module _ (sha256_hex : String → String) (spec : DeterministicCheckSpec)
    (run_id action_id : String) where
  -- `EvidenceRecord(…)` of this check
  abbrev pub evidence_of :
      List String
      → EvidenceKind
      → EvidenceRole
      → Option String
      → Option ℕ
      → Option ℕ
      → String
      → List (String × String)
      → EvidenceRecord
  evidence_of parts kind role source_path first last excerpt metadata = record {
    id = stable_id sha256_hex "evidence" (run_id ∷ spec.id ∷ parts);
    run_id = run_id;
    action_id = action_id;
    invariant_id = spec.invariant_id;
    kind = kind;
    role = role;
    source_path = source_path;
    line_start = first;
    line_end = last;
    excerpt = some excerpt;
    source_record_id = none;
    metadata = metadata;
  }

  -- `_absence`
  unfoldable pub absence : String → EvidenceRecord
  absence detail =
      evidence_of ("absent" ∷ detail ∷ []) EvidenceKind.absent EvidenceRole.missing none none none
        detail []

  -- `CheckExecution(result=DeterministicCheckResult(…), evidence=evidence)`
  abbrev pub execution :
      Judgement → Option Value → Option Value → List EvidenceRecord → CheckExecution
  execution j expected actual evidence = record {
    result = record {
      id = stable_id sha256_hex "check_result" (run_id ∷ spec.id ∷ []);
      run_id = run_id;
      invariant_id = spec.invariant_id;
      check_spec_id = spec.id;
      outcome = j.outcome;
      passed = j.passed;
      core = spec.core;
      expected = expected;
      actual = actual;
      detail = j.detail;
      evidence_ids = ids evidence;
    };
    evidence = evidence;
  }

  -- `PASSED if passed else NOT_FOUND`
  abbrev pub found_or_not : Bool → String → String → Judgement
  found_or_not true found missing = record {
    outcome = CheckOutcome.passed;
    passed = some true;
    detail = found;
  }
  found_or_not false found missing = record {
    outcome = CheckOutcome.not_found;
    passed = some false;
    detail = missing;
  }

  -- the evidence, or what says that there is none
  abbrev pub or_absence : List EvidenceRecord → String → List EvidenceRecord
  or_absence [] detail = absence detail ∷ []
  or_absence (e ∷ es) detail = e ∷ es

  -- `_non_assessable`
  unfoldable pub non_assessable : CheckOutcome → CheckExecution
  non_assessable outcome =
      let reason =
        reason_or spec.unavailable_reason "no supported deterministic check is available" in
      let role = role_for outcome in
      let evidence =
        evidence_of (outcome_value outcome ∷ []) EvidenceKind.absent role none none none reason
          [] in
      execution (record { outcome = outcome; passed = none; detail = reason }) spec.expected none
        (evidence ∷ [])

  -- the result for an exception that `run` catches
  unfoldable pub failed_check : Error → CheckExecution
  failed_check e =
      execution
        (record {
          outcome = CheckOutcome.error;
          passed = none;
          detail = "deterministic check failed safely: " <> error_name e;
        })
        spec.expected none []

  module _ (tools : CheckTools) where
    -- a value whose key matches, measured; `none` for a value that is no number
    unfoldable pub measured_by : Numeral → Scalar → Located → Result (Option Measured)
    unfolding as_float
    measured_by expected (numeral x) v = do
      wanted ← as_float tools expected
      actual ← as_float tools x
      ok (
          some (record {
            located = v;
            passed =
                compare_number actual (expected_for_key tools wanted spec.unit v.key) spec.operator;
          }))
    measured_by expected _ v = ok none

    -- the loop over values, up to an exception
    unfoldable pub measure : List String → Numeral → List Located → Result (List Measured)
    measure candidates expected [] = ok []
    measure candidates expected (v ∷ values) =
        let rest = measure candidates expected values in
        if key_matches tools v.key candidates
        then (measured_by expected v.value v >>= λ m. rest >>= λ ms. ok (with_measured m ms))
        else rest

    abbrev pub measured_evidence : Measured → EvidenceRecord
    measured_evidence m =
        let v = m.located in
        evidence_of (v.source_path ∷ v.key ∷ tools.show v.value ∷ [])
          (code_or_configuration v.source_path)
          (if m.passed then EvidenceRole.supporting else EvidenceRole.contradictory)
          (some v.source_path) (some v.line) (some v.line)
          (tools.redact_text (v.key <> " = " <> tools.show v.value))
          (("key", v.key) ∷ ("operator", operator_value spec.operator) ∷ [])

    abbrev observation : Measured → Observation
    observation m = record {
      path = m.located.source_path;
      key = m.located.key;
      value = m.located.value;
      passed = m.passed;
    }

    -- the outcome of the observations
    unfoldable pub judge : List Measured → Judgement
    judge [] = record {
      outcome = CheckOutcome.not_found;
      passed = some false;
      detail = "no matching effective value found";
    }
    judge (m ∷ ms) =
        if all (λ (x : Measured). x.passed) (m ∷ ms)
        then record {
          outcome = CheckOutcome.passed;
          passed = some true;
          detail = "all matching values satisfy the required threshold";
        }
        else record {
          outcome = CheckOutcome.failed;
          passed = some false;
          detail = "at least one matching value contradicts the required threshold";
        }

    unfoldable pub measured_execution : List Measured → CheckExecution
    measured_execution ms =
        execution (judge ms) spec.expected (some (Value.observations (map observation ms)))
          (or_absence (map measured_evidence ms) "no matching effective value found")
