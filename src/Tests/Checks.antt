-- ===== src/Tests/Checks.antt =====
-- Checks on a repository with one module, which sets the retries to 5.
use remedy_graph.Prelude.{insert}
use remedy_graph.Ids.{join}
use remedy_graph.Audit.Contracts.{EvidenceRecord}
use remedy_graph.Audit.Checks.Keys.{key_matches, compare_number, expected_for_key}
use remedy_graph.Audit.Checks.Runner.{measured_execution, judge, measure}
use remedy_graph.Audit.Checks.Run.{
  caught, line_evidence, pattern_execution, matching_files, matching_file, matching_lines,
}
use remedy_graph.Prelude.{
  ◌≤◌, String, Option, none, some, List, [], ◌∷◌, map, length, any, all, lookup, index_by, true,
  false, ◌≡◌, ◌↔◌, refl,
}
use remedy_graph.Result.{Result, ok, err, value_error, yaml_error, overflow_error}
use remedy_graph.Prelude.{ltb, if◌then◌else◌, ◌⊎◌}
use remedy_graph.Audit.Checks.Keys.{as_float}
use remedy_graph.Audit.Checks.Runner.{measured_by}
use remedy_graph.Audit.Workflow.Checking.{is_configuration}
use remedy_graph.Audit.Contracts.{
  Float, finite, Numeral, floating, integer, numeral, Value, DeterministicCheckType, CheckOperator,
  RequirementAvailability, CheckOutcome, DeterministicCheckSpec, DeterministicCheckResult,
  CheckExecution,
}
use remedy_graph.Rag.Safety.Walk.{RepositoryFile}
use remedy_graph.Audit.Checks.Documents.{Module, Tree}
use remedy_graph.Audit.Checks.Keys.{CheckTools, text_list}
use remedy_graph.Audit.Checks.Scan.{
  is_value_or_type_error, Located, configuration_values, collect, file_values,
}
use remedy_graph.Audit.Checks.Measures.{configuration-outcome, is_relevant, holds}
use remedy_graph.Audit.Checks.Fitting.{IsFitting}
use remedy_graph.Audit.Checks.Outcomes.{run_check-IsFitting, static_pattern-bounded}
use remedy_graph.Audit.Checks.Reading.{IsRegular}
use remedy_graph.Audit.Checks.Total.{Returns, run_check-total}
use remedy_graph.Audit.Checks.Safe.{IsSafe-ok, IsSafe-if, Raises-err}
use remedy_graph.Audit.Checks.Run.{run_check, configuration, static_pattern}
use remedy_graph.Audit.Workflow.Checking.{with_runner, check_all-returns}
use remedy_graph.Audit.Workflow.Parts.{Checked, check_all}
use remedy_graph.Storage.Budget.{fresh_usage}
use remedy_graph.Tests.Samples.{no_hash, invariant_sample}
use remedy_graph.Tests.Snapshots.{state, project}
use remedy_graph.Tests.Runs.{services}

abbrev settings_module : Module
settings_module = record {
  assignments =
      record {
        targets = some "max_retries" ∷ [];
        value = some (numeral (integer false 5));
        lineno = 1;
      }
      ∷ [];
  nodes = [];
  imported = [];
  functions = [];
}

abbrev tools : CheckTools
tools = record {
  lower = λ s. s;
  letters_and_digits = λ s. s;
  strip = λ s. s;
  splitlines = λ s. s ∷ [];
  split = λ s. s ∷ [];
  words = λ s. s ∷ [];
  suffix = λ file. ".py";
  name = λ path. path;
  has_key = λ key line. true;
  show = λ v. "5";
  repr = λ v. "5";
  redact_text = λ s. s;
  read_text = λ file. ok "max_retries = 5";
  parse_python = λ s. ok settings_module;
  parse_json = λ s. err (value_error "no value");
  parse_toml = λ s. err (value_error "no value");
  parse_yaml = λ s. err (yaml_error "no value");
  float_of_integer = λ negative n.
      if ltb n 1000
      then ok (finite negative (record { mantissa = n; scale = 0 }))
      else err (overflow_error "int too large to convert to float");
  times = λ x n. x;
  over = λ x n. x;
}

abbrev same_order : List String → List String
same_order xs = xs

abbrev files : List RepositoryFile
files =
    record { absolute_path = "shop" ∷ "app.py" ∷ []; source_path = "app.py" ∷ []; size_bytes = 15 }
    ∷ []

abbrev three_float : Float
three_float = finite false (record { mantissa = 3; scale = 0 })

abbrev three : Numeral
three = floating three_float

abbrev candidates : List String
candidates = "max_retries" ∷ []

abbrev values : List Located
values =
    record {
      source_path = "app.py";
      key = "max_retries";
      value = numeral (integer false 5);
      line = 1;
    }
    ∷ []

abbrev spec_with : DeterministicCheckType → List (String × Value) → DeterministicCheckSpec
spec_with kind parameters = record {
  id = "c1";
  invariant_id = "i1";
  check_type = kind;
  operator = CheckOperator.less_than_or_equal;
  description = "retries";
  expected = some (Value.number (record { mantissa = 3; scale = 0 }));
  unit = none;
  required = true;
  core = true;
  availability = RequirementAvailability.supported;
  parameters = parameters;
  unavailable_reason = none;
}

abbrev retries : DeterministicCheckSpec
retries =
    spec_with DeterministicCheckType.configuration_value
      (("key_candidates", Value.texts candidates) ∷ [])

abbrev literal : DeterministicCheckSpec
literal =
    spec_with DeterministicCheckType.static_pattern (("literal_pattern", Value.text "retries") ∷ [])

regular : IsRegular tools
unfolding is_value_or_type_error
regular = record {
  reads = λ file. IsSafe-ok "max_retries = 5";
  python = λ text. IsSafe-ok settings_module;
  json = λ text. Raises-err Tree (value_error "no value") refl;
  toml = λ text. Raises-err Tree (value_error "no value") refl;
  yaml = λ text. Raises-err Tree (yaml_error "no value") refl;
  floats = λ negative n.
      IsSafe-if (ltb n 1000) _ _ (IsSafe-ok (finite negative (record { mantissa = n; scale = 0 })))
        (Raises-err Float (overflow_error "int too large to convert to float") refl);
}

outcome_of : Result CheckExecution → Option CheckOutcome
outcome_of (ok x) = some x.result.outcome
outcome_of (err e) = none

retries_fail :
    outcome_of (run_check no_hash tools same_order files retries "run" "a1")
    ≡ some CheckOutcome.failed
unfolding outcome_of run_check caught configuration text_list lookup configuration_values collect
    file_values measured_execution judge measure measured_by as_float key_matches compare_number
    expected_for_key
retries_fail = refl

-- an integer that is too large for a float leaves the check
abbrev large_module : Module
large_module = record settings_module {
  assignments =
      record {
        targets = some "max_retries" ∷ [];
        value = some (numeral (integer false 5000));
        lineno = 1;
      }
      ∷ [];
}

large_leaves :
    run_check no_hash
      (record tools { parse_python = λ s. ok large_module })
      same_order
      files
      retries
      "run"
      "a1"
    ≡ err (overflow_error "int too large to convert to float")
unfolding run_check caught configuration text_list lookup configuration_values collect file_values
    measure measured_by as_float key_matches is_value_or_type_error
large_leaves = refl

abbrev located : EvidenceRecord
located =
    line_evidence no_hash tools same_order files literal "run" "a1" "retries" "app.py" 1
      "max_retries = 5"

abbrev located_execution : CheckExecution
located_execution =
    pattern_execution no_hash tools same_order files literal "run" "a1" "retries" (located ∷ [])

locates : static_pattern no_hash tools same_order files literal "run" "a1" ≡ ok located_execution
unfolding static_pattern lookup matching_files matching_file matching_lines join
locates = refl

literal_runs : run_check no_hash tools same_order files literal "run" "a1" ≡ ok located_execution
unfolding run_check caught
literal_runs = rw locates refl

run_check-IsFitting_example : IsFitting no_hash literal "run" "a1" located_execution
run_check-IsFitting_example =
    run_check-IsFitting no_hash tools same_order files literal "run" "a1" located_execution
      literal_runs

static_pattern-bounded_example :
    (1 ≤ length located_execution.evidence) × (length located_execution.evidence ≤ 20)
static_pattern-bounded_example =
    static_pattern-bounded no_hash tools same_order files literal "run" "a1" located_execution
      locates

configuration-outcome_example :
    (x : CheckExecution) × (configuration no_hash tools same_order files retries "run" "a1" ≡ ok x)
    × ((x.result.outcome ≡ CheckOutcome.passed) ↔ (
        (any (is_relevant no_hash tools retries "run" "a1" candidates three_float) values ≡ true)
        × (all (holds no_hash tools retries "run" "a1" candidates three_float) values ≡ true)))
    × ((x.result.outcome ≡ CheckOutcome.failed)
        ↔ (all (holds no_hash tools retries "run" "a1" candidates three_float) values ≡ false))
unfolding text_list lookup configuration_values collect file_values join as_float key_matches
configuration-outcome_example =
    configuration-outcome no_hash tools same_order files retries "run" "a1" candidates three
      three_float values refl refl refl refl refl refl

run_check-total_example :
    Returns tools regular no_hash same_order files retries "run" "a1"
      DeterministicCheckType.configuration_value
      (run_check no_hash tools same_order files retries "run" "a1")
run_check-total_example = run_check-total tools regular no_hash same_order files retries "run" "a1"

abbrev start : Checked
start = record { tracker = record { usage = fresh_usage 6 }; evidence = []; results = [] }

check_all-returns_example :
    ((q : Checked) × (check_all
          (with_runner no_hash tools same_order (λ p. files) services)
          state
          project
          (retries ∷ literal ∷ [])
          start
        ≡ ok q)
      × (map (λ (r : DeterministicCheckResult). r.check_spec_id) q.results ≡ "c1" ∷ "c1" ∷ []))
    ⊎ ((m : String) × (any is_configuration (retries ∷ literal ∷ []) ≡ true)
        × (check_all
              (with_runner no_hash tools same_order (λ p. files) services)
              state
              project
              (retries ∷ literal ∷ [])
              start
            ≡ err (overflow_error m)))
unfolding index_by lookup insert
check_all-returns_example =
    check_all-returns no_hash tools same_order (λ p. files) services regular state project
      (retries ∷ literal ∷ []) start ((invariant_sample, refl), ((invariant_sample, refl), tt))
