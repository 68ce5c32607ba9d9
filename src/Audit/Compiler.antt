-- ===== src/Audit/Compiler.antt =====
-- backend/app/audit/compiler.py: corrective actions become requirements with their checks. What the
-- compiler asks of Python's `re` and `str` is a record of functions, `TextTools`.
pub mod Terms
pub mod Laws
use Prim.Native.String.{◌++◌ as ◌<>◌}
use remedy_graph.Prelude.{
  ℕ, String, Option, none, some, List, [], ◌∷◌, ◌++◌, is_empty, Bool, true, false, if◌then◌else◌,
}
use remedy_graph.Ids.{stable_id}
use remedy_graph.Models.{ActionItem}
use remedy_graph.Audit.Contracts.{
  Number, Value, SourceLocation, RequirementKind, RequirementAvailability, DeterministicCheckType,
  CheckOperator, CompiledInvariant, DeterministicCheckSpec,
}
use remedy_graph.Audit.Compiler.Terms.{
  TextTools, operator, normalize_unit, key_candidates, meaningful_terms, unit_suffix, relation,
}

pub record CompilationResult : Type 0 where
  pub invariants : List CompiledInvariant
  pub check_specs : List DeterministicCheckSpec

abbrev pub runtime_reason : String
runtime_reason = "required runtime, external, or human context is not available in the repository"

abbrev pub unsupported_reason : String
unsupported_reason =
    "the action does not identify a supported measurable repository or runtime fact"

abbrev pub no_subject_reason : String
no_subject_reason = "numeric target is measurable but no supported config subject was identified"

module _ (tools : TextTools) (sha256_hex : String → String) where
  abbrev location : ActionItem → SourceLocation
  location action = record { line = action.source_line; section = action.source_section }

  abbrev pub text_of : ActionItem → String
  text_of action = tools.strip action.text

  abbrev pub invariant_id : ActionItem → String
  invariant_id action = stable_id sha256_hex "invariant" (action.id ∷ text_of action ∷ [])

  -- `CompiledInvariant(…)` with the class's defaults for what `compile_action` leaves out
  abbrev invariant_of : ActionItem → RequirementKind → String → List String → CompiledInvariant
  invariant_of action kind statement proof = record {
    id = invariant_id action;
    action_id = action.id;
    original_action = text_of action;
    source_location = location action;
    statement = statement;
    requirement_kind = kind;
    availability = RequirementAvailability.supported;
    expected_value = none;
    unit = none;
    required_proof = proof;
    unavailable_reason = none;
  }

  abbrev spec_of :
      CompiledInvariant
      → String
      → DeterministicCheckType
      → String
      → List (String × Value)
      → DeterministicCheckSpec
  spec_of invariant label check_type description parameters = record {
    id = stable_id sha256_hex "check" (invariant.id ∷ label ∷ []);
    invariant_id = invariant.id;
    check_type = check_type;
    operator = CheckOperator.exists;
    description = description;
    expected = none;
    unit = none;
    required = true;
    core = true;
    availability = RequirementAvailability.supported;
    parameters = parameters;
    unavailable_reason = none;
  }

  -- `_unavailable_spec`; the label is the value of the check type
  unfoldable pub unavailable_spec :
      CompiledInvariant → DeterministicCheckType → String → DeterministicCheckSpec
  unavailable_spec invariant DeterministicCheckType.runtime_context reason =
      record (spec_of invariant "runtime_context" DeterministicCheckType.runtime_context
        "No deterministic repository check is available" []) {
          availability = RequirementAvailability.unavailable;
          unavailable_reason = some reason;
        }
  unavailable_spec invariant check_type reason =
      record (spec_of invariant "unsupported" check_type
        "No deterministic repository check is available" []) {
          availability = RequirementAvailability.unsupported;
          unavailable_reason = some reason;
        }

  -- `_protection_spec`
  unfoldable pub protection_spec : CompiledInvariant → DeterministicCheckSpec
  protection_spec invariant =
      record (spec_of invariant "regression_protection" DeterministicCheckType.test_protection
        "Locate regression protection for the compiled requirement"
        (("query", Value.text invariant.original_action)
          ∷ ("terms", Value.texts (meaningful_terms tools invariant.original_action))
          ∷ [])) { core = false }

  -- `_compile_numeric`, for the value and the unit of the match
  unfoldable pub compile_numeric : ActionItem → Number → Option String → CompilationResult
  unfolding protection_spec
  compile_numeric action expected matched_unit =
      let text = text_of action in
      let unit = normalize_unit tools matched_unit in
      let op = operator tools text in
      let keys = key_candidates tools text in
      let unidentified = is_empty keys in
      let reason : Option String = if unidentified then some no_subject_reason else none in
      let availability =
        if unidentified
        then RequirementAvailability.unsupported
        else RequirementAvailability.supported in
      let statement =
        "The effective configured value must be "
        <> relation op
        <> " "
        <> tools.format expected
        <> unit_suffix unit in
      let invariant =
        record (invariant_of action RequirementKind.numeric_configuration statement
          ("effective configuration or code constant" ∷ "regression protection" ∷ [])) {
            availability = availability;
            expected_value = some (Value.number expected);
            unit = unit;
            unavailable_reason = reason;
          } in
      let check_type =
        if unidentified
        then DeterministicCheckType.unsupported
        else DeterministicCheckType.configuration_value in
      let spec =
        record (spec_of invariant "configuration_value" check_type
          "Compare every matching effective value with the action threshold"
          (("key_candidates", Value.texts keys) ∷ [])) {
            operator = op;
            expected = some (Value.number expected);
            unit = unit;
            availability = availability;
            unavailable_reason = reason;
          } in
      record { invariants = invariant ∷ []; check_specs = spec ∷ protection_spec invariant ∷ [] }

  unfoldable pub compile_runtime : ActionItem → CompilationResult
  unfolding unavailable_spec
  compile_runtime action =
      let invariant =
        record (invariant_of action RequirementKind.runtime_context
          ("Obtain independent evidence that: " <> text_of action)
          ("runtime or externally attested evidence" ∷ [])) {
            availability = RequirementAvailability.unavailable;
            unavailable_reason = some runtime_reason;
          } in
      record {
        invariants = invariant ∷ [];
        check_specs =
            unavailable_spec invariant DeterministicCheckType.runtime_context runtime_reason ∷ [];
      }

  unfoldable pub compile_test : ActionItem → CompilationResult
  compile_test action =
      let text = text_of action in
      let invariant =
        invariant_of action RequirementKind.test_protection
          ("An executable regression protection must assert the behavior: " <> text)
          ("located executable test" ∷ "behavioral assertion" ∷ []) in
      let spec =
        spec_of invariant "test_protection" DeterministicCheckType.test_protection
          "Locate a test whose executable body contains a behavioral assertion"
          (("query", Value.text text)
            ∷ ("terms", Value.texts (meaningful_terms tools text))
            ∷ []) in
      record { invariants = invariant ∷ []; check_specs = spec ∷ [] }

  unfoldable pub compile_code : ActionItem → List String → CompilationResult
  unfolding protection_spec
  compile_code action terms =
      let invariant =
        invariant_of action RequirementKind.code_static
          ("Executable code or configuration must implement: " <> text_of action)
          ("executable implementation evidence" ∷ "regression protection" ∷ []) in
      let spec =
        spec_of invariant "static_code" DeterministicCheckType.static_code
          "Find the action's material terms in executable syntax"
          (("terms", Value.texts terms) ∷ []) in
      record { invariants = invariant ∷ []; check_specs = spec ∷ protection_spec invariant ∷ [] }

  unfoldable pub compile_unsupported : ActionItem → CompilationResult
  unfolding unavailable_spec
  compile_unsupported action =
      let invariant =
        record (invariant_of action RequirementKind.unsupported
          ("Manual interpretation required: " <> text_of action)
          ("manual requirement clarification" ∷ [])) {
            availability = RequirementAvailability.unsupported;
            unavailable_reason = some unsupported_reason;
          } in
      record {
        invariants = invariant ∷ [];
        check_specs =
            unavailable_spec invariant DeterministicCheckType.unsupported unsupported_reason ∷ [];
      }

  -- what follows the tests for runtime words and for a number
  compile_behavior : ActionItem → CompilationResult
  unfolding compile_test compile_code compile_unsupported
  compile_behavior action =
      let text = text_of action in
      let terms = meaningful_terms tools text in
      if tools.mentions_test text
      then compile_test action
      else if tools.mentions_code text
      then (if is_empty terms then compile_unsupported action else compile_code action terms)
      else compile_unsupported action

  -- with the match of `_NUMBER`
  compile_measured : ActionItem → Option (Number × Option String) → CompilationResult
  unfolding compile_numeric compile_behavior
  compile_measured action (some (expected, unit)) = compile_numeric action expected unit
  compile_measured action none = compile_behavior action

  unfoldable pub compile_action : ActionItem → CompilationResult
  unfolding compile_runtime compile_measured
  compile_action action =
      let text = text_of action in
      if tools.mentions_runtime text
      then compile_runtime action
      else compile_measured action (tools.find_number text)

  unfoldable pub compile : List ActionItem → CompilationResult
  compile [] = record { invariants = []; check_specs = [] }
  compile (action ∷ actions) =
      let result = compile_action action in
      let rest = compile actions in
      record {
        invariants = result.invariants ++ rest.invariants;
        check_specs = result.check_specs ++ rest.check_specs;
      }
