-- ===== src/Audit/Checks/Outcomes.antt =====
-- backend/app/audit/checks.py: what `run` returns for a check.
use remedy_graph.Audit.Checks.Fitting.{ok-bind}
use remedy_graph.Prelude.{lookup, if◌then◌else◌, ◌==◌}
use remedy_graph.Result.{or_raise, raise_if, value_error}
use remedy_graph.Audit.Checks.Keys.{text_list, normalize_key, test_query, test_term}
use remedy_graph.Audit.Checks.TestSearch.{test_matches}
use remedy_graph.Audit.Checks.Runner.{expected_number}
use remedy_graph.Audit.Checks.Run.{literal_pattern, scan_files, or_else, text_or_empty}
use remedy_graph.Prelude.{
  String, none, List, [], ◌∷◌, map, length, Bool, true, false, ◌≡◌, refl, arith, member, is_empty,
  not, filter, from_keys,
}
use remedy_graph.Result.{Error, Result, ok, err, ◌>>=◌, ◌>>◌}
use remedy_graph.Prelude.{◌≤◌}
use mathlib.Core.Path.{subst}
use remedy_graph.Audit.Workflow.Keeps.{ok-injective}
use remedy_graph.Prelude.{if◌then◌else◌}
use remedy_graph.Audit.Checks.Run.{is_caught}
use remedy_graph.Audit.Contracts.{
  DeterministicCheckType, RequirementAvailability, CheckOutcome, DeterministicCheckSpec,
  EvidenceRecord, CheckExecution, outcome_matches_passed,
}
use remedy_graph.Rag.Safety.Walk.{RepositoryFile}
use remedy_graph.Audit.Checks.Keys.{CheckTools}
use remedy_graph.Audit.Checks.Runner.{measured_execution}
use remedy_graph.Audit.Checks.Run.{
  matching_files, pattern_execution, static_pattern, code_execution, static_code, test_execution,
  test_protection, configuration, caught, dispatch, run_available, run_check,
}
use remedy_graph.Audit.Checks.Fitting.{
  IsOwned, IsFitting, measured-IsFitting, non_assessable-IsFitting, failed_check-IsFitting,
  code-IsFitting, test-IsFitting, pattern-IsFitting,
}
use remedy_graph.Audit.Checks.Patterns.{admitted, matching_files-Admits}

module _ (sha256_hex : String → String) (tools : CheckTools) (set_order : List String → List String)
    (files : List RepositoryFile) (spec : DeterministicCheckSpec) (run_id action_id : String) where
  abbrev Owned : EvidenceRecord → Type 0
  Owned = IsOwned sha256_hex spec run_id action_id

  abbrev Fitting : CheckExecution → Type 0
  Fitting = IsFitting sha256_hex spec run_id action_id

  -- what a check that does not raise gives
  Gives : Result CheckExecution → Type 0
  Gives r = (x : CheckExecution) → r ≡ ok x → Fitting x

  Gives-ok : (x : CheckExecution) → Fitting x → Gives (ok x)
  unfolding Gives
  Gives-ok x h y e = subst Fitting (ok-injective x y e) h

  Gives-bind :
      {A : Type 0} (r : Result A) (f : A → Result CheckExecution)
      → ((a : A) → r ≡ ok a → Gives (f a))
      → Gives (r >>= f)
  unfolding Gives
  Gives-bind (err e) f k x h = absurd (ground arith)
  Gives-bind (ok a) f k x h = k a refl x h

  Gives-then : (r : Result (Unit {0})) (t : Result CheckExecution) → Gives t → Gives (r >> t)
  unfolding Gives
  Gives-then (err e) t k x h = absurd (ground arith)
  Gives-then (ok u) t k x h = k x h

  Gives-if :
      (b : Bool) (r t : Result CheckExecution) → Gives r → Gives t → Gives (if b then r else t)
  Gives-if true r t h k = h
  Gives-if false r t h k = k

  -- the error that is raised again
  Gives-err : (e : Error) → Gives (err e)
  unfolding Gives
  Gives-err e x h = absurd (ground arith)

  Gives-caught :
      (r : Result CheckExecution)
      → Gives r
      → Gives (caught sha256_hex tools set_order files spec run_id action_id r)
  unfolding caught
  Gives-caught (ok x) h = h
  Gives-caught (err e) h =
      Gives-if (is_caught e) _ _
        (Gives-ok _ (failed_check-IsFitting sha256_hex spec run_id action_id e)) (Gives-err e)

  configuration-Gives : Gives (configuration sha256_hex tools set_order files spec run_id action_id)
  unfolding configuration
  configuration-Gives =
      Gives-bind (text_list (lookup "key_candidates" spec.parameters)) _ (λ candidates _.
        Gives-bind
          (or_raise (if is_empty candidates then none else expected_number spec.expected)
            (value_error "configuration check requires numeric expected and key candidates"))
          _
          (λ expected _. Gives-bind _ _ (λ ms _.
            Gives-ok (measured_execution sha256_hex spec run_id action_id tools ms)
              (measured-IsFitting sha256_hex spec run_id action_id tools ms))))

  pattern-Gives : Gives (static_pattern sha256_hex tools set_order files spec run_id action_id)
  unfolding static_pattern
  pattern-Gives =
      Gives-bind
        (or_raise
          (literal_pattern sha256_hex tools set_order files spec run_id action_id
            (lookup "literal_pattern" spec.parameters))
          (value_error "static pattern must be a non-empty literal of at most 200 characters"))
        _
        (λ pattern _.
          let found =
            matching_files sha256_hex tools set_order files spec run_id action_id pattern 20
              files in
          Gives-bind found _ (λ evidence e.
            let own =
              admitted sha256_hex tools set_order files spec run_id action_id 20 found evidence
                (matching_files-Admits sha256_hex tools set_order files spec run_id action_id
                  pattern 20 files)
                e in
            Gives-ok
              (pattern_execution sha256_hex tools set_order files spec run_id action_id pattern
                evidence)
              (pattern-IsFitting sha256_hex tools set_order files spec run_id action_id pattern
                evidence own.0)))

  code-Gives : Gives (static_code sha256_hex tools set_order files spec run_id action_id)
  unfolding static_code
  code-Gives = Gives-bind (text_list (lookup "terms" spec.parameters)) _ (λ values _.
      let terms = filter (λ term. not (term == "")) (map (normalize_key tools) values) in
      Gives-then (raise_if (is_empty terms) (value_error "static check requires terms")) _ (
        Gives-bind
          (scan_files sha256_hex tools set_order files spec run_id action_id files
            (map (λ term. (term, [])) (from_keys terms)))
          _
          (λ found _.
            Gives-ok
              (code_execution sha256_hex tools set_order files spec run_id action_id terms found)
              (code-IsFitting sha256_hex tools set_order files spec run_id action_id terms found))))

  test-Gives : Gives (test_protection sha256_hex tools set_order files spec run_id action_id)
  unfolding test_protection
  test-Gives = Gives-bind (text_list (lookup "terms" spec.parameters)) _ (λ values _.
      let kept =
        filter (λ term. not (member term ("" ∷ "regression" ∷ "test" ∷ [])))
          (map (test_term tools) values) in
      let query = test_query tools (text_or_empty (lookup "query" spec.parameters)) in
      Gives-bind
        (test_matches tools set_order files (
          or_else sha256_hex tools set_order files spec run_id action_id kept
            (map (normalize_key tools) (tools.split query))))
        _
        (λ matches _.
          Gives-ok (test_execution sha256_hex tools set_order files spec run_id action_id matches)
            (test-IsFitting sha256_hex tools set_order files spec run_id action_id matches)))

  dispatch-Gives :
      (kind : DeterministicCheckType)
      → Gives (dispatch sha256_hex tools set_order files spec run_id action_id kind)
  unfolding outcome_matches_passed
  dispatch-Gives DeterministicCheckType.configuration_value = Gives-caught _ configuration-Gives
  dispatch-Gives DeterministicCheckType.static_code = Gives-caught _ code-Gives
  dispatch-Gives DeterministicCheckType.static_pattern = Gives-caught _ pattern-Gives
  dispatch-Gives DeterministicCheckType.test_protection = Gives-caught _ test-Gives
  dispatch-Gives DeterministicCheckType.runtime_context =
      Gives-ok _
        (non_assessable-IsFitting sha256_hex spec run_id action_id CheckOutcome.unsupported refl)
  dispatch-Gives DeterministicCheckType.unsupported =
      Gives-ok _
        (non_assessable-IsFitting sha256_hex spec run_id action_id CheckOutcome.unsupported refl)

  available-Gives :
      (availability : RequirementAvailability)
      → Gives (run_available sha256_hex tools set_order files spec run_id action_id availability)
  unfolding outcome_matches_passed
  available-Gives RequirementAvailability.supported = dispatch-Gives spec.check_type
  available-Gives RequirementAvailability.unsupported =
      Gives-ok _
        (non_assessable-IsFitting sha256_hex spec run_id action_id CheckOutcome.unsupported refl)
  available-Gives RequirementAvailability.unavailable =
      Gives-ok _
        (non_assessable-IsFitting sha256_hex spec run_id action_id CheckOutcome.unavailable refl)

  -- Every execution that a check returns is for this run and specification: its outcome and its flag
  -- agree, and its evidence belongs to the run, the action and the requirement and is named by the
  -- result.
  pub run_check-IsFitting :
      (x : CheckExecution)
      → run_check sha256_hex tools set_order files spec run_id action_id ≡ ok x
      → IsFitting sha256_hex spec run_id action_id x
  unfolding run_check Gives
  run_check-IsFitting = available-Gives spec.availability

  pattern-IsBounded :
      (pattern : String) (evidence : List EvidenceRecord)
      → length evidence ≤ 20
      → (1
          ≤ length
              (pattern_execution sha256_hex tools set_order files spec run_id action_id pattern
                evidence).evidence)
        × (length
              (pattern_execution sha256_hex tools set_order files spec run_id action_id pattern
                evidence).evidence
            ≤ 20)
  pattern-IsBounded pattern [] h = (ground arith, ground arith)
  pattern-IsBounded pattern (e ∷ es) h = (ground arith, h)

  -- A pattern check that returns has between 1 and 20 records of evidence.
  pub static_pattern-bounded :
      (x : CheckExecution)
      → static_pattern sha256_hex tools set_order files spec run_id action_id ≡ ok x
      → (1 ≤ length x.evidence) × (length x.evidence ≤ 20)
  unfolding static_pattern
  static_pattern-bounded x h =
      let given =
        or_raise
          (literal_pattern sha256_hex tools set_order files spec run_id action_id
            (lookup "literal_pattern" spec.parameters))
          (value_error "static pattern must be a non-empty literal of at most 200 characters") in
      let (pattern, _, found) = ok-bind given _ x h in
      let read =
        matching_files sha256_hex tools set_order files spec run_id action_id pattern 20 files in
      let (evidence, e, same) = ok-bind read _ x found in
      let own =
        admitted sha256_hex tools set_order files spec run_id action_id 20 read evidence
          (matching_files-Admits sha256_hex tools set_order files spec run_id action_id pattern 20
            files)
          e in
      subst (λ (y : CheckExecution). (1 ≤ length y.evidence) × (length y.evidence ≤ 20))
        (ok-injective _ x same) (pattern-IsBounded pattern evidence own.1)
