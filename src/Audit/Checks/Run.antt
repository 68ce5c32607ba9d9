-- ===== src/Audit/Checks/Run.antt =====
-- backend/app/audit/checks.py: the checks of a repository's files, and `run`, which dispatches to them.
use Prim.Native.String.{◌++◌ as ◌<>◌, count}
use remedy_graph.Prelude.{
  ℕ, suc, eqb, ◌-◌, String, Option, none, some, List, [], ◌∷◌, ◌++◌, map, filter, member, is_empty,
  not, Bool, true, ◌||◌, ◌==◌, leb, length, take, from_keys, if◌then◌else◌, Dict, lookup,
}
use remedy_graph.Result.{
  Error, value_error, os_error, Result, ok, err, raise_if, or_raise, ◌>>=◌, ◌>>◌,
}
use remedy_graph.Ids.{join, str}
use remedy_graph.Models.{EvidenceKind}
use remedy_graph.Audit.Contracts.{
  Value, RequirementAvailability, DeterministicCheckType, CheckOutcome, EvidenceRole,
  DeterministicCheckSpec, EvidenceRecord, CheckExecution,
}
use remedy_graph.Audit.Compiler.Terms.{is_in}
use remedy_graph.Rag.Safety.Walk.{RepositoryFile}
use remedy_graph.Audit.Checks.Keys.{
  CheckTools, posix, text_list, normalize_key, is_test, test_query, test_term,
}
use remedy_graph.Audit.Checks.Scan.{
  Use, TestMatch, is_value_or_type_error, suffix_of, collect, file_values, scan_python,
  scan_configured_use,
}
use remedy_graph.Audit.Checks.TestSearch.{test_matches}
use remedy_graph.Audit.Checks.Runner.{
  expected_number, use_suffixes, pattern_suffixes, code_or_configuration, absence, evidence_of,
  execution, found_or_not, or_absence, non_assessable, failed_check, measure, measured_execution,
}

-- `except (OSError, UnicodeDecodeError, ValueError, TypeError)`
abbrev pub is_caught : Error → Bool
is_caught (os_error m) = true
is_caught e = is_value_or_type_error e

-- the texts of a query
abbrev pub text_or_empty : Option Value → String
text_or_empty (some (Value.text s)) = s
text_or_empty _ = ""

module _ (sha256_hex : String → String) (tools : CheckTools) (set_order : List String → List String)
    (files : List RepositoryFile) (spec : DeterministicCheckSpec) (run_id action_id : String) where
  abbrev pub parameter : String → Option Value
  parameter name = lookup name spec.parameters

  -- `_configuration`: the values of a file are compared before the next file is read
  unfoldable pub configuration : Result CheckExecution
  configuration = do
    candidates ← text_list (parameter "key_candidates")
    expected ←
        or_raise (if is_empty candidates then none else expected_number spec.expected)
          (value_error "configuration check requires numeric expected and key candidates")
    measured ←
        collect
          (λ file.
            file_values tools file
            >>= measure sha256_hex spec run_id action_id tools candidates expected)
          files
    ok (measured_execution sha256_hex spec run_id action_id tools measured)

  -- the evidence for one line
  abbrev pub line_evidence : String → String → ℕ → String → EvidenceRecord
  line_evidence pattern source_path n line =
      evidence_of sha256_hex spec run_id action_id (source_path ∷ str n ∷ pattern ∷ [])
        EvidenceKind.code EvidenceRole.supporting_only (some source_path) (some n) (some n)
        (tools.redact_text (tools.strip line)) (("proof_kind", "bounded_literal_pattern") ∷ [])

  -- the lines with the pattern, from number `n` on
  unfoldable pub matching_lines : String → String → ℕ → List String → List EvidenceRecord
  matching_lines pattern source_path n [] = []
  matching_lines pattern source_path n (line ∷ lines) =
      let rest = matching_lines pattern source_path (suc n) lines in
      if is_in pattern line then line_evidence pattern source_path n line ∷ rest else rest

  -- the lines of a file, up to the `break`
  unfoldable pub matching_file : String → ℕ → RepositoryFile → Result (List EvidenceRecord)
  matching_file pattern room file =
      let read = tools.read_text file >>= λ text.
      ok (take room (matching_lines pattern (posix file.source_path) 1 (tools.splitlines text))) in
      if member (suffix_of tools file) pattern_suffixes then read else ok []

  -- the loop over the files, with room for so many records more
  unfoldable pub matching_files : String → ℕ → List RepositoryFile → Result (List EvidenceRecord)
  matching_files pattern room [] = ok []
  matching_files pattern room (file ∷ rest) =
      if eqb room 0
      then ok []
      else (matching_file pattern room file >>= λ evidence.
          matching_files pattern (room - length evidence) rest >>= λ more. ok (evidence ++ more))

  abbrev pub literal_pattern : Option Value → Option String
  literal_pattern (some (Value.text s)) = if s == "" || leb 201 (count s) then none else some s
  literal_pattern _ = none

  -- how many records there are, where there are some
  abbrev pub pattern_execution : String → List EvidenceRecord → CheckExecution
  pattern_execution pattern evidence =
      execution sha256_hex spec run_id action_id
        (found_or_not sha256_hex spec run_id action_id (not (is_empty evidence))
          "bounded literal pattern located" "literal pattern not found")
        (some (Value.text pattern)) (some (Value.count (length evidence)))
        (or_absence sha256_hex spec run_id action_id evidence "literal pattern not found")

  -- `_static_pattern`
  unfoldable pub static_pattern : Result CheckExecution
  unfolding matching_files
  static_pattern = do
    pattern ←
        or_raise (literal_pattern (parameter "literal_pattern"))
          (value_error "static pattern must be a non-empty literal of at most 200 characters")
    evidence ← matching_files pattern 20 files
    ok (pattern_execution pattern evidence)

  -- one file of `_static_code`
  unfoldable pub scan_file : RepositoryFile → Dict (List Use) → Result (Dict (List Use))
  scan_file file found =
      let suffix = suffix_of tools file in
      if is_test tools (posix file.source_path)
      then ok found
      else if suffix == ".py"
      then scan_python tools file found
      else if member suffix use_suffixes
      then scan_configured_use tools file found
      else ok found

  unfoldable pub scan_files : List RepositoryFile → Dict (List Use) → Result (Dict (List Use))
  scan_files [] found = ok found
  scan_files (file ∷ rest) found = scan_file file found >>= scan_files rest

  abbrev pub use_evidence : String → Use → EvidenceRecord
  use_evidence term u =
      evidence_of sha256_hex spec run_id action_id (term ∷ u.source_path ∷ str u.line ∷ [])
        (code_or_configuration u.source_path) EvidenceRole.supporting (some u.source_path)
        (some u.line) (some u.line) (tools.redact_text u.excerpt)
        (("matched_term", term) ∷ ("proof_kind", u.proof_kind) ∷ [])

  unfoldable pub missing_terms : Dict (List Use) → List String
  missing_terms found =
      map (λ (r : String × List Use). r.0) (filter (λ (r : String × List Use). is_empty r.1) found)

  unfoldable pub uses_evidence : Dict (List Use) → List EvidenceRecord
  uses_evidence [] = []
  uses_evidence ((term, uses) ∷ found) =
      map (use_evidence term) (take 5 uses) ++ uses_evidence found

  abbrev pub missing_evidence : List String → List EvidenceRecord
  missing_evidence [] = []
  missing_evidence (term ∷ terms) =
      absence sha256_hex spec run_id action_id
        ("missing executable terms: " <> join ", " (term ∷ terms))
      ∷ []

  unfoldable pub code_execution : List String → Dict (List Use) → CheckExecution
  code_execution terms found =
      execution sha256_hex spec run_id action_id
        (found_or_not sha256_hex spec run_id action_id (is_empty (missing_terms found))
          "all material terms occur in calls, wiring, or enabled configuration"
          "required executable terms were not found")
        (some (Value.terms terms))
        (some (Value.counts (map (λ (r : String × List Use). (r.0, length r.1)) found)))
        (uses_evidence found ++ missing_evidence (missing_terms found))

  -- `_static_code`
  unfoldable pub static_code : Result CheckExecution
  static_code = do
    values ← text_list (parameter "terms")
    let terms = filter (λ term. not (term == "")) (map (normalize_key tools) values)
    raise_if (is_empty terms) (value_error "static check requires terms")
    found ← scan_files files (map (λ term. (term, [])) (from_keys terms))
    ok (code_execution terms found)

  -- `[…] or […]`
  abbrev pub or_else : List String → List String → List String
  or_else [] other = other
  or_else (x ∷ xs) other = x ∷ xs

  abbrev pub match_evidence : TestMatch → EvidenceRecord
  match_evidence m =
      evidence_of sha256_hex spec run_id action_id (m.source_path ∷ str m.line_start ∷ [])
        EvidenceKind.test EvidenceRole.supporting (some m.source_path) (some m.line_start)
        (some m.line_end) (tools.redact_text m.excerpt)
        (("symbol", m.symbol) ∷ ("proof_kind", "nontrivial_structural_test") ∷ [])

  unfoldable pub test_execution : List TestMatch → CheckExecution
  test_execution matches =
      execution sha256_hex spec run_id action_id
        (found_or_not sha256_hex spec run_id action_id (not (is_empty matches))
          "behavioral test assertion located" "no matching behavioral test assertion found")
        (some (Value.text "a located executable behavioral assertion"))
        (some (Value.located (map (λ (m : TestMatch). (m.source_path, m.symbol)) matches)))
        (or_absence sha256_hex spec run_id action_id (map match_evidence matches)
          "no matching behavioral test assertion found")

  -- `_test_protection`
  unfoldable pub test_protection : Result CheckExecution
  test_protection = do
    let query = test_query tools (text_or_empty (parameter "query"))
    values ← text_list (parameter "terms")
    let kept =
        filter (λ term. not (member term ("" ∷ "regression" ∷ "test" ∷ [])))
          (map (test_term tools) values)
    matches ←
        test_matches tools set_order files
          (or_else kept (map (normalize_key tools) (tools.split query)))
    ok (test_execution matches)

  unfoldable pub caught : Result CheckExecution → Result CheckExecution
  caught (ok x) = ok x
  caught (err e) =
      if is_caught e then ok (failed_check sha256_hex spec run_id action_id e) else err e

  -- the checks that `run` knows
  abbrev pub dispatch : DeterministicCheckType → Result CheckExecution
  dispatch DeterministicCheckType.configuration_value = caught configuration
  dispatch DeterministicCheckType.static_code = caught static_code
  dispatch DeterministicCheckType.static_pattern = caught static_pattern
  dispatch DeterministicCheckType.test_protection = caught test_protection
  dispatch _ = ok (non_assessable sha256_hex spec run_id action_id CheckOutcome.unsupported)

  -- by the availability of the specification
  abbrev pub run_available : RequirementAvailability → Result CheckExecution
  run_available RequirementAvailability.supported = dispatch spec.check_type
  run_available RequirementAvailability.unavailable =
      ok (non_assessable sha256_hex spec run_id action_id CheckOutcome.unavailable)
  run_available RequirementAvailability.unsupported =
      ok (non_assessable sha256_hex spec run_id action_id CheckOutcome.unsupported)

  unfoldable pub run_check : Result CheckExecution
  run_check = run_available spec.availability
