-- ===== src/Audit/Checks/Total.antt =====
-- backend/app/audit/checks.py: what leaves `run`, an execution or an OverflowError.
use remedy_graph.Prelude.{Bool, true, Bool-cases, Option, some, ◌⊎◌, inl, inr, arith}
use remedy_graph.Result.{Error, type_error, overflow_error}
use remedy_graph.Audit.Contracts.{
  Scalar, none_value, boolean, numeral, string, other, unhashable, Numeral, integer, floating,
  finite, infinite, not_a_number,
}
use remedy_graph.Audit.Checks.Documents.{Tree, KeyPath, flatten}
use remedy_graph.Audit.Checks.Keys.{as_float, key_matches}
use remedy_graph.Audit.Checks.Scan.{
  Located, skipping, is_syntax_error, is_unreadable, is_disabled, scan_leaf, scan_leaves, scan_tree,
}
use remedy_graph.Audit.Checks.Runner.{measured_by, measure}
use remedy_graph.Audit.Checks.Run.{is_caught}
use remedy_graph.Audit.Checks.Safe.{Raises, Raises-err, Raises-weaken}
use remedy_graph.Audit.Checks.Runner.{failed_check}
use remedy_graph.Audit.Checks.Scan.{parse_by}
use remedy_graph.Prelude.{
  ℕ, ◌-◌, ◌==◌, String, none, List, [], ◌∷◌, ◌++◌, map, length, filter, from_keys, is_empty, member,
  not, eqb, ◌≡◌, refl, lookup, Dict, if◌then◌else◌,
}
use remedy_graph.Result.{value_error, Result, ok, err, or_raise, ◌>>=◌}
use remedy_graph.Audit.Contracts.{
  DeterministicCheckType, RequirementAvailability, DeterministicCheckSpec, CheckExecution,
}
use remedy_graph.Rag.Safety.Walk.{RepositoryFile}
use remedy_graph.Audit.Checks.Keys.{
  CheckTools, posix, text_list, normalize_key, is_test, test_query, test_term,
}
use remedy_graph.Audit.Checks.Scan.{
  Use, is_value_or_type_error, suffix_of, configuration_suffixes, file_values, scan_python,
  scan_configured_use,
}
use remedy_graph.Audit.Checks.TestSearch.{test_matches}
use remedy_graph.Audit.Checks.Runner.{expected_number, use_suffixes, pattern_suffixes}
use remedy_graph.Audit.Checks.Run.{
  text_or_empty, matching_file, matching_files, literal_pattern, static_pattern, scan_file,
  scan_files, static_code, or_else, test_protection, configuration, caught, dispatch, run_available,
  run_check,
}
use remedy_graph.Audit.Checks.Safe.{
  IsSafe, IsSafe-ok, IsSafe-if, IsSafe-or_raise, IsSafe-bind, IsSafe-collect, IsSafe-then,
  IsSafe-text_list,
}
use remedy_graph.Audit.Checks.Reading.{
  is_overflow, IsRegular, caught_or, overflow-cases, may_leave, IsSafe-read, IsSafe-parse,
  IsSafe-file_values, IsSafe-tests, Raises-parse_by,
}

module _ (tools : CheckTools) (regular : IsRegular tools) where
  module _ (sha256_hex : String → String) (set_order : List String → List String)
      (files : List RepositoryFile) (spec : DeterministicCheckSpec)
      (run_id action_id : String) where
    IsSafe-matching :
        (pattern : String) (room : ℕ) (rest : List RepositoryFile)
        → IsSafe (
            matching_files sha256_hex tools set_order files spec run_id action_id pattern room rest)
    unfolding matching_files matching_file
    IsSafe-matching pattern room [] = IsSafe-ok []
    IsSafe-matching pattern room (file ∷ rest) = IsSafe-if (eqb room 0) (ok []) _ (IsSafe-ok []) (
        IsSafe-bind
          (matching_file sha256_hex tools set_order files spec run_id action_id pattern room file) _
          (IsSafe-if (member (suffix_of tools file) pattern_suffixes) _ (ok [])
            (IsSafe-read tools regular file _ (λ text. IsSafe-ok _)) (IsSafe-ok []))
          (λ here.
            IsSafe-bind
              (matching_files sha256_hex tools set_order files spec run_id action_id pattern
                (room - length here) rest)
              _ (IsSafe-matching pattern (room - length here) rest)
              (λ more. IsSafe-ok (here ++ more))))

    IsSafe-disabled : (value : Scalar) → IsSafe (is_disabled tools value)
    unfolding is_disabled is_value_or_type_error
    IsSafe-disabled none_value = IsSafe-ok _
    IsSafe-disabled (boolean b) = IsSafe-ok _
    IsSafe-disabled (numeral (integer negative n)) = IsSafe-ok _
    IsSafe-disabled (numeral (floating (finite negative n))) = IsSafe-ok _
    IsSafe-disabled (numeral (floating (infinite negative))) = IsSafe-ok _
    IsSafe-disabled (numeral (floating not_a_number)) = IsSafe-ok _
    IsSafe-disabled (string s) = IsSafe-ok _
    IsSafe-disabled (other s) = IsSafe-ok _
    IsSafe-disabled (unhashable s) =
        Raises-err {may = is_caught} Bool (type_error "unhashable type") refl

    IsSafe-leaf :
        (source_path text : String) (leaf : KeyPath × Scalar) (found : Dict (List Use))
        → IsSafe (scan_leaf tools source_path text leaf found)
    unfolding scan_leaf
    IsSafe-leaf source_path text leaf found =
        IsSafe-bind (is_disabled tools leaf.1) _ (IsSafe-disabled leaf.1) (λ b. IsSafe-ok _)

    IsSafe-leaves :
        (source_path text : String) (leaves : List (KeyPath × Scalar)) (found : Dict (List Use))
        → IsSafe (scan_leaves tools source_path text leaves found)
    unfolding scan_leaves
    IsSafe-leaves source_path text [] found = IsSafe-ok found
    IsSafe-leaves source_path text (leaf ∷ leaves) found =
        IsSafe-bind (scan_leaf tools source_path text leaf found) _
          (IsSafe-leaf source_path text leaf found) (IsSafe-leaves source_path text leaves)

    IsSafe-scan_tree :
        (source_path text : String) (parsed : Option Tree) (found : Dict (List Use))
        → IsSafe (scan_tree tools source_path text parsed found)
    unfolding scan_tree
    IsSafe-scan_tree source_path text none found = IsSafe-ok found
    IsSafe-scan_tree source_path text (some tree) found =
        IsSafe-leaves source_path text (flatten tree []) found

    IsSafe-scan_file :
        (file : RepositoryFile) (found : Dict (List Use))
        → IsSafe (scan_file sha256_hex tools set_order files spec run_id action_id file found)
    unfolding scan_file scan_python scan_configured_use
    IsSafe-scan_file file found =
        let suffix = suffix_of tools file in
        IsSafe-if (is_test tools (posix file.source_path)) (ok found) _ (IsSafe-ok found) (
          IsSafe-if (suffix == ".py") _ _
            (IsSafe-read tools regular file _ (λ source.
              IsSafe-parse tools regular is_syntax_error found (tools.parse_python source) _
                (regular.python source)))
            (IsSafe-if (member suffix use_suffixes) _ (ok found)
              (IsSafe-read tools regular file _ (λ text.
                IsSafe-if (member suffix configuration_suffixes) _ (ok found)
                  (IsSafe-bind
                    (skipping is_unreadable none
                      (parse_by tools suffix text >>= λ tree. ok (some tree)))
                    _
                    (IsSafe-parse tools regular is_unreadable none (parse_by tools suffix text) some
                      (Raises-parse_by tools regular suffix text))
                    (λ parsed. IsSafe-scan_tree (posix file.source_path) text parsed found))
                  (IsSafe-ok found)))
              (IsSafe-ok found)))

    IsSafe-scan_files :
        (rest : List RepositoryFile) (found : Dict (List Use))
        → IsSafe (scan_files sha256_hex tools set_order files spec run_id action_id rest found)
    unfolding scan_files
    IsSafe-scan_files [] found = IsSafe-ok found
    IsSafe-scan_files (file ∷ rest) found =
        IsSafe-bind (scan_file sha256_hex tools set_order files spec run_id action_id file found) _
          (IsSafe-scan_file file found) (IsSafe-scan_files rest)

    Raises-as_float : (x : Numeral) → Raises may_leave (as_float tools x)
    unfolding as_float
    Raises-as_float (integer negative n) =
        Raises-weaken (tools.float_of_integer negative n) (λ e h. ground arith)
          (regular.floats negative n)
    Raises-as_float (floating x) = IsSafe-ok x

    Raises-measured_by :
        (expected : Numeral) (value : Scalar) (v : Located)
        → Raises may_leave (measured_by sha256_hex spec run_id action_id tools expected value v)
    unfolding measured_by
    Raises-measured_by expected (numeral x) v =
        IsSafe-bind (as_float tools expected) _ (Raises-as_float expected)
          (λ wanted. IsSafe-bind (as_float tools x) _ (Raises-as_float x) (λ actual. IsSafe-ok _))
    Raises-measured_by expected none_value v = IsSafe-ok none
    Raises-measured_by expected (boolean b) v = IsSafe-ok none
    Raises-measured_by expected (string s) v = IsSafe-ok none
    Raises-measured_by expected (other s) v = IsSafe-ok none
    Raises-measured_by expected (unhashable s) v = IsSafe-ok none

    Raises-measure :
        (candidates : List String) (expected : Numeral) (values : List Located)
        → Raises may_leave
            (measure sha256_hex spec run_id action_id tools candidates expected values)
    unfolding measure
    Raises-measure candidates expected [] = IsSafe-ok []
    Raises-measure candidates expected (v ∷ values) =
        let rest = Raises-measure candidates expected values in
        IsSafe-if (key_matches tools v.key candidates) _ _
          (IsSafe-bind (measured_by sha256_hex spec run_id action_id tools expected v.value v) _
            (Raises-measured_by expected v.value v)
            (λ m.
              IsSafe-bind
                (measure sha256_hex spec run_id action_id tools candidates expected values) _ rest
                (λ ms. IsSafe-ok _)))
          rest

    safe_leaves : {A : Type 0} (r : Result A) → IsSafe r → Raises may_leave r
    safe_leaves r h = Raises-weaken r (caught_or is_overflow) h

    Raises-configuration :
        Raises may_leave (configuration sha256_hex tools set_order files spec run_id action_id)
    unfolding configuration
    Raises-configuration =
        IsSafe-bind (text_list (lookup "key_candidates" spec.parameters)) _
          (safe_leaves _ (IsSafe-text_list _))
          (λ candidates.
            IsSafe-bind
              (or_raise (if is_empty candidates then none else expected_number spec.expected)
                (value_error "configuration check requires numeric expected and key candidates"))
              _ (safe_leaves _ (IsSafe-or_raise _ _))
              (λ expected.
                IsSafe-bind _ _
                  (IsSafe-collect _ files (λ file.
                    IsSafe-bind (file_values tools file) _
                      (safe_leaves _ (IsSafe-file_values tools regular file))
                      (Raises-measure candidates expected)))
                  (λ measured. IsSafe-ok _)))

    IsSafe-pattern : IsSafe (static_pattern sha256_hex tools set_order files spec run_id action_id)
    unfolding static_pattern
    IsSafe-pattern =
        IsSafe-bind
          (or_raise
            (literal_pattern sha256_hex tools set_order files spec run_id action_id
              (lookup "literal_pattern" spec.parameters))
            (value_error "static pattern must be a non-empty literal of at most 200 characters"))
          _ (IsSafe-or_raise _ _)
          (λ pattern.
            IsSafe-bind
              (matching_files sha256_hex tools set_order files spec run_id action_id pattern 20
                files)
              _ (IsSafe-matching pattern 20 files) (λ evidence. IsSafe-ok _))

    IsSafe-code : IsSafe (static_code sha256_hex tools set_order files spec run_id action_id)
    unfolding static_code
    IsSafe-code =
        IsSafe-bind (text_list (lookup "terms" spec.parameters)) _ (IsSafe-text_list _) (λ values.
          let terms = filter (λ term. not (term == "")) (map (normalize_key tools) values) in
          IsSafe-then (is_empty terms) "static check requires terms" _ (
            IsSafe-bind
              (scan_files sha256_hex tools set_order files spec run_id action_id files
                (map (λ term. (term, [])) (from_keys terms)))
              _ (IsSafe-scan_files files _) (λ found. IsSafe-ok _)))

    IsSafe-test : IsSafe (test_protection sha256_hex tools set_order files spec run_id action_id)
    unfolding test_protection
    IsSafe-test =
        IsSafe-bind (text_list (lookup "terms" spec.parameters)) _ (IsSafe-text_list _) (λ values.
          let kept =
            filter (λ term. not (member term ("" ∷ "regression" ∷ "test" ∷ [])))
              (map (test_term tools) values) in
          let query = test_query tools (text_or_empty (lookup "query" spec.parameters)) in
          IsSafe-bind
            (test_matches tools set_order files (
              or_else sha256_hex tools set_order files spec run_id action_id kept
                (map (normalize_key tools) (tools.split query))))
            _ (IsSafe-tests tools regular set_order files _) (λ matches. IsSafe-ok _))

    -- an execution, or an OverflowError that leaves a configuration check
    unfoldable pub Returns : DeterministicCheckType → Result CheckExecution → Type 0
    Returns kind r =
        ((x : CheckExecution) × (r ≡ ok x))
        ⊎ ((m : String) × (kind ≡ DeterministicCheckType.configuration_value)
            × (r ≡ err (overflow_error m)))

    -- what is caught is an execution
    caught-Returns :
        (kind : DeterministicCheckType) (r : Result CheckExecution)
        → IsSafe r
        → Returns kind (caught sha256_hex tools set_order files spec run_id action_id r)
    unfolding caught Returns
    caught-Returns kind (ok x) h = inl (x, refl)
    caught-Returns kind (err e) h =
        inl (failed_check sha256_hex spec run_id action_id e, rw (h.among e refl))

    overflow-Returns :
        (e : Error)
        → may_leave e ≡ true
        → Returns DeterministicCheckType.configuration_value
            (caught sha256_hex tools set_order files spec run_id action_id (err e))
    unfolding caught Returns
    overflow-Returns e h = elim (Bool-cases (is_caught e)) [
      | inl c ↦ inl (failed_check sha256_hex spec run_id action_id e, rw c)
      | inr c ↦ let (m, same) = overflow-cases e (ground arith) in inr (m, refl, rw (c, same))
    ]

    configuration-Returns :
        (r : Result CheckExecution)
        → Raises may_leave r
        → Returns DeterministicCheckType.configuration_value
            (caught sha256_hex tools set_order files spec run_id action_id r)
    unfolding caught Returns
    configuration-Returns (ok x) h = inl (x, refl)
    configuration-Returns (err e) h = overflow-Returns e (h.among e refl)

    dispatch-Returns :
        (kind : DeterministicCheckType)
        → Returns kind (dispatch sha256_hex tools set_order files spec run_id action_id kind)
    unfolding Returns
    dispatch-Returns DeterministicCheckType.configuration_value =
        configuration-Returns _ Raises-configuration
    dispatch-Returns DeterministicCheckType.static_code = caught-Returns _ _ IsSafe-code
    dispatch-Returns DeterministicCheckType.static_pattern = caught-Returns _ _ IsSafe-pattern
    dispatch-Returns DeterministicCheckType.test_protection = caught-Returns _ _ IsSafe-test
    dispatch-Returns DeterministicCheckType.runtime_context = inl (_, refl)
    dispatch-Returns DeterministicCheckType.unsupported = inl (_, refl)

    available-Returns :
        (availability : RequirementAvailability)
        → Returns spec.check_type
            (run_available sha256_hex tools set_order files spec run_id action_id availability)
    unfolding Returns
    available-Returns RequirementAvailability.supported = dispatch-Returns spec.check_type
    available-Returns RequirementAvailability.unsupported = inl (_, refl)
    available-Returns RequirementAvailability.unavailable = inl (_, refl)

    -- Where reading and parsing raise only exceptions that are caught, and `float` of an int only an
    -- OverflowError, a check returns an execution, or it is a configuration check and raises an
    -- OverflowError.
    pub run_check-total :
        Returns spec.check_type (run_check sha256_hex tools set_order files spec run_id action_id)
    unfolding run_check Returns
    run_check-total = available-Returns spec.availability
