-- ===== src/Audit/Checks/TestSearch.antt =====
-- backend/app/audit/checks.py: the tests that assert on what they exercise. The order in which Python
-- lists a set of texts is not determined: it is a parameter.
use text.Mathlib.Text.{starts_with}
use remedy_graph.Prelude.{
  ◌==◌, ℕ, ◌-◌, String, Option, none, some, List, [], ◌∷◌, ◌++◌, map, filter, any, member, is_empty,
  not, Bool, false, ◌&&◌, ltb, min, length, take, drop, from_keys, if◌then◌else◌, Dict, lookup,
  insert,
}
use remedy_graph.Result.{Result, ok, ◌>>=◌}
use remedy_graph.Ids.{join}
use remedy_graph.Audit.Compiler.Terms.{is_in}
use remedy_graph.Rag.Safety.Walk.{RepositoryFile}
use remedy_graph.Audit.Checks.Documents.{
  Module, Callee, root_name, CallAssignment, Expression, name_load, call_of, other_expression, With,
  TestFunction,
}
use remedy_graph.Audit.Checks.Scan.{skipping, is_syntax_error}
use remedy_graph.Audit.Checks.Keys.{CheckTools, posix, normalize_key, is_test}
use remedy_graph.Audit.Checks.Scan.{TestMatch, concat, collect, names_of, suffix_of}

-- cls._root_name(…) in imported
abbrev root_is_imported : List String → Callee → Bool
root_is_imported imported callee = elim (root_name callee) [
  | none ↦ false
  | some id ↦ member id imported
]

assign_names : String → List String → Dict String → Dict String
assign_names called [] m = m
assign_names called (id ∷ ids) m = assign_names called ids (insert id called m)

-- the names that hold the result of a call of something imported
unfoldable pub assignments_of : List String → List CallAssignment → Dict String → Dict String
unfolding assign_names
assignments_of imported [] m = m
assignments_of imported (a ∷ rest) m = assignments_of imported rest (
    if root_is_imported imported a.function
    then assign_names a.called (names_of a.targets) m
    else m)

abbrev assigned_reference : Option String → List String
assigned_reference none = []
assigned_reference (some called) = called ∷ []

-- what one node of an asserted expression refers to
unfoldable pub references_of : List String → Dict String → Expression → List String
references_of imported assignments (name_load id) =
    (if member id imported then id ∷ [] else []) ++ assigned_reference (lookup id assignments)
references_of imported assignments (call_of callee called) =
    if root_is_imported imported callee then called ∷ [] else []
references_of imported assignments other_expression = []

-- `_exercised_references`, each once
unfoldable pub exercised_references : TestFunction → List String → List String
exercised_references function imported =
    let assignments = assignments_of imported function.assignments [] in
    let raising = filter (λ (w : With). any (is_in "pytest.raises") w.contexts) function.withs in
    let raise_bodies = concat (map (λ (w : With). w.body) raising) in
    from_keys (
      concat
        (map (references_of imported assignments) (concat (function.assertions ++ raise_bodies))))

module _ (tools : CheckTools) (set_order : List String → List String) where
  -- one function of `_structural_test_matches`
  unfoldable pub exercises : List String → List String → TestFunction → Bool
  exercises imported terms function =
      let refs = exercised_references function imported in
      let haystack = normalize_key tools (join " " (set_order refs)) in
      starts_with function.name "test"
      && not (is_empty refs)
      && not (
          not (is_empty terms)
          && ltb (length (filter (λ term. is_in term haystack) terms)) (min 2 (length terms)))

  abbrev end_of : TestFunction → ℕ
  end_of function = elim function.end_lineno [ none ↦ function.lineno | some n ↦ n ]

  abbrev match_of : String → List String → TestFunction → TestMatch
  match_of source_path lines function = record {
    source_path = source_path;
    symbol = function.name;
    line_start = function.lineno;
    line_end = end_of function;
    excerpt = join "\n" (drop (function.lineno - 1) (take (end_of function) lines));
  }

  module_matches : String → List String → List String → Module → List TestMatch
  module_matches source_path lines terms m =
      map (match_of source_path lines) (filter (exercises m.imported terms) m.functions)

  -- `_structural_test_matches`
  unfoldable pub structural_test_matches : RepositoryFile → List String → Result (List TestMatch)
  unfolding module_matches skipping
  structural_test_matches file terms = tools.read_text file >>= λ source.
      skipping is_syntax_error [] (
        tools.parse_python source >>= λ m.
        ok (module_matches (posix file.source_path) (tools.splitlines source) terms m))

  -- the loop of `_test_protection` over the files
  unfoldable pub test_matches : List RepositoryFile → List String → Result (List TestMatch)
  test_matches files terms =
      collect (λ file. structural_test_matches file terms)
        (filter
          (λ (file : RepositoryFile).
            suffix_of tools file == ".py" && is_test tools (posix file.source_path))
          files)
