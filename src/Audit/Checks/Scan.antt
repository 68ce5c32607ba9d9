-- ===== src/Audit/Checks/Scan.antt =====
-- backend/app/audit/checks.py: what the checks find in the files of a repository. A file is read
-- before its values are used, so the lists are built at once where the source yields them.
use Prim.Native.String.{◌++◌ as ◌<>◌}
use remedy_graph.Prelude.{
  ℕ, ◌-◌, String, Option, none, some, List, [], ◌∷◌, ◌++◌, map, any, member, not, Bool, true, false,
  ◌&&◌, ◌||◌, ◌==◌, eqb, get_elem?, if◌then◌else◌, Dict,
}
use remedy_graph.Result.{
  Error, value_error, state_integrity, path_safety, guard_safety, type_error, syntax_error,
  yaml_error, Result, ok, err, ◌>>=◌,
}
use remedy_graph.Audit.Compiler.Terms.{is_in}
use remedy_graph.Audit.Contracts.{
  Scalar, none_value, boolean, numeral, string, other, unhashable, integer, floating, finite,
}
use remedy_graph.Rag.Safety.Walk.{RepositoryFile}
use remedy_graph.Audit.Checks.Documents.{
  Tree, KeyPath, flatten, Assignment, statement, call_argument, keyword, Node, call, loaded, Module,
}
use remedy_graph.Audit.Checks.Keys.{
  CheckTools, posix, dotted, last_text, normalize_key, find_key_line,
}

-- (source_path, key, value, line)
pub record Located : Type 0 where
  pub source_path : String
  pub key : String
  pub value : Scalar
  pub line : ℕ

-- (source_path, line, excerpt, proof_kind)
pub record Use : Type 0 where
  pub source_path : String
  pub line : ℕ
  pub excerpt : String
  pub proof_kind : String

-- (source_path, symbol, line_start, line_end, excerpt)
pub record TestMatch : Type 0 where
  pub source_path : String
  pub symbol : String
  pub line_start : ℕ
  pub line_end : ℕ
  pub excerpt : String

-- isinstance(exc, (ValueError, TypeError)): `UnicodeDecodeError` is a `ValueError`
unfoldable pub is_value_or_type_error : Error → Bool
is_value_or_type_error (value_error m) = true
is_value_or_type_error (state_integrity m) = true
is_value_or_type_error (path_safety m) = true
is_value_or_type_error (guard_safety m) = true
is_value_or_type_error (type_error m) = true
is_value_or_type_error _ = false

-- except (ValueError, TypeError, yaml.YAMLError)
abbrev pub is_unreadable : Error → Bool
is_unreadable (yaml_error m) = true
is_unreadable e = is_value_or_type_error e

abbrev pub is_syntax_error : Error → Bool
is_syntax_error (syntax_error m) = true
is_syntax_error _ = false

-- the value of a `try`, or the default for an exception that its `except` catches
unfoldable pub skipping : {A : Type 0} → (Error → Bool) → A → Result A → Result A
skipping caught default (ok a) = ok a
skipping caught default (err e) = if caught e then ok default else err e

abbrev pub concat : {A : Type 0} → List (List A) → List A
concat [] = []
concat (xs ∷ more) = xs ++ concat more

-- the results of a loop over the files
unfoldable pub collect : {A B : Type 0} → (A → Result (List B)) → List A → Result (List B)
collect f [] = ok []
collect f (x ∷ xs) = do ok ((← f x) ++ (← collect f xs))

abbrev pub names_of : List (Option String) → List String
names_of [] = []
names_of (none ∷ targets) = names_of targets
names_of (some id ∷ targets) = id ∷ names_of targets

abbrev pub configuration_suffixes : List String
configuration_suffixes = ".json" ∷ ".toml" ∷ ".yaml" ∷ ".yml" ∷ []

module _ (tools : CheckTools) where
  abbrev pub suffix_of : RepositoryFile → String
  suffix_of file = tools.lower (tools.suffix file)

  -- the parser for a suffix
  unfoldable pub parse_by : String → String → Result Tree
  parse_by suffix text =
      if suffix == ".json"
      then tools.parse_json text
      else if suffix == ".toml"
      then tools.parse_toml text
      else tools.parse_yaml text

  -- the constants that a module assigns to names
  abbrev assigned : String → Assignment → List Located
  assigned source_path a = elim a.value [
    | none ↦ []
    | some value ↦
        map (λ id. record { source_path = source_path; key = id; value = value; line = a.lineno })
          (names_of a.targets)
  ]

  unfoldable pub python_values : String → Module → List Located
  python_values source_path m = concat (map (assigned source_path) m.assignments)

  unfoldable pub tree_values : String → String → Tree → List Located
  tree_values source_path text tree =
      map
        (λ (x : KeyPath × Scalar). record {
          source_path = source_path;
          key = dotted x.0;
          value = x.1;
          line = find_key_line tools text (last_text x.0);
        })
        (flatten tree [])

  -- the body of the loop of `_configuration_values`
  unfoldable pub file_values : RepositoryFile → Result (List Located)
  unfolding python_values tree_values skipping
  file_values file =
      let suffix = suffix_of file in
      let source_path = posix file.source_path in
      let python = tools.read_text file >>= λ text.
      tools.parse_python text >>= λ m. ok (python_values source_path m) in
      let parsed = tools.read_text file >>= λ text.
      parse_by suffix text >>= λ tree. ok (tree_values source_path text tree) in
      if suffix == ".py"
      then skipping is_syntax_error [] python
      else if member suffix configuration_suffixes
      then skipping is_unreadable [] parsed
      else ok []

  unfoldable pub configuration_values : List RepositoryFile → Result (List Located)
  configuration_values files = collect file_values files

  -- the kind of proof that a node is
  unfoldable pub proof_kind : Node → Option (String × ℕ × String)
  proof_kind (call function line) = some (function, line, "call")
  proof_kind (loaded text (some statement) line) = some (text, line, "wiring")
  proof_kind (loaded text (some call_argument) line) = some (text, line, "wiring")
  proof_kind (loaded text (some keyword) line) = some (text, line, "wiring")
  proof_kind _ = none

  -- lines[line - 1].strip()
  abbrev line_at : List String → ℕ → String
  line_at lines line = elim (get_elem? lines (line - 1)) [
    | none ↦ ""
    | some text ↦ tools.strip text
  ]

  abbrev same_use : Use → Use → Bool
  same_use a b =
      a.source_path == b.source_path
      && eqb a.line b.line
      && a.excerpt == b.excerpt
      && a.proof_kind == b.proof_kind

  -- found[term].append(match), for each term that occurs; twice only if `again`
  unfoldable pub note : Bool → String → Use → Dict (List Use) → Dict (List Use)
  note again haystack u [] = []
  note again haystack u ((term, uses) ∷ found) =
      let rest = note again haystack u found in
      if is_in term haystack && (again || not (any (same_use u) uses))
      then (term, uses ++ u ∷ []) ∷ rest
      else (term, uses) ∷ rest

  unfoldable pub scan_node : String → List String → Node → Dict (List Use) → Dict (List Use)
  scan_node source_path lines node found = elim (proof_kind node) [
    | none ↦ found
    | some (value, line, kind) ↦
        note false (normalize_key tools value)
          (record {
            source_path = source_path;
            line = line;
            excerpt = line_at lines line;
            proof_kind = kind;
          })
          found
  ]

  unfoldable pub scan_nodes : String → List String → List Node → Dict (List Use) → Dict (List Use)
  scan_nodes source_path lines [] found = found
  scan_nodes source_path lines (node ∷ nodes) found =
      scan_nodes source_path lines nodes (scan_node source_path lines node found)

  -- `_scan_python`
  unfoldable pub scan_python : RepositoryFile → Dict (List Use) → Result (Dict (List Use))
  unfolding scan_nodes scan_node skipping
  scan_python file found = tools.read_text file >>= λ source. skipping is_syntax_error found (
      tools.parse_python source >>= λ m.
      ok (scan_nodes (posix file.source_path) (tools.splitlines source) m.nodes found))

  -- value in {None, False, 0, ""}
  unfoldable pub is_disabled : Scalar → Result Bool
  is_disabled none_value = ok true
  is_disabled (boolean b) = ok (not b)
  is_disabled (numeral (integer negative n)) = ok (eqb n 0)
  is_disabled (numeral (floating (finite negative n))) = ok (eqb n.mantissa 0)
  is_disabled (numeral (floating x)) = ok false
  is_disabled (string s) = ok (s == "")
  is_disabled (other s) = ok false
  is_disabled (unhashable s) = err (type_error "unhashable type")

  -- a text that names its key or a term says nothing
  unfoldable pub is_name : String → List String → Scalar → Bool
  is_name key terms (string s) = member (normalize_key tools s) (normalize_key tools key ∷ terms)
  is_name key terms _ = false

  unfoldable pub scan_leaf :
      String → String → KeyPath × Scalar → Dict (List Use) → Result (Dict (List Use))
  scan_leaf source_path text (path, value) found =
      let key = dotted path in
      is_disabled value >>= λ disabled. ok (
        if disabled || is_name key (map (λ (r : String × List Use). r.0) found) value
        then found
        else note true (normalize_key tools key)
            (record {
              source_path = source_path;
              line = find_key_line tools text (last_text path);
              excerpt = key <> " = " <> tools.repr value;
              proof_kind = "enabled_configuration";
            })
            found)

  unfoldable pub scan_leaves :
      String → String → List (KeyPath × Scalar) → Dict (List Use) → Result (Dict (List Use))
  scan_leaves source_path text [] found = ok found
  scan_leaves source_path text (leaf ∷ leaves) found =
      scan_leaf source_path text leaf found >>= scan_leaves source_path text leaves

  -- what the parser gave, if it did not raise
  unfoldable pub scan_tree :
      String → String → Option Tree → Dict (List Use) → Result (Dict (List Use))
  scan_tree source_path text none found = ok found
  scan_tree source_path text (some tree) found =
      scan_leaves source_path text (flatten tree []) found

  -- `_scan_configured_use`
  unfoldable pub scan_configured_use : RepositoryFile → Dict (List Use) → Result (Dict (List Use))
  unfolding scan_tree scan_leaves scan_leaf skipping
  scan_configured_use file found =
      let suffix = suffix_of file in
      tools.read_text file >>= λ text.
      if member suffix configuration_suffixes
      then (skipping is_unreadable none (parse_by suffix text >>= λ tree. ok (some tree))
          >>= λ parsed. scan_tree (posix file.source_path) text parsed found)
      else ok found
