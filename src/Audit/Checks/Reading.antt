-- ===== src/Audit/Checks/Reading.antt =====
-- backend/app/audit/checks.py: what reading, parsing and `float` may raise, and that the values and
-- the tests of files raise no more.
use remedy_graph.Prelude.{Bool, true, false, ◌||◌, arith}
use remedy_graph.Result.{Error, overflow_error}
use remedy_graph.Audit.Checks.Scan.{skipping, is_syntax_error, is_unreadable}
use remedy_graph.Audit.Checks.Run.{is_caught}
use remedy_graph.Audit.Checks.Safe.{Raises, Raises-weaken, IsSafe-skipping}
use remedy_graph.Audit.Checks.Scan.{python_values, tree_values, parse_by}
use remedy_graph.Prelude.{ℕ, ◌==◌, String, List, [], member, ◌≡◌, refl}
use remedy_graph.Result.{Result, ok, ◌>>=◌}
use remedy_graph.Rag.Safety.Walk.{RepositoryFile}
use remedy_graph.Audit.Checks.Keys.{CheckTools, posix}
use remedy_graph.Audit.Checks.Scan.{suffix_of, configuration_suffixes, file_values}
use remedy_graph.Audit.Checks.TestSearch.{structural_test_matches, test_matches}
use remedy_graph.Audit.Checks.Run.{caught}
use remedy_graph.Audit.Checks.Safe.{IsSafe, IsSafe-ok, IsSafe-if, IsSafe-bind, IsSafe-collect}

-- `float` of an int raises at most an OverflowError.
abbrev pub is_overflow : Error → Bool
is_overflow (overflow_error m) = true
is_overflow _ = false

-- Reading a file raises at most what `run` catches; so does parsing, beside the exceptions of the
-- parsers that are caught where they are called.
pub record IsRegular (tools : CheckTools) : Type 0 where
  pub reads : (file : RepositoryFile) → IsSafe (tools.read_text file)
  pub python :
      (text : String) → Raises (λ e. is_syntax_error e || is_caught e) (tools.parse_python text)
  pub json : (text : String) → Raises (λ e. is_unreadable e || is_caught e) (tools.parse_json text)
  pub toml : (text : String) → Raises (λ e. is_unreadable e || is_caught e) (tools.parse_toml text)
  pub yaml : (text : String) → Raises (λ e. is_unreadable e || is_caught e) (tools.parse_yaml text)
  pub floats : (negative : Bool) (n : ℕ) → Raises is_overflow (tools.float_of_integer negative n)

pub overflow-cases : (e : Error) → is_overflow e ≡ true → (m : String) × (e ≡ overflow_error m)
overflow-cases (overflow_error m) h = (m, refl)
overflow-cases e h = absurd (ground arith)

pub caught_or : (p : Error → Bool) (e : Error) → is_caught e ≡ true → (p e || is_caught e) ≡ true
caught_or p e h = ground arith

-- what a configuration check may raise
abbrev pub may_leave : Error → Bool
may_leave e = is_overflow e || is_caught e

module _ (tools : CheckTools) (regular : IsRegular tools) where
  pub IsSafe-read :
      {A : Type 0} (file : RepositoryFile) (f : String → Result A)
      → ((text : String) → IsSafe (f text))
      → IsSafe (tools.read_text file >>= f)
  IsSafe-read file f h = IsSafe-bind (tools.read_text file) _ (regular.reads file) h

  -- a parse in a `try`
  pub IsSafe-parse :
      {A B : Type 0} (caught : Error → Bool) (default : B) (r : Result A) (f : A → B)
      → Raises (λ e. caught e || is_caught e) r
      → IsSafe (skipping caught default (r >>= λ a. ok (f a)))
  IsSafe-parse caught default r f h =
      IsSafe-skipping caught default _ (IsSafe-bind r _ h (λ a. IsSafe-ok (f a)))

  -- a read and a parse in a `try`
  pub IsSafe-try :
      {A B : Type 0} (caught : Error → Bool) (default : B) (file : RepositoryFile)
      (parse : String → Result A) (f : String → A → B)
      → ((text : String) → Raises (λ e. caught e || is_caught e) (parse text))
      → IsSafe (
          skipping caught default
            (tools.read_text file >>= λ text. parse text >>= λ a. ok (f text a)))
  IsSafe-try caught default file parse f h = IsSafe-skipping caught default _ (
      IsSafe-bind (tools.read_text file) _
        (Raises-weaken (tools.read_text file) (caught_or caught) (regular.reads file))
        (λ text. IsSafe-bind (parse text) _ (h text) (λ a. IsSafe-ok (f text a))))

  pub Raises-parse_by :
      (suffix text : String)
      → Raises (λ e. is_unreadable e || is_caught e) (parse_by tools suffix text)
  unfolding parse_by
  Raises-parse_by suffix text =
      IsSafe-if (suffix == ".json") _ _ (regular.json text)
        (IsSafe-if (suffix == ".toml") _ _ (regular.toml text) (regular.yaml text))

  pub IsSafe-file_values : (file : RepositoryFile) → IsSafe (file_values tools file)
  unfolding file_values
  IsSafe-file_values file =
      let suffix = suffix_of tools file in
      let source_path = posix file.source_path in
      IsSafe-if (suffix == ".py") _ _
        (IsSafe-try is_syntax_error [] file tools.parse_python
          (λ text. python_values tools source_path) regular.python)
        (IsSafe-if (member suffix configuration_suffixes) _ _
          (IsSafe-try is_unreadable [] file (parse_by tools suffix) (tree_values tools source_path)
            (Raises-parse_by suffix))
          (IsSafe-ok []))

  pub IsSafe-tests :
      (set_order : List String → List String) (files : List RepositoryFile) (terms : List String)
      → IsSafe (test_matches tools set_order files terms)
  unfolding test_matches structural_test_matches
  IsSafe-tests set_order files terms = IsSafe-collect _ _ (λ file. IsSafe-read file _ (λ source.
      IsSafe-parse is_syntax_error [] (tools.parse_python source) _ (regular.python source)))
