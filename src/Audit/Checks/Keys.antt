-- ===== src/Audit/Checks/Keys.antt =====
-- backend/app/audit/checks.py: keys, terms and numbers, and the paths of tests. What the checks ask
-- of Python's `str`, `re` and `pathlib`, of the parsers, and of `redact_text` is a record of functions.
use Prim.Native.String.{◌++◌ as ◌<>◌, slice, len}
use text.Mathlib.Text.{starts_with}
use remedy_graph.Prelude.{
  ℕ, zero, suc, ◌-◌, ◌*◌, String, Option, none, some, List, [], ◌∷◌, map, filter, any, member, not,
  Bool, true, false, ◌&&◌, ◌||◌, ◌==◌, leb, eqb, lookup, if◌then◌else◌,
}
use remedy_graph.Result.{type_error, Result, ok, err}
use remedy_graph.Ids.{join, str}
use remedy_graph.Audit.Compiler.Terms.{is_in}
use remedy_graph.Audit.Contracts.{
  Number, Float, finite, infinite, Numeral, integer, floating, Scalar, Value, CheckOperator, equals,
  less_than_or_equal, greater_than_or_equal, exists,
}
use remedy_graph.Rag.Safety.Walk.{RepositoryFile}
use remedy_graph.Audit.Checks.Documents.{Tree, Module, PathPart, name_part, index_part, KeyPath}

-- `letters_and_digits` is `re.sub(r"[^a-z0-9]", "", …)`, `suffix` and `name` are those of a path,
-- `has_key` is the search of `_find_key_line`, `words` that of `_test_query`, `show` and `repr` print
-- a leaf. `float_of_integer` is `float` of an int, which raises for a large one; `times` and `over`
-- are the rounded product and quotient of a float and an int. A read and a parse may raise.
pub record CheckTools : Type 0 where
  pub lower : String → String
  pub letters_and_digits : String → String
  pub strip : String → String
  pub splitlines : String → List String
  pub split : String → List String
  pub words : String → List String
  pub suffix : RepositoryFile → String
  pub name : String → String
  pub has_key : String → String → Bool
  pub show : Scalar → String
  pub repr : Scalar → String
  pub redact_text : String → String
  pub read_text : RepositoryFile → Result String
  pub parse_python : String → Result Module
  pub parse_json : String → Result Tree
  pub parse_toml : String → Result Tree
  pub parse_yaml : String → Result Tree
  pub float_of_integer : Bool → ℕ → Result Float
  pub times : Float → ℕ → Float
  pub over : Float → ℕ → Float

-- text.endswith(part)
abbrev pub ends_with : String → String → Bool
ends_with text part =
    leb (len part) (len text) && (slice text (len text - len part) (len text) == part)

-- a path in the spelling of `as_posix`
abbrev pub posix : List String → String
posix path = join "/" path

-- the text of a part of a path
abbrev pub part_text : PathPart → String
part_text (name_part k) = k
part_text (index_part n) = str n

-- ".".join(str(part) for part in key)
abbrev pub dotted : KeyPath → String
dotted path = join "." (map part_text path)

-- `str(key[-1]) if key else ""`
unfoldable pub last_text : KeyPath → String
last_text [] = ""
last_text (part ∷ []) = part_text part
last_text (part ∷ next ∷ parts) = last_text (next ∷ parts)

-- the first line that passes the test, from number `n` on, else 1
unfoldable pub first_line : (String → Bool) → ℕ → List String → ℕ
first_line p n [] = 1
first_line p n (line ∷ lines) = let rest = first_line p (suc n) lines in if p line then n else rest

-- 10 ** n
abbrev pub power : ℕ → ℕ
power zero = 1
power (suc n) = 10 * power n

-- a * 10 ** (scale of b), to compare decimals exactly
abbrev pub scaled : Number → Number → ℕ
scaled a b = a.mantissa * power b.scale

abbrev pub number_leb : Number → Number → Bool
number_leb a b = leb (scaled a b) (scaled b a)

-- the order of finite floats, by their signs and values
abbrev finite_leb : Bool → Number → Bool → Number → Bool
finite_leb false a false b = number_leb a b
finite_leb true a true b = number_leb b a
finite_leb true a false b = true
finite_leb false a true b = eqb a.mantissa 0 && eqb b.mantissa 0

-- a <= b
abbrev pub float_leb : Float → Float → Bool
float_leb (finite s a) (finite t b) = finite_leb s a t b
float_leb (finite s a) (infinite t) = not t
float_leb (infinite s) (finite t b) = s
float_leb (infinite s) (infinite t) = s || not t
float_leb _ _ = false

-- `_compare`: nothing compares with what is not a number
unfoldable pub compare_number : Float → Float → CheckOperator → Bool
compare_number actual expected equals = float_leb actual expected && float_leb expected actual
compare_number actual expected less_than_or_equal = float_leb actual expected
compare_number actual expected greater_than_or_equal = float_leb expected actual
compare_number actual expected exists = true

-- `[str(value) for value in parameters.get(name, [])]`. The compiler writes lists of texts; a text,
-- which Python would take apart into characters, is refused like the values that are no list.
unfoldable pub text_list : Option Value → Result (List String)
text_list none = ok []
text_list (some (Value.texts xs)) = ok xs
text_list (some _) = err (type_error "object is not iterable")

module _ (tools : CheckTools) where
  -- `_normalize_key`
  unfoldable pub normalize_key : String → String
  normalize_key value = tools.letters_and_digits (tools.lower value)

  -- `_key_matches`
  unfoldable pub key_matches : String → List String → Bool
  unfolding normalize_key
  key_matches key candidates =
      any (λ candidate. ends_with (normalize_key key) (normalize_key candidate)) candidates

  -- float(value)
  unfoldable pub as_float : Numeral → Result Float
  as_float (integer negative n) = tools.float_of_integer negative n
  as_float (floating x) = ok x

  -- `_expected_for_key`
  unfoldable pub expected_for_key : Float → Option String → String → Float
  expected_for_key expected none key = expected
  expected_for_key expected (some unit) key =
      let lowered = tools.lower key in
      if unit == "seconds" && (ends_with lowered "_ms" || is_in "milliseconds" lowered)
      then tools.times expected 1000
      else if unit == "minutes" && (ends_with lowered "_seconds" || ends_with lowered "_secs")
      then tools.times expected 60
      else if unit == "percent" && is_in "ratio" lowered
      then tools.over expected 100
      else expected

  -- `_find_key_line`
  unfoldable pub find_key_line : String → String → ℕ
  find_key_line text key =
      first_line (λ line. tools.has_key key (tools.strip line)) 1 (tools.splitlines text)

  -- `_is_test`
  unfoldable pub is_test : String → Bool
  is_test source_path =
      let lowered = tools.lower source_path in
      let name = tools.lower (tools.name source_path) in
      starts_with name "test_"
      || ends_with name "_test.py"
      || is_in "/tests/" ("/" <> lowered <> "/")

  -- stems.get(term, term)
  abbrev pub stem_or : List (String × String) → String → String
  stem_or stems term = elim (lookup term stems) [ none ↦ term | some stem ↦ stem ]

  -- `_test_query`
  unfoldable pub test_query : String → String
  test_query value =
      let stop = "a" ∷ "add" ∷ "an" ∷ "for" ∷ "regression" ∷ "the" ∷ "to" ∷ "with" ∷ [] in
      let kept = filter (λ term. not (member (tools.lower term) stop)) (tools.words value) in
      join " " (
        map (λ term. stem_or (("retries", "retry") ∷ ("tests", "test") ∷ []) (tools.lower term))
          kept)

  -- `_test_term`
  unfoldable pub test_term : String → String
  unfolding normalize_key
  test_term value =
      stem_or (("recovery", "recover") ∷ ("retries", "retry") ∷ ("tests", "test") ∷ [])
        (normalize_key value)
