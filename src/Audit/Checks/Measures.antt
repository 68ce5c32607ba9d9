-- ===== src/Audit/Checks/Measures.antt =====
-- backend/app/audit/checks.py: when a configuration check passes.
use remedy_graph.Prelude.{
  String, Option, some, none, List, [], ◌∷◌, ◌++◌, any, all, is_empty, not, Bool, true, false, ◌&&◌,
  ◌||◌, ◌≡◌, ◌↔◌, refl, sym, arith, lookup, inl, inr, Bool-cases,
}
use remedy_graph.Result.{Result, ok, err, is_ok, result_cases, ◌>>=◌}
use remedy_graph.Audit.Contracts.{
  Float, Numeral, Scalar, numeral, none_value, boolean, string, other, unhashable, CheckOutcome,
  DeterministicCheckSpec, CheckExecution,
}
use remedy_graph.Rag.Safety.Walk.{RepositoryFile}
use remedy_graph.Audit.Checks.Keys.{
  CheckTools, text_list, key_matches, as_float, expected_for_key, compare_number,
}
use remedy_graph.Audit.Checks.Scan.{Located, collect, file_values, configuration_values}
use remedy_graph.Audit.Checks.Runner.{
  Measured, expected_number, judge, with_measured, measured_by, measure, measured_execution,
}
use remedy_graph.Audit.Checks.Run.{configuration}

any-append :
    {A : Type 0} (p : A → Bool) (xs ys : List A) → any p (xs ++ ys) ≡ (any p xs || any p ys)
any-append p [] ys = refl
any-append p (x ∷ xs) ys = ground (arith, any-append p xs ys)

all-append :
    {A : Type 0} (p : A → Bool) (xs ys : List A) → all p (xs ++ ys) ≡ (all p xs && all p ys)
all-append p [] ys = refl
all-append p (x ∷ xs) ys = ground (arith, all-append p xs ys)

is_empty-append : {A : Type 0} (xs ys : List A) → is_empty (xs ++ ys) ≡ (is_empty xs && is_empty ys)
is_empty-append [] ys = refl
is_empty-append (x ∷ xs) ys = refl

module _ (sha256_hex : String → String) (tools : CheckTools) (spec : DeterministicCheckSpec)
    (run_id action_id : String) (candidates : List String) (wanted : Float) where
  -- the value is a number
  abbrev is_number : Scalar → Bool
  is_number (numeral x) = true
  is_number _ = false

  -- the value is a number under a key that the check looks for
  abbrev pub is_relevant : Located → Bool
  is_relevant v = key_matches tools v.key candidates && is_number v.value

  abbrev is_convertible : Scalar → Bool
  is_convertible (numeral x) = is_ok (as_float tools x)
  is_convertible _ = true

  -- `float` of the value, if it is compared, does not overflow
  abbrev pub converts : Located → Bool
  converts v = not (is_relevant v) || is_convertible v.value

  -- the float compares with what is expected, in the unit of its key
  abbrev compares : Result Float → String → Bool
  compares (ok actual) key =
      compare_number actual (expected_for_key tools wanted spec.unit key) spec.operator
  compares (err e) key = false

  abbrev satisfied_by : Scalar → String → Bool
  satisfied_by (numeral x) key = compares (as_float tools x) key
  satisfied_by _ key = false

  -- every relevant value compares
  abbrev pub holds : Located → Bool
  holds v = not (is_relevant v) || satisfied_by v.value v.key

  -- what the measured values tell of the values
  abbrev IsMeasured : List Located → List Measured → Type 0
  IsMeasured values ms =
      (is_empty ms ≡ not (any is_relevant values))
      × (all (λ (m : Measured). m.passed) ms ≡ all holds values)

  IsMeasured-append :
      (xs ys : List Located) (ms ns : List Measured)
      → IsMeasured xs ms
      → IsMeasured ys ns
      → IsMeasured (xs ++ ys) (ms ++ ns)
  IsMeasured-append xs ys ms ns h k = ground (
    arith,
    any-append is_relevant xs ys,
    all-append holds xs ys,
    is_empty-append ms ns,
    all-append (λ (m : Measured). m.passed) ms ns,
  )

  module _ (expected : Numeral) (expects : as_float tools expected ≡ ok wanted) where
    -- a value whose key matches
    AddsTo : Scalar → Located → Option Measured → Type 0
    AddsTo value v m =
        (rest : List Measured)
        → (is_empty (with_measured m rest) ≡ (not (is_number value) && is_empty rest))
          × (all (λ (x : Measured). x.passed) (with_measured m rest) ≡ (
              (not (is_number value) || satisfied_by value v.key)
              && all (λ (x : Measured). x.passed) rest))

    measured_by-AddsTo :
        (value : Scalar) (v : Located)
        → is_convertible value ≡ true
        → (m : Option Measured) × (measured_by sha256_hex spec run_id action_id tools expected value
              v
            ≡ ok m)
          × AddsTo value v m
    unfolding measured_by AddsTo
    measured_by-AddsTo (numeral x) v h = elim (result_cases (as_float tools x)) [
      | inl (e, k) ↦ absurd (ground arith)
      | inr (actual, k) ↦ (
        some (record {
          located = v;
          passed =
              compare_number actual (expected_for_key tools wanted spec.unit v.key) spec.operator;
        }),
        rw (expects, k),
        λ rest. (refl, rw k),
      )
    ]
    measured_by-AddsTo none_value v h = (none, refl, λ rest. (refl, refl))
    measured_by-AddsTo (boolean b) v h = (none, refl, λ rest. (refl, refl))
    measured_by-AddsTo (string s) v h = (none, refl, λ rest. (refl, refl))
    measured_by-AddsTo (other s) v h = (none, refl, λ rest. (refl, refl))
    measured_by-AddsTo (unhashable s) v h = (none, refl, λ rest. (refl, refl))

    measure-IsMeasured :
        (values : List Located)
        → all converts values ≡ true
        → (ms : List Measured) × (measure sha256_hex spec run_id action_id tools candidates expected
              values
            ≡ ok ms)
          × IsMeasured values ms
    unfolding measure AddsTo
    measure-IsMeasured [] h = ([], refl, (refl, refl))
    measure-IsMeasured (v ∷ values) h =
        let (ns, e, told) = measure-IsMeasured values (ground arith) in
        elim (Bool-cases (key_matches tools v.key candidates)) [
          | inr k ↦ (ns, rw (k, e), rw k told)
          | inl k ↦
              let (m, f, adds) = measured_by-AddsTo v.value v (ground arith) in
              (with_measured m ns, rw (k, f, e), rw k (ground (arith, adds ns, told)))
        ]

    -- the loop over the files
    files-IsMeasured :
        (files : List RepositoryFile) (values : List Located)
        → configuration_values tools files ≡ ok values
        → all converts values ≡ true
        → (ms : List Measured) × (collect
              (λ file.
                file_values tools file
                >>= measure sha256_hex spec run_id action_id tools candidates expected)
              files
            ≡ ok ms)
          × IsMeasured values ms
    unfolding configuration_values collect
    files-IsMeasured [] values h c =
        let e : [] ≡ values = ground arith in ([], refl, rw (sym e) (refl, refl))
    files-IsMeasured (file ∷ files) values h c = elim (result_cases (file_values tools file)) [
      | inl (z, e) ↦ absurd (ground arith)
      | inr (xs, e) ↦ elim (result_cases (configuration_values tools files)) [
        | inl (z, f) ↦ absurd (ground arith)
        | inr (ys, f) ↦
            let same : xs ++ ys ≡ values = ground arith in
            let split = all-append converts xs ys in
            let (ms, g, told) = measure-IsMeasured xs (ground (arith, split, same)) in
            let (ns, k, more) = files-IsMeasured files ys f (ground (arith, split, same)) in
            (ms ++ ns, rw (e, g, k), rw (sym same) (IsMeasured-append xs ys ms ns told more))
      ]
    ]

  judge-passed :
      (ms : List Measured)
      → ((judge sha256_hex spec run_id action_id tools ms).outcome ≡ CheckOutcome.passed)
        ↔ ((is_empty ms ≡ false) × (all (λ (m : Measured). m.passed) ms ≡ true))
  unfolding judge
  judge-passed [] = ground arith
  judge-passed (m ∷ ms) = ground arith

  judge-failed :
      (ms : List Measured)
      → ((judge sha256_hex spec run_id action_id tools ms).outcome ≡ CheckOutcome.failed)
        ↔ (all (λ (m : Measured). m.passed) ms ≡ false)
  unfolding judge
  judge-failed [] = ground arith
  judge-failed (m ∷ ms) = ground arith

module _ (sha256_hex : String → String) (tools : CheckTools) (set_order : List String → List String)
    (files : List RepositoryFile) (spec : DeterministicCheckSpec) (run_id action_id : String) where
  -- With candidates and a number, a configuration check of values that can be read returns, if the
  -- expected number and the numbers under a matching key can be converted to floats. It passes
  -- exactly when there is a number under a matching key and every such number compares, and it fails
  -- exactly when one does not.
  pub configuration-outcome :
      (candidates : List String) (expected : Numeral) (wanted : Float) (values : List Located)
      → text_list (lookup "key_candidates" spec.parameters) ≡ ok candidates
      → is_empty candidates ≡ false
      → expected_number spec.expected ≡ some expected
      → as_float tools expected ≡ ok wanted
      → configuration_values tools files ≡ ok values
      → all (converts sha256_hex tools spec run_id action_id candidates wanted) values ≡ true
      → (x : CheckExecution) × (configuration sha256_hex tools set_order files spec run_id action_id
          ≡ ok x)
        × ((x.result.outcome ≡ CheckOutcome.passed) ↔ (
            (any (is_relevant sha256_hex tools spec run_id action_id candidates wanted) values
              ≡ true)
            × (all (holds sha256_hex tools spec run_id action_id candidates wanted) values ≡ true)))
        × ((x.result.outcome ≡ CheckOutcome.failed)
            ↔ (all (holds sha256_hex tools spec run_id action_id candidates wanted) values ≡ false))
  unfolding configuration measured_execution
  configuration-outcome candidates expected wanted values c n e w v fits =
      let (ms, measured, told) =
        files-IsMeasured sha256_hex tools spec run_id action_id candidates wanted expected w files
          values v fits in
      (
        measured_execution sha256_hex spec run_id action_id tools ms,
        rw (c, n, e, measured),
        ground
            (arith, judge-passed sha256_hex tools spec run_id action_id candidates wanted ms, told),
        ground
            (arith, judge-failed sha256_hex tools spec run_id action_id candidates wanted ms, told),
      )
