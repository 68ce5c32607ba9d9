-- ===== src/Audit/Compiler/Terms.antt =====
-- backend/app/audit/compiler.py: the helpers that read the words of an action.
use Prim.Native.String.{◌++◌ as ◌<>◌, count}
use text.Mathlib.Text.{starts_with, find?}
use remedy_graph.Prelude.{
  String, Option, none, some, List, [], ◌∷◌, ◌++◌, map, filter, member, from_keys, take, leb, not,
  Bool, true, false, ◌&&◌, ◌||◌, ◌==◌, if◌then◌else◌,
}
use remedy_graph.Audit.Contracts.{
  Number, CheckOperator, equals, less_than_or_equal, greater_than_or_equal, exists,
}

-- What is used of Python's `str` and `re`: `lower` and `strip`; `find_number` is the first match of
-- `_NUMBER` with its value as a decimal, `format` prints such a value; `mentions_…` search the
-- patterns of the class; `words` finds all identifiers.
pub record TextTools : Type 0 where
  pub lower : String → String
  pub strip : String → String
  pub format : Number → String
  pub find_number : String → Option (Number × Option String)
  pub mentions_runtime : String → Bool
  pub mentions_test : String → Bool
  pub mentions_code : String → Bool
  pub mentions_at_most : String → Bool
  pub mentions_at_least : String → Bool
  pub words : String → List String

-- part in text
abbrev pub is_in : String → String → Bool
is_in part text = elim (find? text part) [ none ↦ false | some n ↦ true ]

-- `_KEY_FAMILIES`
abbrev pub key_families : List (String × List String)
key_families =
    ("retr", "max_retries" ∷ "retry_limit" ∷ "max_attempts" ∷ "attempts" ∷ [])
    ∷ ("attempt", "max_attempts" ∷ "attempts" ∷ "retry_limit" ∷ [])
    ∷ ("timeout", "timeout" ∷ "timeout_ms" ∷ "timeout_seconds" ∷ "request_timeout" ∷ [])
    ∷ ("deadline", "deadline" ∷ "timeout" ∷ "timeout_ms" ∷ "timeout_seconds" ∷ [])
    ∷ ("queue", "queue_capacity" ∷ "maxsize" ∷ "max_size" ∷ "capacity" ∷ [])
    ∷ ("capacity", "capacity" ∷ "max_capacity" ∷ "queue_capacity" ∷ "maxsize" ∷ [])
    ∷ ("concurrency", "concurrency" ∷ "max_concurrency" ∷ "worker_limit" ∷ [])
    ∷ ("ttl", "ttl" ∷ "retention" ∷ "retention_seconds" ∷ [])
    ∷ ("retention", "retention" ∷ "ttl" ∷ "retention_seconds" ∷ [])
    ∷ ("threshold", "threshold" ∷ "alert_threshold" ∷ [])
    ∷ ("alert", "threshold" ∷ "alert_threshold" ∷ "for" ∷ [])
    ∷ ("rate", "rate_limit" ∷ "requests_per_minute" ∷ "quota" ∷ [])
    ∷ []

-- the loop of `_key_candidates`
unfoldable pub family_keys : String → List (String × List String) → List String
family_keys lowered [] = []
family_keys lowered ((term, keys) ∷ families) =
    let rest = family_keys lowered families in if is_in term lowered then keys ++ rest else rest

abbrev pub stop_words : List String
stop_words =
    "a" ∷ "an" ∷ "and" ∷ "add" ∷ "all" ∷ "at" ∷ "be" ∷ "for" ∷ "from" ∷ "in" ∷ "into" ∷ "is" ∷ "of"
    ∷ "on" ∷ "or" ∷ "the" ∷ "to" ∷ "use" ∷ "with" ∷ "while" ∷ "block" ∷ "create" ∷ "enable"
    ∷ "enforce" ∷ "implement" ∷ "remove" ∷ "return" ∷ "route" ∷ "serve" ∷ "validate" ∷ []

abbrev pub relation : CheckOperator → String
relation equals = "equal"
relation less_than_or_equal = "at most"
relation greater_than_or_equal = "at least"
relation exists = "present as"

abbrev pub unit_suffix : Option String → String
unit_suffix none = ""
unit_suffix (some unit) = if unit == "" then "" else " " <> unit

module _ (tools : TextTools) where
  unfoldable pub operator : String → CheckOperator
  operator text =
      let lowered = tools.lower text in
      if tools.mentions_at_most lowered
      then less_than_or_equal
      else if tools.mentions_at_least lowered
      then greater_than_or_equal
      else equals

  unfoldable pub normalize_unit : Option String → Option String
  normalize_unit none = none
  normalize_unit (some unit) =
      let lowered = tools.lower unit in
      if member lowered ("millisecond" ∷ "milliseconds" ∷ "msec" ∷ "msecs" ∷ "ms" ∷ [])
      then some "milliseconds"
      else if member lowered ("second" ∷ "seconds" ∷ "sec" ∷ "secs" ∷ "s" ∷ [])
      then some "seconds"
      else if member lowered ("minute" ∷ "minutes" ∷ "min" ∷ "mins" ∷ [])
      then some "minutes"
      else if member lowered ("%" ∷ "percent" ∷ [])
      then some "percent"
      else if starts_with lowered "retr" || starts_with lowered "attempt"
      then some "attempts"
      else some lowered

  unfoldable pub key_candidates : String → List String
  unfolding family_keys
  key_candidates text = from_keys (family_keys (tools.lower text) key_families)

  unfoldable pub meaningful_terms : String → List String
  meaningful_terms text = take 8 (
      from_keys (
        map tools.lower (
          filter (λ token. not (member (tools.lower token) stop_words) && leb 3 (count token))
            (tools.words text))))
