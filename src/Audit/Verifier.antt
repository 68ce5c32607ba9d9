-- ===== src/Audit/Verifier.antt =====
-- backend/app/audit/verifier.py: the verdict on one action, and the coverage of an audit.
pub mod Lists
pub mod Laws
pub mod Branches
pub mod Citations
use remedy_graph.Prelude.{
  ℕ, ◌+◌, ◌*◌, ◌/◌, ◌%◌, String, List, [], ◌∷◌, ◌++◌, map, filter, all, member, is_empty, not, Bool,
  true, false, any, length, ◌&&◌, ◌||◌, ◌==◌, ltb, eqb, from_keys, if◌then◌else◌,
}
use remedy_graph.Result.{value_error, Result, ok, err}
use remedy_graph.Ids.{stable_id}
use remedy_graph.Models.{
  Verdict, verified, partial, missing, unverifiable, EvidenceKind, ActionItem,
}
use remedy_graph.Audit.Contracts.{
  RequirementKind, CheckOutcome, passed, failed, not_found, error, unsupported, unavailable,
  EvidenceRole, CompiledInvariant, EvidenceCitation, EvidenceRecord, citation,
  DeterministicCheckResult, ActionVerdict, verdict_has_traceability,
}

abbrev pub is_passed : CheckOutcome → Bool
is_passed passed = true
is_passed _ = false

-- item.outcome in {CheckOutcome.FAILED, CheckOutcome.NOT_FOUND}
abbrev pub is_failure : CheckOutcome → Bool
is_failure failed = true
is_failure not_found = true
is_failure _ = false

-- item.outcome in {CheckOutcome.UNAVAILABLE, CheckOutcome.UNSUPPORTED, CheckOutcome.ERROR}
abbrev pub is_non_assessable : CheckOutcome → Bool
is_non_assessable error = true
is_non_assessable unsupported = true
is_non_assessable unavailable = true
is_non_assessable _ = false

abbrev pub is_supporting : EvidenceRole → Bool
is_supporting EvidenceRole.supporting = true
is_supporting _ = false

abbrev pub is_contradictory : EvidenceRole → Bool
is_contradictory EvidenceRole.contradictory = true
is_contradictory _ = false

abbrev pub is_test_kind : EvidenceKind → Bool
is_test_kind EvidenceKind.test = true
is_test_kind _ = false

abbrev pub is_test_requirement : RequirementKind → Bool
is_test_requirement RequirementKind.test_protection = true
is_test_requirement _ = false

-- `_CREDIBLE_IMPLEMENTATION`, without TEST unless every requirement is one for a test
abbrev pub is_credible : Bool → EvidenceKind → Bool
is_credible test_only EvidenceKind.code = true
is_credible test_only EvidenceKind.configuration = true
is_credible test_only EvidenceKind.test = test_only
is_credible test_only EvidenceKind.execution = true
is_credible test_only _ = false

unfoldable pub test_only_requirement : List CompiledInvariant → Bool
test_only_requirement invariants =
    not (is_empty invariants)
    && all (λ (i : CompiledInvariant). is_test_requirement i.requirement_kind) invariants

-- the loop of `_citations` over the evidence, with the ids seen so far
unfoldable pub cite : List String → List EvidenceRecord → List EvidenceCitation
cite seen [] = []
cite seen (e ∷ es) =
    let skip = member e.id seen || not (is_supporting e.role || is_contradictory e.role) in
    let rest = cite (if skip then seen else e.id ∷ seen) es in
    if skip then rest else citation e ∷ rest

abbrev pub details : List DeterministicCheckResult → List String
details rs = map (λ (r : DeterministicCheckResult). r.detail) rs

-- What `verify_action` derives from the relevant results and evidence before it decides.
pub record Facts : Type 0 where
  pub relevant_results : List DeterministicCheckResult
  pub failures : List DeterministicCheckResult
  pub protection_gaps : List DeterministicCheckResult
  pub non_assessable : List DeterministicCheckResult
  pub passes : List DeterministicCheckResult
  pub contradictions : List EvidenceRecord
  pub credible : List EvidenceRecord
  pub regression : Bool

unfoldable pub relevant_results :
    List String → List DeterministicCheckResult → List DeterministicCheckResult
relevant_results ids results =
    filter (λ (r : DeterministicCheckResult). member r.invariant_id ids) results

unfoldable pub relevant_evidence : List String → List EvidenceRecord → List EvidenceRecord
relevant_evidence ids evidence = filter (λ (e : EvidenceRecord). member e.invariant_id ids) evidence

unfoldable pub facts : Bool → List DeterministicCheckResult → List EvidenceRecord → Facts
facts test_only results evidence =
    let supporting = filter (λ (e : EvidenceRecord). is_supporting e.role) evidence in
    record {
      relevant_results = results;
      failures = filter (λ (r : DeterministicCheckResult). r.core && is_failure r.outcome) results;
      protection_gaps =
          filter (λ (r : DeterministicCheckResult). not r.core && not (is_passed r.outcome))
            results;
      non_assessable =
          filter (λ (r : DeterministicCheckResult). is_non_assessable r.outcome) results;
      passes = filter (λ (r : DeterministicCheckResult). is_passed r.outcome) results;
      contradictions = filter (λ (e : EvidenceRecord). is_contradictory e.role) evidence;
      credible = filter (λ (e : EvidenceRecord). is_credible test_only e.kind) supporting;
      regression = any (λ (e : EvidenceRecord). is_test_kind e.kind) supporting;
    }

pub record Assessment : Type 0 where
  pub verdict : Verdict
  pub missing : List String
  pub rationale : String

abbrev pub when : Bool → String → List String
when b s = if b then s ∷ [] else []

-- the chain of tests that decides the verdict
unfoldable pub assess : Facts → Assessment
assess f =
    if not (is_empty f.failures)
    then record {
      verdict = missing;
      missing = details f.failures;
      rationale =
          "A required deterministic implementation check failed or found no implementation.";
    }
    else if not (is_empty f.relevant_results)
        && eqb (length f.non_assessable) (length f.relevant_results)
    then record {
      verdict = unverifiable;
      missing = details f.non_assessable;
      rationale =
          "The required fact cannot be assessed with the available repository or runtime context.";
    }
    else if not (is_empty f.passes)
        && not (is_empty f.credible)
        && f.regression
        && is_empty f.contradictions
        && is_empty f.non_assessable
    then record {
      verdict = verified;
      missing = [];
      rationale =
          "All required deterministic checks pass with implementation and regression evidence.";
    }
    else if not (is_empty f.passes) || not (is_empty f.credible)
    then record {
      verdict = partial;
      missing =
          when (not f.regression) "adequate regression protection is absent"
          ++ (details f.non_assessable
              ++ (details f.protection_gaps
                  ++ when (not (is_empty f.contradictions))
                      "contradictory evidence remains unresolved"));
      rationale = "Some implementation or protection is present, but required proof is incomplete.";
    }
    else record {
      verdict = missing;
      missing = "no credible implementation evidence was found" ∷ [];
      rationale = "No credible implementation or deterministic protection was found.";
    }

-- the end of `verify_action`: the texts that are not empty, once each, and the fallback
unfoldable pub missing_proofs : List EvidenceCitation → List String → List String
missing_proofs citations texts =
    let kept = from_keys (filter (λ s. not (s == "")) texts) in
    if is_empty citations && is_empty kept then "no citable evidence was produced" ∷ [] else kept

-- in tenths
abbrev pub confidence : Verdict → ℕ
confidence missing = 10
confidence unverifiable = 10
confidence _ = 9

abbrev pub invariant_ids : List CompiledInvariant → List String
invariant_ids invariants = map (λ (i : CompiledInvariant). i.id) invariants

-- `ActionVerdict(…)` with its validator
unfoldable pub action_verdict : ActionVerdict → Result ActionVerdict
action_verdict v =
    if verdict_has_traceability v
    then ok v
    else err (value_error "every verdict must cite evidence or state missing proof")

module _ (sha256_hex : String → String) where
  unfoldable pub verdict_record :
      String → ActionItem → List String → List EvidenceCitation → Assessment → ActionVerdict
  verdict_record run_id action ids citations a = record {
    id = stable_id sha256_hex "verdict" (run_id ∷ action.id ∷ []);
    run_id = run_id;
    action_id = action.id;
    verdict = a.verdict;
    rationale = a.rationale;
    invariant_ids = ids;
    citations = citations;
    missing_proofs = missing_proofs citations a.missing;
    confidence = confidence a.verdict;
  }

  unfoldable pub verify_action :
      String
      → ActionItem
      → List CompiledInvariant
      → List DeterministicCheckResult
      → List EvidenceRecord
      → Result ActionVerdict
  unfolding action_verdict verdict_record relevant_results relevant_evidence
  verify_action run_id action invariants results evidence =
      let ids = invariant_ids invariants in
      let relevant = relevant_evidence ids evidence in
      let f = facts (test_only_requirement invariants) (relevant_results ids results) relevant in
      action_verdict (verdict_record run_id action ids (cite [] relevant) (assess f))

-- the weights in halves
abbrev pub weight : Verdict → ℕ
weight verified = 2
weight partial = 1
weight _ = 0

unfoldable pub total_weight : List ActionVerdict → ℕ
total_weight [] = 0
total_weight (v ∷ vs) = weight v.verdict + total_weight vs

-- The nearest number to a / b, and the even one of two.
unfoldable pub round_half_even : ℕ → ℕ → ℕ
round_half_even a b =
    let q = a / b in
    let r = a % b in if ltb (2 * r) b then q else if ltb b (2 * r) then q + 1 else q + q % 2

-- `round(sum / len * 100, 2)` in hundredths of a percent, by exact arithmetic
unfoldable pub assessed_coverage : List ActionVerdict → ℕ
unfolding total_weight round_half_even
assessed_coverage [] = 0
assessed_coverage (v ∷ vs) = round_half_even (5000 * total_weight (v ∷ vs)) (length (v ∷ vs))
