-- ===== src/Tests/Verdicts.antt =====
-- Verdicts on the sample action, from its results and its evidence.
use remedy_graph.Prelude.{
  String, ◌≡◌, refl, ◌↔◌, List, [], ◌∷◌, All, ◌⊎◌, true, false, any, all, member, distinct, ◌==◌,
  ◌&&◌, ◌||◌, not,
}
use remedy_graph.Result.{Result, ok}
use remedy_graph.Models.{verified, missing, unverifiable, EvidenceKind}
use remedy_graph.Audit.Contracts.{
  EvidenceRole, EvidenceRecord, CheckOutcome, DeterministicCheckResult, ActionVerdict,
  CompiledInvariant, verdict_has_traceability,
}
use remedy_graph.Audit.Verifier.{
  invariant_ids, verify_action, verdict_record, assess, relevant_evidence, relevant_results,
  is_non_assessable, test_only_requirement, facts,
}
use remedy_graph.Audit.Verifier.Laws.{
  IsProven, own_ids, own_facts, own_citations, verify_action-eq, verify_action-total,
  verify_action-verified,
}
use remedy_graph.Audit.Verifier.Branches.{
  verify_action-failure, verify_action-unverifiable, verify_action_local,
}
use remedy_graph.Audit.Verifier.Citations.{citations-exact, cited_ids, is_citable, IsCitationOf}
use remedy_graph.Tests.Samples.{
  no_hash, cap_retries, invariant_sample, evidence_sample, result_sample,
}

abbrev invariants : List CompiledInvariant
invariants = invariant_sample ∷ []

abbrev evidence : List EvidenceRecord
evidence =
    evidence_sample "e1" EvidenceKind.code EvidenceRole.supporting
    ∷ evidence_sample "e2" EvidenceKind.test EvidenceRole.supporting
    ∷ evidence_sample "e3" EvidenceKind.absent EvidenceRole.missing
    ∷ []

abbrev results_of : CheckOutcome → List DeterministicCheckResult
results_of outcome = result_sample "r1" true outcome ∷ []

abbrev verdict_on : CheckOutcome → ActionVerdict
verdict_on outcome =
    verdict_record no_hash "run" cap_retries
      (own_ids no_hash "run" cap_retries invariants (results_of outcome) evidence)
      (own_citations no_hash "run" cap_retries invariants (results_of outcome) evidence)
      (assess (own_facts no_hash "run" cap_retries invariants (results_of outcome) evidence))

abbrev run : CheckOutcome → Result ActionVerdict
run outcome = verify_action no_hash "run" cap_retries invariants (results_of outcome) evidence

run-eq : (outcome : CheckOutcome) → run outcome ≡ ok (verdict_on outcome)
run-eq outcome = verify_action-eq no_hash "run" cap_retries invariants (results_of outcome) evidence

verify_action-total_example :
    (v : ActionVerdict) × (run CheckOutcome.passed ≡ ok v)
    × (verdict_has_traceability v ≡ true)
    × (v.action_id ≡ "a1")
    × (v.run_id ≡ "run")
verify_action-total_example =
    verify_action-total no_hash "run" cap_retries invariants (results_of CheckOutcome.passed)
      evidence

verify_action-verified_example :
    ((verdict_on CheckOutcome.passed).verdict ≡ verified)
    ↔ IsProven
        (invariant_ids invariants)
        (test_only_requirement invariants)
        (results_of CheckOutcome.passed)
        evidence
verify_action-verified_example =
    verify_action-verified no_hash "run" cap_retries invariants (results_of CheckOutcome.passed)
      evidence (verdict_on CheckOutcome.passed) (run-eq CheckOutcome.passed)

-- a check that is not core failed, and the verdict is VERIFIED
side_failed : List DeterministicCheckResult
side_failed =
    result_sample "r1" true CheckOutcome.passed ∷ result_sample "r2" false CheckOutcome.failed ∷ []

side_failed_verified :
    (assess (own_facts no_hash "run" cap_retries invariants side_failed evidence)).verdict
    ≡ verified
unfolding side_failed assess facts relevant_results relevant_evidence
side_failed_verified = refl

verify_action-failure_example :
    ((verdict_on CheckOutcome.failed).verdict ≡ missing)
    × ((◌≡◌ {A = String} "retry limit is not set" "")
        ⊎ (member "retry limit is not set" (verdict_on CheckOutcome.failed).missing_proofs ≡ true))
verify_action-failure_example =
    verify_action-failure no_hash "run" cap_retries invariants (results_of CheckOutcome.failed)
      evidence (verdict_on CheckOutcome.failed) "retry limit is not set"
      (run-eq CheckOutcome.failed) refl

verify_action-unverifiable_example :
    ((verdict_on CheckOutcome.unavailable).verdict ≡ unverifiable) ↔ (
      (any
          (λ (r : DeterministicCheckResult). member r.invariant_id (invariant_ids invariants))
          (results_of CheckOutcome.unavailable)
        ≡ true)
      × (all
            (λ (r : DeterministicCheckResult).
              not (member r.invariant_id (invariant_ids invariants)) || is_non_assessable r.outcome)
            (results_of CheckOutcome.unavailable)
          ≡ true))
verify_action-unverifiable_example =
    verify_action-unverifiable no_hash "run" cap_retries invariants
      (results_of CheckOutcome.unavailable) evidence (verdict_on CheckOutcome.unavailable)
      (run-eq CheckOutcome.unavailable)

verify_action_local_example :
    verify_action no_hash "run" cap_retries invariants
      (relevant_results (invariant_ids invariants) (results_of CheckOutcome.passed))
      (relevant_evidence (invariant_ids invariants) evidence)
    ≡ run CheckOutcome.passed
verify_action_local_example =
    verify_action_local no_hash "run" cap_retries invariants (results_of CheckOutcome.passed)
      evidence

citations-exact_example :
    (distinct (cited_ids (verdict_on CheckOutcome.passed).citations) ≡ true)
    × ((k : String)
        → member k (cited_ids (verdict_on CheckOutcome.passed).citations)
          ≡ any
              (λ (e : EvidenceRecord).
                member e.invariant_id (invariant_ids invariants)
                && (is_citable e.role && k == e.id))
              evidence)
    × All
        (IsCitationOf (invariant_ids invariants) evidence)
        (verdict_on CheckOutcome.passed).citations
citations-exact_example =
    citations-exact no_hash "run" cap_retries invariants (results_of CheckOutcome.passed) evidence
      (verdict_on CheckOutcome.passed) (run-eq CheckOutcome.passed)
