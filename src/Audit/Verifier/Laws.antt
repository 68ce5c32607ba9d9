-- ===== src/Audit/Verifier/Laws.antt =====
-- backend/app/audit/verifier.py: the verdict VERIFIED, and what every verdict carries.
use remedy_graph.Prelude.{
  String, ◌≡◌, refl, ap, ◌↔◌, ◌∙◌, List, [], ◌∷◌, filter, any, is_empty, member, not, Bool, true,
  false, ◌&&◌, arith,
}
use remedy_graph.Result.{ok}
use remedy_graph.Models.{Verdict, verified, ActionItem}
use remedy_graph.Audit.Contracts.{
  CompiledInvariant, EvidenceRecord, EvidenceCitation, DeterministicCheckResult, ActionVerdict,
  verdict_has_traceability,
}
use remedy_graph.Audit.Verifier.{
  is_passed, is_failure, is_non_assessable, is_supporting, is_contradictory, is_test_kind,
  is_credible, test_only_requirement, cite, Facts, facts, relevant_results, relevant_evidence,
  Assessment, assess, missing_proofs, invariant_ids, action_verdict, verdict_record, verify_action,
}
use remedy_graph.Audit.Verifier.Lists.{is_empty-filter, any-filter}

abbrev pub is_verified : Verdict → Bool
is_verified verified = true
is_verified _ = false

assess-verified :
    (f : Facts)
    → (is_empty f.relevant_results ≡ true → is_empty f.passes ≡ true)
    → is_verified (assess f).verdict ≡ (
        is_empty f.failures
        && is_empty f.non_assessable
        && not (is_empty f.passes)
        && not (is_empty f.credible)
        && f.regression
        && is_empty f.contradictions)
unfolding assess
assess-verified f h = ground arith

-- What a verdict VERIFIED asks of the results and the evidence of the whole audit, for an action
-- whose invariants have the given ids.
pub record IsProven (ids : List String) (test_only : Bool) (results : List DeterministicCheckResult)
    (evidence : List EvidenceRecord) : Type 0 where
  pub no_failure :
      any
        (λ (r : DeterministicCheckResult).
          member r.invariant_id ids && (r.core && is_failure r.outcome))
        results
      ≡ false
  pub assessable :
      any
        (λ (r : DeterministicCheckResult). member r.invariant_id ids && is_non_assessable r.outcome)
        results
      ≡ false
  pub passing :
      any
        (λ (r : DeterministicCheckResult). member r.invariant_id ids && is_passed r.outcome)
        results
      ≡ true
  pub implementation :
      any
        (λ (e : EvidenceRecord).
          member e.invariant_id ids && (is_supporting e.role && is_credible test_only e.kind))
        evidence
      ≡ true
  pub regression :
      any
        (λ (e : EvidenceRecord).
          member e.invariant_id ids && (is_supporting e.role && is_test_kind e.kind))
        evidence
      ≡ true
  pub no_contradiction :
      any (λ (e : EvidenceRecord). member e.invariant_id ids && is_contradictory e.role) evidence
      ≡ false

verdict-is_verified : (v : Verdict) → (is_verified v ≡ true) ↔ (v ≡ verified)
verdict-is_verified v = ground arith

-- The list of the relevant items has the test if the whole list has it for a relevant item.
pub is_empty-relevant {ℓ} :
    {A : Type ℓ} (p q : A → Bool) (xs : List A)
    → is_empty (filter p (filter q xs)) ≡ not (any (λ x. q x && p x) xs)
is_empty-relevant p q xs = is_empty-filter p (filter q xs) ∙ ap not (any-filter p q xs)

pub is_empty-relevant_twice {ℓ} :
    {A : Type ℓ} (p q r : A → Bool) (xs : List A)
    → is_empty (filter p (filter q (filter r xs))) ≡ not (any (λ x. r x && (q x && p x)) xs)
is_empty-relevant_twice p q r xs =
    is_empty-filter p (filter q (filter r xs))
    ∙ ap not (any-filter p q (filter r xs) ∙ any-filter (λ x. q x && p x) r xs)

pub filter_of_empty {ℓ} :
    {A : Type ℓ} (p : A → Bool) (xs : List A) → is_empty xs ≡ true → is_empty (filter p xs) ≡ true
filter_of_empty p [] h = refl
filter_of_empty p (x ∷ xs) h = cc

module _ (ids : List String) (test_only : Bool) (results : List DeterministicCheckResult)
    (evidence : List EvidenceRecord) where
  abbrev pub relevant_facts : Facts
  relevant_facts = facts test_only (relevant_results ids results) (relevant_evidence ids evidence)

  assess-IsProven :
      (is_verified (assess relevant_facts).verdict ≡ true) ↔ IsProven ids test_only results evidence
  unfolding facts relevant_results relevant_evidence
  assess-IsProven =
      let mine = λ (r : DeterministicCheckResult). member r.invariant_id ids in
      let own = λ (e : EvidenceRecord). member e.invariant_id ids in
      ground (
        arith,
        assess-verified relevant_facts
            (filter_of_empty (λ r. is_passed r.outcome) (filter mine results)),
        is_empty-relevant (λ r. r.core && is_failure r.outcome) mine results,
        is_empty-relevant (λ r. is_non_assessable r.outcome) mine results,
        is_empty-relevant (λ r. is_passed r.outcome) mine results,
        is_empty-relevant (λ e. is_contradictory e.role) own evidence,
        is_empty-relevant_twice (λ e. is_credible test_only e.kind) (λ e. is_supporting e.role) own
            evidence,
        any-filter (λ e. is_test_kind e.kind) (λ e. is_supporting e.role) (filter own evidence),
        any-filter (λ e. is_supporting e.role && is_test_kind e.kind) own evidence,
      )

-- A verdict record is never refused by its validator: it cites evidence or states a missing proof.
traceable :
    (sha256_hex : String → String) (run_id : String) (action : ActionItem) (ids : List String)
    (citations : List EvidenceCitation) (a : Assessment)
    → verdict_has_traceability (verdict_record sha256_hex run_id action ids citations a) ≡ true
unfolding verdict_has_traceability verdict_record missing_proofs
traceable sha256_hex run_id action ids citations a = ground arith

module _ (sha256_hex : String → String) (run_id : String) (action : ActionItem)
    (invariants : List CompiledInvariant) (results : List DeterministicCheckResult)
    (evidence : List EvidenceRecord) where
  abbrev pub own_ids : List String
  own_ids = invariant_ids invariants

  abbrev pub test_only : Bool
  test_only = test_only_requirement invariants

  abbrev pub own_facts : Facts
  own_facts = relevant_facts own_ids test_only results evidence

  abbrev pub own_citations : List EvidenceCitation
  own_citations = cite [] (relevant_evidence own_ids evidence)

  pub verify_action-eq :
      verify_action sha256_hex run_id action invariants results evidence
      ≡ ok (verdict_record sha256_hex run_id action own_ids own_citations (assess own_facts))
  unfolding verify_action action_verdict
  verify_action-eq =
      rw (traceable sha256_hex run_id action own_ids own_citations (assess own_facts))

  -- `verify_action` always returns a verdict, which is for the action and the run, and which cites
  -- evidence or states a missing proof.
  pub verify_action-total :
      (v : ActionVerdict) × (verify_action sha256_hex run_id action invariants results evidence
        ≡ ok v)
      × (verdict_has_traceability v ≡ true)
      × (v.action_id ≡ action.id)
      × (v.run_id ≡ run_id)
  unfolding verdict_record
  verify_action-total = (
    verdict_record sha256_hex run_id action own_ids own_citations (assess own_facts),
    verify_action-eq,
    traceable sha256_hex run_id action own_ids own_citations (assess own_facts),
    refl,
    refl,
  )

  -- The verdict is VERIFIED exactly when, among the results and the evidence of the action's
  -- invariants, no core check failed or found nothing, no check was unassessable, a check passed,
  -- supporting evidence shows an implementation and a test, and nothing contradicts. A check that is
  -- not core may have failed.
  pub verify_action-verified :
      (v : ActionVerdict)
      → verify_action sha256_hex run_id action invariants results evidence ≡ ok v
      → (v.verdict ≡ verified) ↔ IsProven own_ids test_only results evidence
  unfolding verdict_record
  verify_action-verified v h = ground (
    arith,
    verify_action-eq,
    verdict-is_verified v.verdict,
    assess-IsProven own_ids test_only results evidence,
  )
