-- ===== src/Audit/Verifier/Branches.antt =====
-- backend/app/audit/verifier.py: the verdicts MISSING and UNVERIFIABLE, and what a verdict does not depend on.
use remedy_graph.Prelude.{
  String, ◌≡◌, refl, ◌↔◌, ◌∙◌, List, [], ◌∷◌, filter, any, all, is_empty, length, member,
  member-from_keys, member-filter_ne, ◌⊎◌, not, Bool, true, false, ◌&&◌, ◌||◌, ◌==◌, eq_iff, eqb,
  arith,
}
use remedy_graph.Result.{ok}
use remedy_graph.Models.{missing, unverifiable, ActionItem}
use remedy_graph.Audit.Contracts.{
  CompiledInvariant, EvidenceRecord, EvidenceCitation, DeterministicCheckResult, ActionVerdict,
}
use remedy_graph.Audit.Verifier.{
  is_failure, is_non_assessable, details, Facts, facts, relevant_results, relevant_evidence, assess,
  missing_proofs, verdict_record, verify_action, invariant_ids,
}
use remedy_graph.Audit.Verifier.Lists.{
  is_empty-filter, any-filter, filter_idem, eqb-length-filter, all-filter,
}
use remedy_graph.Audit.Verifier.Laws.{is_empty-relevant, own_facts, own_citations, verify_action-eq}

abbrev is_core_failure : DeterministicCheckResult → Bool
is_core_failure r = r.core && is_failure r.outcome

member-details :
    (k : String) (rs : List DeterministicCheckResult)
    → member k (details rs) ≡ any (λ (r : DeterministicCheckResult). k == r.detail) rs
member-details k [] = refl
member-details k (r ∷ rs) = ground (arith, member-details k rs)

nonempty_details :
    (k : String) (rs : List DeterministicCheckResult)
    → member k (details rs) ≡ true
    → is_empty rs ≡ false
nonempty_details k [] h = cc
nonempty_details k (r ∷ rs) h = refl

-- A text that is not empty and is among those of the assessment is stated.
member-missing_proofs :
    (k : String) (citations : List EvidenceCitation) (texts : List String)
    → member k texts ≡ true
    → (k ≡ "") ⊎ (member k (missing_proofs citations texts) ≡ true)
unfolding missing_proofs
member-missing_proofs k citations texts h = ground (
  arith,
  eq_iff k "",
  member-from_keys k (filter (λ y. not (y == "")) texts),
  member-filter_ne k "" texts,
)

assess-failures :
    (f : Facts)
    → is_empty f.failures ≡ false
    → ((assess f).verdict ≡ missing) × ((assess f).missing ≡ details f.failures)
unfolding assess
assess-failures f h = ground arith

assess-unverifiable :
    (f : Facts)
    → ((assess f).verdict ≡ unverifiable) ↔ (
        (is_empty f.failures
          && (not (is_empty f.relevant_results)
              && eqb (length f.non_assessable) (length f.relevant_results)))
        ≡ true)
unfolding assess
assess-unverifiable f = ground arith

-- Where every result is unassessable, none is a failure.
unassessable_no_failure :
    (p : DeterministicCheckResult → Bool) (rs : List DeterministicCheckResult)
    → all (λ r. not (p r) || is_non_assessable r.outcome) rs ≡ true
    → any (λ r. p r && is_core_failure r) rs ≡ false
unassessable_no_failure p [] h = refl
unassessable_no_failure p (r ∷ rs) h = ground (arith, unassessable_no_failure p rs)

module _ (sha256_hex : String → String) (run_id : String) (action : ActionItem)
    (invariants : List CompiledInvariant) (results : List DeterministicCheckResult)
    (evidence : List EvidenceRecord) where
  abbrev mine : DeterministicCheckResult → Bool
  mine r = member r.invariant_id (invariant_ids invariants)

  -- If a core check of one of the action's invariants failed or found nothing, then the verdict is
  -- MISSING, and the detail of each such check, if it is not empty, is among the missing proofs.
  pub verify_action-failure :
      (v : ActionVerdict) (k : String)
      → verify_action sha256_hex run_id action invariants results evidence ≡ ok v
      → any (λ r. mine r && (is_core_failure r && k == r.detail)) results ≡ true
      → (v.verdict ≡ missing) × ((k ≡ "") ⊎ (member k v.missing_proofs ≡ true))
  unfolding verdict_record facts relevant_results
  verify_action-failure v k h found =
      let f = own_facts sha256_hex run_id action invariants results evidence in
      let cs = own_citations sha256_hex run_id action invariants results evidence in
      let stated : member k (details f.failures) ≡ true =
        member-details k f.failures
        ∙ (any-filter (λ r. k == r.detail) is_core_failure (filter mine results)
            ∙ (any-filter (λ r. is_core_failure r && k == r.detail) mine results ∙ found)) in
      ground (
        arith,
        verify_action-eq sha256_hex run_id action invariants results evidence,
        assess-failures f (nonempty_details k f.failures stated),
        member-missing_proofs k cs (details f.failures) stated,
      )

  -- The verdict is UNVERIFIABLE exactly when the action's invariants have a result and all their
  -- results are unassessable.
  pub verify_action-unverifiable :
      (v : ActionVerdict)
      → verify_action sha256_hex run_id action invariants results evidence ≡ ok v
      → (v.verdict ≡ unverifiable) ↔ (
          (any mine results ≡ true)
          × (all (λ r. not (mine r) || is_non_assessable r.outcome) results ≡ true))
  unfolding verdict_record facts relevant_results
  verify_action-unverifiable v h = ground (
    arith,
    verify_action-eq sha256_hex run_id action invariants results evidence,
    assess-unverifiable (own_facts sha256_hex run_id action invariants results evidence),
    is_empty-filter mine results,
    is_empty-relevant is_core_failure mine results,
    unassessable_no_failure mine results,
    eqb-length-filter (λ r. is_non_assessable r.outcome) (filter mine results),
    all-filter (λ r. is_non_assessable r.outcome) mine results,
  )

  -- Results and evidence of other actions' invariants make no difference to the verdict.
  pub verify_action_local :
      verify_action sha256_hex run_id action invariants
        (relevant_results (invariant_ids invariants) results)
        (relevant_evidence (invariant_ids invariants) evidence)
      ≡ verify_action sha256_hex run_id action invariants results evidence
  unfolding verify_action relevant_results relevant_evidence
  verify_action_local = rw (
    filter_idem (λ (r : DeterministicCheckResult). member r.invariant_id (invariant_ids invariants))
        results,
    filter_idem (λ (e : EvidenceRecord). member e.invariant_id (invariant_ids invariants)) evidence,
  )
