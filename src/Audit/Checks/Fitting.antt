-- ===== src/Audit/Checks/Fitting.antt =====
-- backend/app/audit/checks.py: what the execution of a check consists of.
use remedy_graph.Prelude.{
  ℕ, zero, suc, String, none, List, [], ◌∷◌, map, take, Bool, true, false, ◌≡◌, refl, All,
  All-append, inl, inr, arith, is_empty, not, Dict,
}
use remedy_graph.Result.{Error, Result, ok, err, ◌>>=◌}
use remedy_graph.Prelude.{Bool-cases}
use remedy_graph.Audit.Compiler.Terms.{is_in}
use remedy_graph.Audit.Contracts.{
  CheckOutcome, DeterministicCheckSpec, EvidenceRecord, CheckExecution, outcome_matches_passed,
}
use remedy_graph.Rag.Safety.Walk.{RepositoryFile}
use remedy_graph.Audit.Checks.Keys.{CheckTools}
use remedy_graph.Audit.Checks.Scan.{Use, TestMatch}
use remedy_graph.Audit.Checks.Runner.{
  Measured, ids, judge, measured_execution, measured_evidence, or_absence, absence, non_assessable,
  failed_check, found_or_not,
}
use remedy_graph.Audit.Checks.Run.{
  matching_lines, pattern_execution, use_evidence, uses_evidence, missing_terms, missing_evidence,
  code_execution, match_evidence, test_execution,
}

module _ {A B : Type 0} where
  pub All-map :
      (P : B → Type 0) (f : A → B) → ((a : A) → P (f a)) → (xs : List A) → All P (map f xs)
  All-map P f h [] = tt
  All-map P f h (x ∷ xs) = (h x, All-map P f h xs)

  -- what a chain of results ends with
  pub ok-bind :
      (r : Result A) (f : A → Result B) (b : B)
      → (r >>= f) ≡ ok b
      → (a : A) × (r ≡ ok a) × (f a ≡ ok b)
  ok-bind (err e) f b h = absurd (ground arith)
  ok-bind (ok a) f b h = (a, refl, h)

pub All-take : {A : Type 0} (P : A → Type 0) (n : ℕ) (xs : List A) → All P xs → All P (take n xs)
All-take P zero xs h = tt
All-take P (suc n) [] h = tt
All-take P (suc n) (x ∷ xs) h = (h.0, All-take P n xs h.1)

module _ (sha256_hex : String → String) (spec : DeterministicCheckSpec)
    (run_id action_id : String) where
  -- the record belongs to the run, the action and the requirement of the check
  unfoldable pub IsOwned : EvidenceRecord → Type 0
  IsOwned e = (e.run_id ≡ run_id) × (e.action_id ≡ action_id) × (e.invariant_id ≡ spec.invariant_id)

  -- The result is one for this check, its outcome and its flag agree, and it names its evidence, which
  -- is owned.
  unfoldable pub IsFitting : CheckExecution → Type 0
  IsFitting x =
      (x.result.run_id ≡ run_id)
      × (x.result.invariant_id ≡ spec.invariant_id)
      × (x.result.check_spec_id ≡ spec.id)
      × (x.result.core ≡ spec.core)
      × (outcome_matches_passed x.result.outcome x.result.passed ≡ true)
      × (x.result.evidence_ids ≡ ids x.evidence)
      × All IsOwned x.evidence

  pub absence-IsOwned :
      (detail : String) → IsOwned (absence sha256_hex spec run_id action_id detail)
  unfolding IsOwned absence
  absence-IsOwned detail = (refl, refl, refl)

  pub or_absence-IsOwned :
      (evidence : List EvidenceRecord) (detail : String)
      → All IsOwned evidence
      → All IsOwned (or_absence sha256_hex spec run_id action_id evidence detail)
  or_absence-IsOwned [] detail h = (absence-IsOwned detail, tt)
  or_absence-IsOwned (e ∷ es) detail h = h

  found_or_not-fits :
      (b : Bool) (yes_text no_text : String)
      → let j = found_or_not sha256_hex spec run_id action_id b yes_text no_text in
        outcome_matches_passed j.outcome j.passed ≡ true
  unfolding outcome_matches_passed
  found_or_not-fits true a b = refl
  found_or_not-fits false a b = refl

  judge-fits :
      (tools : CheckTools) (ms : List Measured)
      → let j = judge sha256_hex spec run_id action_id tools ms in
        outcome_matches_passed j.outcome j.passed ≡ true
  unfolding judge outcome_matches_passed
  judge-fits tools [] = refl
  judge-fits tools (m ∷ ms) = ground arith

  pub measured-IsFitting :
      (tools : CheckTools) (ms : List Measured)
      → IsFitting (measured_execution sha256_hex spec run_id action_id tools ms)
  unfolding IsFitting measured_execution IsOwned
  measured-IsFitting tools ms = (
    refl,
    refl,
    refl,
    refl,
    judge-fits tools ms,
    refl,
    or_absence-IsOwned _ _ (
        All-map IsOwned (measured_evidence sha256_hex spec run_id action_id tools)
          (λ m. (refl, refl, refl)) ms),
  )

  pub non_assessable-IsFitting :
      (outcome : CheckOutcome)
      → outcome_matches_passed outcome none ≡ true
      → IsFitting (non_assessable sha256_hex spec run_id action_id outcome)
  unfolding IsFitting non_assessable IsOwned
  non_assessable-IsFitting outcome h = (refl, refl, refl, refl, h, refl, ((refl, refl, refl), tt))

  pub failed_check-IsFitting :
      (e : Error) → IsFitting (failed_check sha256_hex spec run_id action_id e)
  unfolding IsFitting failed_check outcome_matches_passed
  failed_check-IsFitting e = (refl, refl, refl, refl, refl, refl, tt)

module _ (sha256_hex : String → String) (tools : CheckTools) (set_order : List String → List String)
    (files : List RepositoryFile) (spec : DeterministicCheckSpec) (run_id action_id : String) where
  abbrev pub Owned : EvidenceRecord → Type 0
  Owned = IsOwned sha256_hex spec run_id action_id

  abbrev pub Fitting : CheckExecution → Type 0
  Fitting = IsFitting sha256_hex spec run_id action_id

  pub matching_lines-IsOwned :
      (pattern source_path : String) (n : ℕ) (lines : List String)
      → All Owned (
          matching_lines sha256_hex tools set_order files spec run_id action_id pattern source_path
            n lines)
  unfolding matching_lines IsOwned
  matching_lines-IsOwned pattern source_path n [] = tt
  matching_lines-IsOwned pattern source_path n (line ∷ lines) =
      elim (Bool-cases (is_in pattern line)) [
        | inl e ↦
            rw e ((refl, refl, refl), matching_lines-IsOwned pattern source_path (suc n) lines)
        | inr e ↦ rw e (matching_lines-IsOwned pattern source_path (suc n) lines)
      ]

  pub uses_evidence-IsOwned :
      (found : Dict (List Use))
      → All Owned (uses_evidence sha256_hex tools set_order files spec run_id action_id found)
  unfolding uses_evidence IsOwned
  uses_evidence-IsOwned [] = tt
  uses_evidence-IsOwned ((term, uses) ∷ found) =
      All-append Owned _ _
        (All-map Owned (use_evidence sha256_hex tools set_order files spec run_id action_id term)
          (λ u. (refl, refl, refl)) (take 5 uses))
        (uses_evidence-IsOwned found)

  pub missing_evidence-IsOwned :
      (terms : List String)
      → All Owned (missing_evidence sha256_hex tools set_order files spec run_id action_id terms)
  missing_evidence-IsOwned [] = tt
  missing_evidence-IsOwned (term ∷ terms) = (absence-IsOwned sha256_hex spec run_id action_id _, tt)

  pub code-IsFitting :
      (terms : List String) (found : Dict (List Use))
      → Fitting (code_execution sha256_hex tools set_order files spec run_id action_id terms found)
  unfolding IsFitting code_execution
  code-IsFitting terms found = (
    refl,
    refl,
    refl,
    refl,
    found_or_not-fits sha256_hex spec run_id action_id
        (is_empty (missing_terms sha256_hex tools set_order files spec run_id action_id found)) _ _,
    refl,
    All-append Owned _ _ (uses_evidence-IsOwned found) (
        missing_evidence-IsOwned
          (missing_terms sha256_hex tools set_order files spec run_id action_id found)),
  )

  pub test-IsFitting :
      (matches : List TestMatch)
      → Fitting (test_execution sha256_hex tools set_order files spec run_id action_id matches)
  unfolding IsFitting test_execution IsOwned
  test-IsFitting matches = (
    refl,
    refl,
    refl,
    refl,
    found_or_not-fits sha256_hex spec run_id action_id (not (is_empty matches)) _ _,
    refl,
    or_absence-IsOwned sha256_hex spec run_id action_id _ _ (
        All-map Owned (match_evidence sha256_hex tools set_order files spec run_id action_id)
          (λ m. (refl, refl, refl)) matches),
  )

  pub pattern-IsFitting :
      (pattern : String) (evidence : List EvidenceRecord)
      → All Owned evidence
      → Fitting (
          pattern_execution sha256_hex tools set_order files spec run_id action_id pattern evidence)
  unfolding IsFitting
  pattern-IsFitting pattern evidence h = (
    refl,
    refl,
    refl,
    refl,
    found_or_not-fits sha256_hex spec run_id action_id (not (is_empty evidence)) _ _,
    refl,
    or_absence-IsOwned sha256_hex spec run_id action_id evidence _ h,
  )
