-- ===== src/Audit/Verifier/Citations.antt =====
-- `VerdictEngine._citations`: what a verdict cites.
use remedy_graph.Prelude.{All, ◌⊎◌, inl, inr, Bool-cases, sym, ap}
use remedy_graph.Models.{ActionItem}
use remedy_graph.Result.{Result, ok, err}
use remedy_graph.Audit.Contracts.{CompiledInvariant, DeterministicCheckResult, ActionVerdict}
use remedy_graph.Audit.Verifier.{invariant_ids, verdict_record, verify_action}
use remedy_graph.Audit.Verifier.Laws.{verify_action-eq}
use remedy_graph.Prelude.{
  String, ◌≡◌, refl, ◌∙◌, List, [], ◌∷◌, map, filter, any, member, distinct, not, Bool, true, ◌&&◌,
  ◌||◌, ◌==◌, eq_iff, arith,
}
use remedy_graph.Audit.Contracts.{EvidenceRecord, EvidenceCitation, EvidenceRole, citation}
use remedy_graph.Audit.Verifier.{is_supporting, is_contradictory, cite, relevant_evidence}
use remedy_graph.Audit.Verifier.Lists.{any-filter}

abbrev cited_by : Result ActionVerdict → List EvidenceCitation
cited_by (ok v) = v.citations
cited_by (err e) = []

abbrev pub cited_ids : List EvidenceCitation → List String
cited_ids cs = map (λ (c : EvidenceCitation). c.evidence_id) cs

-- Evidence of these two roles is cited.
abbrev pub is_citable : EvidenceRole → Bool
is_citable role = is_supporting role || is_contradictory role

member-cite :
    (k : String) (seen : List String) (es : List EvidenceRecord)
    → member k (cited_ids (cite seen es))
      ≡ (not (member k seen) && any (λ (e : EvidenceRecord). is_citable e.role && k == e.id) es)
unfolding cite citation
member-cite k seen [] = ground arith
member-cite k seen (e ∷ es) =
    ground (arith, member-cite k seen es, member-cite k (e.id ∷ seen) es, eq_iff k e.id)

distinct-cite :
    (seen : List String) (es : List EvidenceRecord) → distinct (cited_ids (cite seen es)) ≡ true
unfolding cite citation
distinct-cite seen [] = refl
distinct-cite seen (e ∷ es) = ground (
  arith,
  distinct-cite seen es,
  distinct-cite (e.id ∷ seen) es,
  member-cite e.id (e.id ∷ seen) es,
  eq_iff e.id e.id,
)

-- one of the records has the property
abbrev Any : (EvidenceRecord → Type 0) → List EvidenceRecord → Type 0
Any P [] = ⊥
Any P (e ∷ es) = P e ⊎ Any P es

-- The citation is that of a record of these invariants that supports or contradicts.
abbrev pub IsCitationOf : List String → List EvidenceRecord → EvidenceCitation → Type 0
IsCitationOf ids es c =
    Any
      (λ (e : EvidenceRecord).
        ((member e.invariant_id ids && is_citable e.role) ≡ true) × (c ≡ citation e))
      es

IsCitationOf-cons :
    (ids : List String) (e : EvidenceRecord) (es : List EvidenceRecord) (cs : List EvidenceCitation)
    → All (IsCitationOf ids es) cs
    → All (IsCitationOf ids (e ∷ es)) cs
IsCitationOf-cons ids e es [] h = tt
IsCitationOf-cons ids e es (c ∷ cs) h = (inr h.0, IsCitationOf-cons ids e es cs h.1)

cited_or_not :
    (ids : List String) (seen : List String) (e : EvidenceRecord) (es rest : List EvidenceRecord)
    → member e.invariant_id ids ≡ true
    → All (IsCitationOf ids (e ∷ es)) (cite seen rest)
    → All (IsCitationOf ids (e ∷ es)) (cite (e.id ∷ seen) rest)
    → All (IsCitationOf ids (e ∷ es)) (cite seen (e ∷ rest))
unfolding cite
cited_or_not ids seen e es rest own k l = elim (Bool-cases (is_citable e.role)) [
  | inr c ↦ rw c (elim (Bool-cases (member e.id seen)) [ inl m ↦ rw m k | inr m ↦ rw m k ])
  | inl c ↦ rw c (elim (Bool-cases (member e.id seen)) [
    | inl m ↦ rw m k
    | inr m ↦ rw m (inl (ground (arith, own, c), refl), l)
  ])
]

IsCitationOf-cite :
    (ids : List String) (seen : List String) (es : List EvidenceRecord)
    → All
        (IsCitationOf ids es)
        (cite seen (filter (λ (e : EvidenceRecord). member e.invariant_id ids) es))
unfolding cite
IsCitationOf-cite ids seen [] = tt
IsCitationOf-cite ids seen (e ∷ es) = elim (Bool-cases (member e.invariant_id ids)) [
  | inr n ↦ rw n (IsCitationOf-cons ids e es _ (IsCitationOf-cite ids seen es))
  | inl m ↦ rw m (
      cited_or_not ids seen e es (filter (λ x. member x.invariant_id ids) es) m
        (IsCitationOf-cons ids e es _ (IsCitationOf-cite ids seen es))
        (IsCitationOf-cons ids e es _ (IsCitationOf-cite ids (e.id ∷ seen) es)))
]

module _ (sha256_hex : String → String) (run_id : String) (action : ActionItem)
    (invariants : List CompiledInvariant) (results : List DeterministicCheckResult)
    (evidence : List EvidenceRecord) where
  -- The citations of a verdict are those of the evidence records of the action's invariants that
  -- support or contradict: each of these records is cited by its id, no other is, none twice, and
  -- every citation has the location of its record.
  pub citations-exact :
      (v : ActionVerdict)
      → verify_action sha256_hex run_id action invariants results evidence ≡ ok v
      → (distinct (cited_ids v.citations) ≡ true)
        × ((k : String)
            → member k (cited_ids v.citations)
              ≡ any
                  (λ (e : EvidenceRecord).
                    member e.invariant_id (invariant_ids invariants)
                    && (is_citable e.role && k == e.id))
                  evidence)
        × All (IsCitationOf (invariant_ids invariants) evidence) v.citations
  unfolding relevant_evidence verdict_record
  citations-exact v h =
      let ids = invariant_ids invariants in
      let own = filter (λ (e : EvidenceRecord). member e.invariant_id ids) evidence in
      let same : cite [] own ≡ v.citations =
        ap cited_by
          (sym (verify_action-eq sha256_hex run_id action invariants results evidence) ∙ h) in
      rw (sym same) (
        distinct-cite [] own,
        (λ k.
            member-cite k [] own
            ∙ any-filter (λ e. is_citable e.role && k == e.id) (λ e. member e.invariant_id ids)
                evidence),
        IsCitationOf-cite ids [] evidence,
      )
