-- ===== src/Audit/Budget/Laws.antt =====
-- backend/app/audit/budget.py: what the tracker's methods keep, and how often they succeed.
use remedy_graph.Prelude.{
  ℕ, ◌+◌, ◌≤◌, String, ◌≡◌, true, false, Bool, List, [], ◌∷◌, arith, ◌&&◌, leb, all, ◌==◌, eq_iff,
  if◌then◌else◌, Dict, lookup, insert, lookup-insert, suc,
}
use remedy_graph.Result.{is_ok}
use remedy_graph.Audit.Contracts.{BudgetUsage, usage_does_not_exceed_limits}
use remedy_graph.Audit.Budget.{
  BudgetTracker, consume_model_call, rounds_of, consume_investigation_round, record_check,
}

abbrev pub IsValid : BudgetUsage → Type 0
IsValid u = usage_does_not_exceed_limits u ≡ true

all-insert :
    (limit : ℕ) (k : String) (v : ℕ) (m : Dict ℕ)
    → v ≤ limit
    → all (λ (r : String × ℕ). leb r.1 limit) m ≡ true
    → all (λ (r : String × ℕ). leb r.1 limit) (insert k v m) ≡ true
unfolding insert
all-insert limit k v [] h a = ground arith
all-insert limit k v (x ∷ m) h a = ground (arith, all-insert limit k v m h)

pub consume_model_call-IsValid :
    (t : BudgetTracker) → IsValid t.usage → IsValid (consume_model_call t).1.usage
unfolding consume_model_call usage_does_not_exceed_limits
consume_model_call-IsValid t h = ground arith

pub consume_investigation_round-IsValid :
    (t : BudgetTracker) (k : String)
    → IsValid t.usage
    → IsValid (consume_investigation_round t k).1.usage
unfolding consume_investigation_round usage_does_not_exceed_limits
consume_investigation_round-IsValid t k h = ground (
  arith,
  all-insert t.usage.investigation_round_limit k (rounds_of k t.usage.investigation_rounds + 1)
      t.usage.investigation_rounds,
)

-- The calls that a tracker's client can make.
pub data Call : Type 0 where
  model : Call
  round : String → Call
  check : Call

unfoldable pub perform : BudgetTracker → Call → Bool × BudgetTracker
perform t model = let (r, t') = consume_model_call t in (is_ok r, t')
perform t (round k) = let (r, t') = consume_investigation_round t k in (is_ok r, t')
perform t check = let (u, t') = record_check t in (true, t')

unfoldable pub perform_all : BudgetTracker → List Call → BudgetTracker
perform_all t [] = t
perform_all t (c ∷ cs) = perform_all (perform t c).1 cs

abbrev pub is_round : String → Call → Bool
is_round k model = false
is_round k (round j) = j == k
is_round k check = false

abbrev pub is_model : Call → Bool
is_model model = true
is_model _ = false

-- how many of the calls that pass the test were granted
unfoldable pub granted : (Call → Bool) → BudgetTracker → List Call → ℕ
granted p t [] = 0
granted p t (c ∷ cs) =
    let rest = granted p (perform t c).1 cs in if p c && (perform t c).0 then suc rest else rest

perform-IsValid : (t : BudgetTracker) (c : Call) → IsValid t.usage → IsValid (perform t c).1.usage
unfolding perform record_check usage_does_not_exceed_limits
perform-IsValid t model h = consume_model_call-IsValid t h
perform-IsValid t (round k) h = consume_investigation_round-IsValid t k h
perform-IsValid t check h = h

pub perform_all-IsValid :
    (t : BudgetTracker) (cs : List Call) → IsValid t.usage → IsValid (perform_all t cs).usage
unfolding perform_all
perform_all-IsValid t [] h = h
perform_all-IsValid t (c ∷ cs) h = perform_all-IsValid (perform t c).1 cs (perform-IsValid t c h)

-- One call moves each counter by what it was granted.
perform-counts :
    (t : BudgetTracker) (c : Call) (k : String)
    → let u = t.usage in
      let u' = (perform t c).1.usage in
      (u'.model_calls_used
        ≡ (if is_model c && (perform t c).0 then suc u.model_calls_used else u.model_calls_used))
      × (rounds_of k u'.investigation_rounds ≡ (
          if is_round k c && (perform t c).0
          then suc (rounds_of k u.investigation_rounds)
          else rounds_of k u.investigation_rounds))
      × (u'.model_calls_limit ≡ u.model_calls_limit)
      × (u'.investigation_round_limit ≡ u.investigation_round_limit)
unfolding perform consume_model_call consume_investigation_round record_check
perform-counts t model k = ground arith
perform-counts t (round j) k = ground (
  arith,
  eq_iff j k,
  lookup-insert j k (rounds_of j t.usage.investigation_rounds + 1) t.usage.investigation_rounds,
)
perform-counts t check k = ground arith

-- After any calls a counter has moved by exactly the grants, and the limits have not moved.
pub perform_all-counts :
    (t : BudgetTracker) (cs : List Call) (k : String)
    → let u = t.usage in
      let u' = (perform_all t cs).usage in
      (u'.model_calls_used ≡ u.model_calls_used + granted is_model t cs)
      × (rounds_of k u'.investigation_rounds
          ≡ rounds_of k u.investigation_rounds + granted (is_round k) t cs)
      × (u'.model_calls_limit ≡ u.model_calls_limit)
      × (u'.investigation_round_limit ≡ u.investigation_round_limit)
unfolding perform_all granted
perform_all-counts t [] k = omega arith
perform_all-counts t (c ∷ cs) k =
    ground (arith, perform-counts t c k, perform_all-counts (perform t c).1 cs k)

rounds_of-le :
    (k : String) (m : Dict ℕ) (limit : ℕ)
    → all (λ (r : String × ℕ). leb r.1 limit) m ≡ true
    → rounds_of k m ≤ limit
unfolding rounds_of lookup
rounds_of-le k [] limit h = omega arith
rounds_of-le k (x ∷ m) limit h = ground (arith, rounds_of-le k m limit)

-- From a valid tracker, whatever calls are made, the granted model calls together with those
-- already used stay within the model-call limit, and the granted rounds for an invariant together
-- with those already used stay within the round limit.
pub grants_bounded :
    (t : BudgetTracker) (cs : List Call) (k : String)
    → IsValid t.usage
    → (t.usage.model_calls_used + granted is_model t cs ≤ t.usage.model_calls_limit)
      × (rounds_of k t.usage.investigation_rounds + granted (is_round k) t cs
          ≤ t.usage.investigation_round_limit)
unfolding usage_does_not_exceed_limits
grants_bounded t cs k h = ground (
  arith,
  perform_all-counts t cs k,
  perform_all-IsValid t cs h,
  rounds_of-le k (perform_all t cs).usage.investigation_rounds
      (perform_all t cs).usage.investigation_round_limit,
)
