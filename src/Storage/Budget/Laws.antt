-- ===== src/Storage/Budget/Laws.antt =====
-- backend/app/storage.py: what a reservation does to the counters, and how many calls any sequence of them can grant.
use remedy_graph.Prelude.{
  ◌↔◌, ℕ, suc, ◌+◌, ◌≤◌, ◌<◌, String, ◌≡◌, Option, none, some, List, [], ◌∷◌, Bool, true, false,
  ◌&&◌, arith, ◌==◌, eq_iff, if◌then◌else◌, lookup, lookup-insert, insert,
}
use remedy_graph.Result.{Result, is_ok}
use remedy_graph.Audit.Contracts.{BudgetUsage, usage_does_not_exceed_limits}
use remedy_graph.Models.{Incident}
use remedy_graph.Storage.{Store, commit}
use remedy_graph.Storage.Budget.{
  validated, get_incident_budget, or_fresh, effective_limit, charged, reserve_incident_model_call,
}

abbrev used_by : Option BudgetUsage → ℕ
used_by none = 0
used_by (some u) = u.model_calls_used

abbrev pub is_known : Option Incident → Bool
is_known none = false
is_known (some i) = true

-- The calls that are charged to an incident.
unfoldable pub used : String → Store → ℕ
used i s = used_by (get_incident_budget s i)

-- One call of `reserve_incident_model_call`: whether the database is locked, the incident and the
-- caller's limit.
pub record Request : Type 0 where
  pub locked : Bool
  pub incident_id : String
  pub limit : ℕ

module _ (accepts : Store → Bool) where
  abbrev pub reserve : Request → Store → Result BudgetUsage × Store
  reserve r s = reserve_incident_model_call accepts r.locked r.incident_id r.limit s

  -- A refused reservation leaves the store as it was.
  pub reserve_error_unchanged :
      (r : Request) (s : Store) → is_ok (reserve r s).0 ≡ false → (reserve r s).1 ≡ s
  unfolding reserve_incident_model_call commit
  reserve_error_unchanged r s h = ground arith

  -- A granted one had room under the caller's limit and under 6.
  pub granted-lt :
      (r : Request) (s : Store)
      → is_ok (reserve r s).0 ≡ true
      → (used r.incident_id s < r.limit) × (used r.incident_id s < 6)
  unfolding reserve_incident_model_call commit used validated effective_limit get_incident_budget
  granted-lt r s h = ground arith

  -- A granted one moves the counter of its own incident by one, and no other.
  pub used-reserve :
      (j : String) (r : Request) (s : Store)
      → used j (reserve r s).1
        ≡ (if r.incident_id == j && is_ok (reserve r s).0 then suc (used j s) else used j s)
  unfolding reserve_incident_model_call commit used validated get_incident_budget
  used-reserve j r s =
      let u = charged (or_fresh (get_incident_budget s r.incident_id) r.limit) r.limit in
      ground
        (arith, eq_iff r.incident_id j, lookup-insert r.incident_id j u s.incident_budget_counters)

  -- When the database is free and accepts every commit, a reservation is granted exactly when the
  -- incident is known, its counter (a fresh one for an incident without) is valid, and the calls
  -- used are below the counter's limit, the caller's limit and 6.
  pub reserve_granted :
      (r : Request) (s : Store)
      → ((t : Store) → accepts t ≡ true)
      → r.locked ≡ false
      → let current = or_fresh (get_incident_budget s r.incident_id) r.limit in
        (is_ok (reserve r s).0 ≡ true) ↔ (
          (is_known (lookup r.incident_id s.incidents) ≡ true)
          × (usage_does_not_exceed_limits current ≡ true)
          × (current.model_calls_used < current.model_calls_limit)
          × (current.model_calls_used < r.limit)
          × (current.model_calls_used < 6))
  unfolding reserve_incident_model_call commit validated effective_limit
      usage_does_not_exceed_limits
  reserve_granted r s all free =
      let u = charged (or_fresh (get_incident_budget s r.incident_id) r.limit) r.limit in
      ground (
        arith,
        all (record s {
          incident_budget_counters = insert r.incident_id u s.incident_budget_counters;
        }),
      )

  unfoldable pub reserve_all : List Request → Store → Store
  reserve_all [] s = s
  reserve_all (r ∷ rs) s = reserve_all rs (reserve r s).1

  -- How many of the requests for the incident were granted.
  unfoldable pub granted : String → List Request → Store → ℕ
  granted j [] s = 0
  granted j (r ∷ rs) s =
      let rest = granted j rs (reserve r s).1 in
      if r.incident_id == j && is_ok (reserve r s).0 then suc rest else rest

  pub used-reserve_all :
      (j : String) (rs : List Request) (s : Store)
      → used j (reserve_all rs s) ≡ used j s + granted j rs s
  unfolding reserve_all granted
  used-reserve_all j [] s = omega arith
  used-reserve_all j (r ∷ rs) s =
      ground (arith, used-reserve j r s, used-reserve_all j rs (reserve r s).1)

  used-reserve-le :
      (j : String) (r : Request) (s : Store) → used j s ≤ 6 → used j (reserve r s).1 ≤ 6
  used-reserve-le j r s h =
      ground (arith, eq_iff r.incident_id j, used-reserve j r s, granted-lt r s)

  used-reserve_all-le :
      (j : String) (rs : List Request) (s : Store) → used j s ≤ 6 → used j (reserve_all rs s) ≤ 6
  unfolding reserve_all
  used-reserve_all-le j [] s h = h
  used-reserve_all-le j (r ∷ rs) s h =
      used-reserve_all-le j rs (reserve r s).1 (used-reserve-le j r s h)

  -- Whatever requests are made, with whatever limits, locks and incidents between them, the calls
  -- granted to an incident and those it had used before are never more than 6 together, and the
  -- counter has moved by exactly the granted calls.
  pub grants_per_incident :
      (j : String) (rs : List Request) (s : Store)
      → used j s ≤ 6
      → (used j s + granted j rs s ≤ 6) × (used j (reserve_all rs s) ≡ used j s + granted j rs s)
  grants_per_incident j rs s h =
      ground (arith, used-reserve_all j rs s, used-reserve_all-le j rs s h)
