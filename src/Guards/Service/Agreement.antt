-- ===== src/Guards/Service/Agreement.antt =====
-- backend/app/storage.py: the agreement of guard statuses with recorded decisions.
use remedy_graph.Prelude.{
  String, ◌≡◌, Option, none, some, [], ◌∷◌, not, Bool, true, false, ◌&&◌, ◌==◌, eq_iff, lookup,
  lookup-insert, Dict, arith, if◌then◌else◌,
}
use remedy_graph.Guards.Contracts.{
  GuardSpec, GuardApproval, GuardExecution, GuardStatus, previewed, rejected,
}
use remedy_graph.Storage.{Store, commit}
use remedy_graph.Storage.Guards.{
  get_guard, get_guard_approval, update_guard, delete_approval, check_decision,
  record_guard_decision, restore_guard_preview, save_guard_execution,
}

-- A previewed guard has no decision, a rejected one has a refusal, and any other has an approval of
-- its present preview.
abbrev pub agreed : GuardStatus → String → Option GuardApproval → Bool
agreed previewed sha none = true
agreed previewed sha (some a) = false
agreed rejected sha none = false
agreed rejected sha (some a) = not a.approved
agreed _ sha none = false
agreed _ sha (some a) = a.approved && a.preview_sha256 == sha

abbrev pub row_agrees : String → Option GuardSpec → Option GuardApproval → Bool
row_agrees k none a = true
row_agrees k (some g) a = g.id == k && agreed g.status g.preview_sha256 a

abbrev pub Agrees : Store → Type 0
Agrees s = (k : String) → row_agrees k (get_guard s k) (get_guard_approval s k) ≡ true

-- what `update_guard` leaves in the row of a guard
abbrev updated : GuardSpec → Option GuardSpec → Option GuardSpec
updated g none = none
updated g (some old) = if old.run_id == g.run_id then some g else some old

pub lookup-update_guard :
    (g : GuardSpec) (j : String) (m : Dict GuardSpec)
    → lookup j (update_guard g m) ≡ (if g.id == j then updated g (lookup j m) else lookup j m)
unfolding lookup update_guard
lookup-update_guard g j [] = ground arith
lookup-update_guard g j ((k, old) ∷ m) =
    ground (arith, lookup-update_guard g j m, eq_iff k j, eq_iff k g.id, eq_iff g.id j)

pub lookup-delete_approval :
    (k j : String) (m : Dict GuardApproval)
    → lookup j (delete_approval k m) ≡ (if k == j then none else lookup j m)
unfolding lookup delete_approval
lookup-delete_approval k j [] = ground arith
lookup-delete_approval k j ((i, a) ∷ m) =
    ground (arith, lookup-delete_approval k j m, eq_iff i k, eq_iff i j, eq_iff k j)

module _ (accepts : Store → Bool) where
  pub record_guard_decision-Agrees :
      (old g : GuardSpec) (a : GuardApproval) (s : Store)
      → get_guard s g.id ≡ some old
      → old.run_id ≡ g.run_id
      → Agrees s
      → Agrees (record_guard_decision accepts g a s).1
  unfolding record_guard_decision check_decision commit get_guard get_guard_approval
  record_guard_decision-Agrees old g a s e r h k = ground (
    arith,
    h k,
    lookup-update_guard g k s.guard_specs,
    lookup-insert g.id k a s.guard_approvals,
    eq_iff g.id k,
    eq_iff old.run_id g.run_id,
    eq_iff a.preview_sha256 g.preview_sha256,
  )

  pub restore_guard_preview-Agrees :
      (old g : GuardSpec) (s : Store)
      → get_guard s g.id ≡ some old
      → old.run_id ≡ g.run_id
      → g.status ≡ previewed
      → Agrees s
      → Agrees (restore_guard_preview accepts g s).1
  unfolding restore_guard_preview commit get_guard get_guard_approval
  restore_guard_preview-Agrees old g s e r p h k = ground (
    arith,
    h k,
    lookup-update_guard g k s.guard_specs,
    lookup-delete_approval g.id k s.guard_approvals,
    eq_iff g.id k,
    eq_iff old.run_id g.run_id,
  )

  pub save_guard_execution-Agrees :
      (old g : GuardSpec) (x : GuardExecution) (s : Store)
      → get_guard s g.id ≡ some old
      → old.run_id ≡ g.run_id
      → agreed g.status g.preview_sha256 (get_guard_approval s g.id) ≡ true
      → Agrees s
      → Agrees (save_guard_execution accepts g x s).1
  unfolding save_guard_execution commit get_guard get_guard_approval
  save_guard_execution-Agrees old g x s e r p h k =
      ground (
        arith,
        h k,
        lookup-update_guard g k s.guard_specs,
        eq_iff g.id k,
        eq_iff old.run_id g.run_id,
      )
