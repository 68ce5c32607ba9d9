-- ===== src/Storage/Records/Laws.antt =====
-- backend/app/storage.py: the actions of an incident that was saved.
use remedy_graph.Prelude.{any, ◌||◌, Option-cases, none, Option}
use remedy_graph.Prelude.{
  String, some, List, [], ◌∷◌, map, filter, member, distinct, not, Bool, true, false, ◌&&◌, ◌==◌,
  ◌≡◌, refl, ◌∙◌, All, arith, eq_iff, Dict, lookup, insert, lookup-insert, lookup-insert_self,
  Bool-cases, inl, inr,
}
use remedy_graph.Result.{is_ok}
use remedy_graph.Models.{Incident, ActionItem}
use remedy_graph.Storage.{Store, commit}
use remedy_graph.Storage.Records.{
  get_action, delete_absent, insert_actions, write_incident, validate_incident, save_incident,
}

abbrev ids : List ActionItem → List String
ids actions = map (λ (a : ActionItem). a.id) actions

-- an id that is not written keeps its row
lookup-insert_actions :
    (k : String) (actions : List ActionItem) (rows : Dict ActionItem)
    → member k (ids actions) ≡ false
    → lookup k (insert_actions actions rows) ≡ lookup k rows
unfolding insert_actions
lookup-insert_actions k [] rows h = refl
lookup-insert_actions k (a ∷ actions) rows h = ground (
  arith,
  lookup-insert_actions k actions (insert a.id a rows),
  lookup-insert a.id k a rows,
  eq_iff a.id k,
  eq_iff k a.id,
)

-- every action is found under its id
Stored : Dict ActionItem → ActionItem → Type 0
Stored rows a = lookup a.id rows ≡ some a

insert_actions-Stored :
    (actions : List ActionItem) (rows : Dict ActionItem)
    → distinct (ids actions) ≡ true
    → All (Stored (insert_actions actions rows)) actions
unfolding insert_actions Stored
insert_actions-Stored [] rows h = tt
insert_actions-Stored (a ∷ actions) rows h = (
  ground (
    arith,
    lookup-insert_actions a.id actions (insert a.id a rows),
    lookup-insert_self a.id a rows,
  ),
  insert_actions-Stored actions (insert a.id a rows) (ground arith),
)

-- a row that is found has passed the filter
lookup-filter :
    (p : String × ActionItem → Bool) (k : String) (rows : Dict ActionItem) (a : ActionItem)
    → lookup k (filter p rows) ≡ some a
    → p (k, a) ≡ true
unfolding lookup
lookup-filter p k [] a h = absurd (ground arith)
lookup-filter p k ((name, value) ∷ rows) a h = elim (Bool-cases (p (name, value))) [
  | inl e ↦ ground (arith, eq_iff name k, lookup-filter p k rows a)
  | inr e ↦ ground (arith, eq_iff name k, lookup-filter p k rows a)
]

module _ (accepts : Store → Bool) where
  save_incident-ok :
      (incident : Incident) (s : Store)
      → is_ok (save_incident accepts incident s).0 ≡ true
      → (is_ok (validate_incident s incident) ≡ true)
        × ((save_incident accepts incident s).1 ≡ write_incident incident s)
  unfolding save_incident commit
  save_incident-ok incident s h = ground arith

validate_incident-distinct :
    (s : Store) (incident : Incident)
    → is_ok (validate_incident s incident) ≡ true
    → distinct (ids incident.actions) ≡ true
unfolding validate_incident
validate_incident-distinct s incident h = ground arith

-- the row is one of the incident
abbrev pub is_of : String → Option ActionItem → Bool
is_of incident_id none = false
is_of incident_id (some a) = a.incident_id == incident_id

is_of-insert_actions :
    (incident_id k : String) (actions : List ActionItem) (rows : Dict ActionItem)
    → any (λ (a : ActionItem). not (a.incident_id == incident_id)) actions ≡ false
    → is_of incident_id (lookup k (insert_actions actions rows))
      ≡ (member k (ids actions) || is_of incident_id (lookup k rows))
unfolding insert_actions
is_of-insert_actions incident_id k [] rows h = refl
is_of-insert_actions incident_id k (a ∷ actions) rows h = ground (
  arith,
  is_of-insert_actions incident_id k actions (insert a.id a rows),
  lookup-insert a.id k a rows,
  eq_iff a.id k,
  eq_iff k a.id,
)

-- what is left of the incident's old rows is written anew
is_of-delete_absent :
    (incident_id k : String) (kept : List String) (rows : Dict ActionItem)
    → (member k kept || is_of incident_id (lookup k (delete_absent incident_id kept rows)))
      ≡ member k kept
unfolding delete_absent
is_of-delete_absent incident_id k kept rows =
    let test =
      λ (r : String × ActionItem). not (r.1.incident_id == incident_id && not (member r.0 kept)) in
    elim (Option-cases (lookup k (filter test rows))) [
      | inl e ↦ ground arith
      | inr (a, e) ↦ ground (arith, lookup-filter test k rows a e)
    ]

validate_incident-owned :
    (s : Store) (incident : Incident)
    → is_ok (validate_incident s incident) ≡ true
    → any (λ (a : ActionItem). not (a.incident_id == incident.id)) incident.actions ≡ false
unfolding validate_incident
validate_incident-owned s incident h = ground arith

-- After an incident is saved, each of its actions is found under its id, and a stored action is one
-- of the incident exactly when it stands under the id of one of them.
pub save_incident-get_action :
    (accepts : Store → Bool) (incident : Incident) (s : Store) (k : String)
    → is_ok (save_incident accepts incident s).0 ≡ true
    → All
        (λ (a : ActionItem). get_action (save_incident accepts incident s).1 a.id ≡ some a)
        incident.actions
      × (is_of incident.id (get_action (save_incident accepts incident s).1 k)
          ≡ member k (map (λ (b : ActionItem). b.id) incident.actions))
unfolding get_action write_incident Stored
save_incident-get_action accepts incident s k h =
    let (valid, written) = save_incident-ok accepts incident s h in
    let rows = delete_absent incident.id (ids incident.actions) s.corrective_actions in
    rw written (
      insert_actions-Stored incident.actions rows (validate_incident-distinct s incident valid),
      is_of-insert_actions incident.id k incident.actions rows
            (validate_incident-owned s incident valid)
          ∙ is_of-delete_absent incident.id k (ids incident.actions) s.corrective_actions,
    )
