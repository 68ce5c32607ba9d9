-- ===== src/Storage/Incidents.antt =====
-- backend/app/storage.py: `get_incident`, and the order in which sqlite lists rows.
use Prim.Native.Nat.{Ordering}
use Prim.Native.String.{compare}
use remedy_graph.Prelude.{
  ℕ, String, Option, none, some, List, [], ◌∷◌, map, filter, Bool, true, false, ltb, eqb, ◌&&◌,
  ◌||◌, ◌==◌, lookup, if◌then◌else◌,
}
use remedy_graph.Models.{Incident, ActionItem}
use remedy_graph.Audit.Contracts.{WorkflowEvent}
use remedy_graph.Storage.{Store}

-- (number, id)
abbrev pub SortKey : Type 0
SortKey = ℕ × String

-- the order of `ORDER BY number, id`
abbrev pub precedes : SortKey → SortKey → Bool
precedes a b =
    ltb a.0 b.0 || (eqb a.0 b.0 && (elim (compare a.1 b.1) [ Ordering.gt ↦ false | _ ↦ true ]))

module _ {A : Type 0} (key : A → SortKey) where
  unfoldable pub place : A → List A → List A
  place x [] = x ∷ []
  place x (y ∷ ys) =
      let rest = place x ys in if precedes (key x) (key y) then x ∷ y ∷ ys else y ∷ rest

  unfoldable pub sort_by : List A → List A
  unfolding place
  sort_by [] = []
  sort_by (x ∷ xs) = place x (sort_by xs)

-- ORDER BY ordering, id
abbrev pub action_key : ActionItem → SortKey
action_key a = (a.order, a.id)

-- ORDER BY sequence, id
abbrev pub event_key : WorkflowEvent → SortKey
event_key e = (e.sequence, e.id)

-- the rows of `corrective_actions` with this `incident_id`, which is also in the action
unfoldable pub list_actions : Store → String → List ActionItem
list_actions s incident_id = sort_by action_key (
    filter (λ (a : ActionItem). a.incident_id == incident_id)
      (map (λ (r : String × ActionItem). r.1) s.corrective_actions))

unfoldable pub get_incident : Store → String → Option Incident
get_incident s incident_id = elim (lookup incident_id s.incidents) [
  | none ↦ none
  | some i ↦ some (record i { actions = list_actions s incident_id })
]
