-- ===== src/Storage/Records.antt =====
-- backend/app/storage.py: the methods that store a project, an incident with its actions, and the
-- metadata of a repository's index.
pub mod Laws
use remedy_graph.Prelude.{
  String, Option, none, some, List, [], ◌∷◌, map, filter, any, member, distinct, not, Bool, true,
  false, ◌&&◌, ◌==◌, Dict, lookup, insert,
}
use remedy_graph.Result.{Error, state_integrity, integrity_error, Result, ok, err, raise_if, ◌>>◌}
use remedy_graph.Models.{Project, Incident, ActionItem}
use remedy_graph.Audit.Contracts.{AuditRunSummary, RepositoryIndexMetadata}
use remedy_graph.Storage.{Store, commit}
use remedy_graph.Storage.Guards.{get_run_summary}

unfoldable pub get_project : Store → String → Option Project
get_project s project_id = lookup project_id s.projects

unfoldable pub get_action : Store → String → Option ActionItem
get_action s action_id = lookup action_id s.corrective_actions

abbrev pub is_known : {A : Type 0} → Option A → Bool
is_known none = false
is_known (some a) = true

-- `DELETE FROM corrective_actions WHERE incident_id = ? AND id NOT IN (…)`
unfoldable pub delete_absent : String → List String → Dict ActionItem → Dict ActionItem
delete_absent incident_id ids rows =
    filter
      (λ (r : String × ActionItem). not (r.1.incident_id == incident_id && not (member r.0 ids)))
      rows

-- for action in incident.actions: INSERT … ON CONFLICT(id) DO UPDATE
unfoldable pub insert_actions : List ActionItem → Dict ActionItem → Dict ActionItem
insert_actions [] rows = rows
insert_actions (a ∷ more) rows = insert_actions more (insert a.id a rows)

-- the statements of the transaction of `save_incident`
unfoldable pub write_incident : Incident → Store → Store
write_incident incident s =
    let ids = map (λ (a : ActionItem). a.id) incident.actions in
    record s {
      incidents = insert incident.id (record incident { actions = [] }) s.incidents;
      corrective_actions =
          insert_actions incident.actions (delete_absent incident.id ids s.corrective_actions);
    }

abbrev project_is_known : Store → Option String → Bool
project_is_known s none = true
project_is_known s (some project_id) = is_known (get_project s project_id)

unfoldable pub validate_incident : Store → Incident → Result (Unit {0})
validate_incident s incident = do
  raise_if (not (project_is_known s incident.project_id))
      (state_integrity "incident references an unknown project")
  raise_if (not (distinct (map (λ (a : ActionItem). a.id) incident.actions)))
      (state_integrity "incident contains duplicate corrective actions")
  raise_if (any (λ (a : ActionItem). not (a.incident_id == incident.id)) incident.actions)
      (state_integrity "corrective action does not belong to incident")

abbrev run_is_of : String → Option AuditRunSummary → Bool
run_is_of project_id none = false
run_is_of project_id (some run) = run.project_id == project_id

abbrev index_run_is_known : Store → RepositoryIndexMetadata → Option String → Bool
index_run_is_known s metadata none = true
index_run_is_known s metadata (some run_id) =
    run_is_of metadata.project_id (get_run_summary s run_id)

unfoldable pub validate_index : Store → RepositoryIndexMetadata → Result (Unit {0})
validate_index s metadata = do
  raise_if (not (is_known (get_project s metadata.project_id)))
      (state_integrity "repository index references an unknown project")
  raise_if (not (index_run_is_known s metadata metadata.run_id))
      (state_integrity "repository index run does not belong to project")

module _ (accepts : Store → Bool) where
  -- a transaction that runs when the checks before it have passed
  abbrev pub write_checked :
      Error → Result (Unit {0}) → (Store → Store) → Store → Result (Unit {0}) × Store
  write_checked e (err z) write s = (err z, s)
  write_checked e (ok u) write s = commit accepts e tt s (write s)

  unfoldable pub save_project : Project → Store → Result (Unit {0}) × Store
  save_project project s =
      commit accepts integrity_error tt s
        (record s { projects = insert project.id project s.projects })

  unfoldable pub save_incident : Incident → Store → Result (Unit {0}) × Store
  save_incident incident s =
      write_checked (state_integrity "incident violates persistence integrity")
        (validate_incident s incident) (write_incident incident) s

  unfoldable pub save_repository_index : RepositoryIndexMetadata → Store → Result (Unit {0}) × Store
  save_repository_index metadata s =
      write_checked integrity_error (validate_index s metadata)
        (λ t. record t {
          repository_index_metadata = insert metadata.id metadata t.repository_index_metadata;
        })
        s
