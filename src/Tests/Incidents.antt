-- ===== src/Tests/Incidents.antt =====
-- The sample incident is saved again with another action.
use remedy_graph.Prelude.{some, [], ◌∷◌, map, member, true, ◌≡◌, refl, All, lookup}
use remedy_graph.Result.{is_ok}
use remedy_graph.Models.{Incident, ActionItem}
use remedy_graph.Storage.{commit}
use remedy_graph.Storage.Records.{get_action, get_project, validate_incident, save_incident}
use remedy_graph.Storage.Records.Laws.{is_of, save_incident-get_action}
use remedy_graph.Tests.Samples.{cap_retries, outage}
use remedy_graph.Tests.Snapshots.{store, accept_all}

abbrev renewed : Incident
renewed = record outage {
  actions = record cap_retries { id = "a2"; text = "Alert on retries" } ∷ [];
}

renewed_saved : is_ok (save_incident accept_all renewed store).0 ≡ true
unfolding save_incident validate_incident get_project lookup commit
renewed_saved = refl

save_incident-get_action_example :
    All
      (λ (a : ActionItem). get_action (save_incident accept_all renewed store).1 a.id ≡ some a)
      renewed.actions
    × (is_of renewed.id (get_action (save_incident accept_all renewed store).1 "a1")
        ≡ member "a1" (map (λ (b : ActionItem). b.id) renewed.actions))
save_incident-get_action_example =
    save_incident-get_action accept_all renewed store "a1" renewed_saved
