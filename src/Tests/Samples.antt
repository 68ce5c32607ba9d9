-- ===== src/Tests/Samples.antt =====
-- An audit in small: an incident with one action, its requirement, checks and evidence.
use remedy_graph.Prelude.{String, none, some, [], ◌∷◌, Bool}
use remedy_graph.Models.{ActionItem, Incident, EvidenceKind}
use remedy_graph.Audit.Contracts.{
  RequirementKind, RequirementAvailability, CompiledInvariant, EvidenceRole, EvidenceRecord,
  CheckOutcome, DeterministicCheckResult,
}

-- a stand-in for the hash
abbrev pub no_hash : String → String
no_hash s = s

abbrev pub cap_retries : ActionItem
cap_retries = record {
  id = "a1";
  incident_id = "inc";
  text = "Cap retries at 3";
  source_line = some 12;
  source_section = none;
  order = 0;
}

abbrev pub outage : Incident
outage = record {
  id = "inc";
  project_id = some "p1";
  title = "Outage";
  summary = none;
  affected_services = [];
  source_name = none;
  source_text_hash = "h";
  actions = cap_retries ∷ [];
}

abbrev pub invariant_sample : CompiledInvariant
invariant_sample = record {
  id = "i1";
  action_id = "a1";
  original_action = "Cap retries at 3";
  source_location = record { line = some 12; section = none };
  statement = "The effective configured value must be at most 3";
  requirement_kind = RequirementKind.numeric_configuration;
  availability = RequirementAvailability.supported;
  expected_value = none;
  unit = none;
  required_proof = "regression protection" ∷ [];
  unavailable_reason = none;
}

abbrev pub evidence_sample : String → EvidenceKind → EvidenceRole → EvidenceRecord
evidence_sample id kind role = record {
  id = id;
  run_id = "run";
  action_id = "a1";
  invariant_id = "i1";
  kind = kind;
  role = role;
  source_path = some "app.py";
  line_start = some 1;
  line_end = some 2;
  excerpt = none;
  source_record_id = none;
  metadata = [];
}

abbrev pub result_sample : String → Bool → CheckOutcome → DeterministicCheckResult
result_sample id core outcome = record {
  id = id;
  run_id = "run";
  invariant_id = "i1";
  check_spec_id = "s1";
  outcome = outcome;
  passed = none;
  core = core;
  expected = none;
  actual = none;
  detail = "retry limit is not set";
  evidence_ids = [];
}
