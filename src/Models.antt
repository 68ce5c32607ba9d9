-- ===== src/Models.antt =====
-- backend/app/models.py: the domain records shared by services and API responses. Timestamps
-- (`created_at`, `updated_at`) are left out of every record of the development.
use remedy_graph.Prelude.{ℕ, String, Option, List}

pub data Verdict : Type 0 where
  verified partial missing unverifiable : Verdict

pub data EvidenceKind : Type 0 where
  code configuration test document git execution absent : EvidenceKind

pub data RunStatus : Type 0 where
  queued parsing extracting_actions compiling_invariants indexing investigating : RunStatus
  verifying complete partial_complete failed cancelled : RunStatus

pub Verdict-discrete : Discrete Verdict
Verdict-discrete = hlevel

pub RunStatus-discrete : Discrete RunStatus
RunStatus-discrete = hlevel

pub record Project : Type 0 where
  pub id : String
  pub name : String
  pub repository_path : String
  pub index_version : String

pub record ActionItem : Type 0 where
  pub id : String
  pub incident_id : String
  pub text : String
  pub source_line : Option ℕ
  pub source_section : Option String
  pub order : ℕ

pub record Incident : Type 0 where
  pub id : String
  pub project_id : Option String
  pub title : String
  pub summary : Option String
  pub affected_services : List String
  pub source_name : Option String
  pub source_text_hash : String
  pub actions : List ActionItem
