-- ===== src/Guards/Contracts.antt =====
-- backend/app/guards/contracts.py: previews, approvals and executions of generated guards.
use remedy_graph.Prelude.{ℕ, String, Option, none, some, List, Bool, true, false, eqb}

pub data GuardType : Type 0 where
  static_repository test_protection configuration : GuardType

pub data GuardStatus : Type 0 where
  previewed rejected written passed failed timed_out error : GuardStatus

pub data GuardExecutionStatus : Type 0 where
  passed failed timed_out error : GuardExecutionStatus

pub record GuardSpec : Type 0 where
  pub id : String
  pub run_id : String
  pub action_id : String
  pub invariant_id : String
  pub name : String
  pub guard_type : GuardType
  pub intent : String
  pub assumptions : List String
  pub assertions : List String
  pub target_path : String
  pub preview : String
  pub preview_sha256 : String
  pub template_version : String
  pub terms : List String
  pub test_only : Bool
  pub match_all : Bool
  pub expected_literals : List String
  pub execution_label : String
  pub status : GuardStatus

pub record GuardApproval : Type 0 where
  pub id : String
  pub guard_id : String
  pub run_id : String
  pub approved : Bool
  pub preview_sha256 : String

pub record GuardExecution : Type 0 where
  pub id : String
  pub guard_id : String
  pub run_id : String
  pub status : GuardExecutionStatus
  pub command_label : String
  pub exit_code : Option ℕ
  pub stdout : String
  pub stderr : String
  pub timed_out : Bool
  pub output_truncated : Bool
  pub artifact_sha256 : String

abbrev exited_zero : Option ℕ → Bool
exited_zero none = false
exited_zero (some n) = eqb n 0

abbrev consistent : GuardExecutionStatus → GuardExecution → Bool
consistent GuardExecutionStatus.timed_out x = x.timed_out
consistent GuardExecutionStatus.passed x = exited_zero x.exit_code
consistent _ x = true

-- `execution_state_is_consistent`
unfoldable pub execution_state_is_consistent : GuardExecution → Bool
execution_state_is_consistent e = consistent e.status e
