-- ===== src/Workflow/Agents.antt =====
-- packages/contracts/src/agent/contracts.ts: what is asked of an agent and what it answers. Costs
-- are natural numbers, and a result has the status that the agent reported, whichever it is.
use constructie_orchestrator.Base.{ℕ, String, List, Option, Eq, enum_eq, Result}

pub data AgentRunStatus : Type 0 where
  created queued starting running waiting_for_tool waiting_for_input completed : AgentRunStatus
  failed cancelling cancelled interrupted unknown : AgentRunStatus

unfoldable pub AgentRunStatus-discrete : Discrete AgentRunStatus
AgentRunStatus-discrete = hlevel

instance abbrev pub AgentRunStatus_eq : Eq AgentRunStatus
AgentRunStatus_eq = enum_eq AgentRunStatus-discrete

pub data InputClassification : Type 0 where
  authoritative derived observed proposed : InputClassification

pub record AuthoritativeInput : Type 0 where
  pub ref : String
  pub classification : InputClassification

pub record WorkPackage : Type 0 where
  pub work_package_id : String
  pub version : ℕ
  pub project_id : String
  pub work_item_id : String
  pub completion_object_ref : String
  pub objective : String
  pub authoritative_inputs : List AuthoritativeInput
  pub scope_refs : List String
  pub constraints : List String
  pub authority_context_ref : String
  pub required_capabilities : List String
  pub allowed_actions : List String
  pub forbidden_actions : List String
  pub tools_allowed : List String
  pub expected_artifacts_out : List String
  pub verification_requirements : List String
  pub evidence_requirements : List String
  pub dependencies : List String
  pub stop_conditions : List String

pub record AgentRuntimeContext : Type 0 where
  pub correlation_id : String
  pub workflow_run_id : String
  pub attempt_id : String
  pub sandbox_ref : Option String
  pub tool_session_ref : Option String
  pub secret_refs : List String
  pub time_budget_ms : Option ℕ
  pub cost_budget : Option ℕ

pub record AgentRunHandle : Type 0 where
  pub run_id : String
  pub status : AgentRunStatus

pub data ArtifactType : Type 0 where
  patch file commit branch pr test_report build deployment document screenshot : ArtifactType
  log_bundle : ArtifactType

pub record ArtifactRef : Type 0 where
  pub artifact_id : String
  pub artifact_type : ArtifactType
  pub ref : String

pub record EvidenceRef : Type 0 where
  pub evidence_id : String
  pub evidence_type : String
  pub claim_supported : String
  pub source_ref : String

pub data CostStatus : Type 0 where
  known estimated unknown : CostStatus

pub record AgentUsage : Type 0 where
  pub input_units : ℕ
  pub output_units : ℕ
  pub estimated_cost : ℕ
  pub currency : String
  pub cost_status : CostStatus

pub data Severity : Type 0 where
  critical high medium low : Severity

pub record Finding : Type 0 where
  pub claim : String
  pub severity : Severity
  pub evidence_refs : List String

pub record AgentRunResult : Type 0 where
  pub run_id : String
  pub status : AgentRunStatus
  pub summary : String
  pub actions_taken : List String
  pub artifacts : List ArtifactRef
  pub findings : List Finding
  pub evidence : List EvidenceRef
  pub unresolved_items : List String
  pub requested_inputs : List String
  pub side_effects : List String
  pub usage : AgentUsage

-- The answers of an agent adapter to the calls of one execution, each a value or a thrown text.
pub record AgentAdapter : Type 0 where
  pub execute : WorkPackage → AgentRuntimeContext → Result String AgentRunHandle
  pub resume : String → AgentRuntimeContext → Result String AgentRunHandle
  pub get_status : String → Result String AgentRunStatus
  pub get_artifacts : String → Result String (List ArtifactRef)
  pub get_evidence : String → Result String (List EvidenceRef)
  pub get_usage : String → Result String AgentUsage
