-- ===== src/Run/Types.antt =====
-- packages/workflow/src/run-coordinator.ts, packages/contracts/src/reviewer.ts and
-- packages/domain/src/project/project-event.ts: the states, the verdicts and the events of a run.
-- The payload of an event has its type as constructor. The fields that are the same in every event
-- of a run, and the two empty objects of a review request, are left out.
use constructie_orchestrator.Base.{ℕ, String, List, Option, Bool, true, false, Eq, enum_eq}
use constructie_orchestrator.Workflow.Agents.{AgentRunStatus, AgentRunResult, WorkPackage}

pub data RunState : Type 0 where
  starting running evaluating repairing waiting_for_owner reconciling closed blocked : RunState

unfoldable pub RunState-discrete : Discrete RunState
RunState-discrete = hlevel

instance abbrev pub RunState_eq : Eq RunState
RunState_eq = enum_eq RunState-discrete

pub data ReviewDecision : Type 0 where
  pass fail_repairable owner_decision_required ambiguous_side_effect : ReviewDecision
  blocked complete needs_evidence : ReviewDecision

unfoldable pub ReviewDecision-discrete : Discrete ReviewDecision
ReviewDecision-discrete = hlevel

instance abbrev pub ReviewDecision_eq : Eq ReviewDecision
ReviewDecision_eq = enum_eq ReviewDecision-discrete

pub record RepairPackage : Type 0 where
  pub finding_id : String
  pub requirement_ref : String
  pub observed_evidence : String
  pub allowed_scope : List String
  pub forbidden_actions : List String
  pub required_verification : List String
  pub required_evidence : List String
  pub re_review_trigger : String

pub record ReviewVerdict : Type 0 where
  pub decision : ReviewDecision
  pub findings : List String
  pub repair_package : Option RepairPackage
  pub review_depth : String
  pub lineage : List String
  pub pending_action : Option String
  pub pending_gate : Option String
  pub pending_authority_type : Option String
  pub next_action : Option String

pub record ReviewRequest : Type 0 where
  pub project_id : String
  pub workflow_run_id : String
  pub work_package_id : String
  pub attempt_id : String
  pub scope_revision : String
  pub contract_revision : String
  pub moc_revision : String
  pub requirement_refs : List String
  pub evidence_refs : List String
  pub verification_refs : List String
  pub ledger_revision : ℕ

pub data StatusClass : Type 0 where
  non_terminal terminal ambiguous : StatusClass

-- `classifyStatus`, whose three sets cover all statuses.
unfoldable pub classify_status : AgentRunStatus → StatusClass
classify_status AgentRunStatus.completed = terminal
classify_status AgentRunStatus.failed = terminal
classify_status AgentRunStatus.cancelled = terminal
classify_status AgentRunStatus.interrupted = terminal
classify_status AgentRunStatus.unknown = ambiguous
classify_status _ = non_terminal

unfoldable pub is_non_terminal : AgentRunStatus → Bool
is_non_terminal status = elim (classify_status status) [
  | non_terminal ↦ true
  | terminal ↦ false
  | ambiguous ↦ false
]

-- The three things that wait for the owner: an action, its gate and the type of authority.
pub record Pending : Type 0 where
  pub action : Option String
  pub gate : Option String
  pub authority_type : Option String

-- The result in a RUN_COMPLETED event: the agent's, or a failure with the findings as its summary.
pub data ReportedResult : Type 0 where
  given : AgentRunResult → ReportedResult
  failure : String → ReportedResult

pub data RunEvent : Type 0 where
  run_started : String → WorkPackage → Pending → String → RunEvent
  run_repair_started : String → WorkPackage → Pending → String → RunEvent
  run_dispatched : String → String → RunEvent
  run_completed : String → ReportedResult → RunEvent
  run_blocked : String → String → RunEvent
  evaluation_failed_repairable : String → ℕ → Option RepairPackage → RunEvent
  evaluation_needs_evidence : String → ℕ → RunEvent
  evaluation_ambiguous_side_effect : String → RunEvent
  evaluation_owner_decision_required : String → Pending → RunEvent
  evaluation_passed : String → Option String → RunEvent
  run_closed : String → RunEvent
  run_resumed : String → String → RunEvent
  reconciliation_outcome : String → Bool → String → String → RunEvent

pub record ProjectEvent : Type 0 where
  pub id : String
  pub project_id : String
  pub aggregate_id : String
  pub aggregate_revision : ℕ
  pub correlation_id : String
  pub causation_id : Option String
  pub payload : RunEvent
  pub occurred_at : ℕ
