-- ===== src/Workflow/Legal.antt =====
-- packages/workflow/src/minimal-workflow-engine.ts: what the agent's answers come to, and that it is
-- legal.
use constructie_orchestrator.Base.{◌≡◌, refl, String, ok, err, String_eq, ℕ_eq, Result}
use constructie_orchestrator.Domain.WorkItem.{
  WorkItemLifecycleState, WorkItemLifecycleState_eq, WorkItemLifecycleState-discrete, waiting,
  recovery_required, AttemptState, AttemptState_eq, AttemptState-discrete,
  assert_work_item_transition, assert_attempt_transition, work_item_transitions,
  attempt_transitions,
}
use constructie_orchestrator.Workflow.Agents.{
  AgentAdapter, AgentRunHandle, AgentRunResult, AgentRunStatus, AgentRunStatus_eq,
}
use constructie_orchestrator.Workflow.Engine.{map_result, collect}

-- What the agent's answers come to: those of the run, then those asked for after it.
unfoldable pub judged : Result String AgentRunResult → AttemptState × WorkItemLifecycleState
judged (err e) = (AttemptState.failed, recovery_required)
judged (ok result) = map_result result.status

unfoldable pub run_outcome :
    AgentRunStatus → Result String AgentRunResult → AttemptState × WorkItemLifecycleState
run_outcome AgentRunStatus.waiting_for_input answers = (AttemptState.interrupted, waiting)
run_outcome AgentRunStatus.unknown answers = (AttemptState.unknown, recovery_required)
run_outcome _ answers = judged answers

unfoldable pub launch_outcome :
    AgentAdapter → Result String AgentRunHandle → AttemptState × WorkItemLifecycleState
launch_outcome adapter (err e) = (AttemptState.failed, recovery_required)
launch_outcome adapter (ok run) =
    run_outcome run.status (collect adapter "Execution completed" run.run_id)

-- Each outcome is legal from a running attempt and a running work item.
abbrev pub IsLegal : AttemptState × WorkItemLifecycleState → Type 0
IsLegal o =
    (assert_attempt_transition AttemptState.running o.0 ≡ ok tt)
    × (assert_work_item_transition WorkItemLifecycleState.running o.1 ≡ ok tt)

pub map_result-IsLegal : (s : AgentRunStatus) → IsLegal (map_result s)
unfolding map_result assert_attempt_transition assert_work_item_transition attempt_transitions
    work_item_transitions AttemptState-discrete WorkItemLifecycleState-discrete
map_result-IsLegal AgentRunStatus.created = (refl, refl)
map_result-IsLegal AgentRunStatus.queued = (refl, refl)
map_result-IsLegal AgentRunStatus.starting = (refl, refl)
map_result-IsLegal AgentRunStatus.running = (refl, refl)
map_result-IsLegal AgentRunStatus.waiting_for_tool = (refl, refl)
map_result-IsLegal AgentRunStatus.waiting_for_input = (refl, refl)
map_result-IsLegal AgentRunStatus.completed = (refl, refl)
map_result-IsLegal AgentRunStatus.failed = (refl, refl)
map_result-IsLegal AgentRunStatus.cancelling = (refl, refl)
map_result-IsLegal AgentRunStatus.cancelled = (refl, refl)
map_result-IsLegal AgentRunStatus.interrupted = (refl, refl)
map_result-IsLegal AgentRunStatus.unknown = (refl, refl)

pub failed-IsLegal : IsLegal (AttemptState.failed, recovery_required)
unfolding assert_attempt_transition assert_work_item_transition attempt_transitions
    work_item_transitions AttemptState-discrete WorkItemLifecycleState-discrete
failed-IsLegal = (refl, refl)

pub waiting-IsLegal : IsLegal (AttemptState.interrupted, waiting)
unfolding assert_attempt_transition assert_work_item_transition attempt_transitions
    work_item_transitions AttemptState-discrete WorkItemLifecycleState-discrete
waiting-IsLegal = (refl, refl)

pub unknown-IsLegal : IsLegal (AttemptState.unknown, recovery_required)
unfolding assert_attempt_transition assert_work_item_transition attempt_transitions
    work_item_transitions AttemptState-discrete WorkItemLifecycleState-discrete
unknown-IsLegal = (refl, refl)
