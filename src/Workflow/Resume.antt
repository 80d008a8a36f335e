-- ===== src/Workflow/Resume.antt =====
-- packages/workflow/src/resume-coordinator.ts: an attempt that is taken up again. Its store is the
-- engine's, of which it uses the two transitions; its `mapResult` is the engine's too.
use constructie_orchestrator.Base.{
  String, List, [], ◌∷◌, Option, none, some, if◌then◌else◌, ◌==◌, includes, String_eq, Result, err,
  ok,
}
use constructie_orchestrator.Domain.WorkItem.{
  WorkItem, waiting, recovery_required, Attempt, AttemptState,
}
use constructie_orchestrator.Workflow.Agents.{
  AgentAdapter, AgentRunHandle, AgentRunResult, AgentRunStatus, AgentRunStatus_eq, WorkPackage,
  waiting_for_input, waiting_for_tool, interrupted,
}
use constructie_orchestrator.Workflow.Engine.{
  WorkflowWorkStore, WorkflowExecutionResult, WorkflowError, no_agent_run_id, settle, map_result,
  collect, runtime_context,
}

pub record ResumeWorkItemInput : Type 0 where
  pub work_item : WorkItem
  pub attempt : Attempt
  pub work_package : WorkPackage
  pub adapter : AgentAdapter
  pub correlation_id : String
  pub workflow_run_id : String

-- The statuses in which a resumed run waits again.
unfoldable pub waiting_statuses : List AgentRunStatus
waiting_statuses = waiting_for_input ∷ waiting_for_tool ∷ interrupted ∷ []

module _ {W : Type 0} (store : WorkflowWorkStore W) where
  unfoldable pub resume_collected :
      ResumeWorkItemInput
      → Result String AgentRunResult
      → W
      → W × Result WorkflowError WorkflowExecutionResult
  resume_collected input (err e) w =
      settle store input.attempt.id input.work_item none none
        (AttemptState.failed, recovery_required) w
  resume_collected input (ok result) w =
      settle store input.attempt.id input.work_item none (some result) (map_result result.status) w

  unfoldable pub resumed :
      ResumeWorkItemInput
      → String
      → Result String AgentRunHandle
      → W
      → W × Result WorkflowError WorkflowExecutionResult
  resumed input run_id (err e) w =
      settle store input.attempt.id input.work_item none none
        (AttemptState.failed, recovery_required) w
  resumed input run_id (ok run) w =
      if includes run.status waiting_statuses
      then settle store input.attempt.id input.work_item none none
          (AttemptState.interrupted, waiting) w
      else resume_collected input (collect input.adapter "Resume completed" run_id) w

  -- The agent's run is known or not.
  unfoldable pub with_run_id :
      ResumeWorkItemInput → Option String → W → W × Result WorkflowError WorkflowExecutionResult
  with_run_id input none w = (w, err (no_agent_run_id input.attempt.id))
  with_run_id input (some run_id) w =
      if run_id == ""
      then (w, err (no_agent_run_id input.attempt.id))
      else resumed input run_id
          (input.adapter.resume run_id
            (runtime_context input.correlation_id input.workflow_run_id input.attempt.id))
          w

  -- `ResumeCoordinator.resume`; an empty run id counts as none, and no run is among the results.
  unfoldable pub resume : ResumeWorkItemInput → W → W × Result WorkflowError WorkflowExecutionResult
  resume input w = with_run_id input input.attempt.agent_run_id w
