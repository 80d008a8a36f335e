-- ===== src/Workflow/Engine.antt =====
-- packages/workflow/src/minimal-workflow-engine.ts: one execution of a work item. A call that throws
-- leaves the world as the calls before it made it. The random id of the attempt is an argument.
use constructie_orchestrator.Base.{
  ℕ, String, [], Option, none, some, if◌then◌else◌, ◌==◌, ◌&&◌, String_eq, Result, err, ok, check,
  ◌>>=◌, ◌>>◌,
}
use constructie_orchestrator.Domain.WorkItem.{
  WorkItem, WorkItemLifecycleState, WorkItemLifecycleState_eq, ready, waiting, recovery_required,
  verification_required, repair_required, Attempt, NewAttempt, AttemptState, not_started, starting,
  succeeded,
}
use constructie_orchestrator.Work.Store.{
  WorkStoreError, ItemTransition, AttemptStart, RunBinding, AttemptTransition,
}
use constructie_orchestrator.Workflow.Agents.{
  AgentAdapter, AgentRunHandle, AgentRunResult, AgentRunStatus, AgentRunStatus_eq,
  AgentRuntimeContext, WorkPackage, waiting_for_input,
}

-- The store as the engine sees it, over a world.
pub record WorkflowWorkStore (W : Type 0) : Type 0 where
  pub start_attempt : AttemptStart → W → W × Result WorkStoreError (WorkItem × Attempt)
  pub transition_attempt : AttemptTransition → W → W × Result WorkStoreError Attempt
  pub bind_agent_run : RunBinding → W → W × Result WorkStoreError Attempt
  pub transition_work_item : ItemTransition → W → W × Result WorkStoreError WorkItem

pub record ExecuteWorkItemInput : Type 0 where
  pub work_item : WorkItem
  pub work_package : WorkPackage
  pub adapter : AgentAdapter
  pub correlation_id : String
  pub workflow_run_id : String
  pub now : ℕ

pub record WorkflowExecutionResult : Type 0 where
  pub work_item : WorkItem
  pub attempt : Attempt
  pub agent_run : Option AgentRunHandle
  pub agent_result : Option AgentRunResult

pub data WorkflowError : Type 0 where
  work_item_not_ready : String → WorkItemLifecycleState → WorkflowError
  work_package_work_item_mismatch : String → WorkflowError
  no_agent_run_id : String → WorkflowError
  store_error : WorkStoreError → WorkflowError

-- `await store.call(…)`, and what comes after it.
unfoldable pub calling :
    {W A B : Type 0}
    → W × Result WorkStoreError A
    → (A → W → W × Result WorkflowError B)
    → W × Result WorkflowError B
calling (w, err e) next = (w, err (store_error e))
calling (w, ok a) next = next a w

-- `mapResult`
unfoldable pub map_result : AgentRunStatus → AttemptState × WorkItemLifecycleState
map_result AgentRunStatus.completed = (succeeded, verification_required)
map_result AgentRunStatus.failed = (AttemptState.failed, repair_required)
map_result AgentRunStatus.interrupted = (AttemptState.interrupted, recovery_required)
map_result AgentRunStatus.cancelled = (AttemptState.cancelled, recovery_required)
map_result _ = (AttemptState.failed, repair_required)

-- `assertExecutable`
unfoldable pub assert_executable : WorkItem → WorkPackage → Result WorkflowError (Unit {0})
assert_executable item work =
    check (item.lifecycle_state == ready) (work_item_not_ready item.id item.lifecycle_state)
    >> check (work.project_id == item.project_id && work.work_item_id == item.id)
        (work_package_work_item_mismatch work.work_package_id)

unfoldable pub new_attempt : ExecuteWorkItemInput → String → NewAttempt
new_attempt input attempt_id = record {
  id = attempt_id;
  project_id = input.work_item.project_id;
  work_item_id = input.work_item.id;
  state = not_started;
  work_package_version = input.work_package.version;
  agent_run_id = none;
  agent_adapter_id = none;
  started_at = none;
  ended_at = none;
  created_at = input.now;
  updated_at = input.now;
}

unfoldable pub runtime_context : String → String → String → AgentRuntimeContext
runtime_context correlation_id workflow_run_id attempt_id = record {
  correlation_id = correlation_id;
  workflow_run_id = workflow_run_id;
  attempt_id = attempt_id;
  sandbox_ref = none;
  tool_session_ref = none;
  secret_refs = [];
  time_budget_ms = none;
  cost_budget = none;
}

-- The answers after a run, gathered in a result.
unfoldable pub collect : AgentAdapter → String → String → Result String AgentRunResult
collect adapter summary run_id = adapter.get_status run_id >>= λ status.
    adapter.get_artifacts run_id >>= λ artifacts. adapter.get_evidence run_id >>= λ evidence.
    adapter.get_usage run_id >>= λ usage. ok (record {
      run_id = run_id;
      status = status;
      summary = summary;
      actions_taken = [];
      artifacts = artifacts;
      findings = [];
      evidence = evidence;
      unresolved_items = [];
      requested_inputs = [];
      side_effects = [];
      usage = usage;
    })

module _ {W : Type 0} (store : WorkflowWorkStore W) (attempt_id : String) where
  -- The last two writes of an execution: the attempt, then the work item.
  unfoldable pub settle :
      WorkItem
      → Option AgentRunHandle
      → Option AgentRunResult
      → AttemptState × WorkItemLifecycleState
      → W
      → W × Result WorkflowError WorkflowExecutionResult
  settle item run result (attempt_state, item_state) w =
      calling (store.transition_attempt (record { attempt_id = attempt_id; to = attempt_state }) w)
        (λ attempt v.
          calling
            (store.transition_work_item
              (record {
                work_item_id = item.id;
                expected_revision = item.revision;
                to = item_state;
              })
              v)
            (λ moved u. (
              u,
              ok (record {
                work_item = moved;
                attempt = attempt;
                agent_run = run;
                agent_result = result;
              }),
            )))

  -- After the run has been asked for its status and its results.
  unfoldable pub collected :
      WorkItem
      → AgentRunHandle
      → Result String AgentRunResult
      → W
      → W × Result WorkflowError WorkflowExecutionResult
  collected item run (err e) w =
      settle item (some run) none (AttemptState.failed, recovery_required) w
  collected item run (ok result) w =
      settle item (some run) (some result) (map_result result.status) w

  -- After the run is bound to the attempt.
  unfoldable pub bound :
      AgentAdapter
      → WorkItem
      → AgentRunHandle
      → W × Result WorkStoreError Attempt
      → W × Result WorkflowError WorkflowExecutionResult
  bound adapter item run (w, err e) =
      settle item none none (AttemptState.failed, recovery_required) w
  bound adapter item run (w, ok _) =
      if run.status == waiting_for_input
      then settle item (some run) none (AttemptState.interrupted, waiting) w
      else if run.status == AgentRunStatus.unknown
      then settle item (some run) none (AttemptState.unknown, recovery_required) w
      else collected item run (collect adapter "Execution completed" run.run_id) w

  -- After the agent was asked to execute the package.
  unfoldable pub launched :
      AgentAdapter
      → WorkItem
      → Result String AgentRunHandle
      → W
      → W × Result WorkflowError WorkflowExecutionResult
  launched adapter item (err e) w = settle item none none (AttemptState.failed, recovery_required) w
  launched adapter item (ok run) w = bound adapter item run (
      store.bind_agent_run
        (record {
          attempt_id = attempt_id;
          agent_run_id = run.run_id;
          agent_adapter_id = "codex-adapter";
        })
        w)

  unfoldable pub started :
      ExecuteWorkItemInput → W → W × Result WorkflowError WorkflowExecutionResult
  started input w =
      calling
        (store.start_attempt
          (record {
            attempt = new_attempt input attempt_id;
            expected_revision = input.work_item.revision;
          })
          w)
        (λ persisted w1.
          calling (store.transition_attempt (record { attempt_id = attempt_id; to = starting }) w1)
            (λ _ w2.
              calling
                (store.transition_attempt
                  (record { attempt_id = attempt_id; to = AttemptState.running }) w2)
                (λ _ w3.
                  calling
                    (store.transition_work_item
                      (record {
                        work_item_id = input.work_item.id;
                        expected_revision = (persisted.0).revision;
                        to = WorkItemLifecycleState.running;
                      })
                      w3)
                    (λ item w4.
                      launched input.adapter item
                        (input.adapter.execute input.work_package
                          (runtime_context input.correlation_id input.workflow_run_id attempt_id))
                        w4))))

  -- After `assertExecutable`.
  unfoldable pub asserted :
      ExecuteWorkItemInput
      → Result WorkflowError (Unit {0})
      → W
      → W × Result WorkflowError WorkflowExecutionResult
  asserted input (err e) w = (w, err e)
  asserted input (ok _) w = started input w

  -- `MinimalWorkflowEngine.execute`
  unfoldable pub execute :
      ExecuteWorkItemInput → W → W × Result WorkflowError WorkflowExecutionResult
  execute input w = asserted input (assert_executable input.work_item input.work_package) w
