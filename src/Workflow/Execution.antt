-- ===== src/Workflow/Execution.antt =====
-- packages/workflow/src/minimal-workflow-engine.ts over the database: every execution that may start
-- ends, and how.
use constructie_orchestrator.Base.{
  ◌≡◌, refl, sym, ◌∙◌, subst, ℕ, ◌+◌, arith, String, Option, none, some, false, ok, err, eq_self,
  String_eq, ℕ_eq, Result,
}
use constructie_orchestrator.Base.Dict.{get}
use constructie_orchestrator.Domain.WorkItem.{
  WorkItem, WorkItemLifecycleState, WorkItemLifecycleState_eq, WorkItemLifecycleState-discrete,
  ready, assigned, AttemptState, Attempt, AttemptState_eq, AttemptState-discrete, not_started,
  starting, assert_work_item_transition, assert_attempt_transition, work_item_transitions,
  attempt_transitions,
}
use constructie_orchestrator.Work.Store.{
  AttemptRow, RunBinding, AttemptStart, has_active, moved_item, assigned_item, bound_row, numbered,
}
use constructie_orchestrator.Workflow.Agents.{
  AgentAdapter, WorkPackage, AgentRunHandle, AgentRunResult, AgentRunStatus, AgentRunStatus_eq,
  AgentRunStatus-discrete,
}
use constructie_orchestrator.Workflow.Engine.{
  ExecuteWorkItemInput, WorkflowExecutionResult, WorkflowError, calling, settle, collected, bound,
  launched, started, asserted, execute, collect, runtime_context, assert_executable, new_attempt,
}
use constructie_orchestrator.Workflow.Database.{Database, database, commit}
use constructie_orchestrator.Workflow.Outcome.{Holds, item_moves, attempt_moves, run_binds}
use constructie_orchestrator.Workflow.Start.{attempt_starts, new_row}
use constructie_orchestrator.Workflow.Settle.{Settles, settle-Settles}
use constructie_orchestrator.Workflow.Legal.{
  judged, run_outcome, launch_outcome, IsLegal, map_result-IsLegal, failed-IsLegal, waiting-IsLegal,
  unknown-IsLegal,
}

-- A database in which an attempt and its work item run, as the engine's copy of the item says.
record Runs (db : Database) (k a : String) (item stored : WorkItem) (row : AttemptRow)
    : Type 0 where
  holds : Holds db.store k a stored row
  id : item.id ≡ k
  revision : item.revision ≡ stored.revision
  item_runs : stored.lifecycle_state ≡ WorkItemLifecycleState.running
  attempt_runs : row.attempt.state ≡ AttemptState.running

module _ (clock : ℕ → ℕ) (k a : String) where
  Runs-settle :
      (db : Database) (item stored : WorkItem) (row : AttemptRow) (run : Option AgentRunHandle)
      (result : Option AgentRunResult) (outcome : AttemptState × WorkItemLifecycleState)
      → Runs db k a item stored row
      → IsLegal outcome
      → Settles k a outcome
          (stored.revision + 1)
          (settle (database clock) a item run result outcome db)
  Runs-settle db item stored row run result outcome h legal =
      settle-Settles clock db k a item stored row run result outcome h.holds h.id h.revision
        (rw (h.attempt_runs) (legal.0)) (rw (h.item_runs) (legal.1))

  collected-Settles :
      (db : Database) (item stored : WorkItem) (row : AttemptRow) (run : AgentRunHandle)
      (answers : Result String AgentRunResult)
      → Runs db k a item stored row
      → Settles k a
          (judged answers)
          (stored.revision + 1)
          (collected (database clock) a item run answers db)
  unfolding collected judged
  collected-Settles db item stored row run (err e) h =
      Runs-settle db item stored row (some run) none _ h failed-IsLegal
  collected-Settles db item stored row run (ok result) h =
      Runs-settle db item stored row (some run) (some result) _ h (map_result-IsLegal result.status)

  bound-Settles :
      (db : Database) (adapter : AgentAdapter) (item stored : WorkItem) (row : AttemptRow)
      (run : AgentRunHandle) (attempt : Attempt)
      → Runs db k a item stored row
      → Settles k a
          (launch_outcome adapter (ok run))
          (stored.revision + 1)
          (bound (database clock) a adapter item run (db, ok attempt))
  unfolding bound launch_outcome run_outcome AgentRunStatus-discrete
  bound-Settles db adapter item stored row run attempt h = of_status run.status
    where
      answers : Result String AgentRunResult
      answers = collect adapter "Execution completed" run.run_id

      at_status : AgentRunStatus → AgentRunHandle
      at_status s = record { run_id = run.run_id; status = s }

      of_status :
          (s : AgentRunStatus)
          → Settles k a
              (run_outcome s answers)
              (stored.revision + 1)
              (bound (database clock) a adapter item (at_status s) (db, ok attempt))
      of_status AgentRunStatus.waiting_for_input =
          Runs-settle db item stored row (some (at_status AgentRunStatus.waiting_for_input)) none _
            h waiting-IsLegal
      of_status AgentRunStatus.unknown =
          Runs-settle db item stored row (some (at_status AgentRunStatus.unknown)) none _ h
            unknown-IsLegal
      of_status AgentRunStatus.created =
          collected-Settles db item stored row (at_status AgentRunStatus.created) answers h
      of_status AgentRunStatus.queued =
          collected-Settles db item stored row (at_status AgentRunStatus.queued) answers h
      of_status AgentRunStatus.starting =
          collected-Settles db item stored row (at_status AgentRunStatus.starting) answers h
      of_status AgentRunStatus.running =
          collected-Settles db item stored row (at_status AgentRunStatus.running) answers h
      of_status AgentRunStatus.waiting_for_tool =
          collected-Settles db item stored row (at_status AgentRunStatus.waiting_for_tool) answers h
      of_status AgentRunStatus.completed =
          collected-Settles db item stored row (at_status AgentRunStatus.completed) answers h
      of_status AgentRunStatus.failed =
          collected-Settles db item stored row (at_status AgentRunStatus.failed) answers h
      of_status AgentRunStatus.cancelling =
          collected-Settles db item stored row (at_status AgentRunStatus.cancelling) answers h
      of_status AgentRunStatus.cancelled =
          collected-Settles db item stored row (at_status AgentRunStatus.cancelled) answers h
      of_status AgentRunStatus.interrupted =
          collected-Settles db item stored row (at_status AgentRunStatus.interrupted) answers h

  launched-Settles :
      (db : Database) (adapter : AgentAdapter) (item stored : WorkItem) (row : AttemptRow)
      (answer : Result String AgentRunHandle)
      → Runs db k a item stored row
      → Settles k a
          (launch_outcome adapter answer)
          (stored.revision + 1)
          (launched (database clock) a adapter item answer db)
  unfolding launched launch_outcome database commit bound_row
  launched-Settles db adapter item stored row (err e) h =
      Runs-settle db item stored row none none _ h failed-IsLegal
  launched-Settles db adapter item stored row (ok run) h =
      let input : RunBinding = record {
        attempt_id = a;
        agent_run_id = run.run_id;
        agent_adapter_id = "codex-adapter";
      } in
      let (s, bind, held) = run_binds input (clock db.readings) db.store k stored row h.holds in
      rw bind (
        bound-Settles (record { store = s; readings = db.readings + 1 }) adapter item stored
          (bound_row input (clock db.readings) row) run
          (bound_row input (clock db.readings) row).attempt
          (record {
            holds = held;
            id = h.id;
            revision = h.revision;
            item_runs = h.item_runs;
            attempt_runs = h.attempt_runs;
          }))

-- The work package is for the work item.
pub record IsFor (work : WorkPackage) (item : WorkItem) : Type 0 where
  pub project : work.project_id ≡ item.project_id
  pub work_item : work.work_item_id ≡ item.id

ready_executable :
    (item : WorkItem) (work : WorkPackage)
    → item.lifecycle_state ≡ ready
    → IsFor work item
    → assert_executable item work ≡ ok tt
unfolding assert_executable WorkItemLifecycleState-discrete
ready_executable item work e f =
    rw (e, f.project, f.work_item, eq_self item.project_id, eq_self item.id)

Settles-at :
    (k a : String) (o : AttemptState × WorkItemLifecycleState) (m n : ℕ)
    (end : Database × Result WorkflowError WorkflowExecutionResult)
    → m ≡ n
    → Settles k a o m end
    → Settles k a o n end
Settles-at k a o m n end e h = subst (λ r. Settles k a o r end) e h

-- The states in which an attempt starts.
start_legal :
    (assert_work_item_transition ready assigned ≡ ok tt)
    × (assert_work_item_transition assigned WorkItemLifecycleState.running ≡ ok tt)
    × (assert_attempt_transition not_started starting ≡ ok tt)
    × (assert_attempt_transition starting AttemptState.running ≡ ok tt)
unfolding assert_attempt_transition assert_work_item_transition attempt_transitions
    work_item_transitions AttemptState-discrete WorkItemLifecycleState-discrete
start_legal = (refl, refl, refl, refl)

-- When a database holds a ready work item with no active attempt, an execution of it, from its
-- current copy, for its own work package and with a new attempt id, returns whatever the agent
-- answers: the attempt and the item end in the states that the answers come to, three revisions on,
-- and the database holds what is returned.
pub execute-Settles :
    (clock : ℕ → ℕ) (db : Database) (a : String) (input : ExecuteWorkItemInput)
    → get input.work_item.id db.store.items ≡ some input.work_item
    → input.work_item.lifecycle_state ≡ ready
    → IsFor input.work_package input.work_item
    → has_active input.work_item.id db.store.attempts ≡ false
    → get a db.store.attempts ≡ none
    → Settles input.work_item.id a
        (launch_outcome input.adapter (
          input.adapter.execute input.work_package
            (runtime_context input.correlation_id input.workflow_run_id a)))
        (input.work_item.revision + 3)
        (execute (database clock) a input db)
unfolding execute asserted started calling database commit assigned_item moved_item new_attempt
    numbered
execute-Settles clock db a input there is_ready is_for idle fresh =
    let k = input.work_item.id in
    let (l1, l2, l3, l4) = start_legal in
    let n = db.readings in
    let begin : AttemptStart = record {
      attempt = new_attempt input a;
      expected_revision = input.work_item.revision;
    } in
    let (s1, number, run1, h1) =
      attempt_starts begin (clock n) db.store input.work_item there refl refl (rw is_ready l1) idle
        fresh in
    let (s2, i2, r2, run2, h2, state2, rev2, item2) =
      attempt_moves (record { attempt_id = a; to = starting }) (clock (n + 1)) s1 k
        (assigned_item a (clock n) input.work_item) (new_row begin.attempt number) h1 l3 in
    let (s3, i3, r3, run3, h3, state3, rev3, item3) =
      attempt_moves (record { attempt_id = a; to = AttemptState.running }) (clock (n + 1 + 1)) s2 k
        i2 r2 h2 (rw state2 l4) in
    let (s4, run4, h4) =
      item_moves
        (record {
          work_item_id = k;
          expected_revision = input.work_item.revision + 1;
          to = WorkItemLifecycleState.running;
        })
        (clock (n + 1 + 1 + 1)) s3 a i3 r3 h3 (sym (rev3 ∙ rev2)) (rw (item3, item2) l2) in
    let running_item = moved_item WorkItemLifecycleState.running (clock (n + 1 + 1 + 1)) i3 in
    let begun : (assigned_item a (clock n) input.work_item).revision
        ≡ input.work_item.revision + 1 =
      refl in
    let raised : running_item.revision ≡ i3.revision + 1 = refl in
    let total : running_item.revision + 1 ≡ input.work_item.revision + 3 =
      omega (arith, rev3, rev2, begun, raised) in
    rw (ready_executable input.work_item input.work_package is_ready is_for, run1, run2, run3, run4)
      (Settles-at k a _ _ _ _ total (
        launched-Settles clock k a (record { store = s4; readings = n + 1 + 1 + 1 + 1 })
          input.adapter running_item running_item r3
          (input.adapter.execute input.work_package
            (runtime_context input.correlation_id input.workflow_run_id a))
          (record {
            holds = h4;
            id = h4.item_id;
            revision = refl;
            item_runs = refl;
            attempt_runs = state3;
          })))
