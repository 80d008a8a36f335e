-- ===== src/Workflow/Resumption.antt =====
-- packages/workflow/src/resume-coordinator.ts over the database: resuming what the engine left unknown.
use constructie_orchestrator.Base.{
  ◌≡◌, refl, sym, ◌∙◌, ℕ, ◌+◌, String, Option, none, some, Bool, false, ok, err, Result, ◌==◌,
  eq_self, String_eq, ℕ_eq, includes,
}
use constructie_orchestrator.Base.Dict.{get}
use constructie_orchestrator.Domain.WorkItem.{
  WorkItem, WorkItemLifecycleState, WorkItemLifecycleState-discrete, recovery_required,
  AttemptState, AttemptState-discrete, DomainError, work_item_transition_invalid,
  assert_work_item_transition, assert_attempt_transition, work_item_transitions,
  attempt_transitions,
}
use constructie_orchestrator.Work.Store.{
  WorkStore, AttemptRow, ItemTransition, invalid_transition, transition_work_item, domain_check,
}
use constructie_orchestrator.Workflow.Agents.{
  AgentRunHandle, AgentRunResult, AgentRunStatus, AgentRunStatus_eq,
}
use constructie_orchestrator.Workflow.Engine.{
  WorkflowExecutionResult, WorkflowError, store_error, calling, settle, collect, map_result,
  runtime_context,
}
use constructie_orchestrator.Workflow.Resume.{
  ResumeWorkItemInput, waiting_statuses, resume_collected, resumed, with_run_id, resume,
}
use constructie_orchestrator.Workflow.Database.{Database, database, commit}
use constructie_orchestrator.Workflow.Outcome.{Holds, attempt_moves}
use constructie_orchestrator.Workflow.Legal.{judged}

item_refuses :
    (input : ItemTransition) (now : ℕ) (s : WorkStore) (item : WorkItem) (e : DomainError)
    → get input.work_item_id s.items ≡ some item
    → input.expected_revision ≡ item.revision
    → assert_work_item_transition item.lifecycle_state input.to ≡ err e
    → transition_work_item input now s s ≡ err (invalid_transition e)
unfolding transition_work_item domain_check
item_refuses input now s item e there rev illegal = rw (there, rev, eq_self item.revision, illegal)

-- A call that throws after the attempt has moved: the attempt is in its new state, and the work item
-- is where it was.
pub record IsHalfDone (k a : String) (state : AttemptState) (before : WorkItem)
    (to : WorkItemLifecycleState) (end : Database × Result WorkflowError WorkflowExecutionResult)
    : Type 0 where
  pub thrown :
      end.1
      ≡ err (
          store_error (invalid_transition (work_item_transition_invalid before.lifecycle_state to)))
  pub row : AttemptRow
  pub saved_attempt : get a end.0.store.attempts ≡ some row
  pub attempt_moved : row.attempt.state ≡ state
  pub item : WorkItem
  pub saved_item : get k end.0.store.items ≡ some item
  pub item_stays : item.lifecycle_state ≡ before.lifecycle_state

settle_stops :
    (clock : ℕ → ℕ) (db : Database) (k a : String) (item stored : WorkItem) (row : AttemptRow)
    (run : Option AgentRunHandle) (result : Option AgentRunResult)
    (outcome : AttemptState × WorkItemLifecycleState)
    → Holds db.store k a stored row
    → item.id ≡ k
    → item.revision ≡ stored.revision
    → assert_attempt_transition row.attempt.state outcome.0 ≡ ok tt
    → assert_work_item_transition stored.lifecycle_state outcome.1
      ≡ err (work_item_transition_invalid stored.lifecycle_state outcome.1)
    → IsHalfDone k a
        (outcome.0)
        stored
        (outcome.1)
        (settle (database clock) a item run result outcome db)
unfolding settle database commit calling
settle_stops clock db k a item stored row run result outcome h id rev legal illegal =
    let (s, i, r, run1, h1, state, same_rev, same_state) =
      attempt_moves (record { attempt_id = a; to = outcome.0 }) (clock db.readings) db.store k
        stored row h legal in
    let run2 =
      item_refuses (record { work_item_id = k; expected_revision = item.revision; to = outcome.1 })
        (clock (db.readings + 1)) s i _ h1.item_there (rev ∙ sym same_rev)
        (rw same_state illegal) in
    rw (run1, id, run2)
      (record {
        thrown = refl;
        row = r;
        saved_attempt = h1.attempt_there;
        attempt_moved = state;
        item = i;
        saved_item = h1.item_there;
        item_stays = same_state;
      })

-- From recovery, no result of a run is a legal state, though each is for an unknown attempt.
abbrev IsHalfLegal : AttemptState × WorkItemLifecycleState → Type 0
IsHalfLegal o =
    (assert_attempt_transition AttemptState.unknown o.0 ≡ ok tt)
    × (assert_work_item_transition recovery_required o.1
        ≡ err (work_item_transition_invalid recovery_required o.1))

judged-IsHalfLegal : (answers : Result String AgentRunResult) → IsHalfLegal (judged answers)
unfolding judged map_result assert_attempt_transition assert_work_item_transition
    attempt_transitions work_item_transitions AttemptState-discrete WorkItemLifecycleState-discrete
judged-IsHalfLegal (err e) = (refl, refl)
judged-IsHalfLegal (ok r) = of_status r.status
  where
    of_status : (s : AgentRunStatus) → IsHalfLegal (map_result s)
    of_status AgentRunStatus.created = (refl, refl)
    of_status AgentRunStatus.queued = (refl, refl)
    of_status AgentRunStatus.starting = (refl, refl)
    of_status AgentRunStatus.running = (refl, refl)
    of_status AgentRunStatus.waiting_for_tool = (refl, refl)
    of_status AgentRunStatus.waiting_for_input = (refl, refl)
    of_status AgentRunStatus.completed = (refl, refl)
    of_status AgentRunStatus.failed = (refl, refl)
    of_status AgentRunStatus.cancelling = (refl, refl)
    of_status AgentRunStatus.cancelled = (refl, refl)
    of_status AgentRunStatus.interrupted = (refl, refl)
    of_status AgentRunStatus.unknown = (refl, refl)

-- What a resumption that does not wait again comes to.
unfoldable pub resume_outcome :
    ResumeWorkItemInput
    → String
    → Result String AgentRunHandle
    → AttemptState × WorkItemLifecycleState
resume_outcome input run_id (err e) = (AttemptState.failed, recovery_required)
resume_outcome input run_id (ok run) = judged (collect input.adapter "Resume completed" run_id)

-- The run does not wait again.
unfoldable pub waits : Result String AgentRunHandle → Bool
waits (err e) = false
waits (ok run) = includes run.status waiting_statuses

-- The database holds an unknown attempt of an item that awaits recovery, as the input says.
pub record IsUnfinished (db : Database) (input : ResumeWorkItemInput) (stored : WorkItem)
    : Type 0 where
  pub row : AttemptRow
  pub holds : Holds db.store input.work_item.id input.attempt.id stored row
  pub revision : input.work_item.revision ≡ stored.revision
  pub in_recovery : stored.lifecycle_state ≡ recovery_required
  pub attempt_unknown : row.attempt.state ≡ AttemptState.unknown

module _ (clock : ℕ → ℕ) (db : Database) (input : ResumeWorkItemInput) (stored : WorkItem)
    (h : IsUnfinished db input stored) where
  -- A resumption that moves the attempt and throws at the work item.
  abbrev pub StopsAt :
      AttemptState × WorkItemLifecycleState
      → Database × Result WorkflowError WorkflowExecutionResult
      → Type 0
  StopsAt o end = IsHalfDone input.work_item.id input.attempt.id o.0 stored o.1 end

  unfinished_stops :
      (result : Option AgentRunResult) (outcome : AttemptState × WorkItemLifecycleState)
      → IsHalfLegal outcome
      → StopsAt outcome
          (settle (database clock) input.attempt.id input.work_item none result outcome db)
  unfinished_stops result outcome legal =
      settle_stops clock db input.work_item.id input.attempt.id input.work_item stored h.row none
        result outcome h.holds refl h.revision (rw (h.attempt_unknown) (legal.0))
        (rw (h.in_recovery) (legal.1))

  gathered_stops :
      (answers : Result String AgentRunResult)
      → StopsAt (judged answers) (resume_collected (database clock) input answers db)
  unfolding judged resume_collected
  gathered_stops (err e) = unfinished_stops none _ (judged-IsHalfLegal (err e))
  gathered_stops (ok r) = unfinished_stops (some r) _ (judged-IsHalfLegal (ok r))

  resumed_stops :
      (run_id : String) (answer : Result String AgentRunHandle)
      → waits answer ≡ false
      → StopsAt
          (resume_outcome input run_id answer)
          (resumed (database clock) input run_id answer db)
  unfolding resumed resume_outcome waits judged
  resumed_stops run_id (err e) quiet = unfinished_stops none _ (judged-IsHalfLegal (err e))
  resumed_stops run_id (ok run) quiet =
      rw quiet (gathered_stops (collect input.adapter "Resume completed" run_id))

-- When the engine has left an attempt unknown and its work item for recovery, a resumption whose run
-- does not wait again throws: the work item may not go from recovery to any state that a result
-- calls for. The attempt has moved by then, and the item stays for recovery.
pub resume-unfinished :
    (clock : ℕ → ℕ) (db : Database) (input : ResumeWorkItemInput) (stored : WorkItem)
    (run_id : String)
    → (h : IsUnfinished db input stored) → input.attempt.agent_run_id ≡ some run_id
    → (run_id == "") ≡ false
    → waits (
        input.adapter.resume run_id
          (runtime_context input.correlation_id input.workflow_run_id input.attempt.id))
      ≡ false
    → StopsAt clock db input stored h
        (resume_outcome input run_id (
          input.adapter.resume run_id
            (runtime_context input.correlation_id input.workflow_run_id input.attempt.id)))
        (resume (database clock) input db)
unfolding resume with_run_id resume_outcome resumed resume_collected
resume-unfinished clock db input stored run_id h bound named quiet =
    rw (bound, named) (resumed_stops clock db input stored h run_id _ quiet)
