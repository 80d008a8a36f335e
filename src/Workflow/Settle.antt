-- ===== src/Workflow/Settle.antt =====
-- packages/workflow over the database: the last two writes of an execution.
use constructie_orchestrator.Base.{
  ◌≡◌, refl, sym, ◌∙◌, ℕ, ◌+◌, String, Option, some, ok, String_eq, ℕ_eq, Result,
}
use constructie_orchestrator.Base.Dict.{get}
use constructie_orchestrator.Domain.WorkItem.{
  WorkItem, WorkItemLifecycleState, WorkItemLifecycleState_eq, AttemptState, AttemptState_eq,
  assert_work_item_transition, assert_attempt_transition,
}
use constructie_orchestrator.Work.Store.{AttemptRow, moved_item}
use constructie_orchestrator.Workflow.Agents.{AgentRunHandle, AgentRunResult, AgentRunStatus_eq}
use constructie_orchestrator.Workflow.Engine.{
  WorkflowExecutionResult, WorkflowError, calling, settle,
}
use constructie_orchestrator.Workflow.Database.{Database, database, commit}
use constructie_orchestrator.Workflow.Outcome.{Holds, item_moves, attempt_moves}

-- An execution that returned, with its two states and its revision as the database has them.
pub record IsSettled (k a : String) (outcome : AttemptState × WorkItemLifecycleState) (revision : ℕ)
    (db : Database) (result : WorkflowExecutionResult) : Type 0 where
  pub attempt_state : result.attempt.state ≡ outcome.0
  pub item_state : result.work_item.lifecycle_state ≡ outcome.1
  pub item_revision : result.work_item.revision ≡ revision
  pub saved_item : get k db.store.items ≡ some result.work_item
  pub row : AttemptRow
  pub saved_attempt : get a db.store.attempts ≡ some row
  pub row_attempt : row.attempt ≡ result.attempt

abbrev pub Settles :
    String
    → String
    → AttemptState × WorkItemLifecycleState
    → ℕ
    → Database × Result WorkflowError WorkflowExecutionResult
    → Type 0
Settles k a outcome revision end =
    (result : WorkflowExecutionResult) × (end.1 ≡ ok result)
    × IsSettled k a outcome revision end.0 result

pub settle-Settles :
    (clock : ℕ → ℕ) (db : Database) (k a : String) (item stored : WorkItem) (row : AttemptRow)
    (run : Option AgentRunHandle) (result : Option AgentRunResult)
    (outcome : AttemptState × WorkItemLifecycleState)
    → Holds db.store k a stored row
    → item.id ≡ k
    → item.revision ≡ stored.revision
    → assert_attempt_transition row.attempt.state outcome.0 ≡ ok tt
    → assert_work_item_transition stored.lifecycle_state outcome.1 ≡ ok tt
    → Settles k a outcome
        (stored.revision + 1)
        (settle (database clock) a item run result outcome db)
unfolding settle database commit calling moved_item
settle-Settles clock db k a item stored row run result outcome h id rev legal_attempt legal_item =
    let (s, i, r, run1, h1, state, same_rev, same_state) =
      attempt_moves (record { attempt_id = a; to = outcome.0 }) (clock db.readings) db.store k
        stored row h legal_attempt in
    let (t, run2, h2) =
      item_moves (record { work_item_id = k; expected_revision = item.revision; to = outcome.1 })
        (clock (db.readings + 1)) s a i r h1 (rev ∙ sym same_rev) (rw same_state legal_item) in
    rw (run1, id, run2)
      (
        record {
          work_item = moved_item outcome.1 (clock (db.readings + 1)) i;
          attempt = r.attempt;
          agent_run = run;
          agent_result = result;
        },
        refl,
        record {
          attempt_state = state;
          item_state = refl;
          item_revision = rw same_rev;
          saved_item = h2.item_there;
          row = r;
          saved_attempt = h2.attempt_there;
          row_attempt = refl;
        },
      )
