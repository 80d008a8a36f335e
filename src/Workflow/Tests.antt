-- ===== src/Workflow/Tests.antt =====
-- Concrete executions and resumptions.
use constructie_orchestrator.Base.{◌≡◌, refl, String, some, none, true, false, ◌==◌, String_eq}
use constructie_orchestrator.Base.Dict.{get}
use constructie_orchestrator.Domain.WorkItem
use constructie_orchestrator.Domain.WorkItem.{
  WorkItem, recovery_required, verification_required, succeeded,
}
use constructie_orchestrator.Work.Store.{has_active}
use constructie_orchestrator.Work.Examples.{ready_item, row}
use constructie_orchestrator.Workflow.Agents.{AgentRunStatus-discrete}
use constructie_orchestrator.Workflow.Engine.{execute, runtime_context, map_result, collect}
use constructie_orchestrator.Workflow.Resume.{resume, waiting_statuses}
use constructie_orchestrator.Workflow.Database.{database}
use constructie_orchestrator.Workflow.Settle.{Settles}
use constructie_orchestrator.Workflow.Legal.{launch_outcome, run_outcome, judged}
use constructie_orchestrator.Workflow.Execution.{execute-Settles}
use constructie_orchestrator.Workflow.Resumption.{
  IsUnfinished, IsHalfDone, waits, resume_outcome, resume-unfinished,
}
use constructie_orchestrator.Workflow.Examples.{clock, fresh, execution, left_unknown, resumption}

there : get "T1" fresh.store.items ≡ some ready_item
unfolding get
there = refl

idle : has_active "T1" fresh.store.attempts ≡ false
unfolding has_active
idle = refl

new_id : get "A1" fresh.store.attempts ≡ none
unfolding get
new_id = refl

execute-Settles_example :
    Settles "T1" "A1"
      (succeeded, verification_required)
      7
      (execute (database clock) "A1" execution fresh)
unfolding launch_outcome run_outcome judged map_result collect
execute-Settles_example =
    execute-Settles clock fresh "A1" execution there refl
      (record { project = refl; work_item = refl }) idle new_id

unfinished : IsUnfinished left_unknown resumption resumption.work_item
unfolding get
unfinished = record {
  row = row WorkItem.unknown true 1 0;
  holds = record { item_there = refl; attempt_there = refl; item_id = refl };
  revision = refl;
  in_recovery = refl;
  attempt_unknown = refl;
}

abbrev run_name : String
run_name = "R1"

named : (run_name == "") ≡ false
named = refl

quiet :
    waits (
      resumption.adapter.resume "R1" (
        runtime_context resumption.correlation_id resumption.workflow_run_id resumption.attempt.id))
    ≡ false
unfolding waits waiting_statuses AgentRunStatus-discrete
quiet = refl

resume-unfinished_example :
    IsHalfDone "T1" "A1" succeeded resumption.work_item verification_required
      (resume (database clock) resumption left_unknown)
unfolding resume_outcome judged map_result collect
resume-unfinished_example =
    resume-unfinished clock left_unknown resumption resumption.work_item "R1" unfinished refl named
      quiet
