-- ===== src/Run/Tests.antt =====
-- Concrete runs and resumptions.
use constructie_orchestrator.Base.{ℕ, ◌≡◌, ◌≤◌, refl, inl, arith, none, some, true, ok}
use constructie_orchestrator.Policy.Events.{OwnerAuthorityEvent, sealed}
use constructie_orchestrator.Workflow.Agents.{WorkPackage, AgentRunStatus-discrete}
use constructie_orchestrator.Workflow.Agents
use constructie_orchestrator.Workflow.Examples.{work_package}
use constructie_orchestrator.Run.Types.{
  RunState-discrete, ReviewDecision-discrete, owner_decision_required, ambiguous_side_effect,
  starting, waiting_for_owner, reconciling, classify_status, is_non_terminal,
}
use constructie_orchestrator.Run.Types
use constructie_orchestrator.Run.Wait.{wait_for, wait_for-Waits, Waits, poll, keeps_waiting}
use constructie_orchestrator.Run.Cycle.{
  Coordinator, LoopState, reviewed, review_result, judge, emit, begin, retry, owner_pending,
  evaluate, judged_turn, settled_turn, dispatched_turn, running_turn, turn,
}
use constructie_orchestrator.Run.Loop.{Ending, done, is_over, after_turn, execute}
use constructie_orchestrator.Run.Replay.{view, get_events, replay, replay_event, not_started}
use constructie_orchestrator.Run.Mirror.{CountsRepairs, IsMirrored}
use constructie_orchestrator.Run.Returned.{execute-mirrors}
use constructie_orchestrator.Policy.RuleText.{gate_name, token_name}
use constructie_orchestrator.Run.Resume.{
  resume_with_authority, resume_from_reconciliation, check_authority, is_bound, first,
  authority_coordinator, authority_state, Reconciled,
}
use constructie_orchestrator.Run.Resumed.{
  IsAwaited, Settled, resume_with_authority-ok, execute-resume_with_authority,
  execute-resume_from_reconciliation,
}
use constructie_orchestrator.Run.Examples.{
  coordinator, polls, answers, start, ids, authority, outcome,
}

wait_for-Waits_example :
    (n : ℕ) × (n ≤ 10)
    × Waits
        (polls Agents.running)
        10
        0
        (ok Agents.running)
        n
        (wait_for (polls Agents.running) 10 11)
wait_for-Waits_example =
    wait_for-Waits (polls Agents.running) 10
      (record { begins = omega arith; pauses = λ i. omega arith })

-- The state in which a run of two turns stops.
abbrev stop : Ending → LoopState
stop (done s) = s
stop _ = start

abbrev waiting : LoopState
waiting = stop (execute coordinator (answers owner_decision_required) 2 0 start)

waits : execute coordinator (answers owner_decision_required) 2 0 start ≡ done waiting
unfolding execute after_turn turn begin running_turn dispatched_turn settled_turn judged_turn
    evaluate retry emit review_result reviewed judge is_over wait_for poll keeps_waiting
    is_non_terminal classify_status AgentRunStatus-discrete RunState-discrete
waits = refl

counts : CountsRepairs coordinator start
unfolding view get_events replay not_started
counts = omega arith

execute-mirrors_example : IsMirrored coordinator waiting
execute-mirrors_example =
    execute-mirrors coordinator (answers owner_decision_required) 2 0 start waiting (inl refl)
      counts waits

waiting_owner : waiting.state ≡ waiting_for_owner
unfolding execute after_turn turn begin running_turn dispatched_turn settled_turn judged_turn
    evaluate retry emit review_result reviewed judge is_over wait_for poll keeps_waiting
    is_non_terminal classify_status AgentRunStatus-discrete RunState-discrete
waiting_owner = refl

awaited : IsAwaited "T" authority waiting.pending
unfolding execute after_turn turn begin running_turn dispatched_turn settled_turn judged_turn
    evaluate retry emit review_result reviewed judge is_over wait_for poll keeps_waiting
    is_non_terminal classify_status AgentRunStatus-discrete RunState-discrete is_bound gate_name
    token_name owner_pending
awaited = record { task_id = refl; action = refl; gate = refl; authority_type = refl }

execute-resume_with_authority_example :
    (d : Coordinator) × (u : LoopState) × (resume_with_authority coordinator ids
        (sealed authority)
        waiting.ledger
      ≡ ok (d, u))
    × (u.state ≡ starting)
    × (u.wp ≡ record (waiting.wp) { work_package_id = "W3" })
    × (u.pending ≡ waiting.pending)
    × (u.repair_attempts ≤ waiting.repair_attempts)
execute-resume_with_authority_example =
    execute-resume_with_authority coordinator (answers owner_decision_required) 2 0 start waiting
      ids authority (inl refl) counts waits waiting_owner awaited

-- A ledger with one event, at which the run began to wait.
abbrev asked : LoopState
asked =
    emit coordinator
      (Types.evaluation_owner_decision_required "A1" (record {
        action = some "git commit";
        gate = some "COMMIT";
        authority_type = some "OWNER_COMMIT_APPROVED";
      }))
      (emit coordinator (Types.run_started "A1" work_package start.pending "T") start)

abbrev resumed_to : Coordinator × LoopState
resumed_to =
    let d = authority_coordinator coordinator authority (record {
      id = "E";
      project_id = "P1";
      aggregate_id = "F";
      aggregate_revision = 1;
      correlation_id = "C";
      causation_id = none;
      payload = Types.run_started "A1" work_package start.pending "T";
      occurred_at = 1;
    }) in
    (
      record d { causation_id = none },
      authority_state d ids authority asked.ledger (view coordinator asked.ledger) work_package,
    )

resumes :
    resume_with_authority coordinator ids (sealed authority) asked.ledger
    ≡ ok (resumed_to.0, resumed_to.1)
unfolding resume_with_authority check_authority view get_events replay replay_event not_started
    first emit is_bound gate_name token_name RunState-discrete
resumes = refl

resume_with_authority-ok_example :
    (a : OwnerAuthorityEvent) × (wp : WorkPackage) × (sealed authority ≡ sealed a)
    × ((view coordinator asked.ledger).current_state ≡ waiting_for_owner)
    × IsAwaited "T" a (view coordinator asked.ledger).pending
    × ((view coordinator asked.ledger).last_wp ≡ some wp)
    × (resumed_to.1.wp ≡ record wp { work_package_id = "W3" })
resume_with_authority-ok_example =
    resume_with_authority-ok coordinator ids (sealed authority) asked.ledger resumed_to.0
      resumed_to.1 resumes

abbrev unsure : LoopState
unsure = stop (execute coordinator (answers ambiguous_side_effect) 2 0 start)

is_unsure : execute coordinator (answers ambiguous_side_effect) 2 0 start ≡ done unsure
unfolding execute after_turn turn begin running_turn dispatched_turn settled_turn judged_turn
    evaluate retry emit review_result reviewed judge is_over wait_for poll keeps_waiting
    is_non_terminal classify_status AgentRunStatus-discrete RunState-discrete
is_unsure = refl

unsure_state : unsure.state ≡ reconciling
unfolding execute after_turn turn begin running_turn dispatched_turn settled_turn judged_turn
    evaluate retry emit review_result reviewed judge is_over wait_for poll keeps_waiting
    is_non_terminal classify_status AgentRunStatus-discrete RunState-discrete
unsure_state = refl

execute-resume_from_reconciliation_example :
    (r : Reconciled) × (resume_from_reconciliation coordinator ids (sealed outcome) unsure.ledger
      ≡ ok r)
    × Settled coordinator unsure ids true r
execute-resume_from_reconciliation_example =
    execute-resume_from_reconciliation coordinator (answers ambiguous_side_effect) 2 0 start unsure
      ids outcome (inl refl) counts is_unsure unsure_state
