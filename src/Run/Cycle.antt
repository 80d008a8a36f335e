-- ===== src/Run/Cycle.antt =====
-- packages/workflow/src/run-coordinator.ts: one turn of the loop of `execute`. What the bridge and
-- the reviewer answer in the turn, and the ids drawn in it, are a record; `stamp` gives the id and
-- the time of the event of each revision. A call that throws ends the run with the events so far.
use constructie_orchestrator.Base.{
  ℕ, suc, ◌+◌, String, List, [], ◌∷◌, ◌++◌, Option, none, some, leb, if◌then◌else◌, ◌==◌, includes,
  String_eq, Result, err, ok,
}
use Prim.Native.String.{◌++◌ as concat}
use constructie_orchestrator.Base.Text.{join}
use constructie_orchestrator.Workflow.Agents.{
  AgentRunHandle, AgentRunResult, AgentRunStatus, AgentRunStatus_eq, AgentRuntimeContext,
  WorkPackage,
}
use constructie_orchestrator.Workflow.Engine.{runtime_context}
use constructie_orchestrator.Run.Types.{
  RunState, RunState_eq, starting, running, evaluating, repairing, waiting_for_owner, reconciling,
  closed, ReviewDecision, pass, fail_repairable, owner_decision_required, ambiguous_side_effect,
  complete, needs_evidence, RepairPackage, ReviewVerdict, ReviewRequest, StatusClass, non_terminal,
  terminal, ambiguous, classify_status, Pending, ReportedResult, given, failure, RunEvent,
  run_started, run_repair_started, run_dispatched, run_completed, run_blocked,
  evaluation_failed_repairable, evaluation_needs_evidence, evaluation_ambiguous_side_effect,
  evaluation_owner_decision_required, evaluation_passed, run_closed, ProjectEvent,
}
use constructie_orchestrator.Run.Types
use constructie_orchestrator.Run.Wait.{Polls, wait_for}

-- What one run is about, and the settings of the coordinator.
pub record Coordinator : Type 0 where
  pub workflow_run_id : String
  pub correlation_id : String
  pub causation_id : Option String
  pub project_id : String
  pub canonical_task_id : String
  pub timeout_ms : ℕ
  pub max_repair_attempts : ℕ
  pub stamp : ℕ → String × ℕ

-- The answers in one turn, and the ids drawn in it.
pub record Answers : Type 0 where
  pub dispatch : WorkPackage → AgentRuntimeContext → Result String AgentRunHandle
  pub polls : String → Polls
  pub get_result : String → Result String AgentRunResult
  pub review : AgentRunResult → ReviewRequest → Result String ReviewVerdict
  pub attempt_id : String
  pub work_package_id : String

-- The variables of `execute`, with the ledger.
pub record LoopState : Type 0 where
  pub state : RunState
  pub wp : WorkPackage
  pub attempt_id : String
  pub revision : ℕ
  pub pending : Pending
  pub repair_attempts : ℕ
  pub ledger : List ProjectEvent

-- The end of a turn: the loop goes on, `execute` returns, or it throws.
pub data Turn : Type 0 where
  goes_on : LoopState → Turn
  returns : LoopState → Turn
  throws : LoopState → String → Turn

unfoldable pub ambiguity : String → ReviewVerdict
ambiguity finding = record {
  decision = ambiguous_side_effect;
  findings = finding ∷ [];
  repair_package = none;
  review_depth = "SYSTEM";
  lineage = [];
  pending_action = none;
  pending_gate = none;
  pending_authority_type = none;
  next_action = none;
}

unfoldable pub transport_lost : ReviewVerdict
transport_lost = ambiguity "TRANSPORT_LOST_AMBIGUOUS"

-- A reviewer that throws counts as a lost transport.
unfoldable pub reviewed : Result String ReviewVerdict → ReviewVerdict
reviewed (err e) = transport_lost
reviewed (ok verdict) = verdict

-- The review of a result that the bridge gave.
unfoldable pub review_result :
    (AgentRunResult → Result String ReviewVerdict) → AgentRunResult → ReviewVerdict
review_result review result =
    if includes result.status (AgentRunStatus.cancelled ∷ AgentRunStatus.interrupted ∷ [])
    then ambiguity "Cancelled"
    else if result.status == AgentRunStatus.failed
    then record (ambiguity "Run failed naturally, repairing.") { decision = fail_repairable }
    else reviewed (review result)

-- The review and the result of a settled run.
unfoldable pub judge :
    (AgentRunResult → Result String ReviewVerdict)
    → StatusClass
    → Result String AgentRunResult
    → Option AgentRunResult × ReviewVerdict
judge review non_terminal result = (none, ambiguity "TIMEOUT_AMBIGUOUS")
judge review ambiguous result = (none, transport_lost)
judge review terminal (err e) = (none, transport_lost)
judge review terminal (ok result) = (some result, review_result review result)

unfoldable pub reported : Option AgentRunResult → ReviewVerdict → ReportedResult
reported none review = failure (join ";" review.findings)
reported (some result) review = given result

-- The objective after a verdict that asks for another attempt.
unfoldable pub repair_objective : String → ReviewVerdict → String → String
repair_objective prefix review original =
    concat prefix (concat (join ";" review.findings) (concat "\nOriginal: " original))

unfoldable pub with_constraints : Option RepairPackage → String → String
with_constraints none objective = objective
with_constraints (some package_of) objective = concat objective (
    concat "\nRepair Constraints: Allowed[" (
      concat (join "," package_of.allowed_scope)
        (concat "], Forbidden[" (concat (join "," package_of.forbidden_actions) "]"))))

module _ (c : Coordinator) where
  -- `emit`
  unfoldable pub emit : RunEvent → LoopState → LoopState
  emit payload s = record s {
    revision = s.revision + 1;
    ledger =
        s.ledger
        ++ (record {
          id = (c.stamp s.revision).0;
          project_id = c.project_id;
          aggregate_id = c.workflow_run_id;
          aggregate_revision = s.revision;
          correlation_id = c.correlation_id;
          causation_id = c.causation_id;
          payload = payload;
          occurred_at = (c.stamp s.revision).1;
        }
            ∷ []);
  }

  -- The events at the start of an attempt.
  unfoldable pub begin : RunState → LoopState → LoopState
  begin starting s =
      emit (run_started s.attempt_id s.wp s.pending c.canonical_task_id)
        (record s { state = running })
  begin repairing s =
      emit (run_repair_started s.attempt_id s.wp s.pending c.canonical_task_id)
        (record s { state = running })
  begin _ s = s

  -- Another attempt at the same work, or none when all are used.
  unfoldable pub retry : Answers → String → RunEvent → LoopState → Turn
  retry a objective event s =
      if leb c.max_repair_attempts s.repair_attempts
      then goes_on (
          emit (run_blocked s.attempt_id "MAX_REPAIR_ATTEMPTS_EXCEEDED")
            (record s { state = Types.blocked }))
      else goes_on (
          emit event (record s {
            repair_attempts = s.repair_attempts + 1;
            state = repairing;
            attempt_id = a.attempt_id;
            wp = record (s.wp) { work_package_id = a.work_package_id; objective = objective };
          }))

  unfoldable pub owner_pending : ReviewVerdict → Pending
  owner_pending review = record {
    action = review.pending_action;
    gate = review.pending_gate;
    authority_type = review.pending_authority_type;
  }

  -- A PASS without a plan to go on; an empty plan counts as none.
  unfoldable pub pass_on : Answers → Option String → LoopState → Turn
  pass_on a none s = throws s "PASS decision missing nextAction continuation plan"
  pass_on a (some next) s =
      if next == ""
      then throws s "PASS decision missing nextAction continuation plan"
      else goes_on (record s {
        wp = record (s.wp) { work_package_id = a.work_package_id; objective = next };
        attempt_id = a.attempt_id;
        state = starting;
      })

  -- The branches on the decision of the reviewer.
  unfoldable pub evaluate : Answers → ReviewVerdict → ReviewDecision → LoopState → Turn
  evaluate a review fail_repairable s =
      retry a
        (with_constraints review.repair_package
          (repair_objective "Repair feedback: " review s.wp.objective))
        (evaluation_failed_repairable a.attempt_id (s.repair_attempts + 1) review.repair_package) s
  evaluate a review needs_evidence s =
      retry a (repair_objective "Needs evidence: " review s.wp.objective)
        (evaluation_needs_evidence a.attempt_id (s.repair_attempts + 1)) s
  evaluate a review ambiguous_side_effect s =
      returns
        (emit (evaluation_ambiguous_side_effect s.attempt_id) (record s { state = reconciling }))
  evaluate a review owner_decision_required s = returns (
      emit (evaluation_owner_decision_required s.attempt_id (owner_pending review))
        (record s { state = waiting_for_owner; pending = owner_pending review }))
  evaluate a review pass s =
      pass_on a review.next_action (emit (evaluation_passed s.attempt_id review.next_action) s)
  evaluate a review complete s =
      goes_on (emit (run_closed s.attempt_id) (record s { state = closed }))
  evaluate a review Types.blocked s =
      goes_on (emit (run_blocked s.attempt_id "BLOCKED") (record s { state = Types.blocked }))

  unfoldable pub review_request : LoopState → ReviewRequest
  review_request s = record {
    project_id = c.project_id;
    workflow_run_id = c.workflow_run_id;
    work_package_id = s.wp.work_package_id;
    attempt_id = s.attempt_id;
    scope_revision = "v1";
    contract_revision = "v1";
    moc_revision = "v1";
    requirement_refs = [];
    evidence_refs = [];
    verification_refs = [];
    ledger_revision = s.revision;
  }

  -- From the settled run to its evaluation.
  unfoldable pub judged_turn : Answers → Option AgentRunResult × ReviewVerdict → LoopState → Turn
  judged_turn a (result, review) s =
      evaluate a review review.decision
        (record (emit (run_completed s.attempt_id (reported result review)) s) {
          state = evaluating;
        })

  unfoldable pub settled_turn :
      Answers → AgentRunHandle → Result String AgentRunStatus → LoopState → Turn
  settled_turn a handle (err e) s = throws s e
  settled_turn a handle (ok status) s =
      judged_turn a
        (judge (λ result. a.review result (review_request s)) (classify_status status)
          (a.get_result handle.run_id))
        s

  unfoldable pub dispatched_turn : Answers → Result String AgentRunHandle → LoopState → Turn
  dispatched_turn a (err e) s = throws s e
  dispatched_turn a (ok handle) s =
      settled_turn a handle (wait_for (a.polls handle.run_id) c.timeout_ms (suc c.timeout_ms))
        (emit (run_dispatched s.attempt_id handle.run_id) s)

  unfoldable pub running_turn : Answers → LoopState → Turn
  running_turn a s =
      dispatched_turn a
        (a.dispatch s.wp (runtime_context c.correlation_id c.workflow_run_id s.attempt_id)) s

  -- One turn of the loop.
  unfoldable pub turn : Answers → LoopState → Turn
  turn a s =
      let begun = begin s.state s in
      if begun.state == running then running_turn a begun else goes_on begun
