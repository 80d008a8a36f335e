-- ===== src/Run/Resume.antt =====
-- packages/workflow/src/run-coordinator.ts: a run that is taken up again, by the authority of the
-- owner or after a reconciliation. A sealed event or outcome has its brand; a plain object has not.
-- The result is the state and the coordinator with which `execute` is called.
use constructie_orchestrator.Base.{
  ◌+◌, String, List, [], ◌∷◌, Option, none, some, Bool, false, not, ◌&&◌, if◌then◌else◌, ◌==◌,
  String_eq, Option_eq, Result, err, ok, or_fail, check, length, ◌>>=◌, ◌>>◌,
}
use mathlib.Core.Option
use Prim.Native.String.{◌++◌ as concat}
use constructie_orchestrator.Policy.RuleText.{gate_name, token_name}
use constructie_orchestrator.Policy.Events.{OwnerAuthorityEvent, Presented, sealed, plain}
use constructie_orchestrator.Workflow.Agents.{WorkPackage}
use constructie_orchestrator.Run.Types.{
  RunState, RunState_eq, starting, repairing, waiting_for_owner, reconciling, Pending, run_blocked,
  run_resumed, reconciliation_outcome, ProjectEvent,
}
use constructie_orchestrator.Run.Types
use constructie_orchestrator.Run.Cycle.{Coordinator, LoopState, emit}
use constructie_orchestrator.Run.Replay.{Replayed, get_events, view, no_pending}

pub data ResumeError : Type 0 where
  untrusted no_events no_work_package task_mismatch : ResumeError
  action_mismatch gate_mismatch authority_type_mismatch : ResumeError
  wrong_state : RunState → ResumeError

-- The ids that a resumption draws; `fallback` stands for an attempt that no event names.
pub record FreshIds : Type 0 where
  pub fallback : String
  pub attempt_id : String
  pub work_package_id : String

unfoldable pub first : List ProjectEvent → Option ProjectEvent
first [] = none
first (e ∷ events) = some e

unfoldable pub attempt_or : String → Option String → String
attempt_or fallback none = fallback
attempt_or fallback (some attempt) = attempt

-- `!bound || bound !== pending` fails: the binding is there, is not empty, and is the pending one.
unfoldable pub is_bound : Option String → Option String → Bool
is_bound none pending = false
is_bound (some bound) pending = not (bound == "") && some bound == pending

-- The guards of `resumeWithAuthority` once there is a work package.
unfoldable pub check_authority :
    String → OwnerAuthorityEvent → Replayed → Result ResumeError (Unit {0})
check_authority canonical_task_id authority r =
    check (authority.task_id == canonical_task_id) task_mismatch
    >> check (r.current_state == waiting_for_owner) (wrong_state r.current_state)
    >> check (is_bound authority.bound_to_action r.pending.action) action_mismatch
    >> check (is_bound (Option.map gate_name authority.bound_to_gate) r.pending.gate) gate_mismatch
    >> check (some (token_name authority.authority_type) == r.pending.authority_type)
        authority_type_mismatch

-- The coordinator of the resumed run, and the state in which it starts.
unfoldable pub authority_coordinator :
    Coordinator → OwnerAuthorityEvent → ProjectEvent → Coordinator
authority_coordinator c authority e = record c {
  project_id = e.project_id;
  correlation_id = authority.correlation_id;
  causation_id = some authority.event_id;
}

unfoldable pub authority_state :
    Coordinator
    → FreshIds
    → OwnerAuthorityEvent
    → List ProjectEvent
    → Replayed
    → WorkPackage
    → LoopState
authority_state c ids authority ledger r wp =
    emit c
      (run_resumed (attempt_or ids.fallback r.last_attempt_id)
        (token_name authority.authority_type))
      (record {
        state = starting;
        wp = record wp { work_package_id = ids.work_package_id };
        attempt_id = ids.attempt_id;
        revision = length (get_events c.workflow_run_id ledger) + 1;
        pending = r.pending;
        repair_attempts = r.repair_attempts;
        ledger = ledger;
      })

-- `resumeWithAuthority`, up to its call of `execute`.
unfoldable pub resume_with_authority :
    Coordinator
    → FreshIds
    → Presented OwnerAuthorityEvent
    → List ProjectEvent
    → Result ResumeError (Coordinator × LoopState)
resume_with_authority c ids (plain authority) ledger = err untrusted
resume_with_authority c ids (sealed authority) ledger =
    let r = view c ledger in
    or_fail (first (get_events c.workflow_run_id ledger)) no_events >>= λ e.
    or_fail r.last_wp no_work_package >>= λ wp.
    check_authority c.canonical_task_id authority r
    >> (let d = authority_coordinator c authority e in
        ok (record d { causation_id = none }, authority_state d ids authority ledger r wp))

pub record ReconciliationOutcome : Type 0 where
  pub safe_to_retry : Bool
  pub correlation_id : String
  pub causation_id : String
  pub verified_by : String
  pub reason : String

-- `TrustedReconciliationIssuer.issueOutcome`, which alone seals an outcome.
unfoldable pub issue_outcome :
    (identity : String)
    → Bool
    → (correlation_id causation_id reason : String) → Presented ReconciliationOutcome
issue_outcome identity safe_to_retry correlation_id causation_id reason = sealed (record {
  safe_to_retry = safe_to_retry;
  correlation_id = correlation_id;
  causation_id = causation_id;
  verified_by = identity;
  reason = reason;
})

-- After a reconciliation `execute` is called, or the run is blocked.
pub data Reconciled : Type 0 where
  redispatched : Coordinator → LoopState → Reconciled
  stopped : LoopState → Reconciled

unfoldable pub outcome_coordinator :
    Coordinator → ReconciliationOutcome → ProjectEvent → Coordinator
outcome_coordinator c outcome e = record c {
  project_id = e.project_id;
  correlation_id = outcome.correlation_id;
  causation_id = some outcome.causation_id;
}

-- The state after the outcome is recorded.
unfoldable pub outcome_state :
    Coordinator
    → FreshIds
    → ReconciliationOutcome
    → List ProjectEvent
    → Replayed
    → WorkPackage
    → LoopState
outcome_state c ids outcome ledger r wp =
    emit c
      (reconciliation_outcome (attempt_or ids.fallback r.last_attempt_id) outcome.safe_to_retry
        outcome.verified_by outcome.reason)
      (record {
        state = repairing;
        wp = record wp { work_package_id = ids.work_package_id };
        attempt_id = ids.attempt_id;
        revision = length (get_events c.workflow_run_id ledger) + 1;
        pending = no_pending;
        repair_attempts = r.repair_attempts;
        ledger = ledger;
      })

unfoldable pub conclude :
    Coordinator → FreshIds → ReconciliationOutcome → Replayed → LoopState → Reconciled
conclude c ids outcome r s =
    if outcome.safe_to_retry
    then redispatched (record c { causation_id = none }) s
    else stopped (
        emit c
          (run_blocked (attempt_or ids.fallback r.last_attempt_id)
            (concat "RECONCILIATION_UNSAFE: " outcome.reason))
          (record s { state = Types.blocked }))

-- `resumeFromReconciliation`, up to its call of `execute`.
unfoldable pub resume_from_reconciliation :
    Coordinator
    → FreshIds
    → Presented ReconciliationOutcome
    → List ProjectEvent
    → Result ResumeError Reconciled
resume_from_reconciliation c ids (plain outcome) ledger = err untrusted
resume_from_reconciliation c ids (sealed outcome) ledger =
    let r = view c ledger in
    or_fail (first (get_events c.workflow_run_id ledger)) no_events >>= λ e.
    or_fail r.last_wp no_work_package >>= λ wp.
    check (r.current_state == reconciling) (wrong_state r.current_state)
    >> (let d = outcome_coordinator c outcome e in
        ok (conclude d ids outcome r (outcome_state d ids outcome ledger r wp)))
