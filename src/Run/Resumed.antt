-- ===== src/Run/Resumed.antt =====
-- packages/workflow/src/run-coordinator.ts: who may resume a run, and what a resumed run takes up.
use constructie_orchestrator.Base.{
  ℕ, ◌≡◌, refl, sym, ◌∙◌, ap, ◌≤◌, String, List, [], ◌∷◌, Option, none, some, Bool, true, false,
  String_eq, Option_eq, eq_sound, eq_self, Result, err, ok, or_fail, ◌>>◌, check_ok, >>=-eq-ok,
  ok_inj, if◌then◌else◌,
}
use mathlib.Core.Option
use Prim.Native.String.{◌++◌ as concat}
use constructie_orchestrator.Policy.Events.{OwnerAuthorityEvent, Presented, sealed, plain}
use constructie_orchestrator.Workflow.Agents.{WorkPackage}
use constructie_orchestrator.Run.Types.{
  RunState, RunState_eq, RunState-discrete, starting, repairing, waiting_for_owner, reconciling,
  Pending, RunEvent, ProjectEvent,
}
use constructie_orchestrator.Run.Types
use constructie_orchestrator.Run.Cycle.{Coordinator, LoopState, Answers, emit}
use constructie_orchestrator.Run.Loop.{execute, done, IsAtHead}
use constructie_orchestrator.Run.Replay.{
  Replayed, get_events, view, replay, replay_event, not_started, view-emit,
}
use constructie_orchestrator.Run.Mirror.{CountsRepairs}
use constructie_orchestrator.Run.Returned.{execute-mirrors}
use constructie_orchestrator.Policy.RuleText.{gate_name, token_name}
use constructie_orchestrator.Run.Resume.{
  no_events, no_work_package, FreshIds, first, attempt_or, is_bound, check_authority,
  authority_coordinator, authority_state, resume_with_authority, ReconciliationOutcome, Reconciled,
  redispatched, stopped, outcome_coordinator, outcome_state, conclude, resume_from_reconciliation,
}

-- The authority of the owner is for this task and is what the run waits for.
pub record IsAwaited (task : String) (authority : OwnerAuthorityEvent) (pending : Pending)
    : Type 0 where
  pub task_id : authority.task_id ≡ task
  pub action : is_bound authority.bound_to_action pending.action ≡ true
  pub gate : is_bound (Option.map gate_name authority.bound_to_gate) pending.gate ≡ true
  pub authority_type : some (token_name authority.authority_type) ≡ pending.authority_type

>>-unit : {E : Type 0} (m k : Result E (Unit {0})) → (m >> k) ≡ ok tt → (m ≡ ok tt) × (k ≡ ok tt)
>>-unit (err e) k h = cc
>>-unit (ok tt) k h = (refl, h)

check_authority-ok :
    (task : String) (authority : OwnerAuthorityEvent) (r : Replayed)
    → check_authority task authority r ≡ ok tt
    → IsAwaited task authority r.pending × (r.current_state ≡ waiting_for_owner)
unfolding check_authority
check_authority-ok task authority r h =
    let (h4, t) = >>-unit _ _ h in
    let (h3, g) = >>-unit _ _ h4 in
    let (h2, a) = >>-unit _ _ h3 in
    let (h1, s) = >>-unit _ _ h2 in
    (
      record {
        task_id = eq_sound authority.task_id task (check_ok _ _ h1);
        action = check_ok _ _ a;
        gate = check_ok _ _ g;
        authority_type =
            eq_sound (some (token_name authority.authority_type)) r.pending.authority_type
              (check_ok _ _ t);
      },
      eq_sound r.current_state waiting_for_owner (check_ok _ _ s),
    )

-- A run is resumed by an owner event only when the event is sealed, the run waits for the owner, and
-- the event is of the coordinator's task and bound to the action, the gate and the authority type
-- that the run waits for; it then takes up the last work package under a new id.
pub resume_with_authority-ok :
    (c : Coordinator) (ids : FreshIds) (presented : Presented OwnerAuthorityEvent)
    (ledger : List ProjectEvent) (d : Coordinator) (s : LoopState)
    → resume_with_authority c ids presented ledger ≡ ok (d, s)
    → (authority : OwnerAuthorityEvent) × (wp : WorkPackage) × (presented ≡ sealed authority)
      × ((view c ledger).current_state ≡ waiting_for_owner)
      × IsAwaited c.canonical_task_id authority (view c ledger).pending
      × ((view c ledger).last_wp ≡ some wp)
      × (s.wp ≡ record wp { work_package_id = ids.work_package_id })
unfolding resume_with_authority authority_state emit
resume_with_authority-ok c ids (plain authority) ledger d s h = cc
resume_with_authority-ok c ids (sealed authority) ledger d s h =
    let (e, _, h1) =
      >>=-eq-ok (or_fail (first (get_events c.workflow_run_id ledger)) no_events) _ h in
    let (wp, w, h2) = >>=-eq-ok (or_fail (view c ledger).last_wp no_work_package) _ h1 in
    let (u, k, h3) =
      >>=-eq-ok (check_authority c.canonical_task_id authority (view c ledger)) _ h2 in
    let (awaited, state) = check_authority-ok c.canonical_task_id authority (view c ledger) k in
    (
      authority,
      wp,
      refl,
      state,
      awaited,
      found (view c ledger).last_wp w,
      sym (ap (λ (q : Coordinator × LoopState). q.1.wp) (ok_inj h3)),
    )
  where
    found :
        (o : Option WorkPackage) {x : WorkPackage} → or_fail o no_work_package ≡ ok x → o ≡ some x
    found none q = cc
    found (some y) q = ap some (ok_inj q)

-- A ledger that names a work package of the run has an event of it.
some-first :
    (events : List ProjectEvent) (wp : WorkPackage)
    → (replay not_started events).last_wp ≡ some wp
    → (e : ProjectEvent) × (first events ≡ some e)
unfolding replay not_started first
some-first [] wp h = cc
some-first (e ∷ events) wp h = (e, refl)

check_authority_passes :
    (task : String) (authority : OwnerAuthorityEvent) (r : Replayed) (pending : Pending)
    → r.current_state ≡ waiting_for_owner
    → r.pending ≡ pending
    → IsAwaited task authority pending
    → check_authority task authority r ≡ ok tt
unfolding check_authority
check_authority_passes task authority r pending state p h =
    rw
      (
        p,
        h.task_id,
        eq_self task,
        state,
        eq_self waiting_for_owner,
        h.action,
        h.gate,
        h.authority_type,
        eq_self pending.authority_type,
      )
      refl

-- When a run has returned to wait for the owner, the sealed event that it waits for resumes it: it
-- starts again at its last work package under a new id, still waiting for the same decision if it
-- is asked again, with no more repairs counted than it made.
pub execute-resume_with_authority :
    (c : Coordinator) (answers : ℕ → Answers) (fuel n : ℕ) (s t : LoopState) (ids : FreshIds)
    (authority : OwnerAuthorityEvent)
    → IsAtHead s
    → CountsRepairs c s
    → execute c answers fuel n s ≡ done t
    → t.state ≡ waiting_for_owner
    → IsAwaited c.canonical_task_id authority t.pending
    → (d : Coordinator) × (u : LoopState) × (resume_with_authority c ids (sealed authority) t.ledger
        ≡ ok (d, u))
      × (u.state ≡ starting)
      × (u.wp ≡ record (t.wp) { work_package_id = ids.work_package_id })
      × (u.pending ≡ t.pending)
      × (u.repair_attempts ≤ t.repair_attempts)
unfolding resume_with_authority authority_state emit view
execute-resume_with_authority c answers fuel n s t ids authority head counts h waits awaited =
    let m = execute-mirrors c answers fuel n s t head counts h in
    let (e, f) = some-first (get_events c.workflow_run_id t.ledger) t.wp m.wp in
    let d = authority_coordinator c authority e in
    let passes =
      check_authority_passes c.canonical_task_id authority (view c t.ledger) t.pending
        (m.state ∙ waits) m.pending awaited in
    (
      record d { causation_id = none },
      authority_state d ids authority t.ledger (view c t.ledger) t.wp,
      rw (f, passes, m.wp) refl,
      refl,
      refl,
      m.pending,
      m.repairs,
    )

-- What a reconciliation makes of a run: another attempt at its last work package when it is safe,
-- and otherwise a block that the ledger has.
abbrev pub Settled : Coordinator → LoopState → FreshIds → Bool → Reconciled → Type 0
Settled c t ids safe (redispatched d u) =
    (safe ≡ true)
    × (u.state ≡ repairing)
    × (u.wp ≡ record (t.wp) { work_package_id = ids.work_package_id })
    × (u.repair_attempts ≤ t.repair_attempts)
Settled c t ids safe (stopped u) =
    (safe ≡ false) × (u.state ≡ Types.blocked) × ((view c u.ledger).current_state ≡ Types.blocked)

conclude-Settled :
    (c : Coordinator) (t : LoopState) (ids : FreshIds) (outcome : ReconciliationOutcome)
    (e : ProjectEvent)
    → CountsRepairs c t
    → Settled c t ids outcome.safe_to_retry (
        conclude (outcome_coordinator c outcome e) ids outcome (view c t.ledger) (
          outcome_state
            (outcome_coordinator c outcome e)
            ids
            outcome
            t.ledger
            (view c t.ledger)
            t.wp))
unfolding conclude outcome_state outcome_coordinator emit view replay_event
conclude-Settled c t ids outcome e counts = of_safe outcome.safe_to_retry
  where
    d : Coordinator
    d = outcome_coordinator c outcome e

    recorded : LoopState
    recorded = outcome_state d ids outcome t.ledger (view c t.ledger) t.wp

    held : LoopState
    held = record recorded { state = Types.blocked }

    reason : RunEvent
    reason =
        Types.run_blocked (attempt_or ids.fallback (view c t.ledger).last_attempt_id)
          (concat "RECONCILIATION_UNSAFE: " outcome.reason)

    of_safe :
        (b : Bool)
        → Settled c t ids b (
            if b
            then redispatched (record d { causation_id = none }) recorded
            else stopped (emit d reason held))
    of_safe true = (refl, refl, refl, counts)
    of_safe false = (refl, refl, ap (λ (r : Replayed). r.current_state) (view-emit d reason held))

-- When a run has returned to be reconciled, a sealed outcome settles it: when a retry is safe the run
-- is dispatched again with its last work package under a new id and no more repairs counted than it
-- made, and otherwise it is blocked, in the ledger too, and not dispatched.
pub execute-resume_from_reconciliation :
    (c : Coordinator) (answers : ℕ → Answers) (fuel n : ℕ) (s t : LoopState) (ids : FreshIds)
    (outcome : ReconciliationOutcome)
    → IsAtHead s
    → CountsRepairs c s
    → execute c answers fuel n s ≡ done t
    → t.state ≡ reconciling
    → (r : Reconciled) × (resume_from_reconciliation c ids (sealed outcome) t.ledger ≡ ok r)
      × Settled c t ids outcome.safe_to_retry r
unfolding resume_from_reconciliation view
execute-resume_from_reconciliation c answers fuel n s t ids outcome head counts h waits =
    let m = execute-mirrors c answers fuel n s t head counts h in
    let (e, f) = some-first (get_events c.workflow_run_id t.ledger) t.wp m.wp in
    let d = outcome_coordinator c outcome e in
    let r = view c t.ledger in
    (
      conclude d ids outcome r (outcome_state d ids outcome t.ledger r t.wp),
      rw (f, m.state ∙ waits, eq_self reconciling, m.wp) refl,
      conclude-Settled c t ids outcome e m.repairs,
    )
