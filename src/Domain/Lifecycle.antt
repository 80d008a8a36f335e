-- ===== src/Domain/Lifecycle.antt =====
-- packages/domain/src/work-item.ts: histories of legal transitions.
use constructie_orchestrator.Base.{
  ◌≡◌, ◌≢◌, refl, Bool, true, false, ◌==◌, ◌||◌, includes-Elem, ok, check_ok, all, all-Elem,
  eq_sound, Bool-cases, inl, inr, arith,
}
use constructie_orchestrator.Domain.WorkItem.{
  WorkItemLifecycleState, draft, ready, queued, assigned, running, waiting, blocked,
  recovery_required, superseded, completed, review_required, verification_required, repair_required,
  WorkItemLifecycleState_eq, WorkItemLifecycleState-discrete, AttemptState, AttemptState_eq,
  AttemptState-discrete, not_started, starting, succeeded, failed, timed_out, interrupted, unknown,
  work_item_transitions, assert_work_item_transition, attempt_transitions,
  assert_attempt_transition, is_active_attempt_state, active_attempt_states,
}

-- The states that a work item reaches from its creation by legal transitions, never running.
pub data NeverRan : WorkItemLifecycleState → Type 0 where
  created : NeverRan draft
  moved :
      {from to : WorkItemLifecycleState}
      → NeverRan from
      → assert_work_item_transition from to ≡ ok tt
      → to ≢ running
      → NeverRan to

-- The states before the first run.
unfoldable pub is_unrun : WorkItemLifecycleState → Bool
is_unrun completed = false
is_unrun review_required = false
is_unrun verification_required = false
is_unrun repair_required = false
is_unrun running = false
is_unrun _ = true

unrun_successors :
    (from : WorkItemLifecycleState)
    → is_unrun from ≡ true
    → all (λ to. is_unrun to || to == running) (work_item_transitions from) ≡ true
unfolding is_unrun work_item_transitions WorkItemLifecycleState-discrete
unrun_successors draft h = refl
unrun_successors ready h = refl
unrun_successors queued h = refl
unrun_successors assigned h = refl
unrun_successors running h = cc
unrun_successors waiting h = refl
unrun_successors blocked h = refl
unrun_successors review_required h = cc
unrun_successors verification_required h = cc
unrun_successors repair_required h = cc
unrun_successors recovery_required h = refl
unrun_successors completed h = cc
unrun_successors WorkItemLifecycleState.cancelled h = refl
unrun_successors superseded h = refl

one_holds : (a b : Bool) → (a || b) ≡ true → b ≡ false → a ≡ true
one_holds a b h e = ground arith

NeverRan-is_unrun : (s : WorkItemLifecycleState) → NeverRan s → is_unrun s ≡ true
unfolding is_unrun assert_work_item_transition
NeverRan-is_unrun _ created = refl
NeverRan-is_unrun _ (moved {from} {to} h legal other) =
    let listed = includes-Elem to (work_item_transitions from) (check_ok _ _ legal) in
    let either : (is_unrun to || to == running) ≡ true =
      all-Elem (λ t. is_unrun t || t == running) (work_item_transitions from)
        (unrun_successors from (NeverRan-is_unrun from h)) listed in
    elim (Bool-cases (to == running)) [
      | inl e ↦ absurd (other (eq_sound to running e))
      | inr e ↦ one_holds (is_unrun to) (to == running) either e
    ]

-- No work item is completed, or waits for a review, a verification or a repair, unless it has run.
pub NeverRan-unfinished :
    (s : WorkItemLifecycleState)
    → NeverRan s
    → (s ≢ completed) × (s ≢ review_required) × (s ≢ verification_required) × (s ≢ repair_required)
unfolding is_unrun
NeverRan-unfinished s h =
    let u = NeverRan-is_unrun s h in
    (λ e. cc (rw e at u), λ e. cc (rw e at u), λ e. cc (rw e at u), λ e. cc (rw e at u))

-- An attempt moves only from an active state: an ended one stays as it ended.
pub assert_attempt_transition-active :
    (from to : AttemptState)
    → assert_attempt_transition from to ≡ ok tt
    → is_active_attempt_state from ≡ true
unfolding assert_attempt_transition attempt_transitions is_active_attempt_state
    active_attempt_states AttemptState-discrete
assert_attempt_transition-active not_started to h = refl
assert_attempt_transition-active starting to h = refl
assert_attempt_transition-active AttemptState.running to h = refl
assert_attempt_transition-active unknown to h = refl
assert_attempt_transition-active succeeded to h = cc
assert_attempt_transition-active failed to h = cc
assert_attempt_transition-active timed_out to h = cc
assert_attempt_transition-active interrupted to h = cc
assert_attempt_transition-active AttemptState.cancelled to h = cc
