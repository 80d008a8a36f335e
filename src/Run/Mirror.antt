-- ===== src/Run/Mirror.antt =====
-- packages/workflow/src/run-coordinator.ts: the replay of the events of a run gives its state.
use constructie_orchestrator.Base.{
  ◌+◌, ◌≤◌, ◌≡◌, refl, sym, ◌∙◌, ap, subst, ◌⊎◌, inl, inr, arith, String, Option, none, some, true,
  leb, ◌==◌, String_eq, Bool-cases, Result, err, ok,
}
use constructie_orchestrator.Workflow.Agents.{AgentRunHandle, AgentRunResult, AgentRunStatus}
use constructie_orchestrator.Run.Types.{
  RunState, RunState-discrete, starting, running, repairing, closed, ReviewDecision, pass,
  fail_repairable, owner_decision_required, ambiguous_side_effect, complete, needs_evidence,
  ReviewVerdict, RunEvent,
}
use constructie_orchestrator.Run.Types
use constructie_orchestrator.Run.Cycle.{
  Coordinator, Answers, LoopState, Turn, goes_on, returns, throws, emit, begin, retry, pass_on,
  evaluate, owner_pending, judged_turn, settled_turn, dispatched_turn, running_turn, turn,
}
use constructie_orchestrator.Run.Loop.{is_over, IsAtHead}
use constructie_orchestrator.Run.Replay.{Replayed, replay_event, view, view-emit}

module _ (c : Coordinator) where
  -- No more repairs are read from the ledger than were made.
  abbrev pub CountsRepairs : LoopState → Type 0
  CountsRepairs s = (view c s.ledger).repair_attempts ≤ s.repair_attempts

  -- What the ledger says of the run is so.
  pub record IsMirrored (s : LoopState) : Type 0 where
    pub wp : (view c s.ledger).last_wp ≡ some s.wp
    pub attempt_id : (view c s.ledger).last_attempt_id ≡ some s.attempt_id
    pub state : (view c s.ledger).current_state ≡ s.state
    pub pending : (view c s.ledger).pending ≡ s.pending
    pub repairs : CountsRepairs s

  -- The same of a replay that is given.
  record Shows (r : Replayed) (s : LoopState) : Type 0 where
    wp : r.last_wp ≡ some s.wp
    attempt_id : r.last_attempt_id ≡ some s.attempt_id
    state : r.current_state ≡ s.state
    pending : r.pending ≡ s.pending
    repairs : r.repair_attempts ≤ s.repair_attempts

  IsMirrored-emit :
      (e : RunEvent) (s : LoopState)
      → Shows (replay_event (view c s.ledger) e) s
      → IsMirrored (emit c e s)
  unfolding emit
  IsMirrored-emit e s h =
      let p = view-emit c e s in
      record {
        wp = ap (λ (r : Replayed). r.last_wp) p ∙ h.wp;
        attempt_id = ap (λ (r : Replayed). r.last_attempt_id) p ∙ h.attempt_id;
        state = ap (λ (r : Replayed). r.current_state) p ∙ h.state;
        pending = ap (λ (r : Replayed). r.pending) p ∙ h.pending;
        repairs =
            subst (λ n. n ≤ s.repair_attempts) (ap (λ (r : Replayed). r.repair_attempts) (sym p))
              h.repairs;
      }

  counts_emit :
      (e : RunEvent) (s : LoopState)
      → (replay_event (view c s.ledger) e).repair_attempts ≤ s.repair_attempts
      → CountsRepairs (emit c e s)
  unfolding emit
  counts_emit e s h =
      subst (λ n. n ≤ s.repair_attempts)
        (ap (λ (r : Replayed). r.repair_attempts) (sym (view-emit c e s))) h

  -- After a turn: the ledger mirrors where a run has stopped, and counts the repairs where it goes on.
  abbrev pub Reflects : Turn → Type 0
  Reflects (throws s e) = Unit
  Reflects (returns s) = IsMirrored s
  Reflects (goes_on s) = ((is_over s.state ≡ true) × IsMirrored s) ⊎ (IsAtHead s × CountsRepairs s)

  begin-IsMirrored : (s : LoopState) → IsAtHead s → CountsRepairs s → IsMirrored (begin c s.state s)
  unfolding begin replay_event
  begin-IsMirrored s (inl e) n = rw e (
      IsMirrored-emit _ (record s { state = running })
        (record { wp = refl; attempt_id = refl; state = refl; pending = refl; repairs = n }))
  begin-IsMirrored s (inr e) n = rw e (
      IsMirrored-emit _ (record s { state = running })
        (record { wp = refl; attempt_id = refl; state = refl; pending = refl; repairs = n }))

  module _ (a : Answers) where
    retry-Reflects :
        (objective : String) (event : RunEvent) (s : LoopState)
        → IsMirrored s
        → (replay_event (view c s.ledger) event).repair_attempts ≤ s.repair_attempts + 1
        → Reflects (retry c a objective event s)
    unfolding retry emit replay_event is_over RunState-discrete
    retry-Reflects objective event s h n =
        elim (Bool-cases (leb c.max_repair_attempts s.repair_attempts)) [
          | inl e ↦ rw e (
              inl (
                refl,
                IsMirrored-emit _ (record s { state = Types.blocked })
                    (record {
                      wp = h.wp;
                      attempt_id = h.attempt_id;
                      state = refl;
                      pending = h.pending;
                      repairs = h.repairs;
                    }),
              ))
          | inr e ↦ rw e (
              inr (
                inr refl,
                counts_emit event
                    (record s {
                      repair_attempts = s.repair_attempts + 1;
                      state = repairing;
                      attempt_id = a.attempt_id;
                      wp = record (s.wp) {
                        work_package_id = a.work_package_id;
                        objective = objective;
                      };
                    })
                    n,
              ))
        ]

    pass_on-Reflects :
        (next : Option String) (s : LoopState) → CountsRepairs s → Reflects (pass_on c a next s)
    unfolding pass_on
    pass_on-Reflects none s n = tt
    pass_on-Reflects (some next) s n = elim (Bool-cases (next == "")) [
      | inl e ↦ rw e tt
      | inr e ↦ rw e (inr (inl refl, n))
    ]

    evaluate-Reflects :
        (review : ReviewVerdict) (d : ReviewDecision) (s : LoopState)
        → IsMirrored s
        → Reflects (evaluate c a review d s)
    unfolding evaluate emit replay_event is_over RunState-discrete
    evaluate-Reflects review fail_repairable s h = retry-Reflects _ _ s h (omega arith)
    evaluate-Reflects review needs_evidence s h =
        let n = h.repairs in retry-Reflects _ _ s h (omega arith)
    evaluate-Reflects review ambiguous_side_effect s h =
        IsMirrored-emit _ (record s { state = Types.reconciling })
          (record {
            wp = h.wp;
            attempt_id = h.attempt_id;
            state = refl;
            pending = h.pending;
            repairs = h.repairs;
          })
    evaluate-Reflects review owner_decision_required s h =
        IsMirrored-emit
          (Types.evaluation_owner_decision_required s.attempt_id (owner_pending c review))
          (record s { state = Types.waiting_for_owner; pending = owner_pending c review })
          (record {
            wp = h.wp;
            attempt_id = h.attempt_id;
            state = refl;
            pending = refl;
            repairs = h.repairs;
          })
    evaluate-Reflects review pass s h = pass_on-Reflects _ (emit c _ s) (counts_emit _ s h.repairs)
    evaluate-Reflects review complete s h = inl (
      refl,
      IsMirrored-emit _ (record s { state = closed })
          (record {
            wp = h.wp;
            attempt_id = h.attempt_id;
            state = refl;
            pending = h.pending;
            repairs = h.repairs;
          }),
    )
    evaluate-Reflects review Types.blocked s h = inl (
      refl,
      IsMirrored-emit _ (record s { state = Types.blocked })
          (record {
            wp = h.wp;
            attempt_id = h.attempt_id;
            state = refl;
            pending = h.pending;
            repairs = h.repairs;
          }),
    )

    judged_turn-Reflects :
        (m : Option AgentRunResult × ReviewVerdict) (s : LoopState)
        → IsMirrored s
        → Reflects (judged_turn c a m s)
    unfolding judged_turn emit replay_event
    judged_turn-Reflects (result, review) s h = evaluate-Reflects review review.decision _ (
        IsMirrored-emit _ (record s { state = Types.evaluating })
          (record {
            wp = h.wp;
            attempt_id = h.attempt_id;
            state = refl;
            pending = h.pending;
            repairs = h.repairs;
          }))

    dispatched_turn-Reflects :
        (answer : Result String AgentRunHandle) (s : LoopState)
        → s.state ≡ running
        → IsMirrored s
        → Reflects (dispatched_turn c a answer s)
    unfolding dispatched_turn settled_turn replay_event
    dispatched_turn-Reflects (err e) s r h = tt
    dispatched_turn-Reflects (ok handle) s r h = of_status _
      where
        sent : IsMirrored (emit c (Types.run_dispatched s.attempt_id handle.run_id) s)
        sent = IsMirrored-emit _ s (record {
          wp = h.wp;
          attempt_id = h.attempt_id;
          state = sym r;
          pending = h.pending;
          repairs = h.repairs;
        })

        of_status :
            (status : Result String AgentRunStatus)
            → Reflects (
                settled_turn c a handle status
                  (emit c (Types.run_dispatched s.attempt_id handle.run_id) s))
        of_status (err e) = tt
        of_status (ok status) = judged_turn-Reflects _ _ sent

    pub turn-Reflects : (s : LoopState) → IsAtHead s → CountsRepairs s → Reflects (turn c a s)
    unfolding turn begin emit running_turn RunState-discrete
    turn-Reflects s (inl e) n =
        rw e (dispatched_turn-Reflects _ _ refl (rw e at (begin-IsMirrored s (inl e) n)))
    turn-Reflects s (inr e) n =
        rw e (dispatched_turn-Reflects _ _ refl (rw e at (begin-IsMirrored s (inr e) n)))
