-- ===== src/Policy/Processor/Invariant.antt =====
-- What holds of the processor after any sequence of events, revocations and grant operations.
use constructie_orchestrator.Base.Dict.{
  get, set, Distinct, Distinct-set, AllValues, AllValues-get, AllValues-set, AllValues-Elem,
}
use constructie_orchestrator.Base.{
  ℕ, ◌≡◌, ◌≢◌, refl, ◌≤◌, String, List, [], ◌∷◌, none, some, ◌&&◌, ◌==◌, ok, err, arith, String_eq,
  Option_eq, ◌⊎◌, Bool-cases, inl, inr, Option-cases, find, find-some, eq_sound,
}
use constructie_orchestrator.Policy.Types.{
  ExecutionGate, OwnerAuthorityToken, reserved, active, consumed, reconciliation_required,
  AuthorityGrantStatus_eq, issued, Environment,
}
use constructie_orchestrator.Policy.Events.{
  OwnerAuthorityEvent, GateTransitionEvent, ApprovedScopeEvent, Presented, sealed, plain,
}
use constructie_orchestrator.Policy.Processor.{
  OwnerEventProcessor, GrantRecord, Outcome, new_processor, apply_owner_authority_event,
  transition_gate_from_event, set_approved_scope_from_plan, revoke_grant, reserve_grant,
  consume_grant, release_grant_for_retry, require_reconciliation, is_multi_use, is_revocable,
}
use constructie_orchestrator.Policy.Processor.Gates.{
  rank, IsTransition, transition_gate_from_event-ok,
}

-- Everything that can happen to a processor.
pub data Operation : Type 0 where
  apply_authority : Presented OwnerAuthorityEvent → Operation
  transition_gate : Presented GateTransitionEvent → Operation
  set_scope : Presented ApprovedScopeEvent → Operation
  revoke : OwnerAuthorityToken → Operation
  reserves consumes releases reconciles : String → String → Operation

-- A call that throws leaves the processor as it was.
abbrev pub after : OwnerEventProcessor → Outcome → OwnerEventProcessor
after p (ok q) = q
after p (err e) = p

unfoldable pub perform : ℕ → Operation → OwnerEventProcessor → OwnerEventProcessor
perform now (apply_authority e) p = after p (apply_owner_authority_event now e p)
perform now (transition_gate e) p = after p (transition_gate_from_event now e p)
perform now (set_scope e) p = after p (set_approved_scope_from_plan now e p)
perform now (revoke token) p = revoke_grant now token p
perform now (reserves id action) p = after p (reserve_grant now id action p)
perform now (consumes id action) p = after p (consume_grant now id action p)
perform now (releases id action) p = after p (release_grant_for_retry now id action p)
perform now (reconciles id action) p = after p (require_reconciliation now id action p)

unfoldable pub run : List (ℕ × Operation) → OwnerEventProcessor → OwnerEventProcessor
run [] p = p
run ((now, o) ∷ os) p = run os (perform now o p)

-- A grant is of the processor's task, and a reserved one names the action that holds it.
pub record IsSound (task : String) (g : GrantRecord) : Type 0 where
  pub same_task : g.task_id ≡ task
  pub holder : g.status ≡ reserved → g.reserved_for_action_id ≢ none
  pub past_issue : g.status ≢ issued

pub record IsValid (p : OwnerEventProcessor) : Type 0 where
  pub distinct : Distinct p.grants
  pub sound : AllValues (IsSound p.task_id) p.grants

new_processor-IsValid :
    (task : String) (gate : ExecutionGate) (e : Environment) (now : ℕ)
    → IsValid (new_processor task gate e now)
unfolding new_processor
new_processor-IsValid task gate e now = record { distinct = tt; sound = tt }

-- A write of a sound grant keeps the grants valid.
set-IsValid :
    (p q : OwnerEventProcessor) (id : String) (g : GrantRecord)
    → q.task_id ≡ p.task_id
    → q.grants ≡ set id g p.grants
    → IsSound p.task_id g
    → IsValid p
    → IsValid q
set-IsValid p q id g t e s v = record {
  distinct = rw e (Distinct-set id g p.grants v.distinct);
  sound = rw (t, e) (AllValues-set (IsSound p.task_id) id g p.grants s v.sound);
}

-- What each operation of the gateway does when it succeeds: nothing to the grants, or one write.
data IsWrite (p q : OwnerEventProcessor) : Type 0 where
  kept : q.task_id ≡ p.task_id → q.gate ≡ p.gate → q.grants ≡ p.grants → IsWrite p q
  wrote :
      (id : String) (g : GrantRecord)
      → q.task_id ≡ p.task_id
      → q.gate ≡ p.gate
      → q.grants ≡ set id g p.grants
      → IsSound p.task_id g
      → IsWrite p q

IsWrite-IsValid : (p q : OwnerEventProcessor) → IsWrite p q → IsValid p → IsValid q
IsWrite-IsValid p q (kept t _ e) v = record {
  distinct = rw e v.distinct;
  sound = rw (t, e) v.sound;
}
IsWrite-IsValid p q (wrote id g t _ e s) v = set-IsValid p q id g t e s v

module _ (now : ℕ) (id action : String) (p : OwnerEventProcessor) (v : IsValid p) where
  stored : (g : GrantRecord) → get id p.grants ≡ some g → IsSound p.task_id g
  stored g e = AllValues-get (IsSound p.task_id) id p.grants v.sound e

  IsSound-reserve :
      (g : GrantRecord)
      → IsSound p.task_id g
      → IsSound p.task_id (record g { status = reserved; reserved_for_action_id = some action })
  IsSound-reserve g s = record { same_task = s.same_task; holder = λ _ q. cc; past_issue = λ q. cc }

  IsSound-consume :
      (g : GrantRecord) → IsSound p.task_id g → IsSound p.task_id (record g { status = consumed })
  IsSound-consume g s = record { same_task = s.same_task; holder = λ q. cc; past_issue = λ q. cc }

  IsSound-release :
      (g : GrantRecord)
      → IsSound p.task_id g
      → IsSound p.task_id (record g { status = active; reserved_for_action_id = none })
  IsSound-release g s = record { same_task = s.same_task; holder = λ q. cc; past_issue = λ q. cc }

  IsSound-reconcile :
      (g : GrantRecord)
      → IsSound p.task_id g
      → IsSound p.task_id (record g { status = reconciliation_required })
  IsSound-reconcile g s = record { same_task = s.same_task; holder = λ q. cc; past_issue = λ q. cc }

  reserve-IsWrite : IsWrite p (after p (reserve_grant now id action p))
  unfolding reserve_grant
  reserve-IsWrite = elim (Option-cases (get id p.grants)) [
    | inl e ↦ rw e (kept refl refl refl)
    | inr (g, e) ↦ elim (Bool-cases (is_multi_use g)) [
      | inl m ↦ rw (e, m) (kept refl refl refl)
      | inr m ↦ elim (Bool-cases (g.status == active)) [
        | inl a ↦ rw (e, m, a) (wrote id _ refl refl refl (IsSound-reserve g (stored g e)))
        | inr a ↦ rw (e, m, a) (kept refl refl refl)
      ]
    ]
  ]

  consume-IsWrite : IsWrite p (after p (consume_grant now id action p))
  unfolding consume_grant
  consume-IsWrite = elim (Option-cases (get id p.grants)) [
    | inl e ↦ rw e (kept refl refl refl)
    | inr (g, e) ↦ elim (Bool-cases (is_multi_use g)) [
      | inl m ↦ rw (e, m) (kept refl refl refl)
      | inr m ↦
          elim (Bool-cases (g.status == reserved && g.reserved_for_action_id == some action)) [
            | inl a ↦ rw (e, m, a) (wrote id _ refl refl refl (IsSound-consume g (stored g e)))
            | inr a ↦ rw (e, m, a) (kept refl refl refl)
          ]
    ]
  ]

  release-IsWrite : IsWrite p (after p (release_grant_for_retry now id action p))
  unfolding release_grant_for_retry
  release-IsWrite = elim (Option-cases (get id p.grants)) [
    | inl e ↦ rw e (kept refl refl refl)
    | inr (g, e) ↦ elim (Bool-cases (is_multi_use g)) [
      | inl m ↦ rw (e, m) (kept refl refl refl)
      | inr m ↦ rw (e, m) (wrote id _ refl refl refl (IsSound-release g (stored g e)))
    ]
  ]

  reconcile-IsWrite : IsWrite p (after p (require_reconciliation now id action p))
  unfolding require_reconciliation
  reconcile-IsWrite = elim (Option-cases (get id p.grants)) [
    | inl e ↦ rw e (kept refl refl refl)
    | inr (g, e) ↦ elim (Bool-cases (is_multi_use g)) [
      | inl m ↦ rw (e, m) (kept refl refl refl)
      | inr m ↦ rw (e, m) (wrote id _ refl refl refl (IsSound-reconcile g (stored g e)))
    ]
  ]

module _ (now : ℕ) (p : OwnerEventProcessor) (v : IsValid p) where
  revoke-IsWrite : (token : OwnerAuthorityToken) → IsWrite p (revoke_grant now token p)
  unfolding revoke_grant
  revoke-IsWrite token =
      let test = λ (g : String × GrantRecord). is_revocable token g.1 in
      elim (Option-cases (find test p.grants)) [
        | inl e ↦ rw (e, revoke_grant) (kept refl refl refl)
        | inr ((i, g), e) ↦
            let m = (find-some test p.grants e).1 in
            let s = AllValues-Elem (IsSound p.task_id) i g p.grants v.sound m in
            rw (e, revoke_grant)
              (wrote i (record g { status = consumed }) refl refl refl
                (IsSound-consume now i i p v g s))
      ]

  apply-IsWrite :
      (event : Presented OwnerAuthorityEvent)
      → IsWrite p (after p (apply_owner_authority_event now event p))
  unfolding apply_owner_authority_event
  apply-IsWrite (plain event) = kept refl refl refl
  apply-IsWrite (sealed event) = elim (Bool-cases (event.task_id == p.task_id)) [
    | inl e ↦ rw e (
        wrote event.event_id _ refl refl refl (record {
          same_task = eq_sound event.task_id p.task_id e;
          holder = λ q. cc;
          past_issue = λ q. cc;
        }))
    | inr e ↦ rw e (kept refl refl refl)
  ]

  scope-IsWrite :
      (event : Presented ApprovedScopeEvent)
      → IsWrite p (after p (set_approved_scope_from_plan now event p))
  unfolding set_approved_scope_from_plan
  scope-IsWrite (plain event) = kept refl refl refl
  scope-IsWrite (sealed event) = elim (Bool-cases (event.task_id == p.task_id)) [
    | inl e ↦ rw e (kept refl refl refl)
    | inr e ↦ rw e (kept refl refl refl)
  ]

Outcome-cases :
    (o : Outcome)
    → ((q : OwnerEventProcessor) × (o ≡ ok q)) ⊎ ((p : OwnerEventProcessor) → after p o ≡ p)
Outcome-cases (ok q) = inl (q, refl)
Outcome-cases (err e) = inr (λ p. refl)

-- Each operation is a write that keeps the gate, or a transition.
abbrev IsStep : OwnerEventProcessor → OwnerEventProcessor → Type 0
IsStep p q = IsWrite p q ⊎ ((event : GateTransitionEvent) × IsTransition p q event)

plain_refused :
    (now : ℕ) (event : GateTransitionEvent) (p : OwnerEventProcessor)
    → after p (transition_gate_from_event now (plain event) p) ≡ p
unfolding transition_gate_from_event
plain_refused now event p = refl

transition-IsStep :
    (now : ℕ) (event : Presented GateTransitionEvent) (p : OwnerEventProcessor)
    → IsStep p (after p (transition_gate_from_event now event p))
transition-IsStep now (plain event) p = rw (plain_refused now event p) (inl (kept refl refl refl))
transition-IsStep now (sealed event) p =
    elim (Outcome-cases (transition_gate_from_event now (sealed event) p)) [
      | inl (q, e) ↦ rw e (inr (event, transition_gate_from_event-ok now event p q e))
      | inr e ↦ rw (e p) (inl (kept refl refl refl))
    ]

perform-IsStep :
    (now : ℕ) (o : Operation) (p : OwnerEventProcessor) → IsValid p → IsStep p (perform now o p)
unfolding perform
perform-IsStep now (apply_authority e) p v = inl (apply-IsWrite now p v e)
perform-IsStep now (transition_gate e) p v = transition-IsStep now e p
perform-IsStep now (set_scope e) p v = inl (scope-IsWrite now p v e)
perform-IsStep now (revoke token) p v = inl (revoke-IsWrite now p v token)
perform-IsStep now (reserves id action) p v = inl (reserve-IsWrite now id action p v)
perform-IsStep now (consumes id action) p v = inl (consume-IsWrite now id action p v)
perform-IsStep now (releases id action) p v = inl (release-IsWrite now id action p v)
perform-IsStep now (reconciles id action) p v = inl (reconcile-IsWrite now id action p v)

IsStep-IsValid : (p q : OwnerEventProcessor) → IsStep p q → IsValid p → IsValid q
IsStep-IsValid p q (inl w) v = IsWrite-IsValid p q w v
IsStep-IsValid p q (inr (event, t)) v = record {
  distinct = rw t.same_grants v.distinct;
  sound = rw (t.same_owner, t.same_grants) v.sound;
}

IsStep-rank : (p q : OwnerEventProcessor) → IsStep p q → rank p.gate ≤ rank q.gate
IsStep-rank p q (inl (kept t g e)) = rw g (omega arith)
IsStep-rank p q (inl (wrote i r t g e s)) = rw g (omega arith)
IsStep-rank p q (inr (event, t)) = omega (arith, t.forward)

-- The grants stay valid through any sequence of operations.
pub run-IsValid :
    (os : List (ℕ × Operation)) (p : OwnerEventProcessor) → IsValid p → IsValid (run os p)
unfolding run
run-IsValid [] p v = v
run-IsValid ((now, o) ∷ os) p v =
    run-IsValid os (perform now o p)
      (IsStep-IsValid p (perform now o p) (perform-IsStep now o p v) v)

-- No sequence of operations takes the gate back.
pub run-rank :
    (os : List (ℕ × Operation)) (p : OwnerEventProcessor)
    → IsValid p
    → rank p.gate ≤ rank (run os p).gate
unfolding run
run-rank [] p v = omega arith
run-rank ((now, o) ∷ os) p v =
    let s = perform-IsStep now o p v in
    omega (
      arith,
      IsStep-rank p (perform now o p) s,
      run-rank os (perform now o p) (IsStep-IsValid p (perform now o p) s v),
    )
