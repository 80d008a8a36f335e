-- ===== src/Policy/Processor/Gates.antt =====
-- The gates: a transition follows the table, under an active grant where the table asks for one,
-- and no sequence of operations moves the gate backwards.
use mathlib.Core.Path.{subst₂}
use constructie_orchestrator.Base.{
  ℕ, ◌≡◌, refl, ◌<◌, Option, none, some, true, ◌&&◌, ◌==◌, ok, ok_inj, check_ok, >>=-eq-ok, ap, ◌∙◌,
  check, find-some, Elem, arith, String_eq, eq_sound, Bool-cases, and_true, inl, inr,
}
use constructie_orchestrator.Policy.Types.{
  ExecutionGate, audit, plan, owner_plan_review, implementation, test, owner_precommit, commit,
  push, deploy, production_validation, production_validation_read_only, owner_final_closure,
  ExecutionGate_eq, OwnerAuthorityToken,
}
use constructie_orchestrator.Policy.Events.{
  GateTransitionRule, gate_transition_policy, GateTransitionEvent, sealed,
}
use constructie_orchestrator.Policy.Processor.{
  OwnerEventProcessor, has_active_grant, find_rule, check_rule, check_rule_token,
  transition_gate_from_event, task_mismatch,
}

-- The place of a gate on the way from audit to closure.
abbrev pub rank : ExecutionGate → ℕ
rank audit = 0
rank plan = 1
rank owner_plan_review = 2
rank implementation = 3
rank test = 4
rank owner_precommit = 5
rank commit = 6
rank push = 7
rank deploy = 8
rank production_validation = 9
rank production_validation_read_only = 10
rank owner_final_closure = 11

-- The token that opens a gate.
abbrev pub opening_token : ExecutionGate → Option OwnerAuthorityToken
opening_token implementation = some OwnerAuthorityToken.owner_implementation_approved
opening_token commit = some OwnerAuthorityToken.owner_commit_approved
opening_token push = some OwnerAuthorityToken.owner_push_approved
opening_token deploy = some OwnerAuthorityToken.owner_deploy_approved
opening_token _ = none

Forward : GateTransitionRule → Type 0
Forward r = (rank r.from_gate < rank r.to_gate) × (r.required_token ≡ opening_token r.to_gate)

policy-Forward : (r : GateTransitionRule) → Elem r gate_transition_policy → Forward r
unfolding gate_transition_policy Forward
policy-Forward r m = ground arith

-- What a successful transition rests on and does: the event is sealed and of this task, it starts
-- at the current gate and goes strictly forward by a rule of the table, the token that opens the
-- new gate, if there is one, is held active, and no grant or approved file changes.
pub record IsTransition (p q : OwnerEventProcessor) (event : GateTransitionEvent) : Type 0 where
  pub same_task : event.task_id ≡ p.task_id
  pub from_current : event.from_gate ≡ p.gate
  pub to_gate : q.gate ≡ event.to_gate
  pub forward : rank p.gate < rank q.gate
  pub token_active :
      (token : OwnerAuthorityToken)
      → opening_token q.gate ≡ some token
      → has_active_grant token p.grants ≡ true
  pub same_grants : q.grants ≡ p.grants
  pub same_files : q.approved_file_scope ≡ p.approved_file_scope
  pub same_owner : q.task_id ≡ p.task_id

check_rule_ok :
    (p : OwnerEventProcessor) (event : GateTransitionEvent) (rule : Option GateTransitionRule)
    → check_rule p event rule ≡ ok tt
    → (r : GateTransitionRule) × (rule ≡ some r)
      × (event.from_gate ≡ p.gate)
      × ((token : OwnerAuthorityToken)
          → r.required_token ≡ some token
          → has_active_grant token p.grants ≡ true)
unfolding check_rule
check_rule_ok p event none h = cc
check_rule_ok p event (some r) h = elim (Bool-cases (event.from_gate == p.gate)) [
  | inl e ↦ (r, refl, eq_sound event.from_gate p.gate e, token_ok r.required_token (rw e at h))
  | inr e ↦ cc (rw e at h)
]
  where
    token_ok :
        (t : Option OwnerAuthorityToken)
        → check_rule_token p event t ≡ ok tt
        → (token : OwnerAuthorityToken) → t ≡ some token
        → has_active_grant token p.grants ≡ true
    token_ok none k token e = cc
    token_ok (some t) k token e = ground arith

find_rule-some :
    (from_gate to_gate : ExecutionGate) (r : GateTransitionRule)
    → find_rule from_gate to_gate ≡ some r
    → Forward r × (r.from_gate ≡ from_gate) × (r.to_gate ≡ to_gate)
unfolding find_rule
find_rule-some from_gate to_gate r h =
    let test = λ (x : GateTransitionRule). x.from_gate == from_gate && x.to_gate == to_gate in
    let (p, m) = find-some test gate_transition_policy h in
    let (a, b) = and_true (r.from_gate == from_gate) (r.to_gate == to_gate) p in
    (policy-Forward r m, eq_sound r.from_gate from_gate a, eq_sound r.to_gate to_gate b)

-- A transition that succeeds has all that `IsTransition` says: it is of the task, leaves the current
-- gate for a later one by a rule of the table, with the token that opens the new gate active, and
-- changes no grant and no file.
pub transition_gate_from_event-ok :
    (now : ℕ) (event : GateTransitionEvent) (p q : OwnerEventProcessor)
    → transition_gate_from_event now (sealed event) p ≡ ok q
    → IsTransition p q event
unfolding transition_gate_from_event Forward
transition_gate_from_event-ok now event p q h =
    let (_, task, h₁) =
      >>=-eq-ok (check (event.task_id == p.task_id) (task_mismatch p.task_id event.task_id)) _ h in
    let (_, ruled, h₂) =
      >>=-eq-ok (check_rule p event (find_rule event.from_gate event.to_gate)) _ h₁ in
    let (r, found, current, held) =
      check_rule_ok p event (find_rule event.from_gate event.to_gate) ruled in
    let (f, from_same, to_same) = find_rule-some event.from_gate event.to_gate r found in
    let done = ok_inj h₂ in
    record {
      same_task =
          eq_sound event.task_id p.task_id
            (check_ok (event.task_id == p.task_id) (task_mismatch p.task_id event.task_id) task);
      from_current = current;
      to_gate = ground arith;
      forward = rises r f (from_same ∙ current) (to_same ∙ ap (λ x. x.gate) done);
      token_active =
          λ token e. held token (f.1 ∙ ap opening_token (to_same ∙ ap (λ x. x.gate) done) ∙ e);
      same_grants = ground arith;
      same_files = ground arith;
      same_owner = ground arith;
    }
  where
    rises :
        (r : GateTransitionRule)
        → Forward r
        → r.from_gate ≡ p.gate
        → r.to_gate ≡ q.gate
        → rank p.gate < rank q.gate
    rises r f a b = subst₂ (λ x y. rank x < rank y) a b f.0
