-- ===== src/Policy/Processor/Opening.antt =====
-- packages/policy/src/context: the owner's approval of an action with the move to its gate,
-- `issueAuthorityAndTransition`, given to the processor.
use constructie_orchestrator.Base.Dict.{get, set, get-set_self}
use constructie_orchestrator.Base.{
  ℕ, ◌≡◌, refl, String, List, [], ◌∷◌, Option, none, some, Bool, true, false, ◌&&◌, ◌||◌, ◌==◌, ok,
  ◌>>=◌, eq_self, String_eq, Bool-cases, inl, inr,
}
use constructie_orchestrator.Policy.Types.{
  ExecutionGate, OwnerAuthorityToken, active, OwnerAuthorityToken_eq, AuthorityGrantStatus_eq,
  ExecutionGate_eq, AuthorityGrantStatus-discrete,
}
use constructie_orchestrator.Policy.Events.{
  GateTransitionRule, TrustedOwnerAuthorityIssuer, issue_authority_event,
  issue_gate_transition_event, issue_authority_and_transition,
}
use constructie_orchestrator.Policy.Processor.{
  OwnerEventProcessor, GrantRecord, log, gate_transition, authority_granted, has_active_grant,
  apply_owner_authority_event, find_rule, transition_gate_from_event, check_rule, check_rule_token,
  check_task,
}

or_true : (a b : Bool) → b ≡ true → (a || b) ≡ true
or_true true b h = refl
or_true false b h = h

-- A grant that was just written as active is found active.
has_active_grant-set :
    (token : OwnerAuthorityToken) (id : String) (g : GrantRecord)
    (grants : List (String × GrantRecord))
    → (g.token == token && g.status == active) ≡ true
    → has_active_grant token (set id g grants) ≡ true
unfolding has_active_grant set
has_active_grant-set token id g [] h = rw h refl
has_active_grant-set token id g ((k, v) ∷ grants) h = elim (Bool-cases (k == id)) [
  | inl e ↦ rw (e, set, h) refl
  | inr e ↦
      rw (e, set)
        (or_true (v.token == token && v.status == active) _
          (has_active_grant-set token id g grants h))
]

module _ (issuer : TrustedOwnerAuthorityIssuer) (authority_id transition_id correlation_id : String)
    (now : ℕ) (token : OwnerAuthorityToken) (to_gate : ExecutionGate) (action : Option String)
    (p : OwnerEventProcessor) (r : GateTransitionRule) where
  abbrev granted : GrantRecord
  granted = record {
    token = token;
    task_id = issuer.task_id;
    status = active;
    reserved_for_action_id = none;
    bound_to_gate = some to_gate;
    bound_to_action = action;
    issued_at = now;
  }

  abbrev opened : OwnerEventProcessor
  opened =
      log now (gate_transition p.gate to_gate)
        (record (log now (authority_granted token authority_id)
          (record p { grants = set authority_id granted p.grants })) { gate = to_gate })

  -- When the table has a rule from the current gate that needs the token, the approval and the
  -- transition that the issuer of the task makes together are both accepted: the gate moves, and the
  -- grant is there, active and bound to the new gate.
  pub issue_authority_and_transition-opens :
      issuer.task_id ≡ p.task_id
      → find_rule p.gate to_gate ≡ some r
      → r.required_token ≡ some token
      → let (authority, transition) =
          issue_authority_and_transition issuer authority_id transition_id correlation_id now token
            p.gate to_gate action in
        (q : OwnerEventProcessor) × ((apply_owner_authority_event now authority p
            >>= transition_gate_from_event now transition)
          ≡ ok q)
        × (q.gate ≡ to_gate)
        × (get authority_id q.grants ≡ some granted)
  unfolding apply_owner_authority_event transition_gate_from_event check_rule check_rule_token
      issue_authority_and_transition issue_authority_event issue_gate_transition_event
      AuthorityGrantStatus-discrete
  issue_authority_and_transition-opens same rule needs =
      let held : has_active_grant token (set authority_id granted p.grants) ≡ true =
        has_active_grant-set token authority_id granted p.grants (rw (eq_self token) refl) in
      let own : (issuer.task_id == p.task_id) ≡ true = rw same (eq_self p.task_id) in
      (
        opened,
        rw (own, rule, eq_self p.gate, needs, held) (rw (own, check_task) refl),
        refl,
        get-set_self authority_id granted p.grants,
      )
