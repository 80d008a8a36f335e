-- ===== src/Policy/Events.antt =====
-- packages/policy/src/context: owner events and their trusted issuer (owner-authority-event.ts and
-- trusted-owner-authority-issuer.ts). A brand symbol is private to the issuer's module: what a
-- caller presents is a sealed event, which only the issuer makes, or a plain object. Fresh ids and
-- the time are arguments.
use constructie_orchestrator.Base.{ℕ, String, List, [], ◌∷◌, Option, none, some}
use constructie_orchestrator.Policy.Types.{
  ExecutionGate, audit, plan, owner_plan_review, implementation, test, owner_precommit, commit,
  push, deploy, production_validation, production_validation_read_only, owner_final_closure,
  OwnerAuthorityToken, owner_implementation_approved, owner_commit_approved, owner_push_approved,
  owner_deploy_approved,
}

pub record GateTransitionRule : Type 0 where
  pub from_gate : ExecutionGate
  pub to_gate : ExecutionGate
  pub required_token : Option OwnerAuthorityToken

free : ExecutionGate → ExecutionGate → GateTransitionRule
free from_gate to_gate = record { from_gate = from_gate; to_gate = to_gate; required_token = none }

needs : ExecutionGate → ExecutionGate → OwnerAuthorityToken → GateTransitionRule
needs from_gate to_gate token = record {
  from_gate = from_gate;
  to_gate = to_gate;
  required_token = some token;
}

unfoldable pub gate_transition_policy : List GateTransitionRule
unfolding free needs
gate_transition_policy =
    free audit plan
    ∷ free plan owner_plan_review
    ∷ needs owner_plan_review implementation owner_implementation_approved
    ∷ free implementation test
    ∷ free test owner_precommit
    ∷ needs owner_precommit commit owner_commit_approved
    ∷ needs commit push owner_push_approved
    ∷ needs push deploy owner_deploy_approved
    ∷ free deploy production_validation
    ∷ free production_validation owner_final_closure
    ∷ free push production_validation_read_only
    ∷ free production_validation production_validation_read_only
    ∷ free production_validation_read_only owner_final_closure
    ∷ []

pub record OwnerAuthorityEvent : Type 0 where
  pub event_id : String
  pub owner_ref : String
  pub task_id : String
  pub authority_type : OwnerAuthorityToken
  pub bound_to_gate : Option ExecutionGate
  pub bound_to_action : Option String
  pub issued_at : ℕ
  pub correlation_id : String

pub record GateTransitionEvent : Type 0 where
  pub event_id : String
  pub owner_ref : String
  pub task_id : String
  pub from_gate : ExecutionGate
  pub to_gate : ExecutionGate
  pub issued_at : ℕ
  pub correlation_id : String

pub record ApprovedScopeEvent : Type 0 where
  pub event_id : String
  pub owner_ref : String
  pub task_id : String
  pub approved_files : List String
  pub issued_at : ℕ
  pub correlation_id : String

-- An event as a caller presents it: with the brand, or without.
pub data Presented (E : Type 0) : Type 0 where
  sealed : E → Presented E
  plain : E → Presented E

pub record TrustedOwnerAuthorityIssuer : Type 0 where
  pub owner_ref : String
  pub task_id : String

unfoldable pub issue_authority_event :
    TrustedOwnerAuthorityIssuer
    → (event_id correlation_id : String) (now : ℕ) → OwnerAuthorityToken
    → Option ExecutionGate
    → Option String
    → Presented OwnerAuthorityEvent
issue_authority_event issuer event_id correlation_id now token gate action = sealed (record {
  event_id = event_id;
  owner_ref = issuer.owner_ref;
  task_id = issuer.task_id;
  authority_type = token;
  bound_to_gate = gate;
  bound_to_action = action;
  issued_at = now;
  correlation_id = correlation_id;
})

unfoldable pub issue_gate_transition_event :
    TrustedOwnerAuthorityIssuer
    → (event_id correlation_id : String) (now : ℕ) → (from_gate to_gate : ExecutionGate)
    → Presented GateTransitionEvent
issue_gate_transition_event issuer event_id correlation_id now from_gate to_gate = sealed (record {
  event_id = event_id;
  owner_ref = issuer.owner_ref;
  task_id = issuer.task_id;
  from_gate = from_gate;
  to_gate = to_gate;
  issued_at = now;
  correlation_id = correlation_id;
})

unfoldable pub issue_approved_scope_event :
    TrustedOwnerAuthorityIssuer
    → (event_id correlation_id : String) (now : ℕ) → List String
    → Presented ApprovedScopeEvent
issue_approved_scope_event issuer event_id correlation_id now files = sealed (record {
  event_id = event_id;
  owner_ref = issuer.owner_ref;
  task_id = issuer.task_id;
  approved_files = files;
  issued_at = now;
  correlation_id = correlation_id;
})

-- The grant is bound to the gate that the transition opens.
unfoldable pub issue_authority_and_transition :
    TrustedOwnerAuthorityIssuer
    → (authority_id transition_id correlation_id : String) (now : ℕ) → OwnerAuthorityToken
    → (from_gate to_gate : ExecutionGate) → Option String
    → Presented OwnerAuthorityEvent × Presented GateTransitionEvent
unfolding issue_authority_event issue_gate_transition_event
issue_authority_and_transition issuer authority_id transition_id correlation_id now token from_gate
      to_gate action =
    (
      issue_authority_event issuer authority_id correlation_id now token (some to_gate) action,
      issue_gate_transition_event issuer transition_id correlation_id now from_gate to_gate,
    )
