-- ===== src/Policy/Engine.antt =====
-- packages/policy/src/engine/action-classifying-policy-engine.ts: `evaluate`. An early `return` of a
-- decision is the error case of a chain of stages; `settle` is the decision of the whole method.
-- The guards and the classifier are the section's parameter.
pub mod Stages
pub mod Soundness
use constructie_orchestrator.Base.{
  ◌≡◌, refl, String, Bool, true, false, not, ◌&&◌, ◌||◌, List, [], ◌∷◌, Option, none, some,
  includes, find, if◌then◌else◌, is_empty, includes_text, ◌==◌, Result, ok, err, ◌>>=◌, ◌>>◌,
  String_eq, Option_eq,
}
use constructie_orchestrator.Policy.Types.{
  MutationClass, source_mutation, git_stage, git_commit, git_push, deployment, unknown, name,
  MutationClass_eq, ExecutionGate, ExecutionGate_eq, OwnerAuthorityToken, OwnerAuthorityToken_eq,
  owner_commit_approved, owner_push_approved, owner_deploy_approved,
  owner_production_mutation_approved, owner_schema_change_approved, AuthorityGrantView, active,
  AuthorityGrantStatus_eq, ReadOnlyExecutionContext, ActionRequest, allow, deny, require_approval,
  PolicyRule, guard_rule, ambiguous_classification_fail_closed, not_allowed_in_gate,
  not_in_allowed_set_for_gate, token_required, global_deny_blanket_git_add,
  file_scope_target_unresolved, file_not_in_approved_scope, gate_policy_allow, ActionPolicyDecision,
  GuardViolation, GateRule,
}
use constructie_orchestrator.Policy.Matrix.{gate_policy}

-- The four guards and the classifier, which the engine calls on the request alone.
pub record Inspection : Type 0 where
  pub secret_file_guard : ActionRequest → Option GuardViolation
  pub secret_output_guard : ActionRequest → Option GuardViolation
  pub secret_literal_guard : ActionRequest → Option GuardViolation
  pub auth_credential_script_guard : ActionRequest → Option GuardViolation
  pub classify : ActionRequest → List MutationClass

abbrev pub Stage : Type 0 → Type 0
Stage A = Result ActionPolicyDecision A

-- The private method `deny`; its calls never give a required authority.
unfoldable pub deny_with :
    ActionRequest → List MutationClass → ExecutionGate → PolicyRule → ActionPolicyDecision
deny_with request classes gate rule = record {
  action_id = request.action_id;
  decision = deny;
  policy_rule = rule;
  current_gate = gate;
  required_authority = none;
  granted_by_authority_id = none;
  triggering_classes = if is_empty classes then unknown ∷ [] else classes;
  all_classes = classes;
}

-- The first violation, in the order of the guards.
unfoldable pub first_violation : List (Option GuardViolation) → Option GuardViolation
first_violation [] = none
first_violation (some v ∷ rest) = some v
first_violation (none ∷ rest) = first_violation rest

unfoldable pub check_guards : Inspection → ExecutionGate → ActionRequest → Stage (Unit {0})
unfolding deny_with
check_guards i gate request =
    elim (first_violation (
      i.secret_file_guard request
      ∷ i.secret_output_guard request
      ∷ i.secret_literal_guard request
      ∷ i.auth_credential_script_guard request
      ∷ [])) [ some v ↦ err (deny_with request [] gate (guard_rule v.rule_code)) | none ↦ ok tt ]

unfoldable pub check_unknown : ExecutionGate → ActionRequest → List MutationClass → Stage (Unit {0})
check_unknown gate request classes =
    if includes unknown classes
    then err (record {
      action_id = request.action_id;
      decision = require_approval;
      policy_rule = ambiguous_classification_fail_closed;
      current_gate = gate;
      required_authority = none;
      granted_by_authority_id = none;
      triggering_classes = unknown ∷ [];
      all_classes = classes;
    })
    else ok tt

unfoldable pub check_denied :
    GateRule → ExecutionGate → ActionRequest → List MutationClass → Stage (Unit {0})
unfolding deny_with
check_denied rule gate request classes = elim (find (λ c. includes c rule.denied_classes) classes) [
  | some c ↦ err (deny_with request classes gate (not_allowed_in_gate c gate))
  | none ↦ ok tt
]

unfoldable pub check_allowed :
    GateRule → ExecutionGate → ActionRequest → List MutationClass → Stage (Unit {0})
unfolding deny_with
check_allowed rule gate request classes =
    elim (find (λ c. not (includes c rule.allowed_classes)) classes) [
      | some c ↦ err (deny_with request classes gate (not_in_allowed_set_for_gate c gate))
      | none ↦ ok tt
    ]

unfoldable pub is_sensitive : OwnerAuthorityToken → Bool
is_sensitive t = includes t (
    owner_commit_approved ∷ owner_push_approved ∷ owner_deploy_approved
    ∷ owner_production_mutation_approved ∷ owner_schema_change_approved ∷ [])

unfoldable pub target_action : OwnerAuthorityToken → MutationClass → MutationClass
target_action token cls =
    if token == owner_commit_approved && cls == git_stage then git_commit else cls

-- `!a.boundToGate || a.boundToGate === gate`
unfoldable pub open_gate : Option ExecutionGate → ExecutionGate → Bool
open_gate none gate = true
open_gate (some g) gate = g == gate

-- The same of a text, where the empty text is no bond either.
unfoldable pub open_action : Option String → String → Bool
open_action none target = true
open_action (some a) target = a == "" || a == target

-- The test that `activeAuthorities.find` makes of a grant.
unfoldable pub matches_grant :
    ExecutionGate → String → OwnerAuthorityToken → MutationClass → AuthorityGrantView → Bool
matches_grant gate task token cls a =
    a.token == token
    && (a.status == active
        && (a.task_id == task
            && (let target = name (target_action token cls) in
                if is_sensitive token
                then a.bound_to_gate == some gate && a.bound_to_action == some target
                else open_gate a.bound_to_gate gate && open_action a.bound_to_action target)))

unfoldable pub consumes_grant : MutationClass → OwnerAuthorityToken → Bool
consumes_grant cls token =
    cls == git_commit && token == owner_commit_approved
    || (cls == git_push && token == owner_push_approved
        || cls == deployment && token == owner_deploy_approved)

unfoldable pub token_missing :
    ExecutionGate
    → ActionRequest
    → List MutationClass
    → MutationClass
    → OwnerAuthorityToken
    → ActionPolicyDecision
token_missing gate request classes cls token = record {
  action_id = request.action_id;
  decision = deny;
  policy_rule = token_required token;
  current_gate = gate;
  required_authority = some token;
  granted_by_authority_id = none;
  triggering_classes = cls ∷ [];
  all_classes = classes;
}

-- What one turn of the token loop does with `grantedByAuthorityId`.
unfoldable pub token_turn :
    ReadOnlyExecutionContext
    → ActionRequest
    → List MutationClass
    → MutationClass
    → Option OwnerAuthorityToken
    → Option String
    → Stage (Option String)
unfolding token_missing
token_turn context request classes cls none granted = ok granted
token_turn context request classes cls (some token) granted =
    elim (find (matches_grant context.gate request.task_id token cls) context.active_authorities) [
      | none ↦ err (token_missing context.gate request classes cls token)
      | some a ↦ ok (if consumes_grant cls token then some a.grant_id else granted)
    ]

-- The token loop over the classes that are left.
unfoldable pub check_tokens :
    ReadOnlyExecutionContext
    → GateRule
    → ActionRequest
    → List MutationClass
    → List MutationClass
    → Option String
    → Stage (Option String)
unfolding token_turn
check_tokens context rule request classes [] granted = ok granted
check_tokens context rule request classes (cls ∷ rest) granted =
    token_turn context request classes cls (rule.required_tokens cls) granted
    >>= check_tokens context rule request classes rest

unfoldable pub is_blanket_add : ActionRequest → Bool
is_blanket_add request =
    (includes "." args || includes "-A" args || includes "--all" args)
    || includes_text command "git add ."
    || includes_text command "git add -A"
    || includes_text command "git add --all"
  where
    args : List String
    args = elim request.args [ none ↦ [] | some xs ↦ xs ]

    command : String
    command = elim request.command [ none ↦ "" | some c ↦ c ]

unfoldable pub check_blanket_add :
    ExecutionGate → ActionRequest → List MutationClass → Stage (Unit {0})
unfolding deny_with
check_blanket_add gate request classes =
    if includes git_stage classes && is_blanket_add request
    then err (deny_with request classes gate global_deny_blanket_git_add)
    else ok tt

-- The branch for a request with no target path, and the loop over the paths.
unfoldable pub check_paths :
    ReadOnlyExecutionContext → ActionRequest → List MutationClass → List String → Stage (Unit {0})
unfolding deny_with
check_paths context request classes [] =
    if includes source_mutation classes || includes git_stage classes
    then err (deny_with request classes context.gate file_scope_target_unresolved)
    else ok tt
check_paths context request classes (p ∷ ps) =
    elim (find (λ path. not (context.is_file_approved path)) (p ∷ ps)) [
      | some path ↦ err (deny_with request classes context.gate file_not_in_approved_scope)
      | none ↦ ok tt
    ]

unfoldable pub check_file_scope :
    ReadOnlyExecutionContext → GateRule → ActionRequest → List MutationClass → Stage (Unit {0})
unfolding check_paths
check_file_scope context rule request classes =
    if rule.enforce_file_scope
    then check_paths context request classes request.target_file_paths
    else ok tt

unfoldable pub allowing :
    ExecutionGate → ActionRequest → List MutationClass → Option String → ActionPolicyDecision
allowing gate request classes granted = record {
  action_id = request.action_id;
  decision = allow;
  policy_rule = gate_policy_allow;
  current_gate = gate;
  required_authority = none;
  granted_by_authority_id = granted;
  triggering_classes = [];
  all_classes = classes;
}

unfoldable pub stages :
    Inspection → ReadOnlyExecutionContext → ActionRequest → Stage ActionPolicyDecision
stages i context request = do
  check_guards i context.gate request
  let classes = i.classify request
  check_unknown context.gate request classes
  let rule = gate_policy context.gate
  check_denied rule context.gate request classes
  check_allowed rule context.gate request classes
  granted ← check_tokens context rule request classes classes none
  check_blanket_add context.gate request classes
  check_file_scope context rule request classes
  ok (allowing context.gate request classes granted)

unfoldable pub settle : Stage ActionPolicyDecision → ActionPolicyDecision
settle (ok d) = d
settle (err d) = d

unfoldable pub evaluate :
    Inspection → ReadOnlyExecutionContext → ActionRequest → ActionPolicyDecision
unfolding settle stages
evaluate i context request = settle (stages i context request)
