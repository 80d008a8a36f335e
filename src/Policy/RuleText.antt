-- ===== src/Policy/RuleText.antt =====
-- The texts that the policy engine puts in `policyRule`.
use Prim.Native.String.{◌++◌}
use constructie_orchestrator.Base.{String}
use constructie_orchestrator.Policy.Types.{
  name, ExecutionGate, audit, plan, owner_plan_review, implementation, test, owner_precommit,
  commit, push, deploy, production_validation, production_validation_read_only, owner_final_closure,
  OwnerAuthorityToken, owner_plan_approved, owner_implementation_approved, owner_commit_approved,
  owner_push_approved, owner_deploy_approved, owner_production_mutation_approved,
  owner_schema_change_approved, PolicyRule, guard_rule, ambiguous_classification_fail_closed,
  not_allowed_in_gate, not_in_allowed_set_for_gate, token_required, global_deny_blanket_git_add,
  file_scope_target_unresolved, file_not_in_approved_scope, gate_policy_allow,
}

unfoldable pub gate_name : ExecutionGate → String
gate_name audit = "AUDIT"
gate_name plan = "PLAN"
gate_name owner_plan_review = "OWNER_PLAN_REVIEW"
gate_name implementation = "IMPLEMENTATION"
gate_name test = "TEST"
gate_name owner_precommit = "OWNER_PRECOMMIT"
gate_name commit = "COMMIT"
gate_name push = "PUSH"
gate_name deploy = "DEPLOY"
gate_name production_validation = "PRODUCTION_VALIDATION"
gate_name production_validation_read_only = "PRODUCTION_VALIDATION_READ_ONLY"
gate_name owner_final_closure = "OWNER_FINAL_CLOSURE"

unfoldable pub token_name : OwnerAuthorityToken → String
token_name owner_plan_approved = "OWNER_PLAN_APPROVED"
token_name owner_implementation_approved = "OWNER_IMPLEMENTATION_APPROVED"
token_name owner_commit_approved = "OWNER_COMMIT_APPROVED"
token_name owner_push_approved = "OWNER_PUSH_APPROVED"
token_name owner_deploy_approved = "OWNER_DEPLOY_APPROVED"
token_name owner_production_mutation_approved = "OWNER_PRODUCTION_MUTATION_APPROVED"
token_name owner_schema_change_approved = "OWNER_SCHEMA_CHANGE_APPROVED"

unfoldable pub rule_text : PolicyRule → String
unfolding gate_name token_name name
rule_text (guard_rule code) = code
rule_text ambiguous_classification_fail_closed = "AMBIGUOUS_CLASSIFICATION_FAIL_CLOSED"
rule_text (not_allowed_in_gate c g) = name c ++ "_NOT_ALLOWED_IN_GATE_" ++ gate_name g
rule_text (not_in_allowed_set_for_gate c g) =
    name c ++ "_NOT_IN_ALLOWED_SET_FOR_GATE_" ++ gate_name g
rule_text (token_required t) = token_name t ++ "_REQUIRED"
rule_text global_deny_blanket_git_add = "GLOBAL_DENY_BLANKET_GIT_ADD"
rule_text file_scope_target_unresolved = "FILE_SCOPE_TARGET_UNRESOLVED"
rule_text file_not_in_approved_scope = "FILE_NOT_IN_APPROVED_SCOPE"
rule_text gate_policy_allow = "GATE_POLICY_ALLOW"
