-- ===== src/Policy/Types.antt =====
-- packages/policy/src/types.ts: the vocabulary of the policy layer. An enumeration's equality test
-- is an instance; `name` is the text of a mutation class, which grants are bound to. Optional
-- fields are `Option`, dates are milliseconds. The `reason` text of a decision is left out; its
-- `policyRule` text is a constructor that carries what the text is put together from.
use constructie_orchestrator.Base.{ℕ, String, List, Option, Bool, Eq, enum_eq}

pub data MutationClass : Type 0 where
  read_only local_mutation source_mutation git_stage git_commit git_push : MutationClass
  git_destructive deployment production_read production_mutation : MutationClass
  database_read database_mutation schema_mutation schema_source_mutation : MutationClass
  secret_read secret_output credential_use auth_session_creation : MutationClass
  destructive unknown : MutationClass

unfoldable pub MutationClass-discrete : Discrete MutationClass
MutationClass-discrete = hlevel

instance abbrev pub MutationClass_eq : Eq MutationClass
MutationClass_eq = enum_eq MutationClass-discrete

unfoldable pub name : MutationClass → String
name read_only = "READ_ONLY"
name local_mutation = "LOCAL_MUTATION"
name source_mutation = "SOURCE_MUTATION"
name git_stage = "GIT_STAGE"
name git_commit = "GIT_COMMIT"
name git_push = "GIT_PUSH"
name git_destructive = "GIT_DESTRUCTIVE"
name deployment = "DEPLOYMENT"
name production_read = "PRODUCTION_READ"
name production_mutation = "PRODUCTION_MUTATION"
name database_read = "DATABASE_READ"
name database_mutation = "DATABASE_MUTATION"
name schema_mutation = "SCHEMA_MUTATION"
name schema_source_mutation = "SCHEMA_SOURCE_MUTATION"
name secret_read = "SECRET_READ"
name secret_output = "SECRET_OUTPUT"
name credential_use = "CREDENTIAL_USE"
name auth_session_creation = "AUTH_SESSION_CREATION"
name destructive = "DESTRUCTIVE"
name unknown = "UNKNOWN"

pub data ExecutionGate : Type 0 where
  audit plan owner_plan_review implementation test owner_precommit : ExecutionGate
  commit push deploy production_validation : ExecutionGate
  production_validation_read_only owner_final_closure : ExecutionGate

unfoldable pub ExecutionGate-discrete : Discrete ExecutionGate
ExecutionGate-discrete = hlevel

instance abbrev pub ExecutionGate_eq : Eq ExecutionGate
ExecutionGate_eq = enum_eq ExecutionGate-discrete

pub data OwnerAuthorityToken : Type 0 where
  owner_plan_approved owner_implementation_approved owner_commit_approved : OwnerAuthorityToken
  owner_push_approved owner_deploy_approved : OwnerAuthorityToken
  owner_production_mutation_approved owner_schema_change_approved : OwnerAuthorityToken

unfoldable pub OwnerAuthorityToken-discrete : Discrete OwnerAuthorityToken
OwnerAuthorityToken-discrete = hlevel

instance abbrev pub OwnerAuthorityToken_eq : Eq OwnerAuthorityToken
OwnerAuthorityToken_eq = enum_eq OwnerAuthorityToken-discrete

pub data AuthorityGrantStatus : Type 0 where
  issued active reserved consumed reconciliation_required : AuthorityGrantStatus

unfoldable pub AuthorityGrantStatus-discrete : Discrete AuthorityGrantStatus
AuthorityGrantStatus-discrete = hlevel

instance abbrev pub AuthorityGrantStatus_eq : Eq AuthorityGrantStatus
AuthorityGrantStatus_eq = enum_eq AuthorityGrantStatus-discrete

pub data Environment : Type 0 where
  local testing staging production : Environment

unfoldable pub Environment-discrete : Discrete Environment
Environment-discrete = hlevel

instance abbrev pub Environment_eq : Eq Environment
Environment_eq = enum_eq Environment-discrete

pub record AuthorityGrantView : Type 0 where
  pub grant_id : String
  pub token : OwnerAuthorityToken
  pub task_id : String
  pub status : AuthorityGrantStatus
  pub reserved_for_action_id : Option String
  pub bound_to_gate : Option ExecutionGate
  pub bound_to_action : Option String
  pub issued_at : ℕ

-- `ReadOnlyExecutionContext`, read at one moment.
pub record ReadOnlyExecutionContext : Type 0 where
  pub gate : ExecutionGate
  pub environment : Environment
  pub approved_files : List String
  pub active_authorities : List AuthorityGrantView
  pub has_authority : OwnerAuthorityToken → Bool
  pub is_file_approved : String → Bool

-- A value under `parameters`: a text, an array of texts, or anything else, by what `String` makes
-- of it.
pub data ParameterValue : Type 0 where
  text : String → ParameterValue
  texts : List String → ParameterValue
  other : String → ParameterValue

pub record ActionRequest : Type 0 where
  pub action_id : String
  pub task_id : String
  pub agent_id : String
  pub provider : String
  pub tool : String
  pub operation : String
  pub command : Option String
  pub args : Option (List String)
  pub resource : String
  pub http_method : Option String
  pub git_operation : Option String
  pub environment : Environment
  pub parameters : List (String × ParameterValue)
  pub authority_context_ref : String
  pub correlation_id : String
  pub target_file_paths : List String
  pub generated_content : Option String

pub data PolicyDecision : Type 0 where
  allow deny require_approval owner_decision_required : PolicyDecision

unfoldable pub PolicyDecision-discrete : Discrete PolicyDecision
PolicyDecision-discrete = hlevel

instance abbrev pub PolicyDecision_eq : Eq PolicyDecision
PolicyDecision_eq = enum_eq PolicyDecision-discrete

-- The texts of `policyRule`.
pub data PolicyRule : Type 0 where
  guard_rule : String → PolicyRule
  ambiguous_classification_fail_closed : PolicyRule
  not_allowed_in_gate : MutationClass → ExecutionGate → PolicyRule
  not_in_allowed_set_for_gate : MutationClass → ExecutionGate → PolicyRule
  token_required : OwnerAuthorityToken → PolicyRule
  global_deny_blanket_git_add : PolicyRule
  file_scope_target_unresolved : PolicyRule
  file_not_in_approved_scope : PolicyRule
  gate_policy_allow : PolicyRule

pub record ActionPolicyDecision : Type 0 where
  pub action_id : String
  pub decision : PolicyDecision
  pub policy_rule : PolicyRule
  pub current_gate : ExecutionGate
  pub required_authority : Option OwnerAuthorityToken
  pub granted_by_authority_id : Option String
  pub triggering_classes : List MutationClass
  pub all_classes : List MutationClass

pub record GuardViolation : Type 0 where
  pub guard_name : String
  pub rule_code : String
  pub detail : String

pub record GateRule : Type 0 where
  pub allowed_classes : List MutationClass
  pub denied_classes : List MutationClass
  pub required_tokens : MutationClass → Option OwnerAuthorityToken
  pub enforce_file_scope : Bool
