-- ===== src/Policy/Examples.antt =====
-- A task at its COMMIT gate, with its commit grant, and requests of it.
use constructie_orchestrator.Base.{
  ◌≡◌, refl, String, List, [], ◌∷◌, none, some, includes, ◌==◌, Option_eq, String_eq, if◌then◌else◌,
  false,
}
use constructie_orchestrator.Policy.Types.{
  ActionRequest, ReadOnlyExecutionContext, commit, allow, consumed, active, owner_commit_approved,
  git_commit, git_destructive, read_only, GuardViolation, Environment, MutationClass-discrete,
  ExecutionGate-discrete, OwnerAuthorityToken-discrete, AuthorityGrantStatus-discrete,
  PolicyDecision-discrete, PolicyDecision_eq, name,
}
use constructie_orchestrator.Policy.Matrix.{gate_policy}
use constructie_orchestrator.Policy.Engine.{
  Inspection, evaluate, stages, settle, check_guards, first_violation, check_unknown, check_denied,
  check_allowed, check_tokens, token_turn, matches_grant, consumes_grant, is_sensitive,
  target_action, open_gate, open_action, check_blanket_add, is_blanket_add, check_file_scope,
  check_paths, allowing, deny_with, token_missing,
}
use constructie_orchestrator.Policy.Processor.{OwnerEventProcessor, GrantRecord, read_only_view}

abbrev pub secret_file : GuardViolation
secret_file = record { guard_name = "SecretFileGuard"; rule_code = "SECRET_FILE"; detail = ".env" }

-- An inspection that objects to `.env` and classifies by the git operation.
abbrev pub inspection : Inspection
inspection = record {
  secret_file_guard = λ r. if includes ".env" r.target_file_paths then some secret_file else none;
  secret_output_guard = λ r. none;
  secret_literal_guard = λ r. none;
  auth_credential_script_guard = λ r. none;
  classify = λ r.
      if r.git_operation == some "commit"
      then git_commit ∷ []
      else if r.git_operation == some "push --force"
      then git_destructive ∷ []
      else read_only ∷ [];
}

abbrev pub git_request : String → List String → ActionRequest
git_request operation paths = record {
  action_id = "A1";
  task_id = "T1";
  agent_id = "agent";
  provider = "local";
  tool = "git";
  operation = "git";
  command = none;
  args = none;
  resource = "repository";
  http_method = none;
  git_operation = some operation;
  environment = Environment.local;
  parameters = [];
  authority_context_ref = "ctx";
  correlation_id = "corr";
  target_file_paths = paths;
  generated_content = none;
}

abbrev pub commit_request : ActionRequest
commit_request = git_request "commit" ("src/a.ts" ∷ [])

abbrev pub force_push : ActionRequest
force_push = git_request "push --force" []

abbrev pub secret_request : ActionRequest
secret_request = git_request "commit" (".env" ∷ [])

-- A request of an unknown tool.
abbrev pub unknown_request : ActionRequest
unknown_request = record commit_request { tool = "telephone"; git_operation = none }

abbrev pub commit_grant : GrantRecord
commit_grant = record {
  token = owner_commit_approved;
  task_id = "T1";
  status = active;
  reserved_for_action_id = none;
  bound_to_gate = some commit;
  bound_to_action = some "GIT_COMMIT";
  issued_at = 1;
}

-- The grant of an earlier commit.
abbrev pub spent_grant : GrantRecord
spent_grant = record commit_grant { status = consumed }

abbrev pub at_commit : OwnerEventProcessor
at_commit = record {
  task_id = "T1";
  gate = commit;
  environment = Environment.local;
  grants = ("g1", commit_grant) ∷ ("g0", spent_grant) ∷ [];
  approved_file_scope = "src/a.ts" ∷ [];
  audit_log = [];
}

abbrev pub commit_context : ReadOnlyExecutionContext
commit_context = read_only_view at_commit

pub commit_allowed :
    ((evaluate inspection commit_context commit_request).decision ≡ allow)
    × ((evaluate inspection commit_context commit_request).granted_by_authority_id ≡ some "g1")
unfolding evaluate stages settle check_guards first_violation check_unknown check_denied
    check_allowed check_tokens token_turn matches_grant consumes_grant is_sensitive target_action
    open_gate open_action check_blanket_add is_blanket_add check_file_scope check_paths allowing
    deny_with token_missing gate_policy name MutationClass-discrete ExecutionGate-discrete
    OwnerAuthorityToken-discrete AuthorityGrantStatus-discrete PolicyDecision-discrete
    read_only_view
commit_allowed = (refl, refl)

pub force_push_denied : ((evaluate inspection commit_context force_push).decision == allow) ≡ false
unfolding evaluate stages settle check_guards first_violation check_unknown check_denied
    check_allowed check_tokens token_turn matches_grant consumes_grant is_sensitive target_action
    open_gate open_action check_blanket_add is_blanket_add check_file_scope check_paths allowing
    deny_with token_missing gate_policy name MutationClass-discrete ExecutionGate-discrete
    OwnerAuthorityToken-discrete AuthorityGrantStatus-discrete PolicyDecision-discrete
    read_only_view
force_push_denied = refl
