-- ===== src/Policy/Matrix.antt =====
-- `GATE_POLICY` of packages/policy/src/engine/action-classifying-policy-engine.ts: which mutation
-- classes each gate allows, denies, or allows under an owner token.
pub mod Facts
use constructie_orchestrator.Base.{
  ◌≡◌, refl, Bool, true, false, ◌&&◌, ◌||◌, not, List, [], ◌∷◌, Option, none, some, includes, all,
  all-Elem, is_some, ◌==◌, Elem, and_true,
}
use constructie_orchestrator.Policy.Types.{
  MutationClass, read_only, local_mutation, source_mutation, git_stage, git_commit, git_push,
  git_destructive, deployment, production_read, production_mutation, database_read,
  database_mutation, schema_mutation, schema_source_mutation, secret_read, secret_output,
  credential_use, auth_session_creation, destructive, unknown, MutationClass_eq, ExecutionGate,
  audit, plan, owner_plan_review, implementation, test, owner_precommit, commit, push, deploy,
  production_validation, production_validation_read_only, owner_final_closure, OwnerAuthorityToken,
  owner_implementation_approved, owner_commit_approved, owner_push_approved, owner_deploy_approved,
  GateRule, MutationClass-discrete,
}

no_tokens : MutationClass → Option OwnerAuthorityToken
no_tokens _ = none

implementation_tokens : MutationClass → Option OwnerAuthorityToken
implementation_tokens source_mutation = some owner_implementation_approved
implementation_tokens _ = none

commit_tokens : MutationClass → Option OwnerAuthorityToken
commit_tokens git_stage = some owner_commit_approved
commit_tokens git_commit = some owner_commit_approved
commit_tokens _ = none

push_tokens : MutationClass → Option OwnerAuthorityToken
push_tokens git_push = some owner_push_approved
push_tokens _ = none

deploy_tokens : MutationClass → Option OwnerAuthorityToken
deploy_tokens deployment = some owner_deploy_approved
deploy_tokens _ = none

unfoldable pub gate_policy : ExecutionGate → GateRule
unfolding no_tokens implementation_tokens commit_tokens push_tokens deploy_tokens
gate_policy audit = record {
  allowed_classes = read_only ∷ production_read ∷ [];
  denied_classes =
      local_mutation ∷ source_mutation ∷ git_stage ∷ git_commit ∷ git_push ∷ git_destructive
      ∷ deployment ∷ production_mutation ∷ database_mutation ∷ schema_mutation
      ∷ schema_source_mutation ∷ secret_read ∷ secret_output ∷ credential_use
      ∷ auth_session_creation ∷ destructive ∷ [];
  required_tokens = no_tokens;
  enforce_file_scope = false;
}
gate_policy plan = record {
  allowed_classes = read_only ∷ [];
  denied_classes =
      local_mutation ∷ source_mutation ∷ git_stage ∷ git_commit ∷ git_push ∷ git_destructive
      ∷ deployment ∷ production_mutation ∷ production_read ∷ database_mutation ∷ schema_mutation
      ∷ schema_source_mutation ∷ secret_read ∷ secret_output ∷ credential_use
      ∷ auth_session_creation ∷ destructive ∷ [];
  required_tokens = no_tokens;
  enforce_file_scope = false;
}
gate_policy owner_plan_review = record {
  allowed_classes = read_only ∷ [];
  denied_classes =
      local_mutation ∷ source_mutation ∷ git_stage ∷ git_commit ∷ git_push ∷ git_destructive
      ∷ deployment ∷ production_mutation ∷ production_read ∷ database_mutation ∷ schema_mutation
      ∷ schema_source_mutation ∷ secret_read ∷ secret_output ∷ credential_use
      ∷ auth_session_creation ∷ destructive ∷ [];
  required_tokens = no_tokens;
  enforce_file_scope = false;
}
gate_policy implementation = record {
  allowed_classes = read_only ∷ local_mutation ∷ source_mutation ∷ [];
  denied_classes =
      git_commit ∷ git_push ∷ git_destructive ∷ deployment ∷ production_mutation ∷ production_read
      ∷ database_mutation ∷ schema_mutation ∷ secret_read ∷ secret_output ∷ destructive ∷ [];
  required_tokens = implementation_tokens;
  enforce_file_scope = true;
}
gate_policy test = record {
  allowed_classes = read_only ∷ local_mutation ∷ database_read ∷ [];
  denied_classes =
      source_mutation ∷ git_stage ∷ git_commit ∷ git_push ∷ git_destructive ∷ deployment
      ∷ production_mutation ∷ database_mutation ∷ schema_mutation ∷ schema_source_mutation
      ∷ secret_read ∷ secret_output ∷ destructive ∷ [];
  required_tokens = no_tokens;
  enforce_file_scope = false;
}
gate_policy owner_precommit = record {
  allowed_classes = read_only ∷ [];
  denied_classes =
      local_mutation ∷ source_mutation ∷ git_stage ∷ git_commit ∷ git_push ∷ git_destructive
      ∷ deployment ∷ production_mutation ∷ database_mutation ∷ schema_mutation
      ∷ schema_source_mutation ∷ secret_read ∷ secret_output ∷ credential_use
      ∷ auth_session_creation ∷ destructive ∷ [];
  required_tokens = no_tokens;
  enforce_file_scope = false;
}
gate_policy commit = record {
  allowed_classes = read_only ∷ git_stage ∷ git_commit ∷ [];
  denied_classes =
      local_mutation ∷ source_mutation ∷ git_push ∷ git_destructive ∷ deployment
      ∷ production_mutation ∷ database_mutation ∷ schema_mutation ∷ schema_source_mutation
      ∷ secret_read ∷ secret_output ∷ credential_use ∷ auth_session_creation ∷ destructive ∷ [];
  required_tokens = commit_tokens;
  enforce_file_scope = true;
}
gate_policy push = record {
  allowed_classes = read_only ∷ git_push ∷ [];
  denied_classes =
      local_mutation ∷ source_mutation ∷ git_stage ∷ git_commit ∷ git_destructive ∷ deployment
      ∷ production_mutation ∷ database_mutation ∷ schema_mutation ∷ schema_source_mutation
      ∷ secret_read ∷ secret_output ∷ credential_use ∷ auth_session_creation ∷ destructive ∷ [];
  required_tokens = push_tokens;
  enforce_file_scope = false;
}
gate_policy deploy = record {
  allowed_classes = read_only ∷ deployment ∷ [];
  denied_classes =
      local_mutation ∷ source_mutation ∷ git_stage ∷ git_commit ∷ git_push ∷ git_destructive
      ∷ production_mutation ∷ database_mutation ∷ schema_mutation ∷ schema_source_mutation
      ∷ secret_read ∷ secret_output ∷ credential_use ∷ auth_session_creation ∷ destructive ∷ [];
  required_tokens = deploy_tokens;
  enforce_file_scope = false;
}
gate_policy production_validation = record {
  allowed_classes = read_only ∷ production_read ∷ [];
  denied_classes =
      local_mutation ∷ source_mutation ∷ git_stage ∷ git_commit ∷ git_push ∷ git_destructive
      ∷ deployment ∷ production_mutation ∷ database_mutation ∷ schema_mutation
      ∷ schema_source_mutation ∷ secret_read ∷ secret_output ∷ credential_use
      ∷ auth_session_creation ∷ destructive ∷ [];
  required_tokens = no_tokens;
  enforce_file_scope = false;
}
gate_policy production_validation_read_only = record {
  allowed_classes = read_only ∷ production_read ∷ [];
  denied_classes =
      local_mutation ∷ source_mutation ∷ git_stage ∷ git_commit ∷ git_push ∷ git_destructive
      ∷ deployment ∷ production_mutation ∷ database_mutation ∷ schema_mutation
      ∷ schema_source_mutation ∷ secret_read ∷ secret_output ∷ credential_use
      ∷ auth_session_creation ∷ destructive ∷ [];
  required_tokens = no_tokens;
  enforce_file_scope = false;
}
gate_policy owner_final_closure = record {
  allowed_classes = read_only ∷ [];
  denied_classes =
      local_mutation ∷ source_mutation ∷ git_stage ∷ git_commit ∷ git_push ∷ git_destructive
      ∷ deployment ∷ production_mutation ∷ database_mutation ∷ schema_mutation
      ∷ schema_source_mutation ∷ secret_read ∷ secret_output ∷ credential_use
      ∷ auth_session_creation ∷ destructive ∷ [];
  required_tokens = no_tokens;
  enforce_file_scope = false;
}
