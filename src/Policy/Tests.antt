-- ===== src/Policy/Tests.antt =====
-- Concrete runs of the policy engine and of the owner event processor.
use constructie_orchestrator.Base.Dict.{get}
use constructie_orchestrator.Base.{
  ℕ, ◌≡◌, ◌≢◌, refl, ◌≤◌, List, [], ◌∷◌, some, false, ok, err, Elem, inl, Option_eq, String_eq,
  ◌==◌,
}
use constructie_orchestrator.Policy.Types.{
  AuthorityGrantView, allow, active, reserved, consumed, git_destructive, git_commit, audit, plan,
  owner_commit_approved, owner_implementation_approved, MutationClass-discrete,
  OwnerAuthorityToken_eq, AuthorityGrantStatus-discrete, OwnerAuthorityToken-discrete,
  ExecutionGate-discrete,
}
use constructie_orchestrator.Policy.Matrix.Facts.{gate_of}
use constructie_orchestrator.Policy.Engine.{evaluate}
use constructie_orchestrator.Policy.Engine.Stages.{Covers}
use constructie_orchestrator.Policy.Engine.Soundness.{
  IsPermitted, evaluate-allow, evaluate_granted, evaluate-forbidden, evaluate_authorised,
}
use constructie_orchestrator.Policy.Events.{GateTransitionEvent, sealed, gate_transition_policy}
use constructie_orchestrator.Policy.Processor.{
  OwnerEventProcessor, GrantRecord, is_multi_use, reserve_grant, consume_grant,
  release_grant_for_retry, reserving, releasing, consuming, grant_state, transition_gate_from_event,
  find_rule,
}
use constructie_orchestrator.Base.{◌>>=◌}
use constructie_orchestrator.Policy.Types.{commit, owner_precommit}
use constructie_orchestrator.Policy.Events.{
  GateTransitionRule, TrustedOwnerAuthorityIssuer, issue_authority_and_transition,
}
use constructie_orchestrator.Policy.Processor.{apply_owner_authority_event}
use constructie_orchestrator.Policy.Processor.Opening.{issue_authority_and_transition-opens}
use constructie_orchestrator.Policy.Processor.Lifecycle.{
  consume_grant-once, reserve_grant-exclusive, release_grant_for_retry-reserve,
}
use constructie_orchestrator.Policy.Processor.Gates.{
  rank, IsTransition, transition_gate_from_event-ok,
}
use constructie_orchestrator.Policy.Processor.Invariant.{
  IsValid, Operation, transition_gate, reserves, run, run-IsValid, run-rank,
}
use constructie_orchestrator.Policy.Examples.{
  inspection, commit_context, commit_request, force_push, commit_grant, at_commit, commit_allowed,
}
use constructie_orchestrator.Policy.Examples.{unknown_request}
use constructie_orchestrator.Base.Text.{is_space, lower, join, strip, is_word_char}
use constructie_orchestrator.Policy.Classifier.{
  add_all, by_tool, by_http_method, by_resource, added, text_or_empty, joined,
}
use constructie_orchestrator.Policy.Classifier.Pattern.{
  after, after_one, after_many, at_end, matches, search, test_pattern, test_any,
}
use constructie_orchestrator.Policy.Classifier.Patterns.{
  secret_bearing_path_patterns, secret_variable_patterns,
}
use constructie_orchestrator.Policy.Classifier.Command.{by_git_operation, by_command}
use constructie_orchestrator.Policy.Classifier.Guards
use constructie_orchestrator.Policy.Classifier.Closed.{unclassified, evaluate-IsForbidden}
use constructie_orchestrator.Policy.Types.{
  ActionRequest, name, PolicyDecision-discrete, Environment-discrete,
}
use constructie_orchestrator.Base.{none}
use constructie_orchestrator.Policy.Matrix.{gate_policy}
use constructie_orchestrator.Policy.Engine.{
  first_violation, stages, settle, check_guards, check_unknown, check_denied, check_allowed,
  check_tokens, token_turn, matches_grant, consumes_grant, is_sensitive, target_action, open_gate,
  open_action, check_blanket_add, is_blanket_add, check_file_scope, check_paths, allowing,
  deny_with, token_missing,
}
use constructie_orchestrator.Policy.Processor.{read_only_view}
use constructie_orchestrator.Policy.Classifier.{classify, or_unknown, by_environment, add}
use constructie_orchestrator.Policy.Classifier.Patterns.{
  secret_literal_patterns, auth_credential_patterns,
}
use constructie_orchestrator.Base.Text.{
  trim, trim_start, trim_end, split_spaces, starts_with_space, prepend,
}
use constructie_orchestrator.Policy.Classifier.Pattern.{Pattern, word, many}
use constructie_orchestrator.Policy.Classifier.Occurs.{Occurs}
use constructie_orchestrator.Policy.Classifier.Clean.{IsClean, evaluate-IsClean}

evaluate-allow_example : IsPermitted inspection commit_context commit_request
evaluate-allow_example = evaluate-allow inspection commit_context commit_request commit_allowed.0

evaluate_granted_example :
    (a : AuthorityGrantView) × Elem a commit_context.active_authorities
    × (a.grant_id ≡ "g1")
    × (a.status ≡ active)
    × (a.task_id ≡ "T1")
    × ((a.token == owner_implementation_approved) ≡ false)
evaluate_granted_example =
    evaluate_granted inspection commit_context commit_request "g1" commit_allowed.0 commit_allowed.1

evaluate-forbidden_example : (evaluate inspection commit_context force_push).decision ≢ allow
unfolding MutationClass-discrete
evaluate-forbidden_example =
    evaluate-forbidden inspection commit_context force_push git_destructive refl (inl refl)

evaluate_authorised_example :
    (gate_of git_commit ≡ some commit_context.gate)
    × ((a : AuthorityGrantView) × Elem a commit_context.active_authorities
        × Covers commit_context.gate "T1" owner_commit_approved git_commit a)
evaluate_authorised_example =
    evaluate_authorised inspection commit_context commit_request git_commit owner_commit_approved
      refl (inl refl) commit_allowed.0

abbrev taken : GrantRecord
taken = record commit_grant { status = reserved; reserved_for_action_id = some "A1" }

abbrev at_run : OwnerEventProcessor
at_run = record at_commit { grants = ("g1", taken) ∷ [] }

held_active : get "g1" at_commit.grants ≡ some commit_grant
unfolding get
held_active = refl

held_taken : get "g1" at_run.grants ≡ some taken
unfolding get
held_taken = refl

single_use : is_multi_use commit_grant ≡ false
unfolding is_multi_use OwnerAuthorityToken-discrete
single_use = refl

single_use_taken : is_multi_use taken ≡ false
unfolding is_multi_use OwnerAuthorityToken-discrete
single_use_taken = refl

consumes_it : consume_grant 5 "g1" "A1" at_run ≡ ok (consuming 5 "g1" "A1" taken at_run)
unfolding consume_grant get is_multi_use OwnerAuthorityToken-discrete AuthorityGrantStatus-discrete
consumes_it = refl

consume_grant-once_example :
    (reserve_grant 6 "g1" "A2" (consuming 5 "g1" "A1" taken at_run)
      ≡ err (grant_state "g1" active consumed))
    × (consume_grant 6 "g1" "A2" (consuming 5 "g1" "A1" taken at_run)
        ≡ err (grant_state "g1" reserved consumed))
consume_grant-once_example =
    consume_grant-once 5 6 "g1" "A1" "A2" at_run taken held_taken single_use_taken
      (consuming 5 "g1" "A1" taken at_run) consumes_it

reserves_it :
    reserve_grant 5 "g1" "A1" at_commit ≡ ok (reserving 5 "g1" "A1" commit_grant at_commit)
unfolding reserve_grant get is_multi_use OwnerAuthorityToken-discrete AuthorityGrantStatus-discrete
reserves_it = refl

reserve_grant-exclusive_example :
    let q = reserving 5 "g1" "A1" commit_grant at_commit in
    (reserve_grant 6 "g1" "A2" q ≡ err (grant_state "g1" active reserved))
    × (reserve_grant 6 "g1" "A1" q ≡ err (grant_state "g1" active reserved))
    × (consume_grant 6 "g1" "A2" q ≡ err (grant_state "g1" reserved reserved))
    × ((r : OwnerEventProcessor) × (consume_grant 6 "g1" "A1" q ≡ ok r))
reserve_grant-exclusive_example =
    reserve_grant-exclusive 5 6 "g1" "A1" "A2" at_commit commit_grant held_active single_use
      (reserving 5 "g1" "A1" commit_grant at_commit) reserves_it refl

abbrev spent : GrantRecord
spent = record taken { status = consumed }

abbrev after_commit : OwnerEventProcessor
after_commit = record at_commit { grants = ("g1", spent) ∷ [] }

held_spent : (get "g1" after_commit.grants ≡ some spent) × (is_multi_use spent ≡ false)
unfolding get is_multi_use OwnerAuthorityToken-discrete
held_spent = (refl, refl)

releases_it :
    release_grant_for_retry 7 "g1" "A1" after_commit ≡ ok (releasing 7 "g1" "A1" spent after_commit)
unfolding release_grant_for_retry get is_multi_use OwnerAuthorityToken-discrete
releases_it = refl

release_grant_for_retry-reserve_example :
    (r : OwnerEventProcessor) × (reserve_grant 8 "g1" "A2"
        (releasing 7 "g1" "A1" spent after_commit)
      ≡ ok r)
release_grant_for_retry-reserve_example =
    release_grant_for_retry-reserve 7 8 "g1" "A1" "A2" after_commit spent held_spent.0 held_spent.1
      (releasing 7 "g1" "A1" spent after_commit) releases_it

abbrev to_plan : GateTransitionEvent
to_plan = record {
  event_id = "e1";
  owner_ref = "owner";
  task_id = "T1";
  from_gate = audit;
  to_gate = plan;
  issued_at = 2;
  correlation_id = "corr";
}

abbrev at_audit : OwnerEventProcessor
at_audit = record at_commit { gate = audit; grants = [] }

transitions :
    (q : OwnerEventProcessor) × (transition_gate_from_event 3 (sealed to_plan) at_audit ≡ ok q)
unfolding transition_gate_from_event find_rule gate_transition_policy ExecutionGate-discrete
transitions = (_, refl)

transition_gate_from_event-ok_example : IsTransition at_audit transitions.0 to_plan
transition_gate_from_event-ok_example =
    transition_gate_from_event-ok 3 to_plan at_audit transitions.0 transitions.1

abbrev history : List (ℕ × Operation)
history = (3, transition_gate (sealed to_plan)) ∷ (4, reserves "g1" "A1") ∷ []

at_audit-IsValid : IsValid at_audit
at_audit-IsValid = record { distinct = tt; sound = tt }

run-IsValid_example : IsValid (run history at_audit)
run-IsValid_example = run-IsValid history at_audit at_audit-IsValid

run-rank_example : rank at_audit.gate ≤ rank (run history at_audit).gate
run-rank_example = run-rank history at_audit at_audit-IsValid

abbrev issuer : TrustedOwnerAuthorityIssuer
issuer = record { owner_ref = "owner"; task_id = "T1" }

abbrev at_precommit : OwnerEventProcessor
at_precommit = record at_commit { gate = owner_precommit; grants = [] }

abbrev to_commit : GateTransitionRule
to_commit = record {
  from_gate = owner_precommit;
  to_gate = commit;
  required_token = some owner_commit_approved;
}

rule_found : find_rule owner_precommit commit ≡ some to_commit
unfolding find_rule gate_transition_policy ExecutionGate-discrete
rule_found = refl

abbrev commit_grant_5 : GrantRecord
commit_grant_5 = record commit_grant { issued_at = 5 }

issue_authority_and_transition-opens_example :
    let (authority, transition) =
      issue_authority_and_transition issuer "a1" "t1" "corr" 5 owner_commit_approved owner_precommit
        commit
        (some "GIT_COMMIT") in
    (q : OwnerEventProcessor) × ((apply_owner_authority_event 5 authority at_precommit
        >>= transition_gate_from_event 5 transition)
      ≡ ok q)
    × (q.gate ≡ commit)
    × (get "a1" q.grants ≡ some commit_grant_5)
issue_authority_and_transition-opens_example =
    issue_authority_and_transition-opens issuer "a1" "t1" "corr" 5 owner_commit_approved commit
      (some "GIT_COMMIT") at_precommit to_commit refl rule_found refl

evaluate-IsForbidden_example :
    (evaluate Guards.inspection commit_context unknown_request).decision ≢ allow
unfolding added add_all by_tool by_http_method by_git_operation by_command by_resource test_any
    test_pattern search matches after after_one after_many at_end strip lower is_space is_word_char
    joined text_or_empty join secret_bearing_path_patterns secret_variable_patterns
evaluate-IsForbidden_example =
    evaluate-IsForbidden commit_context unknown_request (unclassified refl)

-- Reading a source file is allowed.
abbrev read_request : ActionRequest
read_request = record commit_request {
  tool = "filesystem";
  operation = "fs.read";
  resource = "src/a.ts";
  git_operation = none;
}

read_allowed : (evaluate Guards.inspection commit_context read_request).decision ≡ allow
unfolding Guards.inspection Guards.secret_file_guard Guards.secret_output_guard
    Guards.secret_literal_guard Guards.auth_credential_script_guard Guards.command_and_args
    Guards.first_word Guards.has_literal Guards.parameter_has_literal classify or_unknown
    by_environment added add_all add by_tool by_http_method by_git_operation by_command by_resource
    test_any test_pattern search matches after after_one after_many at_end strip lower is_space
    is_word_char joined text_or_empty join trim trim_start trim_end split_spaces starts_with_space
    prepend secret_bearing_path_patterns secret_variable_patterns secret_literal_patterns
    auth_credential_patterns evaluate stages settle check_guards first_violation check_unknown
    check_denied check_allowed check_tokens token_turn matches_grant consumes_grant is_sensitive
    target_action open_gate open_action check_blanket_add is_blanket_add check_file_scope
    check_paths allowing deny_with token_missing gate_policy name MutationClass-discrete
    ExecutionGate-discrete OwnerAuthorityToken-discrete AuthorityGrantStatus-discrete
    PolicyDecision-discrete Environment-discrete read_only_view
read_allowed = refl

evaluate-IsClean_example : IsClean read_request
evaluate-IsClean_example = evaluate-IsClean commit_context read_request read_allowed

-- `/\.env\.\w+/i`
abbrev env_pattern : Pattern
env_pattern = record { anchored = false; atoms = word ".env." ∷ many 1 is_word_char ∷ [] }
