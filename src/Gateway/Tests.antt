-- ===== src/Gateway/Tests.antt =====
-- Concrete executions of the governed tool gateway.
use constructie_orchestrator.Base.Dict.{get, set}
use constructie_orchestrator.Base.{
  ℕ, ◌≡◌, ◌≢◌, refl, [], ◌∷◌, none, some, true, false, ok, err, suc,
}
use constructie_orchestrator.Policy.Types.{
  reserved, issued, consumed, reconciliation_required, ActionRequest, OwnerAuthorityToken-discrete,
  PolicyDecision_eq, PolicyDecision-discrete,
}
use constructie_orchestrator.Policy.Types
use constructie_orchestrator.Policy.RuleText.{rule_text}
use constructie_orchestrator.Policy.Engine.{evaluate}
use constructie_orchestrator.Policy.Processor.{
  OwnerEventProcessor, GrantRecord, is_multi_use, read_only_view,
}
use constructie_orchestrator.Policy.Processor.Invariant.{IsValid, IsSound, run}
use constructie_orchestrator.Policy.Examples.{
  inspection, commit_request, force_push, commit_grant, spent_grant, at_commit, commit_allowed,
}
use constructie_orchestrator.Gateway.Contracts.{
  ToolExecutionRequest, ToolExecutionResult, AuthorizedToolRequest, succeeded, valid_request,
  valid_authorized, valid_result,
}
use constructie_orchestrator.Gateway.Contracts
use constructie_orchestrator.Gateway.Execute.{
  AuditLedger, ToolAdapter, Gateway, action_policy, State, Verdict, sanitize, propose,
  record_execution, authorize, execute, adapter_threw,
}
use constructie_orchestrator.Gateway.Execute.{
  proceed, decide, with_policy, returned, conclude, audited, then_grant, with_grant, settle_grant,
}
use constructie_orchestrator.Policy.Types.{
  name, MutationClass-discrete, ExecutionGate-discrete, AuthorityGrantStatus-discrete,
}
use constructie_orchestrator.Policy.Matrix.{gate_policy}
use constructie_orchestrator.Policy.Engine.{
  stages, settle, check_guards, first_violation, check_unknown, check_denied, check_allowed,
  check_tokens, token_turn, matches_grant, consumes_grant, is_sensitive, target_action, open_gate,
  open_action, check_blanket_add, is_blanket_add, check_file_scope, check_paths, allowing,
  deny_with, token_missing,
}
use constructie_orchestrator.Policy.Processor.{reserve_grant, consume_grant}
use constructie_orchestrator.Gateway.Ran.{HasRun, execute-succeeded}
use constructie_orchestrator.Gateway.Settlement.{
  Holds, settled, authorize-settled, authorize_thrown,
}
use constructie_orchestrator.Gateway.Spent.{evaluate-spent}
use constructie_orchestrator.Base.Text.{lower, upper, join, strip, remove_first}
use constructie_orchestrator.Base.Dict.{get, set}
use constructie_orchestrator.Policy.Types.{text, texts, other}
use constructie_orchestrator.Policy.Classifier.Guards
use constructie_orchestrator.Gateway.Bridge.{
  bridge_to_action_request, git_op, http_method_of, target_paths, parameter_paths, resource_path,
  as_text, as_texts, text_or, extract_http_method_from_operation,
}
use constructie_orchestrator.Base.{Option, map, List}
use constructie_orchestrator.Gateway.Ledger.{
  Ledger, AuditEntry, Execution, executed, not_executed, proposed_entry, record_proposed,
  record_executed, entries,
}

-- The world counts the calls of the ledger and of the adapter.
abbrev World : Type 0
World = ℕ

abbrev request : ToolExecutionRequest
request = record {
  request_id = "R1";
  project_id = "P1";
  actor_ref = "agent";
  work_item_ref = "T1";
  work_package_ref = "W1";
  tool_id = "git";
  operation_id = "git.commit";
  target_resource = "repository";
  environment = "LOCAL";
  parameters = [];
  authority_context_ref = "ctx";
  idempotency_key = "K1";
  correlation_id = "corr";
}

abbrev result : ToolExecutionResult
result = record {
  execution_id = "E1";
  request_id = "R1";
  tool_id = "git";
  operation_id = "git.commit";
  status = succeeded;
  summary = "done";
  observed_effect = none;
  artifacts = [];
  evidence_candidates = [];
  side_effects = [];
  reconciliation_required = false;
}

abbrev ledger : AuditLedger World
ledger = record {
  record_proposed = λ a d w. (suc w, ok tt);
  record_executed = λ a r w. (suc w, ok tt);
}

abbrev full_ledger : AuditLedger World
full_ledger = record {
  record_proposed = λ a d w. (w, err "disk full");
  record_executed = λ a r w. (w, err "disk full");
}

abbrev committing : ToolAdapter World
committing a w = (suc w, ok result)

abbrev throwing : ToolAdapter World
throwing a w = (suc w, err "connection lost")

abbrev gateway : ActionRequest → AuditLedger World → ToolAdapter World → Gateway World
gateway action l adapter = record {
  policy = action_policy inspection;
  adapters = ("git", adapter) ∷ [];
  audit_ledger = some l;
  has_grant_consumer = true;
  redact = none;
  bridge = λ id r. action;
  fresh_id = λ w. "A1";
  clock = λ w. w;
  owner_meanwhile = λ w. [];
}

abbrev start : State World
start = record { processor = at_commit; world = 0 }

abbrev verdict : Verdict
verdict = record {
  allowed = true;
  reason_code = "GATE_POLICY_ALLOW";
  action_id = some "A1";
  granted_by = some "g1";
  policy = record {
    request_id = "R1";
    decision = Contracts.ToolPolicyDecision.allow;
    reason_code = "GATE_POLICY_ALLOW";
    policy_refs = [];
    authority_refs = [];
  };
}

held_active : (get "g1" at_commit.grants ≡ some commit_grant) × (is_multi_use commit_grant ≡ false)
unfolding get is_multi_use OwnerAuthorityToken-discrete
held_active = (refl, refl)

adapter_found :
    (adapter : ToolAdapter World)
    → get "git" (gateway commit_request ledger adapter).adapters ≡ some adapter
unfolding get
adapter_found adapter = refl

well_formed :
    (valid_authorized (record { request = request; policy = verdict.policy }) ≡ true)
    × (valid_request request ≡ true)
    × (valid_result result ≡ true)
unfolding valid_authorized valid_request valid_result
well_formed = (refl, refl, refl)

-- The commit is carried out.
committed :
    (t : State World) × (execute (gateway commit_request ledger committing) request start
      ≡ (t, ok result))
unfolding execute proceed decide propose with_policy authorize returned conclude audited then_grant
    with_grant settle_grant sanitize record_execution valid_request valid_authorized valid_result
    reserve_grant consume_grant is_multi_use rule_text evaluate stages settle check_guards
    first_violation check_unknown check_denied check_allowed check_tokens token_turn matches_grant
    consumes_grant is_sensitive target_action open_gate open_action check_blanket_add is_blanket_add
    check_file_scope check_paths allowing deny_with token_missing gate_policy name
    MutationClass-discrete ExecutionGate-discrete OwnerAuthorityToken-discrete
    AuthorityGrantStatus-discrete PolicyDecision-discrete read_only_view get set run
committed = (_, refl)

execute-succeeded_example :
    HasRun
      (gateway commit_request ledger committing)
      inspection
      request
      commit_request
      start
      committed.0
      result
execute-succeeded_example =
    execute-succeeded (gateway commit_request ledger committing) inspection request start refl
      committed.0 result committed.1 refl

authorize-settled_example :
    (q : OwnerEventProcessor) × (authorize
        (gateway commit_request ledger committing)
        request
        verdict
        start
      ≡ (record { processor = q; world = 2 }, ok (sanitize none result)))
    × Holds "g1" (settled succeeded) q
unfolding record_execution
authorize-settled_example =
    authorize-settled (gateway commit_request ledger committing) request verdict committing "A1"
      "g1" start commit_grant refl refl refl held_active.0 held_active.1 refl
      (adapter_found committing) well_formed.0 1 refl result 2 refl well_formed.2 refl

authorize_thrown_example :
    (q : OwnerEventProcessor) × (authorize
        (gateway commit_request ledger throwing)
        request
        verdict
        start
      ≡ (record { processor = q; world = 1 }, err (adapter_threw "connection lost")))
    × Holds "g1" reconciliation_required q
authorize_thrown_example =
    authorize_thrown (gateway commit_request ledger throwing) request verdict throwing "A1" "g1"
      start commit_grant refl refl refl held_active.0 held_active.1 refl (adapter_found throwing)
      well_formed.0 1 refl "connection lost" refl

unreserved-IsSound :
    (g : GrantRecord) → g.task_id ≡ "T1" → g.status ≢ reserved → g.status ≢ issued → IsSound "T1" g
unreserved-IsSound g t r i = record { same_task = t; holder = λ e. absurd (r e); past_issue = i }

at_commit-IsValid : IsValid at_commit
at_commit-IsValid = record {
  distinct = ((refl, tt), (tt, tt));
  sound = (
    unreserved-IsSound commit_grant refl (λ e. cc e) (λ e. cc e),
    (unreserved-IsSound spent_grant refl (λ e. cc e) (λ e. cc e), tt),
  );
}

spent_held : Holds "g0" consumed at_commit
unfolding Holds get is_multi_use OwnerAuthorityToken-discrete
spent_held = (spent_grant, refl, refl, refl)

evaluate-spent_example :
    (evaluate inspection (read_only_view at_commit) commit_request).granted_by_authority_id
    ≢ some "g0"
evaluate-spent_example =
    evaluate-spent inspection commit_request at_commit "g0" consumed at_commit-IsValid spent_held
      (λ e. cc e) commit_allowed.0

-- A forced push as a command line, and a gateway with the source's own parts.
abbrev push_request : ToolExecutionRequest
push_request = record request {
  tool_id = "shell";
  operation_id = "shell.exec";
  parameters = ("command", text " GIT Push  --Force origin") ∷ [];
}

abbrev own_gateway : Gateway World
own_gateway = record (gateway commit_request ledger committing) {
  policy = action_policy Guards.inspection;
  bridge = bridge_to_action_request;
}

-- The paths of a write and the methods of requests.
abbrev write_request : ToolExecutionRequest
write_request = record request {
  tool_id = "http";
  operation_id = "http.post";
  target_resource = "file:///src/b.ts";
  parameters =
      ("path", text "src/a.ts")
      ∷ ("method", other "null")
      ∷ ("provider", texts ("x" ∷ "y" ∷ []))
      ∷ [];
}

bridged :
    let action = bridge_to_action_request "A2" write_request in
    (action.target_file_paths ≡ "src/a.ts" ∷ "/src/b.ts" ∷ [])
    × (action.http_method ≡ some "POST")
    × (action.git_operation ≡ none)
    × (action.provider ≡ "x,y")
unfolding bridge_to_action_request git_op http_method_of target_paths parameter_paths resource_path
    as_text as_texts text_or extract_http_method_from_operation get strip lower join
bridged = (refl, refl, refl, refl)

git_subcommand : git_op request ≡ some "commit"
unfolding git_op text_or remove_first strip get
git_subcommand = refl

method_in_upper_case :
    http_method_of (record write_request { parameters = ("method", text "Put") ∷ [] }) ≡ some "PUT"
unfolding http_method_of as_text get upper
method_in_upper_case = refl

abbrev denied_push : Ledger
denied_push =
    record_proposed force_push
      (record (evaluate inspection (read_only_view at_commit) force_push) {
        decision = Types.PolicyDecision.deny;
      })
      (record { recorded = []; now = 5 })

abbrev results : Ledger → List (Option Execution)
results l = map (λ (e : AuditEntry). e.execution_result) (entries l)

-- A denied action is recorded as not executed, and an execution recorded for it replaces that.
denied_then_executed :
    (results denied_push ≡ some not_executed ∷ [])
    × (results (record_executed "A1" result denied_push) ≡ some (executed result) ∷ [])
    × (results (record_executed "A2" result denied_push) ≡ some not_executed ∷ [])
unfolding record_proposed record_executed proposed_entry entries get set PolicyDecision-discrete
denied_then_executed = (refl, refl, refl)
