-- ===== src/Gateway/Execute.antt =====
-- packages/tools/src/governed-tool-gateway.ts: `execute`, over a state that holds the owner event
-- processor and the rest of the world. The bridge to an action request, the adapters, the audit
-- ledger and the legacy evaluator are the gateway's parameters. While an adapter runs, the owner may
-- act on the processor: `owner_meanwhile` is what happened by the time the adapter is done. Owner
-- events while a ledger call is awaited are left out.
use Prim.Native.String.{◌++◌}
use constructie_orchestrator.Base.Dict.{get}
use constructie_orchestrator.Base.{
  ℕ, String, List, [], ◌∷◌, map, Option, none, some, Bool, true, false, if◌then◌else◌, ◌==◌, Result,
  ok, err,
}
use constructie_orchestrator.Policy.Types.{ActionRequest, ActionPolicyDecision, PolicyDecision_eq}
use constructie_orchestrator.Policy.Types
use constructie_orchestrator.Policy.RuleText.{rule_text}
use constructie_orchestrator.Policy.Engine.{Inspection, evaluate}
use constructie_orchestrator.Policy.Processor.{
  OwnerEventProcessor, Outcome, ProcessorError, read_only_view, reserve_grant, consume_grant,
  release_grant_for_retry, require_reconciliation,
}
use constructie_orchestrator.Policy.Processor.Invariant.{Operation, run}
use constructie_orchestrator.Gateway.Contracts.{
  ToolExecutionStatus, succeeded, failed, denied, cancelled, unknown, ToolExecutionRequest,
  ToolPolicyEvaluation, ToolPolicyDecision_eq, AuthorizedToolRequest, EvidenceCandidate,
  ToolExecutionResult, valid_request, valid_authorized, valid_result,
}
use constructie_orchestrator.Gateway.Contracts

pub data GatewayError : Type 0 where
  invalid_request invalid_authorized invalid_result : GatewayError
  tool_not_registered : String → GatewayError
  adapter_threw : String → GatewayError
  grant_error : ProcessorError → GatewayError

module _ (W : Type 0) where
  -- What the gateway calls: each call may change the world, and may throw a message.
  pub record AuditLedger : Type 0 where
    pub record_proposed : ActionRequest → ActionPolicyDecision → W → W × Result String (Unit {0})
    pub record_executed : String → ToolExecutionResult → W → W × Result String (Unit {0})

  abbrev pub ToolAdapter : Type 0
  ToolAdapter = AuthorizedToolRequest → W → W × Result String ToolExecutionResult

  pub data Policy : Type 0 where
    action_policy : Inspection → Policy
    tool_policy : (ToolExecutionRequest → ToolPolicyEvaluation) → Policy

  pub record Gateway : Type 0 where
    pub policy : Policy
    pub adapters : List (String × ToolAdapter)
    pub audit_ledger : Option AuditLedger
    pub has_grant_consumer : Bool
    pub redact : Option (String → String)
    pub bridge : String → ToolExecutionRequest → ActionRequest
    pub fresh_id : W → String
    pub clock : W → ℕ
    pub owner_meanwhile : W → List (ℕ × Operation)

  pub record State : Type 0 where
    pub processor : OwnerEventProcessor
    pub world : W

-- What the evaluation hands to the execution.
pub record Verdict : Type 0 where
  pub allowed : Bool
  pub reason_code : String
  pub action_id : Option String
  pub granted_by : Option String
  pub policy : ToolPolicyEvaluation

-- A result made by the gateway itself.
made : ToolExecutionRequest → String → ToolExecutionStatus → String → ToolExecutionResult
made request prefix status summary = record {
  execution_id = prefix ++ request.request_id;
  request_id = request.request_id;
  tool_id = request.tool_id;
  operation_id = request.operation_id;
  status = status;
  summary = summary;
  observed_effect = none;
  artifacts = [];
  evidence_candidates = [];
  side_effects = [];
  reconciliation_required = false;
}

unfoldable pub audit_failed : ToolExecutionRequest → String → ToolExecutionResult
unfolding made
audit_failed request message =
    made request "audit-fail:" failed ("Pre-execution audit failed: " ++ message)

unfoldable pub denied_result : ToolExecutionRequest → String → ToolExecutionResult
unfolding made
denied_result request reason = made request "denied:" denied ("Tool execution denied: " ++ reason)

unfoldable pub with_policy :
    ToolExecutionRequest
    → Bool
    → String
    → Option String
    → Option String
    → List String
    → List String
    → Verdict
with_policy request allowed reason action_id granted policy_refs authority_refs = record {
  allowed = allowed;
  reason_code = reason;
  action_id = action_id;
  granted_by = granted;
  policy = record {
    request_id = request.request_id;
    decision = Contracts.ToolPolicyDecision.allow;
    reason_code = reason;
    policy_refs = policy_refs;
    authority_refs = authority_refs;
  };
}

-- The switch on the status of the result.
unfoldable pub settle_grant :
    ToolExecutionStatus → ℕ → String → String → OwnerEventProcessor → Outcome
settle_grant succeeded now = consume_grant now
settle_grant cancelled now = release_grant_for_retry now
settle_grant _ now = require_reconciliation now

unfoldable pub sanitize : Option (String → String) → ToolExecutionResult → ToolExecutionResult
sanitize none result = result
sanitize (some redact) result = record result {
  summary = redact result.summary;
  observed_effect = some (redact (elim result.observed_effect [ none ↦ "" | some t ↦ t ]));
  evidence_candidates =
      map (λ (e : EvidenceCandidate). record e { claim_supported = redact e.claim_supported })
        result.evidence_candidates;
}

unfoldable pub unaudited : ToolExecutionResult → String → ToolExecutionResult
unaudited result message = record result {
  status = unknown;
  summary = result.summary ++ "\n[AUDIT PERSISTENCE FAILED: " ++ message ++ "]";
  reconciliation_required = true;
}

abbrev pub Run : Type 0 → Type 0
Run W = State W × Result GatewayError ToolExecutionResult

module _ {W : Type 0} where
  -- `this.auditLedger?.recordProposed(…)`
  unfoldable pub propose :
      Option (AuditLedger W)
      → ActionRequest
      → ActionPolicyDecision
      → W
      → W × Result String (Unit {0})
  propose none action decision w = (w, ok tt)
  propose (some ledger) action decision w = ledger.record_proposed action decision w

  unfoldable pub record_execution :
      Option (AuditLedger W)
      → Option String
      → ToolExecutionResult
      → W
      → W × Result String (Unit {0})
  record_execution (some ledger) (some action_id) result w =
      ledger.record_executed action_id result w
  record_execution _ _ result w = (w, ok tt)

  -- The evaluation; its error case is the early return of a failed pre-execution audit.
  unfoldable pub decide :
      Gateway W → ToolExecutionRequest → State W → W × Result ToolExecutionResult Verdict
  unfolding propose with_policy audit_failed
  decide g request s = elim g.policy [
    | action_policy i ↦
        let action = g.bridge (g.fresh_id s.world) request in
        let decision = evaluate i (read_only_view s.processor) action in
        let (w, recorded) = propose g.audit_ledger action decision s.world in
        (
          w,
          elim recorded [
            | err message ↦ err (audit_failed request message)
            | ok _ ↦ ok (
                with_policy request (decision.decision == Types.PolicyDecision.allow)
                  (rule_text decision.policy_rule) (some action.action_id)
                  decision.granted_by_authority_id ("action-classifying-policy-engine" ∷ [])
                  (request.authority_context_ref ∷ []))
          ],
        )
    | tool_policy legacy ↦
        let e = legacy request in
        (
          s.world,
          ok (
              with_policy request (e.decision == Contracts.ToolPolicyDecision.allow) e.reason_code
                none none e.policy_refs e.authority_refs),
        )
  ]

  -- A call of the grant consumer, made only if an action id, a grant and a consumer are there. (An
  -- empty id, which the source tests for too, does not occur: ids are UUIDs and event ids.)
  unfoldable pub with_grant :
      Gateway W
      → Verdict
      → (String → String → OwnerEventProcessor → Outcome)
      → OwnerEventProcessor
      → Outcome
  with_grant g verdict call p = both verdict.action_id verdict.granted_by
    where
      both : Option String → Option String → Outcome
      both (some action_id) (some grant_id) =
          if g.has_grant_consumer then call grant_id action_id p else ok p
      both _ _ = ok p

  -- A throw of the grant consumer ends the execution.
  unfoldable pub then_grant : State W → Outcome → (State W → Run W) → Run W
  then_grant s (ok p) next = next (record s { processor = p })
  then_grant s (err e) next = (s, err (grant_error e))

  -- After the audit of the result: one that failed leaves the result unknown, which is checked anew.
  unfoldable pub audited :
      Gateway W → Verdict → ToolExecutionResult → State W → W × Result String (Unit {0}) → Run W
  unfolding then_grant unaudited
  audited g verdict clean s (w, ok _) = (record s { world = w }, ok clean)
  audited g verdict clean s (w, err message) =
      let t = record s { world = w } in
      then_grant t (with_grant g verdict (require_reconciliation (g.clock w)) t.processor) λ u.
        if valid_result (unaudited clean message)
        then (u, ok (unaudited clean message))
        else (u, err invalid_result)

  -- After the result is known: settle the grant, redact, audit.
  unfoldable pub conclude : Gateway W → Verdict → ToolExecutionResult → State W → Run W
  unfolding then_grant
  conclude g verdict result s =
      then_grant s (with_grant g verdict (settle_grant result.status (g.clock s.world)) s.processor)
        λ t.
          let clean = sanitize g.redact result in
          audited g verdict clean t
            (record_execution g.audit_ledger verdict.action_id clean t.world)

  -- After the adapter's run: a throw is handled and thrown on, a result is checked.
  unfoldable pub returned :
      Gateway W → Verdict → State W → W × Result String ToolExecutionResult → Run W
  unfolding then_grant
  returned g verdict s (w, err message) =
      let t : State W = record { processor = run (g.owner_meanwhile w) s.processor; world = w } in
      then_grant t (with_grant g verdict (require_reconciliation (g.clock w)) t.processor)
        λ u. (u, err (adapter_threw message))
  returned g verdict s (w, ok result) =
      let t : State W = record { processor = run (g.owner_meanwhile w) s.processor; world = w } in
      if valid_result result then conclude g verdict result t else (t, err invalid_result)

  -- An allowed request: find the adapter, reserve the grant, run.
  unfoldable pub authorize : Gateway W → ToolExecutionRequest → Verdict → State W → Run W
  unfolding then_grant
  authorize g request verdict s = elim (get request.tool_id g.adapters) [
    | none ↦ (s, err (tool_not_registered request.tool_id))
    | some adapter ↦
        then_grant s (with_grant g verdict (reserve_grant (g.clock s.world)) s.processor) λ t.
          let authorized : AuthorizedToolRequest = record {
            request = request;
            policy = verdict.policy;
          } in
          if valid_authorized authorized
          then returned g verdict t (adapter authorized t.world)
          else (t, err invalid_authorized)
  ]

  -- What follows the evaluation: a failed audit and a denial return at once.
  unfoldable pub proceed :
      Gateway W → ToolExecutionRequest → State W → W × Result ToolExecutionResult Verdict → Run W
  unfolding denied_result
  proceed g request s (w, err result) = (record s { world = w }, ok result)
  proceed g request s (w, ok verdict) =
      let t = record s { world = w } in
      if verdict.allowed
      then authorize g request verdict t
      else (t, ok (denied_result request verdict.reason_code))

  unfoldable pub execute : Gateway W → ToolExecutionRequest → State W → Run W
  execute g request s =
      if valid_request request
      then proceed g request s (decide g request s)
      else (s, err invalid_request)
