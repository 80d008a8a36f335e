-- ===== src/Gateway/Ran.antt =====
-- packages/tools/src/governed-tool-gateway.ts: what a successful result of `execute` rests on, from the
-- request to the audit.
use constructie_orchestrator.Base.{
  ◌≡◌, ◌≢◌, refl, String, [], ◌∷◌, some, true, ◌==◌, ok, err, Result, Bool-cases, inl, inr,
  eq_sound, sym, ◌∙◌,
}
use constructie_orchestrator.Policy.Types.{PolicyDecision_eq, ActionRequest, ActionPolicyDecision}
use constructie_orchestrator.Policy.Types
use constructie_orchestrator.Policy.RuleText.{rule_text}
use constructie_orchestrator.Policy.Engine.{Inspection, evaluate}
use constructie_orchestrator.Policy.Engine.Soundness.{IsPermitted, evaluate-allow}
use constructie_orchestrator.Policy.Processor.{read_only_view}
use constructie_orchestrator.Gateway.Contracts.{
  ToolExecutionRequest, ToolExecutionResult, succeeded, valid_request,
}
use constructie_orchestrator.Gateway.Execute.{
  Gateway, State, Run, Verdict, action_policy, propose, with_policy, execute, denied_result,
  audit_failed,
}
use constructie_orchestrator.Gateway.Denial.{execute_refused, execute_unrecorded, execute_allowed}
use constructie_orchestrator.Gateway.Ending.{HasExecuted, authorize-succeeded}

-- The verdict that an allowing decision on an action becomes.
abbrev verdict_of : ToolExecutionRequest → ActionRequest → ActionPolicyDecision → Verdict
verdict_of request action decision =
    with_policy request true (rule_text decision.policy_rule) (some action.action_id)
      decision.granted_by_authority_id ("action-classifying-policy-engine" ∷ [])
      (request.authority_context_ref ∷ [])

-- What a successful result of a gateway with an action policy rests on.
pub record HasRun {W : Type 0} (g : Gateway W) (i : Inspection) (request : ToolExecutionRequest)
    (action : ActionRequest) (s t : State W) (r : ToolExecutionResult) : Type 0 where
  pub valid : valid_request request ≡ true
  pub permitted : IsPermitted i (read_only_view s.processor) action
  pub proposed : W
  pub recorded :
      propose g.audit_ledger action (evaluate i (read_only_view s.processor) action) s.world
      ≡ (proposed, ok tt)
  pub execution :
      HasExecuted g request
        (verdict_of request action (evaluate i (read_only_view s.processor) action))
        (record s { world = proposed })
        t
        r

returned_status :
    {W : Type 0} {u t : State W} {a r : ToolExecutionResult}
    → ◌≡◌ {A = Run W} (u, ok a) (t, ok r)
    → a.status ≡ r.status
returned_status h = cc h

audit_failed-open :
    (request : ToolExecutionRequest) (m : String) → (audit_failed request m).status ≢ succeeded
unfolding audit_failed
audit_failed-open request m q = cc q

denied_result-open :
    (request : ToolExecutionRequest) (m : String) → (denied_result request m).status ≢ succeeded
unfolding denied_result
denied_result-open request m q = cc q

module _ {W : Type 0} (g : Gateway W) (i : Inspection) (request : ToolExecutionRequest)
    (s : State W) (governed : g.policy ≡ action_policy i) where
  -- What follows the proposal.
  proposed-succeeded :
      (w : W) (m : Result String (Unit {0})) (t : State W) (r : ToolExecutionResult)
      → valid_request request ≡ true
      → let action = g.bridge (g.fresh_id s.world) request in
        let decision = evaluate i (read_only_view s.processor) action in
        propose g.audit_ledger action decision s.world ≡ (w, m)
        → execute g request s ≡ (t, ok r)
        → r.status ≡ succeeded
        → HasRun g i request action s t r
  proposed-succeeded w (err message) t r v q h e = absurd (
      audit_failed-open request message
        (returned_status (sym (execute_unrecorded g i request s governed v w message q) ∙ h) ∙ e))
  proposed-succeeded w (ok _) t r v q h e =
      let action = g.bridge (g.fresh_id s.world) request in
      let decision = evaluate i (read_only_view s.processor) action in
      elim (Bool-cases (decision.decision == Types.PolicyDecision.allow)) [
        | inl a ↦ record {
          valid = v;
          permitted =
              evaluate-allow i (read_only_view s.processor) action
                (eq_sound decision.decision Types.PolicyDecision.allow a);
          proposed = w;
          recorded = q;
          execution =
              authorize-succeeded g request (verdict_of request action decision)
                (record s { world = w }) t r
                (sym (execute_allowed g i request s governed v w q a) ∙ h) e;
        }
        | inr a ↦ absurd (
            denied_result-open request (rule_text decision.policy_rule)
              (returned_status (sym (execute_refused g i request s governed v w q a) ∙ h) ∙ e))
      ]

  -- A result with the status SUCCEEDED means that the request is well formed, the policy engine
  -- permits its action, the proposal was recorded, the adapter of its tool ran to this result after
  -- the grant that the decision names was reserved, the grant was consumed after what the owner did
  -- meanwhile, and the redacted result was recorded: the state is the one that these calls leave.
  pub execute-succeeded :
      (t : State W) (r : ToolExecutionResult)
      → execute g request s ≡ (t, ok r)
      → r.status ≡ succeeded
      → HasRun g i request (g.bridge (g.fresh_id s.world) request) s t r
  unfolding execute
  execute-succeeded t r h e =
      let action = g.bridge (g.fresh_id s.world) request in
      let decision = evaluate i (read_only_view s.processor) action in
      elim (Bool-cases (valid_request request)) [
        | inr v ↦ cc (rw v at h)
        | inl v ↦
            proposed-succeeded (propose g.audit_ledger action decision s.world).0
              (propose g.audit_ledger action decision s.world).1 t r v refl h e
      ]
