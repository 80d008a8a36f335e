-- ===== src/Gateway/Denial.antt =====
-- packages/tools/src/governed-tool-gateway.ts: the choke point. What `execute` does with a request
-- before an adapter is looked up.
use constructie_orchestrator.Base.{
  ◌≡◌, refl, String, some, true, false, ◌==◌, ok, err, [], ◌∷◌, Result,
}
use constructie_orchestrator.Policy.Types.{PolicyDecision_eq}
use constructie_orchestrator.Policy.Types
use constructie_orchestrator.Policy.RuleText.{rule_text}
use constructie_orchestrator.Policy.Engine.{Inspection, evaluate}
use constructie_orchestrator.Policy.Processor.{read_only_view}
use constructie_orchestrator.Gateway.Contracts.{ToolExecutionRequest, valid_request}
use constructie_orchestrator.Gateway.Execute.{
  Gateway, State, action_policy, propose, execute, decide, proceed, denied_result, audit_failed,
  with_policy, authorize,
}

module _ {W : Type 0} (g : Gateway W) (i : Inspection) (request : ToolExecutionRequest)
    (s : State W) (governed : g.policy ≡ action_policy i)
    (valid : valid_request request ≡ true) where
  pub decided :
      (w : W) (recorded : Result String (Unit {0}))
      → let action = g.bridge (g.fresh_id s.world) request in
        let decision = evaluate i (read_only_view s.processor) action in
        propose g.audit_ledger action decision s.world ≡ (w, recorded)
        → decide g request s ≡ (
          w,
          elim recorded [
            | err message ↦ err (audit_failed request message)
            | ok _ ↦ ok (
                with_policy request
                  (decision.decision == Types.PolicyDecision.allow)
                  (rule_text decision.policy_rule)
                  (some action.action_id)
                  decision.granted_by_authority_id
                  ("action-classifying-policy-engine" ∷ [])
                  (request.authority_context_ref ∷ []))
          ],
        )
  unfolding decide
  decided w recorded h = rw (governed, h) refl

  -- A well-formed request that the policy engine does not allow, once its proposal is recorded, is
  -- answered with a denial: no adapter runs, and the owner event processor and its grants stay as
  -- they are.
  pub execute_refused :
      (w : W)
      → let action = g.bridge (g.fresh_id s.world) request in
        let decision = evaluate i (read_only_view s.processor) action in
        propose g.audit_ledger action decision s.world ≡ (w, ok tt)
        → (decision.decision == Types.PolicyDecision.allow) ≡ false
        → execute g request s
          ≡ (record s { world = w }, ok (denied_result request (rule_text decision.policy_rule)))
  unfolding execute proceed with_policy
  execute_refused w recorded refused = rw (valid, decided w (ok tt) recorded, refused) refl

  -- When the proposal of a well-formed request cannot be recorded, the action is not executed,
  -- allowed or not: the result says so, and the owner event processor stays as it is.
  pub execute_unrecorded :
      (w : W) (message : String)
      → let action = g.bridge (g.fresh_id s.world) request in
        propose g.audit_ledger action (evaluate i (read_only_view s.processor) action) s.world
          ≡ (w, err message)
        → execute g request s ≡ (record s { world = w }, ok (audit_failed request message))
  unfolding execute proceed with_policy
  execute_unrecorded w message recorded = rw (valid, decided w (err message) recorded) refl

  -- An allowed and recorded request is executed under the grant that the decision names.
  pub execute_allowed :
      (w : W)
      → let action = g.bridge (g.fresh_id s.world) request in
        let decision = evaluate i (read_only_view s.processor) action in
        propose g.audit_ledger action decision s.world ≡ (w, ok tt)
        → (decision.decision == Types.PolicyDecision.allow) ≡ true
        → execute g request s
          ≡ authorize g request
              (with_policy request true
                (rule_text decision.policy_rule)
                (some action.action_id)
                decision.granted_by_authority_id
                ("action-classifying-policy-engine" ∷ [])
                (request.authority_context_ref ∷ []))
              (record s { world = w })
  unfolding execute proceed with_policy
  execute_allowed w recorded allowed = rw (valid, decided w (ok tt) recorded, allowed) refl
