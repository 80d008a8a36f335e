-- ===== src/Gateway/Ledger.antt =====
-- packages/policy/src/ledger/execution-audit-ledger.ts: `InMemoryExecutionAuditLedger`, as the gateway's
-- audit ledger. The clock is the ledger's field `now`; no call throws.
use Prim.Native.Nat.{ℕ}
use constructie_orchestrator.Base.{
  ◌≡◌, refl, String, List, Option, none, some, true, false, ◌==◌, if◌then◌else◌, filter, map, ok,
}
use constructie_orchestrator.Base.Dict.{get, set, get-set_self}
use constructie_orchestrator.Policy.Types.{
  ActionRequest, ActionPolicyDecision, MutationClass, PolicyDecision, PolicyDecision_eq,
  PolicyDecision-discrete,
}
use constructie_orchestrator.Policy.RuleText.{rule_text}
use constructie_orchestrator.Policy.Engine.{Inspection, evaluate}
use constructie_orchestrator.Policy.Processor.{read_only_view}
use constructie_orchestrator.Gateway.Contracts.{
  ToolExecutionRequest, ToolExecutionResult, valid_request,
}
use constructie_orchestrator.Gateway.Execute.{
  AuditLedger, Gateway, State, action_policy, propose, execute, denied_result,
}
use constructie_orchestrator.Gateway.Denial.{execute_refused}

pub data Execution : Type 0 where
  not_executed : Execution
  executed : ToolExecutionResult → Execution

pub record AuditEntry : Type 0 where
  pub action_id : String
  pub proposed_at : ℕ
  pub request : ActionRequest
  pub classification : List MutationClass
  pub decision : ActionPolicyDecision
  pub executed_at : Option ℕ
  pub execution_result : Option Execution

pub record Ledger : Type 0 where
  pub recorded : List (String × AuditEntry)
  pub now : ℕ

-- The entry of a proposal, as the gateway makes it and the ledger completes it.
unfoldable pub proposed_entry : ℕ → ActionRequest → ActionPolicyDecision → AuditEntry
proposed_entry now action decision = record {
  action_id = action.action_id;
  proposed_at = now;
  request = action;
  classification = decision.all_classes;
  decision = decision;
  executed_at = none;
  execution_result = if decision.decision == PolicyDecision.deny then some not_executed else none;
}

-- `recordProposed`
unfoldable pub record_proposed : ActionRequest → ActionPolicyDecision → Ledger → Ledger
record_proposed action decision l = record l {
  recorded = set action.action_id (proposed_entry l.now action decision) l.recorded;
}

-- `recordExecuted`
unfoldable pub record_executed : String → ToolExecutionResult → Ledger → Ledger
record_executed action_id result l = elim (get action_id l.recorded) [
  | none ↦ l
  | some existing ↦ record l {
    recorded =
        set action_id
          (record existing { executed_at = some l.now; execution_result = some (executed result) })
          l.recorded;
  }
]

-- `entries`, and `denied`.
unfoldable pub entries : Ledger → List AuditEntry
entries l = map (λ (e : String × AuditEntry). e.1) l.recorded

unfoldable pub denied : Ledger → List AuditEntry
denied l = filter (λ e. e.decision.decision == PolicyDecision.deny) (entries l)

unfoldable pub in_memory : AuditLedger Ledger
in_memory = record {
  record_proposed = λ action decision l. (record_proposed action decision l, ok tt);
  record_executed = λ id result l. (record_executed id result l, ok tt);
}

not_both :
    (d : PolicyDecision) → (d == PolicyDecision.deny) ≡ true → (d == PolicyDecision.allow) ≡ false
unfolding PolicyDecision-discrete
not_both PolicyDecision.allow h = cc
not_both _ h = refl

-- With the in-memory ledger, a well-formed request that the policy engine denies is answered with a
-- denial and leaves an entry of its action that says that it was not executed.
pub execute_denied-entry :
    (g : Gateway Ledger) (i : Inspection) (request : ToolExecutionRequest) (s : State Ledger)
    → g.policy ≡ action_policy i
    → g.audit_ledger ≡ some in_memory
    → valid_request request ≡ true
    → let action = g.bridge (g.fresh_id s.world) request in
      let decision = evaluate i (read_only_view s.processor) action in
      (decision.decision == PolicyDecision.deny) ≡ true
      → let l = record_proposed action decision s.world in
        (execute g request s
          ≡ (record s { world = l }, ok (denied_result request (rule_text decision.policy_rule))))
        × ((e : AuditEntry) × (get action.action_id l.recorded ≡ some e)
            × (e.execution_result ≡ some not_executed))
unfolding propose in_memory record_proposed proposed_entry
execute_denied-entry g i request s governed kept valid denies =
    let action = g.bridge (g.fresh_id s.world) request in
    let decision = evaluate i (read_only_view s.processor) action in
    let l = record_proposed action decision s.world in
    (
      execute_refused g i request s governed valid l (rw kept refl)
          (not_both decision.decision denies),
      (
        proposed_entry s.world.now action decision,
        get-set_self action.action_id (proposed_entry s.world.now action decision) s.world.recorded,
        rw denies refl,
      ),
    )
