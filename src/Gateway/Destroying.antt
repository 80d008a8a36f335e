-- ===== src/Gateway/Destroying.antt =====
-- packages/tools/src/governed-tool-gateway.ts: git operations that throw work away, from the tool request to
-- the result.
use constructie_orchestrator.Base.{◌≡◌, String, some, false, ◌==◌, ok, ◌∷◌, List}
use constructie_orchestrator.Base.Dict.{get}
use constructie_orchestrator.Base.Text.{lower, trim, split_spaces}
use constructie_orchestrator.Policy.Types.{
  text, texts, PolicyDecision_eq, PolicyDecision, ActionRequest,
}
use constructie_orchestrator.Policy.RuleText.{rule_text}
use constructie_orchestrator.Policy.Engine.{evaluate}
use constructie_orchestrator.Policy.Processor.{read_only_view}
use constructie_orchestrator.Policy.Classifier.Guards
use constructie_orchestrator.Gateway.Contracts.{ToolExecutionRequest}
use constructie_orchestrator.Gateway.Execute.{Gateway, State, propose, execute, denied_result}

-- A tool request for a git operation with arguments: by the parameters of the git tool, or by the
-- command line under `command`, of any tool.
pub data Asks (request : ToolExecutionRequest) (op : String) (args : List String) : Type 0 where
  by_parameters :
      request.tool_id ≡ "git"
      → get "subcommand" request.parameters ≡ some (text op)
      → get "args" request.parameters ≡ some (texts args)
      → Asks request op args
  by_command_line :
      (command git : String)
      → get "command" request.parameters ≡ some (text command)
      → split_spaces (trim command) ≡ git ∷ op ∷ args
      → lower git ≡ "git"
      → Asks request op args

-- What `execute_refused` states, of a bridge.
abbrev Refuses :
    {W : Type 0}
    → Gateway W
    → ToolExecutionRequest
    → State W
    → W
    → (String → ToolExecutionRequest → ActionRequest)
    → Type 0
Refuses g request s w bridge =
    let action = bridge (g.fresh_id s.world) request in
    let decision = evaluate Guards.inspection (read_only_view s.processor) action in
    propose g.audit_ledger action decision s.world ≡ (w, ok tt)
    → (decision.decision == PolicyDecision.allow) ≡ false
    → execute g request s
      ≡ (record s { world = w }, ok (denied_result request (rule_text decision.policy_rule)))
