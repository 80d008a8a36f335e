-- ===== src/Gateway/Contracts.antt =====
-- packages/contracts/src/tool/contracts.ts: requests, evaluations and results of the tool gateway.
-- The schemas' `min(1)` on texts is `valid_request` and `valid_result`; what TypeScript's types give
-- (the other fields, the schema version) is in the types.
use constructie_orchestrator.Base.{
  String, List, [], ◌∷◌, Option, Bool, not, ◌&&◌, all, ◌==◌, String_eq, Eq, enum_eq,
}
use constructie_orchestrator.Policy.Types.{ParameterValue}

pub data ToolExecutionStatus : Type 0 where
  succeeded failed denied cancelled timed_out unknown : ToolExecutionStatus

pub record ToolExecutionRequest : Type 0 where
  pub request_id : String
  pub project_id : String
  pub actor_ref : String
  pub work_item_ref : String
  pub work_package_ref : String
  pub tool_id : String
  pub operation_id : String
  pub target_resource : String
  pub environment : String
  pub parameters : List (String × ParameterValue)
  pub authority_context_ref : String
  pub idempotency_key : String
  pub correlation_id : String

pub data ToolPolicyDecision : Type 0 where
  allow deny owner_decision_required external_action_required : ToolPolicyDecision
  require_additional_control unresolved : ToolPolicyDecision

unfoldable pub ToolPolicyDecision-discrete : Discrete ToolPolicyDecision
ToolPolicyDecision-discrete = hlevel

instance abbrev pub ToolPolicyDecision_eq : Eq ToolPolicyDecision
ToolPolicyDecision_eq = enum_eq ToolPolicyDecision-discrete

pub record ToolPolicyEvaluation : Type 0 where
  pub request_id : String
  pub decision : ToolPolicyDecision
  pub reason_code : String
  pub policy_refs : List String
  pub authority_refs : List String

pub record AuthorizedToolRequest : Type 0 where
  pub request : ToolExecutionRequest
  pub policy : ToolPolicyEvaluation

pub record Artifact : Type 0 where
  pub artifact_id : String
  pub kind : String
  pub ref : String

pub record EvidenceCandidate : Type 0 where
  pub kind : String
  pub claim_supported : String
  pub source_ref : String

pub record ToolExecutionResult : Type 0 where
  pub execution_id : String
  pub request_id : String
  pub tool_id : String
  pub operation_id : String
  pub status : ToolExecutionStatus
  pub summary : String
  pub observed_effect : Option String
  pub artifacts : List Artifact
  pub evidence_candidates : List EvidenceCandidate
  pub side_effects : List String
  pub reconciliation_required : Bool

-- `z.string().min(1)`
abbrev filled : String → Bool
filled s = not (s == "")

unfoldable pub valid_request : ToolExecutionRequest → Bool
valid_request r =
    all (λ s. filled s)
      (r.request_id ∷ r.project_id ∷ r.actor_ref ∷ r.work_item_ref ∷ r.work_package_ref ∷ r.tool_id
        ∷ r.operation_id ∷ r.target_resource ∷ r.environment ∷ r.authority_context_ref
        ∷ r.idempotency_key ∷ r.correlation_id ∷ [])

unfoldable pub valid_authorized : AuthorizedToolRequest → Bool
unfolding valid_request
valid_authorized a =
    valid_request a.request && (filled a.policy.request_id && filled a.policy.reason_code)

unfoldable pub valid_result : ToolExecutionResult → Bool
valid_result r =
    all (λ s. filled s) (r.execution_id ∷ r.request_id ∷ r.tool_id ∷ r.operation_id ∷ [])
    && (all (λ a. filled a.artifact_id && (filled a.kind && filled a.ref)) r.artifacts
        && all (λ e. filled e.kind && (filled e.claim_supported && filled e.source_ref))
            r.evidence_candidates)
