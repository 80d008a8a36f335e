-- ===== src/Policy/Processor.antt =====
-- packages/policy/src/context/owner-event-processor.ts: the mutable execution context. A method
-- that throws leaves the processor as it was; one that returns gives the processor's new state. The
-- texts of the audit log are constructors that carry their parts.
pub mod Lifecycle
pub mod Gates
pub mod Invariant
pub mod Opening
use constructie_orchestrator.Base.Dict.{get, set}
use constructie_orchestrator.Base.{
  ℕ, String, List, [], ◌∷◌, ◌++◌, map, Option, none, some, Bool, ◌&&◌, ◌||◌, any, includes, find,
  if◌then◌else◌, ◌==◌, String_eq, Option_eq, Result, ok, err, ◌>>=◌, ◌>>◌, or_fail, check, length,
}
use constructie_orchestrator.Policy.Types.{
  ExecutionGate, ExecutionGate_eq, OwnerAuthorityToken, owner_implementation_approved,
  OwnerAuthorityToken_eq, AuthorityGrantStatus, issued, active, reserved, consumed,
  reconciliation_required, AuthorityGrantStatus_eq, Environment, AuthorityGrantView,
  ReadOnlyExecutionContext,
}
use constructie_orchestrator.Policy.Events.{
  GateTransitionRule, gate_transition_policy, OwnerAuthorityEvent, GateTransitionEvent,
  ApprovedScopeEvent, Presented, sealed, plain,
}

-- Why a gate transition is refused.
pub data Refusal : Type 0 where
  not_defined : Refusal
  wrong_gate : ExecutionGate → Refusal
  token_not_active : OwnerAuthorityToken → Refusal

pub data ProcessorError : Type 0 where
  untrusted_owner_event : ProcessorError
  gate_transition_not_permitted : ExecutionGate → ExecutionGate → Refusal → ProcessorError
  task_mismatch : String → String → ProcessorError
  grant_state : String → AuthorityGrantStatus → AuthorityGrantStatus → ProcessorError
  grant_not_found : String → String → ProcessorError

pub record GrantRecord : Type 0 where
  pub token : OwnerAuthorityToken
  pub task_id : String
  pub status : AuthorityGrantStatus
  pub reserved_for_action_id : Option String
  pub bound_to_gate : Option ExecutionGate
  pub bound_to_action : Option String
  pub issued_at : ℕ

pub data AuditEvent : Type 0 where
  gate_init : ExecutionGate → AuditEvent
  authority_granted : OwnerAuthorityToken → String → AuditEvent
  gate_transition : ExecutionGate → ExecutionGate → AuditEvent
  file_scope_set : ℕ → AuditEvent
  authority_revoked : OwnerAuthorityToken → String → AuditEvent
  grant_used_multi grant_reserved grant_consumed :
      OwnerAuthorityToken → String → String → AuditEvent
  grant_released_for_retry : OwnerAuthorityToken → String → String → AuditEvent
  grant_reconciliation_required : OwnerAuthorityToken → String → String → AuditEvent

pub record OwnerEventProcessor : Type 0 where
  pub task_id : String
  pub gate : ExecutionGate
  pub environment : Environment
  pub grants : List (String × GrantRecord)
  pub approved_file_scope : List String
  pub audit_log : List (ℕ × AuditEvent)

unfoldable pub new_processor : String → ExecutionGate → Environment → ℕ → OwnerEventProcessor
new_processor task_id initial_gate environment now = record {
  task_id = task_id;
  gate = initial_gate;
  environment = environment;
  grants = [];
  approved_file_scope = [];
  audit_log = (now, gate_init initial_gate) ∷ [];
}

abbrev pub log : ℕ → AuditEvent → OwnerEventProcessor → OwnerEventProcessor
log now e p = record p { audit_log = p.audit_log ++ (now, e) ∷ [] }

unfoldable pub has_active_grant : OwnerAuthorityToken → List (String × GrantRecord) → Bool
has_active_grant token grants = any (λ g. g.1.token == token && g.1.status == active) grants

abbrev pub grant_view : String × GrantRecord → AuthorityGrantView
grant_view (id, g) = record {
  grant_id = id;
  token = g.token;
  task_id = g.task_id;
  status = g.status;
  reserved_for_action_id = g.reserved_for_action_id;
  bound_to_gate = g.bound_to_gate;
  bound_to_action = g.bound_to_action;
  issued_at = g.issued_at;
}

unfoldable pub read_only_view : OwnerEventProcessor → ReadOnlyExecutionContext
read_only_view p = record {
  gate = p.gate;
  environment = p.environment;
  approved_files = p.approved_file_scope;
  active_authorities = map grant_view p.grants;
  has_authority = λ token. has_active_grant token p.grants;
  is_file_approved = λ path. includes path p.approved_file_scope;
}

abbrev pub Outcome : Type 0
Outcome = Result ProcessorError OwnerEventProcessor

-- The brand check and the task check that the three handlers begin with.
abbrev open_event : {E : Type 0} → Presented E → Result ProcessorError E
open_event (sealed e) = ok e
open_event (plain e) = err untrusted_owner_event

abbrev check_task : OwnerEventProcessor → String → Result ProcessorError (Unit {0})
check_task p task_id = check (task_id == p.task_id) (task_mismatch p.task_id task_id)

unfoldable pub apply_owner_authority_event :
    ℕ → Presented OwnerAuthorityEvent → OwnerEventProcessor → Outcome
apply_owner_authority_event now presented p = do
  event ← open_event presented
  check_task p event.task_id
  ok (
      log now (authority_granted event.authority_type event.event_id) (record p {
        grants =
            set event.event_id
              (record {
                token = event.authority_type;
                task_id = event.task_id;
                status = active;
                reserved_for_action_id = none;
                bound_to_gate = event.bound_to_gate;
                bound_to_action = event.bound_to_action;
                issued_at = event.issued_at;
              })
              p.grants;
      }))

unfoldable pub find_rule : ExecutionGate → ExecutionGate → Option GateTransitionRule
find_rule from_gate to_gate =
    find (λ r. r.from_gate == from_gate && r.to_gate == to_gate) gate_transition_policy

-- `rule.requiredToken && !this._hasActiveGrant(rule.requiredToken)` throws.
check_rule_token :
    OwnerEventProcessor
    → GateTransitionEvent
    → Option OwnerAuthorityToken
    → Result ProcessorError (Unit {0})
check_rule_token p event none = ok tt
check_rule_token p event (some token) =
    check (has_active_grant token p.grants)
      (gate_transition_not_permitted event.from_gate event.to_gate (token_not_active token))

check_rule :
    OwnerEventProcessor
    → GateTransitionEvent
    → Option GateTransitionRule
    → Result ProcessorError (Unit {0})
unfolding check_rule_token
check_rule p event none =
    err (gate_transition_not_permitted event.from_gate event.to_gate not_defined)
check_rule p event (some rule) = do
  check (event.from_gate == p.gate)
      (gate_transition_not_permitted event.from_gate event.to_gate (wrong_gate p.gate))
  check_rule_token p event rule.required_token

unfoldable pub transition_gate_from_event :
    ℕ → Presented GateTransitionEvent → OwnerEventProcessor → Outcome
unfolding check_rule
transition_gate_from_event now presented p = do
  event ← open_event presented
  check_task p event.task_id
  check_rule p event (find_rule event.from_gate event.to_gate)
  ok (log now (gate_transition p.gate event.to_gate) (record p { gate = event.to_gate }))

-- A `Set` built from an array: later duplicates are dropped.
unfoldable pub add_all : List String → List String → List String
add_all scope [] = scope
add_all scope (f ∷ fs) = add_all (if includes f scope then scope else scope ++ f ∷ []) fs

unfoldable pub set_approved_scope_from_plan :
    ℕ → Presented ApprovedScopeEvent → OwnerEventProcessor → Outcome
unfolding add_all
set_approved_scope_from_plan now presented p = do
  event ← open_event presented
  check_task p event.task_id
  ok (
      log now (file_scope_set (length event.approved_files))
        (record p { approved_file_scope = add_all [] event.approved_files }))

-- The first grant of the token that is active, reserved or issued.
is_revocable : OwnerAuthorityToken → GrantRecord → Bool
is_revocable token g =
    g.token == token && (g.status == active || g.status == reserved || g.status == issued)

unfoldable pub revoke_grant : ℕ → OwnerAuthorityToken → OwnerEventProcessor → OwnerEventProcessor
unfolding is_revocable
revoke_grant now token p = elim (find (λ g. is_revocable token g.1) p.grants) [
  | none ↦ p
  | some (id, g) ↦
      log now (authority_revoked token id)
        (record p { grants = set id (record g { status = consumed }) p.grants })
]

abbrev find_grant : String → String → OwnerEventProcessor → Result ProcessorError GrantRecord
find_grant grant_id action_id p =
    or_fail (get grant_id p.grants) (grant_not_found grant_id action_id)

unfoldable pub is_multi_use : GrantRecord → Bool
is_multi_use g = g.token == owner_implementation_approved

abbrev pub write : String → GrantRecord → OwnerEventProcessor → OwnerEventProcessor
write grant_id g p = record p { grants = set grant_id g p.grants }

-- The writes of the four operations below to a grant `g`, with their log entries.
abbrev pub reserving : ℕ → String → String → GrantRecord → OwnerEventProcessor → OwnerEventProcessor
reserving now grant_id action_id g p =
    log now (grant_reserved g.token grant_id action_id)
      (write grant_id (record g { status = reserved; reserved_for_action_id = some action_id }) p)

abbrev pub consuming : ℕ → String → String → GrantRecord → OwnerEventProcessor → OwnerEventProcessor
consuming now grant_id action_id g p =
    log now (grant_consumed g.token grant_id action_id)
      (write grant_id (record g { status = consumed }) p)

abbrev pub releasing : ℕ → String → String → GrantRecord → OwnerEventProcessor → OwnerEventProcessor
releasing now grant_id action_id g p =
    log now (grant_released_for_retry g.token grant_id action_id)
      (write grant_id (record g { status = active; reserved_for_action_id = none }) p)

abbrev pub reconciling :
    ℕ → String → String → GrantRecord → OwnerEventProcessor → OwnerEventProcessor
reconciling now grant_id action_id g p =
    log now (grant_reconciliation_required g.token grant_id action_id)
      (write grant_id (record g { status = reconciliation_required }) p)

-- `_reserveGrant`
unfoldable pub reserve_grant : ℕ → String → String → OwnerEventProcessor → Outcome
reserve_grant now grant_id action_id p = do
  g ← find_grant grant_id action_id p
  let single = do
    check (g.status == active) (grant_state grant_id active g.status)
    ok (reserving now grant_id action_id g p)
  if is_multi_use g then ok (log now (grant_used_multi g.token grant_id action_id) p) else single

-- `_consumeGrant`
unfoldable pub consume_grant : ℕ → String → String → OwnerEventProcessor → Outcome
consume_grant now grant_id action_id p = do
  g ← find_grant grant_id action_id p
  let single = do
    check (g.status == reserved && g.reserved_for_action_id == some action_id)
        (grant_state grant_id reserved g.status)
    ok (consuming now grant_id action_id g p)
  if is_multi_use g then ok p else single

-- `_releaseGrantForRetry`: the status is not tested.
unfoldable pub release_grant_for_retry : ℕ → String → String → OwnerEventProcessor → Outcome
release_grant_for_retry now grant_id action_id p = do
  g ← find_grant grant_id action_id p
  if is_multi_use g then ok p else ok (releasing now grant_id action_id g p)

-- `_requireReconciliation`: the status is not tested.
unfoldable pub require_reconciliation : ℕ → String → String → OwnerEventProcessor → Outcome
require_reconciliation now grant_id action_id p = do
  g ← find_grant grant_id action_id p
  if is_multi_use g then ok p else ok (reconciling now grant_id action_id g p)
