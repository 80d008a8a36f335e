-- ===== src/Domain/WorkItem.antt =====
-- packages/domain/src/work-item.ts: the life cycles of a work item and of an attempt.
use constructie_orchestrator.Base.{
  ℕ, String, List, [], ◌∷◌, Option, none, some, Bool, Eq, enum_eq, includes, Result, check,
}

pub data WorkItemLifecycleState : Type 0 where
  draft ready queued assigned running waiting blocked review_required : WorkItemLifecycleState
  verification_required repair_required recovery_required completed : WorkItemLifecycleState
  cancelled superseded : WorkItemLifecycleState

unfoldable pub WorkItemLifecycleState-discrete : Discrete WorkItemLifecycleState
WorkItemLifecycleState-discrete = hlevel

instance abbrev pub WorkItemLifecycleState_eq : Eq WorkItemLifecycleState
WorkItemLifecycleState_eq = enum_eq WorkItemLifecycleState-discrete

pub data AttemptState : Type 0 where
  not_started starting running succeeded failed timed_out interrupted cancelled : AttemptState
  unknown : AttemptState

unfoldable pub AttemptState-discrete : Discrete AttemptState
AttemptState-discrete = hlevel

instance abbrev pub AttemptState_eq : Eq AttemptState
AttemptState_eq = enum_eq AttemptState-discrete

unfoldable pub active_attempt_states : List AttemptState
active_attempt_states = not_started ∷ starting ∷ AttemptState.running ∷ unknown ∷ []

unfoldable pub terminal_attempt_states : List AttemptState
terminal_attempt_states = succeeded ∷ failed ∷ timed_out ∷ interrupted ∷ AttemptState.cancelled ∷ []

pub data WorkItemType : Type 0 where
  milestone feature task subtask recovery_task verification_task review_task : WorkItemType
  audit_task deployment_task owner_action_task external_wait_task : WorkItemType

pub record WorkItem : Type 0 where
  pub id : String
  pub project_id : String
  pub parent_id : Option String
  pub item_type : WorkItemType
  pub objective : String
  pub lifecycle_state : WorkItemLifecycleState
  pub revision : ℕ
  pub evidence_requirements : List String
  pub current_attempt_id : Option String
  pub created_at : ℕ
  pub updated_at : ℕ

pub record Attempt : Type 0 where
  pub id : String
  pub project_id : String
  pub work_item_id : String
  pub attempt_number : ℕ
  pub state : AttemptState
  pub work_package_version : ℕ
  pub agent_run_id : Option String
  pub agent_adapter_id : Option String
  pub started_at : Option ℕ
  pub ended_at : Option ℕ
  pub created_at : ℕ
  pub updated_at : ℕ

-- An attempt whose number the store is still to give.
pub record NewAttempt : Type 0 where
  pub id : String
  pub project_id : String
  pub work_item_id : String
  pub state : AttemptState
  pub work_package_version : ℕ
  pub agent_run_id : Option String
  pub agent_adapter_id : Option String
  pub started_at : Option ℕ
  pub ended_at : Option ℕ
  pub created_at : ℕ
  pub updated_at : ℕ

unfoldable pub work_item_transitions : WorkItemLifecycleState → List WorkItemLifecycleState
work_item_transitions draft = ready ∷ cancelled ∷ superseded ∷ []
work_item_transitions ready = queued ∷ assigned ∷ blocked ∷ waiting ∷ cancelled ∷ superseded ∷ []
work_item_transitions queued = assigned ∷ ready ∷ blocked ∷ waiting ∷ cancelled ∷ superseded ∷ []
work_item_transitions assigned =
    running ∷ ready ∷ recovery_required ∷ blocked ∷ waiting ∷ cancelled ∷ superseded ∷ []
work_item_transitions running =
    review_required ∷ verification_required ∷ repair_required ∷ recovery_required ∷ waiting
    ∷ blocked ∷ completed ∷ cancelled ∷ superseded ∷ []
work_item_transitions waiting = ready ∷ blocked ∷ cancelled ∷ superseded ∷ []
work_item_transitions blocked = ready ∷ waiting ∷ cancelled ∷ superseded ∷ []
work_item_transitions review_required =
    verification_required ∷ repair_required ∷ blocked ∷ waiting ∷ completed ∷ cancelled ∷ superseded
    ∷ []
work_item_transitions verification_required =
    completed ∷ repair_required ∷ recovery_required ∷ blocked ∷ waiting ∷ cancelled ∷ superseded
    ∷ []
work_item_transitions repair_required = ready ∷ blocked ∷ waiting ∷ cancelled ∷ superseded ∷ []
work_item_transitions recovery_required = ready ∷ waiting ∷ blocked ∷ cancelled ∷ superseded ∷ []
work_item_transitions completed = verification_required ∷ ready ∷ superseded ∷ []
work_item_transitions cancelled = []
work_item_transitions superseded = []

unfoldable pub attempt_transitions : AttemptState → List AttemptState
attempt_transitions not_started = starting ∷ cancelled ∷ []
attempt_transitions starting = running ∷ failed ∷ timed_out ∷ interrupted ∷ cancelled ∷ unknown ∷ []
attempt_transitions running =
    succeeded ∷ failed ∷ timed_out ∷ interrupted ∷ cancelled ∷ unknown ∷ []
attempt_transitions unknown =
    running ∷ succeeded ∷ failed ∷ timed_out ∷ interrupted ∷ cancelled ∷ []
attempt_transitions _ = []

-- The transition errors, and what the other domain services throw.
pub data DomainError : Type 0 where
  work_item_transition_invalid : WorkItemLifecycleState → WorkItemLifecycleState → DomainError
  attempt_transition_invalid : AttemptState → AttemptState → DomainError

unfoldable pub assert_work_item_transition :
    WorkItemLifecycleState → WorkItemLifecycleState → Result DomainError (Unit {0})
assert_work_item_transition from to =
    check (includes to (work_item_transitions from)) (work_item_transition_invalid from to)

unfoldable pub assert_attempt_transition :
    AttemptState → AttemptState → Result DomainError (Unit {0})
assert_attempt_transition from to =
    check (includes to (attempt_transitions from)) (attempt_transition_invalid from to)

unfoldable pub is_active_attempt_state : AttemptState → Bool
is_active_attempt_state state = includes state active_attempt_states

unfoldable pub create_work_item :
    String → String → Option String → WorkItemType → String → Option (List String) → ℕ → WorkItem
create_work_item id project_id parent_id item_type objective requirements now = record {
  id = id;
  project_id = project_id;
  parent_id = parent_id;
  item_type = item_type;
  objective = objective;
  lifecycle_state = draft;
  revision = 1;
  evidence_requirements = elim requirements [
    | none ↦ "AGENT_RESULT_VERIFICATION" ∷ []
    | some r ↦ r
  ];
  current_attempt_id = none;
  created_at = now;
  updated_at = now;
}
