-- ===== src/Work/Store.antt =====
-- packages/persistence/src/work/work-store.ts: work items and attempts in a database. A transaction
-- reads first and writes later, and other transactions may commit in between: it takes the store
-- that it reads and the store that it writes to. One that throws leaves no write. The rows of other
-- tables, and the references to them, are not modelled.
use constructie_orchestrator.Base.{
  ℕ, ◌+◌, zero, suc, String, List, [], ◌∷◌, Option, none, some, Bool, true, false, not,
  if◌then◌else◌, ◌==◌, ◌&&◌, ltb, String_eq, ℕ_eq, Option_eq, any, Result, err, ok, or_fail, check,
  ◌>>=◌, ◌>>◌,
}
use constructie_orchestrator.Base.Dict.{get, set}
use constructie_orchestrator.Domain.WorkItem.{
  WorkItem, WorkItemLifecycleState, assigned, Attempt, NewAttempt, AttemptState, running,
  AttemptState_eq, DomainError, assert_work_item_transition, assert_attempt_transition,
  is_active_attempt_state,
}

-- A row of the table of attempts.
pub record AttemptRow : Type 0 where
  pub attempt : Attempt
  pub active : Bool

pub record WorkStore : Type 0 where
  pub items : List (String × WorkItem)
  pub attempts : List (String × AttemptRow)

pub data WorkStoreError : Type 0 where
  not_found : String → WorkStoreError
  unique_violation : String → WorkStoreError
  revision_conflict : String → ℕ → WorkStoreError
  active_attempt_exists : String → WorkStoreError
  attempt_state_conflict : String → AttemptState → WorkStoreError
  invalid_transition : DomainError → WorkStoreError

pub record ItemTransition : Type 0 where
  pub work_item_id : String
  pub expected_revision : ℕ
  pub to : WorkItemLifecycleState

pub record AttemptStart : Type 0 where
  pub attempt : NewAttempt
  pub expected_revision : ℕ

pub record RunBinding : Type 0 where
  pub attempt_id : String
  pub agent_run_id : String
  pub agent_adapter_id : String

pub record AttemptTransition : Type 0 where
  pub attempt_id : String
  pub to : AttemptState

unfoldable pub domain_check : Result DomainError (Unit {0}) → Result WorkStoreError (Unit {0})
domain_check (err e) = err (invalid_transition e)
domain_check (ok u) = ok u

-- `updateMany` on the row of one key: how many rows passed the rest of the `where`, and the table.
unfoldable pub update_found :
    {V : Type 0}
    → String
    → (V → Bool)
    → (V → V)
    → List (String × V)
    → Option V
    → ℕ × List (String × V)
update_found k p f m none = (0, m)
update_found k p f m (some v) = if p v then (1, set k (f v) m) else (0, m)

unfoldable pub update_many :
    {V : Type 0} → String → (V → Bool) → (V → V) → List (String × V) → ℕ × List (String × V)
update_many k p f m = update_found k p f m (get k m)

-- `if (count === 0) throw e;`
unfoldable pub counted : {T : Type 0} → WorkStoreError → ℕ × T → Result WorkStoreError T
counted e (zero, m) = err e
counted e (suc n, m) = ok m

unfoldable pub is_none : {A : Type 0} → Option A → Bool
is_none none = true
is_none (some a) = false

unfoldable pub create_work_item :
    WorkItem → WorkStore → Result WorkStoreError (WorkItem × WorkStore)
create_work_item item s =
    check (is_none (get item.id s.items)) (unique_violation item.id)
    >> ok (item, record s { items = set item.id item s.items })

unfoldable pub moved_item : WorkItemLifecycleState → ℕ → WorkItem → WorkItem
moved_item to now i = record i { lifecycle_state = to; revision = i.revision + 1; updated_at = now }

unfoldable pub transition_work_item :
    ItemTransition → ℕ → WorkStore → WorkStore → Result WorkStoreError (WorkItem × WorkStore)
transition_work_item input now read s =
    let k = input.work_item_id in
    let conflict = revision_conflict k input.expected_revision in
    or_fail (get k read.items) (not_found k) >>= λ current.
    check (current.revision == input.expected_revision) conflict
    >> domain_check (assert_work_item_transition current.lifecycle_state input.to)
    >> (counted conflict (
          update_many k (λ i. i.revision == input.expected_revision) (moved_item input.to now)
            s.items)
        >>= λ items. or_fail (get k items) (not_found k) >>= λ updated.
            ok (updated, record s { items = items }))

-- The largest attempt number of a work item, and 0 when it has none.
unfoldable pub max_number : String → List (String × AttemptRow) → ℕ
max_number w [] = 0
max_number w ((k, row) ∷ rows) =
    let rest = max_number w rows in
    if row.attempt.work_item_id == w
    then if ltb rest row.attempt.attempt_number then row.attempt.attempt_number else rest
    else rest

unfoldable pub numbered : NewAttempt → ℕ → Attempt
numbered a n = record {
  id = a.id;
  project_id = a.project_id;
  work_item_id = a.work_item_id;
  attempt_number = n;
  state = a.state;
  work_package_version = a.work_package_version;
  agent_run_id = a.agent_run_id;
  agent_adapter_id = a.agent_adapter_id;
  started_at = a.started_at;
  ended_at = a.ended_at;
  created_at = a.created_at;
  updated_at = a.updated_at;
}

unfoldable pub has_number : String → ℕ → List (String × AttemptRow) → Bool
has_number w n rows =
    any
      (λ (e : String × AttemptRow).
        e.1.attempt.work_item_id == w && e.1.attempt.attempt_number == n)
      rows

-- `attempt.create`: the id is new, and so is the number within the work item.
unfoldable pub create_attempt :
    Attempt → List (String × AttemptRow) → Result WorkStoreError (List (String × AttemptRow))
create_attempt a rows =
    check (is_none (get a.id rows)) (unique_violation a.id)
    >> check (not (has_number a.work_item_id a.attempt_number rows)) (unique_violation a.id)
    >> ok (set a.id (record { attempt = a; active = is_active_attempt_state a.state }) rows)

unfoldable pub has_active : String → List (String × AttemptRow) → Bool
has_active w rows =
    any (λ (e : String × AttemptRow). e.1.attempt.work_item_id == w && e.1.active) rows

unfoldable pub assigned_item : String → ℕ → WorkItem → WorkItem
assigned_item attempt_id now i = record i {
  lifecycle_state = assigned;
  current_attempt_id = some attempt_id;
  revision = i.revision + 1;
  updated_at = now;
}

unfoldable pub start_attempt :
    AttemptStart
    → ℕ
    → WorkStore
    → WorkStore
    → Result WorkStoreError ((WorkItem × Attempt) × WorkStore)
start_attempt input now read s =
    let w = input.attempt.work_item_id in
    let conflict = revision_conflict w input.expected_revision in
    let attempt = numbered input.attempt (max_number w s.attempts + 1) in
    or_fail (get w read.items) (not_found w) >>= λ work.
    check (work.revision == input.expected_revision) conflict
    >> domain_check (assert_work_item_transition work.lifecycle_state assigned)
    >> check (not (has_active w read.attempts)) (active_attempt_exists w)
    >> (counted conflict (
          update_many w (λ i. i.revision == input.expected_revision)
            (assigned_item input.attempt.id now) s.items)
        >>= λ items. create_attempt attempt s.attempts >>= λ attempts.
            or_fail (get w items) (not_found w) >>= λ updated.
            ok ((updated, attempt), record { items = items; attempts = attempts }))

unfoldable pub get_work_item : String → WorkStore → Result WorkStoreError WorkItem
get_work_item k s = or_fail (get k s.items) (not_found k)

unfoldable pub get_attempt : String → WorkStore → Result WorkStoreError Attempt
get_attempt k s = or_fail (get k s.attempts) (not_found k) >>= λ row. ok row.attempt

unfoldable pub bound_row : RunBinding → ℕ → AttemptRow → AttemptRow
bound_row input now row = record row {
  attempt = record (row.attempt) {
    agent_run_id = some input.agent_run_id;
    agent_adapter_id = some input.agent_adapter_id;
    updated_at = now;
  };
}

unfoldable pub bind_agent_run :
    RunBinding → ℕ → WorkStore → Result WorkStoreError (Attempt × WorkStore)
bind_agent_run input now s =
    or_fail (get input.attempt_id s.attempts) (not_found input.attempt_id) >>= λ row.
    let bound = bound_row input now row in
    ok (bound.attempt, record s { attempts = set input.attempt_id bound s.attempts })

-- The row after a move; `started` is the start of the run as the transaction read it.
unfoldable pub moved_row : AttemptState → Option ℕ → ℕ → AttemptRow → AttemptRow
moved_row to started now row =
    let active = is_active_attempt_state to in
    record {
      attempt = record (row.attempt) {
        state = to;
        ended_at = if active then none else some now;
        started_at = if to == running && started == none then some now else row.attempt.started_at;
        updated_at = now;
      };
      active = active;
    }

unfoldable pub released_item : ℕ → WorkItem → WorkItem
released_item now i = record i { current_attempt_id = none; updated_at = now }

-- `if (!active)`: the work item lets go of the attempt.
unfoldable pub released_items :
    AttemptState → Attempt → ℕ → List (String × WorkItem) → List (String × WorkItem)
released_items to a now items =
    if is_active_attempt_state to
    then items
    else (update_many a.work_item_id (λ i. i.current_attempt_id == some a.id) (released_item now)
        items).1

unfoldable pub transition_attempt :
    AttemptTransition → ℕ → WorkStore → WorkStore → Result WorkStoreError (Attempt × WorkStore)
transition_attempt input now read s =
    let k = input.attempt_id in
    or_fail (get k read.attempts) (not_found k) >>= λ current.
    let from = current.attempt.state in
    domain_check (assert_attempt_transition from input.to)
    >> (counted (attempt_state_conflict k from) (
          update_many k (λ row. row.attempt.state == from)
            (moved_row input.to current.attempt.started_at now) s.attempts)
        >>= λ attempts. or_fail (get k attempts) (not_found k) >>= λ row. ok (
          row.attempt,
          record {
            items = released_items input.to current.attempt now s.items;
            attempts = attempts;
          },
        ))
