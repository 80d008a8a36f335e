-- ===== src/Work/Examples.antt =====
-- A work item that is ready, and the stores of its first attempt.
use constructie_orchestrator.Base.{ℕ, String, List, [], ◌∷◌, none, some, Bool, true}
use constructie_orchestrator.Domain.WorkItem.{
  WorkItem, ready, assigned, task, Attempt, NewAttempt, AttemptState, not_started, starting,
  running,
}
use constructie_orchestrator.Domain.WorkItem
use constructie_orchestrator.Work.Store.{
  WorkStore, AttemptRow, ItemTransition, AttemptStart, AttemptTransition,
}

abbrev pub ready_item : WorkItem
ready_item = record {
  id = "T1";
  project_id = "P1";
  parent_id = none;
  item_type = task;
  objective = "build";
  lifecycle_state = ready;
  revision = 4;
  evidence_requirements = [];
  current_attempt_id = none;
  created_at = 0;
  updated_at = 0;
}

abbrev pub assigned_to : ℕ → WorkItem
assigned_to now = record ready_item {
  lifecycle_state = assigned;
  revision = 5;
  current_attempt_id = some "A1";
  updated_at = now;
}

abbrev pub running_at : ℕ → WorkItem
running_at now = record ready_item {
  lifecycle_state = WorkItem.running;
  revision = 6;
  current_attempt_id = some "A1";
  updated_at = now;
}

abbrev pub attempt : AttemptState → ℕ → ℕ → Attempt
attempt state number now = record {
  id = "A1";
  project_id = "P1";
  work_item_id = "T1";
  attempt_number = number;
  state = state;
  work_package_version = 1;
  agent_run_id = none;
  agent_adapter_id = none;
  started_at = none;
  ended_at = none;
  created_at = 0;
  updated_at = now;
}

abbrev pub row : AttemptState → Bool → ℕ → ℕ → AttemptRow
row state active number now = record { attempt = attempt state number now; active = active }

abbrev pub start : String → AttemptStart
start id = record {
  attempt = record {
    id = id;
    project_id = "P1";
    work_item_id = "T1";
    state = not_started;
    work_package_version = 1;
    agent_run_id = none;
    agent_adapter_id = none;
    started_at = none;
    ended_at = none;
    created_at = 0;
    updated_at = 0;
  };
  expected_revision = 4;
}

abbrev pub store : WorkItem → List (String × AttemptRow) → WorkStore
store item rows = record { items = ("T1", item) ∷ []; attempts = rows }

-- Before the attempt, after its start, after its first move, and with the item running.
abbrev pub before : WorkStore
before = store ready_item []

abbrev pub begun : WorkStore
begun = store (assigned_to 7) (("A1", row not_started true 1 0) ∷ [])

abbrev pub moving : WorkStore
moving = store (assigned_to 7) (("A1", row starting true 1 8) ∷ [])

abbrev pub going : WorkStore
going = store (running_at 9) (("A1", row starting true 1 8) ∷ [])

abbrev pub to_starting : AttemptTransition
to_starting = record { attempt_id = "A1"; to = starting }

abbrev pub to_running : ItemTransition
to_running = record { work_item_id = "T1"; expected_revision = 5; to = WorkItem.running }
