-- ===== src/Run/Examples.antt =====
-- A run whose first result is to be repaired, and whose second waits for the owner or is ambiguous.
use constructie_orchestrator.Base.{ℕ, zero, suc, ◌-◌, [], ◌∷◌, none, some, true, ok}
use constructie_orchestrator.Policy.Types.{commit, owner_commit_approved}
use constructie_orchestrator.Policy.Events.{OwnerAuthorityEvent}
use constructie_orchestrator.Workflow.Agents.{AgentRunResult}
use constructie_orchestrator.Workflow.Agents
use constructie_orchestrator.Workflow.Examples.{work_package, usage}
use constructie_orchestrator.Run.Types.{ReviewDecision, ReviewVerdict, fail_repairable, starting}
use constructie_orchestrator.Run.Wait.{Polls}
use constructie_orchestrator.Run.Cycle.{Coordinator, Answers, LoopState}
use constructie_orchestrator.Run.Resume.{FreshIds, ReconciliationOutcome}

abbrev pub coordinator : Coordinator
coordinator = record {
  workflow_run_id = "F";
  correlation_id = "C";
  causation_id = none;
  project_id = "P1";
  canonical_task_id = "T";
  timeout_ms = 10;
  max_repair_attempts = 3;
  stamp = λ n. ("E", n);
}

abbrev pub polls : Agents.AgentRunStatus → Polls
polls status = record { times = λ i. i - 1; get_status = λ i. ok status }

abbrev pub result : AgentRunResult
result = record {
  run_id = "R1";
  status = Agents.completed;
  summary = "done";
  actions_taken = [];
  artifacts = [];
  findings = [];
  evidence = [];
  unresolved_items = [];
  requested_inputs = [];
  side_effects = [];
  usage = usage;
}

abbrev pub verdict : ReviewDecision → ReviewVerdict
verdict decision = record {
  decision = decision;
  findings = "F1" ∷ [];
  repair_package = none;
  review_depth = "FULL";
  lineage = [];
  pending_action = some "git commit";
  pending_gate = some "COMMIT";
  pending_authority_type = some "OWNER_COMMIT_APPROVED";
  next_action = none;
}

abbrev pub reviewed_as : ReviewDecision → Answers
reviewed_as decision = record {
  dispatch = λ wp context. ok (record { run_id = "R1"; status = Agents.created });
  polls = λ run_id. polls Agents.completed;
  get_result = λ run_id. ok result;
  review = λ r request. ok (verdict decision);
  attempt_id = "A2";
  work_package_id = "W2";
}

abbrev pub answers : ReviewDecision → ℕ → Answers
answers decision zero = reviewed_as fail_repairable
answers decision (suc n) = reviewed_as decision

abbrev pub start : LoopState
start = record {
  state = starting;
  wp = work_package;
  attempt_id = "A1";
  revision = 1;
  pending = record { action = none; gate = none; authority_type = none };
  repair_attempts = 0;
  ledger = [];
}

abbrev pub ids : FreshIds
ids = record { fallback = "A0"; attempt_id = "A3"; work_package_id = "W3" }

abbrev pub authority : OwnerAuthorityEvent
authority = record {
  event_id = "O1";
  owner_ref = "owner";
  task_id = "T";
  authority_type = owner_commit_approved;
  bound_to_gate = some commit;
  bound_to_action = some "git commit";
  issued_at = 9;
  correlation_id = "C2";
}

abbrev pub outcome : ReconciliationOutcome
outcome = record {
  safe_to_retry = true;
  correlation_id = "C3";
  causation_id = "E3";
  verified_by = "operator";
  reason = "nothing was done";
}
