-- ===== src/Workflow/Examples.antt =====
-- A work package, agents that answer or not, and databases before an execution and after an unknown
-- run.
use constructie_orchestrator.Base.{ℕ, [], ◌∷◌, some, true, ok}
use constructie_orchestrator.Domain.WorkItem.{unknown, recovery_required}
use constructie_orchestrator.Work.Examples.{ready_item, attempt, row, store, before}
use constructie_orchestrator.Workflow.Agents.{
  AgentAdapter, AgentRunHandle, AgentRunStatus, AgentUsage, WorkPackage, created, completed,
}
use constructie_orchestrator.Workflow.Agents
use constructie_orchestrator.Workflow.Engine.{ExecuteWorkItemInput}
use constructie_orchestrator.Workflow.Resume.{ResumeWorkItemInput}
use constructie_orchestrator.Workflow.Database.{Database}

abbrev pub work_package : WorkPackage
work_package = record {
  work_package_id = "W1";
  version = 1;
  project_id = "P1";
  work_item_id = "T1";
  completion_object_ref = "C1";
  objective = "build";
  authoritative_inputs = [];
  scope_refs = [];
  constraints = [];
  authority_context_ref = "X1";
  required_capabilities = [];
  allowed_actions = [];
  forbidden_actions = [];
  tools_allowed = [];
  expected_artifacts_out = [];
  verification_requirements = [];
  evidence_requirements = [];
  dependencies = [];
  stop_conditions = [];
}

abbrev pub usage : AgentUsage
usage = record {
  input_units = 10;
  output_units = 2;
  estimated_cost = 0;
  currency = "USD";
  cost_status = Agents.known;
}

-- An agent that takes the run up and later reports the status.
abbrev pub agent : AgentRunStatus → AgentAdapter
agent status = record {
  execute = λ work context. ok (record { run_id = "R1"; status = created });
  resume = λ run_id context. ok (record { run_id = run_id; status = created });
  get_status = λ run_id. ok status;
  get_artifacts = λ run_id. ok [];
  get_evidence = λ run_id. ok [];
  get_usage = λ run_id. ok usage;
}

abbrev pub clock : ℕ → ℕ
clock n = n

abbrev pub fresh : Database
fresh = record { store = before; readings = 7 }

abbrev pub execution : ExecuteWorkItemInput
execution = record {
  work_item = ready_item;
  work_package = work_package;
  adapter = agent completed;
  correlation_id = "C";
  workflow_run_id = "F";
  now = 0;
}

-- What the engine leaves after a run whose status is unknown.
abbrev pub left_unknown : Database
left_unknown = record {
  store =
      store (record ready_item { lifecycle_state = recovery_required; revision = 7 })
        (("A1", row unknown true 1 0) ∷ []);
  readings = 20;
}

abbrev pub resumption : ResumeWorkItemInput
resumption = record {
  work_item = record ready_item { lifecycle_state = recovery_required; revision = 7 };
  attempt = record (attempt unknown 1 0) { agent_run_id = some "R1" };
  work_package = work_package;
  adapter = agent completed;
  correlation_id = "C";
  workflow_run_id = "F";
}
