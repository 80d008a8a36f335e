-- ===== src/Domain/Examples.antt =====
-- A project, a work item that waits for verification, its evidence and a verification.
use constructie_orchestrator.Base.{String, [], ◌∷◌, none, some}
use constructie_orchestrator.Domain.Project.{Project, active}
use constructie_orchestrator.Domain.WorkItem.{WorkItem, verification_required, task}
use constructie_orchestrator.Domain.Evidence.{
  Hashing, EvidenceRecord, VerificationRecord, agent_result, current, test, pass,
}

-- Every digest is the same text.
abbrev pub hashing : Hashing
hashing = record { sha256_of_json = λ fields. "digest"; iso_string = λ t. "1970" }

abbrev pub project : Project
project = record {
  id = "P1";
  slug = "p";
  name = "Project";
  lifecycle_state = active;
  revision = 3;
  created_at = 0;
  updated_at = 0;
}

abbrev pub item : WorkItem
item = record {
  id = "T1";
  project_id = "P1";
  parent_id = none;
  item_type = task;
  objective = "build";
  lifecycle_state = verification_required;
  revision = 4;
  evidence_requirements = [];
  current_attempt_id = none;
  created_at = 0;
  updated_at = 0;
}

abbrev pub evidence : String → String → EvidenceRecord
evidence id claim = record {
  id = id;
  project_id = "P1";
  run_id = "R1";
  work_item_id = "T1";
  attempt_id = none;
  approval_id = none;
  agent_id = none;
  artifact_id = none;
  claim = claim;
  source_type = agent_result;
  source_ref = "ref";
  scm_commit_sha = none;
  deployment_uri = none;
  currentness = current;
  digest = some "digest";
  observed_at = 0;
  created_at = 0;
}

abbrev pub passed_test : VerificationRecord
passed_test = record {
  id = "V1";
  project_id = "P1";
  run_id = "R1";
  work_item_id = "T1";
  attempt_id = none;
  verification_type = test;
  status = pass;
  evidence_ids = "E1" ∷ [];
  verifier_ref = "verifier";
  completion_decision_id = none;
  digest = some "digest";
  verified_at = 0;
  created_at = 0;
}
