-- ===== src/Delivery/Tests.antt =====
-- A concrete delivery: a completed work item, reconciled and decided complete.
use constructie_orchestrator.Base.{◌≡◌, refl, List, [], ◌∷◌, ok, ℕ_eq}
use constructie_orchestrator.Domain.WorkItem.{WorkItem, completed, WorkItemLifecycleState-discrete}
use constructie_orchestrator.Domain.Evidence.{
  EvidenceRecord, VerificationStatus-discrete, EvidenceCurrentness-discrete,
}
use constructie_orchestrator.Domain.Verification.{evidence_by_id}
use constructie_orchestrator.Domain.Examples.{project, item, evidence, passed_test}
use constructie_orchestrator.Delivery.Reconciliation.{
  ReconciliationInput, pass, reconcile, conflicts, choose_state, snapshot, unique, scoped_evidence,
  scoped_verifications, support_conflicts, reference_conflicts, code_text,
  ReconciliationState-discrete,
}
use constructie_orchestrator.Delivery.Completion.{
  CompletionEvaluationInput, complete, Draft, draft, weigh, cmo_scope, cmo_residual,
  resolve_cmos_for_project, known_cmo_rules, scoped, failure_scope, scoped_current_evidence,
  valid_verifications, is_fresh,
}
use constructie_orchestrator.Delivery.Complete.{IsComplete, draft-complete}
use constructie_orchestrator.Delivery.Pass.{IsReconciled, reconcile-pass}

abbrev ended : WorkItem
ended = record item { lifecycle_state = completed }

abbrev records : List EvidenceRecord
records =
    evidence "E1" "CMO-01"
    ∷ evidence "E2" "CMO-02"
    ∷ evidence "E5" "CMO-05"
    ∷ evidence "E14" "CMO-14"
    ∷ []

abbrev reconciled : ReconciliationInput
reconciled = record {
  project = project;
  work_item = ended;
  evidence = records;
  verifications = passed_test ∷ [];
  now = 9;
}

reconciles : (reconcile reconciled "u").state ≡ pass
unfolding reconcile conflicts choose_state snapshot unique scoped_evidence scoped_verifications
    support_conflicts reference_conflicts code_text evidence_by_id VerificationStatus-discrete
    EvidenceCurrentness-discrete WorkItemLifecycleState-discrete
reconciles = refl

reconcile-pass_example : IsReconciled reconciled
reconcile-pass_example = reconcile-pass reconciled "u" reconciles

abbrev decided : CompletionEvaluationInput
decided = record {
  project = project;
  work_item = ended;
  completion_object_ref = "work-item";
  verifications = passed_test ∷ [];
  evidence = records;
  reconciliation = reconcile reconciled "u";
  now = 10;
}

decides : (d : Draft) × (draft decided ≡ ok d) × (d.state ≡ complete)
unfolding draft weigh cmo_scope cmo_residual resolve_cmos_for_project known_cmo_rules scoped
    failure_scope scoped_current_evidence valid_verifications is_fresh reconcile conflicts
    choose_state snapshot unique scoped_evidence scoped_verifications support_conflicts
    reference_conflicts code_text evidence_by_id VerificationStatus-discrete
    EvidenceCurrentness-discrete WorkItemLifecycleState-discrete ReconciliationState-discrete
decides = (_, refl, refl)

draft-complete_example : IsComplete decided
draft-complete_example = draft-complete decided decides.0 decides.1 decides.2
