-- ===== src/Domain/Tests.antt =====
-- Concrete histories of a work item, and concrete verifications.
use constructie_orchestrator.Base.Text.{is_space}
use constructie_orchestrator.Base.{ℕ, ◌≡◌, ◌≢◌, refl, [], ◌∷◌, none, some, ok}
use constructie_orchestrator.Domain.WorkItem.{
  WorkItem, ready, assigned, recovery_required, completed, review_required, verification_required,
  repair_required, work_item_transitions, assert_work_item_transition,
  WorkItemLifecycleState-discrete,
}
use constructie_orchestrator.Domain.Lifecycle.{NeverRan, created, moved, NeverRan-unfinished}
use constructie_orchestrator.Domain.Evidence.{
  pass, test, matches_digest, verify_evidence_integrity, verify_verification_integrity,
  compute_evidence_digest, compute_verification_digest, VerificationStatus-discrete,
  EvidenceCurrentness-discrete,
}
use constructie_orchestrator.Domain.Verification.{
  assert_verification_can_complete_work_item, check_supports, check_digests, evidence_by_id,
  has_digest, is_blank, Stores, VerificationInput, record_verification_and_resolve, resolve,
}
use constructie_orchestrator.Domain.Verification
use constructie_orchestrator.Domain.Completing.{
  CanComplete, assert_verification_can_complete_work_item-ok,
}
use constructie_orchestrator.Domain.Examples.{hashing, item, evidence, passed_test}

to_recovery : NeverRan recovery_required
unfolding assert_work_item_transition work_item_transitions WorkItemLifecycleState-discrete
to_recovery =
    let to_ready : NeverRan ready = moved created refl (λ e. cc e) in
    let to_assigned : NeverRan assigned = moved to_ready refl (λ e. cc e) in
    moved to_assigned refl (λ e. cc e)

NeverRan-unfinished_example :
    (recovery_required ≢ completed)
    × (recovery_required ≢ review_required)
    × (recovery_required ≢ verification_required)
    × (recovery_required ≢ repair_required)
NeverRan-unfinished_example = NeverRan-unfinished recovery_required to_recovery

passes :
    assert_verification_can_complete_work_item hashing "P1" "T1" passed_test
      (evidence "E1" "CMO-01" ∷ [])
    ≡ ok tt
unfolding assert_verification_can_complete_work_item check_supports check_digests evidence_by_id
    Verification.has_digest Verification.is_blank is_space verify_evidence_integrity
    verify_verification_integrity matches_digest compute_evidence_digest compute_verification_digest
    VerificationStatus-discrete EvidenceCurrentness-discrete
passes = refl

assert_verification_can_complete_work_item-ok_example :
    CanComplete hashing "P1" "T1" (evidence "E1" "CMO-01" ∷ []) passed_test
assert_verification_can_complete_work_item-ok_example =
    assert_verification_can_complete_work_item-ok hashing "P1" "T1" (evidence "E1" "CMO-01" ∷ [])
      passed_test passes

-- A store that gives the saved verification its digest; the world counts the calls.
abbrev stores : Stores ℕ
stores = record {
  save_verification = λ v w. (w, ok (record v { digest = some "digest" }));
  list_evidence_for_work_item = λ p i w. evidence "E1" "CMO-01" ∷ [];
  transition_work_item =
      λ id revision to w. (w, ok (record item { lifecycle_state = to; revision = 5 }));
}

abbrev input : VerificationInput
input = record {
  work_item = item;
  run_id = "R1";
  attempt_id = none;
  verification_type = test;
  status = pass;
  evidence_ids = "E1" ∷ [];
  verifier_ref = "verifier";
  completion_decision_id = none;
}

abbrev done : WorkItem
done = record item { lifecycle_state = completed; revision = 5 }

resolves :
    record_verification_and_resolve stores hashing input "V1" 0 0 ≡ (0, ok (passed_test, done))
unfolding record_verification_and_resolve resolve Verification.moved
    assert_verification_can_complete_work_item check_supports check_digests evidence_by_id
    Verification.has_digest Verification.is_blank is_space verify_evidence_integrity
    verify_verification_integrity matches_digest compute_evidence_digest compute_verification_digest
    VerificationStatus-discrete EvidenceCurrentness-discrete WorkItemLifecycleState-discrete
resolves = refl
