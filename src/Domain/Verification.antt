-- ===== src/Domain/Verification.antt =====
-- packages/evidence/src/records.ts: the check before a work item is completed, and
-- packages/evidence/src/service.ts: the service that records a verification and resolves the work
-- item by it. The two stores are parameters.
use Prim.Native.Char.{code}
use constructie_orchestrator.Base.Text.{is_space}
use Prim.Native.String.{String, [], ◌∷◌}
use constructie_orchestrator.Base.{
  ℕ, List, [], ◌∷◌, Option, none, some, Bool, true, false, not, ◌&&◌, ◌==◌, Result, ok, err, check,
  or_fail, ◌>>=◌, ◌>>◌, if◌then◌else◌, String_eq, is_empty, ℕ_eq,
}
use constructie_orchestrator.Domain.WorkItem.{
  WorkItem, WorkItemLifecycleState, WorkItemLifecycleState_eq, completed, repair_required,
  recovery_required, verification_required,
}
use constructie_orchestrator.Domain.Evidence.{
  EvidenceRecord, VerificationRecord, VerificationStatus, VerificationStatus_eq, pass, fail,
  EvidenceCurrentness, EvidenceCurrentness_eq, current, Hashing, VerificationType,
  verify_evidence_integrity, verify_verification_integrity,
}

-- The constructors name the throws of the two error classes.
pub data EvidenceError : Type 0 where
  scope_mismatch without_evidence : EvidenceError
  not_passed : VerificationStatus → EvidenceError
  evidence_missing evidence_out_of_scope : String → EvidenceError
  evidence_not_current : String → EvidenceCurrentness → EvidenceError
  verification_tampered evidence_tampered : String → EvidenceError

-- `new Map(records.map((r) => [r.id, r])).get(id)`: the last record with the id.
unfoldable pub evidence_by_id : String → List EvidenceRecord → Option EvidenceRecord
evidence_by_id id [] = none
evidence_by_id id (r ∷ rs) = elim (evidence_by_id id rs) [
  | none ↦ if r.id == id then some r else none
  | some s ↦ some s
]

-- `s.trim() === ''`
unfoldable pub is_blank : String → Bool
is_blank [] = true
is_blank (c ∷ s) = is_space (code c) && is_blank s

-- `record.digest && record.digest.trim()`
unfoldable pub has_digest : Option String → Bool
has_digest none = false
has_digest (some d) = not (d == "") && not (is_blank d)

unfoldable pub check_supports :
    String → String → List EvidenceRecord → List String → Result EvidenceError (Unit {0})
check_supports project_id work_item_id evidence [] = ok tt
check_supports project_id work_item_id evidence (id ∷ ids) =
    let rest = check_supports project_id work_item_id evidence ids in
    (do
      found ← or_fail (evidence_by_id id evidence) (evidence_missing id)
      check (found.project_id == project_id && found.work_item_id == work_item_id)
          (evidence_out_of_scope id)
      check (found.currentness == current) (evidence_not_current id found.currentness)
      rest)

unfoldable pub check_digests :
    Hashing → List EvidenceRecord → List String → Result EvidenceError (Unit {0})
unfolding has_digest
check_digests h evidence [] = ok tt
check_digests h evidence (id ∷ ids) =
    let rest = check_digests h evidence ids in
    (do
      found ← or_fail (evidence_by_id id evidence) (evidence_missing id)
      check (has_digest found.digest && verify_evidence_integrity h found) (evidence_tampered id)
      rest)

unfoldable pub assert_verification_can_complete_work_item :
    Hashing
    → String
    → String
    → VerificationRecord
    → List EvidenceRecord
    → Result EvidenceError (Unit {0})
unfolding has_digest
assert_verification_can_complete_work_item h project_id work_item_id v evidence = do
  check (v.project_id == project_id && v.work_item_id == work_item_id) scope_mismatch
  check (v.status == pass) (not_passed v.status)
  check (not (is_empty v.evidence_ids)) without_evidence
  check_supports project_id work_item_id evidence v.evidence_ids
  check (has_digest v.digest && verify_verification_integrity h v) (verification_tampered v.id)
  check_digests h evidence v.evidence_ids

-- The stores of the service: each call may change the world, and may throw.
pub record Stores (W : Type 0) : Type 0 where
  pub save_verification : VerificationRecord → W → W × Result String VerificationRecord
  pub list_evidence_for_work_item : String → String → W → List EvidenceRecord
  pub transition_work_item : String → ℕ → WorkItemLifecycleState → W → W × Result String WorkItem

pub data ServiceError : Type 0 where
  not_verification_required : String → ServiceError
  evidence_error : EvidenceError → ServiceError
  store_error : String → ServiceError

pub record VerificationInput : Type 0 where
  pub work_item : WorkItem
  pub run_id : String
  pub attempt_id : Option String
  pub verification_type : VerificationType
  pub status : VerificationStatus
  pub evidence_ids : List String
  pub verifier_ref : String
  pub completion_decision_id : Option String

abbrev pub submitted : VerificationInput → String → ℕ → VerificationRecord
submitted input id now = record {
  id = id;
  project_id = input.work_item.project_id;
  run_id = input.run_id;
  work_item_id = input.work_item.id;
  attempt_id = input.attempt_id;
  verification_type = input.verification_type;
  status = input.status;
  evidence_ids = input.evidence_ids;
  verifier_ref = input.verifier_ref;
  completion_decision_id = input.completion_decision_id;
  digest = none;
  verified_at = now;
  created_at = now;
}

module _ {W : Type 0} (stores : Stores W) where
  abbrev pub Resolved : Type 0
  Resolved = W × Result ServiceError (VerificationRecord × WorkItem)

  -- The transition that ends the resolution.
  unfoldable pub moved :
      VerificationRecord
      → W × Result String WorkItem
      → W × Result ServiceError (VerificationRecord × WorkItem)
  moved v (w, ok item) = (w, ok (v, item))
  moved v (w, err message) = (w, err (store_error message))

  unfoldable pub resolve : Hashing → WorkItem → W × Result String VerificationRecord → Resolved
  unfolding moved
  resolve h item (w, err message) = (w, err (store_error message))
  resolve h item (w, ok v) =
      if v.status == pass
      then elim (assert_verification_can_complete_work_item h item.project_id item.id v
          (stores.list_evidence_for_work_item item.project_id item.id w)) [
            | err e ↦ (w, err (evidence_error e))
            | ok _ ↦ moved v (stores.transition_work_item item.id item.revision completed w)
          ]
      else (let to = if v.status == fail then repair_required else recovery_required in
          moved v (stores.transition_work_item item.id item.revision to w))

  unfoldable pub record_verification_and_resolve :
      Hashing → VerificationInput → String → ℕ → W → Resolved
  record_verification_and_resolve h input id now w =
      if input.work_item.lifecycle_state == verification_required
      then resolve h input.work_item (stores.save_verification (submitted input id now) w)
      else (w, err (not_verification_required input.work_item.id))
