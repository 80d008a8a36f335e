-- ===== src/Domain/Completing.antt =====
-- packages/evidence/src/records.ts and service.ts: what a completed verification rests on.
use constructie_orchestrator.Base.{
  ◌≡◌, ◌≢◌, ap, sym, ◌∙◌, String, List, [], ◌∷◌, Option, none, some, true, not, ◌&&◌, ◌==◌, Result,
  ok, err, check_then, or_fail, >>=-eq-ok, and_true, eq_sound, String_eq, is_empty, All,
  if◌then◌else◌, ok_inj,
}
use constructie_orchestrator.Domain.WorkItem.{
  WorkItem, WorkItemLifecycleState, WorkItemLifecycleState_eq, completed, repair_required,
  recovery_required,
}
use constructie_orchestrator.Domain.Evidence.{
  EvidenceRecord, VerificationRecord, VerificationStatus_eq, pass, fail, current,
  EvidenceCurrentness_eq, Hashing, matches_digest, compute_evidence_digest,
  compute_verification_digest, verify_evidence_integrity, verify_verification_integrity,
}
use constructie_orchestrator.Domain.Verification.{
  EvidenceError, evidence_missing, evidence_by_id, has_digest, check_supports, check_digests,
  assert_verification_can_complete_work_item, Stores, ServiceError, evidence_error, store_error,
}

module _ (h : Hashing) (project_id work_item_id : String) (evidence : List EvidenceRecord) where
  -- The id names a record of the work item that is current and carries its own digest.
  pub record Supports (id : String) : Type 0 where
    pub found : EvidenceRecord
    pub listed : evidence_by_id id evidence ≡ some found
    pub of_project : found.project_id ≡ project_id
    pub of_work_item : found.work_item_id ≡ work_item_id
    pub is_current : found.currentness ≡ current
    pub untampered : found.digest ≡ some (compute_evidence_digest h found)

  pub record CanComplete (v : VerificationRecord) : Type 0 where
    pub of_project : v.project_id ≡ project_id
    pub of_work_item : v.work_item_id ≡ work_item_id
    pub passed : v.status ≡ pass
    pub supported : (v.evidence_ids ≢ []) × All Supports v.evidence_ids
    pub untampered : v.digest ≡ some (compute_verification_digest h v)

  or_fail-some :
      (o : Option EvidenceRecord) (e : EvidenceError) (r : EvidenceRecord)
      → or_fail o e ≡ ok r
      → o ≡ some r
  or_fail-some none e r q = cc
  or_fail-some (some s) e r q = ap some (ok_inj q)

  matches_digest-eq : (d : Option String) (c : String) → matches_digest d c ≡ true → d ≡ some c
  unfolding matches_digest
  matches_digest-eq none c q = cc
  matches_digest-eq (some d) c q = ap some (eq_sound d c (and_true (not (d == "")) (d == c) q).1)

  checks-All :
      (ids : List String)
      → check_supports project_id work_item_id evidence ids ≡ ok tt
      → check_digests h evidence ids ≡ ok tt
      → All Supports ids
  unfolding check_supports check_digests verify_evidence_integrity
  checks-All [] p q = tt
  checks-All (id ∷ ids) p q =
      let (r, found, p₁) =
        >>=-eq-ok (or_fail (evidence_by_id id evidence) (evidence_missing id)) _ p in
      let (scope, p₂) =
        check_then (r.project_id == project_id && r.work_item_id == work_item_id) _ _ p₁ in
      let (fresh, p₃) = check_then (r.currentness == current) _ _ p₂ in
      let (s, again, q₁) =
        >>=-eq-ok (or_fail (evidence_by_id id evidence) (evidence_missing id)) _ q in
      let (digest, q₂) = check_then (has_digest s.digest && verify_evidence_integrity h s) _ _ q₁ in
      let same : s ≡ r = ok_inj (sym again ∙ found) in
      let (project, item) =
        and_true (r.project_id == project_id) (r.work_item_id == work_item_id) scope in
      let hashed = (and_true (has_digest s.digest) (verify_evidence_integrity h s) digest).1 in
      (
        record {
          found = r;
          listed = or_fail-some (evidence_by_id id evidence) (evidence_missing id) r found;
          of_project = eq_sound r.project_id project_id project;
          of_work_item = eq_sound r.work_item_id work_item_id item;
          is_current = eq_sound r.currentness current fresh;
          untampered = matches_digest-eq r.digest (compute_evidence_digest h r) (rw same at hashed);
        },
        checks-All ids p₃ q₂,
      )

  nonempty : (ids : List String) → not (is_empty ids) ≡ true → ids ≢ []
  nonempty [] q = cc
  nonempty (id ∷ ids) q = λ e. cc e

  -- The check passes only for a passed verification of the work item with an intact digest that
  -- names at least one record, every one current, of the work item and with an intact digest.
  pub assert_verification_can_complete_work_item-ok :
      (v : VerificationRecord)
      → assert_verification_can_complete_work_item h project_id work_item_id v evidence ≡ ok tt
      → CanComplete v
  unfolding assert_verification_can_complete_work_item verify_verification_integrity
  assert_verification_can_complete_work_item-ok v q =
      let (scope, q₁) =
        check_then (v.project_id == project_id && v.work_item_id == work_item_id) _ _ q in
      let (passed, q₂) = check_then (v.status == pass) _ _ q₁ in
      let (some_id, q₃) = check_then (not (is_empty v.evidence_ids)) _ _ q₂ in
      let (_, supports, q₄) =
        >>=-eq-ok (check_supports project_id work_item_id evidence v.evidence_ids) _ q₃ in
      let (digest, q₅) =
        check_then (has_digest v.digest && verify_verification_integrity h v) _ _ q₄ in
      let (project, item) =
        and_true (v.project_id == project_id) (v.work_item_id == work_item_id) scope in
      record {
        of_project = eq_sound v.project_id project_id project;
        of_work_item = eq_sound v.work_item_id work_item_id item;
        passed = eq_sound v.status pass passed;
        supported = (nonempty v.evidence_ids some_id, checks-All v.evidence_ids supports q₅);
        untampered =
            matches_digest-eq v.digest (compute_verification_digest h v)
              (and_true (has_digest v.digest) (verify_verification_integrity h v) digest).1;
      }

module _ {W : Type 0} (stores : Stores W) (h : Hashing) (item : WorkItem) where
  -- The state that a saved verification asks the work item to go to.
  abbrev pub target : VerificationRecord → WorkItemLifecycleState
  target v =
      if v.status == pass
      then completed
      else if v.status == fail
      then repair_required
      else recovery_required

  abbrev pub evidence_at : W → List EvidenceRecord
  evidence_at w = stores.list_evidence_for_work_item item.project_id item.id w

  -- A saved verification may move the item: one that passed satisfies `CanComplete`, by the evidence
  -- listed after the save.
  abbrev pub MayMove : VerificationRecord → W → Type 0
  MayMove v w = v.status ≡ pass → CanComplete h item.project_id item.id (evidence_at w) v

  abbrev pub transition : VerificationRecord → W → W × Result String WorkItem
  transition v w = stores.transition_work_item item.id item.revision (target v) w

  -- How the service ends after the save, by its result.
  pub data Ends (saved : W × Result String VerificationRecord) (u : W)
      : Result ServiceError (VerificationRecord × WorkItem) → Type 0 where
    moves :
        (w : W) (v : VerificationRecord) (i : WorkItem)
        → saved ≡ (w, ok v)
        → MayMove v w
        → transition v w ≡ (u, ok i)
        → Ends saved u (ok (v, i))
    stays :
        (v : VerificationRecord) (e : EvidenceError)
        → saved ≡ (u, ok v)
        → v.status ≡ pass
        → assert_verification_can_complete_work_item h item.project_id item.id v (evidence_at u)
          ≡ err e
        → Ends saved u (err (evidence_error e))
    unsaved : (m : String) → saved ≡ (u, err m) → Ends saved u (err (store_error m))
    unmoved :
        (w : W) (v : VerificationRecord) (m : String)
        → saved ≡ (w, ok v)
        → MayMove v w
        → transition v w ≡ (u, err m)
        → Ends saved u (err (store_error m))
