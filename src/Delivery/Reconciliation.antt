-- ===== src/Delivery/Reconciliation.antt =====
-- packages/reconciliation/src/engine.ts and types.ts. The codes of conflicts are an enumeration with
-- the texts of the source; `randomUUID()` is the argument `uuid`, and `now` is given.
use Prim.Native.String.{◌++◌ as ◌<>◌}
use constructie_orchestrator.Base.{
  ℕ, String, List, [], ◌∷◌, ◌++◌, map, none, some, Bool, not, ◌&&◌, ◌||◌, ◌==◌, ℕ_eq, String_eq, Eq,
  enum_eq, if◌then◌else◌, filter, length, is_empty, any, includes_text,
}
use constructie_orchestrator.Domain.Project.{Project}
use constructie_orchestrator.Domain.WorkItem.{WorkItem, WorkItemLifecycleState_eq, completed}
use constructie_orchestrator.Domain.Evidence.{
  EvidenceRecord, VerificationRecord, VerificationStatus, VerificationStatus_eq,
  EvidenceCurrentness_eq, current, fail, inconclusive,
}
use constructie_orchestrator.Domain.Evidence
use constructie_orchestrator.Domain.Verification.{evidence_by_id}

pub data ReconciliationState : Type 0 where
  pass blocked failed unknown : ReconciliationState

unfoldable pub ReconciliationState-discrete : Discrete ReconciliationState
ReconciliationState-discrete = hlevel

instance abbrev pub ReconciliationState_eq : Eq ReconciliationState
ReconciliationState_eq = enum_eq ReconciliationState-discrete

pub data ConflictCode : Type 0 where
  work_item_project_scope_mismatch cross_scope_evidence_present : ConflictCode
  cross_scope_verification_present stale_or_invalidated_evidence_present : ConflictCode
  pass_verification_without_evidence verification_references_missing_evidence : ConflictCode
  verification_references_noncurrent_evidence failed_verification_present : ConflictCode
  inconclusive_verification_present work_item_not_completed : ConflictCode
  completion_support_insufficient : ConflictCode

unfoldable pub ConflictCode-discrete : Discrete ConflictCode
ConflictCode-discrete = hlevel

instance abbrev pub ConflictCode_eq : Eq ConflictCode
ConflictCode_eq = enum_eq ConflictCode-discrete

unfoldable pub code_text : ConflictCode → String
code_text work_item_project_scope_mismatch = "WORK_ITEM_PROJECT_SCOPE_MISMATCH"
code_text cross_scope_evidence_present = "CROSS_SCOPE_EVIDENCE_PRESENT"
code_text cross_scope_verification_present = "CROSS_SCOPE_VERIFICATION_PRESENT"
code_text stale_or_invalidated_evidence_present = "STALE_OR_INVALIDATED_EVIDENCE_PRESENT"
code_text pass_verification_without_evidence = "PASS_VERIFICATION_WITHOUT_EVIDENCE"
code_text verification_references_missing_evidence = "VERIFICATION_REFERENCES_MISSING_EVIDENCE"
code_text verification_references_noncurrent_evidence =
    "VERIFICATION_REFERENCES_NONCURRENT_EVIDENCE"
code_text failed_verification_present = "FAILED_VERIFICATION_PRESENT"
code_text inconclusive_verification_present = "INCONCLUSIVE_VERIFICATION_PRESENT"
code_text work_item_not_completed = "WORK_ITEM_NOT_COMPLETED"
code_text completion_support_insufficient = "COMPLETION_SUPPORT_INSUFFICIENT"

pub record ReconciliationSnapshot : Type 0 where
  pub state : ReconciliationState
  pub project_id : String
  pub evaluated_project_revision : ℕ
  pub evaluated_work_item_id : String
  pub evaluated_work_item_revision : ℕ
  pub evidence_ids : List String
  pub verification_ids : List String
  pub conflict_codes : List ConflictCode
  pub evaluated_at : ℕ
  pub ref : String

pub record ReconciliationInput : Type 0 where
  pub project : Project
  pub work_item : WorkItem
  pub evidence : List EvidenceRecord
  pub verifications : List VerificationRecord
  pub now : ℕ

-- `if (test) conflicts.push(code)`
abbrev pub conflict : Bool → ConflictCode → List ConflictCode
conflict test code = if test then code ∷ [] else []

-- `[...new Set(codes)]`: the first occurrence of each.
unfoldable pub unique : List ConflictCode → List ConflictCode
unique [] = []
unique (c ∷ cs) = c ∷ filter (λ d. not (d == c)) (unique cs)

unfoldable pub scoped_evidence : ReconciliationInput → List EvidenceRecord
scoped_evidence input =
    filter (λ r. r.project_id == input.project.id && r.work_item_id == input.work_item.id)
      input.evidence

unfoldable pub scoped_verifications : ReconciliationInput → List VerificationRecord
scoped_verifications input =
    filter (λ r. r.project_id == input.project.id && r.work_item_id == input.work_item.id)
      input.verifications

abbrev pub with_status : VerificationStatus → ReconciliationInput → List VerificationRecord
with_status status input = filter (λ r. r.status == status) (scoped_verifications input)

abbrev pub current_evidence : ReconciliationInput → List EvidenceRecord
current_evidence input = filter (λ r. r.currentness == current) (scoped_evidence input)

unfoldable pub reference_conflicts : List EvidenceRecord → List String → List ConflictCode
reference_conflicts evidence [] = []
reference_conflicts evidence (id ∷ ids) =
    elim (evidence_by_id id evidence) [
      | none ↦ verification_references_missing_evidence ∷ []
      | some r ↦
          conflict (not (r.currentness == current)) verification_references_noncurrent_evidence
    ]
    ++ reference_conflicts evidence ids

unfoldable pub support_conflicts : List EvidenceRecord → List VerificationRecord → List ConflictCode
unfolding reference_conflicts
support_conflicts evidence [] = []
support_conflicts evidence (v ∷ vs) =
    (if is_empty v.evidence_ids
      then pass_verification_without_evidence ∷ []
      else reference_conflicts evidence v.evidence_ids)
    ++ support_conflicts evidence vs

-- The conflicts found before the state is chosen, in the order of the source.
unfoldable pub conflicts : ReconciliationInput → List ConflictCode
unfolding scoped_evidence scoped_verifications support_conflicts
conflicts input =
    conflict (not (length (scoped_evidence input) == length input.evidence))
      cross_scope_evidence_present
    ++ (conflict (not (length (scoped_verifications input) == length input.verifications))
          cross_scope_verification_present
        ++ (conflict
              (not
                (is_empty (filter (λ r. not (r.currentness == current)) (scoped_evidence input))))
              stale_or_invalidated_evidence_present
            ++ (support_conflicts (scoped_evidence input)
                  (with_status Evidence.VerificationStatus.pass input)
                ++ (conflict (not (is_empty (with_status fail input))) failed_verification_present
                    ++ conflict (not (is_empty (with_status inconclusive input)))
                        inconclusive_verification_present))))

abbrev pub is_failure : ConflictCode → Bool
is_failure code =
    includes_text (code_text code) "MISMATCH" || includes_text (code_text code) "MISSING"

-- The state, with the conflict that choosing it adds.
unfoldable pub choose_state :
    ReconciliationInput → List ConflictCode → ReconciliationState × List ConflictCode
unfolding code_text scoped_evidence scoped_verifications
choose_state input found =
    if not (is_empty (with_status fail input)) || any is_failure found
    then (failed, [])
    else if not (is_empty (with_status inconclusive input))
    then (unknown, [])
    else if not (input.work_item.lifecycle_state == completed)
    then (blocked, work_item_not_completed ∷ [])
    else if is_empty (with_status Evidence.VerificationStatus.pass input)
        || is_empty (current_evidence input)
    then (blocked, completion_support_insufficient ∷ [])
    else if not (is_empty found)
    then (failed, [])
    else (pass, [])

unfoldable pub snapshot :
    ReconciliationInput
    → ReconciliationState
    → List ConflictCode
    → List String
    → List String
    → String
    → ReconciliationSnapshot
snapshot input state codes evidence_ids verification_ids uuid = record {
  state = state;
  project_id = input.project.id;
  evaluated_project_revision = input.project.revision;
  evaluated_work_item_id = input.work_item.id;
  evaluated_work_item_revision = input.work_item.revision;
  evidence_ids = evidence_ids;
  verification_ids = verification_ids;
  conflict_codes = codes;
  evaluated_at = input.now;
  ref = "reconciliation://" <> (input.project.id <> ("/" <> (input.work_item.id <> ("/" <> uuid))));
}

unfoldable pub reconcile : ReconciliationInput → String → ReconciliationSnapshot
unfolding conflicts choose_state snapshot unique scoped_evidence scoped_verifications
reconcile input uuid =
    if not (input.work_item.project_id == input.project.id)
    then snapshot input failed (work_item_project_scope_mismatch ∷ []) [] [] uuid
    else (let found = conflicts input in
        let (state, added) = choose_state input found in
        snapshot input state (unique (found ++ added))
          (map (λ (r : EvidenceRecord). r.id) (current_evidence input))
          (map (λ (v : VerificationRecord). v.id)
            (with_status Evidence.VerificationStatus.pass input))
          uuid)
