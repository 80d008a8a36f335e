-- ===== src/Delivery/Completion.antt =====
-- packages/completion/src: the CMO rules (cmo.ts) and the completion engine (engine.ts, types.ts).
-- The store that saves a decision is a parameter, and so is the sequence of random ids: `uuid n` is
-- the n-th one of an evaluation.
use Prim.Native.String.{◌++◌ as ◌<>◌}
use constructie_orchestrator.Base.{
  ℕ, suc, String, List, [], ◌∷◌, ◌++◌, map, Bool, not, ◌&&◌, ◌==◌, ℕ_eq, String_eq, Eq, enum_eq,
  if◌then◌else◌, filter, length, is_empty, all, includes, Result, ok, err,
}
use constructie_orchestrator.Domain.Project.{Project}
use constructie_orchestrator.Domain.WorkItem.{WorkItem, WorkItemLifecycleState_eq, completed}
use constructie_orchestrator.Domain.Evidence.{
  EvidenceRecord, VerificationRecord, VerificationStatus, VerificationStatus_eq,
  EvidenceCurrentness_eq, current, pass, fail, type_name,
}
use constructie_orchestrator.Delivery.Reconciliation.{
  ReconciliationSnapshot, ReconciliationState_eq, ConflictCode, code_text,
}
use constructie_orchestrator.Delivery.Reconciliation

pub data CmoStatus : Type 0 where
  required n_a unresolved done : CmoStatus

pub record CmoResolution : Type 0 where
  pub cmo_id : String
  pub status : CmoStatus
  pub provenance : String

pub record CompletionContext : Type 0 where
  pub project : Project
  pub work_item : WorkItem

-- The rules that need a name and an objective, and those that need a name.
abbrev resolved : Bool → String → CmoStatus → String → CmoResolution
resolved known id status provenance =
    if known
    then (record { cmo_id = id; status = status; provenance = provenance })
    else record { cmo_id = id; status = unresolved; provenance = "Missing context" }

abbrev named : CompletionContext → Bool
named c = not (c.project.name == "")

abbrev aimed : CompletionContext → Bool
aimed c = named c && not (c.work_item.objective == "")

unfoldable pub known_cmo_rules : List (CompletionContext → CmoResolution)
known_cmo_rules =
    (λ c. resolved (aimed c) "CMO-01" required "Project has executable outcome")
    ∷ (λ c. resolved (aimed c) "CMO-02" required "Project requires test assurance")
    ∷ (λ c.
        resolved (named c) "CMO-03" n_a
          "Affirmative exclusion: independent assurance not in V1 scope")
    ∷ (λ c. resolved (named c) "CMO-05" required "Project requires versioned state")
    ∷ (λ c.
        resolved (named c) "CMO-06" n_a "Affirmative exclusion: remote publication not in V1 scope")
    ∷ (λ c. resolved (named c) "CMO-14" required "Project requires recovery capability")
    ∷ []

abbrev satisfied : List String → CmoResolution → CmoResolution
satisfied given base = elim base.status [
  | required ↦
      if includes base.cmo_id given
      then (record base {
        status = done;
        provenance = base.provenance <> " -> Satisfied by evidence";
      })
      else base
  | _ ↦ base
]

unfoldable pub resolve_cmos_for_project : CompletionContext → List String → List CmoResolution
unfolding known_cmo_rules
resolve_cmos_for_project context given =
    map (λ rule. satisfied given (rule context)) known_cmo_rules

pub data CompletionState : Type 0 where
  complete incomplete blocked evidence_insufficient reconciliation_failed : CompletionState

unfoldable pub CompletionState-discrete : Discrete CompletionState
CompletionState-discrete = hlevel

instance abbrev pub CompletionState_eq : Eq CompletionState
CompletionState_eq = enum_eq CompletionState-discrete

pub data ResidualType : Type 0 where
  unresolved_finding unhandled_side_effect failed_verification missing_evidence : ResidualType

pub record ResidualScopeItem : Type 0 where
  pub id : String
  pub description : String
  pub item_type : ResidualType

pub record CompletionDecision : Type 0 where
  pub id : String
  pub project_id : String
  pub completion_object_ref : String
  pub state : CompletionState
  pub evaluated_project_revision : ℕ
  pub evaluated_work_item_id : String
  pub evaluated_work_item_revision : ℕ
  pub verification_ids : List String
  pub evidence_ids : List String
  pub reconciliation_ref : String
  pub rationale_codes : List String
  pub residual_scope : List ResidualScopeItem
  pub decided_at : ℕ

pub record CompletionEvaluationInput : Type 0 where
  pub project : Project
  pub work_item : WorkItem
  pub completion_object_ref : String
  pub verifications : List VerificationRecord
  pub evidence : List EvidenceRecord
  pub reconciliation : ReconciliationSnapshot
  pub now : ℕ

-- What is handed to `persist`; a residual item has no id yet.
pub record Draft : Type 0 where
  pub state : CompletionState
  pub rationale_codes : List String
  pub verification_ids : List String
  pub evidence_ids : List String
  pub residual_scope : List (String × ResidualType)

abbrev pub claims_given : CompletionEvaluationInput → List String
claims_given input = map (λ e. e.claim) (filter (λ e. e.currentness == current) input.evidence)

unfoldable pub cmo_residual : List String → List CmoResolution → List (String × ResidualType)
cmo_residual given [] = []
cmo_residual given (c ∷ cs) =
    elim c.status [
      | unresolved ↦
          ("CMO unresolved: " <> (c.cmo_id <> (" - " <> c.provenance)), missing_evidence) ∷ []
      | required ↦
          if not (includes c.cmo_id given)
          then (
            "CMO required but missing evidence: " <> (c.cmo_id <> (" - " <> c.provenance)),
            missing_evidence,
          )
            ∷ []
          else []
      | _ ↦ []
    ]
    ++ cmo_residual given cs

unfoldable pub scoped : CompletionEvaluationInput → VerificationStatus → List VerificationRecord
scoped input status =
    filter
      (λ v.
        v.project_id == input.project.id
        && (v.work_item_id == input.work_item.id && v.status == status))
      input.verifications

unfoldable pub scoped_current_evidence : CompletionEvaluationInput → List EvidenceRecord
scoped_current_evidence input =
    filter
      (λ e.
        e.project_id == input.project.id
        && (e.work_item_id == input.work_item.id && e.currentness == current))
      input.evidence

unfoldable pub valid_verifications : CompletionEvaluationInput → List VerificationRecord
unfolding scoped scoped_current_evidence
valid_verifications input =
    let supported = map (λ (e : EvidenceRecord). e.id) (scoped_current_evidence input) in
    filter (λ v. not (is_empty v.evidence_ids) && all (λ id. includes id supported) v.evidence_ids)
      (scoped input pass)

-- The reconciliation is of the same project and work item at the same revisions.
unfoldable pub is_fresh : CompletionEvaluationInput → Bool
is_fresh input =
    input.reconciliation.project_id == input.project.id
    && (input.reconciliation.evaluated_project_revision == input.project.revision
        && (input.reconciliation.evaluated_work_item_id == input.work_item.id
            && input.reconciliation.evaluated_work_item_revision == input.work_item.revision))

abbrev stopped : CompletionState → String → List (String × ResidualType) → Draft
stopped state code residual = record {
  state = state;
  rationale_codes = code ∷ [];
  verification_ids = [];
  evidence_ids = [];
  residual_scope = residual;
}

unfoldable pub failure_scope : CompletionEvaluationInput → List (String × ResidualType)
unfolding scoped type_name
failure_scope input =
    map (λ v. ("Failed verification: " <> type_name v.verification_type, failed_verification))
      (scoped input fail)

-- The verdict once the reconciliation passed and the work item is completed.
unfoldable pub weigh : CompletionEvaluationInput → List (String × ResidualType) → Draft
unfolding scoped_current_evidence valid_verifications failure_scope
weigh input cmos =
    let residual = cmos ++ failure_scope input in
    let verification_ids = map (λ (v : VerificationRecord). v.id) (valid_verifications input) in
    let evidence_ids = map (λ (e : EvidenceRecord). e.id) (scoped_current_evidence input) in
    if is_empty (valid_verifications input)
    then (record {
      state = evidence_insufficient;
      rationale_codes = "CURRENT_PASS_VERIFICATION_MISSING" ∷ [];
      verification_ids = [];
      evidence_ids = evidence_ids;
      residual_scope = residual ++ (("Missing current pass verification", missing_evidence) ∷ []);
    })
    else if not (is_empty residual)
    then (record {
      state = incomplete;
      rationale_codes = "RESIDUAL_SCOPE_REMAINS" ∷ [];
      verification_ids = verification_ids;
      evidence_ids = evidence_ids;
      residual_scope = residual;
    })
    else record {
      state = complete;
      rationale_codes =
          "WORK_ITEM_COMPLETED" ∷ "CURRENT_EVIDENCE_PRESENT" ∷ "PASS_VERIFICATION_PRESENT"
          ∷ "RECONCILIATION_PASS" ∷ [];
      verification_ids = verification_ids;
      evidence_ids = evidence_ids;
      residual_scope = residual;
    }

unfoldable pub cmo_scope : CompletionEvaluationInput → List (String × ResidualType)
unfolding resolve_cmos_for_project cmo_residual
cmo_scope input =
    cmo_residual (claims_given input) (
      resolve_cmos_for_project (record { project = input.project; work_item = input.work_item }) [])

-- `evaluate` up to the call of `persist`; the error is the throw.
unfoldable pub draft : CompletionEvaluationInput → Result String Draft
unfolding is_fresh weigh cmo_scope code_text
draft input =
    let cmos = cmo_scope input in
    if not (input.work_item.project_id == input.project.id)
    then err "Completion evaluation scope mismatch: WorkItem does not belong to Project."
    else if not (is_fresh input)
    then ok (stopped reconciliation_failed "RECONCILIATION_STALE_OR_SCOPE_MISMATCH" cmos)
    else if input.reconciliation.state == Reconciliation.ReconciliationState.blocked
    then ok (
        stopped blocked "RECONCILIATION_BLOCKED" (
          cmos
          ++ map (λ c. ("Reconciliation block: " <> code_text c, unresolved_finding))
              input.reconciliation.conflict_codes))
    else if not (input.reconciliation.state == Reconciliation.ReconciliationState.pass)
    then ok (stopped reconciliation_failed "RECONCILIATION_NOT_PASS" cmos)
    else if not (input.work_item.lifecycle_state == completed)
    then ok (stopped incomplete "WORK_ITEM_NOT_COMPLETED" cmos)
    else ok (weigh input cmos)

unfoldable pub number : (ℕ → String) → ℕ → List (String × ResidualType) → List ResidualScopeItem
number uuid n [] = []
number uuid n ((description, item_type) ∷ rest) =
    record { id = uuid n; description = description; item_type = item_type }
    ∷ number uuid (suc n) rest

unfoldable pub persist : (ℕ → String) → CompletionEvaluationInput → Draft → CompletionDecision
unfolding number
persist uuid input d = record {
  id = uuid (length d.residual_scope);
  project_id = input.project.id;
  completion_object_ref = input.completion_object_ref;
  state = d.state;
  evaluated_project_revision = input.project.revision;
  evaluated_work_item_id = input.work_item.id;
  evaluated_work_item_revision = input.work_item.revision;
  verification_ids = d.verification_ids;
  evidence_ids = d.evidence_ids;
  reconciliation_ref = input.reconciliation.ref;
  rationale_codes = d.rationale_codes;
  residual_scope = number uuid 0 d.residual_scope;
  decided_at = input.now;
}

-- `save` is the store's `saveDecision`.
unfoldable pub evaluate :
    {W : Type 0}
    → (CompletionDecision → W → W × Result String CompletionDecision)
    → (ℕ → String)
    → CompletionEvaluationInput
    → W
    → W × Result String CompletionDecision
unfolding draft persist
evaluate save uuid input w = elim (draft input) [
  | err message ↦ (w, err message)
  | ok d ↦ save (persist uuid input d) w
]
