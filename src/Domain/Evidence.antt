-- ===== src/Domain/Evidence.antt =====
-- packages/evidence/src/records.ts: artifacts, evidence and verifications, their digests. `JSON.stringify`, SHA-256 and `toISOString` are the
-- parameter `Hashing`; the payload that is hashed, its keys in order, is built here.
use Prim.Native.String.{compare}
use Prim.Native.Nat.{Ordering}
use constructie_orchestrator.Base.{
  ℕ, String, List, [], ◌∷◌, Option, none, some, Bool, false, not, ◌&&◌, ◌==◌, Eq, enum_eq,
  String_eq,
}

pub data ArtifactKind : Type 0 where
  patch file test_report command_output log other : ArtifactKind

pub data EvidenceCurrentness : Type 0 where
  current stale invalidated : EvidenceCurrentness

unfoldable pub EvidenceCurrentness-discrete : Discrete EvidenceCurrentness
EvidenceCurrentness-discrete = hlevel

instance abbrev pub EvidenceCurrentness_eq : Eq EvidenceCurrentness
EvidenceCurrentness_eq = enum_eq EvidenceCurrentness-discrete

pub data VerificationStatus : Type 0 where
  pass fail inconclusive : VerificationStatus

unfoldable pub VerificationStatus-discrete : Discrete VerificationStatus
VerificationStatus-discrete = hlevel

instance abbrev pub VerificationStatus_eq : Eq VerificationStatus
VerificationStatus_eq = enum_eq VerificationStatus-discrete

pub data SourceType : Type 0 where
  agent_result tool_result verification : SourceType

pub data VerificationType : Type 0 where
  test static_check behavioral_check manual_rule : VerificationType

-- A field `digest?: string | null` is an option; absent and null are tested alike.
pub record ArtifactRecord : Type 0 where
  pub id : String
  pub project_id : String
  pub run_id : String
  pub work_item_id : String
  pub attempt_id : Option String
  pub kind : ArtifactKind
  pub uri : String
  pub hash : Option String
  pub produced_by : String
  pub digest : Option String
  pub created_at : ℕ

pub record EvidenceRecord : Type 0 where
  pub id : String
  pub project_id : String
  pub run_id : String
  pub work_item_id : String
  pub attempt_id : Option String
  pub approval_id : Option String
  pub agent_id : Option String
  pub artifact_id : Option String
  pub claim : String
  pub source_type : SourceType
  pub source_ref : String
  pub scm_commit_sha : Option String
  pub deployment_uri : Option String
  pub currentness : EvidenceCurrentness
  pub digest : Option String
  pub observed_at : ℕ
  pub created_at : ℕ

pub record VerificationRecord : Type 0 where
  pub id : String
  pub project_id : String
  pub run_id : String
  pub work_item_id : String
  pub attempt_id : Option String
  pub verification_type : VerificationType
  pub status : VerificationStatus
  pub evidence_ids : List String
  pub verifier_ref : String
  pub completion_decision_id : Option String
  pub digest : Option String
  pub verified_at : ℕ
  pub created_at : ℕ

pub data Json : Type 0 where
  null : Json
  text : String → Json
  texts : List String → Json

pub record Hashing : Type 0 where
  pub sha256_of_json : List (String × Json) → String
  pub iso_string : ℕ → String

abbrev nullable : Option String → Json
nullable none = null
nullable (some s) = text s

unfoldable pub kind_name : ArtifactKind → String
kind_name patch = "PATCH"
kind_name file = "FILE"
kind_name test_report = "TEST_REPORT"
kind_name command_output = "COMMAND_OUTPUT"
kind_name log = "LOG"
kind_name other = "OTHER"

unfoldable pub currentness_name : EvidenceCurrentness → String
currentness_name current = "CURRENT"
currentness_name stale = "STALE"
currentness_name invalidated = "INVALIDATED"

unfoldable pub status_name : VerificationStatus → String
status_name pass = "PASS"
status_name fail = "FAIL"
status_name inconclusive = "INCONCLUSIVE"

unfoldable pub source_name : SourceType → String
source_name agent_result = "AGENT_RESULT"
source_name tool_result = "TOOL_RESULT"
source_name verification = "VERIFICATION"

unfoldable pub type_name : VerificationType → String
type_name test = "TEST"
type_name static_check = "STATIC_CHECK"
type_name behavioral_check = "BEHAVIORAL_CHECK"
type_name manual_rule = "MANUAL_RULE"

-- `[...ids].sort()`
unfoldable insert : String → List String → List String
insert s [] = s ∷ []
insert s (t ∷ ts) =
    let rest = insert s ts in elim (compare s t) [ Ordering.gt ↦ t ∷ rest | _ ↦ s ∷ t ∷ ts ]

unfoldable pub sort : List String → List String
unfolding insert
sort [] = []
sort (s ∷ ss) = insert s (sort ss)

unfoldable pub compute_artifact_digest : Hashing → ArtifactRecord → String
compute_artifact_digest h r = h.sha256_of_json (
    ("id", text r.id)
    ∷ ("projectId", text r.project_id)
    ∷ ("runId", text r.run_id)
    ∷ ("workItemId", text r.work_item_id)
    ∷ ("attemptId", nullable r.attempt_id)
    ∷ ("kind", text (kind_name r.kind))
    ∷ ("uri", text r.uri)
    ∷ ("hash", nullable r.hash)
    ∷ ("producedBy", text r.produced_by)
    ∷ ("createdAt", text (h.iso_string r.created_at))
    ∷ [])

unfoldable pub compute_evidence_digest : Hashing → EvidenceRecord → String
compute_evidence_digest h r = h.sha256_of_json (
    ("id", text r.id)
    ∷ ("projectId", text r.project_id)
    ∷ ("runId", text r.run_id)
    ∷ ("workItemId", text r.work_item_id)
    ∷ ("attemptId", nullable r.attempt_id)
    ∷ ("approvalId", nullable r.approval_id)
    ∷ ("agentId", nullable r.agent_id)
    ∷ ("artifactId", nullable r.artifact_id)
    ∷ ("claim", text r.claim)
    ∷ ("sourceType", text (source_name r.source_type))
    ∷ ("sourceRef", text r.source_ref)
    ∷ ("scmCommitSha", nullable r.scm_commit_sha)
    ∷ ("deploymentUri", nullable r.deployment_uri)
    ∷ ("currentness", text (currentness_name r.currentness))
    ∷ ("observedAt", text (h.iso_string r.observed_at))
    ∷ [])

unfoldable pub compute_verification_digest : Hashing → VerificationRecord → String
compute_verification_digest h r = h.sha256_of_json (
    ("id", text r.id)
    ∷ ("projectId", text r.project_id)
    ∷ ("runId", text r.run_id)
    ∷ ("workItemId", text r.work_item_id)
    ∷ ("attemptId", nullable r.attempt_id)
    ∷ ("verificationType", text (type_name r.verification_type))
    ∷ ("status", text (status_name r.status))
    ∷ ("evidenceIds", texts (sort r.evidence_ids))
    ∷ ("verifierRef", text r.verifier_ref)
    ∷ ("completionDecisionId", nullable r.completion_decision_id)
    ∷ ("verifiedAt", text (h.iso_string r.verified_at))
    ∷ [])

-- `if (!record.digest) return false; return record.digest === …`
unfoldable pub matches_digest : Option String → String → Bool
matches_digest none computed = false
matches_digest (some d) computed = not (d == "") && d == computed

unfoldable pub verify_artifact_integrity : Hashing → ArtifactRecord → Bool
verify_artifact_integrity h r = matches_digest r.digest (compute_artifact_digest h r)

unfoldable pub verify_evidence_integrity : Hashing → EvidenceRecord → Bool
verify_evidence_integrity h r = matches_digest r.digest (compute_evidence_digest h r)

unfoldable pub verify_verification_integrity : Hashing → VerificationRecord → Bool
verify_verification_integrity h r = matches_digest r.digest (compute_verification_digest h r)
