-- ===== src/Delivery/Pass.antt =====
-- packages/reconciliation/src/engine.ts: what a reconciliation with state PASS rests on.
use constructie_orchestrator.Base.{
  ◌≡◌, ◌≢◌, refl, ap, ◌∙◌, String, List, [], ◌∷◌, ◌++◌, some, Bool, true, false, not, ◌||◌, ◌==◌,
  ℕ_eq, or_false, eq_sound, String_eq, All, is_empty, filter, any, length, inl, inr, Bool-cases,
  Option-cases,
}
use constructie_orchestrator.Domain.WorkItem.{WorkItemLifecycleState_eq, completed}
use constructie_orchestrator.Domain.Evidence.{
  EvidenceRecord, VerificationRecord, VerificationStatus_eq, EvidenceCurrentness_eq, current, fail,
  inconclusive,
}
use constructie_orchestrator.Domain.Evidence
use constructie_orchestrator.Domain.Verification.{evidence_by_id}
use constructie_orchestrator.Delivery.Reconciliation.{
  ReconciliationInput, ReconciliationState, pass, ConflictCode, conflict, conflicts, choose_state,
  reconcile, snapshot, scoped_evidence, scoped_verifications, with_status, current_evidence,
  support_conflicts, reference_conflicts, is_failure,
}
use constructie_orchestrator.Delivery.Complete.{passed_by, not-false}

empty : {A : Type 0} (xs : List A) → is_empty xs ≡ true → xs ≡ []
empty [] h = refl
empty (x ∷ xs) h = cc

++-[] : {A : Type 0} (xs ys : List A) → (xs ++ ys) ≡ [] → (xs ≡ []) × (ys ≡ [])
++-[] [] ys h = (refl, h)
++-[] (x ∷ xs) ys h = cc

conflict-[] : (b : Bool) (c : ConflictCode) → conflict b c ≡ [] → b ≡ false
conflict-[] true c h = cc
conflict-[] false c h = refl

none_left :
    {A : Type 0} (p : A → Bool) (xs : List A)
    → filter (λ x. not (p x)) xs ≡ []
    → All (λ x. p x ≡ true) xs
none_left p [] h = tt
none_left p (x ∷ xs) h = elim (Bool-cases (p x)) [
  | inl e ↦ (e, none_left p xs (rw e at h))
  | inr e ↦ cc (rw e at h)
]

-- The record that an id names is there and current.
abbrev pub IsCurrent : List EvidenceRecord → String → Type 0
IsCurrent evidence id =
    (r : EvidenceRecord) × (evidence_by_id id evidence ≡ some r) × (r.currentness ≡ current)

references-IsCurrent :
    (evidence : List EvidenceRecord) (ids : List String)
    → reference_conflicts evidence ids ≡ []
    → All (IsCurrent evidence) ids
unfolding reference_conflicts
references-IsCurrent evidence [] h = tt
references-IsCurrent evidence (id ∷ ids) h = elim (Option-cases (evidence_by_id id evidence)) [
  | inl e ↦ cc (rw (e, reference_conflicts) at h)
  | inr (r, e) ↦ elim (Bool-cases (r.currentness == current)) [
    | inl c ↦ (
      (r, e, eq_sound r.currentness current c),
      references-IsCurrent evidence ids (rw (e, c, reference_conflicts) at h),
    )
    | inr c ↦ cc (rw (e, c, reference_conflicts) at h)
  ]
]

supports-IsCurrent :
    (evidence : List EvidenceRecord) (vs : List VerificationRecord)
    → support_conflicts evidence vs ≡ []
    → All (λ v. (is_empty v.evidence_ids ≡ false) × All (IsCurrent evidence) v.evidence_ids) vs
unfolding support_conflicts
supports-IsCurrent evidence [] h = tt
supports-IsCurrent evidence (v ∷ vs) h = elim (Bool-cases (is_empty v.evidence_ids)) [
  | inl e ↦ cc (rw (e, support_conflicts) at h)
  | inr e ↦
      let (here, there) =
        ++-[] (reference_conflicts evidence v.evidence_ids) (support_conflicts evidence vs)
          (rw (e, support_conflicts) at h) in
      ((e, references-IsCurrent evidence v.evidence_ids here), supports-IsCurrent evidence vs there)
]

module _ (input : ReconciliationInput) where
  pub record IsReconciled : Type 0 where
    pub same_project : input.work_item.project_id ≡ input.project.id
    pub ended : input.work_item.lifecycle_state ≡ completed
    pub evidence_in_scope : (length (scoped_evidence input) == length input.evidence) ≡ true
    pub verifications_in_scope :
        (length (scoped_verifications input) == length input.verifications) ≡ true
    pub all_current : All (λ r. (r.currentness == current) ≡ true) (scoped_evidence input)
    pub none_failed : with_status fail input ≡ []
    pub none_inconclusive : with_status inconclusive input ≡ []
    pub some_passed : is_empty (with_status Evidence.VerificationStatus.pass input) ≡ false
    pub some_current : is_empty (current_evidence input) ≡ false
    pub all_supported :
        All
          (λ v.
            (is_empty v.evidence_ids ≡ false)
            × All (IsCurrent (scoped_evidence input)) v.evidence_ids)
          (with_status Evidence.VerificationStatus.pass input)

  other_state :
      (s : ReconciliationState) (more : List ConflictCode)
      (r : ReconciliationState × List ConflictCode)
      → r.0 ≡ pass
      → s ≢ pass
      → ◌≢◌ {A = ReconciliationState × List ConflictCode} (s, more) r
  other_state s more r h n e = n (ap (λ (x : ReconciliationState × List ConflictCode). x.0) e ∙ h)

  abbrev Chosen : List ConflictCode → Type 0
  Chosen found =
      (with_status fail input ≡ [])
      × (with_status inconclusive input ≡ [])
      × (input.work_item.lifecycle_state ≡ completed)
      × (is_empty (with_status Evidence.VerificationStatus.pass input) ≡ false)
      × (is_empty (current_evidence input) ≡ false)
      × (found ≡ [])

  choose_state-pass :
      (found : List ConflictCode) → (choose_state input found).0 ≡ pass → Chosen found
  unfolding choose_state
  choose_state-pass found h =
      let r = choose_state input found in
      let other = λ (s : ReconciliationState) (more : List ConflictCode). other_state s more r h in
      let failed_none = not (is_empty (with_status fail input)) in
      let (a, h₁) =
        passed_by (failed_none || any is_failure found) _ _ {z = r} refl (other _ _ (λ e. cc e)) in
      let (b, h₂) =
        passed_by (not (is_empty (with_status inconclusive input))) _ _ h₁
          (other _ _ (λ e. cc e)) in
      let (c, h₃) =
        passed_by (not (input.work_item.lifecycle_state == completed)) _ _ h₂
          (other _ _ (λ e. cc e)) in
      let (d, h₄) =
        passed_by
          (is_empty (with_status Evidence.VerificationStatus.pass input)
            || is_empty (current_evidence input))
          _ _ h₃ (other _ _ (λ e. cc e)) in
      let (e, h₅) = passed_by (not (is_empty found)) _ _ h₄ (other _ _ (λ e. cc e)) in
      let (no_failure, _) = or_false failed_none (any is_failure found) a in
      let (passes, currents) =
        or_false (is_empty (with_status Evidence.VerificationStatus.pass input))
          (is_empty (current_evidence input)) d in
      (
        empty (with_status fail input) (not-false _ no_failure),
        empty (with_status inconclusive input) (not-false _ b),
        eq_sound input.work_item.lifecycle_state completed (not-false _ c),
        passes,
        currents,
        empty found (not-false (is_empty found) e),
      )

  -- A reconciliation passes only for a completed work item of the project, when every record that
  -- was given is of the work item, all its evidence is current, no verification failed or stayed
  -- inconclusive, at least one passed, and every one that passed names evidence that is there and
  -- current.
  pub reconcile-pass : (uuid : String) → (reconcile input uuid).state ≡ pass → IsReconciled
  unfolding reconcile conflicts snapshot
  reconcile-pass uuid h = elim (Bool-cases (input.work_item.project_id == input.project.id)) [
    | inr e ↦ cc (rw (e, reconcile) at h)
    | inl e ↦
        let (no_fail, no_doubt, ended, passes, currents, clean) =
          choose_state-pass (conflicts input) (rw (e, reconcile) at h) in
        let (c₁, r₁) =
          ++-[] (conflict (not (length (scoped_evidence input) == length input.evidence)) _) _
            clean in
        let (c₂, r₂) =
          ++-[]
            (conflict (not (length (scoped_verifications input) == length input.verifications)) _) _
            r₁ in
        let (c₃, r₃) =
          ++-[]
            (conflict
              (not
                (is_empty (filter (λ r. not (r.currentness == current)) (scoped_evidence input))))
              _)
            _ r₂ in
        let (c₄, _) =
          ++-[]
            (support_conflicts (scoped_evidence input)
              (with_status Evidence.VerificationStatus.pass input))
            _ r₃ in
        record {
          same_project = eq_sound input.work_item.project_id input.project.id e;
          ended = ended;
          evidence_in_scope = not-false _ (conflict-[] _ _ c₁);
          verifications_in_scope = not-false _ (conflict-[] _ _ c₂);
          all_current =
              none_left (λ r. r.currentness == current) (scoped_evidence input)
                (empty _ (not-false _ (conflict-[] _ _ c₃)));
          none_failed = no_fail;
          none_inconclusive = no_doubt;
          some_passed = passes;
          some_current = currents;
          all_supported =
              supports-IsCurrent (scoped_evidence input)
                (with_status Evidence.VerificationStatus.pass input) c₄;
        }
  ]
