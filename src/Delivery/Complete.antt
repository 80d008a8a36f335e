-- ===== src/Delivery/Complete.antt =====
-- packages/completion/src/engine.ts: what a decision COMPLETE rests on.
use constructie_orchestrator.Base.{
  ◌≡◌, ◌≢◌, refl, ap, ◌∙◌, String, List, [], ◌∷◌, ◌++◌, map, Bool, true, false, not, ◌&&◌, ◌==◌,
  Result, ok, ok_inj, eq_sound, ℕ_eq, String_eq, includes, includes-Elem, Elem, All, is_empty, all,
  all-Elem, filter-Elem, and_true, Bool-cases, inl, inr, if◌then◌else◌,
}
use constructie_orchestrator.Domain.WorkItem.{WorkItemLifecycleState_eq, completed}
use constructie_orchestrator.Domain.Evidence.{
  EvidenceRecord, VerificationRecord, VerificationStatus_eq, EvidenceCurrentness_eq, pass, fail,
}
use constructie_orchestrator.Delivery.Reconciliation.{ReconciliationState_eq}
use constructie_orchestrator.Delivery.Reconciliation
use constructie_orchestrator.Delivery.Completion.{
  CompletionEvaluationInput, CmoResolution, required, unresolved, n_a, done, CmoStatus, Draft,
  complete, ResidualType, claims_given, cmo_residual, cmo_scope, resolve_cmos_for_project, scoped,
  scoped_current_evidence, failure_scope, valid_verifications, is_fresh, weigh, draft,
}

-- A branch whose value is excluded was not taken.
pub passed_by :
    {A : Type 0} (b : Bool) (x y : A) {z : A}
    → (if b then x else y) ≡ z
    → x ≢ z
    → (b ≡ false) × (y ≡ z)
passed_by true x y h n = absurd (n h)
passed_by false x y h n = (refl, h)

pub not-false : (b : Bool) → not b ≡ false → b ≡ true
not-false true h = refl
not-false false h = cc

pub not-true : (b : Bool) → not b ≡ true → b ≡ false
not-true true h = cc
not-true false h = refl

++-empty : {A : Type 0} (xs ys : List A) → is_empty (xs ++ ys) ≡ true → (xs ≡ []) × (ys ≡ [])
++-empty [] [] h = (refl, refl)
++-empty [] (y ∷ ys) h = cc
++-empty (x ∷ xs) ys h = cc

first : {A : Type 0} (xs : List A) → is_empty xs ≡ false → (x : A) × Elem x xs
first [] h = cc
first (x ∷ xs) h = (x, inl refl)

map-empty : {A B : Type 0} (f : A → B) (xs : List A) → map f xs ≡ [] → xs ≡ []
map-empty f [] h = refl
map-empty f (x ∷ xs) h = cc

module _ (input : CompletionEvaluationInput) where
  -- A verification of the work item that passed and is supported by its current evidence.
  abbrev pub Verified : Type 0
  Verified =
      (v : VerificationRecord) × Elem v input.verifications
      × (v.project_id ≡ input.project.id)
      × (v.work_item_id ≡ input.work_item.id)
      × (v.status ≡ pass)
      × (is_empty v.evidence_ids ≡ false)
      × ((id : String)
          → Elem id v.evidence_ids
          → Elem id (map (λ (e : EvidenceRecord). e.id) (scoped_current_evidence input)))

  -- The obligation is not open: not unresolved, and claimed by current evidence if it is required.
  abbrev pub Settled : CmoResolution → Type 0
  Settled c = (c.status ≢ unresolved) × (c.status ≡ required → Elem c.cmo_id (claims_given input))

  pub record IsComplete : Type 0 where
    pub same_project : input.work_item.project_id ≡ input.project.id
    pub fresh : is_fresh input ≡ true
    pub reconciled : input.reconciliation.state ≡ Reconciliation.ReconciliationState.pass
    pub ended : input.work_item.lifecycle_state ≡ completed
    pub verified : Verified
    pub none_failed : scoped input fail ≡ []
    pub obligations : All Settled (
        resolve_cmos_for_project
          (record { project = input.project; work_item = input.work_item })
          [])

  other_state :
      (x d : Draft)
      → d.state ≡ complete
      → x.state ≢ complete
      → ◌≢◌ {A = Result String Draft} (ok x) (ok d)
  other_state x d h n e = n (ap (λ (y : Draft). y.state) (ok_inj e) ∙ h)

  cmo-Settled :
      (cs : List CmoResolution) → cmo_residual (claims_given input) cs ≡ [] → All Settled cs
  unfolding cmo_residual
  cmo-Settled [] h = tt
  cmo-Settled (c ∷ cs) h = cases (cmo-Settled cs) c.status refl
    where
      cases :
          (cmo_residual (claims_given input) cs ≡ [] → All Settled cs)
          → (s : CmoStatus) → c.status ≡ s
          → All Settled (c ∷ cs)
      cases rest unresolved e = cc (rw (e, cmo_residual) at h)
      cases rest required e = elim (Bool-cases (includes c.cmo_id (claims_given input))) [
        | inl m ↦ (
          ((λ u. cc (e, u)), λ _. includes-Elem c.cmo_id (claims_given input) m),
          rest (rw (e, m, cmo_residual) at h),
        )
        | inr m ↦ cc (rw (e, m, cmo_residual) at h)
      ]
      cases rest n_a e = (((λ u. cc (e, u)), λ u. cc (e, u)), rest (rw (e, cmo_residual) at h))
      cases rest done e = (((λ u. cc (e, u)), λ u. cc (e, u)), rest (rw (e, cmo_residual) at h))

  weigh-complete :
      (cmos : List (String × ResidualType))
      → (weigh input cmos).state ≡ complete
      → (is_empty (valid_verifications input) ≡ false) × (cmos ≡ []) × (scoped input fail ≡ [])
  unfolding weigh failure_scope
  weigh-complete cmos h = elim (Bool-cases (is_empty (valid_verifications input))) [
    | inl e ↦ cc (rw e at h)
    | inr e ↦ elim (Bool-cases (is_empty (cmos ++ failure_scope input))) [
      | inl f ↦
          let (none_open, none_failed) = ++-empty cmos (failure_scope input) f in
          (e, none_open, map-empty _ (scoped input fail) none_failed)
      | inr f ↦ cc (rw (e, f) at h)
    ]
  ]

  valid-verified : is_empty (valid_verifications input) ≡ false → Verified
  unfolding valid_verifications scoped
  valid-verified h =
      let (v, m) = first (valid_verifications input) h in
      let supported = map (λ (e : EvidenceRecord). e.id) (scoped_current_evidence input) in
      let (test, in_scope) =
        filter-Elem
          (λ x. not (is_empty x.evidence_ids) && all (λ id. includes id supported) x.evidence_ids)
          (scoped input pass) m in
      let (supports, listed) = filter-Elem _ input.verifications in_scope in
      let (filled, all_supported) = and_true (not (is_empty v.evidence_ids)) _ test in
      let (project, rest) = and_true (v.project_id == input.project.id) _ supports in
      let (item, passes) =
        and_true (v.work_item_id == input.work_item.id) (v.status == pass) rest in
      (
        v,
        listed,
        eq_sound v.project_id input.project.id project,
        eq_sound v.work_item_id input.work_item.id item,
        eq_sound v.status pass passes,
        not-true (is_empty v.evidence_ids) filled,
        λ id k.
            includes-Elem id supported
              (all-Elem (λ x. includes x supported) v.evidence_ids all_supported k),
      )

  -- The engine decides COMPLETE only for a completed work item of the project, on a reconciliation
  -- that passed at the current revisions of both, with a passed verification that current evidence
  -- supports, no failed verification, and every CMO settled.
  pub draft-complete : (d : Draft) → draft input ≡ ok d → d.state ≡ complete → IsComplete
  unfolding draft cmo_scope
  draft-complete d h s =
      let other = λ (x : Draft). other_state x d s in
      let (same, h₁) =
        passed_by (not (input.work_item.project_id == input.project.id)) _ _ h (λ e. cc e) in
      let (fresh, h₂) = passed_by (not (is_fresh input)) _ _ h₁ (other _ (λ e. cc e)) in
      let (_, h₃) =
        passed_by (input.reconciliation.state == Reconciliation.ReconciliationState.blocked) _ _ h₂
          (other _ (λ e. cc e)) in
      let (reconciled, h₄) =
        passed_by (not (input.reconciliation.state == Reconciliation.ReconciliationState.pass)) _ _
          h₃ (other _ (λ e. cc e)) in
      let (ended, h₅) =
        passed_by (not (input.work_item.lifecycle_state == completed)) _ _ h₄
          (other _ (λ e. cc e)) in
      let (verified, none_open, none_failed) =
        weigh-complete (cmo_scope input) (ap (λ (x : Draft). x.state) (ok_inj h₅) ∙ s) in
      record {
        same_project =
            eq_sound _ _ (not-false (input.work_item.project_id == input.project.id) same);
        fresh = not-false (is_fresh input) fresh;
        reconciled =
            eq_sound input.reconciliation.state Reconciliation.ReconciliationState.pass
              (not-false _ reconciled);
        ended = eq_sound input.work_item.lifecycle_state completed (not-false _ ended);
        verified = valid-verified verified;
        none_failed = none_failed;
        obligations =
            cmo-Settled
              (resolve_cmos_for_project
                (record { project = input.project; work_item = input.work_item }) [])
              none_open;
      }
