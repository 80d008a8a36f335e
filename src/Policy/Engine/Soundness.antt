-- ===== src/Policy/Engine/Soundness.antt =====
-- What an allowing decision of `evaluate` guarantees, and which classes no decision allows.
use constructie_orchestrator.Base.{
  ◌==◌, ◌≡◌, ◌≢◌, sym, subst, ◌∙◌, String, true, false, not, List, [], ◌∷◌, Option, none, some,
  includes, Elem, All, ok, arith, Bool, inl, inr, ◌⊎◌,
}
use constructie_orchestrator.Policy.Types.{
  owner_implementation_approved, OwnerAuthorityToken_eq, active, MutationClass, source_mutation,
  git_stage, unknown, MutationClass_eq, OwnerAuthorityToken, AuthorityGrantView,
  ReadOnlyExecutionContext, ActionRequest, allow,
}
use constructie_orchestrator.Policy.Matrix.{gate_policy}
use constructie_orchestrator.Policy.Matrix.Facts.{
  forbidden, forbidden-not-allowed, token_of, gate_of, allowed-token_of, allowed-gate_of,
}
use constructie_orchestrator.Policy.Engine.{
  Inspection, check_guards, check_unknown, check_denied, check_allowed, check_tokens,
  check_blanket_add, is_blanket_add, check_file_scope, allowing, stages, evaluate,
}
use constructie_orchestrator.Policy.Engine.Stages.{
  bind_allow, Covers, TokenHeld, check_guards-Refuses, check_guards_clear, check_unknown-Refuses,
  check_unknown_clear, check_denied-Refuses, check_denied_clear, check_allowed-Refuses,
  check_allowed_clear, check_tokens-Refuses, check_tokens_held, check_tokens_granted,
  check_blanket_add-Refuses, check_blanket_add_clear, check_file_scope-Refuses,
  check_file_scope_approved, check_file_scope_named,
}

module _ (i : Inspection) (context : ReadOnlyExecutionContext) (request : ActionRequest) where
  -- All that an allowing decision rests on.
  pub record IsPermitted : Type 0 where
    pub no_secret_file : i.secret_file_guard request ≡ none
    pub no_secret_output : i.secret_output_guard request ≡ none
    pub no_secret_literal : i.secret_literal_guard request ≡ none
    pub no_auth_script : i.auth_credential_script_guard request ≡ none
    pub classified : includes unknown (i.classify request) ≡ false
    pub none_denied :
        All (λ c. includes c (gate_policy context.gate).denied_classes ≡ false) (i.classify request)
    pub all_allowed :
        All
          (λ c. not (includes c (gate_policy context.gate).allowed_classes) ≡ false)
          (i.classify request)
    pub tokens_held :
        All
          (λ c. TokenHeld context request c ((gate_policy context.gate).required_tokens c))
          (i.classify request)
    pub no_blanket_add :
        includes git_stage (i.classify request) ≡ true → is_blanket_add request ≡ false
    pub files_approved :
        (gate_policy context.gate).enforce_file_scope ≡ true
        → All (λ p. context.is_file_approved p ≡ true) request.target_file_paths
    pub files_named :
        (gate_policy context.gate).enforce_file_scope ≡ true
        → request.target_file_paths ≡ []
        → (includes source_mutation (i.classify request) ≡ false)
          × (includes git_stage (i.classify request) ≡ false)

  abbrev Passed : Option String → Type 0
  Passed granted =
      (check_guards i context.gate request ≡ ok tt)
      × (check_unknown context.gate request (i.classify request) ≡ ok tt)
      × (check_denied (gate_policy context.gate) context.gate request (i.classify request) ≡ ok tt)
      × (check_allowed (gate_policy context.gate) context.gate request (i.classify request) ≡ ok tt)
      × (check_tokens context (gate_policy context.gate) request (i.classify request)
            (i.classify request) none
          ≡ ok granted)
      × (check_blanket_add context.gate request (i.classify request) ≡ ok tt)
      × (check_file_scope context (gate_policy context.gate) request (i.classify request) ≡ ok tt)

  Passed-stages :
      (evaluate i context request).decision ≡ allow → (granted : Option String) × Passed granted
  unfolding evaluate stages
  Passed-stages h =
      let classes = i.classify request in
      let gate = context.gate in
      let rule = gate_policy gate in
      let (_, guards, h₁) =
        bind_allow (check_guards i gate request) _ (check_guards-Refuses i gate request) h in
      let (_, known, h₂) =
        bind_allow (check_unknown gate request classes) _
          (check_unknown-Refuses gate request classes) h₁ in
      let (_, denied, h₃) =
        bind_allow (check_denied rule gate request classes) _
          (check_denied-Refuses gate request classes rule) h₂ in
      let (_, allowed, h₄) =
        bind_allow (check_allowed rule gate request classes) _
          (check_allowed-Refuses gate request classes rule) h₃ in
      let (granted, tokens, h₅) =
        bind_allow (check_tokens context rule request classes classes none) _
          (check_tokens-Refuses context request classes rule classes none) h₄ in
      let (_, add, h₆) =
        bind_allow (check_blanket_add gate request classes) _
          (check_blanket_add-Refuses gate request classes) h₅ in
      let (_, scope, _) =
        bind_allow (check_file_scope context rule request classes) _
          (check_file_scope-Refuses context request classes rule) h₆ in
      (granted, (guards, known, denied, allowed, tokens, add, scope))

  -- A request is allowed only if no guard objects, its classes are known, none is denied and all are
  -- allowed at the current gate, each class that needs a token has a covering grant in the context,
  -- no blanket `git add` is staged, and in a gate with file scope every target path is approved and
  -- a request that writes or stages sources names at least one path.
  pub evaluate-allow : (evaluate i context request).decision ≡ allow → IsPermitted
  evaluate-allow h =
      let classes = i.classify request in
      let rule = gate_policy context.gate in
      let (granted, (guards, known, denied, allowed, tokens, add, scope)) = Passed-stages h in
      let clear = check_guards_clear i context.gate request guards in
      record {
        no_secret_file = clear.0;
        no_secret_output = clear.1;
        no_secret_literal = clear.2;
        no_auth_script = clear.3;
        classified = check_unknown_clear context.gate request classes known;
        none_denied = check_denied_clear context.gate request classes rule denied;
        all_allowed = check_allowed_clear context.gate request classes rule allowed;
        tokens_held = check_tokens_held context request classes rule classes none granted tokens;
        no_blanket_add = check_blanket_add_clear context.gate request classes add;
        files_approved = check_file_scope_approved context request classes rule scope;
        files_named = check_file_scope_named context request classes rule scope;
      }

  evaluate-Passed :
      (granted : Option String)
      → Passed granted
      → evaluate i context request ≡ allowing context.gate request (i.classify request) granted
  unfolding evaluate stages
  evaluate-Passed granted (guards, known, denied, allowed, tokens, add, scope) =
      rw (guards, known, denied, allowed, tokens, add, scope)

  -- The grant that an allowing decision names is in the context, active, and of the request's task.
  pub evaluate_granted :
      (id : String)
      → (evaluate i context request).decision ≡ allow
      → (evaluate i context request).granted_by_authority_id ≡ some id
      → (a : AuthorityGrantView) × Elem a context.active_authorities
        × (a.grant_id ≡ id)
        × (a.status ≡ active)
        × (a.task_id ≡ request.task_id)
        × ((a.token == owner_implementation_approved) ≡ false)
  unfolding allowing
  evaluate_granted id h g =
      let classes = i.classify request in
      let (granted, p) = Passed-stages h in
      let same : granted ≡ some id = rw (evaluate-Passed granted p) at g in
      found (
        check_tokens_granted context request classes (gate_policy context.gate) classes none id
          (rw same at (p.4)))
    where
      found : {A : Type 0} → (◌≡◌ {A = Option String} none (some id)) ⊎ A → A
      found (inl e) = cc
      found (inr a) = a

All-Elem :
    (P : MutationClass → Type 0) (cs : List MutationClass) {c : MutationClass}
    → All P cs
    → Elem c cs
    → P c
All-Elem P [] a m = absurd m
All-Elem P (x ∷ xs) (p, a) (inl e) = subst P (sym e) p
All-Elem P (x ∷ xs) (p, a) (inr m) = All-Elem P xs a m

module _ (i : Inspection) (context : ReadOnlyExecutionContext) (request : ActionRequest) where
  not-not : (b : Bool) → not b ≡ false → b ≡ true
  not-not b h = ground arith

  class_allowed :
      (cls : MutationClass)
      → (evaluate i context request).decision ≡ allow
      → Elem cls (i.classify request)
      → includes cls (gate_policy context.gate).allowed_classes ≡ true
  class_allowed cls h m = not-not (includes cls (gate_policy context.gate).allowed_classes) (
      All-Elem (λ c. not (includes c (gate_policy context.gate).allowed_classes) ≡ false)
        (i.classify request) (evaluate-allow i context request h).all_allowed m)

  -- A request with a class that destroys, mutates production or a database, touches secrets or is
  -- unknown is allowed at no gate, whatever grants are held.
  pub evaluate-forbidden :
      (cls : MutationClass)
      → includes cls forbidden ≡ true
      → Elem cls (i.classify request)
      → (evaluate i context request).decision ≢ allow
  evaluate-forbidden cls f m h =
      cc (class_allowed cls h m, forbidden-not-allowed context.gate cls f)

  -- An allowed source write, stage, commit, push or deployment happens at its own gate, under an
  -- active grant of its own token for the request's task; a commit, push or deploy grant is bound to
  -- this gate and action.
  pub evaluate_authorised :
      (cls : MutationClass) (token : OwnerAuthorityToken)
      → token_of cls ≡ some token
      → Elem cls (i.classify request)
      → (evaluate i context request).decision ≡ allow
      → (gate_of cls ≡ some context.gate)
        × ((a : AuthorityGrantView) × Elem a context.active_authorities
            × Covers context.gate request.task_id token cls a)
  evaluate_authorised cls token t m h =
      let allowed = class_allowed cls h m in
      let needs = allowed-token_of context.gate cls allowed ∙ t in
      (
        at_gate cls t (allowed-gate_of context.gate cls allowed),
        rw needs at (
            All-Elem
              (λ c. TokenHeld context request c ((gate_policy context.gate).required_tokens c))
              (i.classify request) (evaluate-allow i context request h).tokens_held m),
      )
    where
      at_gate :
          (c : MutationClass)
          → token_of c ≡ some token
          → (gate_of c ≡ none) ⊎ (gate_of c ≡ some context.gate)
          → gate_of c ≡ some context.gate
      at_gate source_mutation e h = ground arith
      at_gate _ e h = ground arith
