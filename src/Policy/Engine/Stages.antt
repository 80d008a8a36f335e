-- ===== src/Policy/Engine/Stages.antt =====
-- What each stage of `evaluate` establishes when it lets a request pass, and that a stage that
-- stops a request never stops it with an allowing decision.
use constructie_orchestrator.Base.{
  ◌≡◌, ◌≢◌, refl, ap, String, String_eq, Option_eq, true, false, not, ◌&&◌, List, [], ◌∷◌, Option,
  none, some, includes, find, find-some, if◌then◌else◌, ◌==◌, ok, err, ◌>>=◌, >>=-eq-ok, Bool-cases,
  Option-cases, Elem, All, and_true, arith, eq_sound, Bool, inl, inr, ◌⊎◌,
}
use constructie_orchestrator.Policy.Types.{
  MutationClass, source_mutation, git_stage, unknown, name, MutationClass_eq, ExecutionGate,
  OwnerAuthorityToken, OwnerAuthorityToken_eq, OwnerAuthorityToken-discrete,
  owner_implementation_approved, OwnerAuthorityToken_eq, AuthorityGrantView, active,
  AuthorityGrantStatus_eq, ReadOnlyExecutionContext, ActionRequest, allow, ActionPolicyDecision,
  GateRule, ExecutionGate_eq,
}
use constructie_orchestrator.Policy.Engine.{
  Inspection, Stage, first_violation, check_guards, check_unknown, check_denied, check_allowed,
  matches_grant, is_sensitive, target_action, open_gate, open_action, token_turn, consumes_grant,
  check_tokens, check_blanket_add, is_blanket_add, check_paths, check_file_scope, settle,
}

abbrev pub Refuses : {A : Type 0} → Stage A → Type 0
Refuses (ok a) = Unit
Refuses (err d) = d.decision ≢ allow

-- A chain that ends in an allowing decision passed its first stage.
pub bind_allow :
    {A : Type 0} (m : Stage A) (f : A → Stage ActionPolicyDecision)
    → Refuses m
    → (settle (m >>= f)).decision ≡ allow
    → (a : A) × (m ≡ ok a) × ((settle (f a)).decision ≡ allow)
unfolding settle
bind_allow (ok a) f r h = (a, refl, h)
bind_allow (err d) f r h = absurd (r h)

module _ {A : Type 0} where
  find-none : (p : A → Bool) (xs : List A) → find p xs ≡ none → All (λ x. p x ≡ false) xs
  find-none p [] h = tt
  find-none p (x ∷ xs) h = elim (Bool-cases (p x)) [
    | inl e ↦ cc (rw e at h)
    | inr e ↦ (e, find-none p xs (rw e at h))
  ]

module _ (i : Inspection) (gate : ExecutionGate) (request : ActionRequest) where
  pub check_guards-Refuses : Refuses (check_guards i gate request)
  unfolding check_guards first_violation
  check_guards-Refuses = ground arith

  pub check_guards_clear :
      check_guards i gate request ≡ ok tt
      → (i.secret_file_guard request ≡ none)
        × (i.secret_output_guard request ≡ none)
        × (i.secret_literal_guard request ≡ none)
        × (i.auth_credential_script_guard request ≡ none)
  unfolding check_guards first_violation
  check_guards_clear h = ground arith

module _ (gate : ExecutionGate) (request : ActionRequest) (classes : List MutationClass) where
  pub check_unknown-Refuses : Refuses (check_unknown gate request classes)
  unfolding check_unknown
  check_unknown-Refuses = ground arith

  pub check_unknown_clear :
      check_unknown gate request classes ≡ ok tt → includes unknown classes ≡ false
  unfolding check_unknown
  check_unknown_clear h = ground arith

  pub check_blanket_add-Refuses : Refuses (check_blanket_add gate request classes)
  unfolding check_blanket_add
  check_blanket_add-Refuses =
      elim (Bool-cases (includes git_stage classes && is_blanket_add request)) [
        | inl e ↦ rw e (λ q. cc)
        | inr e ↦ rw e tt
      ]

  pub check_blanket_add_clear :
      check_blanket_add gate request classes ≡ ok tt
      → includes git_stage classes ≡ true
      → is_blanket_add request ≡ false
  unfolding check_blanket_add
  check_blanket_add_clear h g = ground arith

  module _ (rule : GateRule) where
    pub check_denied-Refuses : Refuses (check_denied rule gate request classes)
    unfolding check_denied
    check_denied-Refuses = ground arith

    pub check_denied_clear :
        check_denied rule gate request classes ≡ ok tt
        → All (λ c. includes c rule.denied_classes ≡ false) classes
    unfolding check_denied
    check_denied_clear h = find-none (λ c. includes c rule.denied_classes) classes (ground arith)

    pub check_allowed-Refuses : Refuses (check_allowed rule gate request classes)
    unfolding check_allowed
    check_allowed-Refuses = ground arith

    pub check_allowed_clear :
        check_allowed rule gate request classes ≡ ok tt
        → All (λ c. not (includes c rule.allowed_classes) ≡ false) classes
    unfolding check_allowed
    check_allowed_clear h =
        find-none (λ c. not (includes c rule.allowed_classes)) classes (ground arith)

-- A grant that covers a class: held for this task, active, and for a sensitive token bound to this
-- gate and action.
pub record Covers (gate : ExecutionGate) (task : String) (token : OwnerAuthorityToken)
    (cls : MutationClass) (a : AuthorityGrantView) : Type 0 where
  pub same_token : a.token ≡ token
  pub is_active : a.status ≡ active
  pub same_task : a.task_id ≡ task
  pub bound_gate : is_sensitive token ≡ true → a.bound_to_gate ≡ some gate
  pub bound_action :
      is_sensitive token ≡ true → a.bound_to_action ≡ some (name (target_action token cls))

abbrev bond : ExecutionGate → OwnerAuthorityToken → MutationClass → AuthorityGrantView → Bool
bond gate token cls a =
    let target = name (target_action token cls) in
    if is_sensitive token
    then a.bound_to_gate == some gate && a.bound_to_action == some target
    else open_gate a.bound_to_gate gate && open_action a.bound_to_action target

bound_when_sensitive :
    (gate : ExecutionGate) (token : OwnerAuthorityToken) (cls : MutationClass)
    (a : AuthorityGrantView)
    → bond gate token cls a ≡ true
    → is_sensitive token ≡ true
    → (a.bound_to_gate ≡ some gate) × (a.bound_to_action ≡ some (name (target_action token cls)))
bound_when_sensitive gate token cls a b s =
    let target = name (target_action token cls) in
    let strict : (a.bound_to_gate == some gate && a.bound_to_action == some target) ≡ true =
      rw s at b in
    let (g, t) = and_true _ _ strict in
    (eq_sound a.bound_to_gate (some gate) g, eq_sound a.bound_to_action (some target) t)

pub matches_grant-Covers :
    (gate : ExecutionGate) (task : String) (token : OwnerAuthorityToken) (cls : MutationClass)
    (a : AuthorityGrantView)
    → matches_grant gate task token cls a ≡ true
    → Covers gate task token cls a
unfolding matches_grant
matches_grant-Covers gate task token cls a h =
    let (token_ok, rest) =
      and_true (a.token == token)
        (a.status == active && (a.task_id == task && bond gate token cls a)) h in
    let (status_ok, more) =
      and_true (a.status == active) (a.task_id == task && bond gate token cls a) rest in
    let (task_ok, bound) = and_true (a.task_id == task) (bond gate token cls a) more in
    let strict = bound_when_sensitive gate token cls a bound in
    record {
      same_token = eq_sound a.token token token_ok;
      is_active = eq_sound a.status active status_ok;
      same_task = eq_sound a.task_id task task_ok;
      bound_gate = λ s. (strict s).0;
      bound_action = λ s. (strict s).1;
    }

consumes_grant_single :
    (cls : MutationClass) (token : OwnerAuthorityToken)
    → consumes_grant cls token ≡ true
    → (token == owner_implementation_approved) ≡ false
unfolding consumes_grant OwnerAuthorityToken-discrete
consumes_grant_single cls owner_implementation_approved h = ground arith
consumes_grant_single cls _ h = refl

-- What the token loop leaves behind: a class that needs a token has a grant in the view.
abbrev pub TokenHeld :
    ReadOnlyExecutionContext → ActionRequest → MutationClass → Option OwnerAuthorityToken → Type 0
TokenHeld context request cls none = Unit
TokenHeld context request cls (some token) =
    (a : AuthorityGrantView) × Elem a context.active_authorities
    × Covers context.gate request.task_id token cls a

module _ (context : ReadOnlyExecutionContext) (request : ActionRequest)
    (classes : List MutationClass) where
  pub token_turn-Refuses :
      (cls : MutationClass) (token : Option OwnerAuthorityToken) (granted : Option String)
      → Refuses (token_turn context request classes cls token granted)
  unfolding token_turn
  token_turn-Refuses cls none granted = tt
  token_turn-Refuses cls (some token) granted = ground arith

  token_turn_held :
      (cls : MutationClass) (token : Option OwnerAuthorityToken) (granted out : Option String)
      → token_turn context request classes cls token granted ≡ ok out
      → TokenHeld context request cls token
  unfolding token_turn
  token_turn_held cls none granted out h = tt
  token_turn_held cls (some token) granted out h =
      let test = matches_grant context.gate request.task_id token cls in
      elim (Option-cases (find test context.active_authorities)) [
        | inl e ↦ cc (rw (e, token_turn) at h)
        | inr (a, e) ↦
            let (p, m) = find-some test context.active_authorities e in
            (a, m, matches_grant-Covers context.gate request.task_id token cls a p)
      ]

  module _ (rule : GateRule) where
    pub check_tokens-Refuses :
        (left : List MutationClass) (granted : Option String)
        → Refuses (check_tokens context rule request classes left granted)
    unfolding check_tokens
    check_tokens-Refuses [] granted = tt
    check_tokens-Refuses (c ∷ cs) granted =
        next (token_turn context request classes c (rule.required_tokens c) granted)
          (token_turn-Refuses c (rule.required_tokens c) granted) (λ g. check_tokens-Refuses cs g)
      where
        next :
            (m : Stage (Option String))
            → Refuses m
            → ((g : Option String) → Refuses (check_tokens context rule request classes cs g))
            → Refuses (m >>= check_tokens context rule request classes cs)
        next (ok g) r k = k g
        next (err d) r k = r

    pub check_tokens_held :
        (left : List MutationClass) (granted out : Option String)
        → check_tokens context rule request classes left granted ≡ ok out
        → All (λ c. TokenHeld context request c (rule.required_tokens c)) left
    unfolding check_tokens
    check_tokens_held [] granted out h = tt
    check_tokens_held (c ∷ cs) granted out h =
        let (g, e, rest) =
          >>=-eq-ok (token_turn context request classes c (rule.required_tokens c) granted)
            (check_tokens context rule request classes cs) h in
        (token_turn_held c (rule.required_tokens c) granted g e, check_tokens_held cs g out rest)

  pub check_paths-Refuses :
      (paths : List String) → Refuses (check_paths context request classes paths)
  unfolding check_paths
  check_paths-Refuses [] = ground arith
  check_paths-Refuses (p ∷ ps) = ground arith

  pub check_paths_approved :
      (paths : List String)
      → check_paths context request classes paths ≡ ok tt
      → All (λ p. context.is_file_approved p ≡ true) paths
  unfolding check_paths
  check_paths_approved [] h = tt
  check_paths_approved (p ∷ ps) h =
      approve (p ∷ ps)
        (find-none (λ path. not (context.is_file_approved path)) (p ∷ ps) (ground arith))
    where
      approve :
          (xs : List String)
          → All (λ x. not (context.is_file_approved x) ≡ false) xs
          → All (λ x. context.is_file_approved x ≡ true) xs
      approve [] a = tt
      approve (x ∷ xs) a = (ground (arith, a.0), approve xs a.1)

  pub check_paths_named :
      check_paths context request classes [] ≡ ok tt
      → (includes source_mutation classes ≡ false) × (includes git_stage classes ≡ false)
  unfolding check_paths
  check_paths_named h = ground arith

  pub check_file_scope-Refuses :
      (rule : GateRule) → Refuses (check_file_scope context rule request classes)
  unfolding check_file_scope
  check_file_scope-Refuses rule = elim (Bool-cases rule.enforce_file_scope) [
    | inl e ↦ rw e (check_paths-Refuses request.target_file_paths)
    | inr e ↦ rw e tt
  ]

  check_file_scope_paths :
      (rule : GateRule)
      → check_file_scope context rule request classes ≡ ok tt
      → rule.enforce_file_scope ≡ true
      → check_paths context request classes request.target_file_paths ≡ ok tt
  unfolding check_file_scope
  check_file_scope_paths rule h e = rw e at h

  pub check_file_scope_approved :
      (rule : GateRule)
      → check_file_scope context rule request classes ≡ ok tt
      → rule.enforce_file_scope ≡ true
      → All (λ p. context.is_file_approved p ≡ true) request.target_file_paths
  check_file_scope_approved rule h e =
      check_paths_approved request.target_file_paths (check_file_scope_paths rule h e)

  pub check_file_scope_named :
      (rule : GateRule)
      → check_file_scope context rule request classes ≡ ok tt
      → rule.enforce_file_scope ≡ true
      → request.target_file_paths ≡ []
      → (includes source_mutation classes ≡ false) × (includes git_stage classes ≡ false)
  unfolding check_paths
  check_file_scope_named rule h e q = check_paths_named (rw q at (check_file_scope_paths rule h e))

  -- The grant that the decision names was found active in the view.
  token_turn_granted :
      (cls : MutationClass) (token : Option OwnerAuthorityToken) (granted : Option String)
      (id : String)
      → token_turn context request classes cls token granted ≡ ok (some id)
      → (granted ≡ some id)
        ⊎ ((a : AuthorityGrantView) × Elem a context.active_authorities
            × (a.grant_id ≡ id)
            × (a.status ≡ active)
            × (a.task_id ≡ request.task_id)
            × ((a.token == owner_implementation_approved) ≡ false))
  unfolding token_turn
  token_turn_granted cls none granted id h = inl (ground (arith, h))
  token_turn_granted cls (some token) granted id h =
      let test = matches_grant context.gate request.task_id token cls in
      elim (Option-cases (find test context.active_authorities)) [
        | inl e ↦ cc (rw (e, token_turn) at h)
        | inr (a, e) ↦
            let (p, m) = find-some test context.active_authorities e in
            let c = matches_grant-Covers context.gate request.task_id token cls a p in
            elim (Bool-cases (consumes_grant cls token)) [
              | inl k ↦ inr (
                a,
                m,
                ground (arith, rw (e, token_turn, k) at h),
                c.is_active,
                c.same_task,
                rw
                    (ap (λ (t : OwnerAuthorityToken). t == owner_implementation_approved)
                      c.same_token)
                    (consumes_grant_single cls token k),
              )
              | inr k ↦ inl (ground (arith, rw (e, token_turn, k) at h))
            ]
      ]

  pub check_tokens_granted :
      (rule : GateRule) (left : List MutationClass) (granted : Option String) (id : String)
      → check_tokens context rule request classes left granted ≡ ok (some id)
      → (granted ≡ some id)
        ⊎ ((a : AuthorityGrantView) × Elem a context.active_authorities
            × (a.grant_id ≡ id)
            × (a.status ≡ active)
            × (a.task_id ≡ request.task_id)
            × ((a.token == owner_implementation_approved) ≡ false))
  unfolding check_tokens
  check_tokens_granted rule [] granted id h = inl (ground (arith, h))
  check_tokens_granted rule (c ∷ cs) granted id h =
      let (g, e, rest) =
        >>=-eq-ok (token_turn context request classes c (rule.required_tokens c) granted)
          (check_tokens context rule request classes cs) h in
      elim (check_tokens_granted rule cs g id rest) [
        | inl q ↦ token_turn_granted c (rule.required_tokens c) granted id (rw q at e)
        | inr a ↦ inr a
      ]
