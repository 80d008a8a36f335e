-- ===== src/Policy/Classifier/Closed.antt =====
-- What reaches the classification, and that no gate allows a git operation that throws work away.
use constructie_orchestrator.Base.{
  ◌==◌, ◌≡◌, ◌≢◌, refl, true, false, not, List, [], ◌∷◌, ◌++◌, includes, Elem, Elem-includes,
  includes-Elem, filter, Bool, inl, inr, ◌⊎◌, Bool-cases, eq_self, ◌&&◌, String_eq,
}
use constructie_orchestrator.Policy.Types.{
  MutationClass, MutationClass_eq, local_mutation, production_mutation, unknown, Environment,
  Environment_eq, production, ActionRequest, allow, ReadOnlyExecutionContext,
  MutationClass-discrete,
}
use constructie_orchestrator.Policy.Matrix.Facts.{forbidden}
use constructie_orchestrator.Policy.Engine.{evaluate}
use constructie_orchestrator.Policy.Engine.Soundness.{evaluate-forbidden}
use constructie_orchestrator.Policy.Classifier.{
  add, add_all, by_tool, by_http_method, by_resource, by_environment, added, or_unknown, classify,
}
use constructie_orchestrator.Policy.Classifier.Command.{by_git_operation, by_command}
use constructie_orchestrator.Policy.Classifier.Guards.{inspection}

Elem-++ : {A : Type 0} (a : A) (xs ys : List A) → Elem a xs ⊎ Elem a ys → Elem a (xs ++ ys)
Elem-++ a [] ys (inl m) = absurd m
Elem-++ a [] ys (inr m) = m
Elem-++ a (x ∷ xs) ys (inl (inl e)) = inl e
Elem-++ a (x ∷ xs) ys (inl (inr m)) = inr (Elem-++ a xs ys (inl m))
Elem-++ a (x ∷ xs) ys (inr m) = inr (Elem-++ a xs ys (inr m))

Elem-filter :
    {A : Type 0} (p : A → Bool) (a : A) (xs : List A)
    → p a ≡ true
    → Elem a xs
    → Elem a (filter p xs)
Elem-filter p a [] h m = m
Elem-filter p a (x ∷ xs) h (inl e) = rw (← e, h) (inl refl)
Elem-filter p a (x ∷ xs) h (inr m) = elim (Bool-cases (p x)) [
  | inl e ↦ rw e (inr (Elem-filter p a xs h m))
  | inr e ↦ rw e (Elem-filter p a xs h m)
]

add-Elem :
    (a c : MutationClass) (out : List MutationClass) → Elem a out ⊎ (a ≡ c) → Elem a (add c out)
unfolding add
add-Elem a c out h = elim (Bool-cases (includes c out)) [
  | inl e ↦ rw e (elim h [ inl m ↦ m | inr q ↦ rw q (includes-Elem c out e) ])
  | inr e ↦ rw e (Elem-++ a out (c ∷ []) (elim h [ inl m ↦ inl m | inr q ↦ inr (inl q) ]))
]

-- A class is in the set after a step that adds it or finds it there.
pub add_all-Elem :
    (a : MutationClass) (cs out : List MutationClass)
    → Elem a cs ⊎ Elem a out
    → Elem a (add_all cs out)
unfolding add_all
add_all-Elem a [] out (inl m) = absurd m
add_all-Elem a [] out (inr m) = m
add_all-Elem a (c ∷ cs) out (inl (inl e)) =
    add_all-Elem a cs (add c out) (inr (add-Elem a c out (inr e)))
add_all-Elem a (c ∷ cs) out (inl (inr m)) = add_all-Elem a cs (add c out) (inl m)
add_all-Elem a (c ∷ cs) out (inr m) = add_all-Elem a cs (add c out) (inr (add-Elem a c out (inl m)))

-- What one of the five steps gives.
pub data IsAdded (request : ActionRequest) (c : MutationClass) : Type 0 where
  from_tool : Elem c (by_tool request) → IsAdded request c
  from_method : Elem c (by_http_method request) → IsAdded request c
  from_git : Elem c (by_git_operation request.git_operation request.args) → IsAdded request c
  from_command : Elem c (by_command request.command) → IsAdded request c
  from_resource : Elem c (by_resource request) → IsAdded request c

added-Elem :
    (request : ActionRequest) (c : MutationClass) → IsAdded request c → Elem c (added request)
unfolding added
added-Elem request c h =
    let t = add_all (by_tool request) [] in
    let m = add_all (by_http_method request) t in
    let g = add_all (by_git_operation request.git_operation request.args) m in
    let s = add_all (by_command request.command) g in
    let in_g : Elem c m → Elem c (added request) = λ e. add_all-Elem c (by_resource request) s (
      inr (
        add_all-Elem c (by_command request.command) g (
          inr (add_all-Elem c (by_git_operation request.git_operation request.args) m (inr e))))) in
    elim h [
      | from_tool e ↦ in_g (
          add_all-Elem c (by_http_method request) t
            (inr (add_all-Elem c (by_tool request) [] (inl e))))
      | from_method e ↦ in_g (add_all-Elem c (by_http_method request) t (inl e))
      | from_git e ↦ add_all-Elem c (by_resource request) s (
          inr (
            add_all-Elem c (by_command request.command) g (
              inr
                (add_all-Elem c (by_git_operation request.git_operation request.args) m (inl e)))))
      | from_command e ↦
          add_all-Elem c (by_resource request) s
            (inr (add_all-Elem c (by_command request.command) g (inl e)))
      | from_resource e ↦ add_all-Elem c (by_resource request) s (inl e)
    ]

by_environment-Elem :
    (e : Environment) (c : MutationClass) (out : List MutationClass)
    → (c == local_mutation) ≡ false
    → Elem c out
    → Elem c (by_environment e out)
unfolding by_environment
by_environment-Elem e c out n m =
    elim (Bool-cases (e == production && includes local_mutation out)) [
      | inl q ↦ rw q (
          add-Elem c production_mutation (filter (λ x. not (x == local_mutation)) out)
            (inl (Elem-filter (λ x. not (x == local_mutation)) c out (rw n) m)))
      | inr q ↦ rw q m
    ]

by_environment_upgraded :
    (e : Environment) (out : List MutationClass)
    → e ≡ production
    → Elem local_mutation out
    → Elem production_mutation (by_environment e out)
unfolding by_environment
by_environment_upgraded e out p m =
    rw (p, eq_self production, Elem-includes local_mutation out m)
      (add-Elem production_mutation production_mutation
        (filter (λ x. not (x == local_mutation)) out) (inr refl))

or_unknown-Elem :
    (c : MutationClass) (out : List MutationClass) → Elem c out → Elem c (or_unknown out)
unfolding or_unknown
or_unknown-Elem c [] m = absurd m
or_unknown-Elem c (x ∷ out) m = m

by_environment_empty : (e : Environment) → by_environment e [] ≡ []
unfolding by_environment
by_environment_empty e = elim (Bool-cases (e == production)) [ inl q ↦ rw q | inr q ↦ rw q ]

-- A request that nothing may allow: no step knows it, a step gives it a class that no gate allows, or
-- it changes something local in production.
pub data IsForbidden (request : ActionRequest) : Type 0 where
  unclassified : added request ≡ [] → IsForbidden request
  denied :
      (c : MutationClass) → includes c forbidden ≡ true → IsAdded request c → IsForbidden request
  in_production :
      request.environment ≡ production → IsAdded request local_mutation → IsForbidden request

not_local : (c : MutationClass) → includes c forbidden ≡ true → (c == local_mutation) ≡ false
unfolding MutationClass-discrete
not_local local_mutation h = cc
not_local _ h = refl

classify-IsForbidden :
    (request : ActionRequest)
    → IsForbidden request
    → (c : MutationClass) × (includes c forbidden ≡ true) × Elem c (classify request)
unfolding classify or_unknown add MutationClass-discrete
classify-IsForbidden request (unclassified e) =
    (unknown, refl, rw (e, by_environment_empty request.environment) (inl refl))
classify-IsForbidden request (denied c f h) = (
  c,
  f,
  or_unknown-Elem c (by_environment request.environment (added request)) (
      by_environment-Elem request.environment c (added request) (not_local c f)
        (added-Elem request c h)),
)
classify-IsForbidden request (in_production e h) = (
  production_mutation,
  refl,
  or_unknown-Elem production_mutation (by_environment request.environment (added request)) (
      by_environment_upgraded request.environment (added request) e
        (added-Elem request local_mutation h)),
)

-- With the engine's own classifier and guards, a request that no step classifies, to which a step
-- gives a class that no gate allows, or which changes something local in production, is not allowed,
-- whatever the gate and the grants are.
pub evaluate-IsForbidden :
    (context : ReadOnlyExecutionContext) (request : ActionRequest)
    → IsForbidden request
    → (evaluate inspection context request).decision ≢ allow
unfolding inspection
evaluate-IsForbidden context request h =
    let (c, f, m) = classify-IsForbidden request h in
    evaluate-forbidden inspection context request c f m
