-- ===== src/Policy/Matrix/Facts.antt =====
-- Facts about the whole gate matrix, checked at each gate and class.
use constructie_orchestrator.Base.{
  ◌≡◌, refl, ◌⊎◌, inl, inr, Bool, true, false, List, [], ◌∷◌, Option, none, some, includes,
  includes-Elem, all, all-Elem, arith, not, ◌||◌, ◌==◌, eq_sound, Option_eq,
}
use constructie_orchestrator.Policy.Types.{
  MutationClass, read_only, local_mutation, source_mutation, git_stage, git_commit, git_push,
  git_destructive, deployment, production_read, production_mutation, database_read,
  database_mutation, schema_mutation, schema_source_mutation, secret_read, secret_output,
  credential_use, auth_session_creation, destructive, unknown, MutationClass_eq,
  MutationClass-discrete, ExecutionGate, audit, commit, push, deploy, implementation,
  ExecutionGate_eq, ExecutionGate-discrete, OwnerAuthorityToken_eq, OwnerAuthorityToken-discrete,
  OwnerAuthorityToken, owner_implementation_approved, owner_commit_approved, owner_push_approved,
  owner_deploy_approved,
}
use constructie_orchestrator.Policy.Matrix.{gate_policy}

-- The classes that no gate is meant to let through.
abbrev pub forbidden : List MutationClass
forbidden =
    git_destructive ∷ production_mutation ∷ database_mutation ∷ schema_mutation
    ∷ schema_source_mutation ∷ secret_read ∷ secret_output ∷ credential_use ∷ auth_session_creation
    ∷ destructive ∷ unknown ∷ []

abbrev every_class : List MutationClass
every_class =
    read_only ∷ local_mutation ∷ source_mutation ∷ git_stage ∷ git_commit ∷ git_push
    ∷ git_destructive ∷ deployment ∷ production_read ∷ production_mutation ∷ database_read
    ∷ database_mutation ∷ schema_mutation ∷ schema_source_mutation ∷ secret_read ∷ secret_output
    ∷ credential_use ∷ auth_session_creation ∷ destructive ∷ unknown ∷ []

every_class_lem : (cls : MutationClass) → includes cls every_class ≡ true
unfolding MutationClass-discrete
every_class_lem read_only = refl
every_class_lem _ = refl

-- A test that holds of all the classes listed holds of each.
at_class :
    (p : MutationClass → Bool) (cls : MutationClass) → all p every_class ≡ true → p cls ≡ true
at_class p cls h = all-Elem p every_class h (includes-Elem cls every_class (every_class_lem cls))

-- Each table is evaluated at all the pairs; the statements below read it.
abbrev forbidden_table_at : ExecutionGate → MutationClass → Bool
forbidden_table_at gate cls =
    not (includes cls forbidden) || not (includes cls (gate_policy gate).allowed_classes)

forbidden_table_all : (gate : ExecutionGate) → all (forbidden_table_at gate) every_class ≡ true
unfolding gate_policy MutationClass-discrete
forbidden_table_all audit = refl
forbidden_table_all _ = refl

forbidden_table : (gate : ExecutionGate) (cls : MutationClass) → forbidden_table_at gate cls ≡ true
forbidden_table gate cls = at_class (forbidden_table_at gate) cls (forbidden_table_all gate)

implies : (a b : Bool) → (not a || b) ≡ true → a ≡ true → b ≡ true
implies a b h e = ground arith

not-true : (a : Bool) → not a ≡ true → a ≡ false
not-true a h = ground arith

pub forbidden-not-allowed :
    (gate : ExecutionGate) (cls : MutationClass)
    → includes cls forbidden ≡ true
    → includes cls (gate_policy gate).allowed_classes ≡ false
forbidden-not-allowed gate cls h = not-true (includes cls (gate_policy gate).allowed_classes) (
    implies (includes cls forbidden) (not (includes cls (gate_policy gate).allowed_classes))
      (forbidden_table gate cls) h)

-- A class that writes history or leaves the machine needs its own token wherever it is allowed.
abbrev pub token_of : MutationClass → Option OwnerAuthorityToken
token_of source_mutation = some owner_implementation_approved
token_of git_stage = some owner_commit_approved
token_of git_commit = some owner_commit_approved
token_of git_push = some owner_push_approved
token_of deployment = some owner_deploy_approved
token_of _ = none

abbrev pub gate_of : MutationClass → Option ExecutionGate
gate_of source_mutation = some implementation
gate_of git_stage = some commit
gate_of git_commit = some commit
gate_of git_push = some push
gate_of deployment = some deploy
gate_of _ = none

abbrev token_table_at : ExecutionGate → MutationClass → Bool
token_table_at gate cls =
    not (includes cls (gate_policy gate).allowed_classes)
    || (gate_policy gate).required_tokens cls == token_of cls

token_table_all : (gate : ExecutionGate) → all (token_table_at gate) every_class ≡ true
unfolding gate_policy MutationClass-discrete OwnerAuthorityToken-discrete
token_table_all audit = refl
token_table_all _ = refl

token_table : (gate : ExecutionGate) (cls : MutationClass) → token_table_at gate cls ≡ true
token_table gate cls = at_class (token_table_at gate) cls (token_table_all gate)

pub allowed-token_of :
    (gate : ExecutionGate) (cls : MutationClass)
    → includes cls (gate_policy gate).allowed_classes ≡ true
    → (gate_policy gate).required_tokens cls ≡ token_of cls
allowed-token_of gate cls h = eq_sound ((gate_policy gate).required_tokens cls) (token_of cls) (
    implies (includes cls (gate_policy gate).allowed_classes)
      ((gate_policy gate).required_tokens cls == token_of cls) (token_table gate cls) h)

abbrev gate_table_at : ExecutionGate → MutationClass → Bool
gate_table_at gate cls =
    not (includes cls (gate_policy gate).allowed_classes)
    || (gate_of cls == none || gate_of cls == some gate)

gate_table_all : (gate : ExecutionGate) → all (gate_table_at gate) every_class ≡ true
unfolding gate_policy MutationClass-discrete ExecutionGate-discrete
gate_table_all audit = refl
gate_table_all _ = refl

gate_table : (gate : ExecutionGate) (cls : MutationClass) → gate_table_at gate cls ≡ true
gate_table gate cls = at_class (gate_table_at gate) cls (gate_table_all gate)

or_cases : (a b : Bool) → (a || b) ≡ true → (a ≡ true) ⊎ (b ≡ true)
or_cases a b h = ground arith

pub allowed-gate_of :
    (gate : ExecutionGate) (cls : MutationClass)
    → includes cls (gate_policy gate).allowed_classes ≡ true
    → (gate_of cls ≡ none) ⊎ (gate_of cls ≡ some gate)
allowed-gate_of gate cls h =
    let either =
      implies (includes cls (gate_policy gate).allowed_classes)
        (gate_of cls == none || gate_of cls == some gate) (gate_table gate cls) h in
    elim (or_cases (gate_of cls == none) (gate_of cls == some gate) either) [
      | inl e ↦ inl (eq_sound (gate_of cls) none e)
      | inr e ↦ inr (eq_sound (gate_of cls) (some gate) e)
    ]

abbrev denied_table_at : ExecutionGate → MutationClass → Bool
denied_table_at gate cls =
    not (includes cls (gate_policy gate).allowed_classes)
    || not (includes cls (gate_policy gate).denied_classes)

denied_table_all : (gate : ExecutionGate) → all (denied_table_at gate) every_class ≡ true
unfolding gate_policy MutationClass-discrete
denied_table_all audit = refl
denied_table_all _ = refl

denied_table : (gate : ExecutionGate) (cls : MutationClass) → denied_table_at gate cls ≡ true
denied_table gate cls = at_class (denied_table_at gate) cls (denied_table_all gate)

-- No gate both allows and denies a class.
pub allowed-not-denied :
    (gate : ExecutionGate) (cls : MutationClass)
    → includes cls (gate_policy gate).allowed_classes ≡ true
    → includes cls (gate_policy gate).denied_classes ≡ false
allowed-not-denied gate cls h = not-true (includes cls (gate_policy gate).denied_classes) (
    implies (includes cls (gate_policy gate).allowed_classes)
      (not (includes cls (gate_policy gate).denied_classes)) (denied_table gate cls) h)
