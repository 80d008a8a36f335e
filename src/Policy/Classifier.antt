-- ===== src/Policy/Classifier.antt =====
-- packages/policy/src/classification/action-classifier.ts: `ActionClassifier`. The set of classes is the
-- list of its members in the order of insertion. A step of `classify` gives what it adds, since only the
-- last one reads the set.
pub mod Pattern
pub mod Patterns
pub mod Command
pub mod Guards
pub mod Occurs
pub mod Found
pub mod Clean
pub mod Closed
pub mod Destroying
pub mod Tests
use constructie_orchestrator.Base.{
  String, List, [], ◌∷◌, ◌++◌, Option, none, some, Bool, true, false, not, ◌&&◌, ◌||◌, ◌==◌,
  String_eq, any, includes, includes_text, filter, is_empty, if◌then◌else◌,
}
use Prim.Native.String.{◌++◌ as concat}
use constructie_orchestrator.Base.Text.{lower, join, ends_with_one, includes_one}
use constructie_orchestrator.Policy.Types.{
  MutationClass, MutationClass_eq, read_only, local_mutation, source_mutation, production_read,
  production_mutation, database_read, database_mutation, schema_mutation, secret_read,
  credential_use, auth_session_creation, destructive, unknown, Environment, Environment_eq,
  production, ActionRequest,
}
use Command.{by_git_operation, by_command}
use Pattern.{test_any}
use Patterns.{secret_bearing_path_patterns, secret_variable_patterns}

-- `out.add(c)`, and all of a list.
unfoldable pub add : MutationClass → List MutationClass → List MutationClass
add c out = if includes c out then out else out ++ (c ∷ [])

unfoldable pub add_all : List MutationClass → List MutationClass → List MutationClass
add_all [] out = out
add_all (c ∷ classes) out = add_all classes (add c out)

-- `isSourcePath`; `$` is the end of the text.
unfoldable pub source_suffixes : List String
source_suffixes =
    ".ts" ∷ ".js" ∷ ".tsx" ∷ ".jsx" ∷ ".mjs" ∷ ".cjs" ∷ ".json" ∷ ".yaml" ∷ ".yml" ∷ ".prisma"
    ∷ ".sql" ∷ ".sh" ∷ ".env.example" ∷ []

unfoldable pub is_source_path : String → Bool
is_source_path path =
    ends_with_one source_suffixes path
    && not (includes_text path "node_modules")
    && not (includes_text path "/dist/")

-- `classifyDatabaseOperation`
unfoldable pub database_classes : String → List MutationClass
database_classes op =
    if includes_one ("select" ∷ "read" ∷ "find" ∷ "get" ∷ []) op
    then database_read ∷ []
    else if includes_one ("migrate" ∷ "schema" ∷ []) op
    then schema_mutation ∷ database_mutation ∷ []
    else database_mutation ∷ []

-- `classifyByTool`
unfoldable pub by_tool : ActionRequest → List MutationClass
by_tool request =
    let tool = lower request.tool in
    let op = lower request.operation in
    if includes tool ("filesystem" ∷ "sandbox-filesystem" ∷ [])
    then if includes_text op "read"
      then read_only ∷ []
      else if includes_one ("write" ∷ "delete" ∷ "mkdir" ∷ []) op
      then local_mutation ∷ (if is_source_path request.resource then source_mutation ∷ [] else [])
      else []
    else if includes tool ("database" ∷ "prisma" ∷ "psql" ∷ "sql" ∷ [])
    then database_classes op
    else if includes tool ("llm" ∷ "openai" ∷ "claude" ∷ [])
    then read_only ∷ []
    else []

-- The classes of a method that is given.
unfoldable pub http_classes : String → String → Bool → List MutationClass
http_classes method resource in_production =
    if includes method ("GET" ∷ "HEAD" ∷ "OPTIONS" ∷ [])
    then (if in_production then production_read else read_only) ∷ []
    else (if in_production then production_mutation else local_mutation)
        ∷ (if method == "POST"
            then (if includes_one ("/auth/" ∷ "/login" ∷ "/signin" ∷ "/token" ∷ []) resource
                then auth_session_creation ∷ credential_use ∷ []
                else [])
              ++ (if includes_one ("/password-reset" ∷ "/forgot-password" ∷ []) resource
                  then database_mutation ∷ []
                  else [])
            else [])
      ++ (if method == "DELETE" then destructive ∷ [] else [])

-- `classifyByHttpMethod`; an empty method counts as none.
unfoldable pub by_http_method : ActionRequest → List MutationClass
by_http_method request = elim request.http_method [
  | none ↦ []
  | some method ↦
      if method == ""
      then []
      else http_classes method (lower request.resource) (request.environment == production)
]

unfoldable pub text_or_empty : Option String → String
text_or_empty none = ""
text_or_empty (some s) = s

unfoldable pub joined : Option (List String) → String
joined none = ""
joined (some args) = join " " args

-- `classifyByResource`
unfoldable pub by_resource : ActionRequest → List MutationClass
by_resource request =
    let cmd = lower (concat (text_or_empty request.command) (concat " " (joined request.args))) in
    (if test_any secret_bearing_path_patterns (lower request.resource)
      then secret_read ∷ []
      else [])
    ++ (if test_any secret_variable_patterns cmd then secret_read ∷ [] else [])

-- `classifyByEnvironment`
unfoldable pub by_environment : Environment → List MutationClass → List MutationClass
by_environment environment out =
    if environment == production && includes local_mutation out
    then add production_mutation (filter (λ c. not (c == local_mutation)) out)
    else out

-- What the steps before the last add to the empty set.
unfoldable pub added : ActionRequest → List MutationClass
added request = add_all (by_resource request) (
    add_all (by_command request.command) (
      add_all (by_git_operation request.git_operation request.args)
        (add_all (by_http_method request) (add_all (by_tool request) []))))

unfoldable pub or_unknown : List MutationClass → List MutationClass
or_unknown out = if is_empty out then add unknown out else out

-- `classify`
unfoldable pub classify : ActionRequest → List MutationClass
classify request = or_unknown (by_environment request.environment (added request))
