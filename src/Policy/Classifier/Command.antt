-- ===== src/Policy/Classifier/Command.antt =====
-- packages/policy/src/classification/action-classifier.ts: the classes of a command and of a git
-- operation, in the order in which they are added.
use Prim.Native.Char.{code}
use Prim.Native.String.{String, [], ◌∷◌}
use constructie_orchestrator.Base.{
  List, [], ◌∷◌, ◌++◌, Option, none, some, Bool, true, false, not, ◌&&◌, ◌||◌, ◌==◌, String_eq, any,
  includes, includes_text, if◌then◌else◌,
}
use constructie_orchestrator.Base.Text.{
  lower, trim, split_spaces, join, strip, is_space, is_word_char, includes_one,
}
use constructie_orchestrator.Policy.Types.{
  MutationClass, read_only, local_mutation, git_stage, git_commit, git_push, git_destructive,
  deployment, production_read, production_mutation, database_read, database_mutation,
  schema_mutation, schema_source_mutation, secret_read, credential_use, auth_session_creation,
  destructive, unknown,
}
use constructie_orchestrator.Policy.Classifier.Pattern.{test_any}
use constructie_orchestrator.Policy.Classifier.Patterns.{
  secret_bearing_path_patterns, secret_variable_patterns,
}

abbrev starts_with : String → String → Bool
starts_with s prefix = elim (strip prefix s) [ none ↦ false | some rest ↦ true ]

abbrev starts_with_any : List String → String → Bool
starts_with_any prefixes s = any (λ prefix. starts_with s prefix) prefixes

-- `classifyByGitOperation`, of an operation in lower case and its arguments.
unfoldable pub git_classes : String → List String → List MutationClass
git_classes git_op raw_args =
    let args = lower (join " " raw_args) in
    if includes git_op
      ("status" ∷ "log" ∷ "diff" ∷ "show" ∷ "ls-remote" ∷ "rev-parse" ∷ "branch" ∷ [])
    then if includes_one ("-d" ∷ "--delete" ∷ []) args then git_destructive ∷ [] else read_only ∷ []
    else if git_op == "add"
    then if any (λ a. includes a raw_args) ("." ∷ "-A" ∷ "--all" ∷ "-a" ∷ [])
      then git_stage ∷ unknown ∷ []
      else git_stage ∷ []
    else if git_op == "commit"
    then git_commit ∷ []
    else if git_op == "push"
    then git_push ∷ (if includes_one ("--force" ∷ "-f" ∷ []) args then git_destructive ∷ [] else [])
    else if git_op == "reset"
    then if includes_text args "--hard" then git_destructive ∷ [] else local_mutation ∷ []
    else if git_op == "clean"
    then git_destructive ∷ []
    else if includes git_op ("fetch" ∷ "ls-files" ∷ [])
    then read_only ∷ []
    else local_mutation ∷ []

-- `classifyByGitOperation`; an empty operation counts as none.
unfoldable pub by_git_operation : Option String → Option (List String) → List MutationClass
by_git_operation none args = []
by_git_operation (some op) args =
    if lower op == "" then [] else git_classes (lower op) (elim args [ none ↦ [] | some a ↦ a ])

-- `classifyPrismaCommand`
unfoldable pub prisma_classes : String → List MutationClass
prisma_classes rest =
    if starts_with rest "db pull"
    then database_read ∷ schema_source_mutation ∷ []
    else if starts_with rest "db push"
    then database_mutation ∷ schema_mutation ∷ []
    else if starts_with_any ("migrate dev" ∷ "migrate reset" ∷ []) rest
    then database_mutation ∷ schema_mutation ∷ destructive ∷ []
    else if starts_with rest "migrate deploy"
    then database_mutation ∷ schema_mutation ∷ []
    else if starts_with rest "generate"
    then local_mutation ∷ []
    else if starts_with rest "studio"
    then production_read ∷ []
    else unknown ∷ []

unfoldable pub word_of : String → String
word_of [] = ""
word_of (c ∷ s) = let rest = word_of s in if is_word_char (code c) then c ∷ rest else ""

-- `\s+(\w+)` at the start of a text: the word, or none.
unfoldable pub spaced_word : String → Option String
spaced_word [] = none
spaced_word (c ∷ s) =
    let rest = spaced_word s in
    let found = word_of s in
    if is_space (code c) then if found == "" then rest else some found else none

unfoldable pub flagged : String → String → Option String
flagged flag s = elim (strip flag s) [ none ↦ none | some rest ↦ spaced_word rest ]

-- The word after the first flag that has one.
unfoldable pub flag_word : String → String → Option String
flag_word flag [] = none
flag_word flag (c ∷ s) =
    let rest = flag_word flag s in elim (flagged flag (c ∷ s)) [ none ↦ rest | some w ↦ some w ]

-- `extractCurlMethod`, in lower case.
unfoldable pub extract_curl_method : String → String → String
extract_curl_method cmd rest = elim (flag_word "-x" (lower cmd)) [
  | some method ↦ method
  | none ↦ elim (flag_word "--request" (lower cmd)) [
    | some method ↦ method
    | none ↦ if includes_one ("--data" ∷ "-d " ∷ []) rest then "post" else "get"
  ]
]

-- `urlEnvironment(cmd) === 'PRODUCTION'`
unfoldable pub is_production_url : String → Bool
is_production_url cmd = not (includes_one ("localhost" ∷ "127.0.0.1" ∷ "0.0.0.0" ∷ []) cmd)

-- `classifyCurlCommand`
unfoldable pub curl_classes : String → String → List MutationClass
curl_classes cmd rest =
    (if includes (extract_curl_method cmd rest) ("get" ∷ "head" ∷ [])
      then (if is_production_url cmd then production_read else read_only) ∷ []
      else (if is_production_url cmd then production_mutation else local_mutation)
        ∷ (if includes_one ("auth" ∷ "login" ∷ "token" ∷ []) rest
            then auth_session_creation ∷ credential_use ∷ []
            else []))
    ++ (if includes_one ("-u " ∷ "--user " ∷ "Authorization:" ∷ "password" ∷ []) rest
        then credential_use ∷ []
        else [])

-- `isSecretReadCommand`
unfoldable pub is_secret_read_command : String → String → String → Bool
is_secret_read_command cmd base rest =
    includes base ("printenv" ∷ "env" ∷ [])
    || (base == "echo" && test_any secret_variable_patterns rest)
    || includes_one ("railway variables" ∷ "railway secrets" ∷ []) cmd
    || (base == "cat" && test_any secret_bearing_path_patterns rest)
    || (includes base ("grep" ∷ "rg" ∷ [])
        && test_any secret_variable_patterns rest
        && test_any secret_bearing_path_patterns rest)
    || (includes base ("awk" ∷ "sed" ∷ []) && test_any secret_bearing_path_patterns rest)

unfoldable pub read_only_commands : List String
read_only_commands =
    "cat" ∷ "ls" ∷ "pwd" ∷ "echo" ∷ "head" ∷ "tail" ∷ "wc" ∷ "find" ∷ "grep" ∷ "rg" ∷ "fd" ∷ "which"
    ∷ "type" ∷ "file" ∷ "stat" ∷ "du" ∷ "df" ∷ "uname" ∷ "date" ∷ "whoami" ∷ "id" ∷ []

-- `classifyByCommand` from the database tools on.
unfoldable pub shell_classes : String → String → String → List MutationClass
shell_classes cmd base rest =
    if includes base ("psql" ∷ "mysql" ∷ "sqlite3" ∷ [])
    then database_read
      ∷ (if includes_one ("drop" ∷ "delete" ∷ "truncate" ∷ []) rest
          then database_mutation ∷ destructive ∷ []
          else [])
    else if base == "railway" || includes_one ("railway up" ∷ "railway redeploy" ∷ []) cmd
    then deployment ∷ []
    else if is_secret_read_command cmd base rest
    then secret_read ∷ []
    else if includes base ("curl" ∷ "wget" ∷ "httpie" ∷ "http" ∷ [])
    then curl_classes cmd rest
    else if includes base ("node" ∷ "npx" ∷ "tsx" ∷ "ts-node" ∷ [])
    then local_mutation ∷ []
    else if base == "cat" && includes_text rest ">"
    then local_mutation ∷ []
    else if base == "tee"
    then local_mutation ∷ []
    else if includes base ("rm" ∷ "rmdir" ∷ [])
    then local_mutation ∷ destructive ∷ []
    else if includes base ("mv" ∷ "cp" ∷ "chmod" ∷ "chown" ∷ [])
    then local_mutation ∷ []
    else if includes base ("npm" ∷ "pnpm" ∷ "yarn" ∷ "bun" ∷ [])
    then if starts_with_any ("install" ∷ "add" ∷ "remove" ∷ "update" ∷ []) rest
      then local_mutation ∷ []
      else read_only ∷ []
    else if includes base read_only_commands
    then read_only ∷ []
    else unknown ∷ []

-- The base command, the rest in lower case, and the sub-command with its arguments.
unfoldable pub classify_parts : String → List String → List MutationClass
classify_parts cmd [] = []
classify_parts cmd (first ∷ words) =
    let base = lower first in
    let rest = lower (join " " words) in
    if base == "git"
    then elim words [ [] ↦ [] | sub ∷ args ↦ by_git_operation (some sub) (some args) ]
    else if includes base ("prisma" ∷ "npx prisma" ∷ [])
        || starts_with_any ("npx prisma" ∷ "pnpm prisma" ∷ []) cmd
    then prisma_classes rest
    else shell_classes cmd base rest

-- `classifyByCommand`
unfoldable pub by_command : Option String → List MutationClass
by_command none = []
by_command (some command) =
    let cmd = trim command in if cmd == "" then [] else classify_parts cmd (split_spaces cmd)
