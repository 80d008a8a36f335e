-- ===== src/Policy/Classifier/Guards.antt =====
-- packages/policy/src/classification/action-classifier.ts: the four guards, and with the classifier what
-- the policy engine inspects a request by. The detail of a literal leaves out the source of its pattern.
use constructie_orchestrator.Base.{
  String, [], ◌∷◌, Option, none, some, Bool, false, ◌&&◌, ◌||◌, ◌==◌, String_eq, any, includes,
  if◌then◌else◌,
}
use Prim.Native.String.{◌++◌ as concat}
use constructie_orchestrator.Base.Text.{lower, trim, split_spaces, includes_one}
use constructie_orchestrator.Policy.Types.{
  ActionRequest, GuardViolation, ParameterValue, text, texts, other,
}
use constructie_orchestrator.Policy.Engine.{Inspection}
use constructie_orchestrator.Policy.Classifier.{text_or_empty, joined, classify}
use constructie_orchestrator.Policy.Classifier.Pattern.{test_any}
use constructie_orchestrator.Policy.Classifier.Patterns.{
  secret_bearing_path_patterns, secret_variable_patterns, secret_literal_patterns,
  auth_credential_patterns,
}

unfoldable pub violation : String → String → String → GuardViolation
violation guard code detail = record { guard_name = guard; rule_code = code; detail = detail }

-- A detail that ends with a text in quotation marks.
unfoldable pub quoted : String → String → String
quoted detail s = concat detail (concat "\"" (concat s "\""))

-- `s.split(/\s+/)[0]`
unfoldable pub first_word : String → String
first_word s = elim (split_spaces s) [ [] ↦ "" | w ∷ words ↦ w ]

unfoldable pub command_and_args : ActionRequest → String
command_and_args request =
    concat (lower (text_or_empty request.command)) (concat " " (lower (joined request.args)))

unfoldable pub secret_file_read : String → Option GuardViolation
secret_file_read detail = some (violation "SecretFileGuard" "SECRET_FILE_READ" detail)

-- `SecretFileGuard.check`
unfoldable pub secret_file_guard : ActionRequest → Option GuardViolation
secret_file_guard request =
    let combined = trim (concat (command_and_args request) (concat " " (lower request.resource))) in
    if test_any secret_bearing_path_patterns combined
    then secret_file_read (quoted "Access to secret-bearing resource detected: " request.resource)
    else if includes (lower (first_word (text_or_empty request.command)))
          ("grep" ∷ "rg" ∷ "awk" ∷ "sed" ∷ [])
        && test_any secret_variable_patterns combined
        && test_any secret_bearing_path_patterns combined
    then secret_file_read (
        quoted "Secret variable extraction from env file detected in: "
          (text_or_empty request.command))
    else none

-- `SecretOutputGuard.check`
unfoldable pub secret_output_guard : ActionRequest → Option GuardViolation
secret_output_guard request =
    let combined = trim (command_and_args request) in
    let base = first_word combined in
    if includes base ("printenv" ∷ "env" ∷ [])
    then some (
        violation "SecretOutputGuard" "SECRET_OUTPUT_ENV_DUMP"
          (quoted "Environment dump command would expose secret values: " combined))
    else if base == "echo" && test_any secret_variable_patterns combined
    then some (
        violation "SecretOutputGuard" "SECRET_OUTPUT_ECHO"
          (quoted "Echo of secret variable detected: " combined))
    else if includes_one ("railway variables" ∷ "railway secrets" ∷ []) combined
    then some (
        violation "SecretOutputGuard" "SECRET_OUTPUT_RAILWAY_VARS"
          "Railway variables/secrets dump would expose production secrets")
    else none

-- `detectLiterals`
unfoldable pub has_literal : String → Bool
has_literal s = test_any secret_literal_patterns s

-- The values that are no text are passed over.
unfoldable pub parameter_has_literal : String × ParameterValue → Bool
parameter_has_literal (key, text value) = has_literal (concat key (concat "=" value))
parameter_has_literal (key, texts values) = false
parameter_has_literal (key, other value) = false

-- `SecretLiteralGuard.check`
unfoldable pub secret_literal_guard : ActionRequest → Option GuardViolation
secret_literal_guard request =
    if has_literal (
        concat (text_or_empty request.generated_content)
          (concat "\n" (text_or_empty request.command)))
      || has_literal (joined request.args)
      || any parameter_has_literal request.parameters
    then some (
        violation "SecretLiteralGuard" "SECRET_LITERAL_DETECTED"
          "Credential literal detected in action content")
    else none

-- `AuthCredentialScriptGuard.check`
unfoldable pub auth_credential_script_guard : ActionRequest → Option GuardViolation
auth_credential_script_guard request =
    let content = text_or_empty request.generated_content in
    if content == ""
    then none
    else if test_any auth_credential_patterns content
    then some (
        violation "AuthCredentialScriptGuard" "AUTH_CREDENTIAL_IN_GENERATED_CONTENT"
          "Generated content contains authentication credentials (email/password/token literal). Use a secure secret-channel mechanism instead of embedding credentials.")
    else none

-- The guards and the classifier that the policy engine makes for itself.
unfoldable pub inspection : Inspection
inspection = record {
  secret_file_guard = secret_file_guard;
  secret_output_guard = secret_output_guard;
  secret_literal_guard = secret_literal_guard;
  auth_credential_script_guard = auth_credential_script_guard;
  classify = classify;
}
