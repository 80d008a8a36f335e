-- ===== src/Policy/Classifier/Clean.antt =====
-- packages/policy/src/classification/action-classifier.ts: what the guards keep out of an allowed request, by
-- the meaning of their patterns.
use Prim.Native.String.{◌++◌ as concat}
use constructie_orchestrator.Base.{
  ◌==◌, ◌≡◌, refl, String, List, true, false, Option, none, some, Bool, Bool-cases, inl, inr, ◌||◌,
  or_false, any, any-Elem, Elem, if◌then◌else◌, String_eq,
}
use constructie_orchestrator.Base.Text.{lower, trim}
use constructie_orchestrator.Policy.Types.{ActionRequest, allow, ReadOnlyExecutionContext, text}
use constructie_orchestrator.Policy.Engine.{evaluate}
use constructie_orchestrator.Policy.Engine.Soundness.{evaluate-allow}
use constructie_orchestrator.Policy.Classifier.{text_or_empty, joined}
use constructie_orchestrator.Policy.Classifier.Pattern.{Pattern, test_any, test_pattern}
use constructie_orchestrator.Policy.Classifier.Patterns.{
  secret_bearing_path_patterns, secret_literal_patterns, auth_credential_patterns,
}
use constructie_orchestrator.Policy.Classifier.Guards.{
  inspection, command_and_args, secret_file_guard, secret_file_read, secret_literal_guard,
  auth_credential_script_guard, has_literal, parameter_has_literal,
}
use constructie_orchestrator.Policy.Classifier.Occurs.{Occurs, test_pattern-Occurs}

-- No pattern of the list occurs in the text.
abbrev pub Free : List Pattern → String → Type 0
Free patterns s = (p : Pattern) → Elem p patterns → ¬ Occurs p s

test_any-Free :
    (patterns : List Pattern) (s : String) → test_any patterns s ≡ false → Free patterns s
unfolding test_any
test_any-Free patterns s h p m o =
    cc (any-Elem (λ p. test_pattern p s) patterns h m, test_pattern-Occurs p s o)

-- A request without secrets: in what it accesses no path that bears secrets, in its content, command,
-- arguments and textual parameters no literal of a credential, and in its content no credentials of a
-- login.
pub record IsClean (request : ActionRequest) : Type 0 where
  pub accessed :
      Free secret_bearing_path_patterns
        (trim (concat (command_and_args request) (concat " " (lower request.resource))))
  pub content : Free secret_literal_patterns (
      concat
        (text_or_empty request.generated_content)
        (concat "\n" (text_or_empty request.command)))
  pub arguments : Free secret_literal_patterns (joined request.args)
  pub parameters :
      (key value : String)
      → Elem (key, text value) request.parameters
      → Free secret_literal_patterns (concat key (concat "=" value))
  pub logins :
      (text_or_empty request.generated_content == "") ≡ false
      → Free auth_credential_patterns (text_or_empty request.generated_content)

silent :
    {A : Type 0} (b : Bool) (a : A) (o : Option A)
    → (if b then some a else o) ≡ none
    → (b ≡ false) × (o ≡ none)
silent true a o h = cc h
silent false a o h = (refl, h)

no_path :
    (request : ActionRequest)
    → secret_file_guard request ≡ none
    → Free secret_bearing_path_patterns
        (trim (concat (command_and_args request) (concat " " (lower request.resource))))
unfolding secret_file_guard secret_file_read
no_path request h =
    let s = trim (concat (command_and_args request) (concat " " (lower request.resource))) in
    elim (Bool-cases (test_any secret_bearing_path_patterns s)) [
      | inl e ↦ cc (rw e at h)
      | inr e ↦ test_any-Free secret_bearing_path_patterns s e
    ]

no_literal : (s : String) → has_literal s ≡ false → Free secret_literal_patterns s
unfolding has_literal
no_literal s h = test_any-Free secret_literal_patterns s h

no_login :
    (request : ActionRequest)
    → auth_credential_script_guard request ≡ none
    → (text_or_empty request.generated_content == "") ≡ false
    → Free auth_credential_patterns (text_or_empty request.generated_content)
unfolding auth_credential_script_guard
no_login request h filled = test_any-Free _ _ (silent _ _ _ (rw filled at h)).0

no_parameter :
    (request : ActionRequest)
    → any parameter_has_literal request.parameters ≡ false
    → (key value : String) → Elem (key, text value) request.parameters
    → Free secret_literal_patterns (concat key (concat "=" value))
unfolding parameter_has_literal
no_parameter request h key value m =
    no_literal (concat key (concat "=" value))
      (any-Elem parameter_has_literal request.parameters h m)

literals_clear :
    (request : ActionRequest)
    → secret_literal_guard request ≡ none
    → (has_literal (
          concat
            (text_or_empty request.generated_content)
            (concat "\n" (text_or_empty request.command)))
        ≡ false)
      × (has_literal (joined request.args) ≡ false)
      × (any parameter_has_literal request.parameters ≡ false)
unfolding secret_literal_guard
literals_clear request h =
    let made = has_literal (
      concat (text_or_empty request.generated_content)
        (concat "\n" (text_or_empty request.command))) in
    let args = has_literal (joined request.args) in
    let params = any parameter_has_literal request.parameters in
    elim (Bool-cases (made || args || params)) [
      | inl e ↦ cc (rw e at h)
      | inr e ↦
          let (texts, c) = or_false (made || args) params e in
          let (a, b) = or_false made args texts in (a, b, c)
    ]

-- With the engine's own guards, an allowed request is clean: no pattern of a path that bears secrets
-- occurs in its command, arguments and resource, none of a literal credential in its content, command,
-- arguments and textual parameters, and none of a login's credentials in its content.
pub evaluate-IsClean :
    (context : ReadOnlyExecutionContext) (request : ActionRequest)
    → (evaluate inspection context request).decision ≡ allow
    → IsClean request
unfolding inspection
evaluate-IsClean context request h =
    let p = evaluate-allow inspection context request h in
    let (made, args, params) = literals_clear request p.no_secret_literal in
    record {
      accessed = no_path request p.no_secret_file;
      content = no_literal _ made;
      arguments = no_literal _ args;
      parameters = no_parameter request params;
      logins = no_login request p.no_auth_script;
    }
