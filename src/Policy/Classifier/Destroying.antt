-- ===== src/Policy/Classifier/Destroying.antt =====
-- packages/policy/src/classification/action-classifier.ts: the git operations that throw work away, given
-- as an operation or written as a command line.
use constructie_orchestrator.Base.{
  ◌==◌, ◌≡◌, ◌≢◌, refl, String, true, false, List, [], ◌∷◌, some, Elem, inl, inr, Bool-cases,
  eq_sound, String_eq, includes_text,
}
use constructie_orchestrator.Base.Text.{lower, join, trim, split_spaces, includes_one}
use constructie_orchestrator.Policy.Types.{
  git_destructive, ActionRequest, allow, ReadOnlyExecutionContext, MutationClass-discrete,
}
use constructie_orchestrator.Policy.Engine.{evaluate}
use constructie_orchestrator.Policy.Classifier.Command.{
  git_classes, by_git_operation, classify_parts, by_command,
}
use constructie_orchestrator.Policy.Classifier.Guards.{inspection}
use constructie_orchestrator.Policy.Classifier.Closed.{
  from_git, from_command, denied, evaluate-IsForbidden,
}

-- A git operation, in lower case, that throws work away: a forced push, a hard reset, a clean, and the
-- deletion of a branch.
pub data Destroys (op : String) (args : List String) : Type 0 where
  forced_push :
      op ≡ "push"
      → includes_one ("--force" ∷ "-f" ∷ []) (lower (join " " args)) ≡ true
      → Destroys op args
  hard_reset :
      op ≡ "reset" → includes_text (lower (join " " args)) "--hard" ≡ true → Destroys op args
  clean : op ≡ "clean" → Destroys op args
  deleted_branch :
      op ≡ "branch"
      → includes_one ("-d" ∷ "--delete" ∷ []) (lower (join " " args)) ≡ true
      → Destroys op args

-- The operation is given as one, or as the sub-command of a git command line.
pub data Invokes (request : ActionRequest) (op : String) (args : List String) : Type 0 where
  structured : request.git_operation ≡ some op → request.args ≡ some args → Invokes request op args
  written :
      (command git : String)
      → request.command ≡ some command
      → split_spaces (trim command) ≡ git ∷ op ∷ args
      → lower git ≡ "git"
      → Invokes request op args

git_classes-Destroys :
    (op : String) (args : List String)
    → Destroys op args
    → Elem git_destructive (git_classes op args)
unfolding git_classes
git_classes-Destroys op args (forced_push e h) = rw (e, h) (inr (inl refl))
git_classes-Destroys op args (hard_reset e h) = rw (e, h) (inl refl)
git_classes-Destroys op args (clean e) = rw e (inl refl)
git_classes-Destroys op args (deleted_branch e h) = rw (e, h) (inl refl)

named : (op : String) (args : List String) → Destroys op args → (op == "") ≡ false
named op args (forced_push e _) = rw e refl
named op args (hard_reset e _) = rw e refl
named op args (clean e) = rw e refl
named op args (deleted_branch e _) = rw e refl

by_git_operation-Destroys :
    (op : String) (args : List String)
    → Destroys (lower op) args
    → Elem git_destructive (by_git_operation (some op) (some args))
unfolding by_git_operation
by_git_operation-Destroys op args h =
    rw (named (lower op) args h) (git_classes-Destroys (lower op) args h)

no_words : (git op : String) (args : List String) → split_spaces "" ≢ git ∷ op ∷ args
unfolding split_spaces
no_words git op args h = cc

by_command-git :
    (command git op : String) (args : List String)
    → split_spaces (trim command) ≡ git ∷ op ∷ args
    → lower git ≡ "git"
    → by_command (some command) ≡ by_git_operation (some op) (some args)
unfolding by_command classify_parts
by_command-git command git op args e g = elim (Bool-cases (trim command == "")) [
  | inl q ↦ absurd (no_words git op args (rw (eq_sound (trim command) "" q) at e))
  | inr q ↦ rw (q, e, g) refl
]

-- With the engine's own classifier and guards, a forced push, a hard reset, a clean and the deletion
-- of a branch, given as a git operation or written as a git command line, are not allowed, whatever
-- the gate and the grants are.
pub evaluate-Destroys :
    (context : ReadOnlyExecutionContext) (request : ActionRequest) (op : String)
    (args : List String)
    → Invokes request op args
    → Destroys (lower op) args
    → (evaluate inspection context request).decision ≢ allow
unfolding MutationClass-discrete
evaluate-Destroys context request op args (structured e a) h =
    evaluate-IsForbidden context request
      (denied git_destructive refl (from_git (rw (e, a) (by_git_operation-Destroys op args h))))
evaluate-Destroys context request op args (written command first e split g) h =
    evaluate-IsForbidden context request (
      denied git_destructive refl (
        from_command (
          rw (e, by_command-git command first op args split g)
            (by_git_operation-Destroys op args h))))
