-- ===== src/Policy/Classifier/Pattern.antt =====
-- packages/policy/src/classification/action-classifier.ts: the regular expressions that it uses, as far as it
-- uses them. All ignore case, so a pattern is in lower case and is tried on the text in lower case.
use Prim.Native.Nat.{ℕ, zero, suc}
use Prim.Native.Char.{code}
use Prim.Native.String.{String, [], ◌∷◌}
use constructie_orchestrator.Base.{
  List, [], ◌∷◌, Bool, true, false, ◌&&◌, ◌||◌, if◌then◌else◌, any, Option, none, some,
}
use constructie_orchestrator.Base.Text.{lower, strip}

-- A text, one character of a class, at least so many of a class, a text that may be missing, one of
-- several texts, the start of the text, and one character of a class or the end.
pub data Atom : Type 0 where
  word : String → Atom
  one : (ℕ → Bool) → Atom
  many : ℕ → (ℕ → Bool) → Atom
  maybe : String → Atom
  choice : List String → Atom
  one_or_end : (ℕ → Bool) → Atom

-- A pattern; `anchored` is for one that begins with `^`.
pub record Pattern : Type 0 where
  pub anchored : Bool
  pub atoms : List Atom

unfoldable pub after : (String → Bool) → Option String → Bool
after next none = false
after next (some s) = next s

unfoldable pub after_one : (ℕ → Bool) → (String → Bool) → String → Bool
after_one class next [] = false
after_one class next (c ∷ s) = class (code c) && next s

unfoldable pub after_many : (ℕ → Bool) → (String → Bool) → ℕ → String → Bool
after_many class next zero [] = next []
after_many class next (suc n) [] = false
after_many class next zero (c ∷ s) =
    let rest = after_many class next zero s in next (c ∷ s) || (class (code c) && rest)
after_many class next (suc n) (c ∷ s) =
    let rest = after_many class next n s in class (code c) && rest

unfoldable pub at_end : String → Bool
at_end [] = true
at_end (c ∷ s) = false

-- The rest of a pattern, at the start of a text.
unfoldable pub matches : List Atom → String → Bool
matches [] s = true
matches (word w ∷ atoms) s = after (matches atoms) (strip w s)
matches (one class ∷ atoms) s = after_one class (matches atoms) s
matches (many n class ∷ atoms) s = after_many class (matches atoms) n s
matches (maybe w ∷ atoms) s = after (matches atoms) (strip w s) || matches atoms s
matches (choice ws ∷ atoms) s = any (λ w. after (matches atoms) (strip w s)) ws
matches (one_or_end class ∷ atoms) s =
    after_one class (matches atoms) s || (at_end s && matches atoms s)

unfoldable pub search : List Atom → String → Bool
search atoms [] = matches atoms []
search atoms (c ∷ s) = let rest = search atoms s in matches atoms (c ∷ s) || rest

-- `pattern.test(text)`
unfoldable pub test_pattern : Pattern → String → Bool
test_pattern p text =
    if p.anchored then matches p.atoms (lower text) else search p.atoms (lower text)

-- `patterns.some((p) => p.test(text))`
unfoldable pub test_any : List Pattern → String → Bool
test_any patterns text = any (λ p. test_pattern p text) patterns
