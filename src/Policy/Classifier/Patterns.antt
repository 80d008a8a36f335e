-- ===== src/Policy/Classifier/Patterns.antt =====
-- packages/policy/src/classification/action-classifier.ts: the lists of regular expressions.
use Prim.Native.Nat.{ℕ}
use constructie_orchestrator.Base.{
  List, [], ◌∷◌, ◌++◌, map, Bool, true, false, not, ◌&&◌, ◌||◌, ◌==◌, ℕ_eq, includes,
}
use constructie_orchestrator.Base.Text.{is_space, is_word_char}
use constructie_orchestrator.Policy.Classifier.Pattern.{
  Atom, word, one, many, maybe, choice, one_or_end, Pattern,
}

abbrev pattern_of : List Atom → Pattern
pattern_of atoms = record { anchored = false; atoms = atoms }

-- The classes: a character of a list or none of it, a letter or digit, and the dot.
abbrev one_of : List ℕ → ℕ → Bool
one_of codes c = includes c codes

abbrev none_of : List ℕ → ℕ → Bool
none_of codes c = not (includes c codes)

abbrev is_alphanumeric : ℕ → Bool
is_alphanumeric c = is_word_char c && not (c == 95)

abbrev dot : ℕ → Bool
dot c = not (includes c (10 ∷ 13 ∷ 8232 ∷ 8233 ∷ []))

abbrev any_char : ℕ → Bool
any_char c = true

abbrev space_or_slash : ℕ → Bool
space_or_slash c = is_space c || c == 47

-- Neither `@` nor a space, and neither `$` nor a space.
abbrev user_info : ℕ → Bool
user_info c = not (c == 64 || is_space c)

abbrev no_variable : ℕ → Bool
no_variable c = not (c == 36 || is_space c)

abbrev spaces : Atom
spaces = many 0 is_space

abbrev gap : Atom
gap = many 1 is_space

-- `[:=]`, a quotation mark, and the texts between two of them without a variable.
abbrev assigns : Atom
assigns = one (one_of (58 ∷ 61 ∷ []))

abbrev quote : Atom
quote = one (one_of (39 ∷ 34 ∷ []))

abbrev literal : ℕ → List Atom
literal n = quote ∷ many n (none_of (39 ∷ 34 ∷ 36 ∷ [])) ∷ quote ∷ []

abbrev equals : Atom
equals = many 0 (one_of (61 ∷ []))

unfoldable pub secret_bearing_path_patterns : List Pattern
secret_bearing_path_patterns =
    record { anchored = true; atoms = word ".env" ∷ one_or_end is_space ∷ [] }
    ∷ map pattern_of (
        (one space_or_slash ∷ word ".env" ∷ one_or_end is_space ∷ [])
        ∷ (word ".env." ∷ many 1 is_word_char ∷ [])
        ∷ (word "**/.env" ∷ [])
        ∷ (word "/.env" ∷ [])
        ∷ (word "secret"
            ∷ maybe "s"
            ∷ word "."
            ∷ choice ("json" ∷ "yaml" ∷ "yml" ∷ "toml" ∷ [])
            ∷ [])
        ∷ (word "credential" ∷ maybe "s" ∷ word "." ∷ choice ("json" ∷ "yaml" ∷ "yml" ∷ []) ∷ [])
        ∷ (word "private.key" ∷ one_or_end is_space ∷ [])
        ∷ (word ".pem" ∷ one_or_end is_space ∷ [])
        ∷ (word ".pfx" ∷ one_or_end is_space ∷ [])
        ∷ (word ".p12" ∷ one_or_end is_space ∷ [])
        ∷ (word "keystore" ∷ [])
        ∷ (word "serviceaccount" ∷ [])
        ∷ [])

unfoldable pub secret_variable_patterns : List Pattern
secret_variable_patterns =
    map (λ name. pattern_of (word name ∷ []))
      ("database_url" ∷ "jwt_secret" ∷ "api_key" ∷ "secret_key" ∷ "private_key" ∷ "access_token"
        ∷ "refresh_token" ∷ "session_secret" ∷ "encryption_key" ∷ "openai_api_key"
        ∷ "anthropic_api_key" ∷ "railway_token" ∷ "github_token" ∷ "stripe_secret"
        ∷ "sendgrid_api_key" ∷ "smtp_password" ∷ [])
    ++ (pattern_of (
          word "$"
          ∷ many 0 is_word_char
          ∷ choice ("token" ∷ "secret" ∷ "password" ∷ "key" ∷ "credential" ∷ [])
          ∷ many 0 is_word_char
          ∷ [])
        ∷ [])

unfoldable pub secret_literal_patterns : List Pattern
secret_literal_patterns = map pattern_of (
    (word "postgres"
      ∷ maybe "ql"
      ∷ word "://"
      ∷ many 1 user_info
      ∷ word ":"
      ∷ many 1 user_info
      ∷ word "@"
      ∷ [])
    ∷ (word "mysql://" ∷ many 1 user_info ∷ word ":" ∷ many 1 user_info ∷ word "@" ∷ [])
    ∷ (word "redis://:" ∷ many 1 user_info ∷ word "@" ∷ [])
    ∷ (word "authorization:"
        ∷ spaces
        ∷ word "bearer"
        ∷ gap
        ∷ many 1 (λ c. is_alphanumeric c || one_of (45 ∷ 46 ∷ 95 ∷ 126 ∷ 43 ∷ 47 ∷ []) c)
        ∷ equals
        ∷ [])
    ∷ (word "authorization:"
        ∷ spaces
        ∷ word "basic"
        ∷ gap
        ∷ many 1 (λ c. is_alphanumeric c || one_of (43 ∷ 47 ∷ []) c)
        ∷ equals
        ∷ [])
    ∷ (word "curl"
        ∷ gap
        ∷ many 0 dot
        ∷ word "-u"
        ∷ gap
        ∷ many 1 no_variable
        ∷ word ":"
        ∷ many 1 no_variable
        ∷ [])
    ∷ (word "password" ∷ spaces ∷ assigns ∷ spaces ∷ literal 4)
    ∷ (word "secret" ∷ spaces ∷ assigns ∷ spaces ∷ literal 8)
    ∷ (choice ("api_key" ∷ "api-key" ∷ "apikey" ∷ [])
        ∷ spaces
        ∷ assigns
        ∷ spaces
        ∷ quote
        ∷ many 20 (λ c. is_word_char c || c == 45)
        ∷ quote
        ∷ [])
    ∷ (word "-----begin"
        ∷ gap
        ∷ choice ("rsa" ∷ "ec" ∷ "private" ∷ "encrypted" ∷ [])
        ∷ gap
        ∷ word "private"
        ∷ gap
        ∷ word "key-----"
        ∷ [])
    ∷ [])

unfoldable pub auth_credential_patterns : List Pattern
auth_credential_patterns =
    map pattern_of (
      (word "email"
        ∷ spaces
        ∷ assigns
        ∷ spaces
        ∷ quote
        ∷ many 3 (none_of (39 ∷ 34 ∷ []))
        ∷ quote
        ∷ spaces
        ∷ choice ("," ∷ ";" ∷ "" ∷ [])
        ∷ spaces
        ∷ maybe "\n"
        ∷ many 0 dot
        ∷ word "password"
        ∷ spaces
        ∷ assigns
        ∷ [])
      ∷ (choice ("login" ∷ "signin" ∷ "auth" ∷ "authenticate" ∷ [])
          ∷ spaces
          ∷ word "("
          ∷ many 0 (none_of (41 ∷ []))
          ∷ word "password"
          ∷ spaces
          ∷ assigns
          ∷ spaces
          ∷ literal 4)
      ∷ (choice ("fetch" ∷ "axios" ∷ "request" ∷ "got" ∷ [])
          ∷ spaces
          ∷ word "("
          ∷ many 0 (none_of (41 ∷ []))
          ∷ word "body"
          ∷ many 0 any_char
          ∷ word "password"
          ∷ spaces
          ∷ assigns
          ∷ spaces
          ∷ literal 4)
      ∷ (word "post"
          ∷ gap
          ∷ one (one_of (39 ∷ 34 ∷ 47 ∷ []))
          ∷ many 0 dot
          ∷ word "auth"
          ∷ many 0 dot
          ∷ quote
          ∷ many 0 dot
          ∷ word "password"
          ∷ spaces
          ∷ assigns
          ∷ [])
      ∷ [])
    ++ secret_literal_patterns
