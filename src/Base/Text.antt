-- ===== src/Base/Text.antt =====
-- Texts as the source handles them: `toLowerCase`, `trim`, `split(/\s+/)` and `join`. Letters outside
-- ASCII keep their case here.
use Prim.Native.Nat.{ℕ}
use Prim.Native.Char.{Char, code}
use Prim.Native.String.{String, [], ◌∷◌, ◌++◌}
use mathlib.Core.Option.{Option, none, some}
use mathlib.Core.Bool.{Bool, false, ◌||◌, ◌&&◌}
use mathlib.Core.List.{List, [], ◌∷◌}
use constructie_orchestrator.Base.Tests.{if◌then◌else◌, leb, ◌==◌, ℕ_eq, String_eq, includes_text}
use constructie_orchestrator.Base.Lists.{any, includes}

-- The code points that `trim` removes.
unfoldable pub is_space : ℕ → Bool
is_space c =
    (leb 9 c && leb c 13)
    || (leb 8192 c && leb c 8202)
    || includes c (32 ∷ 160 ∷ 5760 ∷ 8232 ∷ 8233 ∷ 8239 ∷ 8287 ∷ 12288 ∷ 65279 ∷ [])

lower_in : String → String → Char → Char
lower_in [] lowers c = c
lower_in (u ∷ uppers) [] c = c
lower_in (u ∷ uppers) (l ∷ lowers) c =
    let rest = lower_in uppers lowers c in if code u == code c then l else rest

-- `s.toLowerCase()`
unfoldable pub lower : String → String
unfolding lower_in
lower [] = ""
lower (c ∷ s) = lower_in "ABCDEFGHIJKLMNOPQRSTUVWXYZ" "abcdefghijklmnopqrstuvwxyz" c ∷ lower s

unfoldable pub starts_with_space : String → Bool
starts_with_space [] = false
starts_with_space (c ∷ s) = is_space (code c)

unfoldable pub prepend : Char → List String → List String
prepend c [] = (c ∷ "") ∷ []
prepend c (word ∷ words) = (c ∷ word) ∷ words

-- `s.split(/\s+/)`
unfoldable pub split_spaces : String → List String
split_spaces [] = "" ∷ []
split_spaces (c ∷ s) =
    let rest = split_spaces s in
    if is_space (code c) then if starts_with_space s then rest else "" ∷ rest else prepend c rest

-- A text without the spaces at its start, and one without those at its end.
unfoldable pub trim_start : String → String
trim_start [] = ""
trim_start (c ∷ s) = let rest = trim_start s in if is_space (code c) then rest else c ∷ s

unfoldable pub trim_end : String → String
trim_end [] = ""
trim_end (c ∷ s) = let rest = trim_end s in if is_space (code c) && rest == "" then "" else c ∷ rest

-- `s.trim()`
unfoldable pub trim : String → String
trim s = trim_start (trim_end s)

-- `words.join(separator)`
unfoldable pub join : String → List String → String
join separator [] = ""
join separator (x ∷ []) = x
join separator (x ∷ y ∷ xs) = x ++ separator ++ join separator (y ∷ xs)

-- What follows a prefix, if it is there.
unfoldable pub strip : String → String → Option String
strip [] s = some s
strip (c ∷ prefix) [] = none
strip (c ∷ prefix) (d ∷ s) = let rest = strip prefix s in if code c == code d then rest else none

-- The text ends with one of the suffixes.
unfoldable pub ends_with_one : List String → String → Bool
ends_with_one suffixes [] = false
ends_with_one suffixes (c ∷ s) =
    let rest = ends_with_one suffixes s in includes (c ∷ s) suffixes || rest

unfoldable pub is_word_char : ℕ → Bool
is_word_char c =
    (leb 48 c && leb c 57) || (leb 65 c && leb c 90) || c == 95 || (leb 97 c && leb c 122)

-- One of the texts is a part of the text.
abbrev pub includes_one : List String → String → Bool
includes_one parts s = any (λ part. includes_text s part) parts

-- `s.toUpperCase()`
unfoldable pub upper : String → String
unfolding lower_in
upper [] = ""
upper (c ∷ s) = lower_in "abcdefghijklmnopqrstuvwxyz" "ABCDEFGHIJKLMNOPQRSTUVWXYZ" c ∷ upper s

-- `s.replace(part, '')`: the first occurrence is removed.
unfoldable pub remove_first : String → String → String
remove_first part [] = ""
remove_first part (c ∷ s) =
    let rest = remove_first part s in
    elim (strip part (c ∷ s)) [ some after ↦ after | none ↦ c ∷ rest ]
