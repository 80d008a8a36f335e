-- ===== src/Policy/Classifier/Occurs.antt =====
-- packages/policy/src/classification/action-classifier.ts: what its regular expressions mean, apart from how
-- they are tried, and that a trial misses no occurrence.
use Prim.Native.Char.{Char, code}
use Prim.Native.String.{String, [], ◌∷◌, ◌++◌}
use Prim.Native.String.append.{nil, cons}
use constructie_orchestrator.Base.{
  ℕ, zero, suc, ◌≡◌, ◌≤◌, refl, ap, ◌∙◌, arith, List, [], ◌∷◌, Bool, true, ◌||◌, ℕ_eq, eq_self, any,
  Elem, any-Elem, Bool-cases, inl, inr, ◌⊎◌, some,
}
use constructie_orchestrator.Base.Text.{lower, strip}
use constructie_orchestrator.Policy.Classifier.Pattern.{
  Atom, word, one, many, maybe, choice, one_or_end, Pattern, after, after_one, after_many, at_end,
  matches, search, test_pattern,
}

abbrev pub size : String → ℕ
size [] = 0
size (c ∷ s) = suc (size s)

-- Every character of the text is of the class.
abbrev pub Every : (ℕ → Bool) → String → Type 0
Every class [] = Unit
Every class (c ∷ s) = (class (code c) ≡ true) × Every class s

-- An atom may stand at the start of the first text and leave the second one.
abbrev pub Reads : Atom → String → String → Type 0
Reads (word w) s t = s ≡ w ++ t
Reads (one class) s t = (c : Char) × (class (code c) ≡ true) × (s ≡ c ∷ t)
Reads (many n class) s t = (run : String) × Every class run × (n ≤ size run) × (s ≡ run ++ t)
Reads (maybe w) s t = (s ≡ w ++ t) ⊎ (s ≡ t)
Reads (choice ws) s t = (w : String) × Elem w ws × (s ≡ w ++ t)
Reads (one_or_end class) s t =
    ((c : Char) × (class (code c) ≡ true) × (s ≡ c ∷ t)) ⊎ ((s ≡ "") × (t ≡ ""))

-- A list of atoms may stand at the start of a text.
abbrev pub Starts : List Atom → String → Type 0
Starts [] s = Unit
Starts (a ∷ atoms) s = (t : String) × Reads a s t × Starts atoms t

-- A pattern occurs in a text, without regard to case.
pub record Occurs (p : Pattern) (text : String) : Type 0 where
  pub before : String
  pub rest : String
  pub splits : lower text ≡ before ++ rest
  pub anchored : p.anchored ≡ true → before ≡ ""
  pub starts : Starts p.atoms rest

pub ++-nil : (t : String) → "" ++ t ≡ t
++-nil t = λ i. nil t i

pub ++-cons : (c : Char) (s t : String) → (c ∷ s) ++ t ≡ c ∷ (s ++ t)
++-cons c s t = λ i. cons c s t i

strip-++ : (w t : String) → strip w (w ++ t) ≡ some t
unfolding strip
strip-++ [] t = ap some (++-nil t)
strip-++ (c ∷ w) t = rw (++-cons c w t, eq_self (code c), strip-++ w t) refl

after-strip :
    (next : String → Bool) (w t s : String)
    → s ≡ w ++ t
    → next t ≡ true
    → after next (strip w s) ≡ true
unfolding after
after-strip next w t s e h = rw (e, strip-++ w t) h

or_right : (a b : Bool) → b ≡ true → (a || b) ≡ true
or_right a b h = ground arith

after_many-here :
    (class : ℕ → Bool) (next : String → Bool) (t : String)
    → next t ≡ true
    → after_many class next 0 t ≡ true
unfolding after_many
after_many-here class next [] h = h
after_many-here class next (c ∷ s) h = rw h refl

after_many-Every :
    (class : ℕ → Bool) (next : String → Bool) (n : ℕ) (run t : String)
    → Every class run
    → n ≤ size run
    → next t ≡ true
    → after_many class next n (run ++ t) ≡ true
unfolding after_many
after_many-Every class next zero [] t e few h = rw (++-nil t) (after_many-here class next t h)
after_many-Every class next (suc n) [] t e few h = absurd (omega (arith, few))
after_many-Every class next zero (c ∷ run) t (e, es) few h = rw (++-cons c run t) (
    or_right (next (c ∷ (run ++ t))) _
      (rw (e, after_many-Every class next 0 run t es (omega arith) h) refl))
after_many-Every class next (suc n) (c ∷ run) t (e, es) few h =
    rw (++-cons c run t, e, after_many-Every class next n run t es (omega (arith, few)) h) refl

any_one :
    (p : String → Bool) (ws : List String) (w : String) → Elem w ws → p w ≡ true → any p ws ≡ true
any_one p ws w m h = elim (Bool-cases (any p ws)) [ inl e ↦ e | inr e ↦ cc (any-Elem p ws e m, h) ]

Reads-matches :
    (a : Atom) (atoms : List Atom) (s t : String)
    → Reads a s t
    → matches atoms t ≡ true
    → matches (a ∷ atoms) s ≡ true
unfolding matches after_one at_end
Reads-matches (word w) atoms s t e h = after-strip (matches atoms) w t s e h
Reads-matches (one class) atoms s t (c, k, e) h = rw (e, k, h) refl
Reads-matches (many n class) atoms s t (run, es, few, e) h =
    rw e (after_many-Every class (matches atoms) n run t es few h)
Reads-matches (maybe w) atoms s t (inl e) h = rw (after-strip (matches atoms) w t s e h) refl
Reads-matches (maybe w) atoms s t (inr e) h = or_right _ (matches atoms s) (rw e h)
Reads-matches (choice ws) atoms s t (w, m, e) h =
    any_one (λ w. after (matches atoms) (strip w s)) ws w m (after-strip (matches atoms) w t s e h)
Reads-matches (one_or_end class) atoms s t (inl (c, k, e)) h = rw (e, k, h) refl
Reads-matches (one_or_end class) atoms s t (inr (e, f)) h = rw (e, ← f, h) refl

Starts-matches : (atoms : List Atom) (s : String) → Starts atoms s → matches atoms s ≡ true
unfolding matches
Starts-matches [] s h = refl
Starts-matches (a ∷ atoms) s (t, r, h) = Reads-matches a atoms s t r (Starts-matches atoms t h)

search-here : (atoms : List Atom) (s : String) → matches atoms s ≡ true → search atoms s ≡ true
unfolding search
search-here atoms [] h = h
search-here atoms (c ∷ s) h = rw h refl

search-later :
    (atoms : List Atom) (before s : String)
    → search atoms s ≡ true
    → search atoms (before ++ s) ≡ true
unfolding search
search-later atoms [] s h = rw (++-nil s) h
search-later atoms (c ∷ before) s h =
    rw (++-cons c before s)
      (or_right (matches atoms (c ∷ (before ++ s))) _ (search-later atoms before s h))

-- A trial finds every occurrence.
pub test_pattern-Occurs : (p : Pattern) (text : String) → Occurs p text → test_pattern p text ≡ true
unfolding test_pattern
test_pattern-Occurs p text o =
    let here = Starts-matches p.atoms o.rest o.starts in
    elim (Bool-cases p.anchored) [
      | inl a ↦
          let whole : lower text ≡ o.rest =
            o.splits ∙ ap (λ b. b ++ o.rest) (o.anchored a) ∙ ++-nil o.rest in
          rw (a, whole) here
      | inr a ↦
          rw (a, o.splits) (search-later p.atoms o.before o.rest (search-here p.atoms o.rest here))
    ]
