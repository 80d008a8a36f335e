-- ===== src/Base/Outcome.antt =====
-- What a call of the source returns or throws.
use mathlib.Core.Path.{◌≡◌, refl}
use mathlib.Core.Logic.{◌⊎◌, inl, inr}
use mathlib.Core.Option.{Option, none, some}
use mathlib.Core.Bool.{Bool, true, false}

pub data Result (E A : Type 0) : Type 0 where
  err : E → Result E A
  ok : A → Result E A

-- `if (!found) throw e;`
abbrev pub or_fail : {E A : Type 0} → Option A → E → Result E A
or_fail none e = err e
or_fail (some a) e = ok a

-- `if (!test) throw e;`
abbrev pub check : {E : Type 0} → Bool → E → Result E (Unit {0})
check false e = err e
check true _ = ok tt

infixl 5 ◌>>=◌
abbrev pub ◌>>=◌ : {E A B : Type 0} → Result E A → (A → Result E B) → Result E B
err thrown >>= next = err thrown
ok value >>= next = next value

-- A chain that succeeds has a first step that succeeds.
pub >>=-eq-ok :
    {E A B : Type 0} (step : Result E A) (next : A → Result E B) {end : B}
    → (step >>= next) ≡ ok end
    → (value : A) × (step ≡ ok value) × (next value ≡ ok end)
>>=-eq-ok (err thrown) next done = cc
>>=-eq-ok (ok value) next done = (value, refl, done)

infixl 5 ◌>>◌
abbrev pub ◌>>◌ : {E B : Type 0} → Result E (Unit {0}) → Result E B → Result E B
first >> second = first >>= λ _. second

pub check_ok : {E : Type 0} (b : Bool) (e : E) {u : Unit {0}} → check b e ≡ ok u → b ≡ true
check_ok true e h = refl
check_ok false e h = cc

pub ok_inj : {E A : Type 0} {a b : A} → ◌≡◌ {A = Result E A} (ok a) (ok b) → a ≡ b
ok_inj h = cc

-- What stands behind a test that passes.
pub check_then :
    {E B : Type 0} (b : Bool) (e : E) (k : Result E B) {c : B}
    → (check b e >> k) ≡ ok c
    → (b ≡ true) × (k ≡ ok c)
check_then true e k h = (refl, h)
check_then false e k h = cc

pub ok-cases : {E : Type 0} (m : Result E (Unit {0})) → (m ≡ ok tt) ⊎ ((e : E) × (m ≡ err e))
ok-cases (ok _) = inl refl
ok-cases (err e) = inr (e, refl)
