-- ===== src/Base/Tests.antt =====
-- Boolean tests: the conditional, orders on native numbers, and equality as an instance, which
-- stands for the source's `===` and `includes`.
use Prim.Native.Nat.{ℕ, compare, Ordering}
use Prim.Native.String.{String}
use mathlib.Core.Path.{◌≡◌, refl, ap}
use mathlib.Core.Logic.{◌⊎◌, inl, inr}
use mathlib.Core.Bool.{Bool, true, false, ◌&&◌, ◌||◌}
use mathlib.Core.Option.{Option, none, some}
use native.Mathlib.Omega.{arith}
use text.Mathlib.Text.{◌==◌ as str_eq, find?}
use text.Mathlib.TextEquality.{eq_iff}

infix 1 if◌then◌else◌
abbrev pub if◌then◌else◌ {ℓ} : {A : Type ℓ} → Bool → A → A → A
if true then x else y = x
if false then x else y = y

abbrev pub ltb : ℕ → ℕ → Bool
ltb a b = elim (compare a b) [ Ordering.lt ↦ true | _ ↦ false ]

abbrev pub leb : ℕ → ℕ → Bool
leb a b = elim (compare a b) [ Ordering.gt ↦ false | _ ↦ true ]

abbrev nat_eq : ℕ → ℕ → Bool
nat_eq a b = elim (compare a b) [ Ordering.eq ↦ true | _ ↦ false ]

-- A decidable equality as a Boolean test with its two laws.
pub record Eq (A : Type 0) : Type 0 where
  pub test : A → A → Bool
  pub sound : (a b : A) → test a b ≡ true → a ≡ b
  pub self : (a : A) → test a a ≡ true

infix 50 ◌==◌
abbrev pub ◌==◌ : {A : Type 0} ⦃e : Eq A⦄ → A → A → Bool
◌==◌ ⦃e⦄ = e.test

pub eq_sound : {A : Type 0} ⦃e : Eq A⦄ (a b : A) → (a == b) ≡ true → a ≡ b
eq_sound ⦃e⦄ a b = e.sound a b

pub eq_self : {A : Type 0} ⦃e : Eq A⦄ (a : A) → (a == a) ≡ true
eq_self ⦃e⦄ a = e.self a

pub nat_sound : (a b : ℕ) → nat_eq a b ≡ true → a ≡ b
nat_sound a b h = ground arith

pub nat_self : (a : ℕ) → nat_eq a a ≡ true
nat_self a = ground arith

instance abbrev pub ℕ_eq : Eq ℕ
ℕ_eq = record { test = nat_eq; sound = nat_sound; self = nat_self }

pub str_self : (a : String) → str_eq a a ≡ true
str_self a = (eq_iff a a).1 refl

instance abbrev pub String_eq : Eq String
String_eq = record { test = str_eq; sound = λ a b. (eq_iff a b).0; self = str_self }

-- An enumeration has its equality from `Discrete`, which `hlevel` proves.
abbrev pub dec_test : {A : Type 0} → Dec A → Bool
dec_test (yes _) = true
dec_test (no _) = false

pub dec_sound : {A : Type 0} (d : Discrete A) (a b : A) → dec_test (d a b) ≡ true → a ≡ b
dec_sound d a b h = go (d a b) h
  where
    go : (p : Dec (a ≡ b)) → dec_test p ≡ true → a ≡ b
    go (yes q) _ = q
    go (no _) e = cc

pub dec_self : {A : Type 0} (d : Discrete A) (a : A) → dec_test (d a a) ≡ true
dec_self d a = go (d a a)
  where
    go : (p : Dec (a ≡ a)) → dec_test p ≡ true
    go (yes _) = refl
    go (no n) = absurd (n refl)

abbrev pub enum_eq : {A : Type 0} → Discrete A → Eq A
enum_eq d = record { test = λ a b. dec_test (d a b); sound = dec_sound d; self = dec_self d }

abbrev pub option_test : {A : Type 0} ⦃e : Eq A⦄ → Option A → Option A → Bool
option_test none none = true
option_test (some a) (some b) = a == b
option_test _ _ = false

pub option_sound : {A : Type 0} ⦃e : Eq A⦄ (a b : Option A) → option_test a b ≡ true → a ≡ b
option_sound none none h = refl
option_sound (some a) (some b) h = ap some (eq_sound a b h)
option_sound none (some b) h = cc
option_sound (some a) none h = cc

pub option_self : {A : Type 0} ⦃e : Eq A⦄ (a : Option A) → option_test a a ≡ true
option_self none = refl
option_self (some a) = eq_self a

instance abbrev pub Option_eq : {A : Type 0} ⦃e : Eq A⦄ → Eq (Option A)
Option_eq = record { test = option_test; sound = option_sound; self = option_self }

-- To split on a computed value and keep the equation.
pub Bool-cases : (b : Bool) → (b ≡ true) ⊎ (b ≡ false)
Bool-cases true = inl refl
Bool-cases false = inr refl

pub Option-cases {ℓ} : {A : Type ℓ} (o : Option A) → (o ≡ none) ⊎ ((a : A) × (o ≡ some a))
Option-cases none = inl refl
Option-cases (some a) = inr (a, refl)

pub and_true : (a b : Bool) → (a && b) ≡ true → (a ≡ true) × (b ≡ true)
and_true a b h = ground arith

pub or_false : (a b : Bool) → (a || b) ≡ false → (a ≡ false) × (b ≡ false)
or_false a b h = ground arith

abbrev pub is_some {ℓ} : {A : Type ℓ} → Option A → Bool
is_some none = false
is_some (some _) = true

-- `whole.includes(part)` of two texts.
abbrev pub includes_text : String → String → Bool
includes_text whole part = is_some (find? whole part)
