-- ===== src/Base/Lists.antt =====
-- Lists as the source's arrays: `includes`, `find`, `some`, `every`, `filter` and `length`.
use Prim.Native.Nat.{ℕ, suc}
use mathlib.Core.Path.{◌≡◌, refl, sym}
use mathlib.Core.Logic.{◌⊎◌, inl, inr}
use mathlib.Core.Bool.{Bool, true, false, ◌&&◌, ◌||◌}
use mathlib.Core.Option.{Option, none, some}
use mathlib.Core.List.{List, [], ◌∷◌}
use native.Mathlib.Omega.{arith}
use constructie_orchestrator.Base.Tests.{
  if◌then◌else◌, Eq, ◌==◌, eq_sound, eq_self, Bool-cases, and_true, or_false,
}

-- Membership that keeps the position, and a predicate on every element.
abbrev pub Elem : {A : Type 0} → A → List A → Type 0
Elem a [] = ⊥
Elem a (x ∷ xs) = (a ≡ x) ⊎ Elem a xs

abbrev pub All {ℓ κ} : {A : Type ℓ} → (A → Type κ) → List A → Type κ
All P [] = Unit
All P (x ∷ xs) = P x × All P xs

module _ {ℓ} {A : Type ℓ} where
  abbrev pub length : List A → ℕ
  length [] = 0
  length (x ∷ xs) = suc (length xs)

  -- `xs.length === 0`
  abbrev pub is_empty : List A → Bool
  is_empty [] = true
  is_empty (x ∷ xs) = false

  abbrev pub any : (A → Bool) → List A → Bool
  any p [] = false
  any p (x ∷ xs) = p x || any p xs

  abbrev pub all : (A → Bool) → List A → Bool
  all p [] = true
  all p (x ∷ xs) = p x && all p xs

  abbrev pub find : (A → Bool) → List A → Option A
  find p [] = none
  find p (x ∷ xs) = if p x then some x else find p xs

  abbrev pub filter : (A → Bool) → List A → List A
  filter p [] = []
  filter p (x ∷ xs) = if p x then x ∷ filter p xs else filter p xs

-- What the searches say of the elements.
module _ {A : Type 0} where
  pub find-some :
      (p : A → Bool) (xs : List A) {a : A} → find p xs ≡ some a → (p a ≡ true) × Elem a xs
  find-some p [] h = cc
  find-some p (x ∷ xs) {a} h = elim (Bool-cases (p x)) [
    | inl e ↦ ground (arith, e)
    | inr e ↦ let r = find-some p xs {a = a} (rw e at h) in (r.0, inr r.1)
  ]

  pub all-Elem : (p : A → Bool) (xs : List A) {a : A} → all p xs ≡ true → Elem a xs → p a ≡ true
  all-Elem p [] h m = absurd m
  all-Elem p (x ∷ xs) h (inl e) = rw e (and_true (p x) (all p xs) h).0
  all-Elem p (x ∷ xs) h (inr m) = all-Elem p xs (and_true (p x) (all p xs) h).1 m

  pub any-Elem : (p : A → Bool) (xs : List A) {a : A} → any p xs ≡ false → Elem a xs → p a ≡ false
  any-Elem p [] h m = absurd m
  any-Elem p (x ∷ xs) h (inl e) = rw e (or_false (p x) (any p xs) h).0
  any-Elem p (x ∷ xs) h (inr m) = any-Elem p xs (or_false (p x) (any p xs) h).1 m

  pub Elem-any : (p : A → Bool) (xs : List A) → any p xs ≡ true → (a : A) × (p a ≡ true) × Elem a xs
  Elem-any p [] h = cc
  Elem-any p (x ∷ xs) h = elim (Bool-cases (p x)) [
    | inl e ↦ (x, e, inl refl)
    | inr e ↦ let (a, q, m) = Elem-any p xs (rw e at h) in (a, q, inr m)
  ]

  pub filter-Elem :
      (p : A → Bool) (xs : List A) {a : A} → Elem a (filter p xs) → (p a ≡ true) × Elem a xs
  filter-Elem p [] m = absurd m
  filter-Elem p (x ∷ xs) {a} m = elim (Bool-cases (p x)) [
    | inl e ↦
        let n : (a ≡ x) ⊎ Elem a (filter p xs) = rw e at m in
        elim n [
          | inl q ↦ (rw q e, inl q)
          | inr k ↦ let r = filter-Elem p xs {a = a} k in (r.0, inr r.1)
        ]
    | inr e ↦ let r = filter-Elem p xs {a = a} (rw e at m) in (r.0, inr r.1)
  ]

-- `xs.includes(a)`
module _ {A : Type 0} ⦃e : Eq A⦄ where
  abbrev pub includes : A → List A → Bool
  includes a xs = any (λ x. x == a) xs

  pub includes-Elem : (a : A) (xs : List A) → includes a xs ≡ true → Elem a xs
  includes-Elem a [] h = cc
  includes-Elem a (x ∷ xs) h = elim (Bool-cases (x == a)) [
    | inl q ↦ inl (sym (eq_sound x a q))
    | inr q ↦ inr (includes-Elem a xs (rw q at h))
  ]

  pub Elem-includes : (a : A) (xs : List A) → Elem a xs → includes a xs ≡ true
  Elem-includes a [] m = absurd m
  Elem-includes a (x ∷ xs) (inl q) = rw (← q, eq_self a)
  Elem-includes a (x ∷ xs) (inr m) = ground (arith, Elem-includes a xs m)
