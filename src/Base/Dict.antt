-- ===== src/Base/Dict.antt =====
-- The source's `Map<string, V>`: entries in insertion order, a key held once. A write to a key that
-- is there replaces its value in place, and any other write appends.
use mathlib.Core.Path.{◌≡◌, refl, ap, subst, sym}
use mathlib.Core.Logic.{◌⊎◌, inl, inr}
use mathlib.Core.Bool.{Bool, true, false}
use mathlib.Core.Option.{Option, none, some}
use mathlib.Core.List.{List, [], ◌∷◌}
use native.Mathlib.Omega.{arith}
use constructie_orchestrator.Base.Tests.{
  if◌then◌else◌, ◌==◌, String_eq, eq_sound, eq_self, Bool-cases,
}
use constructie_orchestrator.Base.Lists.{Elem, All}
use Prim.Native.String.{String}

module _ {V : Type 0} where
  unfoldable pub get : String → List (String × V) → Option V
  get k [] = none
  get k ((j, v) ∷ m) = if j == k then some v else get k m

  unfoldable pub set : String → V → List (String × V) → List (String × V)
  set k v [] = (k, v) ∷ []
  set k v ((j, w) ∷ m) = if j == k then (j, v) ∷ m else (j, w) ∷ set k v m

  -- The key does not occur.
  abbrev pub Absent : String → List (String × V) → Type 0
  Absent k m = All (λ e. (e.0 == k) ≡ false) m

  -- No key occurs twice.
  abbrev pub Distinct : List (String × V) → Type 0
  Distinct [] = Unit
  Distinct ((k, v) ∷ m) = Absent k m × Distinct m

eq_trans : (i j k : String) → (i == j) ≡ true → (i == k) ≡ (j == k)
eq_trans i j k h = ap (λ t. t == k) (eq_sound i j h)

eq_comm_false : (i j : String) → (i == j) ≡ false → (j == i) ≡ false
eq_comm_false i j h = elim (Bool-cases (j == i)) [
  | inl e ↦ let q = eq_sound j i e in absurd (no_both (rw (← q, eq_self j) at h))
  | inr e ↦ e
]
  where
    no_both : true ≡ false → ⊥
    no_both e = cc

module _ {V : Type 0} where
  pub get-set :
      (j k : String) (v : V) (m : List (String × V))
      → get j (set k v m) ≡ (if k == j then some v else get j m)
  unfolding get set
  get-set j k v [] = refl
  get-set j k v ((i, w) ∷ m) = elim (Bool-cases (i == k)) [
    | inl e ↦ rw e (rw (eq_trans i k j e) (both j k v w m))
    | inr e ↦ rw e (rw (get-set j k v m) (cases i j k e v w m))
  ]
    where
      both :
          (j k : String) (v w : V) (m : List (String × V))
          → (if k == j then some v else get j m)
            ≡ (if k == j then some v else if k == j then some w else get j m)
      both j k v w m = elim (Bool-cases (k == j)) [ inl q ↦ rw q | inr q ↦ rw q ]

      cases :
          (i j k : String)
          → (i == k) ≡ false
          → (v w : V) (m : List (String × V))
          → (if i == j then some w else if k == j then some v else get j m)
            ≡ (if k == j then some v else if i == j then some w else get j m)
      cases i j k n v w m = elim (Bool-cases (k == j)) [
        | inl q ↦ rw (q, ← eq_sound k j q, n)
        | inr q ↦ rw q
      ]

  pub get-set_self : (k : String) (v : V) (m : List (String × V)) → get k (set k v m) ≡ some v
  get-set_self k v m = rw (get-set k k v m, eq_self k)

  Absent-set :
      (j k : String) (v : V) (m : List (String × V))
      → (k == j) ≡ false
      → Absent j m
      → Absent j (set k v m)
  unfolding set
  Absent-set j k v [] n h = (n, tt)
  Absent-set j k v ((i, w) ∷ m) n h = elim (Bool-cases (i == k)) [
    | inl e ↦ rw e h
    | inr e ↦ rw e (h.0, Absent-set j k v m n h.1)
  ]

  pub Distinct-set :
      (k : String) (v : V) (m : List (String × V)) → Distinct m → Distinct (set k v m)
  unfolding set
  Distinct-set k v [] d = (tt, tt)
  Distinct-set k v ((i, w) ∷ m) d = elim (Bool-cases (i == k)) [
    | inl e ↦ rw e d
    | inr e ↦ rw e (Absent-set i k v m (eq_comm_false i k e) d.0, Distinct-set k v m d.1)
  ]

  Absent-Elem : (k : String) (v : V) (m : List (String × V)) → Absent k m → ¬ Elem (k, v) m
  Absent-Elem k v [] h e = e
  Absent-Elem k v ((i, w) ∷ m) h (inl e) = bad
    where
      bad : ⊥
      bad = cc (rw (← ap (λ (t : String × V). t.0) e, eq_self k) at h.0)
  Absent-Elem k v ((i, w) ∷ m) h (inr e) = Absent-Elem k v m h.1 e

  -- With distinct keys an entry of the list is what `get` finds.
  pub get_of_Elem :
      (k : String) (v : V) (m : List (String × V)) → Distinct m → Elem (k, v) m → get k m ≡ some v
  unfolding get
  get_of_Elem k v [] d e = absurd e
  get_of_Elem k v ((i, w) ∷ m) d (inl e) =
      let p : k ≡ i = ap (λ (t : String × V). t.0) e in
      let q : v ≡ w = ap (λ (t : String × V). t.1) e in rw (p, q, eq_self i)
  get_of_Elem k v ((i, w) ∷ m) d (inr e) = elim (Bool-cases (i == k)) [
    | inl p ↦ absurd (Absent-Elem k v m (rw (eq_sound i k p) at d.0) e)
    | inr p ↦ rw p (get_of_Elem k v m d.1 e)
  ]

  pub Elem-of_get : (k : String) (v : V) (m : List (String × V)) → get k m ≡ some v → Elem (k, v) m
  unfolding get
  Elem-of_get k v [] h = cc
  Elem-of_get k v ((i, w) ∷ m) h = elim (Bool-cases (i == k)) [
    | inl p ↦ inl (ground (arith, p, eq_sound i k p))
    | inr p ↦ inr (Elem-of_get k v m (rw p at h))
  ]

-- A predicate on every value of a map.
module _ {V : Type 0} (P : V → Type 0) where
  abbrev pub AllValues : List (String × V) → Type 0
  AllValues [] = Unit
  AllValues ((k, v) ∷ m) = P v × AllValues m

  pub AllValues-get :
      (k : String) (m : List (String × V)) {v : V} → AllValues m → get k m ≡ some v → P v
  unfolding get
  AllValues-get k [] a h = cc
  AllValues-get k ((j, w) ∷ m) {v} a h = elim (Bool-cases (j == k)) [
    | inl e ↦ let q : some w ≡ some v = rw e at h in let r : w ≡ v = cc q in subst P r a.0
    | inr e ↦ AllValues-get k m a.1 (rw e at h)
  ]

  pub AllValues-set :
      (k : String) (v : V) (m : List (String × V)) → P v → AllValues m → AllValues (set k v m)
  unfolding set
  AllValues-set k v [] p a = (p, tt)
  AllValues-set k v ((j, w) ∷ m) p a = elim (Bool-cases (j == k)) [
    | inl e ↦ rw e (p, a.1)
    | inr e ↦ rw e (a.0, AllValues-set k v m p a.1)
  ]

  pub AllValues-Elem :
      (k : String) (v : V) (m : List (String × V)) → AllValues m → Elem (k, v) m → P v
  AllValues-Elem k v [] a e = absurd e
  AllValues-Elem k v ((j, w) ∷ m) a (inl e) = subst P (ap (λ (t : String × V). t.1) (sym e)) a.0
  AllValues-Elem k v ((j, w) ∷ m) a (inr e) = AllValues-Elem k v m a.1 e

-- A predicate on every value that a lookup finds.
module _ {V : Type 0} where
  abbrev pub Found : (V → Type 0) → List (String × V) → Type 0
  Found P m = (k : String) (v : V) → get k m ≡ some v → P v

  -- What a lookup finds after a write: the value written, or one that was there.
  pub get-set-cases :
      (j k : String) (v : V) (m : List (String × V)) {w : V}
      → get j (set k v m) ≡ some w
      → ((k ≡ j) × (v ≡ w)) ⊎ (get j m ≡ some w)
  get-set-cases j k v m {w} h = of_test (k == j) refl (rw (get-set j k v m) at h)
    where
      of_test :
          (b : Bool)
          → (k == j) ≡ b
          → (if b then some v else get j m) ≡ some w
          → ((k ≡ j) × (v ≡ w)) ⊎ (get j m ≡ some w)
      of_test true e g = inl (eq_sound k j e, cc)
      of_test false e g = inr g

  pub Found-set :
      (P : V → Type 0) (k : String) (v : V) (m : List (String × V))
      → P v
      → Found P m
      → Found P (set k v m)
  Found-set P k v m p f j w h = elim (get-set-cases j k v m h) [
    | inl e ↦ subst P e.1 p
    | inr g ↦ f j w g
  ]
