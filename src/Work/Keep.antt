-- ===== src/Work/Keep.antt =====
-- packages/persistence/src/work/work-store.ts: what the writes of a transaction keep of the work items.
use constructie_orchestrator.Base.{
  ◌≡◌, refl, sym, ◌∙◌, inl, inr, ℕ, ◌+◌, arith, String, List, Option, Option_eq, none, some, Bool,
  true, false, if◌then◌else◌, ◌==◌, eq_sound, ◌⊎◌, String_eq, Bool-cases,
}
use constructie_orchestrator.Base.Dict.{get, set, get-set}
use constructie_orchestrator.Domain.WorkItem.{
  WorkItem, Attempt, AttemptState, is_active_attempt_state,
}
use constructie_orchestrator.Work.Store.{
  WorkStore, update_many, released_item, released_items, update_found,
}
use constructie_orchestrator.Work.History.{IsIdle, Keeps}

pub Keeps-trans : (w : String) (r s t : WorkStore) → Keeps w r s → Keeps w s t → Keeps w r t
Keeps-trans w r s t f g i h =
    let (j, k) = f i h in
    let (l, m) = g j k.kept in
    let low = k.grown in
    let high = m.grown in
    let back : l.revision ≡ i.revision → (j.revision ≡ i.revision) × (l.revision ≡ j.revision) =
      λ e. omega arith in
    (
      l,
      record {
        kept = m.kept;
        grown = omega arith;
        same_state = λ e. let (p, q) = back e in m.same_state q ∙ k.same_state p;
        still_idle = λ e d. let (p, q) = back e in m.still_idle q (k.still_idle p d);
      },
    )

-- A work item that stays where it is, while no idle attempt becomes active.
pub Keeps-still :
    (w : String) (s t : WorkStore)
    → get w t.items ≡ get w s.items
    → (IsIdle w s.attempts → IsIdle w t.attempts)
    → Keeps w s t
Keeps-still w s t same_item idle i h = (
  i,
  record {
    kept = same_item ∙ h;
    grown = omega arith;
    same_state = λ _. refl;
    still_idle = λ _. idle;
  },
)

-- A write of a work item that raises its revision.
pub Keeps-raise :
    (w k : String) (s t : WorkStore) (b c : WorkItem)
    → get k s.items ≡ some b
    → c.revision ≡ b.revision + 1
    → t.items ≡ set k c s.items
    → ((k == w) ≡ false → IsIdle w s.attempts → IsIdle w t.attempts)
    → Keeps w s t
Keeps-raise w k s t b c was up items idle = elim (Bool-cases (k == w)) [
  | inl e ↦ λ i h.
      let first = raised e i h in
      (
        c,
        record {
          kept = rw (items, get-set w k c s.items, e);
          grown = omega (arith, first);
          same_state = λ q. absurd (bad (c.revision) (i.revision) first q);
          still_idle = λ q. absurd (bad (c.revision) (i.revision) first q);
        },
      )
  | inr e ↦ Keeps-still w s t (rw (items, get-set w k c s.items, e)) (idle e)
]
  where
    raised : (k == w) ≡ true → (i : WorkItem) → get w s.items ≡ some i → c.revision ≡ i.revision + 1
    raised e i h =
        let there : get k s.items ≡ some i = rw (eq_sound k w e, h) in
        let q : some b ≡ some i = sym was ∙ there in let one : b ≡ i = cc in rw (up, one)

    bad : (m n : ℕ) → m ≡ n + 1 → m ≡ n → ⊥
    bad m n e f = omega arith

-- A new work item is no other work item.
pub Keeps-create :
    (w k : String) (s t : WorkStore) (c : WorkItem)
    → get k s.items ≡ none
    → t ≡ record s { items = set k c s.items }
    → Keeps w s t
Keeps-create w k s t c absent made i h = elim (Bool-cases (k == w)) [
  | inl e ↦ absurd (bad (rw (eq_sound k w e) at absent))
  | inr e ↦ Keeps-still w s t (rw (made, get-set w k c s.items, e)) (λ d. rw made d) i h
]
  where
    bad : get w s.items ≡ none → ⊥
    bad e = cc

-- A table in which a row is as it was, or updated.
abbrev Leaves : {V : Type 0} → String → V → (V → V) → ℕ × List (String × V) → Type 0
Leaves j v f r = (get j r.1 ≡ some v) ⊎ (get j r.1 ≡ some (f v))

update_many-get :
    {V : Type 0} (j k : String) (p : V → Bool) (f : V → V) (m : List (String × V)) (v : V)
    → get j m ≡ some v
    → Leaves j v f (update_many k p f m)
unfolding update_many update_found
update_many-get {V} j k p f m v h = of_found (get k m) refl
  where
    of_test :
        (w : V) (b : Bool)
        → get k m ≡ some w
        → Leaves j v f (if b then (1, set k (f w) m) else (0, m))
    of_test w false g = inl h
    of_test w true g = elim (Bool-cases (k == j)) [
      | inl e ↦
          let there : get j m ≡ some w = rw (eq_sound k j e) at g in
          let q : some w ≡ some v = sym there ∙ h in
          let r : w ≡ v = cc in inr (rw (get-set j k (f w) m, e, r))
      | inr e ↦ inl (rw (get-set j k (f w) m, e, h))
    ]

    of_found : (o : Option V) → get k m ≡ o → Leaves j v f (update_found k p f m o)
    of_found none g = inl h
    of_found (some w) g = of_test w (p w) g

-- Letting go of an attempt changes no revision and no state.
pub released_items-get :
    (w : String) (to : AttemptState) (a : Attempt) (now : ℕ) (items : List (String × WorkItem))
    (i : WorkItem)
    → get w items ≡ some i
    → (j : WorkItem) × (get w (released_items to a now items) ≡ some j)
      × (j.revision ≡ i.revision)
      × (j.lifecycle_state ≡ i.lifecycle_state)
      × (j.id ≡ i.id)
unfolding released_items released_item
released_items-get w to a now items i h = elim (Bool-cases (is_active_attempt_state to)) [
  | inl e ↦ rw e (i, h, refl, refl, refl)
  | inr e ↦
      rw e
        (elim (update_many-get w a.work_item_id (λ i. i.current_attempt_id == some a.id)
          (released_item now) items i h) [
            | inl g ↦ (i, g, refl, refl, refl)
            | inr g ↦ (released_item now i, g, refl, refl, refl)
          ])
]

-- A change of an attempt keeps every work item, but for what it lets go of.
pub Keeps-release :
    (w : String) (s t : WorkStore) (to : AttemptState) (a : Attempt) (now : ℕ)
    → t.items ≡ released_items to a now s.items
    → (IsIdle w s.attempts → IsIdle w t.attempts)
    → Keeps w s t
Keeps-release w s t to a now items idle i h =
    let (j, g, r, l, _) = released_items-get w to a now s.items i h in
    (
      j,
      record {
        kept = rw (items, g);
        grown = omega (arith, r);
        same_state = λ _. l;
        still_idle = λ _. idle;
      },
    )
