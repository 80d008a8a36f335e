-- ===== src/Work/Numbers.antt =====
-- packages/persistence/src/work/work-store.ts: the numbers of the attempts of a work item.
use constructie_orchestrator.Base.{
  ◌≡◌, refl, ap, inl, inr, ℕ, ◌+◌, ◌<◌, ◌≤◌, arith, String, List, [], ◌∷◌, some, true, ok, ◌==◌,
  eq_self, String_eq, Elem, ltb, if◌then◌else◌, Bool-cases,
}
use constructie_orchestrator.Base.Dict.{get, Elem-of_get}
use constructie_orchestrator.Domain.WorkItem.{WorkItem, Attempt}
use constructie_orchestrator.Work.Store.{
  WorkStore, AttemptRow, AttemptStart, start_attempt, max_number, numbered,
}
use constructie_orchestrator.Work.Commit.Start.{start_attempt-ok}

-- One step of the maximum.
larger : ℕ → ℕ → ℕ
larger rest n = if ltb rest n then n else rest

larger-le : (rest n : ℕ) → (n ≤ larger rest n) × (rest ≤ larger rest n)
unfolding larger
larger-le rest n = ground arith

pub max_number-le :
    (w k : String) (row : AttemptRow) (rows : List (String × AttemptRow))
    → Elem (k, row) rows
    → row.attempt.work_item_id ≡ w
    → row.attempt.attempt_number ≤ max_number w rows
unfolding max_number larger
max_number-le w k row [] m e = absurd m
max_number-le w k row ((j, v) ∷ rows) (inl q) e =
    let same : row ≡ v = ap (λ (p : String × AttemptRow). p.1) q in
    let own : (v.attempt.work_item_id == w) ≡ true = rw (← same, e) (eq_self w) in
    rw (own, same) (larger-le (max_number w rows) v.attempt.attempt_number).0
max_number-le w k row ((j, v) ∷ rows) (inr m) e =
    let rest = max_number-le w k row rows m e in
    let step = (larger-le (max_number w rows) v.attempt.attempt_number).1 in
    elim (Bool-cases (v.attempt.work_item_id == w)) [
      | inl own ↦ rw own (omega (arith, rest, step))
      | inr own ↦ rw own rest
    ]

-- An attempt that starts gets a number above those of all attempts that its work item has.
pub start_attempt-number :
    (input : AttemptStart) (now : ℕ) (read s t : WorkStore) (item : WorkItem) (attempt : Attempt)
    → start_attempt input now read s ≡ ok ((item, attempt), t)
    → (k : String) (row : AttemptRow) → get k s.attempts ≡ some row
    → row.attempt.work_item_id ≡ attempt.work_item_id
    → row.attempt.attempt_number < attempt.attempt_number
unfolding numbered
start_attempt-number input now read s t item attempt h k row g e =
    let c = start_attempt-ok input now read s h in
    let own : attempt.work_item_id ≡ input.attempt.work_item_id = rw (c.attempt) refl in
    let number : attempt.attempt_number ≡ max_number input.attempt.work_item_id s.attempts + 1 =
      rw (c.attempt) refl in
    let le =
      max_number-le attempt.work_item_id k row s.attempts (Elem-of_get k row s.attempts g) e in
    let le2 = rw own at le in omega arith
