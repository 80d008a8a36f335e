-- ===== src/Workflow/Start.antt =====
-- packages/workflow over the database: the start of an attempt that goes through.
use constructie_orchestrator.Base.{
  ◌≡◌, inl, inr, ℕ, ◌+◌, ◌≤◌, arith, String, List, none, some, false, ok, ◌==◌, ◌&&◌, eq_self,
  eq_sound, String_eq, ℕ_eq, Bool-cases, Elem-any, and_true,
}
use constructie_orchestrator.Base.Dict.{get, set, get-set_self}
use constructie_orchestrator.Domain.WorkItem.{
  WorkItem, assigned, NewAttempt, assert_work_item_transition, is_active_attempt_state,
}
use constructie_orchestrator.Work.Store.{
  WorkStore, AttemptRow, AttemptStart, start_attempt, domain_check, counted, is_none, has_number,
  has_active, max_number, numbered, create_attempt, assigned_item,
}
use constructie_orchestrator.Work.Numbers.{max_number-le}
use constructie_orchestrator.Workflow.Outcome.{Holds, update_many-hit}

-- The next number is free.
has_number-next :
    (w : String) (rows : List (String × AttemptRow))
    → has_number w (max_number w rows + 1) rows ≡ false
unfolding has_number
has_number-next w rows = elim (Bool-cases (has_number w (max_number w rows + 1) rows)) [
  | inr e ↦ e
  | inl e ↦
      let n = max_number w rows + 1 in
      let ((k, row), t, m) =
        Elem-any
          (λ (e : String × AttemptRow).
            e.1.attempt.work_item_id == w && e.1.attempt.attempt_number == n)
          rows e in
      let (p, q) = and_true (row.attempt.work_item_id == w) (row.attempt.attempt_number == n) t in
      let le = max_number-le w k row rows m (eq_sound row.attempt.work_item_id w p) in
      let at_n = eq_sound row.attempt.attempt_number n q in
      absurd (above (row.attempt.attempt_number) (max_number w rows) at_n le)
]
  where
    above : (x y : ℕ) → x ≡ y + 1 → x ≤ y → ⊥
    above x y e l = omega arith

-- The row of a new attempt.
abbrev pub new_row : NewAttempt → ℕ → AttemptRow
new_row a n = record { attempt = numbered a n; active = is_active_attempt_state a.state }

pub attempt_starts :
    (input : AttemptStart) (now : ℕ) (s : WorkStore) (item : WorkItem)
    → get input.attempt.work_item_id s.items ≡ some item
    → item.id ≡ input.attempt.work_item_id
    → input.expected_revision ≡ item.revision
    → assert_work_item_transition item.lifecycle_state assigned ≡ ok tt
    → has_active input.attempt.work_item_id s.attempts ≡ false
    → get input.attempt.id s.attempts ≡ none
    → (t : WorkStore) × (n : ℕ) × (start_attempt input now s s
        ≡ ok ((assigned_item input.attempt.id now item, numbered input.attempt n), t))
      × Holds t input.attempt.work_item_id input.attempt.id
          (assigned_item input.attempt.id now item)
          (new_row input.attempt n)
unfolding start_attempt assigned_item domain_check counted create_attempt is_none numbered
attempt_starts input now s item there own rev legal idle fresh =
    let k = input.attempt.work_item_id in
    let n = max_number k s.attempts + 1 in
    let i = assigned_item input.attempt.id now item in
    let r = new_row input.attempt n in
    (
      record { items = set k i s.items; attempts = set input.attempt.id r s.attempts },
      n,
      rw (
        there,
        rev,
        eq_self item.revision,
        legal,
        idle,
        update_many-hit k (λ i. i.revision == item.revision) (assigned_item input.attempt.id now)
            s.items item there (eq_self item.revision),
        fresh,
        has_number-next k s.attempts,
        get-set_self k i s.items,
      ),
      record {
        item_there = get-set_self k i s.items;
        attempt_there = get-set_self input.attempt.id r s.attempts;
        item_id = own;
      },
    )
