-- ===== src/Work/Active.antt =====
-- packages/persistence/src/work/work-store.ts: which attempts are active, and what a change of one
-- row of the attempts keeps.
use constructie_orchestrator.Base.{◌≡◌, sym, ◌∙◌, ap, inl, inr, String, List, some, true, false}
use constructie_orchestrator.Base.Dict.{get, set, Found, get-set-cases}
use constructie_orchestrator.Domain.WorkItem.{is_active_attempt_state}
use constructie_orchestrator.Work.Store.{AttemptRow, WorkStore}

-- The column `active` says what the state says.
abbrev pub IsMarked : AttemptRow → Type 0
IsMarked row = row.active ≡ is_active_attempt_state row.attempt.state

-- The row is not an active attempt of the work item.
abbrev pub IsIdleFor : String → AttemptRow → Type 0
IsIdleFor w row = row.attempt.work_item_id ≡ w → row.active ≡ false

-- No work item has two active attempts.
abbrev pub OneActive : List (String × AttemptRow) → Type 0
OneActive rows =
    (j k : String) (a b : AttemptRow)
    → get j rows ≡ some a
    → get k rows ≡ some b
    → a.active ≡ true
    → b.active ≡ true
    → a.attempt.work_item_id ≡ b.attempt.work_item_id
    → j ≡ k

-- The table of attempts in which each row is marked and no work item has two active attempts.
pub record IsSound (s : WorkStore) : Type 0 where
  pub marked : Found IsMarked s.attempts
  pub one : OneActive s.attempts

-- Any other active attempt of the same work item is this one.
abbrev pub IsOnlyFor : String → AttemptRow → List (String × AttemptRow) → Type 0
IsOnlyFor k v rows =
    v.active ≡ true
    → (j : String) (a : AttemptRow) → get j rows ≡ some a
    → a.active ≡ true
    → a.attempt.work_item_id ≡ v.attempt.work_item_id
    → j ≡ k

pub OneActive-set :
    (k : String) (v : AttemptRow) (rows : List (String × AttemptRow))
    → IsOnlyFor k v rows
    → OneActive rows
    → OneActive (set k v rows)
OneActive-set k v rows only one i j a b ga gb aa ab same = elim (get-set-cases i k v rows ga) [
  | inl p ↦ elim (get-set-cases j k v rows gb) [ inl q ↦ sym p.0 ∙ q.0 | inr h ↦ first p.0 p.1 h ]
  | inr g ↦ elim (get-set-cases j k v rows gb) [
    | inl q ↦ second g q.0 q.1
    | inr h ↦ one i j a b g h aa ab same
  ]
]
  where
    first : k ≡ i → v ≡ a → get j rows ≡ some b → i ≡ j
    first p e h =
        let act : v.active ≡ true = rw (← e) at aa in
        let it : b.attempt.work_item_id ≡ v.attempt.work_item_id =
          sym same ∙ ap (λ (r : AttemptRow). r.attempt.work_item_id) (sym e) in
        sym p ∙ sym (only act j b h ab it)

    second : get i rows ≡ some a → k ≡ j → v ≡ b → i ≡ j
    second g p e =
        let act : v.active ≡ true = ap (λ (r : AttemptRow). r.active) e ∙ ab in
        let it : a.attempt.work_item_id ≡ v.attempt.work_item_id =
          same ∙ ap (λ (r : AttemptRow). r.attempt.work_item_id) (sym e) in
        only act i a g aa it ∙ p
