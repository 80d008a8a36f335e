-- ===== src/Work/History.antt =====
-- packages/persistence/src/work/work-store.ts: histories of committed transactions, each of which
-- may have read a store that is older than the one it writes to.
use constructie_orchestrator.Base.{◌≡◌, ℕ, ◌≤◌, String, List, some, ok, String_eq}
use constructie_orchestrator.Base.Dict.{get, Found}
use constructie_orchestrator.Domain.WorkItem.{WorkItem, Attempt}
use constructie_orchestrator.Work.Store.{
  WorkStore, AttemptRow, ItemTransition, AttemptStart, RunBinding, AttemptTransition,
  create_work_item, transition_work_item, start_attempt, bind_agent_run, transition_attempt,
}
use constructie_orchestrator.Work.Active.{IsIdleFor}

-- The second store comes from the first by committed transactions.
pub data Later : WorkStore → WorkStore → Type 0 where
  same : {s : WorkStore} → Later s s
  item_created :
      {r s t : WorkStore} (item : WorkItem) {made : WorkItem}
      → Later r s
      → create_work_item item s ≡ ok (made, t)
      → Later r t
  item_moved :
      {r read s t : WorkStore} (input : ItemTransition) (now : ℕ) {item : WorkItem}
      → Later r read
      → Later read s
      → transition_work_item input now read s ≡ ok (item, t)
      → Later r t
  attempt_started :
      {r read s t : WorkStore} (input : AttemptStart) (now : ℕ) {started : WorkItem × Attempt}
      → Later r read
      → Later read s
      → start_attempt input now read s ≡ ok (started, t)
      → Later r t
  run_bound :
      {r s t : WorkStore} (input : RunBinding) (now : ℕ) {bound : Attempt}
      → Later r s
      → bind_agent_run input now s ≡ ok (bound, t)
      → Later r t
  attempt_moved :
      {r read s t : WorkStore} (input : AttemptTransition) (now : ℕ) {moved : Attempt}
      → Later r read
      → Later read s
      → transition_attempt input now read s ≡ ok (moved, t)
      → Later r t

-- No attempt of the work item is active.
abbrev pub IsIdle : String → List (String × AttemptRow) → Type 0
IsIdle w rows = Found (IsIdleFor w) rows

-- What became of a work item: it is there, its revision did not go back, and at an equal revision
-- it is in the same state and no attempt of it became active.
pub record IsKept (w : String) (s t : WorkStore) (i j : WorkItem) : Type 0 where
  pub kept : get w t.items ≡ some j
  pub grown : i.revision ≤ j.revision
  pub same_state : j.revision ≡ i.revision → j.lifecycle_state ≡ i.lifecycle_state
  pub still_idle : j.revision ≡ i.revision → IsIdle w s.attempts → IsIdle w t.attempts

abbrev pub Keeps : String → WorkStore → WorkStore → Type 0
Keeps w s t = (i : WorkItem) → get w s.items ≡ some i → (j : WorkItem) × IsKept w s t i j
