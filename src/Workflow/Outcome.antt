-- ===== src/Workflow/Outcome.antt =====
-- packages/workflow over the database: the transactions of an execution that go through.
use constructie_orchestrator.Base.{
  ◌≡◌, refl, ◌∙◌, ℕ, String, List, some, Bool, true, ok, ◌==◌, eq_self, String_eq, ℕ_eq, Option_eq,
}
use constructie_orchestrator.Base.Dict.{get, set, get-set_self}
use constructie_orchestrator.Domain.WorkItem.{
  WorkItem, AttemptState_eq, assert_work_item_transition, assert_attempt_transition,
}
use constructie_orchestrator.Work.Store.{
  WorkStore, AttemptRow, ItemTransition, AttemptTransition, RunBinding, transition_work_item,
  transition_attempt, bind_agent_run, domain_check, counted, update_many, update_found, moved_item,
  moved_row, bound_row, released_items,
}
use constructie_orchestrator.Work.Keep.{released_items-get}

-- An item and an attempt of it, as the store has them.
pub record Holds (s : WorkStore) (k a : String) (item : WorkItem) (row : AttemptRow) : Type 0 where
  pub item_there : get k s.items ≡ some item
  pub attempt_there : get a s.attempts ≡ some row
  pub item_id : item.id ≡ k

-- An update whose test passes counts a row.
pub update_many-hit :
    {V : Type 0} (k : String) (p : V → Bool) (f : V → V) (m : List (String × V)) (v : V)
    → get k m ≡ some v
    → p v ≡ true
    → update_many k p f m ≡ (1, set k (f v) m)
unfolding update_many update_found
update_many-hit k p f m v g t = rw (g, t)

pub item_moves :
    (input : ItemTransition) (now : ℕ) (s : WorkStore) (a : String) (item : WorkItem)
    (row : AttemptRow)
    → Holds s input.work_item_id a item row
    → input.expected_revision ≡ item.revision
    → assert_work_item_transition item.lifecycle_state input.to ≡ ok tt
    → (t : WorkStore) × (transition_work_item input now s s ≡ ok (moved_item input.to now item, t))
      × Holds t input.work_item_id a (moved_item input.to now item) row
unfolding transition_work_item moved_item domain_check counted
item_moves input now s a item row h rev legal =
    let k = input.work_item_id in
    let t = record s { items = set k (moved_item input.to now item) s.items } in
    (
      t,
      rw (
        h.item_there,
        rev,
        eq_self item.revision,
        legal,
        update_many-hit k (λ i. i.revision == item.revision) (moved_item input.to now) s.items item
            h.item_there (eq_self item.revision),
        get-set_self k (moved_item input.to now item) s.items,
      ),
      record {
        item_there = get-set_self k (moved_item input.to now item) s.items;
        attempt_there = h.attempt_there;
        item_id = h.item_id;
      },
    )

pub attempt_moves :
    (input : AttemptTransition) (now : ℕ) (s : WorkStore) (k : String) (item : WorkItem)
    (row : AttemptRow)
    → Holds s k input.attempt_id item row
    → assert_attempt_transition row.attempt.state input.to ≡ ok tt
    → (t : WorkStore) × (i : WorkItem) × (r : AttemptRow) × (transition_attempt input now s s
        ≡ ok (r.attempt, t))
      × Holds t k input.attempt_id i r
      × (r.attempt.state ≡ input.to)
      × (i.revision ≡ item.revision)
      × (i.lifecycle_state ≡ item.lifecycle_state)
unfolding transition_attempt moved_row domain_check counted
attempt_moves input now s k item row h legal =
    let a = input.attempt_id in
    let r = moved_row input.to row.attempt.started_at now row in
    let (i, g, rev, state, id) =
      released_items-get k input.to row.attempt now s.items item h.item_there in
    (
      record {
        items = released_items input.to row.attempt now s.items;
        attempts = set a r s.attempts;
      },
      i,
      r,
      rw (
        h.attempt_there,
        legal,
        update_many-hit a (λ x. x.attempt.state == row.attempt.state)
            (moved_row input.to row.attempt.started_at now) s.attempts row h.attempt_there
            (eq_self row.attempt.state),
        get-set_self a r s.attempts,
      ),
      record {
        item_there = g;
        attempt_there = get-set_self a r s.attempts;
        item_id = id ∙ h.item_id;
      },
      refl,
      rev,
      state,
    )

pub run_binds :
    (input : RunBinding) (now : ℕ) (s : WorkStore) (k : String) (item : WorkItem) (row : AttemptRow)
    → Holds s k input.attempt_id item row
    → (t : WorkStore) × (bind_agent_run input now s ≡ ok ((bound_row input now row).attempt, t))
      × Holds t k input.attempt_id item (bound_row input now row)
unfolding bind_agent_run
run_binds input now s k item row h =
    let a = input.attempt_id in
    let r = bound_row input now row in
    (
      record s { attempts = set a r s.attempts },
      rw (h.attempt_there),
      record {
        item_there = h.item_there;
        attempt_there = get-set_self a r s.attempts;
        item_id = h.item_id;
      },
    )
