-- ===== src/Work/Tests.antt =====
-- Concrete transactions of the work store, two of which have read an older store.
use constructie_orchestrator.Base.{◌≡◌, refl, ◌+◌, ◌≤◌, ◌<◌, [], ◌∷◌, some, true, false, ok, err}
use constructie_orchestrator.Base.Dict.{get, set}
use constructie_orchestrator.Domain.WorkItem.{
  WorkItem, WorkItemLifecycleState, WorkItemLifecycleState-discrete, AttemptState,
  AttemptState-discrete, assigned, failed, work_item_transitions, attempt_transitions,
  assert_work_item_transition, assert_attempt_transition, is_active_attempt_state,
  active_attempt_states,
}
use constructie_orchestrator.Domain.WorkItem
use constructie_orchestrator.Work.Store.{
  WorkStore, WorkStoreError, domain_check, is_none, counted, update_many, update_found, numbered,
  max_number, has_number, has_active, create_attempt, assigned_item, moved_item, moved_row,
  released_items, start_attempt, transition_attempt, transition_work_item,
}
use constructie_orchestrator.Work.Active.{IsSound}
use constructie_orchestrator.Work.History.{Later, same, attempt_started, attempt_moved, item_moved}
use constructie_orchestrator.Work.Histories.{
  Later-IsSound, Later-revision, transition_work_item-legal, transition_work_item-once,
}
use constructie_orchestrator.Work.Numbers.{start_attempt-number}
use constructie_orchestrator.Work.Examples.{
  ready_item, assigned_to, running_at, attempt, row, start, store, before, begun, moving, going,
  to_starting, to_running,
}

starts :
    start_attempt (start "A1") 7 before before
    ≡ ok ((assigned_to 7, attempt WorkItem.not_started 1 0), begun)
unfolding start_attempt domain_check is_none counted update_many update_found numbered max_number
    has_number has_active create_attempt assigned_item get set assert_work_item_transition
    work_item_transitions WorkItemLifecycleState-discrete is_active_attempt_state
    active_attempt_states AttemptState-discrete
starts = refl

moves : transition_attempt to_starting 8 begun begun ≡ ok (attempt WorkItem.starting 1 8, moving)
unfolding transition_attempt domain_check counted update_many update_found moved_row released_items
    get set assert_attempt_transition attempt_transitions is_active_attempt_state
    active_attempt_states AttemptState-discrete
moves = refl

goes : transition_work_item to_running 9 begun moving ≡ ok (running_at 9, going)
unfolding transition_work_item domain_check counted update_many update_found moved_item get set
    assert_work_item_transition work_item_transitions WorkItemLifecycleState-discrete
goes = refl

before-IsSound : IsSound before
unfolding get
before-IsSound = record { marked = λ k v h. cc h; one = λ j k a b h. cc h }

to_begun : Later before begun
to_begun = attempt_started (start "A1") 7 same same starts

to_going : Later before going
to_going = item_moved to_running 9 to_begun (attempt_moved to_starting 8 same same moves) goes

Later-IsSound_example : IsSound going
Later-IsSound_example = Later-IsSound to_going before-IsSound

there : get "T1" before.items ≡ some ready_item
unfolding get
there = refl

Later-revision_example :
    (j : WorkItem) × (get "T1" going.items ≡ some j)
    × (4 ≤ j.revision)
    × (j.revision ≡ 4 → j.lifecycle_state ≡ WorkItem.ready)
Later-revision_example = Later-revision to_going before-IsSound "T1" ready_item there

begun-IsSound : IsSound begun
begun-IsSound = Later-IsSound to_begun before-IsSound

moving-IsSound : IsSound moving
moving-IsSound = Later-IsSound (attempt_moved to_starting 8 same same moves) begun-IsSound

transition_work_item-legal_example :
    (i : WorkItem) × (get "T1" moving.items ≡ some i)
    × (assert_work_item_transition i.lifecycle_state WorkItem.running ≡ ok tt)
    × (i.revision ≡ 5)
    × ((running_at 9).lifecycle_state ≡ WorkItem.running)
    × ((running_at 9).revision ≡ i.revision + 1)
transition_work_item-legal_example =
    transition_work_item-legal to_running 9 begun moving going (running_at 9) begun-IsSound
      (attempt_moved to_starting 8 same same moves) goes

transition_work_item-once_example :
    (e : WorkStoreError) × (transition_work_item to_running 10 begun going ≡ err e)
transition_work_item-once_example =
    transition_work_item-once to_running to_running 9 10 begun moving going begun going
      (running_at 9) moving-IsSound goes same refl refl

-- A second attempt, after one that failed.
abbrev ended : WorkStore
ended = store ready_item (("A1", row failed false 3 0) ∷ [])

starts_again :
    start_attempt (start "A2") 7 ended ended
    ≡ ok (
      (
        record (assigned_to 7) { current_attempt_id = some "A2" },
        record (attempt WorkItem.not_started 4 0) { id = "A2" },
      ),
      store
          (record (assigned_to 7) { current_attempt_id = some "A2" })
          (("A1", row failed false 3 0)
            ∷ (
              "A2",
              record {
                attempt = record (attempt WorkItem.not_started 4 0) { id = "A2" };
                active = true;
              },
            )
            ∷ []),
    )
unfolding start_attempt domain_check is_none counted update_many update_found numbered max_number
    has_number has_active create_attempt assigned_item get set assert_work_item_transition
    work_item_transitions WorkItemLifecycleState-discrete is_active_attempt_state
    active_attempt_states AttemptState-discrete
starts_again = refl

failed_there : get "A1" ended.attempts ≡ some (row failed false 3 0)
unfolding get
failed_there = refl

start_attempt-number_example : 3 < 4
start_attempt-number_example =
    start_attempt-number (start "A2") 7 ended ended _ _ _ starts_again "A1" (row failed false 3 0)
      failed_there refl
