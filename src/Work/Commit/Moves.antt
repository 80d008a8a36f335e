-- ===== src/Work/Commit/Moves.antt =====
-- packages/persistence/src/work/work-store.ts: what stands behind a change of an attempt.
use constructie_orchestrator.Base.{
  ℕ, ◌≡◌, sym, ◌∙◌, ap, none, some, ◌==◌, eq_sound, String_eq, ℕ_eq, Option_eq, ok, or_fail,
  >>=-eq-ok, check_then, ok_inj,
}
use constructie_orchestrator.Base.Dict.{get, set}
use constructie_orchestrator.Domain.WorkItem.{
  WorkItem, Attempt, AttemptState_eq, assert_attempt_transition,
}
use constructie_orchestrator.Work.Store.{
  AttemptRow, WorkStore, not_found, attempt_state_conflict, RunBinding, AttemptTransition,
  domain_check, update_many, counted, create_work_item, is_none, bound_row, bind_agent_run,
  moved_row, released_items, transition_attempt,
}
use constructie_orchestrator.Work.Commit.{
  or_fail_ok, domain_ok, >>-ok, read_back, updated_ok, none_of,
}

-- A committed transition of an attempt.
pub record AttemptMoved (input : AttemptTransition) (now : ℕ) (read s : WorkStore) (moved : Attempt)
    (t : WorkStore) : Type 0 where
  pub seen : AttemptRow
  pub before : AttemptRow
  pub was_seen : get input.attempt_id read.attempts ≡ some seen
  pub legal : assert_attempt_transition seen.attempt.state input.to ≡ ok tt
  pub was : get input.attempt_id s.attempts ≡ some before
  pub state : before.attempt.state ≡ seen.attempt.state
  pub result : moved ≡ (moved_row input.to seen.attempt.started_at now before).attempt
  pub attempts :
      t.attempts
      ≡ set input.attempt_id (moved_row input.to seen.attempt.started_at now before) s.attempts
  pub items : t.items ≡ released_items input.to seen.attempt now s.items

pub transition_attempt-ok :
    (input : AttemptTransition) (now : ℕ) (read s : WorkStore) {moved : Attempt} {t : WorkStore}
    → transition_attempt input now read s ≡ ok (moved, t)
    → AttemptMoved input now read s moved t
unfolding transition_attempt
transition_attempt-ok input now read s {moved} {t} h =
    let k = input.attempt_id in
    let (seen, g, h1) = >>=-eq-ok (or_fail (get k read.attempts) (not_found k)) _ h in
    let (free, h2) =
      >>-ok (domain_check (assert_attempt_transition seen.attempt.state input.to)) _ h1 in
    let (rows, u, h3) =
      >>=-eq-ok
        (counted (attempt_state_conflict k seen.attempt.state) (
          update_many k (λ row. row.attempt.state == seen.attempt.state)
            (moved_row input.to seen.attempt.started_at now) s.attempts))
        _ h2 in
    let (before, was, same, set_eq) = updated_ok _ k _ _ s.attempts u in
    let (row, f, h4) = >>=-eq-ok (or_fail (get k rows) (not_found k)) _ h3 in
    let row_eq = read_back k s.attempts set_eq (or_fail_ok (get k rows) _ f) in
    let moved_eq : row.attempt ≡ moved = ap (λ (q : Attempt × WorkStore). q.0) (ok_inj h4) in
    record {
      seen = seen;
      before = before;
      was_seen = or_fail_ok (get k read.attempts) _ g;
      legal = domain_ok (assert_attempt_transition seen.attempt.state input.to) free;
      was = was;
      state = eq_sound before.attempt.state seen.attempt.state same;
      result = sym moved_eq ∙ ap (λ (r : AttemptRow). r.attempt) row_eq;
      attempts = sym (ap (λ (q : Attempt × WorkStore). q.1.attempts) (ok_inj h4)) ∙ set_eq;
      items = sym (ap (λ (q : Attempt × WorkStore). q.1.items) (ok_inj h4));
    }

-- A committed binding of an agent run.
pub bind_agent_run-ok :
    (input : RunBinding) (now : ℕ) (s : WorkStore) {bound : Attempt} {t : WorkStore}
    → bind_agent_run input now s ≡ ok (bound, t)
    → (row : AttemptRow) × (get input.attempt_id s.attempts ≡ some row)
      × (t ≡ record s { attempts = set input.attempt_id (bound_row input now row) s.attempts })
unfolding bind_agent_run
bind_agent_run-ok input now s {bound} {t} h =
    let k = input.attempt_id in
    let (row, g, h1) = >>=-eq-ok (or_fail (get k s.attempts) (not_found k)) _ h in
    (
      row,
      or_fail_ok (get k s.attempts) _ g,
      sym (ap (λ (q : Attempt × WorkStore). q.1) (ok_inj h1)),
    )

-- A committed creation of a work item.
pub create_work_item-ok :
    (item : WorkItem) (s : WorkStore) {made : WorkItem} {t : WorkStore}
    → create_work_item item s ≡ ok (made, t)
    → (get item.id s.items ≡ none) × (t ≡ record s { items = set item.id item s.items })
unfolding create_work_item
create_work_item-ok item s {made} {t} h =
    let (free, h1) = check_then (is_none (get item.id s.items)) _ _ h in
    (none_of (get item.id s.items) free, sym (ap (λ (q : WorkItem × WorkStore). q.1) (ok_inj h1)))
