-- ===== src/Work/Commit/Start.antt =====
-- packages/persistence/src/work/work-store.ts: what stands behind a started attempt.
use constructie_orchestrator.Base.{
  ℕ, ◌+◌, ◌≡◌, sym, ◌∙◌, ap, String, List, none, some, Bool, true, false, not, arith, ◌==◌,
  eq_sound, String_eq, ℕ_eq, Option_eq, ok, or_fail, check, ◌>>◌, >>=-eq-ok, check_then, check_ok,
  ok_inj,
}
use constructie_orchestrator.Base.Dict.{get, set}
use constructie_orchestrator.Domain.WorkItem.{
  WorkItem, assigned, Attempt, AttemptState_eq, assert_work_item_transition,
  is_active_attempt_state,
}
use constructie_orchestrator.Work.Store.{
  AttemptRow, WorkStore, not_found, revision_conflict, AttemptStart, domain_check, update_many,
  counted, max_number, numbered, is_none, has_number, create_attempt, has_active, assigned_item,
  start_attempt,
}
use constructie_orchestrator.Work.Commit.{
  or_fail_ok, >>-ok, guards_ok, read_back, updated_ok, none_of,
}

not-true : (b : Bool) → not b ≡ true → b ≡ false
not-true b h = ground arith

-- A committed start of an attempt.
pub record AttemptStarted (input : AttemptStart) (now : ℕ) (read s : WorkStore)
    (started : WorkItem × Attempt) (t : WorkStore) : Type 0 where
  pub before : WorkItem
  pub seen : WorkItem
  pub was_seen : get input.attempt.work_item_id read.items ≡ some seen
  pub seen_revision : seen.revision ≡ input.expected_revision
  pub legal : assert_work_item_transition seen.lifecycle_state assigned ≡ ok tt
  pub idle : has_active input.attempt.work_item_id read.attempts ≡ false
  pub was : get input.attempt.work_item_id s.items ≡ some before
  pub revision : before.revision ≡ input.expected_revision
  pub item : started.0 ≡ assigned_item input.attempt.id now before
  pub attempt :
      started.1 ≡ numbered input.attempt (max_number input.attempt.work_item_id s.attempts + 1)
  pub new_id : get input.attempt.id s.attempts ≡ none
  pub after : t ≡ record {
    items = set input.attempt.work_item_id started.0 s.items;
    attempts =
        set input.attempt.id
          (record { attempt = started.1; active = is_active_attempt_state input.attempt.state })
          s.attempts;
  }

create_attempt-ok :
    (a : Attempt) (rows : List (String × AttemptRow)) {out : List (String × AttemptRow)}
    → create_attempt a rows ≡ ok out
    → (get a.id rows ≡ none)
      × (out ≡ set a.id (record { attempt = a; active = is_active_attempt_state a.state }) rows)
unfolding create_attempt
create_attempt-ok a rows {out} h =
    let (free, h1) =
      >>-ok
        (check (is_none (get a.id rows)) _
          >> check (not (has_number a.work_item_id a.attempt_number rows)) _)
        _ h in
    let (p, q) = check_then (is_none (get a.id rows)) _ _ free in
    (none_of (get a.id rows) p, sym (ok_inj h1))

pub start_attempt-ok :
    (input : AttemptStart) (now : ℕ) (read s : WorkStore) {started : WorkItem × Attempt}
    {t : WorkStore}
    → start_attempt input now read s ≡ ok (started, t)
    → AttemptStarted input now read s started t
unfolding start_attempt numbered
start_attempt-ok input now read s {started} {t} h =
    let w = input.attempt.work_item_id in
    let (seen, g, h1) = >>=-eq-ok (or_fail (get w read.items) (not_found w)) _ h in
    let (free, h2) =
      >>-ok
        (check (seen.revision == input.expected_revision) _
          >> domain_check (assert_work_item_transition seen.lifecycle_state assigned)
          >> check (not (has_active w read.attempts)) _)
        _ h1 in
    let (r, l, p) =
      guards_ok (seen.revision == input.expected_revision) _
        (assert_work_item_transition seen.lifecycle_state assigned) _ free in
    let (items, u, h3) =
      >>=-eq-ok
        (counted (revision_conflict w input.expected_revision) (
          update_many w (λ i. i.revision == input.expected_revision)
            (assigned_item input.attempt.id now) s.items))
        _ h2 in
    let (before, was, rev, set_eq) = updated_ok _ w _ _ s.items u in
    let made = numbered input.attempt (max_number w s.attempts + 1) in
    let (attempts, c, h4) = >>=-eq-ok (create_attempt made s.attempts) _ h3 in
    let (fresh, rows_eq) = create_attempt-ok made s.attempts c in
    let (updated, f, h5) = >>=-eq-ok (or_fail (get w items) (not_found w)) _ h4 in
    let same = read_back w s.items set_eq (or_fail_ok (get w items) _ f) in
    let item_eq : updated ≡ started.0 =
      ap (λ (q : (WorkItem × Attempt) × WorkStore). q.0.0) (ok_inj h5) in
    let made_eq : made ≡ started.1 =
      ap (λ (q : (WorkItem × Attempt) × WorkStore). q.0.1) (ok_inj h5) in
    let store_eq : record { items = items; attempts = attempts } ≡ t =
      ap (λ (q : (WorkItem × Attempt) × WorkStore). q.1) (ok_inj h5) in
    record {
      before = before;
      seen = seen;
      was_seen = or_fail_ok (get w read.items) _ g;
      seen_revision = eq_sound seen.revision input.expected_revision r;
      legal = l;
      idle = not-true (has_active w read.attempts) (check_ok _ _ p);
      was = was;
      revision = eq_sound before.revision input.expected_revision rev;
      item = sym item_eq ∙ same;
      attempt = sym made_eq;
      new_id = fresh;
      after = cc;
    }
