-- ===== src/Work/Histories.antt =====
-- packages/persistence/src/work/work-store.ts: what every history of concurrent transactions keeps.
use constructie_orchestrator.Base.{
  ◌≡◌, refl, sym, ◌∙◌, ap, ℕ, ◌+◌, ◌≤◌, arith, String, some, ok, err, Result,
}
use constructie_orchestrator.Base.Dict.{get, get-set_self}
use constructie_orchestrator.Domain.WorkItem.{WorkItem, assert_work_item_transition}
use constructie_orchestrator.Work.Store.{
  WorkStore, WorkStoreError, ItemTransition, transition_work_item, moved_item,
}
use constructie_orchestrator.Work.Commit.Start.{start_attempt-ok}
use constructie_orchestrator.Work.Commit.Moves.{transition_attempt-ok, create_work_item-ok}
use constructie_orchestrator.Work.Commit.{transition_work_item-ok}
use constructie_orchestrator.Work.Active.{IsSound}
use constructie_orchestrator.Work.History.{
  Later, same, item_created, item_moved, attempt_started, run_bound, attempt_moved,
}
use constructie_orchestrator.Work.Keep.{Keeps-trans, Keeps-create}
use constructie_orchestrator.Work.Sound.{
  Advance, IsSound-attempts, started_step, moved_step, bound_step, item_step,
}

then_step : (r s t : WorkStore) → Advance r s → (IsSound s → Advance s t) → Advance r t
then_step r s t (h, keep) step =
    let (g, kept) = step h in (g, λ w. Keeps-trans w r s t (keep w) (kept w))

Later-Advance : {r t : WorkStore} → Later r t → IsSound r → Advance r t
Later-Advance {r} same h = (
  h,
  λ w i g.
      (i, record { kept = g; grown = omega arith; same_state = λ _. refl; still_idle = λ _ d. d }),
)
Later-Advance {r} {t} (item_created {s} item l e) h =
    let (new, after) = create_work_item-ok item s e in
    then_step r s t (Later-Advance l h) (λ g.
      (IsSound-attempts s t (rw after refl) g, λ w. Keeps-create w item.id s t item new after))
Later-Advance {r} {t} (item_moved {read} {s} input now {item} l m e) h =
    let first = Later-Advance l h in
    let second = then_step r read s first (Later-Advance m) in
    then_step r s t second
      (item_step input now read s t item (transition_work_item-ok input now read s e))
Later-Advance {r} {t} (attempt_started {read} {s} input now {started} l m e) h =
    let first = Later-Advance l h in
    let (g, keep) = Later-Advance m first.0 in
    let c = start_attempt-ok input now read s e in
    then_step r s t (then_step r read s first (λ _. (g, keep)))
      (started_step input now read s t started c (keep input.attempt.work_item_id))
Later-Advance {r} {t} (run_bound {s} input now {bound} l e) h =
    then_step r s t (Later-Advance l h) (bound_step input now s t bound e)
Later-Advance {r} {t} (attempt_moved {read} {s} input now {moved} l m e) h =
    let first = Later-Advance l h in
    let second = then_step r read s first (Later-Advance m) in
    then_step r s t second
      (moved_step input now read s t moved (transition_attempt-ok input now read s e))

-- From a store in which each row of the attempts has the `active` mark of its state and no work
-- item has two active attempts, every history of committed transactions leads to such a store,
-- even when the transactions read stores that others have changed since.
pub Later-IsSound : {r t : WorkStore} → Later r t → IsSound r → IsSound t
Later-IsSound l h = (Later-Advance l h).0

-- From such a store, every history of committed transactions keeps each work item, does not lower
-- its revision, and leaves its state alone when the revision is the same.
pub Later-revision :
    {r t : WorkStore}
    → Later r t
    → IsSound r
    → (w : String) (i : WorkItem) → get w r.items ≡ some i
    → (j : WorkItem) × (get w t.items ≡ some j)
      × (i.revision ≤ j.revision)
      × (j.revision ≡ i.revision → j.lifecycle_state ≡ i.lifecycle_state)
Later-revision l h w i g =
    let (j, k) = (Later-Advance l h).1 w i g in (j, k.kept, k.grown, k.same_state)

-- A transition of a work item that reads a sound store and commits to a later one moves the item
-- from the state that it overwrites, by a legal transition, to the requested one, and its revision
-- from the expected one to the next.
pub transition_work_item-legal :
    (input : ItemTransition) (now : ℕ) (read s t : WorkStore) (item : WorkItem)
    → IsSound read
    → Later read s
    → transition_work_item input now read s ≡ ok (item, t)
    → (before : WorkItem) × (get input.work_item_id s.items ≡ some before)
      × (assert_work_item_transition before.lifecycle_state input.to ≡ ok tt)
      × (before.revision ≡ input.expected_revision)
      × (item.lifecycle_state ≡ input.to)
      × (item.revision ≡ before.revision + 1)
unfolding moved_item
transition_work_item-legal input now read s t item h l e =
    let c = transition_work_item-ok input now read s e in
    let (j, g, _, stay) = Later-revision l h input.work_item_id c.seen c.was_seen in
    let q : some j ≡ some c.before = sym g ∙ c.was in
    let one : j ≡ c.before = cc in
    let rev : j.revision ≡ c.seen.revision =
      ap (λ (i : WorkItem). i.revision) one ∙ c.revision ∙ sym c.seen_revision in
    let state = sym (stay rev) ∙ ap (λ (i : WorkItem). i.lifecycle_state) one in
    (c.before, c.was, rw (← state) (c.legal), c.revision, rw (c.result) refl, rw (c.result) refl)

err_of_not_ok : {E A : Type 0} (m : Result E A) → ((a : A) → m ≡ ok a → ⊥) → (e : E) × (m ≡ err e)
err_of_not_ok (err e) never = (e, refl)
err_of_not_ok (ok a) never = absurd (never a refl)

-- When a transition of a work item has committed to a sound store, any other transition of the item
-- that expects the same revision is an error in every later store, whatever store it has read.
pub transition_work_item-once :
    (first second : ItemTransition) (now then : ℕ) (read s t other u : WorkStore) (item : WorkItem)
    → IsSound s
    → transition_work_item first now read s ≡ ok (item, t)
    → Later t u
    → second.work_item_id ≡ first.work_item_id
    → second.expected_revision ≡ first.expected_revision
    → (e : WorkStoreError) × (transition_work_item second then other u ≡ err e)
unfolding moved_item
transition_work_item-once first second now then read s t other u item h e l same_item
      same_revision =
    err_of_not_ok (transition_work_item second then other u) (λ r again.
      let k = first.work_item_id in
      let c = transition_work_item-ok first now read s e in
      let d = transition_work_item-ok second then other u {item = r.0} {t = r.1} again in
      let there : get k t.items ≡ some item = rw (c.after) (get-set_self k item s.items) in
      let (j, g, grown, _) =
        Later-revision l (item_step first now read s t item c h).0 k item there in
      let q : some j ≡ some d.before = sym g ∙ (rw same_item at (d.was)) in
      let one : j ≡ d.before = cc in
      let up : item.revision ≡ c.before.revision + 1 = rw (c.result) refl in
      let rev : j.revision ≡ d.before.revision = ap (λ (i : WorkItem). i.revision) one in
      let old = c.revision in let new = d.revision in omega arith)
