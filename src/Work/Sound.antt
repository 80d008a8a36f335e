-- ===== src/Work/Sound.antt =====
-- packages/persistence/src/work/work-store.ts: at most one active attempt of a work item, whatever
-- transactions run at the same time.
use constructie_orchestrator.Base.{
  ◌≡◌, refl, sym, ◌∙◌, ap, ℕ, String, List, some, Bool, true, false, ok, ◌==◌, ◌&&◌, eq_self,
  String_eq, any-Elem,
}
use constructie_orchestrator.Base.Dict.{get, set, Found-set, Elem-of_get}
use constructie_orchestrator.Domain.WorkItem.{WorkItem, Attempt, is_active_attempt_state}
use constructie_orchestrator.Domain.Lifecycle.{assert_attempt_transition-active}
use constructie_orchestrator.Work.Store.{
  WorkStore, AttemptRow, ItemTransition, AttemptStart, RunBinding, AttemptTransition, numbered,
  bind_agent_run, has_active, moved_item, assigned_item, bound_row, moved_row,
}
use constructie_orchestrator.Work.Commit.Start.{AttemptStarted}
use constructie_orchestrator.Work.Commit.Moves.{AttemptMoved, bind_agent_run-ok}
use constructie_orchestrator.Work.Commit.{ItemMoved}
use constructie_orchestrator.Work.Active.{IsMarked, IsIdleFor, IsSound, OneActive-set}
use constructie_orchestrator.Work.History.{IsIdle, Keeps}
use constructie_orchestrator.Work.Keep.{Keeps-still, Keeps-raise, Keeps-release}

pub no_both : {b : Bool} → b ≡ true → b ≡ false → ⊥
no_both p q = cc

has_active-IsIdle :
    (w : String) (rows : List (String × AttemptRow)) → has_active w rows ≡ false → IsIdle w rows
unfolding has_active
has_active-IsIdle w rows h k row g e =
    let test : (row.attempt.work_item_id == w && row.active) ≡ false =
      any-Elem (λ (e : String × AttemptRow). e.1.attempt.work_item_id == w && e.1.active) rows
        {a = (k, row)} h (Elem-of_get k row rows g) in
    rw (e, eq_self w) at test

-- What a step needs: a sound store after it, and every work item kept.
abbrev pub Advance : WorkStore → WorkStore → Type 0
Advance s t = IsSound t × ((w : String) → Keeps w s t)

-- The attempts stay as they are.
pub IsSound-attempts : (s t : WorkStore) → t.attempts ≡ s.attempts → IsSound s → IsSound t
IsSound-attempts s t e h = record { marked = rw e (h.marked); one = rw e (h.one) }

-- One row changes, keeping its work item, and was active if it is now.
IsSound-change :
    (k : String) (old new : AttemptRow) (s t : WorkStore)
    → get k s.attempts ≡ some old
    → t.attempts ≡ set k new s.attempts
    → new.attempt.work_item_id ≡ old.attempt.work_item_id
    → (new.active ≡ true → old.active ≡ true)
    → IsMarked new
    → IsSound s
    → IsSound t
IsSound-change k old new s t was rows item active mark h = record {
  marked = rw rows (Found-set IsMarked k new s.attempts mark h.marked);
  one = rw rows (
      OneActive-set k new s.attempts
        (λ a j b g ab it. h.one j k b old g was ab (active a) (it ∙ item)) h.one);
}

-- The same change makes no idle work item busy.
IsIdle-change :
    (w k : String) (old new : AttemptRow) (s t : WorkStore)
    → get k s.attempts ≡ some old
    → t.attempts ≡ set k new s.attempts
    → new.attempt.work_item_id ≡ old.attempt.work_item_id
    → (old.active ≡ false → new.active ≡ false)
    → IsIdle w s.attempts
    → IsIdle w t.attempts
IsIdle-change w k old new s t was rows item idle d =
    rw rows (Found-set (IsIdleFor w) k new s.attempts (λ e. idle (d k old was (sym item ∙ e))) d)

pub started_step :
    (input : AttemptStart) (now : ℕ) (read s t : WorkStore) (started : WorkItem × Attempt)
    → AttemptStarted input now read s started t
    → Keeps input.attempt.work_item_id read s
    → IsSound s
    → Advance s t
unfolding numbered assigned_item
started_step input now read s t started c keep h =
    let k = input.attempt.work_item_id in
    let id = input.attempt.id in
    let row : AttemptRow = record {
      attempt = started.1;
      active = is_active_attempt_state input.attempt.state;
    } in
    let rows : t.attempts ≡ set id row s.attempts = rw (c.after) refl in
    let item_of : started.1.work_item_id ≡ k = rw (c.attempt) refl in
    let state_of : started.1.state ≡ input.attempt.state = rw (c.attempt) refl in
    let (j, kept) = keep c.seen c.was_seen in
    let q : some j ≡ some c.before = sym kept.kept ∙ c.was in
    let q1 : j ≡ c.before = cc in
    let rev : j.revision ≡ c.seen.revision =
      ap (λ (i : WorkItem). i.revision) q1 ∙ c.revision ∙ sym c.seen_revision in
    let idle = kept.still_idle rev (has_active-IsIdle k read.attempts c.idle) in
    (
      record {
        marked = rw rows (
            Found-set IsMarked id row s.attempts (ap is_active_attempt_state (sym state_of))
              h.marked);
        one = rw rows (
            OneActive-set id row s.attempts
              (λ _ x b g ab it. absurd (no_both ab (idle x b g (it ∙ item_of)))) h.one);
      },
      λ w.
          Keeps-raise w k s t c.before started.0 c.was (rw (c.item) refl) (rw (c.after) refl)
            (λ other d. rw rows (
              Found-set (IsIdleFor w) id row s.attempts
                (λ e. absurd (no_both (rw (sym item_of ∙ e, eq_self w) refl) other)) d)),
    )

pub moved_step :
    (input : AttemptTransition) (now : ℕ) (read s t : WorkStore) (moved : Attempt)
    → AttemptMoved input now read s moved t
    → IsSound s
    → Advance s t
unfolding moved_row
moved_step input now read s t moved c h =
    let k = input.attempt_id in
    let new = moved_row input.to c.seen.attempt.started_at now c.before in
    let was_active : c.before.active ≡ true =
      h.marked k c.before c.was
      ∙ ap is_active_attempt_state c.state
      ∙ assert_attempt_transition-active c.seen.attempt.state input.to c.legal in
    (
      IsSound-change k c.before new s t c.was c.attempts refl (λ _. was_active) refl h,
      λ w. Keeps-release w s t input.to c.seen.attempt now c.items (
          IsIdle-change w k c.before new s t c.was c.attempts refl
            (λ e. absurd (no_both was_active e))),
    )

pub bound_step :
    (input : RunBinding) (now : ℕ) (s t : WorkStore) (bound : Attempt)
    → bind_agent_run input now s ≡ ok (bound, t)
    → IsSound s
    → Advance s t
unfolding bound_row
bound_step input now s t bound e h =
    let k = input.attempt_id in
    let (row, was, after) = bind_agent_run-ok input now s e in
    let new = bound_row input now row in
    let rows : t.attempts ≡ set k new s.attempts = rw after refl in
    (
      IsSound-change k row new s t was rows refl (λ a. a) (h.marked k row was) h,
      λ w. Keeps-still w s t (rw after refl) (IsIdle-change w k row new s t was rows refl (λ a. a)),
    )

pub item_step :
    (input : ItemTransition) (now : ℕ) (read s t : WorkStore) (item : WorkItem)
    → ItemMoved input now read s item t
    → IsSound s
    → Advance s t
unfolding moved_item
item_step input now read s t item c h = (
  IsSound-attempts s t (rw (c.after) refl) h,
  λ w.
      Keeps-raise w input.work_item_id s t c.before item c.was (rw (c.result) refl)
        (rw (c.after) refl) (λ _ d. rw (c.after) d),
)
