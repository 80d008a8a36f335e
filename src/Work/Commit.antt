-- ===== src/Work/Commit.antt =====
-- packages/persistence/src/work/work-store.ts: what stands behind a transaction that commits.
pub mod Start
pub mod Moves
use constructie_orchestrator.Base.{
  ℕ, ◌+◌, ◌≡◌, refl, sym, ◌∙◌, ap, inl, inr, String, List, Option, none, some, Bool, true, false,
  not, ◌==◌, ◌&&◌, eq_sound, eq_self, String_eq, ℕ_eq, Option_eq, Bool-cases, Result, err, ok,
  or_fail, check, ◌>>=◌, ◌>>◌, >>=-eq-ok, check_then, check_ok, ok_inj, if◌then◌else◌, any,
}
use constructie_orchestrator.Base.Dict.{get, set, get-set_self}
use constructie_orchestrator.Domain.WorkItem.{
  WorkItem, WorkItemLifecycleState, assigned, Attempt, AttemptState, AttemptState_eq, DomainError,
  assert_work_item_transition, assert_attempt_transition, is_active_attempt_state,
}
use constructie_orchestrator.Work.Store.{
  AttemptRow, WorkStore, WorkStoreError, not_found, revision_conflict, attempt_state_conflict,
  ItemTransition, AttemptStart, RunBinding, AttemptTransition, domain_check, update_found,
  update_many, counted, create_work_item, moved_item, transition_work_item, max_number, numbered,
  is_none, has_number, create_attempt, has_active, assigned_item, start_attempt, bound_row,
  bind_agent_run, moved_row, released_item, transition_attempt,
}

pub or_fail_ok : {E A : Type 0} (o : Option A) (e : E) {a : A} → or_fail o e ≡ ok a → o ≡ some a
or_fail_ok none e h = cc
or_fail_ok (some b) e h = ap some (ok_inj h)

pub none_of : {A : Type 0} (o : Option A) → is_none o ≡ true → o ≡ none
unfolding is_none
none_of none h = refl
none_of (some a) h = cc

pub domain_ok : (r : Result DomainError (Unit {0})) → domain_check r ≡ ok tt → r ≡ ok tt
unfolding domain_check
domain_ok (err e) h = cc
domain_ok (ok tt) h = refl

-- Both steps of a chain that succeeds.
pub >>-ok :
    {E B : Type 0} (m : Result E (Unit {0})) (k : Result E B) {b : B}
    → (m >> k) ≡ ok b
    → (m ≡ ok tt) × (k ≡ ok b)
>>-ok (err e) k h = cc
>>-ok (ok tt) k h = (refl, h)

-- A revision test and a domain test, in a chain that succeeds.
pub guards_ok :
    {B : Type 0} (b : Bool) (e : WorkStoreError) (r : Result DomainError (Unit {0}))
    (k : Result WorkStoreError B) {c : B}
    → (check b e >> domain_check r >> k) ≡ ok c
    → (b ≡ true) × (r ≡ ok tt) × (k ≡ ok c)
guards_ok b e r k h =
    let (p, q) = >>-ok (check b e >> domain_check r) k h in
    let (x, y) = check_then b e (domain_check r) p in (x, domain_ok r y, q)

pub updated_ok :
    {V : Type 0} (e : WorkStoreError) (k : String) (p : V → Bool) (f : V → V)
    (m : List (String × V)) {n : List (String × V)}
    → counted e (update_many k p f m) ≡ ok n
    → (v : V) × (get k m ≡ some v) × (p v ≡ true) × (n ≡ set k (f v) m)
unfolding update_many counted update_found
updated_ok {V} e k p f m {n} h = of_found (get k m) refl h
  where
    of_value :
        (v : V) (b : Bool)
        → p v ≡ b
        → get k m ≡ some v
        → counted e (if b then (1, set k (f v) m) else (0, m)) ≡ ok n
        → (w : V) × (get k m ≡ some w) × (p w ≡ true) × (n ≡ set k (f w) m)
    of_value v true q g h = (v, g, q, sym (ok_inj h))
    of_value v false q g h = cc

    of_found :
        (o : Option V)
        → get k m ≡ o
        → counted e (update_found k p f m o) ≡ ok n
        → (w : V) × (get k m ≡ some w) × (p w ≡ true) × (n ≡ set k (f w) m)
    of_found none g h = cc
    of_found (some v) g h = of_value v (p v) refl g h

pub read_back :
    {V : Type 0} (k : String) (m : List (String × V)) {n : List (String × V)} {u v : V}
    → n ≡ set k v m
    → get k n ≡ some u
    → u ≡ v
read_back {V} k m {n} {u} {v} e f =
    let whole : some u ≡ some v = sym f ∙ ap (get k) e ∙ get-set_self k v m in cc

-- A committed transition of a work item.
pub record ItemMoved (input : ItemTransition) (now : ℕ) (read s : WorkStore) (item : WorkItem)
    (t : WorkStore) : Type 0 where
  pub before : WorkItem
  pub seen : WorkItem
  pub was_seen : get input.work_item_id read.items ≡ some seen
  pub seen_revision : seen.revision ≡ input.expected_revision
  pub legal : assert_work_item_transition seen.lifecycle_state input.to ≡ ok tt
  pub was : get input.work_item_id s.items ≡ some before
  pub revision : before.revision ≡ input.expected_revision
  pub result : item ≡ moved_item input.to now before
  pub after : t ≡ record s { items = set input.work_item_id item s.items }

pub transition_work_item-ok :
    (input : ItemTransition) (now : ℕ) (read s : WorkStore) {item : WorkItem} {t : WorkStore}
    → transition_work_item input now read s ≡ ok (item, t)
    → ItemMoved input now read s item t
unfolding transition_work_item
transition_work_item-ok input now read s {item} {t} h =
    let k = input.work_item_id in
    let (seen, g, h1) = >>=-eq-ok (or_fail (get k read.items) (not_found k)) _ h in
    let (r, l, h3) =
      guards_ok (seen.revision == input.expected_revision) _
        (assert_work_item_transition seen.lifecycle_state input.to) _ h1 in
    let (items, u, h4) =
      >>=-eq-ok
        (counted (revision_conflict k input.expected_revision) (
          update_many k (λ i. i.revision == input.expected_revision) (moved_item input.to now)
            s.items))
        _ h3 in
    let (before, was, rev, set_eq) = updated_ok _ k _ _ s.items u in
    let (updated, f, h5) = >>=-eq-ok (or_fail (get k items) (not_found k)) _ h4 in
    let same = read_back k s.items set_eq (or_fail_ok (get k items) _ f) in
    let item_eq : updated ≡ item = ap (λ (q : WorkItem × WorkStore). q.0) (ok_inj h5) in
    let store_eq : record s { items = items } ≡ t =
      ap (λ (q : WorkItem × WorkStore). q.1) (ok_inj h5) in
    record {
      before = before;
      seen = seen;
      was_seen = or_fail_ok (get k read.items) _ g;
      seen_revision = eq_sound seen.revision input.expected_revision r;
      legal = l;
      was = was;
      revision = eq_sound before.revision input.expected_revision rev;
      result = sym item_eq ∙ same;
      after = cc;
    }
