-- ===== src/Run/Replay.antt =====
-- packages/workflow/src/run-coordinator.ts: what a resumed run reads from the events of the ledger.
-- Both resumptions replay the events in the same way; the one from reconciliation has no use for
-- what waits for the owner.
use constructie_orchestrator.Base.{
  ℕ, ◌≡◌, refl, ◌∙◌, ap, String, List, [], ◌∷◌, ◌++◌, Option, none, some, filter, ◌==◌, String_eq,
  eq_self, Bool-cases, inl, inr,
}
use constructie_orchestrator.Workflow.Agents.{WorkPackage}
use constructie_orchestrator.Run.Types.{
  RunState, starting, running, evaluating, repairing, waiting_for_owner, reconciling, closed,
  Pending, RunEvent, run_started, run_repair_started, run_dispatched, run_completed, run_blocked,
  evaluation_failed_repairable, evaluation_needs_evidence, evaluation_ambiguous_side_effect,
  evaluation_owner_decision_required, evaluation_passed, run_closed, run_resumed,
  reconciliation_outcome, ProjectEvent,
}
use constructie_orchestrator.Run.Types
use constructie_orchestrator.Run.Cycle.{Coordinator, LoopState, emit}

-- The variables that a replay sets; the last attempt is none as long as no event names one.
pub record Replayed : Type 0 where
  pub last_wp : Option WorkPackage
  pub last_attempt_id : Option String
  pub current_state : RunState
  pub pending : Pending
  pub repair_attempts : ℕ

-- The events of one run: `InMemoryEventLedger.getEvents`.
unfoldable pub get_events : String → List ProjectEvent → List ProjectEvent
get_events run ledger = filter (λ e. e.aggregate_id == run) ledger

unfoldable pub no_pending : Pending
no_pending = record { action = none; gate = none; authority_type = none }

unfoldable pub not_started : Replayed
not_started = record {
  last_wp = none;
  last_attempt_id = none;
  current_state = starting;
  pending = no_pending;
  repair_attempts = 0;
}

unfoldable pub replay_event : Replayed → RunEvent → Replayed
replay_event r (run_started attempt wp pending task) = record r {
  last_wp = some wp;
  last_attempt_id = some attempt;
  current_state = running;
  pending = pending;
}
replay_event r (run_repair_started attempt wp pending task) = record r {
  last_wp = some wp;
  last_attempt_id = some attempt;
  current_state = running;
  pending = pending;
}
replay_event r (run_dispatched attempt run_id) = record r { current_state = running }
replay_event r (run_completed attempt result) = record r { current_state = evaluating }
replay_event r (evaluation_failed_repairable attempt repairs package_of) = record r {
  current_state = repairing;
  repair_attempts = repairs;
}
replay_event r (evaluation_needs_evidence attempt repairs) = r
replay_event r (evaluation_ambiguous_side_effect attempt) = record r { current_state = reconciling }
replay_event r (evaluation_owner_decision_required attempt pending) = record r {
  current_state = waiting_for_owner;
  pending = pending;
}
replay_event r (evaluation_passed attempt next) = r
replay_event r (run_closed attempt) = record r { current_state = closed }
replay_event r (run_blocked attempt reason) = record r { current_state = Types.blocked }
replay_event r (run_resumed attempt authority) = r
replay_event r (reconciliation_outcome attempt safe by reason) = r

unfoldable pub replay : Replayed → List ProjectEvent → Replayed
replay r [] = r
replay r (e ∷ events) = replay (replay_event r e.payload) events

-- What a resumption of the run would read.
unfoldable pub view : Coordinator → List ProjectEvent → Replayed
view c ledger = replay not_started (get_events c.workflow_run_id ledger)

replay-snoc :
    (r : Replayed) (events : List ProjectEvent) (e : ProjectEvent)
    → replay r (events ++ (e ∷ [])) ≡ replay_event (replay r events) e.payload
unfolding replay
replay-snoc r [] e = refl
replay-snoc r (x ∷ events) e = replay-snoc (replay_event r x.payload) events e

get_events-snoc :
    (run : String) (ledger : List ProjectEvent) (e : ProjectEvent)
    → e.aggregate_id ≡ run
    → get_events run (ledger ++ (e ∷ [])) ≡ get_events run ledger ++ (e ∷ [])
unfolding get_events
get_events-snoc run [] e h = rw (h, eq_self run)
get_events-snoc run (x ∷ ledger) e h = elim (Bool-cases (x.aggregate_id == run)) [
  | inl q ↦ rw (q, get_events-snoc run ledger e h)
  | inr q ↦ rw (q, get_events-snoc run ledger e h)
]

-- What is emitted is what the next replay reads last.
pub view-emit :
    (c : Coordinator) (e : RunEvent) (s : LoopState)
    → view c (emit c e s).ledger ≡ replay_event (view c s.ledger) e
unfolding view emit
view-emit c e s =
    ap (replay not_started) (get_events-snoc c.workflow_run_id s.ledger _ refl)
    ∙ replay-snoc not_started (get_events c.workflow_run_id s.ledger) _
