-- ===== src/Run/Loop.antt =====
-- packages/workflow/src/run-coordinator.ts: the loop of `execute`. The fuel counts turns, and turn
-- number n has the answers `answers n`.
use constructie_orchestrator.Base.{
  ℕ, zero, suc, ◌+◌, ◌≡◌, ◌<◌, ◌≤◌, ◌⊎◌, String, [], ◌∷◌, Bool, true, false, if◌then◌else◌,
  includes, String_eq, ok,
}
use constructie_orchestrator.Workflow.Agents.{AgentRunResult, AgentRunStatus_eq}
use constructie_orchestrator.Run.Types.{
  RunState, RunState_eq, starting, running, repairing, closed, pass, ReviewVerdict, ReviewRequest,
}
use constructie_orchestrator.Run.Types
use constructie_orchestrator.Run.Cycle.{
  Coordinator, Answers, LoopState, Turn, goes_on, returns, throws, turn,
}

-- How `execute` ends; the last is a loop that the fuel cuts short.
pub data Ending : Type 0 where
  done : LoopState → Ending
  thrown : LoopState → String → Ending
  out_of_fuel : LoopState → Ending

-- The condition of the loop, negated.
unfoldable pub is_over : RunState → Bool
is_over state = includes state (closed ∷ Types.blocked ∷ [])

unfoldable pub after_turn : (LoopState → Ending) → Turn → Ending
after_turn next (goes_on s) = next s
after_turn next (returns s) = done s
after_turn next (throws s e) = thrown s e

module _ (c : Coordinator) (answers : ℕ → Answers) where
  -- `RunCoordinator.execute`, from turn number n.
  unfoldable pub execute : ℕ → ℕ → LoopState → Ending
  execute zero n s = if is_over s.state then done s else out_of_fuel s
  execute (suc fuel) n s =
      let next = after_turn (execute fuel (suc n)) (turn c (answers n) s) in
      if is_over s.state then done s else next

-- The states at the head of the loop in which a turn starts an attempt.
abbrev pub IsAtHead : LoopState → Type 0
IsAtHead s = (s.state ≡ starting) ⊎ (s.state ≡ repairing)

-- The reviewer gives a PASS in the turn.
abbrev pub Passes : Answers → Type 0
Passes a =
    (result : AgentRunResult) × (request : ReviewRequest) × (v : ReviewVerdict) × (a.review result
        request
      ≡ ok v)
    × (v.decision ≡ pass)

module _ (c : Coordinator) (a : Answers) where
  -- A turn from `r` repairs that goes on is over, passes, or uses one repair more.
  abbrev Fits : ℕ → Turn → Type 0
  Fits r (throws s e) = Unit
  Fits r (returns s) = Unit
  Fits r (goes_on s) =
      (is_over s.state ≡ true)
      ⊎ (((s.state ≡ starting) × (s.repair_attempts ≡ r) × Passes a)
          ⊎ ((s.state ≡ repairing) × (s.repair_attempts ≡ r + 1) × (r < c.max_repair_attempts)))

-- From some turn on, the reviewer gives no PASS.
abbrev pub StopsPassing : (ℕ → Answers) → ℕ → Type 0
StopsPassing answers bound = (n : ℕ) → bound ≤ n → ¬ Passes (answers n)

-- The fuel of the loop did not run out.
unfoldable pub has_ended : Ending → Bool
has_ended (done s) = true
has_ended (thrown s e) = true
has_ended (out_of_fuel s) = false
