-- ===== src/Run/Wait.antt =====
-- packages/workflow/src/run-coordinator.ts: the loop that waits for a run to end. The clock and the
-- answers are functions of the number of the poll. The fuel counts polls, and `Waits` is the loop
-- without it.
use constructie_orchestrator.Base.{
  ℕ, zero, suc, ◌+◌, ◌-◌, ◌≡◌, ◌<◌, ◌≤◌, refl, arith, String, Bool, true, false, ◌&&◌, ltb,
  if◌then◌else◌, Result, err, ok, Bool-cases, inl, inr,
}
use constructie_orchestrator.Workflow.Agents.{AgentRunStatus}
use constructie_orchestrator.Run.Types.{is_non_terminal}

-- `times 0` is the start time, `times (i + 1)` the time that the condition reads before the pause
-- number i, and `get_status (i + 1)` the answer of the call of `getStatus` after that pause.
pub record Polls : Type 0 where
  pub times : ℕ → ℕ
  pub get_status : ℕ → Result String AgentRunStatus

and_late : (b : Bool) (x y : ℕ) → y ≤ x → (b && ltb x y) ≡ false
and_late true x y h = ground (arith, h)
and_late false x y h = refl

module _ (polls : Polls) (timeout_ms : ℕ) where
  -- The condition of the loop.
  unfoldable pub keeps_waiting : ℕ → AgentRunStatus → Bool
  keeps_waiting i status =
      is_non_terminal status && ltb (polls.times (suc i) - polls.times 0) timeout_ms

  unfoldable pub poll : ℕ → ℕ → Result String AgentRunStatus → Result String AgentRunStatus
  poll zero i answer = answer
  poll (suc fuel) i (err e) = err e
  poll (suc fuel) i (ok status) =
      let next = poll fuel (suc i) (polls.get_status (suc i)) in
      if keeps_waiting i status then next else ok status

  -- After `dispatch`: the first status, and the wait.
  unfoldable pub wait_for : ℕ → Result String AgentRunStatus
  wait_for fuel = poll fuel 0 (polls.get_status 0)

  -- The loop itself, without fuel: from the answer of poll i, what it ends with after n more polls.
  pub data Waits
      : ℕ → Result String AgentRunStatus → ℕ → Result String AgentRunStatus → Type 0 where
    threw : (i : ℕ) (e : String) → Waits i (err e) 0 (err e)
    ended :
        (i : ℕ) (status : AgentRunStatus)
        → keeps_waiting i status ≡ false
        → Waits i (ok status) 0 (ok status)
    waited :
        (i n : ℕ) (status : AgentRunStatus) (end : Result String AgentRunStatus)
        → keeps_waiting i status ≡ true
        → Waits (suc i) (polls.get_status (suc i)) n end
        → Waits i (ok status) (suc n) end

  -- The clock is not set back before the first test, and shows a pause as a millisecond at least.
  pub record Advances : Type 0 where
    pub begins : polls.times 0 ≤ polls.times 1
    pub pauses : (i : ℕ) → polls.times (suc i) < polls.times (suc (suc i))

  advanced : Advances → (i : ℕ) → polls.times 0 + i ≤ polls.times (suc i)
  advanced a zero = let first = a.begins in omega arith
  advanced a (suc i) = let before = advanced a i in let step = a.pauses i in omega arith

  too_late :
      Advances → (i : ℕ) (status : AgentRunStatus) → timeout_ms ≤ i → keeps_waiting i status ≡ false
  unfolding keeps_waiting
  too_late a i status h =
      let now = advanced a i in
      let late : timeout_ms ≤ polls.times (suc i) - polls.times 0 = omega arith in
      and_late (is_non_terminal status) _ timeout_ms late

  Ends : ℕ → ℕ → Result String AgentRunStatus → Result String AgentRunStatus → Type 0
  Ends most i answer end = (n : ℕ) × (n ≤ most) × Waits i answer n end

  poll-Waits :
      Advances
      → (fuel i : ℕ) (answer : Result String AgentRunStatus) → timeout_ms ≤ fuel + i
      → Ends fuel i answer (poll (suc fuel) i answer)
  unfolding poll Ends
  poll-Waits a fuel i (err e) h = (0, omega arith, threw i e)
  poll-Waits a zero i (ok status) h =
      let done = too_late a i status (omega (arith, h)) in
      rw done (0, omega arith, ended i status done)
  poll-Waits a (suc fuel) i (ok status) h =
      let (n, few, rest) =
        poll-Waits a fuel (suc i) (polls.get_status (suc i)) (omega (arith, h)) in
      elim (Bool-cases (keeps_waiting i status)) [
        | inl e ↦ rw e (suc n, omega arith, waited i n status _ e rest)
        | inr e ↦ rw e (0, omega arith, ended i status e)
      ]

  -- When the clock is not set back and shows each pause as a millisecond at least, the wait ends after
  -- at most as many more polls as the timeout has milliseconds, and what it ends with is the answer
  -- at which the loop of the source, which has no fuel, stops.
  pub wait_for-Waits :
      Advances
      → (n : ℕ) × (n ≤ timeout_ms) × Waits 0 (polls.get_status 0) n (wait_for (suc timeout_ms))
  unfolding wait_for Ends
  wait_for-Waits a = poll-Waits a timeout_ms 0 (polls.get_status 0) (omega arith)
