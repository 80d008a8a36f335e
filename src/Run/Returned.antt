-- ===== src/Run/Returned.antt =====
-- packages/workflow/src/run-coordinator.ts: what a run that returns has left in the ledger.
use constructie_orchestrator.Base.{
  ℕ, zero, suc, ◌≡◌, refl, subst, inl, inr, Bool, true, false, if◌then◌else◌,
}
use constructie_orchestrator.Run.Types.{RunState-discrete}
use constructie_orchestrator.Run.Cycle.{
  Coordinator, Answers, LoopState, Turn, goes_on, returns, throws, turn,
}
use constructie_orchestrator.Run.Loop.{done, out_of_fuel, is_over, after_turn, execute, IsAtHead}
use constructie_orchestrator.Run.Mirror.{CountsRepairs, IsMirrored, Reflects, turn-Reflects}

if_true : {A : Type 0} (b : Bool) (x y : A) {z : A} → b ≡ true → (if b then x else y) ≡ z → x ≡ z
if_true true x y e h = h
if_true false x y e h = cc

if_false : {A : Type 0} (b : Bool) (x y : A) {z : A} → b ≡ false → (if b then x else y) ≡ z → y ≡ z
if_false true x y e h = cc
if_false false x y e h = h

head_not_over : (s : LoopState) → IsAtHead s → is_over s.state ≡ false
unfolding is_over RunState-discrete
head_not_over s (inl e) = rw e refl
head_not_over s (inr e) = rw e refl

module _ (c : Coordinator) (answers : ℕ → Answers) where
  mirrors :
      (fuel n : ℕ) (s t : LoopState)
      → Reflects c (goes_on s)
      → execute c answers fuel n s ≡ done t
      → IsMirrored c t
  unfolding execute after_turn
  mirrors zero n s t (inl (over, m)) h =
      let e : done s ≡ done t = if_true (is_over s.state) _ _ over h in
      let q : s ≡ t = cc in subst (IsMirrored c) q m
  mirrors zero n s t (inr (head, counts)) h =
      let e : out_of_fuel s ≡ done t = if_false (is_over s.state) _ _ (head_not_over s head) h in cc
  mirrors (suc fuel) n s t (inl (over, m)) h =
      let e : done s ≡ done t = if_true (is_over s.state) _ _ over h in
      let q : s ≡ t = cc in subst (IsMirrored c) q m
  mirrors (suc fuel) n s t (inr (head, counts)) h =
      of_turn (λ u. mirrors fuel (suc n) u t) (turn c (answers n) s)
        (turn-Reflects c (answers n) s head counts)
        (if_false (is_over s.state) _ _ (head_not_over s head) h)
    where
      of_turn :
          ((u : LoopState)
            → Reflects c (goes_on u)
            → execute c answers fuel (suc n) u ≡ done t
            → IsMirrored c t)
          → (u : Turn) → Reflects c u
          → after_turn (execute c answers fuel (suc n)) u ≡ done t
          → IsMirrored c t
      of_turn again (throws u x) r e = cc
      of_turn again (returns u) r e = let q : u ≡ t = cc in subst (IsMirrored c) q r
      of_turn again (goes_on u) r e = again u r e

-- When a run returns, the replay of the ledger gives the state that it stopped in: its work package,
-- its attempt, its state and what waits for the owner, and at most the repairs that it made.
pub execute-mirrors :
    (c : Coordinator) (answers : ℕ → Answers) (fuel n : ℕ) (s t : LoopState)
    → IsAtHead s
    → CountsRepairs c s
    → execute c answers fuel n s ≡ done t
    → IsMirrored c t
execute-mirrors c answers fuel n s t head counts h =
    mirrors c answers fuel n s t (inr (head, counts)) h
