-- ===== src/Workflow/Database.antt =====
-- packages/persistence/src/work/work-store.ts as the store of packages/workflow: each call is one
-- transaction, at the time that the clock shows at its reading of that number.
use constructie_orchestrator.Base.{ℕ, ◌+◌, Result, err, ok}
use constructie_orchestrator.Work.Store.{
  WorkStore, WorkStoreError, start_attempt, transition_attempt, bind_agent_run,
  transition_work_item,
}
use constructie_orchestrator.Workflow.Engine.{WorkflowWorkStore}

pub record Database : Type 0 where
  pub store : WorkStore
  pub readings : ℕ

-- A transaction that throws leaves the store alone.
unfoldable pub commit :
    {A : Type 0}
    → Database
    → Result WorkStoreError (A × WorkStore)
    → Database × Result WorkStoreError A
commit db (err e) = (record db { readings = db.readings + 1 }, err e)
commit db (ok (a, s)) = (record { store = s; readings = db.readings + 1 }, ok a)

unfoldable pub database : (ℕ → ℕ) → WorkflowWorkStore Database
database clock = record {
  start_attempt = λ input db. commit db (start_attempt input (clock db.readings) db.store db.store);
  transition_attempt =
      λ input db. commit db (transition_attempt input (clock db.readings) db.store db.store);
  bind_agent_run = λ input db. commit db (bind_agent_run input (clock db.readings) db.store);
  transition_work_item =
      λ input db. commit db (transition_work_item input (clock db.readings) db.store db.store);
}
