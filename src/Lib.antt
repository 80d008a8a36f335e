-- ===== src/Lib.antt =====
-- Constructie Orchestrator: a control plane that lets agents act on a project only under gates and
-- grants of the owner, and that accepts a delivered work item only on current evidence.
--
-- The parts and the files that model them (paths are from the repository's root).
--
-- - Policy: packages/policy. `Policy.Types` has the enumerations and records of types.ts;
--   `Policy.Matrix` is GATE_POLICY and `Policy.Engine` is `ActionClassifyingPolicyEngine.evaluate`
--   of engine/action-classifying-policy-engine.ts: each stage returns the decision of an early
--   `return` as an error, and `evaluate` chains them. The guards and the classifier are the record
--   `Inspection`, which `Policy.Classifier` fills from classification/action-classifier.ts: the
--   source's set of classes is a list in the order of insertion, and a regular expression a list of
--   atoms that is tried on the text in lower case (`Classifier.Occurs` says what it means).
--   `Policy.Events` has the owner's events, the issuer and GATE_TRANSITION_POLICY, and
--   `Policy.Processor` the `OwnerEventProcessor` (context/owner-event-processor.ts): its state is a
--   record, a method that may throw returns a `Result` with the new state, and the clock is an
--   argument. A Map is an association list in the order of insertion (`Base.Dict`).
-- - Gateway: packages/tools/src/governed-tool-gateway.ts and packages/contracts/src/tool/contracts.ts.
--   `Gateway.Execute.execute` threads the processor and a world; adapters, the audit ledger, the
--   redactor, the clock and the bridge to an action request (`Gateway.Bridge` has the source's) are
--   fields of the record `Gateway`. An adapter runs asynchronously: `owner_meanwhile` is the sequence
--   of processor operations that the owner makes while it runs. `Gateway.Ledger` has the ledger of
--   packages/policy/src/ledger/execution-audit-ledger.ts.
-- - Domain: packages/domain (projects, work items, attempts and their transition tables) and
--   packages/evidence (records, digests, the completion check and the verification service, whose
--   two stores are parameters). `JSON.stringify`, SHA-256 and the ISO date are the record `Hashing`.
-- - Delivery: packages/reconciliation and packages/completion, the two engines that decide whether a
--   work item is delivered. Random ids and the saving store are arguments.
-- - Work: packages/persistence/src/work/work-store.ts. `Work.Store` has a transaction as a function of
--   the store that it reads and the store that it writes to, and `Work.History.Later` the histories of
--   such transactions, in which a read may be older than the write.
-- - Workflow: packages/workflow/src/minimal-workflow-engine.ts and resume-coordinator.ts.
--   `Workflow.Engine.execute` and `Workflow.Resume.resume` run on any store with the four calls of
--   `WorkflowWorkStore`, and `Workflow.Database` fills it with the work store. The answers of the agent
--   are functions, since an execution asks for each once.
-- - Run: packages/workflow/src/run-coordinator.ts. `Run.Cycle.turn` is one turn of the loop,
--   `Run.Loop.execute` the loop, `Run.Wait` the wait for the agent, `Run.Replay` what is read back from
--   the events, and `Run.Resume` the two resumptions up to their call of `execute`. What the bridge,
--   the reviewer and the random ids are in turn n is the record `answers n`.
-- - Base: Boolean tests, decidable equality, lists over native numbers, texts, results and dictionaries.
--   The modules named Examples hold constants, and those named Tests concrete runs.
--
-- How they interact: the gateway bridges a tool request to an action request, asks the policy engine
-- with the processor's read-only view, reserves the grant that the decision names, runs the adapter
-- and settles the grant. The verification service completes a work item by the domain's transition;
-- reconciliation and then completion judge the completed item on the same records.
--
-- The engine works on the same work items and attempts as the domain, through the work store; a run
-- is resumed by the owner events that the policy package issues.
--
-- Recursion is structural, over lists or histories, but for the two loops of a run, which are on
-- fuel: the wait needs one poll more than its timeout has milliseconds, and the loop as many turns as
-- the reviewer passes, one for each repair left, and one. Numbers are natural: revisions and times,
-- with times as milliseconds.
--
-- Not modelled: letters outside ASCII in lower case, the reason texts of decisions, owner events while
-- the gateway awaits its ledger (those while an adapter runs are), a throw of the run coordinator's
-- ledger, its attempt to cancel a run at the timeout, whose outcome it ignores, the blueprint runner
-- and the multi-agent router, the other database stores, observability, the adapters, the HTTP
-- interface, the worker and the user interface.
pub mod Base
pub mod Policy
pub mod Gateway
pub mod Domain
pub mod Delivery
pub mod Work
pub mod Workflow
pub mod Run
