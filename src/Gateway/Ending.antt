-- ===== src/Gateway/Ending.antt =====
-- packages/tools/src/governed-tool-gateway.ts: what a successful result of an allowed request rests on,
-- from the adapter to the audit.
use constructie_orchestrator.Base.Dict.{get}
use constructie_orchestrator.Base.{
  ◌≡◌, ◌≢◌, refl, String, some, none, true, false, ok, err, Result, if◌then◌else◌, Bool-cases, inl,
  inr, Bool, Option, ap, sym, subst, Option-cases, ℕ, ◌∙◌,
}
use constructie_orchestrator.Policy.Types.{PolicyDecision_eq}
use constructie_orchestrator.Policy.Processor.{
  OwnerEventProcessor, Outcome, reserve_grant, consume_grant, require_reconciliation,
}
use constructie_orchestrator.Policy.Processor.Invariant.{run}
use constructie_orchestrator.Gateway.Contracts.{
  AuthorizedToolRequest, ToolExecutionRequest, ToolExecutionResult, ToolExecutionStatus, succeeded,
  unknown, valid_authorized, valid_result,
}
use constructie_orchestrator.Gateway.Execute.{
  Gateway, ToolAdapter, State, Run, Verdict, with_grant, settle_grant, sanitize, unaudited,
  record_execution, then_grant, audited, conclude, returned, authorize, invalid_result,
  invalid_authorized, tool_not_registered,
}

sanitize_status :
    (redact : Option (String → String)) (raw : ToolExecutionResult)
    → (sanitize redact raw).status ≡ raw.status
unfolding sanitize
sanitize_status none raw = refl
sanitize_status (some f) raw = refl

module _ {W : Type 0} where
  -- A chain that returns has a grant call that does not throw.
  then_grant-ok :
      (s : State W) (o : Outcome) (next : State W → Run W) {t : State W} {r : ToolExecutionResult}
      → then_grant s o next ≡ (t, ok r)
      → (p : OwnerEventProcessor) × (o ≡ ok p) × (next (record s { processor = p }) ≡ (t, ok r))
  unfolding then_grant
  then_grant-ok s (ok p) next h = (p, refl, h)
  then_grant-ok s (err e) next h = cc h

  module _ (g : Gateway W) (verdict : Verdict) where
    -- A successful result of the audit was recorded, and is the redacted result of the adapter.
    audited-succeeded :
        (clean r : ToolExecutionResult) (s t : State W) (a : W × Result String (Unit {0}))
        → audited g verdict clean s a ≡ (t, ok r)
        → r.status ≡ succeeded
        → (a ≡ (t.world, ok tt)) × (clean ≡ r) × (s.processor ≡ t.processor)
    unfolding audited unaudited
    audited-succeeded clean r s t (w, ok _) h e = (cc h, cc h, cc h)
    audited-succeeded clean r s t (w, err message) h e =
        let u = record s { world = w } in
        let (p, _, rest) =
          then_grant-ok u (with_grant g verdict (require_reconciliation (g.clock w)) u.processor) _
            h in
        absurd (elim (Bool-cases (valid_result (unaudited clean message))) [
          | inl v ↦ unknown-succeeded (ap (λ x. status_of x) (rw v at rest)) e
          | inr v ↦ not_ok (rw v at rest)
        ])
      where
        status_of : Run W → Option ToolExecutionStatus
        status_of (_, ok x) = some x.status
        status_of (_, err _) = none

        unknown-succeeded : some unknown ≡ some r.status → r.status ≢ succeeded
        unknown-succeeded q e = cc

        not_ok : {u : State W} → ◌≡◌ {A = Run W} (u, err invalid_result) (t, ok r) → ⊥
        not_ok q = cc

  -- What the adapter ran to, and what became of it: a well-formed result that succeeded, the grant
  -- consumed after the owner's events of the meantime, the result redacted and audited.
  pub record HasEnded (g : Gateway W) (verdict : Verdict) (p : OwnerEventProcessor)
      (answer : W × Result String ToolExecutionResult) (t : State W) (r : ToolExecutionResult)
      : Type 0 where
    pub ended : W
    pub raw : ToolExecutionResult
    pub ran : answer ≡ (ended, ok raw)
    pub well_formed : valid_result raw ≡ true
    pub succeeds : raw.status ≡ succeeded
    pub consumed :
        with_grant g verdict (consume_grant (g.clock ended)) (run (g.owner_meanwhile ended) p)
        ≡ ok t.processor
    pub redacted : sanitize g.redact raw ≡ r
    pub audited : record_execution g.audit_ledger verdict.action_id r ended ≡ (t.world, ok tt)

  consumes :
      (g : Gateway W) (verdict : Verdict) (status : ToolExecutionStatus) (now : ℕ)
      (p q kept : OwnerEventProcessor)
      → status ≡ succeeded
      → with_grant g verdict (settle_grant status now) p ≡ ok q
      → q ≡ kept
      → with_grant g verdict (consume_grant now) p ≡ ok kept
  unfolding settle_grant
  consumes g verdict status now p q kept e h same =
      subst (λ x. with_grant g verdict (settle_grant x now) p ≡ ok kept) e (h ∙ ap ok same)

  recorded_as :
      (g : Gateway W) (verdict : Verdict) (clean r : ToolExecutionResult) (w v : W)
      → clean ≡ r
      → record_execution g.audit_ledger verdict.action_id clean w ≡ (v, ok tt)
      → record_execution g.audit_ledger verdict.action_id r w ≡ (v, ok tt)
  recorded_as g verdict clean r w v same h =
      subst (λ x. record_execution g.audit_ledger verdict.action_id x w ≡ (v, ok tt)) same h

  returned-succeeded :
      (g : Gateway W) (verdict : Verdict) (s t : State W) (r : ToolExecutionResult)
      (answer : W × Result String ToolExecutionResult)
      → returned g verdict s answer ≡ (t, ok r)
      → r.status ≡ succeeded
      → HasEnded g verdict s.processor answer t r
  unfolding returned conclude
  returned-succeeded g verdict s t r (w, err message) h e =
      let p = run (g.owner_meanwhile w) s.processor in
      let (_, _, rest) =
        then_grant-ok (record { processor = p; world = w })
          (with_grant g verdict (require_reconciliation (g.clock w)) p) _ h in
      cc rest
  returned-succeeded g verdict s t r (w, ok raw) h e = elim (Bool-cases (valid_result raw)) [
    | inl v ↦
        let p = run (g.owner_meanwhile w) s.processor in
        let (q, settles, rest) =
          then_grant-ok (record { processor = p; world = w })
            (with_grant g verdict (settle_grant raw.status (g.clock w)) p) _ (rw v at h) in
        let (recorded, same, kept) =
          audited-succeeded g verdict (sanitize g.redact raw) r
            (record { processor = q; world = w }) t
            (record_execution g.audit_ledger verdict.action_id (sanitize g.redact raw) w) rest e in
        let good : raw.status ≡ succeeded =
          sym (sanitize_status g.redact raw)
          ∙ (ap (λ (x : ToolExecutionResult). x.status) same ∙ e) in
        record {
          ended = w;
          raw = raw;
          ran = refl;
          well_formed = v;
          succeeds = good;
          consumed = consumes g verdict raw.status (g.clock w) p q t.processor good settles kept;
          redacted = same;
          audited = recorded_as g verdict (sanitize g.redact raw) r w t.world same recorded;
        }
    | inr v ↦ cc (rw v at h)
  ]

  -- What the execution of an allowed request did: it found the adapter, reserved the grant, ran.
  pub record HasExecuted (g : Gateway W) (request : ToolExecutionRequest) (verdict : Verdict)
      (s t : State W) (r : ToolExecutionResult) : Type 0 where
    pub adapter : ToolAdapter W
    pub registered : get request.tool_id g.adapters ≡ some adapter
    pub held : OwnerEventProcessor
    pub reserved : with_grant g verdict (reserve_grant (g.clock s.world)) s.processor ≡ ok held
    pub ending :
        HasEnded g verdict held
          (adapter (record { request = request; policy = verdict.policy }) s.world)
          t
          r

  module _ (g : Gateway W) (request : ToolExecutionRequest) (verdict : Verdict)
      (adapter : ToolAdapter W) where
    abbrev authorized : AuthorizedToolRequest
    authorized = record { request = request; policy = verdict.policy }

    -- What follows the reservation.
    abbrev runs : State W → Run W
    runs u =
        if valid_authorized authorized
        then returned g verdict u (adapter authorized u.world)
        else (u, err invalid_authorized)

    runs-succeeded :
        (u t : State W) (r : ToolExecutionResult) (b : Bool)
        → (if b
            then returned g verdict u (adapter authorized u.world)
            else (u, err invalid_authorized))
          ≡ (t, ok r)
        → r.status ≡ succeeded
        → HasEnded g verdict u.processor (adapter authorized u.world) t r
    runs-succeeded u t r true h e =
        returned-succeeded g verdict u t r (adapter authorized u.world) h e
    runs-succeeded u t r false h e = cc h

    reserved-succeeded :
        (s t : State W) (r : ToolExecutionResult) (o : Outcome)
        → then_grant s o runs ≡ (t, ok r)
        → r.status ≡ succeeded
        → (p : OwnerEventProcessor) × (o ≡ ok p)
          × HasEnded g verdict p (adapter authorized s.world) t r
    unfolding then_grant
    reserved-succeeded s t r (ok p) h e =
        (p, refl, runs-succeeded (record s { processor = p }) t r (valid_authorized authorized) h e)
    reserved-succeeded s t r (err x) h e = cc h

  authorize_found :
      (g : Gateway W) (request : ToolExecutionRequest) (verdict : Verdict) (s : State W)
      (adapter : ToolAdapter W)
      → get request.tool_id g.adapters ≡ some adapter
      → authorize g request verdict s
        ≡ then_grant s
            (with_grant g verdict (reserve_grant (g.clock s.world)) s.processor)
            (runs g request verdict adapter)
  unfolding authorize
  authorize_found g request verdict s adapter n = rw (n, authorize) refl

  authorize_missing :
      (g : Gateway W) (request : ToolExecutionRequest) (verdict : Verdict) (s : State W)
      → get request.tool_id g.adapters ≡ none
      → authorize g request verdict s ≡ (s, err (tool_not_registered request.tool_id))
  unfolding authorize
  authorize_missing g request verdict s n = rw (n, authorize) refl

  pub authorize-succeeded :
      (g : Gateway W) (request : ToolExecutionRequest) (verdict : Verdict) (s t : State W)
      (r : ToolExecutionResult)
      → authorize g request verdict s ≡ (t, ok r)
      → r.status ≡ succeeded
      → HasExecuted g request verdict s t r
  authorize-succeeded g request verdict s t r h e =
      elim (Option-cases (get request.tool_id g.adapters)) [
        | inl n ↦ cc (sym (authorize_missing g request verdict s n) ∙ h)
        | inr (adapter, n) ↦
            let (p, reserves, ending) =
              reserved-succeeded g request verdict adapter s t r
                (with_grant g verdict (reserve_grant (g.clock s.world)) s.processor)
                (sym (authorize_found g request verdict s adapter n) ∙ h) e in
            record {
              adapter = adapter;
              registered = n;
              held = p;
              reserved = reserves;
              ending = ending;
            }
      ]
