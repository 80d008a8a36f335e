-- ===== src/Gateway/Settlement.antt =====
-- packages/tools/src/governed-tool-gateway.ts: what an execution does to the grant that allowed it.
use constructie_orchestrator.Base.Dict.{get, get-set_self}
use constructie_orchestrator.Base.{
  ℕ, ◌≡◌, refl, String, [], none, some, true, false, ◌&&◌, ◌==◌, ok, err, String_eq, Option_eq,
  eq_self,
}
use constructie_orchestrator.Policy.Types.{
  AuthorityGrantStatus, active, reserved, consumed, reconciliation_required,
  AuthorityGrantStatus_eq,
}
use constructie_orchestrator.Policy.Types
use constructie_orchestrator.Policy.Processor.{
  OwnerEventProcessor, GrantRecord, Outcome, is_multi_use, reserve_grant, consume_grant,
  require_reconciliation, reserving, consuming, releasing, reconciling,
}
use constructie_orchestrator.Policy.Processor.Lifecycle.{
  reserve_grant_single, consume_grant_single, release_grant_for_retry_single,
  require_reconciliation_single,
}
use constructie_orchestrator.Policy.Processor.Invariant.{run}
use constructie_orchestrator.Gateway.Contracts.{
  ToolExecutionStatus, succeeded, failed, denied, cancelled, timed_out, unknown,
  ToolExecutionRequest, ToolExecutionResult, valid_authorized, valid_result,
}
use constructie_orchestrator.Gateway.Execute.{
  Gateway, ToolAdapter, State, Verdict, adapter_threw, with_grant, settle_grant, sanitize,
  record_execution, then_grant, audited, conclude, returned, authorize,
}

-- The status that a result leaves its single-use grant in.
unfoldable pub settled : ToolExecutionStatus → AuthorityGrantStatus
settled succeeded = consumed
settled cancelled = active
settled _ = reconciliation_required

-- The grant with the given id has the given status.
unfoldable pub Holds : String → AuthorityGrantStatus → OwnerEventProcessor → Type 0
Holds id status p =
    (r : GrantRecord) × (get id p.grants ≡ some r) × (r.status ≡ status) × (is_multi_use r ≡ false)

module _ (now : ℕ) (id action : String) (p : OwnerEventProcessor) (r : GrantRecord)
    (held : get id p.grants ≡ some r) (single : is_multi_use r ≡ false) where
  reconcile_held :
      (q : OwnerEventProcessor) × (require_reconciliation now id action p ≡ ok q)
      × Holds id reconciliation_required q
  unfolding Holds is_multi_use
  reconcile_held = (
    reconciling now id action r p,
    require_reconciliation_single now id action p r held single,
    (
      record r { status = reconciliation_required },
      get-set_self id (record r { status = reconciliation_required }) p.grants,
      refl,
      single,
    ),
  )

  consume_held :
      r.status ≡ reserved
      → r.reserved_for_action_id ≡ some action
      → consume_grant now id action p ≡ ok (consuming now id action r p)
  unfolding Types.AuthorityGrantStatus-discrete
  consume_held e m =
      let passes : (r.status == reserved && r.reserved_for_action_id == some action) ≡ true =
        rw (e, m, eq_self (some action)) refl in
      let c = consume_grant_single now id action p r held single in rw passes at c

  settle_grant_reserved :
      (status : ToolExecutionStatus)
      → r.status ≡ reserved
      → r.reserved_for_action_id ≡ some action
      → (q : OwnerEventProcessor) × (settle_grant status now id action p ≡ ok q)
        × Holds id (settled status) q
  unfolding settle_grant settled Holds is_multi_use
  settle_grant_reserved succeeded e m = (
    consuming now id action r p,
    consume_held e m,
    (
      record r { status = consumed },
      get-set_self id (record r { status = consumed }) p.grants,
      refl,
      single,
    ),
  )
  settle_grant_reserved cancelled e m = (
    releasing now id action r p,
    release_grant_for_retry_single now id action p r held single,
    (
      record r { status = active; reserved_for_action_id = none },
      get-set_self id (record r { status = active; reserved_for_action_id = none }) p.grants,
      refl,
      single,
    ),
  )
  settle_grant_reserved failed e m = reconcile_held
  settle_grant_reserved denied e m = reconcile_held
  settle_grant_reserved timed_out e m = reconcile_held
  settle_grant_reserved unknown e m = reconcile_held

module _ {W : Type 0} (g : Gateway W) (request : ToolExecutionRequest) (verdict : Verdict)
    (adapter : ToolAdapter W) (action id : String) (s : State W) (r : GrantRecord)
    (acting : verdict.action_id ≡ some action) (granted : verdict.granted_by ≡ some id)
    (consumer : g.has_grant_consumer ≡ true) (held : get id s.processor.grants ≡ some r)
    (single : is_multi_use r ≡ false) (free : r.status ≡ active)
    (found : get request.tool_id g.adapters ≡ some adapter)
    (well_formed : valid_authorized (record { request = request; policy = verdict.policy })
      ≡ true) where
  call_made :
      (call : String → String → OwnerEventProcessor → Outcome) (p : OwnerEventProcessor)
      → with_grant g verdict call p ≡ call id action p
  unfolding with_grant
  call_made call p = rw (acting, granted, consumer) refl

  reserved_state : State W
  reserved_state = record s { processor = reserving (g.clock s.world) id action r s.processor }

  -- The adapter runs with the grant reserved for the action.
  authorize_reserved :
      authorize g request verdict s
      ≡ returned g verdict reserved_state
          (adapter (record { request = request; policy = verdict.policy }) s.world)
  unfolding authorize then_grant reserved_state Types.AuthorityGrantStatus-discrete
  authorize_reserved =
      let reserves : reserve_grant (g.clock s.world) id action s.processor
          ≡ ok (reserving (g.clock s.world) id action r s.processor) =
        rw (reserve_grant_single (g.clock s.world) id action s.processor r held single, free)
          refl in
      rw
        (
          found,
          authorize,
          call_made (reserve_grant (g.clock s.world)) s.processor,
          reserves,
          well_formed,
        )
        refl

  module _ (w : W) (quiet : g.owner_meanwhile w ≡ []) where
    ran_state : State W
    ran_state = record reserved_state { world = w }

    -- When the adapter throws, with no owner event during the run, the single-use grant that was
    -- active before is left reconciliation-required, and the error is thrown on.
    pub authorize_thrown :
        (message : String)
        → adapter (record { request = request; policy = verdict.policy }) s.world ≡ (w, err message)
        → (q : OwnerEventProcessor) × (authorize g request verdict s
            ≡ (record { processor = q; world = w }, err (adapter_threw message)))
          × Holds id reconciliation_required q
    unfolding returned run then_grant reserved_state is_multi_use
    authorize_thrown message threw =
        let p = reserved_state.processor in
        let r' = record r { status = reserved; reserved_for_action_id = some action } in
        let (q, e, h) =
          reconcile_held (g.clock w) id action p r' (get-set_self id r' s.processor.grants)
            single in
        (
          q,
          rw (authorize_reserved, threw, quiet, call_made (require_reconciliation (g.clock w)) p, e)
              refl,
          h,
        )

    module _ (result : ToolExecutionResult) (v : W)
        (ran : adapter (record { request = request; policy = verdict.policy }) s.world
          ≡ (w, ok result))
        (shaped : valid_result result ≡ true) where
      settled_grant :
          (q : OwnerEventProcessor) × (settle_grant result.status
              (g.clock w)
              id
              action
              reserved_state.processor
            ≡ ok q)
          × Holds id (settled result.status) q
      unfolding reserved_state is_multi_use
      settled_grant =
          let r' = record r { status = reserved; reserved_for_action_id = some action } in
          settle_grant_reserved (g.clock w) id action reserved_state.processor r'
            (get-set_self id r' s.processor.grants) single result.status refl refl

      -- An execution with a grant consumer, under a single-use active grant, whose adapter returns a
      -- well-formed result, with no owner event during the run and with the result recorded, returns
      -- the redacted result and leaves the grant consumed, active or reconciliation-required, by the
      -- status of the result.
      pub authorize-settled :
          record_execution g.audit_ledger verdict.action_id (sanitize g.redact result) w
            ≡ (v, ok tt)
          → (q : OwnerEventProcessor) × (authorize g request verdict s
              ≡ (record { processor = q; world = v }, ok (sanitize g.redact result)))
            × Holds id (settled result.status) q
      unfolding returned conclude audited run then_grant reserved_state
      authorize-settled recorded =
          let (q, e, h) = settled_grant in
          (
            q,
            rw
                (
                  authorize_reserved,
                  ran,
                  quiet,
                  shaped,
                  call_made (settle_grant result.status (g.clock w)) reserved_state.processor,
                  e,
                  recorded,
                )
                refl,
            h,
          )
