-- ===== src/Policy/Processor/Lifecycle.antt =====
-- The life of one grant: what each operation of the gateway's capability does to it.
use constructie_orchestrator.Base.Dict.{get, get-set_self}
use constructie_orchestrator.Base.{
  ℕ, ◌≡◌, refl, String, none, some, true, false, ◌&&◌, ◌==◌, ok, err, String_eq, Option_eq, eq_self,
  eq_sound, Bool-cases, and_true, inl, inr, if◌then◌else◌,
}
use constructie_orchestrator.Policy.Types.{
  active, reserved, consumed, AuthorityGrantStatus_eq, AuthorityGrantStatus-discrete,
}
use constructie_orchestrator.Policy.Processor.{
  OwnerEventProcessor, GrantRecord, is_multi_use, reserve_grant, consume_grant,
  release_grant_for_retry, require_reconciliation, grant_state, reserving, consuming, releasing,
  reconciling,
}

module _ (now : ℕ) (id action : String) (p : OwnerEventProcessor) (g : GrantRecord)
    (held : get id p.grants ≡ some g) (single : is_multi_use g ≡ false) where
  -- A reservation takes an active grant only; any other status is refused, and nothing changes.
  pub reserve_grant_single : reserve_grant now id action p ≡ (
      if g.status == active
      then ok (reserving now id action g p)
      else err (grant_state id active g.status))
  unfolding reserve_grant
  reserve_grant_single = elim (Bool-cases (g.status == active)) [
    | inl e ↦ rw (e, held, single, e) refl
    | inr e ↦ rw (e, held, single, e) refl
  ]

  -- Only the action that holds the reservation consumes the grant.
  pub consume_grant_single : consume_grant now id action p ≡ (
      if g.status == reserved && g.reserved_for_action_id == some action
      then ok (consuming now id action g p)
      else err (grant_state id reserved g.status))
  unfolding consume_grant
  consume_grant_single =
      elim (Bool-cases (g.status == reserved && g.reserved_for_action_id == some action)) [
        | inl e ↦ rw (e, held, single, e) refl
        | inr e ↦ rw (e, held, single, e) refl
      ]

  -- A release and a reconciliation mark succeed in every status.
  pub release_grant_for_retry_single :
      release_grant_for_retry now id action p ≡ ok (releasing now id action g p)
  unfolding release_grant_for_retry
  release_grant_for_retry_single = rw held (rw single refl)

  pub require_reconciliation_single :
      require_reconciliation now id action p ≡ ok (reconciling now id action g p)
  unfolding require_reconciliation
  require_reconciliation_single = rw held (rw single refl)

  reserve_grant_ok :
      (q : OwnerEventProcessor)
      → reserve_grant now id action p ≡ ok q
      → (g.status ≡ active) × (reserving now id action g p ≡ q)
  reserve_grant_ok q h = elim (Bool-cases (g.status == active)) [
    | inl e ↦ (eq_sound g.status active e, cc (rw e at reserve_grant_single, h))
    | inr e ↦ cc (rw e at reserve_grant_single, h)
  ]

  consume_grant_ok :
      (q : OwnerEventProcessor)
      → consume_grant now id action p ≡ ok q
      → (g.status ≡ reserved)
        × (g.reserved_for_action_id ≡ some action)
        × (consuming now id action g p ≡ q)
  consume_grant_ok q h =
      elim (Bool-cases (g.status == reserved && g.reserved_for_action_id == some action)) [
        | inl e ↦
            let (s, r) =
              and_true (g.status == reserved) (g.reserved_for_action_id == some action) e in
            (
              eq_sound g.status reserved s,
              eq_sound g.reserved_for_action_id (some action) r,
              cc (rw e at consume_grant_single, h),
            )
        | inr e ↦ cc (rw e at consume_grant_single, h)
      ]

module _ (now later : ℕ) (id action other : String) (p : OwnerEventProcessor) (g : GrantRecord)
    (held : get id p.grants ≡ some g) (single : is_multi_use g ≡ false) where
  -- A consumed grant is spent: no action, the same one included, reserves or consumes it again.
  pub consume_grant-once :
      (q : OwnerEventProcessor)
      → consume_grant now id action p ≡ ok q
      → (reserve_grant later id other q ≡ err (grant_state id active consumed))
        × (consume_grant later id other q ≡ err (grant_state id reserved consumed))
  unfolding AuthorityGrantStatus-discrete is_multi_use
  consume_grant-once q h =
      let spent = record g { status = consumed } in
      let (_, _, e) = consume_grant_ok now id action p g held single q h in
      let kept : get id q.grants ≡ some spent = rw (← e) (get-set_self id spent p.grants) in
      (
        reserve_grant_single later id other q spent kept single,
        consume_grant_single later id other q spent kept single,
      )

  -- A reservation is exclusive: until it is settled no action reserves the grant, and no other
  -- action consumes it.
  pub reserve_grant-exclusive :
      (q : OwnerEventProcessor)
      → reserve_grant now id action p ≡ ok q
      → (action == other) ≡ false
      → (reserve_grant later id other q ≡ err (grant_state id active reserved))
        × (reserve_grant later id action q ≡ err (grant_state id active reserved))
        × (consume_grant later id other q ≡ err (grant_state id reserved reserved))
        × ((r : OwnerEventProcessor) × (consume_grant later id action q ≡ ok r))
  unfolding AuthorityGrantStatus-discrete is_multi_use
  reserve_grant-exclusive q h n =
      let taken = record g { status = reserved; reserved_for_action_id = some action } in
      let (_, e) = reserve_grant_ok now id action p g held single q h in
      let kept : get id q.grants ≡ some taken = rw (← e) (get-set_self id taken p.grants) in
      let same : (action == action) ≡ true = eq_self action in
      (
        reserve_grant_single later id other q taken kept single,
        reserve_grant_single later id action q taken kept single,
        rw n at (consume_grant_single later id other q taken kept single),
        (
          consuming later id action taken q,
          rw same at (consume_grant_single later id action q taken kept single),
        ),
      )

  -- A release makes a grant active again from every status, a consumed or a revoked grant and one
  -- that awaits reconciliation included, so that the next action can reserve it.
  pub release_grant_for_retry-reserve :
      (q : OwnerEventProcessor)
      → release_grant_for_retry now id action p ≡ ok q
      → (r : OwnerEventProcessor) × (reserve_grant later id other q ≡ ok r)
  unfolding AuthorityGrantStatus-discrete is_multi_use
  release_grant_for_retry-reserve q h =
      let again = record g { status = active; reserved_for_action_id = none } in
      let e : releasing now id action g p ≡ q =
        cc (release_grant_for_retry_single now id action p g held single, h) in
      let kept : get id q.grants ≡ some again = rw (← e) (get-set_self id again p.grants) in
      (reserving later id other again q, reserve_grant_single later id other q again kept single)
