-- ===== src/Gateway/Spent.antt =====
-- packages/tools/src/governed-tool-gateway.ts over packages/policy/src/context: a grant that is
-- not active opens no further action.
use constructie_orchestrator.Base.Dict.{get, get_of_Elem}
use constructie_orchestrator.Base.{
  ◌≡◌, ◌≢◌, refl, sym, ap, ◌∙◌, String, List, [], ◌∷◌, some, Elem, inl, inr, map,
}
use constructie_orchestrator.Policy.Types.{
  AuthorityGrantStatus, AuthorityGrantView, ActionRequest, active, allow, PolicyDecision_eq,
}
use constructie_orchestrator.Policy.Engine.{Inspection, evaluate}
use constructie_orchestrator.Policy.Engine.Soundness.{evaluate_granted}
use constructie_orchestrator.Policy.Processor.{
  OwnerEventProcessor, GrantRecord, grant_view, read_only_view,
}
use constructie_orchestrator.Policy.Processor.Invariant.{IsValid}
use constructie_orchestrator.Gateway.Settlement.{Holds}

view_entry :
    (a : AuthorityGrantView) (m : List (String × GrantRecord))
    → Elem a (map grant_view m)
    → (e : String × GrantRecord) × Elem e m × (grant_view e ≡ a)
view_entry a [] h = absurd h
view_entry a (e ∷ m) (inl q) = (e, inl refl, sym q)
view_entry a (e ∷ m) (inr h) = let (f, k, q) = view_entry a m h in (f, inr k, q)

-- In a valid processor, a decision of the engine that allows an action names no single-use grant of
-- another status than active.
pub evaluate-spent :
    (i : Inspection) (request : ActionRequest) (p : OwnerEventProcessor) (id : String)
    (status : AuthorityGrantStatus)
    → IsValid p
    → Holds id status p
    → status ≢ active
    → (evaluate i (read_only_view p) request).decision ≡ allow
    → (evaluate i (read_only_view p) request).granted_by_authority_id ≢ some id
unfolding Holds read_only_view
evaluate-spent i request p id status valid (r, held, is, _) other allowed names =
    let (a, listed, same, live, _, _) =
      evaluate_granted i (read_only_view p) request id allowed names in
    let ((k, v), at, view) = view_entry a p.grants listed in
    let key : k ≡ id = ap (λ (x : AuthorityGrantView). x.grant_id) view ∙ same in
    let entry : get id p.grants ≡ some v = rw key at (get_of_Elem k v p.grants valid.distinct at) in
    other (cc (held, entry, is, live, ap (λ (x : AuthorityGrantView). x.status) view))
