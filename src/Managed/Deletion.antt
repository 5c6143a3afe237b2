-- ===== src/Managed/Deletion.antt =====
-- The stages that finalize and delete keep the protocol.
use crossplane_runtime.Base.{◌≡◌, ◌⊎◌, inl, inr, true, false, ◌&&◌, some, Bool-cases, arith}
use crossplane_runtime.Meta.{was_deleted, StringMap}
use crossplane_runtime.Managed.{Resource, ExternalObservation, Checker, Reconciler, State}
use crossplane_runtime.Managed.Reconcile.{finalize, delete_stage}
use crossplane_runtime.Managed.Protocol.{last_observation, Missed, Found, Active}
use crossplane_runtime.Managed.Attempt.{by_test, Ends, At, protocol_rules}

module _ {W : Type 0} (r : Reconciler W) where
  pub finalize-Ends :
      (p : Checker) (details : StringMap) (s : State W)
      → At r p s
      → Active p
      → was_deleted s.resource.object ≡ true
      → (p.should_delete ≡ false) ⊎ Missed s.trace
      → Ends r p (finalize r details s)
  unfolding finalize
  finalize-Ends p details s h active deleted why = search protocol_rules

  pub delete_stage-Ends :
      (p : Checker) (o : ExternalObservation) (pre : Resource) (s : State W)
      → At r p s
      → Active p
      → last_observation s.trace ≡ some o
      → was_deleted s.resource.object ≡ true
      → Ends r p (delete_stage r p o pre s)
  unfolding delete_stage
  delete_stage-Ends p o pre s h active seen deleted =
      by_test (Ends r p) (o.resource_exists && p.should_delete) _ _
        (λ both.
          let there : o.resource_exists ≡ true = ground arith in
          let may : p.should_delete ≡ true = ground arith in
          let found : Found s.trace = (o, seen, there) in search protocol_rules)
        (λ one.
          finalize-Ends p o.connection_details s h active deleted
            (elim (Bool-cases o.resource_exists) [
              | inl there ↦ inl (ground arith)
              | inr missing ↦ inr (o, seen, missing)
            ]))
