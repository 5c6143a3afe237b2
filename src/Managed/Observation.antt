-- ===== src/Managed/Observation.antt =====
-- The stages from initialization to observation keep the protocol.
use crossplane_runtime.Base.{
  ◌≡◌, ◌⊎◌, refl, inl, inr, true, false, not, ◌&&◌, ◌||◌, Option, none, some, [], arith,
}
use crossplane_runtime.Errors.{Error}
use crossplane_runtime.Meta.{was_deleted}
use crossplane_runtime.Meta.Maps
use crossplane_runtime.Meta.Maps.{external_create_succeeded_during, external_create_incomplete}
use crossplane_runtime.Managed.{
  ExternalObservation, connect, resolve_references, Checker, Reconciler, State, Exit, exited,
}
use crossplane_runtime.Managed.Reconcile.{
  now_in, observed_stage, observe_stage, disconnecting, ignoring, connect_stage, resolve_stage,
  incomplete_stage, initialize_stage, orphan_stage, validated, validate_stage, paused_stage,
}
use crossplane_runtime.Managed.Protocol.{last_observation, JustDone, Active, Accounts}
use crossplane_runtime.Managed.Attempt.{by_test, Ends, At, protocol_rules}
use crossplane_runtime.Managed.Deletion.{finalize-Ends, delete_stage-Ends}
use crossplane_runtime.Managed.Creation.{publish_stage-Ends}

module _ {W : Type 0} (r : Reconciler W) where
  observed_stage-Ends :
      (p : Checker) (o : ExternalObservation) (s : State W)
      → At r p s
      → Active p
      → last_observation s.trace ≡ some o
      → Ends r p (observed_stage r p o s)
  unfolding observed_stage
  observed_stage-Ends p o s h active seen =
      by_test (Ends r p) (not o.resource_exists && p.should_only_observe) _ _
        (λ missing. search protocol_rules)
        (λ go.
          by_test (Ends r p)
            (not o.resource_exists
              && external_create_succeeded_during r.time (now_in r s) s.resource.object
                  r.creation_grace_period)
            _ _ (λ wait. search protocol_rules)
            (λ trusted.
              by_test (Ends r p) (was_deleted s.resource.object) _ _
                (λ deleted. delete_stage-Ends r p o s.resource s h active seen deleted)
                (λ kept. publish_stage-Ends r p o s.resource s h active seen)))

  observe_stage-Ends :
      (p : Checker) (s : State W)
      → At r p s
      → Active p
      → JustDone connect s.trace
      → Ends r p (observe_stage r p s)
  unfolding observe_stage
  observe_stage-Ends p s h active connected = search (protocol_rules, observed_stage-Ends)

  disconnecting-Ends :
      (p : Checker) (x : Exit W) → Active p → Ends r p x → Ends r p (disconnecting r x)
  unfolding disconnecting ignoring
  disconnecting-Ends p (exited result err s) active h = record {
    legal_end = (active, (active, h.legal_end));
    accounted_end = h.accounted_end;
  }

  connect_stage-Ends :
      (p : Checker) (s : State W)
      → At r p s
      → Active p
      → JustDone resolve_references s.trace
        ⊎ ((was_deleted s.resource.object ≡ true)
            × Accounts r.time r.deterministic_external_name s.resource)
      → Ends r p (connect_stage r p s)
  unfolding connect_stage
  connect_stage-Ends p s h active ready =
      search (protocol_rules, disconnecting-Ends, observe_stage-Ends)

  connect_after_resolve-Ends :
      (p : Checker) (s : State W)
      → At r p s
      → Active p
      → JustDone resolve_references s.trace
      → Ends r p (connect_stage r p s)
  connect_after_resolve-Ends p s h active done = connect_stage-Ends p s h active (inl done)

  resolve_stage-Ends :
      (p : Checker) (s : State W)
      → At r p s
      → Active p
      → Accounts r.time r.deterministic_external_name s.resource
      → Ends r p (resolve_stage r p s)
  unfolding resolve_stage
  resolve_stage-Ends p s h active complete =
      by_test (Ends r p) (not (was_deleted s.resource.object)) _ _
        (λ kept.
          let alive : was_deleted s.resource.object ≡ false = ground arith in
          search (protocol_rules, connect_after_resolve-Ends))
        (λ gone.
          let deleted : was_deleted s.resource.object ≡ true = ground arith in
          connect_stage-Ends p s h active (inr (deleted, complete)))

  incomplete_stage-Ends :
      (p : Checker) (s : State W) → At r p s → Active p → Ends r p (incomplete_stage r p s)
  unfolding incomplete_stage
  incomplete_stage-Ends p s h active =
      by_test (Ends r p)
        (external_create_incomplete r.time s.resource.object && not r.deterministic_external_name) _
        _ (λ refuse. search protocol_rules) (λ go. resolve_stage-Ends p s h active go)

  initialize_stage-Ends :
      (p : Checker) (s : State W) → At r p s → Active p → Ends r p (initialize_stage r p s)
  unfolding initialize_stage
  initialize_stage-Ends p s h active = search (protocol_rules, incomplete_stage-Ends)

  orphan_stage-Ends :
      (p : Checker) (s : State W) → At r p s → Active p → Ends r p (orphan_stage r p s)
  unfolding orphan_stage
  orphan_stage-Ends p s h active =
      by_test (Ends r p) (was_deleted s.resource.object && not p.should_delete) _ _
        (λ both.
          let deleted : was_deleted s.resource.object ≡ true = ground arith in
          finalize-Ends r p [] s h active deleted (inl (ground arith)))
        (λ one. initialize_stage-Ends p s h active)

  validated-Ends :
      (p : Checker) (v : Option Error) (s : State W)
      → At r p s
      → p.is_paused ≡ false
      → p.validation ≡ v
      → Ends r p (validated r p v s)
  unfolding validated
  validated-Ends p none s h running fine = orphan_stage-Ends p s h (running, fine)
  validated-Ends p (some e) s h running bad =
      by_test (Ends r p) (r.kerrors.is_conflict e) _ _ (λ c. search protocol_rules)
        (λ c. search protocol_rules)

  pub paused_stage-Ends : (p : Checker) (s : State W) → At r p s → Ends r p (paused_stage r p s)
  unfolding paused_stage validate_stage
  paused_stage-Ends p s h =
      by_test (Ends r p) (Maps.is_paused s.resource.object || p.is_paused) _ _
        (λ paused. search protocol_rules)
        (λ run. validated-Ends p p.validation s h (ground arith) refl)
