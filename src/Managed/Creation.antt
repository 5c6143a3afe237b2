-- ===== src/Managed/Creation.antt =====
-- The stages that create and update the external resource keep the protocol.
use crossplane_runtime.Base.{◌≡◌, ◌⊎◌, inl, inr, true, false, not, ◌&&◌, some, Bool-cases, arith, ℕ}
use crossplane_runtime.Meta.Maps.{set_external_create_succeeded, set_external_create_failed}
use crossplane_runtime.Meta.Creation.{
  annotation-set_external_create_pending, annotation-set_external_create_succeeded,
  annotation-set_external_create_failed,
}
use crossplane_runtime.Errors.{Error}
use crossplane_runtime.Managed.{
  Resource, ExternalObservation, ExternalCreation, publish, add_finalizer, Checker, Reconciler,
  State,
}
use crossplane_runtime.Managed.Reconcile.{
  now_in, update_stage, up_to_date_stage, late_initialize_stage, create_failed, create_succeeded,
  create_stage, exists_stage, finalizer_stage, publish_stage,
}
use crossplane_runtime.Managed.Protocol.{
  last_observation, Missed, Found, OutOfDate, JustDone, Active, Outcome,
}
use crossplane_runtime.Managed.Attempt.{
  by_test, Ends, At, Open, account-Ends, ignoring-At, log-Open, with_object-Open, protocol_rules,
  creation_rules,
}

module _ {W : Type 0} (r : Reconciler W) where
  update_stage-Ends :
      (p : Checker) (pre : Resource) (s : State W)
      → At r p s
      → Active p
      → p.should_update ≡ true
      → OutOfDate s.trace
      → Found s.trace ⊎ (p.should_create ≡ false)
      → Ends r p (update_stage r pre s)
  unfolding update_stage
  update_stage-Ends p pre s h active may old there = search protocol_rules

  up_to_date_stage-Ends :
      (p : Checker) (o : ExternalObservation) (pre : Resource) (s : State W)
      → At r p s
      → Active p
      → last_observation s.trace ≡ some o
      → Found s.trace ⊎ (p.should_create ≡ false)
      → Ends r p (up_to_date_stage r p o pre s)
  unfolding up_to_date_stage
  up_to_date_stage-Ends p o pre s h active seen there =
      by_test (Ends r p) o.resource_up_to_date _ _ (λ fresh. search protocol_rules)
        (λ stale.
          by_test (Ends r p) (not p.should_update) _ _ (λ skip. search protocol_rules)
            (λ go.
              let may : p.should_update ≡ true = ground arith in
              update_stage-Ends p pre s h active may (o, seen, stale) there))

  late_initialize_stage-Ends :
      (p : Checker) (o : ExternalObservation) (pre : Resource) (s : State W)
      → At r p s
      → Active p
      → last_observation s.trace ≡ some o
      → Found s.trace ⊎ (p.should_create ≡ false)
      → Ends r p (late_initialize_stage r p o pre s)
  unfolding late_initialize_stage
  late_initialize_stage-Ends p o pre s h active seen there =
      by_test (Ends r p) (o.resource_late_initialized && p.should_late_initialize) _ _
        (λ late. search (protocol_rules, up_to_date_stage-Ends))
        (λ not_late. up_to_date_stage-Ends p o pre s h active seen there)

  failed-Outcome :
      (m : Resource) (n : ℕ)
      → Outcome r.time false (record m { object = set_external_create_failed r.time m.object n })
  failed-Outcome m n = (n, annotation-set_external_create_failed r.time m.object n)

  succeeded-Outcome :
      (m : Resource) (n : ℕ)
      → Outcome r.time true (record m { object = set_external_create_succeeded r.time m.object n })
  succeeded-Outcome m n = (n, annotation-set_external_create_succeeded r.time m.object n)

  create_failed-Ends :
      (p : Checker) (pre : Resource) (e : Error) (c : ExternalCreation) (s : State W)
      → Open r p false s
      → Active p
      → p.should_create ≡ true
      → Ends r p (create_failed r pre e c s)
  unfolding create_failed
  create_failed-Ends p pre e c s h active may =
      search (protocol_rules, ignoring-At r p false, with_object-Open r p false, failed-Outcome)

  create_succeeded-Ends :
      (p : Checker) (pre : Resource) (c : ExternalCreation) (s : State W)
      → Open r p true s
      → Active p
      → p.should_create ≡ true
      → Ends r p (create_succeeded r pre c s)
  unfolding create_succeeded
  create_succeeded-Ends p pre c s h active may = search (
    protocol_rules,
    account-Ends r p true,
    with_object-Open r p true,
    log-Open r p true,
    succeeded-Outcome,
  )

  create_stage-Ends :
      (p : Checker) (pre : Resource) (s : State W)
      → At r p s
      → Active p
      → p.should_create ≡ true
      → Missed s.trace
      → JustDone add_finalizer s.trace
      → Ends r p (create_stage r pre s)
  unfolding create_stage
  create_stage-Ends p pre s h active may missed added =
      let stored = annotation-set_external_create_pending r.time s.resource.object (now_in r s) in
      search (protocol_rules, creation_rules, create_failed-Ends, create_succeeded-Ends)

  exists_stage-Ends :
      (p : Checker) (o : ExternalObservation) (pre : Resource) (s : State W)
      → At r p s
      → Active p
      → last_observation s.trace ≡ some o
      → JustDone add_finalizer s.trace
      → Ends r p (exists_stage r p o pre s)
  unfolding exists_stage
  exists_stage-Ends p o pre s h active seen added =
      by_test (Ends r p) (not o.resource_exists && p.should_create) _ _
        (λ both.
          let missing : o.resource_exists ≡ false = ground arith in
          let may : p.should_create ≡ true = ground arith in
          create_stage-Ends p pre s h active may (o, seen, missing) added)
        (λ one.
          late_initialize_stage-Ends p o pre s h active seen (elim (Bool-cases o.resource_exists) [
            | inl there ↦ inl (o, seen, there)
            | inr missing ↦ inr (ground arith)
          ]))

  finalizer_stage-Ends :
      (p : Checker) (o : ExternalObservation) (pre : Resource) (s : State W)
      → At r p s
      → Active p
      → last_observation s.trace ≡ some o
      → JustDone publish s.trace
      → Ends r p (finalizer_stage r p o pre s)
  unfolding finalizer_stage
  finalizer_stage-Ends p o pre s h active seen published =
      search (protocol_rules, exists_stage-Ends)

  pub publish_stage-Ends :
      (p : Checker) (o : ExternalObservation) (pre : Resource) (s : State W)
      → At r p s
      → Active p
      → last_observation s.trace ≡ some o
      → Ends r p (publish_stage r p o pre s)
  unfolding publish_stage
  publish_stage-Ends p o pre s h active seen = search (protocol_rules, finalizer_stage-Ends)
