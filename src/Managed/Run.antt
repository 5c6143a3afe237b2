-- ===== src/Managed/Run.antt =====
-- A whole run of `Reconcile`.
use crossplane_runtime.Base.{refl, inl, inr, true, List, [], Option-cases}
use crossplane_runtime.Errors.Laws.{NoConflict, silently_requeue_on_conflict-NoConflict}
use crossplane_runtime.Policies.{Sets}
use crossplane_runtime.Managed.{
  Resource, get, Checker, Reconciler, State, result_of, error_of, state_of,
}
use crossplane_runtime.Managed.Reconcile.{
  attempt, after, exit_with, checker_of, reconcile_body, reconcile,
}
use crossplane_runtime.Managed.Protocol.{Legal, Accounted}
use crossplane_runtime.Managed.Attempt.{Ends}
use crossplane_runtime.Managed.Observation.{paused_stage-Ends}

module _ {W : Type 0} (r : Reconciler W) (S : Sets) (supported : List S.Set) where
  -- The policy of the resource that the client gets.
  abbrev pub policy_in : W → Checker
  policy_in w = checker_of r S supported (r.client_get w).resource

  abbrev pub begin : Resource → W → State W
  begin new w = record { resource = new; world = w; trace = [] }

  reconcile_body-Ends :
      (new : Resource) (w : W) → Ends r (policy_in w) (reconcile_body r S supported (begin new w))
  unfolding reconcile_body attempt exit_with
  reconcile_body-Ends new w = elim (Option-cases (r.client_get w).error) [
    | inl e ↦
        rw (e, attempt)
          (paused_stage-Ends r (policy_in w) (after r get true (r.client_get w) (begin new w))
            (record { legal = (refl, tt); accounted = tt }))
    | inr (x, e) ↦ rw (e, attempt) (record { legal_end = (refl, tt); accounted_end = tt })
  ]

  -- Whatever the client, the external system and the hooks do, `Reconcile` keeps the protocol, with
  -- the policy of the resource that it got: each of its calls was permitted after those before it.
  pub reconcile-Legal :
      (new : Resource) (w : W)
      → Legal r.time r.deterministic_external_name
          (policy_in w)
          (state_of (reconcile r S supported new w)).trace
  unfolding reconcile
  reconcile-Legal new w = (reconcile_body-Ends new w).legal_end

  -- After each call of `Create` in a run of `Reconcile` an update of the critical annotations is
  -- called before any other creation, with a resource that has a time as its annotation of success,
  -- where the call succeeded, and as its annotation of failure, where it failed; and no such update is
  -- called without a creation before it.
  pub reconcile-Accounted :
      (new : Resource) (w : W) → Accounted r.time (state_of (reconcile r S supported new w)).trace
  unfolding reconcile
  reconcile-Accounted new w = (reconcile_body-Ends new w).accounted_end

  -- `Reconcile` never returns an error that is a conflict.
  pub reconcile-NoConflict :
      (new : Resource) (w : W) → NoConflict r.kerrors (error_of (reconcile r S supported new w))
  unfolding reconcile
  reconcile-NoConflict new w =
      let x = reconcile_body r S supported (begin new w) in
      silently_requeue_on_conflict-NoConflict r.kerrors (result_of x) (error_of x)
