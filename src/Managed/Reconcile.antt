-- ===== src/Managed/Reconcile.antt =====
-- `Reconciler.Reconcile` of pkg/reconciler/managed/reconciler.go, cut where it returns early: each
-- stage ends by running the next one.
use crossplane_runtime.Base.{
  ℕ, Bool, true, false, not, ◌&&◌, ◌||◌, Option, none, some, List, [], ◌∷◌, if◌then◌else◌,
}
use crossplane_runtime.Errors.{
  Error, text, wrapped, wrap, Requeue, requeue_now, no_requeue, silently_requeue_on_conflict,
  ignore_not_found,
}
use crossplane_runtime.Condition.{
  Condition, mark_conditions, creating, deleting, reconcile_success, reconcile_error,
  reconcile_paused,
}
use crossplane_runtime.Policies
use crossplane_runtime.Policies.{Sets, Resolver, DeletionPolicy, ValidateError, valid, invalid}
use crossplane_runtime.Meta.{Object, was_deleted, StringMap}
use crossplane_runtime.Meta.Maps
use crossplane_runtime.Meta.Maps.{
  set_external_create_pending, set_external_create_succeeded, set_external_create_failed,
  external_create_incomplete, external_create_succeeded_during,
}
use crossplane_runtime.Managed.{
  Resource, ExternalObservation, ExternalCreation, Reply, OperationType, operation_create,
  operation_update, operation_delete, Operation, get, update, update_status, unpublish,
  remove_finalizer, initialize, resolve_references, publish, add_finalizer,
  update_critical_annotations, connect, disconnect, disconnect_client, observe, create_external,
  update_external, delete_external, log_change, Checker, Reconciler, State, Exit, exited, result_of,
  error_of, state_of, is_nil, err_get_managed, err_update_managed, err_update_managed_status,
  err_update_managed_annotations, err_create_incomplete, err_reconcile_connect,
  err_reconcile_observe, err_reconcile_create, err_reconcile_update, err_reconcile_delete,
  err_external_resource_not_exist,
}

module _ {W : Type 0} (r : Reconciler W) where
  abbrev pub now_in : State W → ℕ
  now_in s = r.now s.world

  -- The state after a call.
  abbrev pub after : {A : Type 0} → Operation → Bool → Reply A W → State W → State W
  after op ok a s = record {
    resource = a.resource;
    world = a.world;
    trace = record { operation = op; resource = s.resource; succeeded = ok } ∷ s.trace;
  }

  -- A call, with what follows an error and what follows success.
  unfoldable pub attempt :
      {A : Type 0}
      → (A → Operation)
      → (Resource → W → Reply A W)
      → (Error → A → State W → Exit W)
      → (A → State W → Exit W)
      → State W
      → Exit W
  attempt op call failed next s =
      let a = call s.resource s.world in
      elim a.error [
        | some e ↦ failed e a.value (after (op a.value) false a s)
        | none ↦ next a.value (after (op a.value) true a s)
      ]

  -- A call whose error is only logged.
  unfoldable pub ignoring : Operation → (Resource → W → Reply (Unit {0}) W) → State W → State W
  ignoring op call s = let a = call s.resource s.world in after op (is_nil a.error) a s

  -- `r.change.Log`, whose error is only logged too.
  unfoldable pub log : OperationType → Resource → Option Error → StringMap → State W → State W
  log t pre err details s =
      let (e, w) = r.change_log pre t err details s.world in
      record s {
        world = w;
        trace = record { operation = log_change t; resource = pre; succeeded = is_nil e } ∷ s.trace;
      }

  abbrev pub with_object : (Object → Object) → State W → State W
  with_object f s = record s { resource = record s.resource { object = f s.resource.object } }

  -- `status.MarkConditions`
  unfoldable pub mark : List Condition → State W → State W
  mark conditions s = record s {
    resource = record s.resource {
      conditions = mark_conditions s.resource.generation s.resource.conditions conditions;
    };
  }

  unfoldable pub exit_with : Requeue → Option Error → State W → Exit W
  exit_with result error s = exited result error s

  -- `return result, errors.Wrap(r.client.Status().Update(ctx, managed), errUpdateManagedStatus)`
  unfoldable pub return_status : Requeue → State W → Exit W
  unfolding exit_with
  return_status result s =
      let a = r.client_update_status s.resource s.world in
      exit_with result (wrap a.error err_update_managed_status)
        (after update_status (is_nil a.error) a s)

  -- `MarkConditions`, and then the status.
  unfoldable pub report : Requeue → List Condition → State W → Exit W
  unfolding mark return_status
  report result conditions s = return_status result (mark conditions s)

  -- What most failures lead to: a conflict requeues, any other error is reported.
  unfoldable pub report_unless_conflict : Error → List Condition → State W → Exit W
  unfolding report exit_with
  report_unless_conflict e conditions s =
      if r.kerrors.is_conflict e
      then exit_with requeue_now none s
      else report requeue_now conditions s

  abbrev pub error_in : Error → State W → Condition
  error_in e s = reconcile_error (r.kerrors.error_text e) (now_in s)

  abbrev pub poll : State W → Requeue
  poll s = record {
    requeue = false;
    requeue_after = r.poll_interval_hook s.resource r.poll_interval;
  }

  abbrev pub report_success : State W → Exit W
  report_success s = report (poll s) (reconcile_success (now_in s) ∷ []) s

  -- `external.Update`, and what follows.
  unfoldable pub update_stage : Resource → State W → Exit W
  unfolding attempt log report
  update_stage pre s =
      attempt (λ u. update_external) r.external_update
        (λ e u s.
          let s = log operation_update pre (some e) u.additional_details s in
          report requeue_now (error_in (wrapped err_reconcile_update e) s ∷ []) s)
        (λ u s.
          attempt (λ b. publish) (r.managed_publish_connection u.connection_details)
            (λ e b s. report requeue_now (error_in e s ∷ []) s) (λ b s. report_success s)
            (log operation_update pre none u.additional_details s))
        s

  unfoldable pub up_to_date_stage : Checker → ExternalObservation → Resource → State W → Exit W
  unfolding update_stage report
  up_to_date_stage policy o pre s =
      if o.resource_up_to_date
      then report_success s
      else if not policy.should_update
      then report_success s
      else update_stage pre s

  unfoldable pub late_initialize_stage : Checker → ExternalObservation → Resource → State W → Exit W
  unfolding up_to_date_stage attempt report
  late_initialize_stage policy o pre s =
      if o.resource_late_initialized && policy.should_late_initialize
      then attempt (λ u. update) r.client_update
          (λ e u s. report requeue_now (error_in (wrapped err_update_managed e) s ∷ []) s)
          (λ u s. up_to_date_stage policy o pre s) s
      else up_to_date_stage policy o pre s

  -- `external.Create` has failed.
  unfoldable pub create_failed : Resource → Error → ExternalCreation → State W → Exit W
  unfolding ignoring log report
  create_failed pre e c s =
      let failed = with_object (λ o. set_external_create_failed r.time o (now_in s)) s in
      let tried =
        ignoring update_critical_annotations r.managed_update_critical_annotations failed in
      let logged = log operation_create pre (some e) c.additional_details tried in
      report requeue_now
        (creating (now_in logged) ∷ error_in (wrapped err_reconcile_create e) logged ∷ []) logged

  -- `external.Create` has succeeded.
  unfoldable pub create_succeeded : Resource → ExternalCreation → State W → Exit W
  unfolding log attempt report report_unless_conflict
  create_succeeded pre c s =
      let logged = log operation_create pre none c.additional_details s in
      attempt (λ u. update_critical_annotations) r.managed_update_critical_annotations
        (λ e u s.
          report_unless_conflict e
            (creating (now_in s) ∷ error_in (wrapped err_update_managed_annotations e) s ∷ []) s)
        (λ u s.
          attempt (λ b. publish) (r.managed_publish_connection c.connection_details)
            (λ e b s. report_unless_conflict e (creating (now_in s) ∷ error_in e s ∷ []) s)
            (λ b s. report requeue_now (creating (now_in s) ∷ reconcile_success (now_in s) ∷ []) s)
            s)
        (with_object (λ o. set_external_create_succeeded r.time o (now_in logged)) logged)

  unfoldable pub create_stage : Resource → State W → Exit W
  unfolding attempt create_failed create_succeeded report_unless_conflict
  create_stage pre s =
      attempt (λ u. update) r.client_update
        (λ e u s.
          report_unless_conflict e
            (creating (now_in s) ∷ error_in (wrapped err_update_managed e) s ∷ []) s)
        (λ u s.
          attempt (λ c. create_external) r.external_create (create_failed pre)
            (create_succeeded pre) s)
        (with_object (λ o. set_external_create_pending r.time o (now_in s)) s)

  unfoldable pub exists_stage : Checker → ExternalObservation → Resource → State W → Exit W
  unfolding create_stage late_initialize_stage
  exists_stage policy o pre s =
      if not o.resource_exists && policy.should_create
      then create_stage pre s
      else late_initialize_stage policy o pre s

  unfoldable pub finalizer_stage : Checker → ExternalObservation → Resource → State W → Exit W
  unfolding attempt exists_stage report_unless_conflict
  finalizer_stage policy o pre s =
      attempt (λ u. add_finalizer) r.managed_add_finalizer
        (λ e u s. report_unless_conflict e (error_in e s ∷ []) s)
        (λ u s. exists_stage policy o pre s) s

  unfoldable pub publish_stage : Checker → ExternalObservation → Resource → State W → Exit W
  unfolding attempt finalizer_stage report_unless_conflict
  publish_stage policy o pre s =
      attempt (λ b. publish) (r.managed_publish_connection o.connection_details)
        (λ e b s. report_unless_conflict e (error_in e s ∷ []) s)
        (λ b s. finalizer_stage policy o pre s) s

  -- Unpublish the connection details and remove the finalizer, when nothing is left to delete.
  unfoldable pub finalize : StringMap → State W → Exit W
  unfolding attempt report_unless_conflict exit_with
  finalize details s =
      attempt (λ u. unpublish) (r.managed_unpublish_connection details)
        (λ e u s. report_unless_conflict e (deleting (now_in s) ∷ error_in e s ∷ []) s)
        (λ u s.
          attempt (λ u. remove_finalizer) r.managed_remove_finalizer
            (λ e u s. report_unless_conflict e (deleting (now_in s) ∷ error_in e s ∷ []) s)
            (λ u s. exit_with no_requeue none s) s)
        s

  unfoldable pub delete_stage : Checker → ExternalObservation → Resource → State W → Exit W
  unfolding attempt log report finalize
  delete_stage policy o pre s =
      if o.resource_exists && policy.should_delete
      then attempt (λ d. delete_external) r.external_delete
          (λ e d s.
            let s = log operation_delete pre (some e) d.additional_details s in
            report requeue_now
              (deleting (now_in s) ∷ error_in (wrapped err_reconcile_delete e) s ∷ []) s)
          (λ d s.
            let s = log operation_delete pre none d.additional_details s in
            report requeue_now (deleting (now_in s) ∷ reconcile_success (now_in s) ∷ []) s)
          s
      else finalize o.connection_details s

  -- What `Reconcile` does with an observation.
  unfoldable pub observed_stage : Checker → ExternalObservation → State W → Exit W
  unfolding report exit_with delete_stage publish_stage
  observed_stage policy o s =
      if not o.resource_exists && policy.should_only_observe
      then report requeue_now
          (error_in (wrapped err_reconcile_observe (text err_external_resource_not_exist)) s ∷ []) s
      else if not o.resource_exists
          && external_create_succeeded_during r.time (now_in s) s.resource.object
              r.creation_grace_period
      then exit_with requeue_now none s
      else if was_deleted s.resource.object
      then delete_stage policy o s.resource s
      else publish_stage policy o s.resource s

  unfoldable pub observe_stage : Checker → State W → Exit W
  unfolding attempt observed_stage report_unless_conflict
  observe_stage policy s =
      attempt observe r.external_observe
        (λ e o s. report_unless_conflict e (error_in (wrapped err_reconcile_observe e) s ∷ []) s)
        (λ o s. observed_stage policy o s) s

  -- The deferred calls, whose errors are only logged; they come after the status was returned.
  unfoldable pub disconnecting : Exit W → Exit W
  unfolding ignoring
  disconnecting (exited result error s) =
      exited result error (
        ignoring disconnect_client r.client_disconnect
          (ignoring disconnect r.external_disconnect s))

  unfoldable pub connect_stage : Checker → State W → Exit W
  unfolding attempt disconnecting observe_stage report_unless_conflict
  connect_stage policy s =
      attempt (λ u. connect) r.external_connect
        (λ e u s. report_unless_conflict e (error_in (wrapped err_reconcile_connect e) s ∷ []) s)
        (λ u s. disconnecting (observe_stage policy s)) s

  unfoldable pub resolve_stage : Checker → State W → Exit W
  unfolding attempt connect_stage report_unless_conflict
  resolve_stage policy s =
      if not (was_deleted s.resource.object)
      then attempt (λ u. resolve_references) r.managed_resolve_references
          (λ e u s. report_unless_conflict e (error_in e s ∷ []) s) (λ u s. connect_stage policy s)
          s
      else connect_stage policy s

  unfoldable pub incomplete_stage : Checker → State W → Exit W
  unfolding report resolve_stage
  incomplete_stage policy s =
      if external_create_incomplete r.time s.resource.object && not r.deterministic_external_name
      then report no_requeue (creating (now_in s) ∷ error_in (text err_create_incomplete) s ∷ []) s
      else resolve_stage policy s

  unfoldable pub initialize_stage : Checker → State W → Exit W
  unfolding attempt incomplete_stage report_unless_conflict
  initialize_stage policy s =
      attempt (λ u. initialize) r.managed_initialize
        (λ e u s. report_unless_conflict e (error_in e s ∷ []) s) (λ u s. incomplete_stage policy s)
        s

  unfoldable pub orphan_stage : Checker → State W → Exit W
  unfolding finalize initialize_stage
  orphan_stage policy s =
      if was_deleted s.resource.object && not policy.should_delete
      then finalize [] s
      else initialize_stage policy s

  -- What follows `policy.Validate()`.
  unfoldable pub validated : Checker → Option Error → State W → Exit W
  unfolding report exit_with orphan_stage
  validated policy none s = orphan_stage policy s
  validated policy (some e) s =
      if r.kerrors.is_conflict e
      then exit_with requeue_now none s
      else report no_requeue (error_in e s ∷ []) s

  unfoldable pub validate_stage : Checker → State W → Exit W
  unfolding validated
  validate_stage policy s = validated policy policy.validation s

  unfoldable pub paused_stage : Checker → State W → Exit W
  unfolding report validate_stage
  paused_stage policy s =
      if Maps.is_paused s.resource.object || policy.is_paused
      then report no_requeue (reconcile_paused (now_in s) ∷ []) s
      else validate_stage policy s

  module _ (S : Sets) (supported : List S.Set) where
    -- `NewManagementPoliciesResolver` with the policies that the reconciler supports.
    unfoldable pub resolver_of : Resource → Resolver S
    resolver_of mg =
        Policies.with_supported_management_policies S supported
          (Policies.new_resolver S r.policies_enabled mg.management_policies)

    abbrev pub validation_of : Resource → Option Error
    validation_of mg = elim (Policies.validate S (resolver_of mg)) [
      | valid ↦ none
      | invalid e ↦ some (text (r.describe e mg.management_policies))
    ]

    abbrev pub deletion_of : Resource → Option DeletionPolicy → Bool
    deletion_of mg none = Policies.should_delete S (resolver_of mg)
    deletion_of mg (some d) = Policies.legacy_should_delete S (resolver_of mg) d

    -- The resolver that the type of the resource calls for.
    unfoldable pub checker_of : Resource → Checker
    unfolding resolver_of
    checker_of mg = record {
      validation = validation_of mg;
      is_paused = Policies.is_paused S (resolver_of mg);
      should_only_observe = Policies.should_only_observe S (resolver_of mg);
      should_create = Policies.should_create S (resolver_of mg);
      should_late_initialize = Policies.should_late_initialize S (resolver_of mg);
      should_update = Policies.should_update S (resolver_of mg);
      should_delete = deletion_of mg mg.deletion_policy;
    }

    -- The body of `Reconcile`, before its deferred function.
    unfoldable pub reconcile_body : State W → Exit W
    unfolding attempt paused_stage checker_of exit_with
    reconcile_body s =
        attempt (λ u. get) (λ new w. r.client_get w)
          (λ e u s.
            exit_with no_requeue (wrap (ignore_not_found r.kerrors (some e)) err_get_managed) s)
          (λ u s. paused_stage (checker_of s.resource) s) s

    -- `new` is what `r.newManaged()` makes.
    unfoldable pub reconcile : Resource → W → Exit W
    unfolding reconcile_body
    reconcile new w =
        let x = reconcile_body (record { resource = new; world = w; trace = [] }) in
        let (result, error) = silently_requeue_on_conflict r.kerrors (result_of x) (error_of x) in
        exited result error (state_of x)
