-- ===== src/Tests/Managed.antt =====
-- A managed resource whose external resource is a Boolean: whether it exists.
use crossplane_runtime.Base.{
  ℕ, ◌≡◌, refl, Bool, true, false, ◌||◌, none, some, List, [], ◌∷◌, Bytes, codes, equal, map, ◌++◌,
  ◌==◌, if◌then◌else◌,
}
use crossplane_runtime.Errors.{Error, text, foreign, wrapped, multi_error, Kerrors}
use crossplane_runtime.Errors.Laws.{NoConflict}
use crossplane_runtime.Policies
use crossplane_runtime.Policies.{Sets, ManagementAction, ValidateError, should_only_observe}
use crossplane_runtime.Meta.{was_deleted}
use crossplane_runtime.Meta.Maps
use crossplane_runtime.Managed.{
  Resource, ExternalObservation, Reply, get, update, update_status, publish, add_finalizer,
  initialize, resolve_references, connect, observe, create_external, log_change, operation_create,
  update_critical_annotations, disconnect, disconnect_client, Reconciler, state_of, error_of,
}
use crossplane_runtime.Managed.Reconcile.{reconcile, resolver_of, checker_of}
use crossplane_runtime.Managed.Protocol.{Legal, Accounted}
use crossplane_runtime.Managed.Run.{
  policy_in, reconcile-Legal, reconcile-Accounted, reconcile-NoConflict,
}
use crossplane_runtime.Managed.Guarantees.{resolver_in, Reads, reconcile-Reads, got}
use crossplane_runtime.Tests.Meta.{thing, numbers}
use crossplane_runtime.Tests.Policies.{tests}

-- The error number 409 is a conflict, and 404 says that nothing was found.
abbrev has_number : ℕ → Error → Bool
has_number n (wrapped m e) = has_number n e
has_number n (foreign k) = k == n
has_number n (text m) = false
has_number n (multi_error e es) = false

abbrev test_text : Error → Bytes
test_text (wrapped m e) = m ++ codes ": " ++ test_text e
test_text (text m) = m
test_text (foreign k) = codes "library"
test_text (multi_error e es) = codes "errors"

abbrev pub test_kerrors : Kerrors
test_kerrors = record {
  is_conflict = has_number 409;
  is_not_found = has_number 404;
  error_text = test_text;
  is_conflict-wrapped = λ m e. refl;
  is_not_found-wrapped = λ m e. refl;
}

abbrev managed_by : List ManagementAction → Resource
managed_by policies = record {
  object = thing;
  generation = 2;
  conditions = [];
  management_policies = policies;
  deletion_policy = none;
}

abbrev fine : {A : Type 0} → A → Resource → Bool → Reply A Bool
fine a m w = record { error = none; value = a; resource = m; world = w }

abbrev nothing : Resource → Bool → Reply (Unit {0}) Bool
nothing m w = fine tt m w

abbrev test_observation : Bool → ExternalObservation
test_observation there = record {
  resource_exists = there;
  resource_up_to_date = there;
  resource_late_initialized = false;
  connection_details = [];
  diff = [];
}

-- A reconciler for a resource with these policies; `Update` of the status ends in a conflict if asked.
abbrev test_reconciler : List ManagementAction → Bool → Reconciler Bool
test_reconciler policies conflict = record {
  kerrors = test_kerrors;
  time = numbers;
  now = λ w. 100;
  describe = λ e m. codes "invalid";
  policies_enabled = true;
  deterministic_external_name = false;
  creation_grace_period = 30;
  poll_interval = 60;
  poll_interval_hook = λ m n. n;
  client_get = λ w. nothing (managed_by policies) w;
  client_update = nothing;
  client_update_status = λ m w. record {
    error = if conflict then some (foreign 409) else none;
    value = tt;
    resource = m;
    world = w;
  };
  managed_initialize = nothing;
  managed_resolve_references = nothing;
  managed_add_finalizer = nothing;
  managed_remove_finalizer = nothing;
  managed_update_critical_annotations = nothing;
  managed_publish_connection = λ c m w. fine true m w;
  managed_unpublish_connection = λ c m w. nothing m w;
  external_connect = nothing;
  external_disconnect = nothing;
  client_disconnect = nothing;
  external_observe = λ m w. fine (test_observation w) m w;
  external_create =
      λ m w. fine (record { connection_details = []; additional_details = [] }) m true;
  external_update = λ m w. fine (record { connection_details = []; additional_details = [] }) m w;
  external_delete = λ m w. fine (record { additional_details = [] }) m false;
  change_log = λ m t e d w. (none, w);
}

abbrev everything : List ManagementAction
everything = ManagementAction.all ∷ []

abbrev only_observe : List ManagementAction
only_observe = ManagementAction.observe ∷ []

abbrev test_supported : List (ManagementAction → Bool)
test_supported = map (λ p a. Policies.member a p) Policies.default_supported

creates :
    map
      (λ e. e.operation)
      (state_of (
        reconcile
          (test_reconciler everything false)
          tests
          test_supported
          (managed_by [])
          false)).trace
    ≡ disconnect_client
      ∷ disconnect
      ∷ update_status
      ∷ publish
      ∷ update_critical_annotations
      ∷ log_change operation_create
      ∷ create_external
      ∷ update
      ∷ add_finalizer
      ∷ publish
      ∷ observe (test_observation false)
      ∷ connect
      ∷ resolve_references
      ∷ initialize
      ∷ get
      ∷ []
unfolding reconcile Policies.new_resolver equal Maps.is_paused Policies.is_paused
    Policies.with_supported_management_policies Policies.validate was_deleted
    Maps.external_create_incomplete should_only_observe Maps.external_create_succeeded_during
    Policies.should_create
creates = refl

reconcile-Legal_example :
    Legal numbers false
      (policy_in (test_reconciler everything false) tests test_supported false)
      (state_of (
        reconcile
          (test_reconciler everything false)
          tests
          test_supported
          (managed_by [])
          false)).trace
reconcile-Legal_example =
    reconcile-Legal (test_reconciler everything false) tests test_supported (managed_by []) false

reconcile-Accounted_example :
    Accounted numbers
      (state_of (
        reconcile
          (test_reconciler everything false)
          tests
          test_supported
          (managed_by [])
          false)).trace
reconcile-Accounted_example =
    reconcile-Accounted (test_reconciler everything false) tests test_supported (managed_by [])
      false

reconcile-NoConflict_example : NoConflict test_kerrors (
    error_of
      (reconcile (test_reconciler everything true) tests test_supported (managed_by []) false))
reconcile-NoConflict_example =
    reconcile-NoConflict (test_reconciler everything true) tests test_supported (managed_by [])
      false

only_observe-observes :
    should_only_observe tests
      (resolver_in (test_reconciler only_observe false) tests test_supported false)
    ≡ true
unfolding should_only_observe resolver_of Policies.with_supported_management_policies
    Policies.new_resolver
only_observe-observes = refl

reconcile-Reads_example :
    Reads
      (state_of (
        reconcile
          (test_reconciler only_observe false)
          tests
          test_supported
          (managed_by [])
          false)).trace
reconcile-Reads_example =
    reconcile-Reads (test_reconciler only_observe false) tests test_supported (managed_by []) false
      only_observe-observes

no_policy-paused :
    (Maps.is_paused (got (test_reconciler [] false) tests test_supported false).object
      || (policy_in (test_reconciler [] false) tests test_supported false).is_paused)
    ≡ true
unfolding Maps.is_paused checker_of resolver_of Policies.is_paused Policies.new_resolver
    Policies.with_supported_management_policies equal
no_policy-paused = refl
