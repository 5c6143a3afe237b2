-- ===== src/Managed.antt =====
-- pkg/reconciler/managed/reconciler.go: what a `Reconciler` works with. The interfaces that it calls
-- (the Kubernetes client, the external client and connector, the hooks) are functions of the record
-- `Reconciler`: each takes the managed resource and the world outside, and gives back both, as a call
-- may write to either, with an error or a value. All that is called goes into a trace, newest first.
-- Contexts, logs, Kubernetes events and metrics are output that nothing here reads.
pub mod Reconcile
pub mod Protocol
pub mod Attempt
pub mod Deletion
pub mod Creation
pub mod Observation
pub mod Run
pub mod Guarantees
use crossplane_runtime.Base.{
  ℕ, Bool, true, false, not, Option, none, some, List, [], ◌∷◌, Bytes, codes, if◌then◌else◌,
}
use crossplane_runtime.Errors.{Error, Kerrors, Requeue, wrap, text}
use crossplane_runtime.Condition.{Condition, Conditions, mark_conditions}
use crossplane_runtime.Policies.{ManagementAction, DeletionPolicy, ValidateError}
use crossplane_runtime.Meta.{Object, StringMap}
use crossplane_runtime.Meta.Maps.{Rfc3339}

-- `resource.Managed`; a `resource.LegacyManaged` has a deletion policy.
pub record Resource : Type 0 where
  pub object : Object
  pub generation : ℕ
  pub conditions : Conditions
  pub management_policies : List ManagementAction
  pub deletion_policy : Option DeletionPolicy

-- `ExternalObservation`
pub record ExternalObservation : Type 0 where
  pub resource_exists : Bool
  pub resource_up_to_date : Bool
  pub resource_late_initialized : Bool
  pub connection_details : StringMap
  pub diff : Bytes

-- `ExternalCreation`, `ExternalUpdate`
pub record ExternalCreation : Type 0 where
  pub connection_details : StringMap
  pub additional_details : StringMap

pub record ExternalUpdate : Type 0 where
  pub connection_details : StringMap
  pub additional_details : StringMap

pub record ExternalDelete : Type 0 where
  pub additional_details : StringMap

-- What an interface gives back.
pub record Reply (A W : Type 0) : Type 0 where
  pub error : Option Error
  pub value : A
  pub resource : Resource
  pub world : W

pub data OperationType : Type 0 where
  operation_create operation_update operation_delete : OperationType

-- What is called.
pub data Operation : Type 0 where
  get update update_status : Operation
  unpublish remove_finalizer initialize resolve_references : Operation
  publish add_finalizer update_critical_annotations : Operation
  connect disconnect disconnect_client : Operation
  observe : ExternalObservation → Operation
  create_external update_external delete_external : Operation
  log_change : OperationType → Operation

-- A call: the managed resource as it was passed, and whether no error came back.
pub record Event : Type 0 where
  pub operation : Operation
  pub resource : Resource
  pub succeeded : Bool

abbrev pub Trace : Type 0
Trace = List Event

-- `ManagementPoliciesChecker`, as what its methods return.
pub record Checker : Type 0 where
  pub validation : Option Error
  pub is_paused : Bool
  pub should_only_observe : Bool
  pub should_create : Bool
  pub should_late_initialize : Bool
  pub should_update : Bool
  pub should_delete : Bool

-- `Reconciler`
pub record Reconciler (W : Type 0) : Type 0 where
  pub kerrors : Kerrors
  pub time : Rfc3339
  -- `time.Now()`
  pub now : W → ℕ
  -- The text of an error of `Validate`.
  pub describe : ValidateError → List ManagementAction → Bytes
  pub policies_enabled : Bool
  pub deterministic_external_name : Bool
  pub creation_grace_period : ℕ
  pub poll_interval : ℕ
  pub poll_interval_hook : Resource → ℕ → ℕ
  -- `client`
  pub client_get : W → Reply (Unit {0}) W
  pub client_update : Resource → W → Reply (Unit {0}) W
  pub client_update_status : Resource → W → Reply (Unit {0}) W
  -- `managed`
  pub managed_initialize : Resource → W → Reply (Unit {0}) W
  pub managed_resolve_references : Resource → W → Reply (Unit {0}) W
  pub managed_add_finalizer : Resource → W → Reply (Unit {0}) W
  pub managed_remove_finalizer : Resource → W → Reply (Unit {0}) W
  pub managed_update_critical_annotations : Resource → W → Reply (Unit {0}) W
  pub managed_publish_connection : StringMap → Resource → W → Reply Bool W
  pub managed_unpublish_connection : StringMap → Resource → W → Reply (Unit {0}) W
  -- `external`, and the client that it connects to
  pub external_connect : Resource → W → Reply (Unit {0}) W
  pub external_disconnect : Resource → W → Reply (Unit {0}) W
  pub client_disconnect : Resource → W → Reply (Unit {0}) W
  pub external_observe : Resource → W → Reply ExternalObservation W
  pub external_create : Resource → W → Reply ExternalCreation W
  pub external_update : Resource → W → Reply ExternalUpdate W
  pub external_delete : Resource → W → Reply ExternalDelete W
  -- `change`: the resource before the operation, its kind, its error and its details
  pub change_log : Resource → OperationType → Option Error → StringMap → W → Option Error × W

-- A run of `Reconcile`, part of the way: the resource in memory, the world, and what was called.
pub record State (W : Type 0) : Type 0 where
  pub resource : Resource
  pub world : W
  pub trace : Trace

-- What `Reconcile` returns, and the state that it leaves.
pub data Exit (W : Type 0) : Type 0 where
  exited : Requeue → Option Error → State W → Exit W

abbrev pub result_of : {W : Type 0} → Exit W → Requeue
result_of (exited result error state) = result

abbrev pub error_of : {W : Type 0} → Exit W → Option Error
error_of (exited result error state) = error

abbrev pub state_of : {W : Type 0} → Exit W → State W
state_of (exited result error state) = state

abbrev pub is_nil : Option Error → Bool
is_nil none = true
is_nil (some e) = false

abbrev pub err_get_managed : Bytes
err_get_managed = codes "cannot get managed resource"

abbrev pub err_update_managed : Bytes
err_update_managed = codes "cannot update managed resource"

abbrev pub err_update_managed_status : Bytes
err_update_managed_status = codes "cannot update managed resource status"

abbrev pub err_update_managed_annotations : Bytes
err_update_managed_annotations = codes "cannot update managed resource annotations"

abbrev pub err_create_incomplete : Bytes
err_create_incomplete =
    codes
      "cannot determine creation result - remove the crossplane.io/external-create-pending annotation if it is safe to proceed"

abbrev pub err_reconcile_connect : Bytes
err_reconcile_connect = codes "connect failed"

abbrev pub err_reconcile_observe : Bytes
err_reconcile_observe = codes "observe failed"

abbrev pub err_reconcile_create : Bytes
err_reconcile_create = codes "create failed"

abbrev pub err_reconcile_update : Bytes
err_reconcile_update = codes "update failed"

abbrev pub err_reconcile_delete : Bytes
err_reconcile_delete = codes "delete failed"

abbrev pub err_external_resource_not_exist : Bytes
err_external_resource_not_exist = codes "external resource does not exist"
