-- ===== src/Managed/Protocol.antt =====
-- The order of calls that a run of `Reconcile` is to keep, stated on its trace alone: when each call
-- is permitted after the calls before it.
use crossplane_runtime.Base.{
  ◌≡◌, ◌⊎◌, Bool, true, false, not, Bytes, ◌&&◌, Option, none, some, [], ◌∷◌, ℕ, if◌then◌else◌,
}
use crossplane_runtime.Meta.{was_deleted}
use crossplane_runtime.Meta.Maps.{
  annotation, key_external_create_pending, key_external_create_succeeded,
  key_external_create_failed, external_create_incomplete, Rfc3339,
}
use crossplane_runtime.Managed.{
  Resource, ExternalObservation, Operation, get, update, update_status, unpublish, remove_finalizer,
  initialize, resolve_references, publish, add_finalizer, update_critical_annotations, connect,
  disconnect, disconnect_client, observe, create_external, update_external, delete_external,
  log_change, Trace, Checker,
}

abbrev pub observation_of : Operation → Option ExternalObservation
observation_of (observe o) = some o
observation_of _ = none

abbrev pub or_else :
    Option ExternalObservation → Option ExternalObservation → Option ExternalObservation
or_else none o = o
or_else (some x) o = some x

-- What the external resource was last observed to be.
abbrev pub last_observation : Trace → Option ExternalObservation
last_observation [] = none
last_observation (e ∷ t) =
    or_else (if e.succeeded then observation_of e.operation else none) (last_observation t)

-- The last observation found the external resource, or missed it, or found it out of date.
abbrev pub Found : Trace → Type 0
Found t = (o : ExternalObservation) × (last_observation t ≡ some o) × (o.resource_exists ≡ true)

abbrev pub Missed : Trace → Type 0
Missed t = (o : ExternalObservation) × (last_observation t ≡ some o) × (o.resource_exists ≡ false)

abbrev pub OutOfDate : Trace → Type 0
OutOfDate t =
    (o : ExternalObservation) × (last_observation t ≡ some o) × (o.resource_up_to_date ≡ false)

-- The call just before was this one, and succeeded.
abbrev pub JustDone : Operation → Trace → Type 0
JustDone op [] = ⊥
JustDone op (e ∷ t) = (e.operation ≡ op) × (e.succeeded ≡ true)

-- The call just before stored the resource with an annotation that its creation is pending, and the
-- one before that added the finalizer.
abbrev pub PendingStored : Rfc3339 → Trace → Type 0
PendingStored time [] = ⊥
PendingStored time (e ∷ t) =
    (e.operation ≡ update)
    × (e.succeeded ≡ true)
    × ((n : ℕ) × (annotation e.resource.object key_external_create_pending ≡ time.format n))
    × JustDone add_finalizer t

-- The policy does not pause reconciliation, and it validates.
abbrev pub Active : Checker → Type 0
Active p = (p.is_paused ≡ false) × (p.validation ≡ none)

-- Creation is not left incomplete, unless the external name is deterministic.
abbrev pub Accounts : Rfc3339 → Bool → Resource → Type 0
Accounts time det m = (external_create_incomplete time m.object && not det) ≡ false

-- When a call of the operation, with the resource, is permitted after these calls.
abbrev pub Permitted : Rfc3339 → Bool → Checker → Operation → Resource → Trace → Type 0
Permitted time det p create_external m t =
    (p.should_create ≡ true) × Missed t × PendingStored time t
Permitted time det p delete_external m t =
    (p.should_delete ≡ true) × Found t × (was_deleted m.object ≡ true)
Permitted time det p update_external m t =
    (p.should_update ≡ true) × OutOfDate t × (Found t ⊎ (p.should_create ≡ false))
Permitted time det p unpublish m t =
    Active p × (was_deleted m.object ≡ true) × ((p.should_delete ≡ false) ⊎ Missed t)
Permitted time det p remove_finalizer m t = JustDone unpublish t
Permitted time det p initialize m t = Active p
Permitted time det p resolve_references m t = (was_deleted m.object ≡ false) × Accounts time det m
Permitted time det p connect m t =
    Active p
    × (JustDone resolve_references t ⊎ ((was_deleted m.object ≡ true) × Accounts time det m))
Permitted time det p (observe o) m t = JustDone connect t
Permitted time det p get m t = t ≡ []
Permitted time det p update m t = Active p
Permitted time det p update_status m t = Unit
Permitted time det p publish m t = Active p
Permitted time det p add_finalizer m t = JustDone publish t
Permitted time det p update_critical_annotations m t = p.should_create ≡ true
Permitted time det p disconnect m t = Active p
Permitted time det p disconnect_client m t = Active p
Permitted time det p (log_change o) m t = Active p

-- Every call was permitted when it was made.
abbrev pub Legal : Rfc3339 → Bool → Checker → Trace → Type 0
Legal time det p [] = Unit
Legal time det p (e ∷ t) = Permitted time det p e.operation e.resource t × Legal time det p t

-- The annotation that records the outcome of a creation, which succeeded or not.
abbrev pub outcome_key : Bool → Bytes
outcome_key true = key_external_create_succeeded
outcome_key false = key_external_create_failed

-- The resource has the annotation of this outcome, with a time.
abbrev pub Outcome : Rfc3339 → Bool → Resource → Type 0
Outcome time ok m = (n : ℕ) × (annotation m.object (outcome_key ok) ≡ time.format n)

-- The calls before an update of the critical annotations, if one is supplied with its resource, or
-- all calls: from the last one back, such an update comes after each creation, with nothing between
-- but other calls, and its resource has the annotation of what that creation ended in.
abbrev pub Owed : Rfc3339 → Option Resource → Trace → Type 0
Owed time none [] = Unit
Owed time (some m) [] = ⊥
Owed time x (e ∷ t) = elim e.operation [
  | create_external ↦ elim x [ none ↦ ⊥ | some m ↦ Outcome time e.succeeded m × Owed time none t ]
  | update_critical_annotations ↦ elim x [ none ↦ Owed time (some e.resource) t | some m ↦ ⊥ ]
  | _ ↦ Owed time x t
]

-- After each creation of the external resource, an update was called that is to store its outcome.
abbrev pub Accounted : Rfc3339 → Trace → Type 0
Accounted time t = Owed time none t

-- An operation that neither creates the external resource nor stores the outcome.
abbrev pub quiet : Operation → Bool
quiet create_external = false
quiet update_critical_annotations = false
quiet _ = true
