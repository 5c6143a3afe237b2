-- ===== src/Apply/Secret.antt =====
-- Connection secrets: pkg/resource/resource.go makes one and says who may change it, and
-- pkg/reconciler/managed/api.go publishes connection details in it.
use crossplane_runtime.Base.{
  ◌⊎◌, inl, inr, Bool, true, false, not, Option, none, some, List, [], ◌∷◌, Bytes, codes, equal,
  if◌then◌else◌,
}
use crossplane_runtime.Errors.{Error, Kerrors, wrapped, text}
use crossplane_runtime.Meta.{Object, OwnerReference, StringMap}
use crossplane_runtime.Meta.Owners.{ControllerOf, as_controller, typed_reference_to}
use crossplane_runtime.Apply.Retry.{is_api_error_wrapped, OnError, Tried, apply_with_retry}
use crossplane_runtime.Apply.{
  ApplyError, not_controllable, not_allowed, other_error, is_not_allowed, Accessor, Client, Call,
  ApplyOption, allow_update_if, apply_patching,
}

abbrev pub secret_type_connection : Bytes
secret_type_connection = codes "connection.crossplane.io/v1alpha1"

abbrev pub err_create_or_update_secret : Bytes
err_create_or_update_secret = codes "cannot create or update connection secret"

-- `corev1.Secret`; `none` is the nil map of data.
pub record Secret : Type 0 where
  pub object : Object
  pub generate_name : Bytes
  pub resource_version : Bytes
  pub typ : Bytes
  pub data_of : Option StringMap

abbrev pub secrets : Accessor Secret
secrets = record {
  object = λ s. s.object;
  generate_name = λ s. s.generate_name;
  resource_version = λ s. s.resource_version;
  set_resource_version = λ s v. record s { resource_version = v };
}

-- `resource.ConnectionSecretOwner`, with the name and the namespace of its secret, and `none` for a
-- nil reference.
pub record ConnectionSecretOwner : Type 0 where
  pub object : Object
  pub write_connection_secret_to : Option (Bytes × Bytes)

abbrev owned_object : Bytes → Bytes → OwnerReference → Object
owned_object name namespace owner = record {
  name = name;
  namespace = namespace;
  uid = [];
  owner_references = owner ∷ [];
  finalizers = [];
  labels = none;
  annotations = none;
  creation_timestamp = 0;
  deletion_timestamp = none;
}

-- The group, version and kind of the owner come as what `ToAPIVersionAndKind` makes of them.
unfoldable pub connection_secret_for : Object → Bytes × Bytes → Bytes × Bytes → Secret
unfolding as_controller typed_reference_to
connection_secret_for o (name, namespace) kind = record {
  object = owned_object name namespace (as_controller (typed_reference_to o kind));
  generate_name = [];
  resource_version = [];
  typ = secret_type_connection;
  data_of = some [];
}

unfoldable pub connection_secret_must_be_controllable_by : ControllerOf → Bytes → ApplyOption Secret
connection_secret_must_be_controllable_by c u s desired = (
  elim (c.find s.object.owner_references) [
    | none ↦
        if not (equal s.typ secret_type_connection)
        then some (not_controllable (text (codes "refusing to modify uncontrolled secret of type")))
        else none
    | some owner ↦
        if not (equal owner.uid u)
        then some (not_controllable (text (codes "existing secret is not controlled by UID")))
        else none
  ],
  s,
  desired,
)

-- `runtime.ObjectTyper`: the kinds of an object, and whether it is unversioned.
abbrev pub ObjectTyper : Type 0
ObjectTyper = Object → Error ⊎ (List (Bytes × Bytes) × Bool)

abbrev pub only_kind : List (Bytes × Bytes) → Error ⊎ (Bytes × Bytes)
only_kind (kind ∷ []) = inr kind
only_kind _ = inl (text (codes "supplied object does not have exactly one kind"))

unfoldable pub get_kind : Object → ObjectTyper → Error ⊎ (Bytes × Bytes)
get_kind o ot = elim (ot o) [
  | inl err ↦ inl (wrapped (codes "cannot get kind of supplied object") err)
  | inr (kinds, unversioned) ↦
      if unversioned then inl (text (codes "supplied object is unversioned")) else only_kind kinds
]

abbrev wrap_error : ApplyError → ApplyError
wrap_error (not_controllable e) = other_error (wrapped err_create_or_update_secret e)
wrap_error (not_allowed e) = other_error (wrapped err_create_or_update_secret e)
wrap_error (other_error e) = other_error (wrapped err_create_or_update_secret e)

-- What `PublishConnection` ends in, with the calls of each attempt, the last one first: whether it
-- published, and an error; or the panic of `MustGetKind`.
pub data Published : Type 0 where
  published : Bool → Option ApplyError → List (List (Call Secret)) → Published
  panicked : Published

-- The options of `PublishConnection`; `same` is `cmp.Equal`.
abbrev pub options :
    ControllerOf → (Option StringMap → Option StringMap → Bool) → Bytes → List (ApplyOption Secret)
options c same uid =
    connection_secret_must_be_controllable_by c uid
    ∷ allow_update_if (λ current desired. not (same current.data_of desired.data_of))
    ∷ []

-- The secret that is to be there.
abbrev pub desired_secret :
    ConnectionSecretOwner → Bytes × Bytes → Bytes × Bytes → Option StringMap → Secret
desired_secret o place kind details = record (connection_secret_for o.object place kind) {
  data_of = details;
}

-- What follows `Apply`.
unfoldable pub conclude : {W : Type 0} → Option ApplyError × Tried Secret W → Published
unfolding is_not_allowed
conclude (none, s) = published true none s.attempts
conclude (some err, s) =
    if is_not_allowed (some err)
    then published false none s.attempts
    else published false (some (wrap_error err)) s.attempts

module _ {W : Type 0} (client : Client Secret W) (k : Kerrors) (c : ControllerOf)
    (typer : ObjectTyper) (same : Option StringMap → Option StringMap → Bool)
    (retry : OnError (Tried Secret W)) (is_api_error : Error → Bool) where
  -- The applicator that `NewAPISecretPublisher` makes.
  unfoldable pub secret_apply :
      List (ApplyOption Secret) → Secret → W → Option ApplyError × Tried Secret W
  unfolding apply_patching apply_with_retry is_api_error_wrapped
  secret_apply ao s w =
      apply_with_retry retry (is_api_error_wrapped is_api_error)
        (apply_patching secrets client k ao) s w

  -- `APISecretPublisher.PublishConnection`
  unfoldable pub publish_connection : ConnectionSecretOwner → Option StringMap → W → Published
  unfolding conclude connection_secret_for get_kind connection_secret_must_be_controllable_by
      allow_update_if secret_apply
  publish_connection o details w = elim o.write_connection_secret_to [
    | none ↦ published false none []
    | some place ↦ elim (get_kind o.object typer) [
      | inl err ↦ panicked
      | inr kind ↦
          conclude
            (secret_apply (options c same o.object.uid) (desired_secret o place kind details) w)
    ]
  ]
