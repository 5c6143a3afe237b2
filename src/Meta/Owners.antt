-- ===== src/Meta/Owners.antt =====
-- References to objects, and owners. `GetControllerOf` and `ToAPIVersionAndKind` belong to
-- k8s.io/apimachinery: parameters here.
use crossplane_runtime.Base.{
  ◌≡◌, Bool, true, false, not, Option, none, some, List, [], ◌∷◌, Bytes, equal, if◌then◌else◌, ◌⊎◌,
  All,
}
use crossplane_runtime.Meta.{OwnerReference, Object}

-- `corev1.ObjectReference`
pub record ObjectReference : Type 0 where
  pub api_version : Bytes
  pub kind : Bytes
  pub namespace : Bytes
  pub name : Bytes
  pub uid : Bytes

pub record TypedReference : Type 0 where
  pub api_version : Bytes
  pub kind : Bytes
  pub name : Bytes
  pub uid : Bytes

-- The group, version and kind come as what `ToAPIVersionAndKind` makes of them.
unfoldable pub reference_to : Object → Bytes × Bytes → ObjectReference
reference_to o (v, k) = record {
  api_version = v;
  kind = k;
  namespace = o.namespace;
  name = o.name;
  uid = o.uid;
}

unfoldable pub typed_reference_to : Object → Bytes × Bytes → TypedReference
typed_reference_to o (v, k) = record { api_version = v; kind = k; name = o.name; uid = o.uid }

unfoldable pub as_owner : TypedReference → OwnerReference
as_owner r = record {
  api_version = r.api_version;
  kind = r.kind;
  name = r.name;
  uid = r.uid;
  controller = none;
  block_owner_deletion = none;
}

unfoldable pub as_controller : TypedReference → OwnerReference
unfolding as_owner
as_controller r = record (as_owner r) { controller = some true; block_owner_deletion = some true }

-- Namespace and name.
unfoldable pub namespaced_name_of : ObjectReference → Bytes × Bytes
namespaced_name_of r = (r.namespace, r.name)

-- The reference names the managing controller.
abbrev pub controls : OwnerReference → Bool
controls r = elim r.controller [ none ↦ false | some b ↦ b ]

abbrev pub Among : OwnerReference → List OwnerReference → Type 0
Among r [] = ⊥
Among r (x ∷ refs) = (r ≡ x) ⊎ Among r refs

-- `GetControllerOf`: a reference that names the managing controller, if there is one.
pub record ControllerOf : Type 0 where
  pub find : List OwnerReference → Option OwnerReference
  pub find-none :
      (refs : List OwnerReference) → find refs ≡ none → All (λ r. controls r ≡ false) refs
  pub find-some :
      (refs : List OwnerReference) (c : OwnerReference)
      → find refs ≡ some c
      → Among c refs × (controls c ≡ true)

unfoldable pub have_same_controller : ControllerOf → Object → Object → Bool
have_same_controller get a b = elim (get.find a.owner_references) [
  | none ↦ false
  | some ac ↦ elim (get.find b.owner_references) [ none ↦ false | some bc ↦ equal ac.uid bc.uid ]
]

-- The loop of `AddOwnerReference`, and what follows it.
unfoldable pub add_owner_loop : List OwnerReference → OwnerReference → List OwnerReference
add_owner_loop [] r = r ∷ []
add_owner_loop (x ∷ refs) r = if equal x.uid r.uid then r ∷ refs else x ∷ add_owner_loop refs r

unfoldable pub add_owner_reference : Object → OwnerReference → Object
unfolding add_owner_loop
add_owner_reference o r = record o { owner_references = add_owner_loop o.owner_references r }

-- The error, "is already controlled by", with the controller that it names.
pub data AddResult : Type 0 where
  added : Object → AddResult
  already_controlled : OwnerReference → AddResult

unfoldable pub add_controller_reference : ControllerOf → Object → OwnerReference → AddResult
unfolding add_owner_reference
add_controller_reference get o r = elim (get.find o.owner_references) [
  | none ↦ added (add_owner_reference o r)
  | some c ↦
      if not (equal c.uid r.uid) then already_controlled c else added (add_owner_reference o r)
]
