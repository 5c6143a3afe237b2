-- ===== src/Meta.antt =====
-- pkg/meta/meta.go: the metadata of a Kubernetes object. A getter and a setter of `metav1.Object` are
-- a field of the record; a time is a number of nanoseconds, with 0 for the zero time.
pub mod Owners
pub mod Control
pub mod Finalizers
pub mod Removal
pub mod Unique
pub mod Maps
pub mod Creation
use crossplane_runtime.Base.{
  ℕ, Bool, false, not, ◌≡◌, Option, none, some, List, [], ◌∷◌, Bytes, ◌==◌,
}

-- `metav1.OwnerReference`
pub record OwnerReference : Type 0 where
  pub api_version : Bytes
  pub kind : Bytes
  pub name : Bytes
  pub uid : Bytes
  pub controller : Option Bool
  pub block_owner_deletion : Option Bool

-- A `map[string]string`, of which the first entry of a key counts.
abbrev pub StringMap : Type 0
StringMap = List (Bytes × Bytes)

-- `none` is a nil map, or a nil time.
pub record Object : Type 0 where
  pub name : Bytes
  pub namespace : Bytes
  pub uid : Bytes
  pub owner_references : List OwnerReference
  pub finalizers : List Bytes
  pub labels : Option StringMap
  pub annotations : Option StringMap
  pub creation_timestamp : ℕ
  pub deletion_timestamp : Option ℕ

unfoldable pub was_deleted : Object → Bool
was_deleted o = elim o.deletion_timestamp [ none ↦ false | some t ↦ not (t == 0) ]

unfoldable pub was_created : Object → Bool
was_created o = not (o.creation_timestamp == 0)
