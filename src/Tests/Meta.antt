-- ===== src/Tests/Meta.antt =====
-- Metadata at concrete inputs, with a time that is its own text.
use crossplane_runtime.Base.{
  ℕ, ◌≡◌, refl, sym, ◌∙◌, ap, arith, true, false, not, ◌&&◌, inl, inr, Option, none, some, List, [],
  ◌∷◌, Bytes, codes, equal, ltb, ◌==◌, if◌then◌else◌, All, Bool-cases,
}
use crossplane_runtime.Meta.{OwnerReference, Object}
use crossplane_runtime.Meta.Owners.{
  TypedReference, as_controller, as_owner, controls, Among, ControllerOf, add_owner_reference,
  add_controller_reference,
}
use crossplane_runtime.Meta.Control.{
  owner, owner-add_owner_reference, ControlledBy, Controlled, add_controller_reference-Controlled,
}
use crossplane_runtime.Meta.Finalizers.{finalizer_loop, remove_finalizer}
use crossplane_runtime.Meta.Removal.{UniqueFinalizers}
use crossplane_runtime.Meta.Unique.{without, remove_finalizer-without}
use crossplane_runtime.Meta.Maps.{
  key_external_name, Rfc3339, get_external_create_pending, set_external_create_pending,
  get_external_create_succeeded, set_external_create_succeeded, get_external_create_failed,
  external_create_incomplete,
}
use crossplane_runtime.Meta.Creation.{
  external_create_incomplete-pending, external_create_incomplete-succeeded,
}

abbrev pub parent : TypedReference
parent = record {
  api_version = codes "v1";
  kind = codes "Claim";
  name = codes "mine";
  uid = codes "u1";
}

abbrev pub other : TypedReference
other = record {
  api_version = codes "v1";
  kind = codes "Claim";
  name = codes "yours";
  uid = codes "u2";
}

abbrev pub thing : Object
thing = record {
  name = codes "thing";
  namespace = [];
  uid = codes "u0";
  owner_references = as_owner other ∷ as_controller parent ∷ [];
  finalizers = codes "a" ∷ codes "b" ∷ codes "c" ∷ [];
  labels = none;
  annotations = some ((key_external_name, codes "old") ∷ []);
  creation_timestamp = 3;
  deletion_timestamp = none;
}

-- A finalizer that is there twice makes `RemoveFinalizer` slice out of range.
twice :
    remove_finalizer (record thing { finalizers = codes "b" ∷ codes "b" ∷ [] }) (codes "b") ≡ none
unfolding remove_finalizer equal
twice = refl

b_removed :
    remove_finalizer thing (codes "b")
    ≡ some (record thing { finalizers = codes "a" ∷ codes "c" ∷ [] })
unfolding remove_finalizer equal
b_removed = refl

thing-UniqueFinalizers : UniqueFinalizers thing.finalizers
unfolding finalizer_loop equal
thing-UniqueFinalizers = (refl, (refl, (refl, tt)))

remove_finalizer-without_example :
    remove_finalizer thing (codes "b")
    ≡ some (record thing { finalizers = without (codes "b") thing.finalizers })
remove_finalizer-without_example = remove_finalizer-without thing (codes "b") thing-UniqueFinalizers

owner-add_owner_reference_example :
    owner (add_owner_reference thing (as_controller other)).owner_references (codes "u1") ≡ (
      if equal (as_controller other).uid (codes "u1")
      then some (as_controller other)
      else owner thing.owner_references (codes "u1"))
owner-add_owner_reference_example =
    owner-add_owner_reference thing (as_controller other) (codes "u1")

-- The first reference that names the managing controller.
abbrev first_controller : List OwnerReference → Option OwnerReference
first_controller [] = none
first_controller (x ∷ refs) = if controls x then some x else first_controller refs

pub first_controller-none :
    (refs : List OwnerReference) → first_controller refs ≡ none → All (λ r. controls r ≡ false) refs
first_controller-none [] h = tt
first_controller-none (x ∷ refs) h = elim (Bool-cases (controls x)) [
  | inl held ↦ absurd (let bad = rw held at h in cc)
  | inr free ↦ (free, first_controller-none refs (rw free at h))
]

pub first_controller-some :
    (refs : List OwnerReference) (c : OwnerReference)
    → first_controller refs ≡ some c
    → Among c refs × (controls c ≡ true)
first_controller-some [] c h = absurd (let bad = h in cc)
first_controller-some (x ∷ refs) c h = elim (Bool-cases (controls x)) [
  | inl held ↦
      let same : x ≡ c = (let e = rw held at h in cc) in
      (inl (sym same), ap controls (sym same) ∙ held)
  | inr free ↦ let (among, held) = first_controller-some refs c (rw free at h) in (inr among, held)
]

abbrev pub controller_of : ControllerOf
controller_of = record {
  find = first_controller;
  find-none = first_controller-none;
  find-some = first_controller-some;
}

thing-ControlledBy : ControlledBy (codes "u1") thing.owner_references
unfolding as_owner as_controller
thing-ControlledBy = (λ c. absurd (let bad = c in cc), (λ c. refl, tt))

add_controller_reference-Controlled_example :
    Controlled thing
      (as_controller other)
      (add_controller_reference controller_of thing (as_controller other))
add_controller_reference-Controlled_example =
    add_controller_reference-Controlled controller_of thing (as_controller other) (codes "u1")
      thing-ControlledBy

abbrev pub read_time : Bytes → Option ℕ
read_time [] = none
read_time (t ∷ rest) = some t

abbrev pub numbers : Rfc3339
numbers = record {
  format = λ t. t ∷ [];
  parse = read_time;
  read_back = λ t. t;
  parse-format = λ t. refl;
  parse-empty = refl;
}

external_create_incomplete-pending_example :
    external_create_incomplete numbers (set_external_create_pending numbers thing 8) ≡ (
      not (8 == 0)
      && (ltb (get_external_create_succeeded numbers thing) 8
          && ltb (get_external_create_failed numbers thing) 8))
external_create_incomplete-pending_example = external_create_incomplete-pending numbers thing 8

abbrev pub begun : Object
begun = record thing {
  annotations = some ((codes "crossplane.io/external-create-pending", 8 ∷ []) ∷ []);
}

external_create_incomplete-succeeded_example :
    external_create_incomplete numbers (set_external_create_succeeded numbers begun 9) ≡ false
external_create_incomplete-succeeded_example =
    external_create_incomplete-succeeded numbers begun 9
      (unfold get_external_create_pending equal in omega arith)
