-- ===== src/Changes.antt =====
-- pkg/resource/predicates.go: whether an update of an object changes its desired state. The labels and
-- the generation are compared by predicates of controller-runtime.
pub mod Detects
use crossplane_runtime.Base.{
  Bool, true, false, not, ◌||◌, Option, none, some, List, [], ◌∷◌, Bytes, codes, equal, length,
  ◌==◌, if◌then◌else◌,
}
use crossplane_runtime.Meta.{Object, StringMap}
use crossplane_runtime.Meta.Maps.{
  lookup, erase_all, read, value_or, key_external_create_failed, key_external_create_pending,
}

-- `event.UpdateEvent`; `none` is a nil object.
pub record UpdateEvent : Type 0 where
  pub object_old : Option Object
  pub object_new : Option Object

-- A map as Go holds it, with one entry for each key; a nil map has none.
unfoldable pub copy_annotations : Option StringMap → StringMap
copy_annotations none = []
copy_annotations (some an) = an

-- The loop over the new annotations: a missing key of the old ones reads as the empty text.
unfoldable pub value_changed : StringMap → StringMap → Bool
unfolding lookup
value_changed [] oa = false
value_changed ((k, v) ∷ na) oa =
    let rest = value_changed na oa in if not (equal (read (some oa) k) v) then true else rest

unfoldable pub maps_differ : StringMap → StringMap → Bool
unfolding value_changed
maps_differ na oa = if not (length na == length oa) then true else value_changed na oa

-- `AnnotationChangedPredicate.Update`, which ignores these keys.
unfoldable pub annotation_changed : List Bytes → UpdateEvent → Bool
unfolding copy_annotations erase_all maps_differ
annotation_changed ignored e = elim e.object_old [
  | none ↦ false
  | some old ↦ elim e.object_new [
    | none ↦ false
    | some new ↦
        maps_differ (erase_all (copy_annotations new.annotations) ignored)
          (erase_all (copy_annotations old.annotations) ignored)
  ]
]

abbrev pub ignored_annotations : List Bytes
ignored_annotations = key_external_create_failed ∷ key_external_create_pending ∷ []

-- `DesiredStateChanged`, of an update.
unfoldable pub desired_state_changed :
    (UpdateEvent → Bool) → (UpdateEvent → Bool) → UpdateEvent → Bool
unfolding annotation_changed
desired_state_changed label_changed generation_changed e =
    annotation_changed ignored_annotations e || (label_changed e || generation_changed e)
