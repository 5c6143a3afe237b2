-- ===== src/Tests/Changes.antt =====
-- An update of a thing's annotations.
use crossplane_runtime.Base.{◌≡◌, refl, false, some, [], ◌∷◌, codes, equal}
use crossplane_runtime.Meta.{Object, StringMap}
use crossplane_runtime.Meta.Maps.{lookup, erase, erase_all}
use crossplane_runtime.Changes.{
  annotation_changed, ignored_annotations, copy_annotations, maps_differ, value_changed,
}
use crossplane_runtime.Changes.Detects.{annotation_changed-Detects}
use crossplane_runtime.Tests.Meta.{thing, begun}

abbrev with : StringMap → Object
with m = record thing { annotations = some m }

-- The annotation of a pending creation is ignored.
test-ignored :
    annotation_changed ignored_annotations
      (record { object_old = some (with []); object_new = some begun })
    ≡ false
unfolding annotation_changed copy_annotations maps_differ value_changed erase_all erase lookup equal
test-ignored = refl

-- One annotation gives way to another with an empty value, which is not noticed.
test-unnoticed :
    annotation_changed ignored_annotations (record {
      object_old = some (with ((codes "b", codes "x") ∷ []));
      object_new = some (with ((codes "a", []) ∷ []));
    })
    ≡ false
unfolding annotation_changed copy_annotations maps_differ value_changed erase_all erase lookup equal
test-unnoticed = refl

annotation_changed-Detects_example :
    lookup (copy_annotations (with ((codes "a", codes "x") ∷ [])).annotations) (codes "a")
    ≡ lookup (copy_annotations (with ((codes "a", codes "x") ∷ [])).annotations) (codes "a")
unfolding annotation_changed copy_annotations maps_differ value_changed erase_all erase lookup equal
annotation_changed-Detects_example =
    annotation_changed-Detects ignored_annotations (with ((codes "a", codes "x") ∷ []))
      (with ((codes "a", codes "x") ∷ [])) (codes "a") (refl, tt) (refl, tt) ((λ e. cc), tt) refl
      refl
