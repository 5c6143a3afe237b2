-- ===== src/Tests/Linter.antt =====
-- Linters of numbers.
use crossplane_runtime.Base.{ℕ, ◌≡◌, ◌↔◌, none, some, [], ◌∷◌, All, ltb, if◌then◌else◌}
use crossplane_runtime.Linter.{Lintable, ObjectLinterFn, PackageLinter, lint}
use crossplane_runtime.Linter.Laws.{Accepts, lint-Accepts}

abbrev below : ℕ → ObjectLinterFn ℕ ℕ
below n o = if ltb o n then none else some o

abbrev linter : PackageLinter ℕ ℕ
linter = record { pre = []; per_meta = below 3 ∷ []; per_object = below 9 ∷ below 7 ∷ [] }

abbrev parcel : Lintable ℕ
parcel = record { get_meta = 1 ∷ []; get_objects = 5 ∷ 6 ∷ [] }

lint-Accepts_example : (lint linter parcel ≡ none) ↔ (
    All (λ fn. fn parcel ≡ none) linter.pre
    × Accepts linter.per_meta parcel.get_meta
    × Accepts linter.per_object parcel.get_objects)
lint-Accepts_example = lint-Accepts linter parcel
