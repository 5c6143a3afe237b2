-- ===== src/Tests/Names.antt =====
-- Runs on short lists of names.
use crossplane_runtime.Base.{◌≡◌, refl, [], ◌∷◌, codes}
use crossplane_runtime.Fieldpath.Segment.{format_uint, digits}
use crossplane_runtime.Reference.Sorted.{sorted, less}
use mathlib.Core.List.Permᴰ
use crossplane_runtime.Names.Stable.{stable_n_and_some_more-Perm}
use crossplane_runtime.Names.{join_names, first_n_and_some_more, stable_n_and_some_more}

test-more :
    stable_n_and_some_more 2 (codes "b" ∷ codes "a" ∷ codes "c" ∷ []) ≡ codes "a, b, and 1 more"
unfolding stable_n_and_some_more first_n_and_some_more join_names format_uint digits sorted less
test-more = refl

-- One name, where one is wanted, comes after a comma.
test-one : first_n_and_some_more 1 (codes "a" ∷ []) ≡ codes ", and a"
unfolding first_n_and_some_more join_names
test-one = refl

stable_n_and_some_more-Perm_example :
    stable_n_and_some_more 2 (codes "b" ∷ codes "a" ∷ codes "c" ∷ [])
    ≡ stable_n_and_some_more 2 (codes "a" ∷ codes "b" ∷ codes "c" ∷ [])
stable_n_and_some_more-Perm_example =
    stable_n_and_some_more-Perm 2 (codes "b" ∷ codes "a" ∷ codes "c" ∷ [])
      (codes "a" ∷ codes "b" ∷ codes "c" ∷ []) (Permᴰ.swap refl refl)
