-- ===== src/Names.antt =====
-- pkg/resource/resource.go: the first names of a list, and how many more there are. A limit that is
-- not positive is zero here: the code treats all of these alike.
pub mod Stable
use crossplane_runtime.Base.{
  ℕ, ◌-◌, ◌==◌, ltb, List, [], ◌∷◌, ◌++◌, Bytes, codes, length, take, drop, if◌then◌else◌,
}
use crossplane_runtime.Fieldpath.Segment.{format_uint}
use crossplane_runtime.Reference.Sorted.{sorted}

-- `strings.Join(names, ", ")`
unfoldable pub join_names : List Bytes → Bytes
join_names [] = []
join_names (x ∷ []) = x
join_names (x ∷ y ∷ names) = x ++ codes ", " ++ join_names (y ∷ names)

-- `names[n-1]`, where `n` is the length.
abbrev pub only_name : List Bytes → Bytes
only_name [] = []
only_name (x ∷ names) = x

unfoldable pub first_n_and_some_more : ℕ → List Bytes → Bytes
unfolding join_names format_uint
first_n_and_some_more n names =
    if n == 0
    then format_uint (length names)
    else if ltb n (length names)
    then join_names (take n names)
      ++ codes ", and "
      ++ format_uint (length names - n)
      ++ codes " more"
    else if length names == n
    then join_names (take (n - 1) names) ++ codes ", and " ++ only_name (drop (n - 1) names)
    else join_names names

-- `StableNAndSomeMore`, which sorts a copy.
unfoldable pub stable_n_and_some_more : ℕ → List Bytes → Bytes
unfolding first_n_and_some_more sorted
stable_n_and_some_more n names = first_n_and_some_more n (sorted names)
