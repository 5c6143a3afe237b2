-- ===== src/Meta/Finalizers.antt =====
-- Finalizers. `RemoveFinalizer` shifts the array that it ranges over: the model keeps the array and
-- the length of the slice `f` apart.
use crossplane_runtime.Base.{
  ℕ, zero, suc, ◌+◌, ◌-◌, Bool, true, false, Option, none, some, List, [], ◌∷◌, ◌++◌, Bytes, equal,
  length, take, drop, leb, if◌then◌else◌,
}
use crossplane_runtime.Meta.{Object}

-- The loop that `AddFinalizer` and `FinalizerExists` share.
unfoldable pub finalizer_loop : List Bytes → Bytes → Bool
finalizer_loop [] finalizer = false
finalizer_loop (e ∷ f) finalizer = if equal e finalizer then true else finalizer_loop f finalizer

unfoldable pub finalizer_exists : Object → Bytes → Bool
unfolding finalizer_loop
finalizer_exists o finalizer = finalizer_loop o.finalizers finalizer

unfoldable pub add_finalizer : Object → Bytes → Object
unfolding finalizer_loop
add_finalizer o finalizer =
    if finalizer_loop o.finalizers finalizer
    then o
    else record o { finalizers = o.finalizers ++ finalizer ∷ [] }

-- The array after `append(f[:i], f[i+1:]...)`, where `f` has the length `n`.
abbrev pub shifted : ℕ → List Bytes → ℕ → List Bytes
shifted i array n = take i array ++ (take (n - (i + 1)) (drop (i + 1) array) ++ drop (n - 1) array)

-- One round, at index `i`: the array and the length of `f`, or a panic, as `f[i+1:]` is out of range.
abbrev pub remove_at : Bytes → ℕ → List Bytes × ℕ → Bytes → Option (List Bytes × ℕ)
remove_at finalizer i (array, n) e =
    if equal e finalizer
    then (if leb (i + 1) n then some (shifted i array n, n - 1) else none)
    else some (array, n)

abbrev pub remove_round : Bytes → ℕ → List Bytes × ℕ → Option (List Bytes × ℕ)
remove_round finalizer i (array, n) = elim (drop i array) [
  | [] ↦ some (array, n)
  | e ∷ rest ↦ remove_at finalizer i (array, n) e
]

-- The rounds from index `i`; the range is that of the array as it was at the start.
unfoldable pub remove_loop : ℕ → Bytes → ℕ → List Bytes × ℕ → Option (List Bytes × ℕ)
remove_loop zero finalizer i s = some s
remove_loop (suc rounds) finalizer i s = elim (remove_round finalizer i s) [
  | none ↦ none
  | some t ↦ remove_loop rounds finalizer (i + 1) t
]

-- `none` is the panic.
unfoldable pub remove_finalizer : Object → Bytes → Option Object
unfolding remove_loop
remove_finalizer o finalizer =
    elim (remove_loop (length o.finalizers) finalizer 0 (o.finalizers, length o.finalizers)) [
      | none ↦ none
      | some (array, n) ↦ some (record o { finalizers = take n array })
    ]
