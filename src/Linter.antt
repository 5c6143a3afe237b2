-- ===== src/Linter.antt =====
-- pkg/parser/linter.go: linters of packages. An error is a value of `E`, and `none` is the nil error.
pub mod Laws
use crossplane_runtime.Base.{Option, none, some, List, [], ◌∷◌, ◌++◌}

-- `Lintable`: what its two getters return.
pub record Lintable (O : Type 0) : Type 0 where
  pub get_meta : List O
  pub get_objects : List O

abbrev pub PackageLinterFn : Type 0 → Type 0 → Type 0
PackageLinterFn O E = Lintable O → Option E

abbrev pub ObjectLinterFn : Type 0 → Type 0 → Type 0
ObjectLinterFn O E = O → Option E

pub record PackageLinter (O E : Type 0) : Type 0 where
  pub pre : List (PackageLinterFn O E)
  pub per_meta : List (ObjectLinterFn O E)
  pub per_object : List (ObjectLinterFn O E)

-- The errors of `Or`; the second one's message joins those of the linters.
pub data OrError (E : Type 0) : Type 0 where
  nil_linter_fn : OrError E
  none_passed : List E → OrError E

-- What follows a check that returned no error.
abbrev pub and_then : {E : Type 0} → Option E → Option E → Option E
and_then (some e) next = some e
and_then none next = next

-- The loop over functions, on one argument.
unfoldable pub fn_loop : {A E : Type 0} → List (A → Option E) → A → Option E
fn_loop [] a = none
fn_loop (fn ∷ fns) a = and_then (fn a) (fn_loop fns a)

module _ {O E : Type 0} where
  unfoldable pub new_package_linter :
      List (PackageLinterFn O E)
      → List (ObjectLinterFn O E)
      → List (ObjectLinterFn O E)
      → PackageLinter O E
  new_package_linter pre per_meta per_object = record {
    pre = pre;
    per_meta = per_meta;
    per_object = per_object;
  }

  unfoldable pub object_loop : List (ObjectLinterFn O E) → List O → Option E
  unfolding fn_loop
  object_loop fns [] = none
  object_loop fns (o ∷ objects) = and_then (fn_loop fns o) (object_loop fns objects)

  unfoldable pub lint : PackageLinter O E → Lintable O → Option E
  unfolding fn_loop object_loop
  lint l pkg =
      and_then (fn_loop l.pre pkg)
        (and_then (object_loop l.per_meta pkg.get_meta) (object_loop l.per_object pkg.get_objects))

  -- The loop of `Or`, with the errors so far; `none` among the linters is a nil function.
  unfoldable pub or_loop : List E → List (Option (ObjectLinterFn O E)) → O → Option (OrError E)
  or_loop errs [] o = some (none_passed errs)
  or_loop errs (none ∷ linters) o = some nil_linter_fn
  or_loop errs (some l ∷ linters) o = elim (l o) [
    | none ↦ none
    | some e ↦ or_loop (errs ++ e ∷ []) linters o
  ]

  unfoldable pub or : List (Option (ObjectLinterFn O E)) → O → Option (OrError E)
  unfolding or_loop
  or linters o = or_loop [] linters o
