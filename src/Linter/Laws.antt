-- ===== src/Linter/Laws.antt =====
-- Linters that return no error.
use crossplane_runtime.Base.{
  ◌≡◌, refl, ◌↔◌, ◌⊎◌, inl, inr, Option, none, some, List, [], ◌∷◌, ◌++◌, map, All, Option-cases,
}
use crossplane_runtime.Linter.{
  Lintable, ObjectLinterFn, PackageLinter, and_then, fn_loop, object_loop, lint, or_loop, or,
}

and_then-none : {E : Type 0} (a b : Option E) → (and_then a b ≡ none) ↔ ((a ≡ none) × (b ≡ none))
and_then-none none b = (λ h. (refl, h), λ h. h.1)
and_then-none (some e) b = (λ h. absurd (let bad = h in cc), λ h. absurd (let bad = h.0 in cc))

fn_loop-none :
    {A E : Type 0} (fns : List (A → Option E)) (a : A)
    → (fn_loop fns a ≡ none) ↔ All (λ fn. fn a ≡ none) fns
unfolding fn_loop
fn_loop-none [] a = (λ h. tt, λ h. refl)
fn_loop-none (fn ∷ fns) a =
    let both = and_then-none (fn a) (fn_loop fns a) in
    let rest = fn_loop-none fns a in
    (λ h. ((both.0 h).0, rest.0 (both.0 h).1), λ h. both.1 (h.0, rest.1 h.1))

module _ {O E : Type 0} where
  -- Each of the functions accepts each of the objects.
  abbrev pub Accepts : List (ObjectLinterFn O E) → List O → Type 0
  Accepts fns objects = All (λ o. All (λ fn. fn o ≡ none) fns) objects

  object_loop-none :
      (fns : List (ObjectLinterFn O E)) (objects : List O)
      → (object_loop fns objects ≡ none) ↔ Accepts fns objects
  unfolding object_loop
  object_loop-none fns [] = (λ h. tt, λ h. refl)
  object_loop-none fns (o ∷ objects) =
      let both = and_then-none (fn_loop fns o) (object_loop fns objects) in
      let here = fn_loop-none fns o in
      let rest = object_loop-none fns objects in
      (λ h. (here.0 (both.0 h).0, rest.0 (both.0 h).1), λ h. both.1 (here.1 h.0, rest.1 h.1))

  -- `Lint` returns no error exactly when every function for the package accepts the package, every
  -- function for meta objects each meta object, and every function for objects each object.
  pub lint-Accepts :
      (l : PackageLinter O E) (pkg : Lintable O)
      → (lint l pkg ≡ none) ↔ (
          All (λ fn. fn pkg ≡ none) l.pre
          × Accepts l.per_meta pkg.get_meta
          × Accepts l.per_object pkg.get_objects)
  unfolding lint
  lint-Accepts l pkg =
      let metas = object_loop l.per_meta pkg.get_meta in
      let objects = object_loop l.per_object pkg.get_objects in
      let both = and_then-none (fn_loop l.pre pkg) (and_then metas objects) in
      let last = and_then-none metas objects in
      let pre = fn_loop-none l.pre pkg in
      let m = object_loop-none l.per_meta pkg.get_meta in
      let o = object_loop-none l.per_object pkg.get_objects in
      (
        λ h. (pre.0 (both.0 h).0, m.0 (last.0 (both.0 h).1).0, o.0 (last.0 (both.0 h).1).1),
        λ h. both.1 (pre.1 h.0, last.1 (m.1 h.1, o.1 h.2)),
      )

  -- One of the linters accepts the object.
  abbrev pub SomeAccepts : List (ObjectLinterFn O E) → O → Type 0
  SomeAccepts [] o = ⊥
  SomeAccepts (l ∷ linters) o = (l o ≡ none) ⊎ SomeAccepts linters o

  or_loop-SomeAccepts :
      (errs : List E) (linters : List (ObjectLinterFn O E)) (o : O)
      → (or_loop errs (map some linters) o ≡ none) ↔ SomeAccepts linters o
  unfolding or_loop
  or_loop-SomeAccepts errs [] o = (λ h. absurd (let bad = h in cc), λ h. absurd h)
  or_loop-SomeAccepts errs (l ∷ linters) o = elim (Option-cases (l o)) [
    | inl e ↦ rw e (λ h. inl refl, λ h. refl)
    | inr (x, e) ↦
        let rest = or_loop-SomeAccepts (errs ++ x ∷ []) linters o in
        rw e (
          λ h. inr (rest.0 h),
          λ h. elim h [ inl bad ↦ absurd (let b = bad in cc) | inr later ↦ rest.1 later ],
        )
  ]

  -- `Or` of functions that are not nil returns no error exactly when one of them accepts the object.
  pub or-SomeAccepts :
      (linters : List (ObjectLinterFn O E)) (o : O)
      → (or (map some linters) o ≡ none) ↔ SomeAccepts linters o
  unfolding or
  or-SomeAccepts linters o = or_loop-SomeAccepts [] linters o
