-- ===== src/Reference/Each.antt =====
-- What becomes of each reference when several are resolved.
use crossplane_runtime.Base.{
  ℕ, suc, ◌≡◌, ◌≢◌, ◌⊎◌, refl, subst, sym, ◌∙◌, ap, inl, inr, Bool, false, ◌||◌, Option, none, some,
  List, [], ◌∷◌, Bytes, equal, Bool-cases, arith, All, map,
}
use crossplane_runtime.Errors.{Error, Kerrors, wrap, with_message}
use crossplane_runtime.Meta.{Object, was_deleted}
use crossplane_runtime.Meta.Owners.{ControllerOf}
use crossplane_runtime.Reference.{
  Reference, Reader, is_empty, get_resolution_error, is_resolution_policy_optional,
}
use crossplane_runtime.Reference.Laws.{answers}
use crossplane_runtime.Reference.Sorted.{
  ValueMap, put_value, at, keys, sort_map_by_keys, sorted, among, among-put_value, among-sorted,
  length-map,
}
use crossplane_runtime.Reference.Multiple.{
  MultiResolutionRequest, Checked, checked, out_of_range, check_values, validate_responses,
  no_items, ResolveOutcome, returned, panicked, Fetched, refused, fetched, respond, concluded,
  response_of, fetch, resolve_present, resolve_requests, resolve_multiple, multi_is_no_op,
  after_multi_is_no_op,
}
use crossplane_runtime.Reference.Several.{fetches, validate_responses-checked}

-- Resolution is required.
abbrev pub IsRequired : Reference → Type 0
IsRequired r = is_resolution_policy_optional r.policy ≡ false

abbrev RequiredMap : ValueMap → Type 0
RequiredMap [] = Unit
RequiredMap ((k, r) ∷ m) = IsRequired r × RequiredMap m

at-IsRequired : (m : ValueMap) (k : Bytes) → RequiredMap m → IsRequired (at m k)
unfolding at is_resolution_policy_optional
at-IsRequired [] k h = refl
at-IsRequired ((j, r) ∷ m) k h = elim (Bool-cases (equal j k)) [
  | inl t ↦ rw t h.0
  | inr f ↦ rw f (at-IsRequired m k h.1)
]

map-at-IsRequired :
    (m : ValueMap) (ks : List Bytes) → RequiredMap m → All IsRequired (map (at m) ks)
map-at-IsRequired m [] h = tt
map-at-IsRequired m (k ∷ ks) h = (at-IsRequired m k h, map-at-IsRequired m ks h)

put_value-RequiredMap :
    (m : ValueMap) (k : Bytes) (r : Reference)
    → IsRequired r
    → RequiredMap m
    → RequiredMap (put_value m k r)
unfolding put_value
put_value-RequiredMap [] k r h a = (h, tt)
put_value-RequiredMap ((j, s) ∷ m) k r h a = elim (Bool-cases (equal j k)) [
  | inl t ↦ rw t (h, a.1)
  | inr f ↦ rw f (a.0, put_value-RequiredMap m k r h a.1)
]

not_nil : (v : Bytes) → is_empty v ≡ false → equal v [] ≡ false
unfolding equal
not_nil [] e = absurd (let bad = e in cc)
not_nil (c ∷ v) e = refl

checked_inj : {a b : Option Error} → checked a ≡ checked b → a ≡ b
checked_inj e = cc

check_values-none :
    (vs : List Bytes) (refs : List Reference)
    → All IsRequired refs
    → check_values vs refs ≡ checked none
    → among [] vs ≡ false
unfolding check_values get_resolution_error
check_values-none [] refs h e = refl
check_values-none (v ∷ vs) [] h e = elim (Bool-cases (is_empty v)) [
  | inl t ↦ absurd (let bad = rw t at e in cc)
  | inr f ↦ rw (not_nil v f) (check_values-none vs [] h (rw f at e))
]
check_values-none (v ∷ vs) (r ∷ refs) h e = elim (Bool-cases (is_empty v)) [
  | inl t ↦ absurd (let bad = rw (t, h.0) at e in cc)
  | inr f ↦ rw (not_nil v f) (check_values-none vs refs h.1 (rw f at e))
]

module _ {M : Type 0} (object : M → Object) (c : ControllerOf) (k : Kerrors) where
  -- Every get of the references, of which `n` calls came before, finds a resource.
  abbrev pub AllGot : Reader M → MultiResolutionRequest M → ℕ → List Reference → Type 0
  AllGot client req n [] = Unit
  AllGot client req n (ref ∷ refs) =
      ((to : M) × (client.get n ref.name req.namespace ≡ inr to)) × AllGot client req (suc n) refs

  abbrev pub value_is : MultiResolutionRequest M → Bytes → Error ⊎ M → Bool
  value_is req j (inl err) = false
  value_is req j (inr to) = equal (req.extract to) j

  -- Whether the text is extracted from one of the resources that the gets find.
  abbrev pub extracts : Reader M → MultiResolutionRequest M → ℕ → List Reference → Bytes → Bool
  extracts client req n [] j = false
  extracts client req n (ref ∷ refs) j =
      value_is req j (client.get n ref.name req.namespace) || extracts client req (suc n) refs j

  abbrev Gathers :
      Reader M → MultiResolutionRequest M → ℕ → List Reference → ValueMap → Fetched → Type 0
  Gathers client req n refs m (refused e) = e ≢ none
  Gathers client req n refs m (fetched all) =
      AllGot client req n refs
      × RequiredMap all
      × ((j : Bytes) → among j (keys all) ≡ (extracts client req n refs j || among j (keys m)))

  Gathers-step :
      (client : Reader M) (req : MultiResolutionRequest M) (n : ℕ) (ref : Reference)
      (refs : List Reference) (m : ValueMap) (to : M) (x : Fetched)
      → client.get n ref.name req.namespace ≡ inr to
      → Gathers client req (suc n) refs (put_value m (req.extract to) ref) x
      → Gathers client req n (ref ∷ refs) m x
  Gathers-step client req n ref refs m to (refused err) e g = g
  Gathers-step client req n ref refs m to (fetched all) e g = (
    ((to, e), g.0),
    g.1,
    λ j.
        let this : value_is req j (client.get n ref.name req.namespace) ≡ equal (req.extract to) j =
          ap (value_is req j) e in
        ground (arith, this, g.2 j, among-put_value m (req.extract to) ref j),
  )

  fetch-Gathers :
      (client : Reader M) (req : MultiResolutionRequest M) (n : ℕ) (refs : List Reference)
      (m : ValueMap)
      → All IsRequired refs
      → RequiredMap m
      → Gathers client req n refs m (fetch object c k client req n refs m)
  unfolding fetch get_resolution_error wrap with_message
  fetch-Gathers client req n [] m h a = (tt, a, λ j. refl)
  fetch-Gathers client req n (ref ∷ refs) m h a =
      elim (answers (client.get n ref.name req.namespace)) [
        | inl (err, e) ↦
            rw (e, fetch)
              (elim (Bool-cases (k.is_not_found err)) [
                | inl t ↦ rw (t, h.0) (λ bad. cc)
                | inr f ↦ rw f (λ bad. cc)
              ])
        | inr (to, e) ↦ subst (Gathers client req n (ref ∷ refs) m) (rw (e, fetch) refl) (
            Gathers-step client req n ref refs m to _ e (
              fetch-Gathers client req (suc n) refs (put_value m (req.extract to) ref) h.1
                (put_value-RequiredMap m (req.extract to) ref h.0 a)))
      ]

  -- It does not panic; and without an error every reference was got, and the values are what was
  -- extracted, and not empty.
  abbrev pub Each : Reader M → MultiResolutionRequest M → ResolveOutcome → Type 0
  Each client req (returned rsp (some e)) = Unit
  Each client req (returned rsp none) =
      AllGot client req 0 req.references
      × ((j : Bytes) → among j rsp.resolved_values ≡ extracts client req 0 req.references j)
      × (among [] rsp.resolved_values ≡ false)
  Each client req panicked = ⊥

  validate_responses-none :
      (all : ValueMap)
      → RequiredMap all
      → validate_responses (response_of all) ≡ checked none
      → among [] (response_of all).resolved_values ≡ false
  unfolding validate_responses sort_map_by_keys
  validate_responses-none all h e = elim (Bool-cases (no_items (sorted (keys all)))) [
    | inl t ↦ absurd (let bad = rw t at e in cc)
    | inr f ↦
        check_values-none (sorted (keys all)) (map (at all) (sorted (keys all)))
          (map-at-IsRequired all (sorted (keys all)) h) (rw f at e)
  ]

  concluded-Each :
      (client : Reader M) (req : MultiResolutionRequest M) (all : ValueMap) (x : Checked)
      → Gathers client req 0 req.references [] (fetched all)
      → validate_responses (response_of all) ≡ x
      → Each client req (concluded (response_of all) (λ err. err) x)
  unfolding concluded sort_map_by_keys
  concluded-Each client req all out_of_range g e =
      let (err, fine) =
        validate_responses-checked (response_of all)
          (sym (length-map (at all) (sorted (keys all)))) in
      absurd (let bad = sym fine ∙ e in cc)
  concluded-Each client req all (checked (some err)) g e = tt
  concluded-Each client req all (checked none) g e = (
    g.0,
    (λ j. among-sorted (keys all) j ∙ g.2 j ∙ (ground arith)),
    validate_responses-none all g.1 e,
  )

  resolve_present-Each :
      (client : Reader M) (req : MultiResolutionRequest M)
      → All IsRequired req.references
      → Each client req (resolve_present object c k client req)
  unfolding resolve_present respond
  resolve_present-Each client req h =
      let got = fetch-Gathers client req 0 req.references [] h tt in
      elim (fetches (fetch object c k client req 0 req.references [])) [
        | inl (none, e) ↦ absurd (subst (Gathers client req 0 req.references []) e got refl)
        | inl (some err, e) ↦ rw (e, resolve_present) tt
        | inr (all, e) ↦
            rw (e, resolve_present)
              (concluded-Each client req all _
                (subst (Gathers client req 0 req.references []) e got) refl)
      ]

  -- `ResolveMultiple` of a request that is no no-op, for a resource that was not deleted, with
  -- references of which each is required, does not panic; it returns an error, or the get of each
  -- reference found a resource, a text is among the values exactly when it was extracted from one of
  -- those resources, and no value is empty.
  pub resolve_multiple-Each :
      (from : Object) (client : Reader M) (req : MultiResolutionRequest M)
      → was_deleted from ≡ false
      → multi_is_no_op req ≡ false
      → no_items (after_multi_is_no_op req).references ≡ false
      → All IsRequired (after_multi_is_no_op req).references
      → Each client (after_multi_is_no_op req) (resolve_multiple object c k from client req)
  unfolding resolve_multiple resolve_requests
  resolve_multiple-Each from client req kept go some_refs h =
      rw (kept, go, some_refs) (resolve_present-Each client (after_multi_is_no_op req) h)
