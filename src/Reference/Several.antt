-- ===== src/Reference/Several.antt =====
-- What several references resolve to.
use crossplane_runtime.Base.{
  ℕ, suc, ◌≡◌, refl, subst, sym, ◌⊎◌, inl, inr, false, Option, none, List, [], ◌∷◌, Bytes,
  Bool-cases, Option-cases, arith, length,
}
use crossplane_runtime.Errors.{Error, Kerrors}
use crossplane_runtime.Meta.{Object, was_deleted}
use crossplane_runtime.Meta.Owners.{ControllerOf}
use crossplane_runtime.Reference.{
  Reference, Selector, Reader, is_empty, get_resolution_error, skips,
}
use crossplane_runtime.Reference.Laws.{answers}
use crossplane_runtime.Reference.Sorted.{
  ValueMap, put_value, at, keys, sort_map_by_keys, sorted, Unique, Ascending, Unique-put_value,
  Ascending-sorted, length-map,
}
use crossplane_runtime.Reference.Multiple.{
  MultiResolutionRequest, MultiResolutionResponse, checked, check_values, validate_responses,
  no_items, ResolveOutcome, returned, panicked, Fetched, refused, fetched, respond, fetch,
  concluded, response_of, resolve_present, collect_references, select_all, resolve_requests,
  resolve_multiple, multi_is_no_op, after_multi_is_no_op,
}

-- It does not panic, and the values ascend strictly, with a reference for each.
abbrev pub Aligned : ResolveOutcome → Type 0
Aligned (returned rsp e) =
    (length rsp.resolved_values ≡ length rsp.resolved_references) × Ascending rsp.resolved_values
Aligned panicked = ⊥

pub fetches :
    (x : Fetched) → ((e : Option Error) × (x ≡ refused e)) ⊎ ((m : ValueMap) × (x ≡ fetched m))
fetches (refused e) = inl (e, refl)
fetches (fetched m) = inr (m, refl)

check_values-checked :
    (vs : List Bytes) (refs : List Reference)
    → length vs ≡ length refs
    → (e : Option Error) × (check_values vs refs ≡ checked e)
unfolding check_values
check_values-checked [] refs h = (none, refl)
check_values-checked (v ∷ vs) [] h = absurd (let bad : suc (length vs) ≡ 0 = h in omega arith)
check_values-checked (v ∷ vs) (r ∷ refs) h = elim (Bool-cases (is_empty v)) [
  | inl t ↦ rw t (_, refl)
  | inr f ↦ rw f (check_values-checked vs refs (omega arith))
]

pub validate_responses-checked :
    (rsp : MultiResolutionResponse)
    → length rsp.resolved_values ≡ length rsp.resolved_references
    → (e : Option Error) × (validate_responses rsp ≡ checked e)
unfolding validate_responses
validate_responses-checked rsp h = elim (Bool-cases (no_items rsp.resolved_values)) [
  | inl t ↦ rw t (_, refl)
  | inr f ↦ rw f (check_values-checked rsp.resolved_values rsp.resolved_references h)
]

respond-Aligned :
    (m : ValueMap) (judge : Option Error → Option Error)
    → Unique (keys m)
    → Aligned (respond m judge)
unfolding respond concluded sort_map_by_keys
respond-Aligned m judge u =
    let same = sym (length-map (at m) (sorted (keys m))) in
    let (e, fine) = validate_responses-checked (response_of m) same in
    subst (λ x. Aligned (concluded (response_of m) judge x)) (sym fine)
      (same, Ascending-sorted (keys m) u)

module _ {M : Type 0} (object : M → Object) (c : ControllerOf) (k : Kerrors) where
  abbrev KeysUnique : Fetched → Type 0
  KeysUnique (refused e) = Unit
  KeysUnique (fetched m) = Unique (keys m)

  fetch-KeysUnique :
      (client : Reader M) (req : MultiResolutionRequest M) (n : ℕ) (refs : List Reference)
      (m : ValueMap)
      → Unique (keys m)
      → KeysUnique (fetch object c k client req n refs m)
  unfolding fetch
  fetch-KeysUnique client req n [] m u = u
  fetch-KeysUnique client req n (ref ∷ refs) m u =
      elim (answers (client.get n ref.name req.namespace)) [
        | inl (err, e) ↦
            rw (e, fetch)
              (elim (Bool-cases (k.is_not_found err)) [ inl t ↦ rw t tt | inr f ↦ rw f tt ])
        | inr (to, e) ↦
            rw (e, fetch)
              (fetch-KeysUnique client req (suc n) refs (put_value m (req.extract to) ref)
                (Unique-put_value m (req.extract to) ref u))
      ]

  collect_references-Unique :
      (from : Object) (req : MultiResolutionRequest M) (s : Selector) (items : List M)
      (m : ValueMap)
      → Unique (keys m)
      → Unique (keys (collect_references object c k from req s items m))
  unfolding collect_references
  collect_references-Unique from req s [] m u = u
  collect_references-Unique from req s (to ∷ items) m u =
      elim (Bool-cases (skips object c k from s to)) [
        | inl t ↦ rw t (collect_references-Unique from req s items m u)
        | inr f ↦
            rw f (
              collect_references-Unique from req s items _
                (Unique-put_value m (req.extract to) _ u))
      ]

  resolve_present-Aligned :
      (client : Reader M) (req : MultiResolutionRequest M)
      → Aligned (resolve_present object c k client req)
  unfolding resolve_present
  resolve_present-Aligned client req =
      elim (fetches (fetch object c k client req 0 req.references [])) [
        | inl (err, e) ↦ rw (e, resolve_present) (refl, tt)
        | inr (m, e) ↦
            rw (e, resolve_present)
              (respond-Aligned m (λ err. err)
                (subst KeysUnique e (fetch-KeysUnique client req 0 req.references [] tt)))
      ]

  select_all-Aligned :
      (from : Object) (client : Reader M) (req : MultiResolutionRequest M) (s : Selector)
      → Aligned (select_all object c k from client req s)
  unfolding select_all
  select_all-Aligned from client req s =
      elim (answers (client.list 0 s.match_labels req.namespace)) [
        | inl (err, e) ↦ rw (e, select_all) (refl, tt)
        | inr (items, e) ↦
            rw (e, select_all)
              (respond-Aligned (collect_references object c k from req s items [])
                (get_resolution_error s.policy) (collect_references-Unique from req s items [] tt))
      ]

  resolve_requests-Aligned :
      (from : Object) (client : Reader M) (req : MultiResolutionRequest M)
      → Aligned (resolve_requests object c k from client req)
  unfolding resolve_requests
  resolve_requests-Aligned from client req = elim (Bool-cases (no_items req.references)) [
    | inr f ↦ rw f (resolve_present-Aligned client req)
    | inl t ↦ elim (Option-cases req.selector) [
      | inl e ↦ rw (t, e, resolve_requests) (refl, tt)
      | inr (s, e) ↦
          let it : resolve_requests object c k from client req
              ≡ select_all object c k from client req s =
            rw (t, e, resolve_requests) refl in
          subst Aligned (sym it) (select_all-Aligned from client req s)
    ]
  ]

  -- `ResolveMultiple` of a request that is no no-op, for a resource that was not deleted, never
  -- panics: `Validate` reads no reference out of range. Whatever it returns, each value comes once, in
  -- ascending order, with one reference.
  pub resolve_multiple-Aligned :
      (from : Object) (client : Reader M) (req : MultiResolutionRequest M)
      → was_deleted from ≡ false
      → multi_is_no_op req ≡ false
      → Aligned (resolve_multiple object c k from client req)
  unfolding resolve_multiple
  resolve_multiple-Aligned from client req kept go =
      rw (kept, go) (resolve_requests-Aligned from client (after_multi_is_no_op req))
