-- ===== src/Reference/Laws.antt =====
-- What one reference resolves to.
use crossplane_runtime.Base.{
  ◌≡◌, ◌≢◌, ◌⊎◌, refl, subst, sym, ◌∙◌, ap, inl, inr, Bool, true, false, ◌&&◌, Option, none, some,
  List, [], ◌∷◌, Bytes, if◌then◌else◌, Bool-cases, Option-cases, arith,
}
use crossplane_runtime.Errors.{Error, Kerrors, wrap, with_message, wrapped}
use crossplane_runtime.Meta.{Object, was_deleted}
use crossplane_runtime.Meta.Owners.{ControllerOf}
use crossplane_runtime.Reference.{
  Policy, Reference, Selector, Reader, ResolutionRequest, ResolutionResponse, is_empty, is_none,
  selector_always, reference_always, after_is_no_op, is_no_op, always, validate_response,
  get_resolution_error, no_response, err_get_managed, is_resolution_policy_optional, skips,
  resolve_reference, select, resolve_selector, resolve_request, resolve,
}

-- The policy of what is resolved: of the reference, if there is one, and else of the selector.
abbrev pub used_policy : {M : Type 0} → ResolutionRequest M → Option Policy
used_policy req = elim req.reference [
  | some ref ↦ ref.policy
  | none ↦ elim req.selector [ some s ↦ s.policy | none ↦ none ]
]

pub answers : {A B : Type 0} (x : A ⊎ B) → ((a : A) × (x ≡ inl a)) ⊎ ((b : B) × (x ≡ inr b))
answers (inl a) = inl (a, refl)
answers (inr b) = inr (b, refl)

required :
    (p : Option Policy) (e : Option Error)
    → is_resolution_policy_optional p ≡ false
    → get_resolution_error p e ≡ none
    → e ≡ none
unfolding get_resolution_error
required p e h ok = ground (arith)

nonempty : (rsp : ResolutionResponse) → validate_response rsp ≡ none → rsp.resolved_value ≢ []
unfolding validate_response
nonempty rsp ok e = let bad = ok in ground (arith)

else_false : (a b : Bool) → (if a then true else b) ≡ false → b ≡ false
else_false true b e = ground arith
else_false false b e = e

some_way :
    {M : Type 0} (req : ResolutionRequest M)
    → is_no_op req ≡ false
    → (is_none (after_is_no_op req).reference && is_none (after_is_no_op req).selector) ≡ false
unfolding is_no_op after_is_no_op
some_way req go = elim (Bool-cases (selector_always req.selector)) [
  | inl t ↦ rw t (else_false _ _ (rw t at go))
  | inr f ↦ rw f (else_false _ _ (rw f at go))
]

not_empty : (v : Bytes) → v ≢ [] → is_empty v ≡ false
not_empty [] h = absurd (h refl)
not_empty (x ∷ v) h = refl

not_always :
    (s : Option Selector) (b : Bool)
    → (if is_none s then b else selector_always s) ≡ false
    → selector_always s ≡ false
not_always none b e = refl
not_always (some s) b e = e

keeps-is_no_op :
    {M : Type 0} (req : ResolutionRequest M)
    → req.current_value ≢ []
    → always req ≡ false
    → is_no_op req ≡ true
unfolding is_no_op
keeps-is_no_op req there once = rw (not_empty req.current_value there, once) refl

module _ {M : Type 0} (object : M → Object) (c : ControllerOf) (k : Kerrors) where
  -- The first of the listed resources that the selector does not skip.
  abbrev pub first_match : Object → Selector → List M → Option M
  first_match from s [] = none
  first_match from s (to ∷ items) =
      let rest = first_match from s items in if skips object c k from s to then rest else some to

  -- The value is that of the resource that the reference names, or of the first that the selector
  -- matches, to which a reference is then stored.
  pub data Resolved (from : Object) (client : Reader M) (req : ResolutionRequest M)
      : ResolutionResponse → Type 0 where
    by_reference :
        (ref : Reference) (to : M)
        → req.reference ≡ some ref
        → client.get 0 ref.name req.namespace ≡ inr to
        → Resolved from client req
            (record { resolved_value = req.extract to; resolved_reference = some ref })
    by_selector :
        (s : Selector) (items : List M) (to : M)
        → req.reference ≡ none
        → req.selector ≡ some s
        → client.list 0 s.match_labels req.namespace ≡ inr items
        → first_match from s items ≡ some to
        → Resolved from client req (record {
          resolved_value = req.extract to;
          resolved_reference = some (record { name = (object to).name; policy = none });
        })

  -- Without an error, the response is resolved and has a value.
  abbrev Sound :
      Object → Reader M → ResolutionRequest M → ResolutionResponse × Option Error → Type 0
  Sound from client req out =
      out.1 ≡ none → Resolved from client req out.0 × (out.0.resolved_value ≢ [])

  validated-Sound :
      (from : Object) (client : Reader M) (req : ResolutionRequest M) (p : Option Policy)
      (rsp : ResolutionResponse)
      → is_resolution_policy_optional p ≡ false
      → Resolved from client req rsp
      → Sound from client req (rsp, get_resolution_error p (validate_response rsp))
  validated-Sound from client req p rsp h r ok =
      (r, nonempty rsp (required p (validate_response rsp) h ok))

  failed-Sound :
      (from : Object) (client : Reader M) (req : ResolutionRequest M) (p : Option Policy)
      (rsp : ResolutionResponse) (e : Error)
      → is_resolution_policy_optional p ≡ false
      → Sound from client req (rsp, get_resolution_error p (some e))
  failed-Sound from client req p rsp e h ok = absurd (let bad = required p (some e) h ok in cc)

  resolve_reference-Sound :
      (from : Object) (client : Reader M) (req : ResolutionRequest M) (ref : Reference)
      → req.reference ≡ some ref
      → is_resolution_policy_optional ref.policy ≡ false
      → Sound from client req (resolve_reference object c k client req ref)
  unfolding resolve_reference wrap with_message
  resolve_reference-Sound from client req ref named h =
      elim (answers (client.get 0 ref.name req.namespace)) [
        | inl (err, e) ↦
            rw (e, resolve_reference)
              (elim (Bool-cases (k.is_not_found err)) [
                | inl t ↦ rw t (
                    failed-Sound from client req ref.policy no_response
                      (wrapped err_get_managed err) h)
                | inr f ↦ rw f (λ ok. absurd (let bad = ok in cc))
              ])
        | inr (to, e) ↦
            rw (e, resolve_reference)
              (validated-Sound from client req ref.policy _ h (by_reference ref to named e))
      ]

  select-Sound :
      (from : Object) (client : Reader M) (req : ResolutionRequest M) (s : Selector)
      (all items : List M)
      → req.reference ≡ none
      → req.selector ≡ some s
      → client.list 0 s.match_labels req.namespace ≡ inr all
      → first_match from s items ≡ first_match from s all
      → is_resolution_policy_optional s.policy ≡ false
      → Sound from client req (select object c k from req s items)
  unfolding select
  select-Sound from client req s all [] none_named chosen listed same h =
      failed-Sound from client req s.policy no_response _ h
  select-Sound from client req s all (to ∷ items) none_named chosen listed same h =
      elim (Bool-cases (skips object c k from s to)) [
        | inl t ↦ rw t (
            select-Sound from client req s all items none_named chosen listed (sym (rw t) ∙ same) h)
        | inr f ↦ rw f (
            validated-Sound from client req s.policy _ h
              (by_selector s all to none_named chosen listed (sym same ∙ rw f)))
      ]

  resolve_selector-Sound :
      (from : Object) (client : Reader M) (req : ResolutionRequest M) (s : Selector)
      → req.reference ≡ none
      → req.selector ≡ some s
      → is_resolution_policy_optional s.policy ≡ false
      → Sound from client req (resolve_selector object c k from client req s)
  unfolding resolve_selector wrap with_message
  resolve_selector-Sound from client req s none_named chosen h =
      elim (answers (client.list 0 s.match_labels req.namespace)) [
        | inl (err, e) ↦ rw (e, resolve_selector) (λ ok. absurd (let bad = ok in cc))
        | inr (items, e) ↦
            rw (e, resolve_selector)
              (select-Sound from client req s items items none_named chosen e refl h)
      ]

  resolve_request-Sound :
      (from : Object) (client : Reader M) (req : ResolutionRequest M)
      → (is_none req.reference && is_none req.selector) ≡ false
      → is_resolution_policy_optional (used_policy req) ≡ false
      → Sound from client req (resolve_request object c k from client req)
  unfolding resolve_request
  resolve_request-Sound from client req way h = elim (Option-cases req.reference) [
    | inr (ref, e) ↦
        let it : resolve_request object c k from client req
            ≡ resolve_reference object c k client req ref =
          rw (e, resolve_request) refl in
        subst (Sound from client req) (sym it) (
          resolve_reference-Sound from client req ref e
            (ap is_resolution_policy_optional (rw e refl) ∙ h))
    | inl e ↦ elim (Option-cases req.selector) [
      | inr (s, f) ↦
          let it : resolve_request object c k from client req
              ≡ resolve_selector object c k from client req s =
            rw (e, f, resolve_request) refl in
          subst (Sound from client req) (sym it) (
            resolve_selector-Sound from client req s e f
              (ap is_resolution_policy_optional (rw (e, f) refl) ∙ h))
      | inl f ↦ absurd (let bad : true ≡ false = rw (e, f) at way in cc)
    ]
  ]

  -- `Resolve` of a request that is no no-op, for a resource that was not deleted, when resolution is
  -- required, returns an error; or the value that it returns is not empty, and is extracted from the
  -- resource that the reference names or, without a reference, from the first of the listed resources
  -- that matches the selector, to which the reference that it returns then refers.
  pub resolve-Resolved :
      (from : Object) (client : Reader M) (req : ResolutionRequest M)
      → was_deleted from ≡ false
      → is_no_op req ≡ false
      → is_resolution_policy_optional (used_policy (after_is_no_op req)) ≡ false
      → (resolve object c k from client req).1 ≡ none
      → Resolved from client (after_is_no_op req) (resolve object c k from client req).0
        × ((resolve object c k from client req).0.resolved_value ≢ [])
  unfolding resolve
  resolve-Resolved from client req kept go h =
      rw (kept, go) (resolve_request-Sound from client (after_is_no_op req) (some_way req go) h)

  -- `Resolve` returns a value that is there already, with the reference as it was and no error, unless
  -- the policy of the selector, or of the reference where there is no selector, is to resolve always.
  pub resolve-keeps :
      (from : Object) (client : Reader M) (req : ResolutionRequest M)
      → req.current_value ≢ []
      → always req ≡ false
      → resolve object c k from client req
        ≡ (record { resolved_value = req.current_value; resolved_reference = req.reference }, none)
  unfolding resolve
  resolve-keeps from client req there once = elim (Bool-cases (was_deleted from)) [
    | inl t ↦ rw t refl
    | inr f ↦
        rw
          (
            f,
            keeps-is_no_op req there once,
            not_always req.selector (reference_always req.reference) once,
          )
          refl
  ]
