-- ===== src/Reference.antt =====
-- pkg/reference/reference.go: a reference to a managed resource, or a selector of one, is resolved to
-- a value of that resource; and apis/common/resource.go: references, selectors and their policies.
-- The reader of the API server is a record of functions, which take the number of the call before
-- what the code gives them: no two calls need to agree. A resource is of any type that has metadata.
pub mod Sorted
pub mod Multiple
pub mod Several
pub mod Each
pub mod Laws
use crossplane_runtime.Base.{
  ℕ, ◌≡◌, ◌⊎◌, inl, inr, Bool, true, false, not, ◌&&◌, ◌||◌, Option, none, some, List, [], ◌∷◌,
  Bytes, codes, equal, if◌then◌else◌,
}
use crossplane_runtime.Errors.{Error, Kerrors, wrap, text}
use crossplane_runtime.Meta.{Object, StringMap, was_deleted}
use crossplane_runtime.Meta.Owners.{ControllerOf, have_same_controller}

abbrev pub err_get_managed : Bytes
err_get_managed = codes "cannot get referenced resource"

abbrev pub err_list_managed : Bytes
err_list_managed = codes "cannot list resources that match selector"

abbrev pub err_no_matches : Bytes
err_no_matches = codes "no resources matched selector"

abbrev pub err_no_value : Bytes
err_no_value = codes "referenced field was empty (referenced resource may not yet be ready)"

-- `Policy`: both fields are texts, `none` a nil pointer.
pub record Policy : Type 0 where
  pub resolve : Option Bytes
  pub resolution : Option Bytes

pub record Reference : Type 0 where
  pub name : Bytes
  pub policy : Option Policy

pub record Selector : Type 0 where
  pub match_labels : StringMap
  pub match_controller_ref : Option Bool
  pub policy : Option Policy

abbrev is_text : Option Bytes → Bytes → Bool
is_text none t = false
is_text (some s) t = equal s t

unfoldable pub is_resolution_policy_optional : Option Policy → Bool
is_resolution_policy_optional none = false
is_resolution_policy_optional (some p) = is_text p.resolution (codes "Optional")

unfoldable pub is_resolve_policy_always : Option Policy → Bool
is_resolve_policy_always none = false
is_resolve_policy_always (some p) = is_text p.resolve (codes "Always")

unfoldable pub from_ptr_value : Option Bytes → Bytes
from_ptr_value none = []
from_ptr_value (some v) = v

unfoldable pub to_ptr_value : Bytes → Option Bytes
to_ptr_value [] = none
to_ptr_value (c ∷ v) = some (c ∷ v)

unfoldable pub from_ptr_values : List (Option Bytes) → List Bytes
from_ptr_values [] = []
from_ptr_values (v ∷ vs) = from_ptr_value v ∷ from_ptr_values vs

unfoldable pub to_ptr_values : List Bytes → List (Option Bytes)
to_ptr_values [] = []
to_ptr_values (v ∷ vs) = to_ptr_value v ∷ to_ptr_values vs

-- `client.Reader`: a get of a name in a namespace, and a list by labels in a namespace.
pub record Reader (M : Type 0) : Type 0 where
  pub get : ℕ → Bytes → Bytes → Error ⊎ M
  pub list : ℕ → StringMap → Bytes → Error ⊎ List M

pub record ResolutionRequest (M : Type 0) : Type 0 where
  pub current_value : Bytes
  pub reference : Option Reference
  pub selector : Option Selector
  pub extract : M → Bytes
  pub namespace : Bytes

pub record ResolutionResponse : Type 0 where
  pub resolved_value : Bytes
  pub resolved_reference : Option Reference

abbrev pub no_response : ResolutionResponse
no_response = record { resolved_value = []; resolved_reference = none }

abbrev pub is_empty : Bytes → Bool
is_empty [] = true
is_empty (c ∷ v) = false

abbrev pub is_none {ℓ} : {A : Type ℓ} → Option A → Bool
is_none none = true
is_none (some a) = false

abbrev pub selector_always : Option Selector → Bool
selector_always none = false
selector_always (some s) = is_resolve_policy_always s.policy

abbrev pub reference_always : Option Reference → Bool
reference_always none = false
reference_always (some r) = is_resolve_policy_always r.policy

-- `isAlways`
abbrev pub always : {M : Type 0} → ResolutionRequest M → Bool
always rr =
    if is_none rr.selector then reference_always rr.reference else selector_always rr.selector

-- What `IsNoOp` leaves of the request: a selector that is always resolved drops the reference.
unfoldable pub after_is_no_op : {M : Type 0} → ResolutionRequest M → ResolutionRequest M
after_is_no_op rr = if selector_always rr.selector then record rr { reference = none } else rr

unfoldable pub is_no_op : {M : Type 0} → ResolutionRequest M → Bool
unfolding after_is_no_op
is_no_op rr =
    if not (is_empty rr.current_value) && not (always rr)
    then true
    else is_none (after_is_no_op rr).reference && is_none rr.selector

unfoldable pub validate_response : ResolutionResponse → Option Error
validate_response rsp = if is_empty rsp.resolved_value then some (text err_no_value) else none

unfoldable pub get_resolution_error : Option Policy → Option Error → Option Error
get_resolution_error p err = if is_resolution_policy_optional p then none else err

unfoldable pub controllers_must_match : Option Selector → Bool
controllers_must_match none = false
controllers_must_match (some s) = elim s.match_controller_ref [ none ↦ false | some b ↦ b ]

module _ {M : Type 0} (object : M → Object) (c : ControllerOf) (k : Kerrors) where
  -- Whether the loops over the listed resources skip one.
  abbrev pub skips : Object → Selector → M → Bool
  skips from s to = controllers_must_match (some s) && not (have_same_controller c from (object to))

  unfoldable pub resolve_reference :
      Reader M → ResolutionRequest M → Reference → ResolutionResponse × Option Error
  unfolding get_resolution_error validate_response
  resolve_reference client req ref = elim (client.get 0 ref.name req.namespace) [
    | inl err ↦
        if k.is_not_found err
        then (no_response, get_resolution_error ref.policy (wrap (some err) err_get_managed))
        else (no_response, wrap (some err) err_get_managed)
    | inr to ↦
        let rsp : ResolutionResponse = record {
          resolved_value = req.extract to;
          resolved_reference = some ref;
        } in
        (rsp, get_resolution_error ref.policy (validate_response rsp))
  ]

  unfoldable select :
      Object → ResolutionRequest M → Selector → List M → ResolutionResponse × Option Error
  unfolding controllers_must_match
  select from req s [] = (no_response, get_resolution_error s.policy (some (text err_no_matches)))
  select from req s (to ∷ items) =
      let rest = select from req s items in
      if skips from s to
      then rest
      else let rsp : ResolutionResponse = record {
        resolved_value = req.extract to;
        resolved_reference = some (record { name = (object to).name; policy = none });
      } in
        (rsp, get_resolution_error s.policy (validate_response rsp))

  unfoldable resolve_selector :
      Object → Reader M → ResolutionRequest M → Selector → ResolutionResponse × Option Error
  unfolding select
  resolve_selector from client req s = elim (client.list 0 s.match_labels req.namespace) [
    | inl err ↦ (no_response, wrap (some err) err_list_managed)
    | inr items ↦ select from req s items
  ]

  -- A request that is no no-op, as `IsNoOp` left it.
  unfoldable pub resolve_request :
      Object → Reader M → ResolutionRequest M → ResolutionResponse × Option Error
  unfolding resolve_reference resolve_selector
  resolve_request from client req = elim req.reference [
    | some ref ↦ resolve_reference client req ref
    | none ↦ elim req.selector [
      | some s ↦ resolve_selector from client req s
      -- `IsNoOp` has excluded this.
      | none ↦ (no_response, none)
    ]
  ]

  -- `APIResolver.Resolve`
  unfoldable pub resolve :
      Object → Reader M → ResolutionRequest M → ResolutionResponse × Option Error
  unfolding resolve_request is_no_op after_is_no_op
  resolve from client req =
      if was_deleted from
      then (record { resolved_value = req.current_value; resolved_reference = req.reference }, none)
      else if is_no_op req
      then (
        record {
          resolved_value = req.current_value;
          resolved_reference = (after_is_no_op req).reference;
        },
        none,
      )
      else resolve_request from client (after_is_no_op req)
