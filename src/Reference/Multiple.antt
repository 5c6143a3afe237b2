-- ===== src/Reference/Multiple.antt =====
-- pkg/reference/reference.go: `ResolveMultiple`, which resolves several references to one kind.
use crossplane_runtime.Base.{
  ℕ, suc, inl, inr, Bool, true, false, not, ◌&&◌, ◌||◌, Option, none, some, List, [], ◌∷◌, Bytes,
  if◌then◌else◌,
}
use crossplane_runtime.Errors.{Error, Kerrors, wrap, text}
use crossplane_runtime.Meta.{Object, was_deleted}
use crossplane_runtime.Meta.Owners.{ControllerOf}
use crossplane_runtime.Reference.{
  Reference, Selector, Reader, err_get_managed, err_list_managed, err_no_matches, err_no_value,
  is_resolve_policy_always, get_resolution_error, is_empty, is_none, selector_always, skips,
}
use crossplane_runtime.Reference.Sorted.{ValueMap, put_value, sort_map_by_keys}

pub record MultiResolutionRequest (M : Type 0) : Type 0 where
  pub current_values : List Bytes
  pub references : List Reference
  pub selector : Option Selector
  pub extract : M → Bytes
  pub namespace : Bytes

pub record MultiResolutionResponse : Type 0 where
  pub resolved_values : List Bytes
  pub resolved_references : List Reference

abbrev pub no_responses : MultiResolutionResponse
no_responses = record { resolved_values = []; resolved_references = [] }

abbrev pub no_items {ℓ} : {A : Type ℓ} → List A → Bool
no_items [] = true
no_items (x ∷ xs) = false

abbrev pub some_always : List Reference → Bool
some_always [] = false
some_always (r ∷ refs) = is_resolve_policy_always r.policy || some_always refs

abbrev pub multi_always : {M : Type 0} → MultiResolutionRequest M → Bool
multi_always rr =
    if is_none rr.selector then some_always rr.references else selector_always rr.selector

-- What `IsNoOp` leaves of the request.
unfoldable pub after_multi_is_no_op :
    {M : Type 0} → MultiResolutionRequest M → MultiResolutionRequest M
after_multi_is_no_op rr = if selector_always rr.selector then record rr { references = [] } else rr

unfoldable pub multi_is_no_op : {M : Type 0} → MultiResolutionRequest M → Bool
unfolding after_multi_is_no_op
multi_is_no_op rr =
    if not (no_items rr.current_values) && not (multi_always rr)
    then true
    else no_items (after_multi_is_no_op rr).references && is_none rr.selector

-- What `Validate` ends in: an error or nil, or an index out of range, which panics.
pub data Checked : Type 0 where
  checked : Option Error → Checked
  out_of_range : Checked

-- The loop of `Validate`, with the references from the same index on.
unfoldable pub check_values : List Bytes → List Reference → Checked
unfolding get_resolution_error
check_values [] refs = checked none
check_values (v ∷ vs) [] =
    let rest = check_values vs [] in if is_empty v then out_of_range else rest
check_values (v ∷ vs) (r ∷ refs) =
    let rest = check_values vs refs in
    if is_empty v then checked (get_resolution_error r.policy (some (text err_no_value))) else rest

unfoldable pub validate_responses : MultiResolutionResponse → Checked
unfolding check_values
validate_responses rsp =
    if no_items rsp.resolved_values
    then checked (some (text err_no_matches))
    else check_values rsp.resolved_values rsp.resolved_references

-- What `ResolveMultiple` ends in.
pub data ResolveOutcome : Type 0 where
  returned : MultiResolutionResponse → Option Error → ResolveOutcome
  panicked : ResolveOutcome

-- What the loop over the references ends in.
pub data Fetched : Type 0 where
  refused : Option Error → Fetched
  fetched : ValueMap → Fetched

-- What is returned after `Validate`.
unfoldable pub concluded :
    MultiResolutionResponse → (Option Error → Option Error) → Checked → ResolveOutcome
concluded rsp judge (checked err) = returned rsp (judge err)
concluded rsp judge out_of_range = panicked

abbrev pub response_of : ValueMap → MultiResolutionResponse
response_of m = record {
  resolved_values = (sort_map_by_keys m).0;
  resolved_references = (sort_map_by_keys m).1;
}

-- The response for a map of values, after `Validate` and what becomes of its error.
unfoldable pub respond : ValueMap → (Option Error → Option Error) → ResolveOutcome
unfolding validate_responses concluded
respond m judge = concluded (response_of m) judge (validate_responses (response_of m))

module _ {M : Type 0} (object : M → Object) (c : ControllerOf) (k : Kerrors) where
  -- The loop over the references, of which `n` came before.
  unfoldable pub fetch :
      Reader M → MultiResolutionRequest M → ℕ → List Reference → ValueMap → Fetched
  unfolding put_value get_resolution_error
  fetch client req n [] m = fetched m
  fetch client req n (ref ∷ refs) m = elim (client.get n ref.name req.namespace) [
    | inl err ↦
        if k.is_not_found err
        then refused (get_resolution_error ref.policy (wrap (some err) err_get_managed))
        else refused (wrap (some err) err_get_managed)
    | inr to ↦ fetch client req (suc n) refs (put_value m (req.extract to) ref)
  ]

  unfoldable pub resolve_present : Reader M → MultiResolutionRequest M → ResolveOutcome
  unfolding fetch respond
  resolve_present client req = elim (fetch client req 0 req.references []) [
    | refused err ↦ returned no_responses err
    | fetched m ↦ respond m (λ err. err)
  ]

  -- The loop over the listed resources.
  unfoldable pub collect_references :
      Object → MultiResolutionRequest M → Selector → List M → ValueMap → ValueMap
  unfolding put_value
  collect_references from req s [] m = m
  collect_references from req s (to ∷ items) m = collect_references from req s items (
      if skips object c k from s to
      then m
      else put_value m (req.extract to) (record { name = (object to).name; policy = none }))

  unfoldable pub select_all :
      Object → Reader M → MultiResolutionRequest M → Selector → ResolveOutcome
  unfolding collect_references respond get_resolution_error
  select_all from client req s = elim (client.list 0 s.match_labels req.namespace) [
    | inl err ↦ returned no_responses (wrap (some err) err_list_managed)
    | inr items ↦ respond (collect_references from req s items []) (get_resolution_error s.policy)
  ]

  -- A request that is no no-op, as `IsNoOp` left it.
  unfoldable pub resolve_requests : Object → Reader M → MultiResolutionRequest M → ResolveOutcome
  unfolding resolve_present select_all
  resolve_requests from client req =
      if not (no_items req.references) then resolve_present client req else elim req.selector [
        | some s ↦ select_all from client req s
        -- `IsNoOp` has excluded this.
        | none ↦ returned no_responses none
      ]

  -- `APIResolver.ResolveMultiple`
  unfoldable pub resolve_multiple : Object → Reader M → MultiResolutionRequest M → ResolveOutcome
  unfolding resolve_requests multi_is_no_op after_multi_is_no_op
  resolve_multiple from client req =
      if was_deleted from
      then returned
          (record { resolved_values = req.current_values; resolved_references = req.references })
          none
      else if multi_is_no_op req
      then returned
          (record {
            resolved_values = req.current_values;
            resolved_references = (after_multi_is_no_op req).references;
          })
          none
      else resolve_requests from client (after_multi_is_no_op req)
