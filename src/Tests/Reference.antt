-- ===== src/Tests/Reference.antt =====
-- References to a thing, whose external name is extracted.
use crossplane_runtime.Base.{
  ◌≡◌, ◌≢◌, ◌⊎◌, refl, inl, inr, true, Option, none, some, [], ◌∷◌, Bytes, codes, equal,
  if◌then◌else◌,
}
use crossplane_runtime.Errors.{Error, foreign}
use crossplane_runtime.Meta.{Object, was_deleted}
use crossplane_runtime.Meta.Maps.{get_external_name, annotation, lookup}
use crossplane_runtime.Reference.{
  Reference, Selector, Reader, ResolutionRequest, ResolutionResponse, is_no_op, after_is_no_op,
  resolve, is_resolve_policy_always, is_resolution_policy_optional, resolve_request,
  resolve_reference, get_resolution_error, validate_response,
}
use crossplane_runtime.Reference.Laws.{Resolved, resolve-Resolved, resolve-keeps}
use crossplane_runtime.Reference.Multiple.{
  MultiResolutionRequest, returned, ResolveOutcome, resolve_multiple, multi_is_no_op,
  after_multi_is_no_op, resolve_requests, resolve_present, fetch, respond, concluded,
  validate_responses, check_values,
}
use crossplane_runtime.Reference.Several.{Aligned, resolve_multiple-Aligned}
use crossplane_runtime.Reference.Each.{Each, resolve_multiple-Each}
use crossplane_runtime.Reference.Sorted.{sort_map_by_keys, sorted, put_value, at}
use crossplane_runtime.Tests.Meta.{thing, controller_of}
use crossplane_runtime.Tests.Managed.{test_kerrors}

abbrev unnamed : Object
unnamed = record thing { name = codes "unnamed"; annotations = none }

abbrev find : Bytes → Error ⊎ Object
find name =
    if equal name (codes "thing")
    then inr thing
    else if equal name (codes "unnamed")
    then inr unnamed
    else inl (foreign 404)

abbrev reader : Reader Object
reader = record {
  get = λ n name namespace. find name;
  list = λ n labels namespace. inr (thing ∷ unnamed ∷ []);
}

abbrev to_thing : Reference
to_thing = record { name = codes "thing"; policy = none }

abbrev to_unnamed : Reference
to_unnamed = record { name = codes "unnamed"; policy = none }

abbrev any_thing : Selector
any_thing = record { match_labels = []; match_controller_ref = some true; policy = none }

abbrev request : ResolutionRequest Object
request = record {
  current_value = [];
  reference = some to_thing;
  selector = none;
  extract = get_external_name;
  namespace = [];
}

abbrev cached : ResolutionRequest Object
cached = record request { current_value = codes "mine" }

abbrev run : ResolutionRequest Object → ResolutionResponse × Option Error
run req = resolve (λ o. o) controller_of test_kerrors thing reader req

test-resolve :
    run request
    ≡ (record { resolved_value = codes "old"; resolved_reference = some to_thing }, none)
unfolding resolve was_deleted is_no_op after_is_no_op is_resolve_policy_always resolve_request
    resolve_reference get_resolution_error validate_response is_resolution_policy_optional
    get_external_name annotation lookup equal
test-resolve = refl

resolve-Resolved_example :
    Resolved
      (λ o. o)
      controller_of
      test_kerrors
      thing
      reader
      (after_is_no_op request)
      (run request).0
    × ((run request).0.resolved_value ≢ [])
unfolding resolve was_deleted is_no_op after_is_no_op is_resolve_policy_always resolve_request
    resolve_reference get_resolution_error validate_response is_resolution_policy_optional
    get_external_name annotation lookup equal
resolve-Resolved_example =
    resolve-Resolved (λ o. o) controller_of test_kerrors thing reader request refl refl refl refl

resolve-keeps_example :
    run cached
    ≡ (record { resolved_value = codes "mine"; resolved_reference = some to_thing }, none)
unfolding is_resolve_policy_always
resolve-keeps_example =
    resolve-keeps (λ o. o) controller_of test_kerrors thing reader cached (λ e. cc) refl

abbrev requests : MultiResolutionRequest Object
requests = record {
  current_values = [];
  references = to_thing ∷ to_thing ∷ [];
  selector = none;
  extract = get_external_name;
  namespace = [];
}

abbrev run_all : MultiResolutionRequest Object → ResolveOutcome
run_all req = resolve_multiple (λ o. o) controller_of test_kerrors thing reader req

resolve_multiple-Aligned_example : Aligned (run_all requests)
unfolding was_deleted multi_is_no_op after_multi_is_no_op is_resolve_policy_always
resolve_multiple-Aligned_example =
    resolve_multiple-Aligned (λ o. o) controller_of test_kerrors thing reader requests refl refl

resolve_multiple-Each_example :
    Each
      (λ o. o)
      controller_of
      test_kerrors
      reader
      (after_multi_is_no_op requests)
      (run_all requests)
unfolding was_deleted multi_is_no_op after_multi_is_no_op is_resolve_policy_always
    is_resolution_policy_optional
resolve_multiple-Each_example =
    resolve_multiple-Each (λ o. o) controller_of test_kerrors thing reader requests refl refl refl
      (refl, (refl, tt))

abbrev may_be_empty : Reference
may_be_empty = record {
  name = codes "unnamed";
  policy = some (record { resolve = none; resolution = some (codes "Optional") });
}

-- The first reference is required, but the error about its empty value is that of the second.
test-masked :
    run_all (record requests { references = to_unnamed ∷ may_be_empty ∷ [] })
    ≡ returned (record { resolved_values = [] ∷ []; resolved_references = may_be_empty ∷ [] }) none
unfolding resolve_multiple resolve_requests resolve_present fetch respond concluded
    validate_responses check_values sort_map_by_keys sorted put_value at was_deleted multi_is_no_op
    after_multi_is_no_op is_resolve_policy_always is_resolution_policy_optional get_resolution_error
    get_external_name annotation lookup equal
test-masked = refl
