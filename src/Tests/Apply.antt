-- ===== src/Tests/Apply.antt =====
-- A thing's connection secret, in a world that is the secret that is there, if any.
use crossplane_runtime.Base.{
  ℕ, zero, suc, length, Option-cases, Bool-cases, ◌≡◌, equal, inl, refl, inr, Bool, true, false,
  not, Option, none, some, [], ◌∷◌, Bytes, codes, if◌then◌else◌,
}
use crossplane_runtime.Errors.{Error, foreign, cause}
use crossplane_runtime.Meta.{StringMap}
use crossplane_runtime.Meta.Owners.{as_controller, as_owner, typed_reference_to}
use crossplane_runtime.Apply.{
  ApplyError, Answer, Client, apply_updating, apply_patching, after_get, patch_object,
  create_object, run_options, allow_update_if, is_not_allowed,
}
use crossplane_runtime.Apply.Retry.{
  is_api_error_wrapped, Runs, done, again, OnError, attempt_apply, apply_with_retry,
}
use crossplane_runtime.Apply.Guarded.{Sound, apply_updating-Sound}
use crossplane_runtime.Apply.Secret.{
  Secret, secrets, connection_secret_for, ConnectionSecretOwner, ObjectTyper, get_kind,
  publish_connection, Published, published, panicked, options, conclude, secret_apply,
  connection_secret_must_be_controllable_by,
}
use crossplane_runtime.Apply.Publish.{Prudent, publish_connection-Prudent}
use crossplane_runtime.Tests.Meta.{thing, controller_of}
use crossplane_runtime.Tests.Managed.{test_kerrors}

abbrev answer : Option Error → Secret → Option Secret → Answer Secret (Option Secret)
answer err s w = record { error = err; result = s; world = w }

abbrev answer_of : Secret → Option Secret → Answer Secret (Option Secret)
answer_of s none = answer (some (foreign 404)) s none
answer_of s (some x) = answer none x (some x)

abbrev store : Client Secret (Option Secret)
store = record {
  get = λ name namespace s w. answer_of s w;
  create = λ s w. answer none s (some s);
  update = λ s w. answer none s (some s);
  patch = λ s d w. answer none d (some d);
}

abbrev kind : Bytes × Bytes
kind = (codes "v1", codes "Thing")

abbrev typer : ObjectTyper
typer = λ o. inr (kind ∷ [], false)

abbrev owner : ConnectionSecretOwner
owner = record { object = thing; write_connection_secret_to = some (codes "secret", codes "ns") }

-- The data are the same if both have some, or both have none.
abbrev is_empty : Option StringMap → Bool
is_empty none = true
is_empty (some []) = true
is_empty (some (x ∷ m)) = false

abbrev test_same : Option StringMap → Option StringMap → Bool
test_same a b = if is_empty a then is_empty b else not (is_empty b)

abbrev details : Option StringMap
details = some ((codes "user", codes "me") ∷ [])

abbrev empty_secret : Secret
empty_secret = connection_secret_for thing (codes "secret", codes "ns") kind

-- At most four attempts after the first one, as with `DefaultRetry`.
abbrev retrying :
    {S : Type 0} → ℕ → (ApplyError → Bool) → (S → Option ApplyError × S) → S → Option ApplyError × S
retrying zero retriable fn s = fn s
retrying (suc n) retriable fn s = elim (fn s).0 [
  | none ↦ fn s
  | some e ↦ let rest = retrying n retriable fn (fn s).1 in if retriable e then rest else fn s
]

pub retrying-Runs :
    {S : Type 0} (n : ℕ) (retriable : ApplyError → Bool) (fn : S → Option ApplyError × S) (s : S)
    → Runs retriable fn s (retrying n retriable fn s)
retrying-Runs zero retriable fn s = done s
retrying-Runs (suc n) retriable fn s = elim (Option-cases (fn s).0) [
  | inl e ↦ rw (e, retrying) (done s)
  | inr (err, e) ↦ elim (Bool-cases (retriable err)) [
    | inl t ↦
        rw (e, t, retrying)
          (again s err (retrying n retriable fn (fn s).1) e t
            (retrying-Runs n retriable fn (fn s).1))
    | inr f ↦ rw (e, f, retrying) (done s)
  ]
]

abbrev retry : {S : Type 0} → OnError S
retry = record { on_error = retrying 4; on_error-Runs = retrying-Runs 4 }

-- The errors of the library are those of the API.
abbrev of_api : Error → Bool
of_api (foreign k) = true
of_api _ = false

abbrev publish : Option Secret → Published
publish w =
    publish_connection store test_kerrors controller_of typer test_same retry of_api owner details w

publish_connection-Prudent_example :
    Prudent store test_kerrors controller_of test_same thing.uid (publish (some empty_secret))
unfolding get_kind
publish_connection-Prudent_example =
    publish_connection-Prudent store test_kerrors controller_of test_same typer retry of_api owner
      details (some empty_secret) kind refl

-- A secret that is there, and how many patches are still to fail.
abbrev flaky : Client Secret (Secret × ℕ)
flaky = record {
  get = λ name namespace s w. record { error = none; result = w.0; world = w };
  create = λ s w. record { error = none; result = s; world = w };
  update = λ s w. record { error = none; result = s; world = w };
  patch = λ s d w. elim w.1 [
    | zero ↦ record { error = none; result = d; world = (d, 0) }
    | suc n ↦ record { error = some (foreign 500); result = s; world = (w.0, n) }
  ];
}

-- Whether it published, and how many attempts there were.
abbrev outcome : Published → Option (Bool × Bool × ℕ)
outcome panicked = none
outcome (published wrote none attempts) = some (wrote, true, length attempts)
outcome (published wrote (some e) attempts) = some (wrote, false, length attempts)

abbrev publish_flaky : ℕ → Published
publish_flaky failures =
    publish_connection flaky test_kerrors controller_of typer test_same retry of_api owner details
      (empty_secret, failures)

test-published : outcome (publish_flaky 0) ≡ some (true, true, 1)
unfolding publish_connection secret_apply conclude connection_secret_for get_kind apply_with_retry
    attempt_apply is_api_error_wrapped cause apply_patching after_get patch_object create_object
    run_options connection_secret_must_be_controllable_by allow_update_if is_not_allowed
    as_controller as_owner typed_reference_to equal
test-published = refl

-- After a patch that failed the second attempt wants the data that it got, and nothing is published,
-- without an error.
test-dropped : outcome (publish_flaky 1) ≡ some (false, true, 2)
unfolding publish_connection secret_apply conclude connection_secret_for get_kind apply_with_retry
    attempt_apply is_api_error_wrapped cause apply_patching after_get patch_object create_object
    run_options connection_secret_must_be_controllable_by allow_update_if is_not_allowed
    as_controller as_owner typed_reference_to equal
test-dropped = refl

apply_updating-Sound_example :
    Sound secrets store test_kerrors false empty_secret
      (options controller_of test_same thing.uid)
      (apply_updating secrets store test_kerrors
        (options controller_of test_same thing.uid)
        empty_secret
        none)
apply_updating-Sound_example =
    apply_updating-Sound secrets store test_kerrors empty_secret
      (options controller_of test_same thing.uid) none
