-- ===== src/Apply/Retry.antt =====
-- pkg/resource/resource.go: `ApplicatorWithRetry`. `retry.OnError` of client-go, with its backoff, is
-- a parameter: it runs the function once or more, again only after an error that is to be retried, and
-- gives what the last run gives. Each run works on the object as the one before left it.
use crossplane_runtime.Base.{◌≡◌, Bool, true, false, Option, some, List, [], ◌∷◌}
use crossplane_runtime.Errors.{Error, cause}
use crossplane_runtime.Apply.{ApplyError, not_controllable, not_allowed, other_error, Call, Applied}

-- `IsAPIErrorWrapped`, with the test for the API's own errors: `Cause` looks through no error that is
-- not controllable or not allowed, as these have no `Unwrap`.
unfoldable pub is_api_error_wrapped : (Error → Bool) → ApplyError → Bool
unfolding cause
is_api_error_wrapped is_api_error (not_controllable e) = false
is_api_error_wrapped is_api_error (not_allowed e) = false
is_api_error_wrapped is_api_error (other_error e) = is_api_error (cause e)

-- What `OnError` may give, from a state on.
pub data Runs {S : Type 0} (retriable : ApplyError → Bool) (fn : S → Option ApplyError × S)
    : S → Option ApplyError × S → Type 0 where
  done : (s : S) → Runs retriable fn s (fn s)
  again :
      (s : S) (e : ApplyError) (out : Option ApplyError × S)
      → (fn s).0 ≡ some e
      → retriable e ≡ true
      → Runs retriable fn (fn s).1 out
      → Runs retriable fn s out

pub record OnError (S : Type 0) : Type 0 where
  pub on_error : (ApplyError → Bool) → (S → Option ApplyError × S) → S → Option ApplyError × S
  pub on_error-Runs :
      (retriable : ApplyError → Bool) (fn : S → Option ApplyError × S) (s : S)
      → Runs retriable fn s (on_error retriable fn s)

-- The object, the calls of each attempt, the last attempt first, and the world.
pub record Tried (T W : Type 0) : Type 0 where
  pub object : T
  pub attempts : List (List (Call T))
  pub world : W

module _ {T W : Type 0} where
  unfoldable pub attempt_apply : (T → W → Applied T W) → Tried T W → Option ApplyError × Tried T W
  attempt_apply apply s =
      let x = apply s.object s.world in
      (x.0, record { object = x.2; attempts = x.1 ∷ s.attempts; world = x.3 })

  -- `ApplicatorWithRetry.Apply`
  unfoldable pub apply_with_retry :
      OnError (Tried T W)
      → (ApplyError → Bool)
      → (T → W → Applied T W)
      → T
      → W
      → Option ApplyError × Tried T W
  unfolding attempt_apply
  apply_with_retry retry should_retry apply c w =
      retry.on_error should_retry (attempt_apply apply)
        (record { object = c; attempts = []; world = w })
