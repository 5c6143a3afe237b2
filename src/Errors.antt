-- ===== src/Errors.antt =====
-- pkg/errors: errors that wrap others. `none` is the nil error. An error of a library is a number; one
-- that has an `Unwrap` method is `wrapped`, whoever made it.
pub mod Laws
use crossplane_runtime.Base.{
  ℕ, ◌≡◌, Bool, true, false, Option, none, some, List, [], ◌∷◌, ◌++◌, Bytes, codes, if◌then◌else◌,
}

mutual
  pub data Error : Type 0 where
    -- `errors.New`, and `errors.Errorf` with no `%w`.
    text : Bytes → Error
    foreign : ℕ → Error
    -- `fmt.Errorf("%s: %w", message, err)`
    wrapped : Bytes → Error → Error
    -- `multiError`
    multi_error : Error → Errors → Error

  -- The further errors of a `multiError`, which has one at least.
  pub data Errors : Type 0 where
    no_more : Errors
    more : Error → Errors → Errors

unfoldable pub with_message : Option Error → Bytes → Option Error
with_message none message = none
with_message (some err) message = some (wrapped message err)

unfoldable pub wrap : Option Error → Bytes → Option Error
unfolding with_message
wrap err message = with_message err message

-- `Unwrap`, which a `multiError` has with another type.
abbrev pub unwrap : Error → Option Error
unwrap (wrapped m e) = some e
unwrap _ = none

unfoldable pub cause : Error → Error
cause (wrapped m e) = cause e
cause (text m) = text m
cause (foreign k) = foreign k
cause (multi_error e es) = multi_error e es

abbrev pub join_from : Error → List (Option Error) → Errors
join_from e [] = no_more
join_from e (none ∷ errs) = join_from e errs
join_from e (some x ∷ errs) = more x (join_from e errs)

-- `Join`: `NewAggregate` discards the nil errors.
unfoldable pub join : List (Option Error) → Option Error
join [] = none
join (none ∷ errs) = join errs
join (some e ∷ errs) = some (multi_error e (join_from e errs))

-- `Unwrap` of a `multiError`
abbrev pub list_of : Errors → List Error
list_of no_more = []
list_of (more e es) = e ∷ list_of es

unfoldable pub unwrap_all : Error → List Error
unwrap_all (multi_error e es) = e ∷ list_of es
unwrap_all (text m) = []
unwrap_all (foreign k) = []
unwrap_all (wrapped m e) = []

-- The tests of k8s.io/apimachinery, which look through wrapped errors, and the text of an error.
pub record Kerrors : Type 0 where
  pub is_conflict : Error → Bool
  pub is_not_found : Error → Bool
  pub error_text : Error → Bytes
  pub is_conflict-wrapped : (m : Bytes) (e : Error) → is_conflict (wrapped m e) ≡ is_conflict e
  pub is_not_found-wrapped : (m : Bytes) (e : Error) → is_not_found (wrapped m e) ≡ is_not_found e

-- `reconcile.Result`; a duration is a number of nanoseconds.
pub record Requeue : Type 0 where
  pub requeue : Bool
  pub requeue_after : ℕ

abbrev pub requeue_now : Requeue
requeue_now = record { requeue = true; requeue_after = 0 }

abbrev pub no_requeue : Requeue
no_requeue = record { requeue = false; requeue_after = 0 }

module _ (k : Kerrors) where
  open k use {is_conflict, is_not_found}

  unfoldable pub silently_requeue_on_conflict : Requeue → Option Error → Requeue × Option Error
  unfolding cause
  silently_requeue_on_conflict result none = (result, none)
  silently_requeue_on_conflict result (some err) =
      if is_conflict (cause err) then (requeue_now, none) else (result, some err)

  -- `resource.IgnoreNotFound`
  unfoldable pub ignore_not_found : Option Error → Option Error
  ignore_not_found none = none
  ignore_not_found (some err) = if is_not_found err then none else some err
