-- ===== src/Errors/Laws.antt =====
-- Wrapping, joining, and dropping conflicts.
use crossplane_runtime.Base.{
  ◌≡◌, refl, sym, ◌∙◌, ap, false, Option, none, some, List, [], ◌∷◌, Bool-cases, inl, inr,
}
use crossplane_runtime.Errors.{
  Error, text, foreign, wrapped, multi_error, unwrap, cause, join, join_from, list_of, unwrap_all,
  Kerrors, Requeue, silently_requeue_on_conflict,
}

-- `Cause` ends at an error that wraps no other one.
pub unwrap-cause : (e : Error) → unwrap (cause e) ≡ none
unfolding cause
unwrap-cause (wrapped m e) = unwrap-cause e
unwrap-cause (text m) = refl
unwrap-cause (foreign k) = refl
unwrap-cause (multi_error e es) = refl

-- The errors of a list that are not nil.
abbrev pub present : List (Option Error) → List Error
present [] = []
present (none ∷ errs) = present errs
present (some e ∷ errs) = e ∷ present errs

list_of-join_from :
    (e : Error) (errs : List (Option Error)) → list_of (join_from e errs) ≡ present errs
list_of-join_from e [] = refl
list_of-join_from e (none ∷ errs) = list_of-join_from e errs
list_of-join_from e (some x ∷ errs) = ap (◌∷◌ x) (list_of-join_from e errs)

abbrev pub unwrapped : Option Error → List Error
unwrapped none = []
unwrapped (some e) = unwrap_all e

-- `Join` wraps the errors that are not nil, in their order; without any it is nil.
pub unwrap_all-join : (errs : List (Option Error)) → unwrapped (join errs) ≡ present errs
unfolding join unwrap_all
unwrap_all-join [] = refl
unwrap_all-join (none ∷ errs) = unwrap_all-join errs
unwrap_all-join (some e ∷ errs) = ap (◌∷◌ e) (list_of-join_from e errs)

module _ (k : Kerrors) where
  open k use {is_conflict, is_conflict-wrapped}

  pub is_conflict-cause : (e : Error) → is_conflict (cause e) ≡ is_conflict e
  unfolding cause
  is_conflict-cause (wrapped m e) = is_conflict-cause e ∙ sym (is_conflict-wrapped m e)
  is_conflict-cause (text m) = refl
  is_conflict-cause (foreign j) = refl
  is_conflict-cause (multi_error e es) = refl

  -- No conflict among what is returned.
  abbrev pub NoConflict : Option Error → Type 0
  NoConflict none = Unit
  NoConflict (some e) = is_conflict e ≡ false

  pub silently_requeue_on_conflict-NoConflict :
      (result : Requeue) (err : Option Error)
      → NoConflict (silently_requeue_on_conflict k result err).1
  unfolding silently_requeue_on_conflict
  silently_requeue_on_conflict-NoConflict result none = tt
  silently_requeue_on_conflict-NoConflict result (some e) =
      elim (Bool-cases (is_conflict (cause e))) [
        | inl c ↦ rw c tt
        | inr c ↦ rw c (sym (is_conflict-cause e) ∙ c)
      ]
