-- ===== src/Fieldpath/Paved/Remove.antt =====
-- The loop of `delete`, step by step, and the induction that its properties are proved by.
use crossplane_runtime.Base.{
  ℕ, ◌≡◌, sym, subst, none, some, inl, inr, List, [], ◌∷◌, ◌++◌, Option-cases,
}
use crossplane_runtime.Fieldpath.Segment.{Segment, field, index, Segments}
use crossplane_runtime.Fieldpath.Errors.{Error, is_not_an_array, is_not_an_object}
use crossplane_runtime.Fieldpath.Value.{Value, array, object, Items, Fields}
use crossplane_runtime.Fieldpath.Items
use crossplane_runtime.Fieldpath.Fields
use crossplane_runtime.Fieldpath.Paved.{as_array, as_object, Outcome, finished, failed, delete_loop}
use crossplane_runtime.Fieldpath.Paved.Prepare.{as_array-eq-some, as_object-eq-some}

-- One step of the loop, from the four cases of what it meets.
delete_index-none :
    (all passed rest : Segments) (it : Value) (i : ℕ) (next : Segment)
    → as_array it ≡ none
    → delete_loop all passed it (index i ∷ next ∷ rest) ≡ (it, failed (is_not_an_array passed))
unfolding delete_loop
delete_index-none all passed rest it i next e = rw (e, delete_loop)

delete_index-missing :
    (all passed rest : Segments) (vs : Items) (i : ℕ) (next : Segment)
    → Items.get vs i ≡ none
    → delete_loop all passed (array vs) (index i ∷ next ∷ rest) ≡ (array vs, finished)
unfolding delete_loop
delete_index-missing all passed rest vs i next e = rw (e, delete_loop)

delete_index-some :
    (all passed rest : Segments) (vs : Items) (i : ℕ) (next : Segment) {w : Value}
    → Items.get vs i ≡ some w
    → delete_loop all passed (array vs) (index i ∷ next ∷ rest) ≡ (
        let r = delete_loop all (passed ++ index i ∷ []) w (next ∷ rest) in
        (array (Items.set vs i r.0), r.1))
unfolding delete_loop
delete_index-some all passed rest vs i next e = rw (e, delete_loop)

delete_field-none :
    (all passed rest : Segments) (it : Value) (k : List ℕ) (next : Segment)
    → as_object it ≡ none
    → delete_loop all passed it (field k ∷ next ∷ rest) ≡ (it, failed (is_not_an_object passed))
unfolding delete_loop
delete_field-none all passed rest it k next e = rw (e, delete_loop)

delete_field-missing :
    (all passed rest : Segments) (fs : Fields) (k : List ℕ) (next : Segment)
    → Fields.get fs k ≡ none
    → delete_loop all passed (object fs) (field k ∷ next ∷ rest) ≡ (object fs, finished)
unfolding delete_loop
delete_field-missing all passed rest fs k next e = rw (e, delete_loop)

delete_field-some :
    (all passed rest : Segments) (fs : Fields) (k : List ℕ) (next : Segment) {w : Value}
    → Fields.get fs k ≡ some w
    → delete_loop all passed (object fs) (field k ∷ next ∷ rest) ≡ (
        let r = delete_loop all (passed ++ field k ∷ []) w (next ∷ rest) in
        (object (Fields.set fs k r.0), r.1))
unfolding delete_loop
delete_field-some all passed rest fs k next e = rw (e, delete_loop)

-- A property of deletion follows from its base case and from how it goes through a place that is
-- there, that is missing, and that is of another kind.
module _ (P : Segments → Value → Value × Outcome → Type 0)
    (wrong_kind : (s : Segments) (it : Value) (e : Error) → P s it (it, failed e))
    (missing_index : (next : Segment) (rest : Segments) (vs : Items) (i : ℕ)
      → Items.get vs i ≡ none
      → P (index i ∷ next ∷ rest) (array vs) (array vs, finished))
    (missing_field : (next : Segment) (rest : Segments) (fs : Fields) (k : List ℕ)
      → Fields.get fs k ≡ none
      → P (field k ∷ next ∷ rest) (object fs) (object fs, finished))
    (under_index : (next : Segment) (rest : Segments) (vs : Items) (i : ℕ) (w : Value)
        (r : Value × Outcome)
      → Items.get vs i ≡ some w
      → P (next ∷ rest) w r
      → P (index i ∷ next ∷ rest) (array vs) (array (Items.set vs i r.0), r.1))
    (under_field : (next : Segment) (rest : Segments) (fs : Fields) (k : List ℕ) (w : Value)
        (r : Value × Outcome)
      → Fields.get fs k ≡ some w
      → P (next ∷ rest) w r
      → P (field k ∷ next ∷ rest) (object fs) (object (Fields.set fs k r.0), r.1)) where
  delete_through_array :
      (all passed rest : Segments) (vs : Items) (i : ℕ) (next : Segment)
      → ((w : Value) → P (next ∷ rest) w (delete_loop all (passed ++ index i ∷ []) w (next ∷ rest)))
      → P
          (index i ∷ next ∷ rest)
          (array vs)
          (delete_loop all passed (array vs) (index i ∷ next ∷ rest))
  delete_through_array all passed rest vs i next deeper = elim (Option-cases (Items.get vs i)) [
    | inl e ↦
        subst (P (index i ∷ next ∷ rest) (array vs))
          (sym (delete_index-missing all passed rest vs i next e)) (missing_index next rest vs i e)
    | inr (w, e) ↦
        subst (P (index i ∷ next ∷ rest) (array vs))
          (sym (delete_index-some all passed rest vs i next e))
          (under_index next rest vs i w _ e (deeper w))
  ]

  delete_through_object :
      (all passed rest : Segments) (fs : Fields) (k : List ℕ) (next : Segment)
      → ((w : Value) → P (next ∷ rest) w (delete_loop all (passed ++ field k ∷ []) w (next ∷ rest)))
      → P
          (field k ∷ next ∷ rest)
          (object fs)
          (delete_loop all passed (object fs) (field k ∷ next ∷ rest))
  delete_through_object all passed rest fs k next deeper = elim (Option-cases (Fields.get fs k)) [
    | inl e ↦
        subst (P (field k ∷ next ∷ rest) (object fs))
          (sym (delete_field-missing all passed rest fs k next e)) (missing_field next rest fs k e)
    | inr (w, e) ↦
        subst (P (field k ∷ next ∷ rest) (object fs))
          (sym (delete_field-some all passed rest fs k next e))
          (under_field next rest fs k w _ e (deeper w))
  ]

  pub delete_loop-induction :
      (base : (all passed : Segments) (it : Value) (s : Segment)
        → P (s ∷ []) it (delete_loop all passed it (s ∷ [])))
      (s : Segment) (rest all passed : Segments) (it : Value)
      → P (s ∷ rest) it (delete_loop all passed it (s ∷ rest))
  delete_loop-induction base s [] all passed it = base all passed it s
  delete_loop-induction base (index i) (next ∷ rest) all passed it =
      elim (Option-cases (as_array it)) [
        | inl e ↦
            subst (P (index i ∷ next ∷ rest) it)
              (sym (delete_index-none all passed rest it i next e))
              (wrong_kind (index i ∷ next ∷ rest) it (is_not_an_array passed))
        | inr (vs, e) ↦
            subst
              (λ x. P (index i ∷ next ∷ rest) x (delete_loop all passed x (index i ∷ next ∷ rest)))
              (sym (as_array-eq-some it e))
              (delete_through_array all passed rest vs i next
                (λ w. delete_loop-induction base next rest all (passed ++ index i ∷ []) w))
      ]
  delete_loop-induction base (field k) (next ∷ rest) all passed it =
      elim (Option-cases (as_object it)) [
        | inl e ↦
            subst (P (field k ∷ next ∷ rest) it)
              (sym (delete_field-none all passed rest it k next e))
              (wrong_kind (field k ∷ next ∷ rest) it (is_not_an_object passed))
        | inr (fs, e) ↦
            subst
              (λ x. P (field k ∷ next ∷ rest) x (delete_loop all passed x (field k ∷ next ∷ rest)))
              (sym (as_object-eq-some it e))
              (delete_through_object all passed rest fs k next
                (λ w. delete_loop-induction base next rest all (passed ++ field k ∷ []) w))
      ]
