-- ===== src/Fieldpath/Paved/Delete.antt =====
-- Deleting at a path: what is gone, what stays, and what an error or a missing place leaves.
use crossplane_runtime.Base.{
  ℕ, ◌<◌, ◌≤◌, ◌≡◌, refl, sym, ◌∙◌, ap, subst, true, false, ◌||◌, none, some, inl, inr, List, [],
  ◌∷◌, ◌++◌, arith, leb, ◌==◌, equal, equal_iff, Bool-cases, Option-cases, some_inj,
}
use crossplane_runtime.Fieldpath.Segment.{Segment, field, index, Segments}
use crossplane_runtime.Fieldpath.Errors.{
  cannot_delete, Error, Result, err, is_not_found, array_needed, object_needed, no_such_element,
  no_such_field, wrap,
}
use crossplane_runtime.Fieldpath.Value.{Value, array, object, Items, Fields}
use crossplane_runtime.Fieldpath.Items
use crossplane_runtime.Fieldpath.Fields
use crossplane_runtime.Fieldpath.Paved.{
  as_array, as_object, get_segment, get_loop, Outcome, finished, failed, delete_field_of,
  delete_loop,
}
use crossplane_runtime.Fieldpath.Paved.Prepare.{as_object-eq-some}
use crossplane_runtime.Fieldpath.Paved.Remove.{delete_loop-induction}
use crossplane_runtime.Fieldpath.Paved.Set.{get_loop-index, get_loop-field}
use crossplane_runtime.Fieldpath.Paved.Frame.{
  Keeps, Keeps-refl, Keeps-set_index, Keeps-set_field, get_object-index, get_object-cong,
}

abbrev pub NotFound : Result Value → Type 0
NotFound r = (e : Error) × (r ≡ err e) × (is_not_found e ≡ true)

abbrev pub EndsInField : Segments → Type 0
EndsInField [] = ⊥
EndsInField (field k ∷ []) = Unit
EndsInField (index i ∷ []) = ⊥
EndsInField (a ∷ b ∷ rest) = EndsInField (b ∷ rest)

-- The last round, on a container of the wrong kind and of the right one.
delete_last-no_array :
    (all passed : Segments) (it : Value) (i : ℕ)
    → as_array it ≡ none
    → (e : Error) × (delete_loop all passed it (index i ∷ []) ≡ (it, failed e))
unfolding delete_loop
delete_last-no_array all passed it i e =
    (wrap (cannot_delete all) array_needed, rw (e, delete_field_of))

delete_last-no_object :
    (all passed : Segments) (it : Value) (k : List ℕ)
    → as_object it ≡ none
    → (e : Error) × (delete_loop all passed it (field k ∷ []) ≡ (it, failed e))
unfolding delete_loop
delete_last-no_object all passed it k e =
    (wrap (cannot_delete all) object_needed, rw (e, delete_field_of))

delete_last-field :
    (all passed : Segments) (fs : Fields) (k : List ℕ)
    → delete_loop all passed (object fs) (field k ∷ []) ≡ (object (Fields.delete fs k), finished)
unfolding delete_loop
delete_last-field all passed fs k = refl

delete_last-short :
    (all passed : Segments) (vs : Items) (i : ℕ)
    → Items.length vs ≤ i
    → delete_loop all passed (array vs) (index i ∷ []) ≡ (array vs, finished)
unfolding delete_loop
delete_last-short all passed vs i h =
    let e : (Items.length vs == 0 || leb (Items.length vs) i) ≡ true = ground arith in rw e

delete_last-index :
    (all passed : Segments) (vs : Items) (i : ℕ)
    → i < Items.length vs
    → delete_loop all passed (array vs) (index i ∷ []) ≡ (array (Items.delete vs i), finished)
unfolding delete_loop
delete_last-index all passed vs i h =
    let e : (Items.length vs == 0 || leb (Items.length vs) i) ≡ false = ground arith in rw e

get_field-missing :
    (q rest : Segments) (fs : Fields) (k : List ℕ)
    → Fields.get fs k ≡ none
    → NotFound (get_loop q (object fs) (field k ∷ rest))
unfolding get_loop is_not_found
get_field-missing q rest fs k e = (no_such_field (q ++ field k ∷ []), rw (e, get_segment), refl)

get_index-missing :
    (q rest : Segments) (vs : Items) (i : ℕ)
    → Items.get vs i ≡ none
    → NotFound (get_loop q (array vs) (index i ∷ rest))
unfolding get_loop is_not_found
get_index-missing q rest vs i e = (no_such_element (q ++ index i ∷ []), rw (e, get_segment), refl)

-- A deletion ends, or fails and leaves all as it was; it never panics.
pub data DeleteResult (it : Value) : Value × Outcome → Type 0 where
  ended : (after : Value) → DeleteResult it (after, finished)
  kept : (e : Error) → DeleteResult it (it, failed e)

DeleteResult-index :
    (vs : Items) (i : ℕ) (w : Value) {r : Value × Outcome}
    → Items.get vs i ≡ some w
    → DeleteResult w r
    → DeleteResult (array vs) (array (Items.set vs i r.0), r.1)
DeleteResult-index vs i w e (ended after) = ended _
DeleteResult-index vs i w e (kept x) =
    subst (λ ws. DeleteResult (array vs) (array ws, failed x)) (sym (Items.set-get vs i e)) (kept x)

DeleteResult-field :
    (fs : Fields) (k : List ℕ) (w : Value) {r : Value × Outcome}
    → Fields.get fs k ≡ some w
    → DeleteResult w r
    → DeleteResult (object fs) (object (Fields.set fs k r.0), r.1)
DeleteResult-field fs k w e (ended after) = ended _
DeleteResult-field fs k w e (kept x) =
    subst (λ gs. DeleteResult (object fs) (object gs, failed x)) (sym (Fields.set-get fs k e))
      (kept x)

DeleteResult-last :
    (all passed : Segments) (it : Value) (s : Segment)
    → DeleteResult it (delete_loop all passed it (s ∷ []))
unfolding delete_loop
DeleteResult-last all passed it (field k) = elim (Option-cases (as_object it)) [
  | inl e ↦ rw (e, delete_field_of) (kept _)
  | inr (fs, e) ↦ rw (e, delete_field_of) (ended _)
]
DeleteResult-last all passed it (index i) = elim (Option-cases (as_array it)) [
  | inl e ↦ rw (e, delete_field_of) (kept _)
  | inr (vs, e) ↦ elim (Bool-cases (Items.length vs == 0 || leb (Items.length vs) i)) [
    | inl short ↦ rw (e, delete_field_of) (rw short (ended _))
    | inr long ↦ rw (e, delete_field_of) (rw long (ended _))
  ]
]

pub delete_loop-DeleteResult :
    (s : Segment) (rest all passed : Segments) (it : Value)
    → DeleteResult it (delete_loop all passed it (s ∷ rest))
delete_loop-DeleteResult =
    delete_loop-induction (λ s it r. DeleteResult it r) (λ s it e. kept e)
      (λ next rest vs i e. ended _) (λ next rest fs k e. ended _)
      (λ next rest vs i w r e h. DeleteResult-index vs i w e h)
      (λ next rest fs k w r e h. DeleteResult-field fs k w e h) DeleteResult-last

-- Nothing is found at a name that was deleted.
abbrev Gone : Segments → Value → Value × Outcome → Type 0
Gone s it r = EndsInField s → r.1 ≡ finished → (q : Segments) → NotFound (get_loop q r.0 s)

Gone-last :
    (all passed : Segments) (it : Value) (s : Segment)
    → Gone (s ∷ []) it (delete_loop all passed it (s ∷ []))
Gone-last all passed it (index i) h done q = elim h [ ]
Gone-last all passed it (field k) h done q = elim (Option-cases (as_object it)) [
  | inl e ↦ let (x, k) = delete_last-no_object all passed it k e in let f = ap (λ r. r.1) k in cc
  | inr (fs, e) ↦
      let gone =
        ap (λ x. (delete_loop all passed x (field k ∷ [])).0) (as_object-eq-some it e)
        ∙ ap (λ r. r.0) (delete_last-field all passed fs k) in
      rw gone (get_field-missing q [] (Fields.delete fs k) k (Fields.get-delete_self fs k))
]

pub delete_loop-Gone :
    (s : Segment) (rest all passed : Segments) (it : Value)
    → Gone (s ∷ rest) it (delete_loop all passed it (s ∷ rest))
delete_loop-Gone =
    delete_loop-induction Gone (λ s it e h done q. cc)
      (λ next rest vs i e h done q. get_index-missing q (next ∷ rest) vs i e)
      (λ next rest fs k e h done q. get_field-missing q (next ∷ rest) fs k e)
      (λ next rest vs i w r e deeper h done q.
        rw
          (get_loop-index q (next ∷ rest) (Items.set vs i r.0) i
            (Items.get-set_self vs i r.0 (Items.get-lt vs i e)))
          (deeper h done (q ++ index i ∷ [])))
      (λ next rest fs k w r e deeper h done q.
        rw (get_loop-field q (next ∷ rest) (Fields.set fs k r.0) k (Fields.get-set_self fs k r.0))
          (deeper h done (q ++ field k ∷ [])))
      Gone-last

-- What was found apart from a deleted name is found as before.
abbrev KeepsRest : Segments → Value → Value × Outcome → Type 0
KeepsRest s it r = EndsInField s → Keeps s it r.0

Keeps-delete :
    (fs : Fields) (k : List ℕ) → Keeps (field k ∷ []) (object fs) (object (Fields.delete fs k))
Keeps-delete fs k q [] w apart h = absurd apart
Keeps-delete fs k q (index j ∷ t) w apart h = absurd (get_object-index q t fs j h)
Keeps-delete fs k q (field j ∷ t) w (inr (e, apart)) h = absurd apart
Keeps-delete fs k q (field j ∷ t) w (inl ne) h = elim (Bool-cases (equal k j)) [
  | inl same ↦ absurd (ne (ap field ((equal_iff k j).0 same)))
  | inr other ↦
      get_object-cong q t fs (Fields.delete fs k) j (Fields.get-delete fs k j ∙ rw other) ∙ h
]

KeepsRest-last :
    (all passed : Segments) (it : Value) (s : Segment)
    → KeepsRest (s ∷ []) it (delete_loop all passed it (s ∷ []))
KeepsRest-last all passed it (index i) ends = absurd ends
KeepsRest-last all passed it (field k) ends = elim (Option-cases (as_object it)) [
  | inl e ↦
      let (x, same) = delete_last-no_object all passed it k e in
      subst (λ r. Keeps (field k ∷ []) it r.0) (sym same) (Keeps-refl (field k ∷ []) it)
  | inr (fs, e) ↦
      subst (λ x. Keeps (field k ∷ []) x (delete_loop all passed x (field k ∷ [])).0)
        (sym (as_object-eq-some it e))
        (subst (λ r. Keeps (field k ∷ []) (object fs) r.0) (sym (delete_last-field all passed fs k))
          (Keeps-delete fs k))
]

pub delete_loop-KeepsRest :
    (s : Segment) (rest all passed : Segments) (it : Value)
    → KeepsRest (s ∷ rest) it (delete_loop all passed it (s ∷ rest))
delete_loop-KeepsRest =
    delete_loop-induction KeepsRest (λ s it e ends. Keeps-refl s it)
      (λ next rest vs i e ends. Keeps-refl (index i ∷ next ∷ rest) (array vs))
      (λ next rest fs k e ends. Keeps-refl (field k ∷ next ∷ rest) (object fs))
      (λ next rest vs i w r e deeper ends. Keeps-set_index (next ∷ rest) vs i w r.0 e (deeper ends))
      (λ next rest fs k w r e deeper ends. Keeps-set_field (next ∷ rest) fs k r.0 (λ v there.
        subst (λ x. Keeps (next ∷ rest) x r.0) (some_inj (sym e ∙ there)) (deeper ends)))
      KeepsRest-last
