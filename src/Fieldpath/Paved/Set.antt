-- ===== src/Fieldpath/Paved/Set.antt =====
-- The loop of a setter: what it leaves at its own path, and where it fails.
use crossplane_runtime.Base.{
  ℕ, ◌<◌, ◌≡◌, ◌≢◌, refl, sym, ◌∙◌, ap, subst, none, some, ◌⊎◌, inl, inr, List, [], ◌∷◌, ◌++◌,
  Option-cases, equal_refl,
}
use crossplane_runtime.Fieldpath.Segment.{Segment, field, index, Segments}
use crossplane_runtime.Fieldpath.Errors.{Error, ok, is_not_an_array, is_not_an_object}
use crossplane_runtime.Fieldpath.Value.{Value, array, object, Items, Fields}
use crossplane_runtime.Fieldpath.Items
use crossplane_runtime.Fieldpath.Fields
use crossplane_runtime.Fieldpath.Paved.{
  as_array, as_object, get_segment, get_loop, Outcome, finished, failed, prepared_element,
  prepared_field, set_loop,
}
use crossplane_runtime.Fieldpath.Paved.Prepare.{
  as_array-eq-some, as_object-eq-some, Open-Fits, Fits, Prepared, prepared_element-Prepared,
  prepared_field-some, prepared_field-none, Open-finished,
}

-- What a setter leaves of `it`: the value at the path, or `it` itself behind an error.
pub data SetResult (it : Value) (s : Segments) (v : Value) : Value × Outcome → Type 0 where
  changed :
      (after : Value)
      → ((passed : Segments) → get_loop passed after s ≡ ok v)
      → SetResult it s v (after, finished)
  unchanged : (e : Error) → SetResult it s v (it, failed e)

pub get_loop-nil : (passed : Segments) (it : Value) → get_loop passed it [] ≡ ok it
unfolding get_loop
get_loop-nil passed it = refl

pub get_loop-index :
    (passed rest : Segments) (vs : Items) (i : ℕ) {w : Value}
    → Items.get vs i ≡ some w
    → get_loop passed (array vs) (index i ∷ rest) ≡ get_loop (passed ++ index i ∷ []) w rest
unfolding get_loop
get_loop-index passed rest vs i e = rw (e, get_segment)

pub get_loop-field :
    (passed rest : Segments) (fs : Fields) (k : List ℕ) {w : Value}
    → Fields.get fs k ≡ some w
    → get_loop passed (object fs) (field k ∷ rest) ≡ get_loop (passed ++ field k ∷ []) w rest
unfolding get_loop
get_loop-field passed rest fs k e = rw (e, get_segment)

-- A place whose value was prepared and then set.
set_index-SetResult :
    (vs : Items) (i : ℕ) (rest : Segments) {v w p : Value} {r : Value × Outcome}
    → Items.get vs i ≡ some w
    → (p ≡ w) ⊎ (r.1 ≡ finished)
    → SetResult p rest v r
    → SetResult (array vs) (index i ∷ rest) v (array (Items.set vs i r.0), r.1)
set_index-SetResult vs i rest e prepared (changed after reads) =
    changed (array (Items.set vs i after)) (λ passed.
      get_loop-index passed rest (Items.set vs i after) i
        (Items.get-set_self vs i after (Items.get-lt vs i e))
      ∙ reads (passed ++ index i ∷ []))
set_index-SetResult vs i rest {v} e (inr done) (unchanged x) = cc
set_index-SetResult vs i rest {v} {w} {p} e (inl same) (unchanged x) =
    subst (λ xs. SetResult (array vs) (index i ∷ rest) v (array xs, failed x))
      (sym (ap (Items.set vs i) same ∙ Items.set-get vs i e)) (unchanged x)

set_field-SetResult :
    (fs : Fields) (k : List ℕ) (rest : Segments) {v p : Value} {r : Value × Outcome}
    → (Fields.get fs k ≡ some p) ⊎ (r.1 ≡ finished)
    → SetResult p rest v r
    → SetResult (object fs) (field k ∷ rest) v (object (Fields.set fs k r.0), r.1)
set_field-SetResult fs k rest prepared (changed after reads) =
    changed (object (Fields.set fs k after)) (λ passed.
      get_loop-field passed rest (Fields.set fs k after) k
        (Fields.get-set fs k k after ∙ rw (equal_refl k))
      ∙ reads (passed ++ field k ∷ []))
set_field-SetResult fs k rest {v} (inr done) (unchanged x) = cc
set_field-SetResult fs k rest {v} {p} (inl same) (unchanged x) =
    subst (λ gs. SetResult (object fs) (field k ∷ rest) v (object gs, failed x))
      (sym (Fields.set-get fs k same)) (unchanged x)

-- The place is as it was, or the setter goes through it.
same_or_finished :
    {w p : Value} (next : Segment) (rest passed : Segments) (v : Value)
    → Prepared w p next
    → (p ≡ w) ⊎ ((set_loop passed p (next ∷ rest) v).1 ≡ finished)
same_or_finished {w} {p} next rest passed v h = elim h.same_or_open [
  | inl same ↦ inl same
  | inr open_place ↦ inr (Open-finished rest passed v p next open_place)
]

-- The array that is read at an index is long enough.
abbrev FitsAll : Value → Segments → Type 0
FitsAll it [] = Unit
FitsAll it (s ∷ rest) = Fits it s

pub set_loop-no_array :
    (passed : Segments) (it : Value) (i : ℕ) (rest : Segments) (v : Value)
    → as_array it ≡ none
    → set_loop passed it (index i ∷ rest) v ≡ (it, failed (is_not_an_array passed))
unfolding set_loop
set_loop-no_array passed it i [] v e = rw (e, set_loop)
set_loop-no_array passed it i (next ∷ rest) v e = rw (e, set_loop)

pub set_loop-no_object :
    (passed : Segments) (it : Value) (k : List ℕ) (rest : Segments) (v : Value)
    → as_object it ≡ none
    → set_loop passed it (field k ∷ rest) v ≡ (it, failed (is_not_an_object passed))
unfolding set_loop
set_loop-no_object passed it k [] v e = rw (e, set_loop)
set_loop-no_object passed it k (next ∷ rest) v e = rw (e, set_loop)

-- What is left under a key fits the next segment, and is as it was or gone through.
prepared_field-ready :
    (fs : Fields) (k : List ℕ) (next : Segment) (rest passed : Segments) (v : Value)
    → let p = prepared_field (Fields.get fs k) next in
      Fits p next
      × ((Fields.get fs k ≡ some p) ⊎ ((set_loop passed p (next ∷ rest) v).1 ≡ finished))
prepared_field-ready fs k next rest passed v = elim (Option-cases (Fields.get fs k)) [
  | inl missing ↦
      let o = prepared_field-none next in
      rw missing (Open-Fits o, inr (Open-finished rest passed v _ next o))
  | inr (w, there) ↦
      let ready = prepared_field-some w next in
      rw there (
        ready.fits,
        elim (same_or_finished next rest passed v ready) [
          | inl same ↦ inl (ap some (sym same))
          | inr done ↦ inr done
        ],
      )
]

set_array-SetResult :
    (vs : Items) (i : ℕ) (rest passed : Segments) (v : Value)
    → i < Items.length vs
    → ((passed : Segments) (it : Value)
        → FitsAll it rest
        → rest ≢ []
        → SetResult it rest v (set_loop passed it rest v))
    → SetResult (array vs) (index i ∷ rest) v (set_loop passed (array vs) (index i ∷ rest) v)
unfolding set_loop
set_array-SetResult vs i [] passed v h deeper =
    let (w, e) = Items.get_of_lt vs i h in
    rw (e, set_loop)
      (changed (array (Items.set vs i v)) (λ p.
        get_loop-index p [] (Items.set vs i v) i (Items.get-set_self vs i v h) ∙ get_loop-nil _ v))
set_array-SetResult vs i (next ∷ rest) passed v h deeper =
    let (w, e) = Items.get_of_lt vs i h in
    let ready = prepared_element-Prepared w next in
    rw (e, set_loop)
      (set_index-SetResult vs i (next ∷ rest) e
        (same_or_finished next rest (passed ++ index i ∷ []) v ready)
        (deeper (passed ++ index i ∷ []) (prepared_element w next) ready.fits (λ n. cc)))

set_object-SetResult :
    (fs : Fields) (k : List ℕ) (rest passed : Segments) (v : Value)
    → ((passed : Segments) (it : Value)
        → FitsAll it rest
        → rest ≢ []
        → SetResult it rest v (set_loop passed it rest v))
    → SetResult (object fs) (field k ∷ rest) v (set_loop passed (object fs) (field k ∷ rest) v)
unfolding set_loop
set_object-SetResult fs k [] passed v deeper = changed (object (Fields.set fs k v)) (λ p.
    get_loop-field p [] (Fields.set fs k v) k (Fields.get-set fs k k v ∙ rw (equal_refl k))
    ∙ get_loop-nil _ v)
set_object-SetResult fs k (next ∷ rest) passed v deeper =
    let (fits, same) = prepared_field-ready fs k next rest (passed ++ field k ∷ []) v in
    set_field-SetResult fs k (next ∷ rest) same
      (deeper (passed ++ field k ∷ []) (prepared_field (Fields.get fs k) next) fits (λ n. cc))

pub set_loop-SetResult :
    (s passed : Segments) (it v : Value)
    → FitsAll it s
    → s ≢ []
    → SetResult it s v (set_loop passed it s v)
set_loop-SetResult [] passed it v fits ne = absurd (ne refl)
set_loop-SetResult (index i ∷ rest) passed it v fits ne = elim (Option-cases (as_array it)) [
  | inl other ↦
      subst (SetResult it (index i ∷ rest) v) (sym (set_loop-no_array passed it i rest v other))
        (unchanged (is_not_an_array passed))
  | inr (vs, e) ↦
      subst (λ x. SetResult x (index i ∷ rest) v (set_loop passed x (index i ∷ rest) v))
        (sym (as_array-eq-some it e))
        (set_array-SetResult vs i rest passed v (fits vs e)
          (λ p x f n. set_loop-SetResult rest p x v f n))
]
set_loop-SetResult (field k ∷ rest) passed it v fits ne = elim (Option-cases (as_object it)) [
  | inl other ↦
      subst (SetResult it (field k ∷ rest) v) (sym (set_loop-no_object passed it k rest v other))
        (unchanged (is_not_an_object passed))
  | inr (fs, e) ↦
      subst (λ x. SetResult x (field k ∷ rest) v (set_loop passed x (field k ∷ rest) v))
        (sym (as_object-eq-some it e))
        (set_object-SetResult fs k rest passed v (λ p x f n. set_loop-SetResult rest p x v f n))
]
