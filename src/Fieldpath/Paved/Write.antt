-- ===== src/Fieldpath/Paved/Write.antt =====
-- The setters on a paved object: what they leave, on every path and for every value.
use crossplane_runtime.Base.{
  ◌≡◌, refl, sym, ◌∙◌, ap, subst, Option, none, some, ◌⊎◌, inl, inr, List, ℕ, [], ◌∷◌, Bytes, ltb,
  Bool-cases,
}
use crossplane_runtime.Fieldpath.Segment.{Segment, field, index, Segments}
use crossplane_runtime.Fieldpath.Errors.{
  Context, cannot_parse_path, cannot_marshal, cannot_unmarshal, NoCrash-bind, Error, wrap, Result,
  ok, err, crash, NoCrash, on_ok, on_err, is_not_an_array,
}
use crossplane_runtime.Fieldpath.Lexer.Total.{parse-NoCrash}
use crossplane_runtime.Fieldpath.Lexer.{parse}
use crossplane_runtime.Fieldpath.Value.{Value, object, Fields}
use crossplane_runtime.Fieldpath.Paved.{
  Paved, root, get_loop, get_value_at, get_value, Outcome, finished, failed, content,
  after_validation, set_loop, set_root, validate_loop, validate_segments, with_root, set_json, Json,
  from_library, to_valid_json, set_value_at, set_value,
}
use crossplane_runtime.Fieldpath.Paved.Frame.{Apart, Keeps, set_loop-Keeps}
use crossplane_runtime.Fieldpath.Paved.Set.{
  SetResult, changed, unchanged, set_loop-no_array, set_loop-SetResult,
}

-- What a setter at segments leaves of `p`.
pub data SetAt (p : Paved) (s : Segments) (v : Value) : Paved × Outcome → Type 0 where
  stored :
      (q : Paved)
      → get_value_at q s ≡ ok v
      → q.max_field_path_index ≡ p.max_field_path_index
      → SetAt p s v (q, finished)
  nowhere : s ≡ [] → SetAt p s v (p, finished)
  kept : (e : Error) → SetAt p s v (p, failed e)

root_stays :
    (fs : Fields) (k : List ℕ) (rest passed : Segments) (v : Value)
    → (gs : Fields) × ((set_loop passed (object fs) (field k ∷ rest) v).0 ≡ object gs)
unfolding set_loop
root_stays fs k [] passed v = (_, refl)
root_stays fs k (next ∷ rest) passed v = (_, refl)

get_value_at-loop :
    (q : Paved) (s : Segment) (rest : Segments) {gs : Fields}
    → q.object ≡ some gs
    → get_value_at q (s ∷ rest) ≡ get_loop [] (object gs) (s ∷ rest)
unfolding get_value_at
get_value_at-loop q s rest e = rw e

pub with_root_same :
    (p : Paved) (o : Outcome) {fs : Fields}
    → p.object ≡ some fs
    → with_root p (object fs, o) ≡ (p, o)
with_root_same p o h =
    let remake : Option Fields → Paved × Outcome = λ m. (record p { object = m }, o) in
    ap remake (sym h)

with_root-SetAt :
    (p : Paved) (fs : Fields) (k : List ℕ) (rest : Segments) (v : Value) {r : Value × Outcome}
    → p.object ≡ some fs
    → (gs : Fields) × (r.0 ≡ object gs)
    → SetResult (object fs) (field k ∷ rest) v r
    → SetAt p (field k ∷ rest) v (with_root p r)
with_root-SetAt p fs k rest v h (gs, e) (changed after reads) =
    subst (λ x. SetAt p (field k ∷ rest) v (with_root p (x, finished))) (sym e)
      (stored (record p { object = some gs })
        (get_value_at-loop (record p { object = some gs }) (field k) rest refl
          ∙ subst (λ x. get_loop [] x (field k ∷ rest) ≡ ok v) e (reads []))
        refl)
with_root-SetAt p fs k rest v h (gs, e) (unchanged x) =
    subst (SetAt p (field k ∷ rest) v) (sym (with_root_same p (failed x) h)) (kept x)

validate_loop-NoCrash : (limit : ℕ) (s : Segments) → NoCrash (validate_loop limit s)
unfolding validate_loop
validate_loop-NoCrash limit [] = on_ok tt
validate_loop-NoCrash limit (field k ∷ rest) = validate_loop-NoCrash limit rest
validate_loop-NoCrash limit (index i ∷ rest) = elim (Bool-cases (ltb limit i)) [
  | inl e ↦ rw e (on_err _)
  | inr e ↦ rw e (validate_loop-NoCrash limit rest)
]

validate_segments-NoCrash : (p : Paved) (s : Segments) → NoCrash (validate_segments p s)
unfolding validate_segments
validate_segments-NoCrash p s = elim (Bool-cases (ltb 0 p.max_field_path_index)) [
  | inl e ↦ rw e (validate_loop-NoCrash p.max_field_path_index s)
  | inr e ↦ rw e (on_ok tt)
]

-- The loop from a root that is a map.
loop-SetAt :
    (p : Paved) (s : Segments) (v : Value) {fs : Fields}
    → p.object ≡ some fs
    → SetAt p s v (with_root p (set_loop [] (object fs) s v))
loop-SetAt p [] v {fs} h =
    unfold set_loop in subst (SetAt p [] v) (sym (with_root_same p finished h)) (nowhere refl)
loop-SetAt p (index i ∷ rest) v {fs} h =
    subst (SetAt p (index i ∷ rest) v)
      (sym (
        ap (with_root p) (set_loop-no_array [] (object fs) i rest v refl)
        ∙ with_root_same p (failed (is_not_an_array [])) h))
      (kept (is_not_an_array []))
loop-SetAt p (field k ∷ rest) v {fs} h =
    with_root-SetAt p fs k rest v h (root_stays fs k rest [] v)
      (set_loop-SetResult (field k ∷ rest) [] (object fs) v tt (λ n. cc))

validated-SetAt :
    (p : Paved) (s : Segments) (v : Value) (r : Result (Unit {0})) {fs : Fields}
    → p.object ≡ some fs
    → validate_segments p s ≡ r
    → NoCrash r
    → SetAt p s v (set_json p s v)
unfolding set_json
validated-SetAt p s v (ok u) h e n =
    rw (e, set_json)
      (subst (λ o. SetAt p s v (set_root p s v o)) (sym h) (unfold set_root in loop-SetAt p s v h))
validated-SetAt p s v (err x) h e n = rw (e, set_json) (kept x)
validated-SetAt p s v (crash c) h e n = elim n [ ]

pub set_json-SetAt :
    (p : Paved) (s : Segments) (v : Value) {fs : Fields}
    → p.object ≡ some fs
    → SetAt p s v (set_json p s v)
set_json-SetAt p s v h =
    validated-SetAt p s v (validate_segments p s) h refl (validate_segments-NoCrash p s)

-- What `SetValue` leaves of `p`.
pub data SetPath {V : Type 0} (json : Json V) (p : Paved) (path : Bytes) (x : V)
    : Paved × Outcome → Type 0 where
  stored :
      (q : Paved) (v : Value)
      → to_valid_json json x ≡ ok v
      → get_value q path ≡ ok v
      → q.max_field_path_index ≡ p.max_field_path_index
      → SetPath json p path x (q, finished)
  nowhere : parse path ≡ ok [] → SetPath json p path x (p, finished)
  kept : (e : Error) → SetPath json p path x (p, failed e)

from_library-NoCrash : {A : Type 0} (c : Context) (r : Bytes ⊎ A) → NoCrash (from_library c r)
from_library-NoCrash c (inl m) = on_err _
from_library-NoCrash c (inr a) = on_ok a

to_valid_json-NoCrash : {V : Type 0} (json : Json V) (x : V) → NoCrash (to_valid_json json x)
unfolding to_valid_json
to_valid_json-NoCrash json x =
    NoCrash-bind (from_library-NoCrash cannot_marshal (json.marshal x))
      (λ j. from_library-NoCrash cannot_unmarshal (json.unmarshal j))

get_value-parsed :
    (q : Paved) (path : Bytes) {s : Segments}
    → parse path ≡ ok s
    → get_value q path ≡ get_value_at q s
unfolding get_value
get_value-parsed q path e = rw e

module _ {V : Type 0} (json : Json V) (p : Paved) (path : Bytes) (x : V) where
  SetAt-SetPath :
      {s : Segments} {v : Value} {r : Paved × Outcome}
      → parse path ≡ ok s
      → to_valid_json json x ≡ ok v
      → SetAt p s v r
      → SetPath json p path x r
  SetAt-SetPath {s} {v} e j (stored q reads limit) =
      stored q v j (get_value-parsed q path e ∙ reads) limit
  SetAt-SetPath e j (nowhere n) = nowhere (e ∙ ap ok n)
  SetAt-SetPath e j (kept x) = kept x

  converted-SetPath :
      (s : Segments) (r : Result Value) {fs : Fields}
      → p.object ≡ some fs
      → parse path ≡ ok s
      → to_valid_json json x ≡ r
      → NoCrash r
      → SetPath json p path x (set_value_at json p s x)
  unfolding set_value_at
  converted-SetPath s (ok v) h e j n =
      rw (j, set_value_at) (SetAt-SetPath e j (set_json-SetAt p s v h))
  converted-SetPath s (err y) h e j n = rw (j, set_value_at) (kept y)
  converted-SetPath s (crash c) h e j n = elim n [ ]

  parsed-SetPath :
      (r : Result Segments) {fs : Fields}
      → p.object ≡ some fs
      → parse path ≡ r
      → NoCrash r
      → SetPath json p path x (set_value json p path x)
  unfolding set_value
  parsed-SetPath (ok s) h e n =
      rw (e, set_value)
        (converted-SetPath s (to_valid_json json x) h e refl (to_valid_json-NoCrash json x))
  parsed-SetPath (err y) h e n = rw (e, set_value) (kept (wrap (cannot_parse_path path) y))
  parsed-SetPath (crash c) h e n = elim n [ ]

  -- On an object that is not the nil map, `SetValue` ends in one of three ways, and never in a
  -- panic: it succeeds, and `GetValue` then finds the value's JSON form at the path; it fails, and
  -- the object is as before; or the path has no segment, and nothing happens.
  pub set_value-SetPath :
      {fs : Fields} → p.object ≡ some fs → SetPath json p path x (set_value json p path x)
  set_value-SetPath h = parsed-SetPath (parse path) h refl (parse-NoCrash path)

pub get_root :
    (p : Paved) (s : Segment) (t : Segments) → get_value_at p (s ∷ t) ≡ get_loop [] (root p) (s ∷ t)
unfolding get_value_at
get_root p s t = refl

-- A root is replaced by what keeps all that is apart from `s`.
pub with_root-Keeps :
    (p : Paved) (s t : Segments) (fs gs : Fields) (o : Outcome) {w : Value}
    → p.object ≡ some fs
    → Keeps s (object fs) (object gs)
    → Apart s t
    → get_value_at p t ≡ ok w
    → get_value_at (with_root p (object gs, o)).0 t ≡ ok w
with_root-Keeps p [] t fs gs o h keep apart e = absurd apart
with_root-Keeps p (a ∷ s) [] fs gs o h keep apart e = absurd apart
with_root-Keeps p (a ∷ s) (b ∷ t) fs gs o {w} h keep apart e =
    get_root (with_root p (object gs, o)).0 b t
    ∙ keep [] (b ∷ t) w apart
        (ap (λ m. get_loop [] (object (content m)) (b ∷ t)) (sym h) ∙ sym (get_root p b t) ∙ e)

loop-Keeps :
    (p : Paved) (s t : Segments) (v : Value) (fs : Fields) {w : Value}
    → p.object ≡ some fs
    → Apart s t
    → get_value_at p t ≡ ok w
    → get_value_at (with_root p (set_loop [] (object fs) s v)).0 t ≡ ok w
loop-Keeps p [] t v fs h apart e = absurd apart
loop-Keeps p (index i ∷ rest) t v fs {w} h apart e =
    subst (λ r. get_value_at r.0 t ≡ ok w)
      (sym (
        ap (with_root p) (set_loop-no_array [] (object fs) i rest v refl)
        ∙ with_root_same p (failed (is_not_an_array [])) h))
      e
loop-Keeps p (field k ∷ rest) t v fs {w} h apart e =
    let (gs, stays) = root_stays fs k rest [] v in
    let keep = set_loop-Keeps (field k ∷ rest) [] (object fs) v in
    let o = (set_loop [] (object fs) (field k ∷ rest) v).1 in
    subst (λ x. get_value_at (with_root p (x, o)).0 t ≡ ok w) (sym stays)
      (with_root-Keeps p (field k ∷ rest) t fs gs o h
        (subst (Keeps (field k ∷ rest) (object fs)) stays keep) apart e)

root-Keeps :
    (p : Paved) (s t : Segments) (v : Value) (o : Option Fields) {w : Value}
    → p.object ≡ o
    → Apart s t
    → get_value_at p t ≡ ok w
    → get_value_at (set_root p s v o).0 t ≡ ok w
unfolding set_root
root-Keeps p s t v (some fs) h apart e = loop-Keeps p s t v fs h apart e
root-Keeps p [] t v none h apart e = e
root-Keeps p (index i ∷ s) t v none h apart e = e
root-Keeps p (field k ∷ s) t v none h apart e = e

-- Setting JSON data at segments keeps every value that is found at segments which part from them,
-- whether the setter succeeds, fails or panics.
pub set_json-Keeps :
    (p : Paved) (s t : Segments) (v : Value) {w : Value}
    → Apart s t
    → get_value_at p t ≡ ok w
    → get_value_at (set_json p s v).0 t ≡ ok w
unfolding set_json
set_json-Keeps p s t v {w} apart e = go (validate_segments p s)
  where
    go : (r : Result (Unit {0})) → get_value_at (after_validation p s v r).0 t ≡ ok w
    go (ok u) = root-Keeps p s t v p.object refl apart e
    go (err x) = e
    go (crash c) = e
