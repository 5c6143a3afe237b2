-- ===== src/Fieldpath/Paved/Erase.antt =====
-- `delete` and `DeleteField` on a paved object.
use crossplane_runtime.Base.{
  ℕ, ◌≡◌, refl, sym, ◌∙◌, ap, subst, Option, none, some, List, [], ◌∷◌, Bytes,
}
use crossplane_runtime.Fieldpath.Segment.{Segment, field, index, Segments}
use crossplane_runtime.Fieldpath.Errors.{
  cannot_parse_path, Error, wrap, Result, ok, err, crash, NoCrash,
}
use crossplane_runtime.Fieldpath.Lexer.Total.{parse-NoCrash}
use crossplane_runtime.Fieldpath.Lexer.{parse}
use crossplane_runtime.Fieldpath.Value.{Value, object, Fields, end}
use crossplane_runtime.Fieldpath.Fields
use crossplane_runtime.Fieldpath.Paved.{
  Paved, content, get_loop, get_value_at, Outcome, finished, failed, with_root, delete_loop,
  delete_root, delete, delete_field,
}
use crossplane_runtime.Fieldpath.Paved.Remove.{delete_loop-induction}
use crossplane_runtime.Fieldpath.Paved.Delete.{
  NotFound, EndsInField, DeleteResult, ended, kept, delete_loop-DeleteResult, delete_loop-Gone,
  delete_loop-KeepsRest,
}
use crossplane_runtime.Fieldpath.Paved.Frame.{Apart, Keeps}
use crossplane_runtime.Fieldpath.Paved.Write.{with_root_same, with_root-Keeps, get_root}

-- A map stays a map, and the empty one stays empty.
abbrev StaysMap : Value → Value × Outcome → Type 0
StaysMap it r =
    ((fs : Fields) → it ≡ object fs → (gs : Fields) × (r.0 ≡ object gs))
    × (it ≡ object end → r.0 ≡ object end)

StaysMap-last :
    (all passed : Segments) (it : Value) (s : Segment)
    → StaysMap it (delete_loop all passed it (s ∷ []))
unfolding delete_loop
StaysMap-last all passed it (field k) = (
  λ fs e. (Fields.delete fs k, ap (λ x. (delete_loop all passed x (field k ∷ [])).0) e),
  λ e. ap (λ x. (delete_loop all passed x (field k ∷ [])).0) e ∙ (unfold Fields.delete in refl),
)
StaysMap-last all passed it (index i) = (
  λ fs e. (fs, ap (λ x. (delete_loop all passed x (index i ∷ [])).0) e),
  λ e. ap (λ x. (delete_loop all passed x (index i ∷ [])).0) e,
)

object_inj : {fs gs : Fields} → object fs ≡ object gs → fs ≡ gs
object_inj h = cc

end-no_key : (fs : Fields) (k : List ℕ) {w : Value} → Fields.get fs k ≡ some w → fs ≡ end → ⊥
end-no_key fs k e h =
    let empty : Fields.get end k ≡ none = unfold Fields.get in refl in
    let there = ap (λ g. Fields.get g k) (sym h) ∙ e in let bad = sym empty ∙ there in cc

delete_loop-StaysMap :
    (s : Segment) (rest all passed : Segments) (it : Value)
    → StaysMap it (delete_loop all passed it (s ∷ rest))
delete_loop-StaysMap =
    delete_loop-induction (λ s it r. StaysMap it r) (λ s it e. (λ fs h. (fs, h), λ h. h))
      (λ next rest vs i e. (λ fs h. (fs, h), λ h. h))
      (λ next rest fs k e. (λ gs h. (gs, h), λ h. h))
      (λ next rest vs i w r e h. (λ fs x. cc, λ x. cc))
      (λ next rest fs k w r e h.
        (λ gs x. (Fields.set fs k r.0, refl), λ x. absurd (end-no_key fs k e (object_inj x))))
      StaysMap-last

-- What `delete` leaves of `p`.
pub data Deletes (p : Paved) : Paved × Outcome → Type 0 where
  deleted : (q : Paved) → q.max_field_path_index ≡ p.max_field_path_index → Deletes p (q, finished)
  untouched : (e : Error) → Deletes p (p, failed e)

with_root-Deletes :
    (p : Paved) (fs : Fields) {r : Value × Outcome}
    → p.object ≡ some fs
    → DeleteResult (object fs) r
    → Deletes p (with_root p r)
with_root-Deletes p fs h (ended after) = deleted _ refl
with_root-Deletes p fs h (kept x) =
    subst (Deletes p) (sym (with_root_same p (failed x) h)) (untouched x)

nil-Deletes : (p : Paved) {r : Value × Outcome} → DeleteResult (object end) r → Deletes p (p, r.1)
nil-Deletes p (ended after) = deleted p refl
nil-Deletes p (kept x) = untouched x

delete_root-Deletes :
    (p : Paved) (s : Segments) (o : Option Fields) → p.object ≡ o → Deletes p (delete_root p s o)
unfolding delete_root
delete_root-Deletes p [] (some fs) h =
    unfold delete_loop in subst (Deletes p) (sym (with_root_same p finished h)) (deleted p refl)
delete_root-Deletes p [] none h = unfold delete_loop in deleted p refl
delete_root-Deletes p (s ∷ rest) (some fs) h =
    with_root-Deletes p fs h (delete_loop-DeleteResult s rest (s ∷ rest) [] (object fs))
delete_root-Deletes p (s ∷ rest) none h =
    nil-Deletes p (delete_loop-DeleteResult s rest (s ∷ rest) [] (object end))

parsed-Deletes :
    (p : Paved) (path : Bytes) (r : Result Segments)
    → parse path ≡ r
    → NoCrash r
    → Deletes p (delete_field p path)
unfolding delete_field delete
parsed-Deletes p path (ok s) e n = rw (e, delete_field) (delete_root-Deletes p s p.object refl)
parsed-Deletes p path (err x) e n =
    rw (e, delete_field) (untouched (wrap (cannot_parse_path path) x))
parsed-Deletes p path (crash c) e n = elim n [ ]

-- `DeleteField` never panics, on the nil map neither. Where it fails the object is as before.
pub delete_field-Deletes : (p : Paved) (path : Bytes) → Deletes p (delete_field p path)
delete_field-Deletes p path = parsed-Deletes p path (parse path) refl (parse-NoCrash path)

get_at_object :
    (p : Paved) (o : Outcome) (gs : Fields) (s : Segment) (rest : Segments)
    → get_value_at (with_root p (object gs, o)).0 (s ∷ rest) ≡ get_loop [] (object gs) (s ∷ rest)
get_at_object p o gs s rest = get_root (with_root p (object gs, o)).0 s rest

get_at_nil :
    (p : Paved) (s : Segment) (rest : Segments)
    → p.object ≡ none
    → get_value_at p (s ∷ rest) ≡ get_loop [] (object end) (s ∷ rest)
get_at_nil p s rest h = get_root p s rest ∙ ap (λ m. get_loop [] (object (content m)) (s ∷ rest)) h

root-Gone :
    (p : Paved) (s : Segment) (rest : Segments) (o : Option Fields)
    → p.object ≡ o
    → EndsInField (s ∷ rest)
    → (delete_root p (s ∷ rest) o).1 ≡ finished
    → NotFound (get_value_at (delete_root p (s ∷ rest) o).0 (s ∷ rest))
unfolding delete_root
root-Gone p s rest (some fs) h ends done =
    let (gs, stays) = (delete_loop-StaysMap s rest (s ∷ rest) [] (object fs)).0 fs refl in
    let o = (delete_loop (s ∷ rest) [] (object fs) (s ∷ rest)).1 in
    let gone = delete_loop-Gone s rest (s ∷ rest) [] (object fs) ends done [] in
    subst (λ x. NotFound (get_value_at (with_root p (x, o)).0 (s ∷ rest))) (sym stays)
      (subst NotFound (sym (get_at_object p o gs s rest))
        (subst (λ x. NotFound (get_loop [] x (s ∷ rest))) stays gone))
root-Gone p s rest none h ends done =
    let stays = (delete_loop-StaysMap s rest (s ∷ rest) [] (object end)).1 refl in
    let gone = delete_loop-Gone s rest (s ∷ rest) [] (object end) ends done [] in
    subst NotFound (sym (get_at_nil p s rest h))
      (subst (λ x. NotFound (get_loop [] x (s ∷ rest))) stays gone)

-- When the deletion of a name has succeeded, nothing is found there any more: `GetValue` returns an
-- error that `IsNotFound` recognises.
pub delete-Gone :
    (p : Paved) (s : Segments)
    → EndsInField s
    → (delete p s).1 ≡ finished
    → NotFound (get_value_at (delete p s).0 s)
unfolding delete
delete-Gone p [] ends done = absurd ends
delete-Gone p (s ∷ rest) ends done = root-Gone p s rest p.object refl ends done

root-KeepsRest :
    (p : Paved) (s : Segment) (rest t : Segments) (o : Option Fields) {w : Value}
    → p.object ≡ o
    → EndsInField (s ∷ rest)
    → Apart (s ∷ rest) t
    → get_value_at p t ≡ ok w
    → get_value_at (delete_root p (s ∷ rest) o).0 t ≡ ok w
unfolding delete_root
root-KeepsRest p s rest t none h ends apart e = e
root-KeepsRest p s rest t (some fs) {w} h ends apart e =
    let (gs, stays) = (delete_loop-StaysMap s rest (s ∷ rest) [] (object fs)).0 fs refl in
    let o = (delete_loop (s ∷ rest) [] (object fs) (s ∷ rest)).1 in
    let keep = delete_loop-KeepsRest s rest (s ∷ rest) [] (object fs) ends in
    subst (λ x. get_value_at (with_root p (x, o)).0 t ≡ ok w) (sym stays)
      (with_root-Keeps p (s ∷ rest) t fs gs o h (subst (Keeps (s ∷ rest) (object fs)) stays keep)
        apart e)

-- Deleting a name keeps every value that is found at segments which part from it, whether the
-- deletion succeeds or fails.
pub delete-Keeps :
    (p : Paved) (s t : Segments) {w : Value}
    → EndsInField s
    → Apart s t
    → get_value_at p t ≡ ok w
    → get_value_at (delete p s).0 t ≡ ok w
unfolding delete
delete-Keeps p [] t ends apart e = absurd ends
delete-Keeps p (s ∷ rest) t ends apart e = root-KeepsRest p s rest t p.object refl ends apart e
