-- ===== src/Fieldpath/Paved/Typed.antt =====
-- The typed getters: exactly when they succeed, and what they read of what a setter stored.
use crossplane_runtime.Base.{◌≡◌, refl, sym, ◌∙◌, ap, some, List, [], ◌∷◌, Bytes, ◌↔◌, ◌≢◌}
use crossplane_runtime.Fieldpath.Errors.{
  an_array_expected, an_object_expected, ok, ◌>>=◌, >>=-eq-ok,
}
use crossplane_runtime.Fieldpath.Lexer.{parse}
use crossplane_runtime.Fieldpath.Value.{
  Value, null, bool, int, float, string, array, object, Items, nil, cons, Fields, end, entry,
}
use crossplane_runtime.Fieldpath.Paved.{
  Paved, Json, as_array, as_object, Outcome, finished, get_value, set_value, to_valid_json,
}
use crossplane_runtime.Fieldpath.Paved.Write.{SetPath, stored, nowhere, kept, set_value-SetPath}
use crossplane_runtime.Fieldpath.Paved.Getters.{
  or_error, get_string, strings_of, get_string_array, string_fields_of, get_string_object,
  string_items, string_entries,
}

ok_inj {ℓ} : {A : Type ℓ} {a b : A} → ok a ≡ ok b → a ≡ b
ok_inj h = cc

strings_of-items :
    (path : Bytes) (vs : Items) {sa : List Bytes}
    → strings_of path vs ≡ ok sa
    → vs ≡ string_items sa
unfolding strings_of
strings_of-items path nil h = ap string_items (ok_inj h)
strings_of-items path (cons (string s) vs) h =
    let (r, e, same) = >>=-eq-ok (strings_of path vs) (λ sa. ok (s ∷ sa)) h in
    ap (cons (string s)) (strings_of-items path vs e) ∙ ap string_items (ok_inj same)
strings_of-items path (cons null vs) h = cc
strings_of-items path (cons (bool b) vs) h = cc
strings_of-items path (cons (int n) vs) h = cc
strings_of-items path (cons (float n) vs) h = cc
strings_of-items path (cons (array a) vs) h = cc
strings_of-items path (cons (object o) vs) h = cc

strings_of-string_items :
    (path : Bytes) (sa : List Bytes) → strings_of path (string_items sa) ≡ ok sa
unfolding strings_of
strings_of-string_items path [] = refl
strings_of-string_items path (s ∷ sa) = rw (strings_of-string_items path sa)

array_strings :
    (path : Bytes) (v : Value) {sa : List Bytes}
    → (or_error (an_array_expected path) (as_array v) >>= λ a. strings_of path a) ≡ ok sa
    → v ≡ array (string_items sa)
array_strings path (array a) h = ap array (strings_of-items path a h)
array_strings path (string s) h = cc
array_strings path null h = cc
array_strings path (bool b) h = cc
array_strings path (int n) h = cc
array_strings path (float n) h = cc
array_strings path (object o) h = cc

-- `GetStringArray` returns texts exactly when `GetValue` finds the array of these texts, in their
-- order: it fails on any other value, and on an array that holds anything but texts.
pub get_string_array-get_value :
    (p : Paved) (path : Bytes) (sa : List Bytes)
    → (get_string_array p path ≡ ok sa) ↔ (get_value p path ≡ ok (array (string_items sa)))
unfolding get_string_array
get_string_array-get_value p path sa = (
  λ h.
      let (v, e, found) =
        >>=-eq-ok (get_value p path)
          (λ v. or_error (an_array_expected path) (as_array v) >>= λ a. strings_of path a) h in
      e ∙ ap ok (array_strings path v found),
  λ e. rw e (strings_of-string_items path sa),
)

string_fields_of-entries :
    (path : Bytes) (fs : Fields) {so : List (Bytes × Bytes)}
    → string_fields_of path fs ≡ ok so
    → fs ≡ string_entries so
unfolding string_fields_of
string_fields_of-entries path end h = ap string_entries (ok_inj h)
string_fields_of-entries path (entry k (string s) fs) h =
    let (r, e, same) = >>=-eq-ok (string_fields_of path fs) (λ so. ok ((k, s) ∷ so)) h in
    ap (entry k (string s)) (string_fields_of-entries path fs e) ∙ ap string_entries (ok_inj same)
string_fields_of-entries path (entry k null fs) h = cc
string_fields_of-entries path (entry k (bool b) fs) h = cc
string_fields_of-entries path (entry k (int n) fs) h = cc
string_fields_of-entries path (entry k (float n) fs) h = cc
string_fields_of-entries path (entry k (array a) fs) h = cc
string_fields_of-entries path (entry k (object o) fs) h = cc

string_fields_of-string_entries :
    (path : Bytes) (so : List (Bytes × Bytes)) → string_fields_of path (string_entries so) ≡ ok so
unfolding string_fields_of
string_fields_of-string_entries path [] = refl
string_fields_of-string_entries path ((k, s) ∷ so) = rw (string_fields_of-string_entries path so)

object_strings :
    (path : Bytes) (v : Value) {so : List (Bytes × Bytes)}
    → (or_error (an_object_expected path) (as_object v) >>= λ o. string_fields_of path o) ≡ ok so
    → v ≡ object (string_entries so)
object_strings path (object o) h = ap object (string_fields_of-entries path o h)
object_strings path (string s) h = cc
object_strings path null h = cc
object_strings path (bool b) h = cc
object_strings path (int n) h = cc
object_strings path (float n) h = cc
object_strings path (array a) h = cc

-- `GetStringObject` returns pairs of texts exactly when `GetValue` finds the object with these
-- fields: it fails on any other value, and on an object with a field that is no text.
pub get_string_object-get_value :
    (p : Paved) (path : Bytes) (so : List (Bytes × Bytes))
    → (get_string_object p path ≡ ok so) ↔ (get_value p path ≡ ok (object (string_entries so)))
unfolding get_string_object
get_string_object-get_value p path so = (
  λ h.
      let (v, e, found) =
        >>=-eq-ok (get_value p path)
          (λ v. or_error (an_object_expected path) (as_object v) >>= λ o. string_fields_of path o)
          h in
      e ∙ ap ok (object_strings path v found),
  λ e. rw e (string_fields_of-string_entries path so),
)

get_string-stored :
    {V : Type 0} (json : Json V) (p : Paved) (path s : Bytes) (x : V) {r : Paved × Outcome}
    → SetPath json p path x r
    → to_valid_json json x ≡ ok (string s)
    → parse path ≢ ok []
    → r.1 ≡ finished
    → get_string r.0 path ≡ ok s
unfolding get_string
get_string-stored json p path s x (stored q v j found limit) h some_path done =
    rw (found ∙ sym j ∙ h)
get_string-stored json p path s x (nowhere e) h some_path done = absurd (some_path e)
get_string-stored json p path s x (kept e) h some_path done = cc

-- `GetString` returns the text that `SetValue` stored at a path with a segment, on an object that is
-- not the nil map.
pub get_string-set_value :
    {V : Type 0} (json : Json V) (p : Paved) (path s : Bytes) (x : V) {fs : Fields}
    → p.object ≡ some fs
    → to_valid_json json x ≡ ok (string s)
    → parse path ≢ ok []
    → (set_value json p path x).1 ≡ finished
    → get_string (set_value json p path x).0 path ≡ ok s
get_string-set_value json p path s x h text some_path done =
    get_string-stored json p path s x (set_value-SetPath json p path x h) text some_path done
