-- ===== src/Tests/Paved.antt =====
-- Paved objects at concrete data.
use crossplane_runtime.Base.{◌≡◌, ◌≢◌, refl, sym, ◌∙◌, inl, inr, some, [], ◌∷◌, codes, Bytes, equal}
use crossplane_runtime.Fieldpath.Segment.{Segments, field, index, field_of}
use crossplane_runtime.Fieldpath.Errors.{ok}
use crossplane_runtime.Fieldpath.Lexer.{parse}
use crossplane_runtime.Fieldpath.Value.{
  null, int, string, array, object, nil, cons, Fields, end, entry,
}
use crossplane_runtime.Fieldpath.Items
use crossplane_runtime.Fieldpath.Fields
use crossplane_runtime.Fieldpath.Paved.{
  Paved, Json, finished, get_value_at, get_value, to_valid_json, set_json, set_value, delete,
  delete_field,
}
use crossplane_runtime.Fieldpath.Paved.Frame.{Apart, field_ne}
use crossplane_runtime.Fieldpath.Paved.Write.{SetPath, set_value-SetPath, set_json-Keeps}
use crossplane_runtime.Fieldpath.Paved.Getters.{get_string, get_string_object}
use crossplane_runtime.Fieldpath.Paved.Typed.{get_string-set_value}
use crossplane_runtime.Fieldpath.Paved.Delete.{NotFound}
use crossplane_runtime.Fieldpath.Paved.Erase.{
  Deletes, delete_field-Deletes, delete-Gone, delete-Keeps,
}

abbrev metadata : Fields
metadata =
    entry (codes "name") (string (codes "cool"))
      (entry (codes "tags") (array (cons (int 1) nil)) end)

abbrev thing : Paved
thing = record {
  object = some (entry (codes "metadata") (object metadata) end);
  max_field_path_index = 1024;
}

abbrev name_path : Segments
name_path = field (codes "metadata") ∷ field (codes "name") ∷ []

abbrev tag_path : Segments
tag_path = field (codes "metadata") ∷ field (codes "tags") ∷ index 3 ∷ []

-- A library that marshals a Boolean to one byte and reads one byte back.
abbrev bool_json : Json Bytes
bool_json = record { marshal = λ b. inr b; unmarshal = λ b. inr (string b) }

set_tag : set_json thing tag_path (int 7) ≡ (
  record {
    object = some (
        entry
          (codes "metadata")
          (object (
            entry (codes "name") (string (codes "cool")) (
              entry
                (codes "tags")
                (array (cons (int 1) (cons null (cons null (cons (int 7) nil)))))
                end)))
          end);
    max_field_path_index = 1024;
  },
  finished,
)
unfolding set_json Fields.get Fields.set Items.get Items.set Items.length Items.append Items.make
    equal
set_tag = refl

set_value-SetPath_example :
    SetPath bool_json thing
      (codes "metadata.tags[3]")
      (codes "x")
      (set_value bool_json thing (codes "metadata.tags[3]") (codes "x"))
set_value-SetPath_example =
    set_value-SetPath bool_json thing (codes "metadata.tags[3]") (codes "x") refl

name_found : get_value_at thing name_path ≡ ok (string (codes "cool"))
unfolding get_value_at Fields.get equal
name_found = refl

name-Apart_tag : Apart tag_path name_path
name-Apart_tag = inr (refl, inl (field_ne (codes "tags") (codes "name") (unfold equal in refl)))

tag-Apart_name : Apart name_path (field (codes "metadata") ∷ field (codes "tags") ∷ index 0 ∷ [])
tag-Apart_name = inr (refl, inl (field_ne (codes "name") (codes "tags") (unfold equal in refl)))

set_json-Keeps_example :
    get_value_at (set_json thing tag_path (int 7)).0 name_path ≡ ok (string (codes "cool"))
set_json-Keeps_example = set_json-Keeps thing tag_path name_path (int 7) name-Apart_tag name_found

delete_finished : (delete thing name_path).1 ≡ finished
unfolding delete Fields.get Fields.set Fields.delete equal
delete_finished = refl

delete-Gone_example : NotFound (get_value_at (delete thing name_path).0 name_path)
delete-Gone_example = delete-Gone thing name_path tt delete_finished

tag_found :
    get_value_at thing (field (codes "metadata") ∷ field (codes "tags") ∷ index 0 ∷ []) ≡ ok (int 1)
unfolding get_value_at Fields.get Items.get equal
tag_found = refl

delete-Keeps_example :
    get_value_at
      (delete thing name_path).0
      (field (codes "metadata") ∷ field (codes "tags") ∷ index 0 ∷ [])
    ≡ ok (int 1)
delete-Keeps_example =
    delete-Keeps thing name_path (field (codes "metadata") ∷ field (codes "tags") ∷ index 0 ∷ []) tt
      tag-Apart_name tag_found

delete_field-Deletes_example : Deletes thing (delete_field thing (codes "metadata.name[0]"))
delete_field-Deletes_example = delete_field-Deletes thing (codes "metadata.name[0]")

abbrev labels : Paved
labels = record {
  object = some (
      entry (codes "l")
        (object
          (entry (codes "a") (string (codes "x")) (entry (codes "b") (string (codes "y")) end)))
        (entry (codes "s") (array (cons (string (codes "p")) (cons (string (codes "q")) nil)))
          end));
  max_field_path_index = 0;
}

labels_read :
    get_string_object labels (codes "l") ≡ ok ((codes "a", codes "x") ∷ (codes "b", codes "y") ∷ [])
unfolding get_string_object get_value parse Fields.get equal field_of
labels_read = refl

name_parsed : parse (codes "name") ≡ ok (field (codes "name") ∷ [])
unfolding parse equal field_of
name_parsed = refl

name_stored : (set_value bool_json labels (codes "name") (codes "x")).1 ≡ finished
unfolding set_value parse equal Fields.get Fields.set field_of
name_stored = refl

name-not_empty : parse (codes "name") ≢ ok []
name-not_empty e = let bad = sym name_parsed ∙ e in cc

get_string-set_value_example :
    get_string (set_value bool_json labels (codes "name") (codes "x")).0 (codes "name")
    ≡ ok (codes "x")
get_string-set_value_example =
    get_string-set_value bool_json labels (codes "name") (codes "x") (codes "x") refl
      (unfold to_valid_json in refl) name-not_empty name_stored
