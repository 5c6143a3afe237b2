-- ===== src/Fieldpath/Paved/Getters.antt =====
-- pkg/fieldpath/paved.go: `Pave`, its option, the content of a paved object, and the typed getters.
use crossplane_runtime.Base.{ℕ, Bool, Option, none, some, ◌⊎◌, List, [], ◌∷◌, Bytes, ltb}
use crossplane_runtime.Fieldpath.Errors.{
  Error, not_a_string, not_a_string_array, not_a_string_object, not_a_bool, not_an_integer,
  an_array_expected, an_object_expected, cannot_marshal, cannot_unmarshal, Result, ok, err, ◌>>=◌,
}
use crossplane_runtime.Fieldpath.Value.{
  Value, bool, int, string, Items, nil, cons, Fields, end, entry,
}
use crossplane_runtime.Fieldpath.Paved.{
  Paved, as_array, as_object, get_value, from_library, Json, Outcome, set_value,
}

-- A `PavedOption`
abbrev pub PavedOption : Type 0
PavedOption = Paved → Paved

abbrev pub default_max_field_path_index : ℕ
default_max_field_path_index = 1024

abbrev pub apply_options : List PavedOption → Paved → Paved
apply_options [] p = p
apply_options (opt ∷ opts) p = apply_options opts (opt p)

unfoldable pub pave : Option Fields → List PavedOption → Paved
pave fs opts =
    apply_options opts (record { object = fs; max_field_path_index = default_max_field_path_index })

unfoldable pub with_max_field_path_index : ℕ → PavedOption
with_max_field_path_index max_index p = record p { max_field_path_index = max_index }

unfoldable pub max_field_path_index_enabled : Paved → Bool
max_field_path_index_enabled p = ltb 0 p.max_field_path_index

unfoldable pub unstructured_content : Paved → Fields
unstructured_content p = elim p.object [ none ↦ end | some fs ↦ fs ]

unfoldable pub set_unstructured_content : Paved → Option Fields → Paved
set_unstructured_content p content = record p { object = content }

-- `v.(string)`, and the other types.
abbrev pub as_string : Value → Option Bytes
as_string (string s) = some s
as_string _ = none

abbrev pub as_bool : Value → Option Bool
as_bool (bool b) = some b
as_bool _ = none

abbrev pub as_integer : Value → Option ℕ
as_integer (int n) = some n
as_integer _ = none

abbrev pub or_error {ℓ} : {A : Type ℓ} → Error → Option A → Result A
or_error e none = err e
or_error e (some a) = ok a

unfoldable pub get_string : Paved → Bytes → Result Bytes
get_string p path = get_value p path >>= λ v. or_error (not_a_string path) (as_string v)

unfoldable pub get_bool : Paved → Bytes → Result Bool
get_bool p path = get_value p path >>= λ v. or_error (not_a_bool path) (as_bool v)

unfoldable pub get_integer : Paved → Bytes → Result ℕ
get_integer p path = get_value p path >>= λ v. or_error (not_an_integer path) (as_integer v)

-- The loop of `GetStringArray`; the error is the same for each element.
unfoldable pub strings_of : Bytes → Items → Result (List Bytes)
strings_of path nil = ok []
strings_of path (cons v vs) = or_error (not_a_string_array path) (as_string v) >>= λ s.
    strings_of path vs >>= λ sa. ok (s ∷ sa)

unfoldable pub get_string_array : Paved → Bytes → Result (List Bytes)
unfolding strings_of
get_string_array p path = get_value p path >>= λ v.
    or_error (an_array_expected path) (as_array v) >>= λ a. strings_of path a

-- The loop of `GetStringObject`; the error is the same for each field.
unfoldable pub string_fields_of : Bytes → Fields → Result (List (Bytes × Bytes))
string_fields_of path end = ok []
string_fields_of path (entry k v fs) = or_error (not_a_string_object path) (as_string v) >>= λ s.
    string_fields_of path fs >>= λ so. ok ((k, s) ∷ so)

unfoldable pub get_string_object : Paved → Bytes → Result (List (Bytes × Bytes))
unfolding string_fields_of
get_string_object p path = get_value p path >>= λ v.
    or_error (an_object_expected path) (as_object v) >>= λ o. string_fields_of path o

-- The JSON data that stands for texts.
abbrev pub string_items : List Bytes → Items
string_items [] = nil
string_items (s ∷ sa) = cons (string s) (string_items sa)

abbrev pub string_entries : List (Bytes × Bytes) → Fields
string_entries [] = end
string_entries ((k, s) ∷ so) = entry k (string s) (string_entries so)

-- `GetValueInto`; the JSON library unmarshals what it marshalled into the type of `out`.
unfoldable pub get_value_into :
    {A : Type 0} → (Value → Bytes ⊎ Bytes) → (Bytes → Bytes ⊎ A) → Paved → Bytes → Result A
get_value_into marshal unmarshal p path = get_value p path >>= λ val.
    from_library cannot_marshal (marshal val) >>= λ js. from_library cannot_unmarshal (unmarshal js)

-- The setters at a type.
unfoldable pub set_string : Json Bytes → Paved → Bytes → Bytes → Paved × Outcome
set_string json p path value = set_value json p path value

unfoldable pub set_bool : Json Bool → Paved → Bytes → Bool → Paved × Outcome
set_bool json p path value = set_value json p path value

-- A float64 stands for its bits.
unfoldable pub set_number : Json ℕ → Paved → Bytes → ℕ → Paved × Outcome
set_number json p path value = set_value json p path value
