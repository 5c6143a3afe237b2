-- ===== src/Fieldpath/Paved.antt =====
-- pkg/fieldpath/paved.go: reading, writing and deleting at a path. A setter changes the object in
-- place as it goes, so that the model gives back the object beside the outcome, errors included.
pub mod Prepare
pub mod Set
pub mod Frame
pub mod Write
pub mod Remove
pub mod Delete
pub mod Erase
pub mod Getters
pub mod Typed
use crossplane_runtime.Base.{
  ℕ, zero, suc, ◌+◌, ◌-◌, Bool, true, false, ◌||◌, ◌&&◌, Option, none, some, ◌⊎◌, inl, inr, List,
  [], ◌∷◌, ◌++◌, Bytes, ltb, leb, ◌==◌, if◌then◌else◌,
}
use crossplane_runtime.Fieldpath.Segment.{Segment, field, index, Segments}
use crossplane_runtime.Fieldpath.Errors.{
  Context, cannot_parse_path, cannot_delete, cannot_marshal, cannot_unmarshal, Error, not_an_array,
  is_not_an_array, no_such_element, no_such_field, expected_map_got_nil, not_an_object,
  is_not_an_object, index_too_large, array_needed, object_needed, json_error, wrap, Crash,
  index_out_of_range, nil_map, Result, ok, err, crash, ◌>>=◌, wrapped,
}
use crossplane_runtime.Fieldpath.Lexer.{parse}
use crossplane_runtime.Fieldpath.Value.{Value, null, array, object, Items, Fields, end}
use crossplane_runtime.Fieldpath.Items
use crossplane_runtime.Fieldpath.Fields

-- `none` is the nil map.
pub record Paved : Type 0 where
  pub object : Option Fields
  pub max_field_path_index : ℕ

-- What a nil map reads as.
abbrev pub content : Option Fields → Fields
content none = end
content (some fs) = fs

abbrev pub root : Paved → Value
root p = object (content p.object)

-- `it.([]any)`
abbrev pub as_array : Value → Option Items
as_array (array vs) = some vs
as_array _ = none

-- `it.(map[string]any)`
abbrev pub as_object : Value → Option Fields
as_object (object fs) = some fs
as_object _ = none

abbrev pub is_null : Value → Bool
is_null null = true
is_null _ = false

-- One round of `getValueFromInterface`; `passed` are the segments before this one.
unfoldable pub get_segment : Segments → Value → Segment → Result Value
get_segment passed it (index i) = elim (as_array it) [
  | none ↦ err (not_an_array passed)
  | some vs ↦ elim (Items.get vs i) [
    | none ↦ err (no_such_element (passed ++ index i ∷ []))
    | some v ↦ ok v
  ]
]
get_segment passed it (field k) = elim (as_object it) [
  | some fs ↦ elim (Fields.get fs k) [
    | none ↦ err (no_such_field (passed ++ field k ∷ []))
    | some v ↦ ok v
  ]
  | none ↦ if is_null it then err (expected_map_got_nil passed) else err (not_an_object passed)
]

unfoldable pub get_loop : Segments → Value → Segments → Result Value
unfolding get_segment
get_loop passed it [] = ok it
get_loop passed it (s ∷ rest) = get_segment passed it s >>= λ v. get_loop (passed ++ s ∷ []) v rest

-- With no segment the loop is not entered, and nil is returned.
unfoldable pub get_value_from_interface : Value → Segments → Result Value
unfolding get_loop
get_value_from_interface it [] = ok null
get_value_from_interface it (s ∷ rest) = get_loop [] it (s ∷ rest)

unfoldable pub get_value_at : Paved → Segments → Result Value
unfolding get_value_from_interface
get_value_at p s = get_value_from_interface (root p) s

-- `GetValue`
unfoldable pub get_value : Paved → Bytes → Result Value
unfolding get_value_at parse
get_value p path = wrapped (cannot_parse_path path) (parse path) >>= get_value_at p

-- How a setter ends.
pub data Outcome : Type 0 where
  finished : Outcome
  failed : Error → Outcome
  panicked : Crash → Outcome

-- The container that a missing place gets for the segment that comes next.
abbrev pub fresh : Segment → Value
fresh (index i) = array (Items.make (i + 1))
fresh (field k) = object end

-- The part that `prepareElement` and `prepareField` share: an array that is too short for the next
-- index is extended.
unfoldable pub grow : Value → Segment → Value
grow it (field k) = it
grow it (index i) = elim (as_array it) [
  | none ↦ it
  | some na ↦
      if ltb i (Items.length na)
      then it
      else array (Items.append na (Items.make (i - Items.length na + 1)))
]

-- What `prepareElement` leaves at a place that holds `v`.
unfoldable pub prepared_element : Value → Segment → Value
unfolding grow
prepared_element v next = if is_null v then fresh next else grow v next

-- What `prepareField` leaves under a key.
unfoldable pub prepared_field : Option Value → Segment → Value
unfolding grow
prepared_field none next = fresh next
prepared_field (some v) next = grow v next

-- The loop of `setValue`. An index out of range panics.
unfoldable pub set_loop : Segments → Value → Segments → Value → Value × Outcome
unfolding prepared_element prepared_field
set_loop passed it [] v = (it, finished)
set_loop passed it (index i ∷ []) v = elim (as_array it) [
  | none ↦ (it, failed (is_not_an_array passed))
  | some vs ↦ elim (Items.get vs i) [
    | none ↦ (it, panicked index_out_of_range)
    | some w ↦ (array (Items.set vs i v), finished)
  ]
]
set_loop passed it (index i ∷ next ∷ rest) v = elim (as_array it) [
  | none ↦ (it, failed (is_not_an_array passed))
  | some vs ↦ elim (Items.get vs i) [
    | none ↦ (it, panicked index_out_of_range)
    | some w ↦
        let (child, o) =
          set_loop (passed ++ index i ∷ []) (prepared_element w next) (next ∷ rest) v in
        (array (Items.set vs i child), o)
  ]
]
set_loop passed it (field k ∷ []) v = elim (as_object it) [
  | none ↦ (it, failed (is_not_an_object passed))
  | some fs ↦ (object (Fields.set fs k v), finished)
]
set_loop passed it (field k ∷ next ∷ rest) v = elim (as_object it) [
  | none ↦ (it, failed (is_not_an_object passed))
  | some fs ↦
      let (child, o) =
        set_loop (passed ++ field k ∷ []) (prepared_field (Fields.get fs k) next) (next ∷ rest) v in
      (object (Fields.set fs k child), o)
]

-- `validateSegments`: no index above the limit, unless the limit is 0.
unfoldable pub validate_loop : ℕ → Segments → Result (Unit {0})
validate_loop limit [] = ok tt
validate_loop limit (field k ∷ rest) = validate_loop limit rest
validate_loop limit (index i ∷ rest) =
    if ltb limit i then err (index_too_large i limit) else validate_loop limit rest

unfoldable pub validate_segments : Paved → Segments → Result (Unit {0})
unfolding validate_loop
validate_segments p s =
    if ltb 0 p.max_field_path_index then validate_loop p.max_field_path_index s else ok tt

-- The object that is left in `p`: the root is a map, and stays one.
abbrev pub with_root : Paved → Value × Outcome → Paved × Outcome
with_root p (v, o) =
    (record p { object = elim (as_object v) [ none ↦ p.object | some fs ↦ some fs ] }, o)

-- `setValue` on the nil map, which panics when it is written to.
abbrev pub set_nil : Paved → Segments → Paved × Outcome
set_nil p [] = (p, finished)
set_nil p (index i ∷ rest) = (p, failed (is_not_an_array []))
set_nil p (field k ∷ rest) = (p, panicked nil_map)

-- The loop of `setValue` from the root.
unfoldable pub set_root : Paved → Segments → Value → Option Fields → Paved × Outcome
unfolding set_loop
set_root p s v (some fs) = with_root p (set_loop [] (object fs) s v)
set_root p s v none = set_nil p s

abbrev pub after_validation : Paved → Segments → Value → Result (Unit {0}) → Paved × Outcome
after_validation p s v (ok _) = set_root p s v p.object
after_validation p s v (err e) = (p, failed e)
after_validation p s v (crash c) = (p, panicked c)

-- `setValue` once the value is JSON data.
unfoldable pub set_json : Paved → Segments → Value → Paved × Outcome
unfolding validate_segments set_root
set_json p s v = after_validation p s v (validate_segments p s)

-- The JSON library, which the setters only call: each call gives an error's text or a result.
pub record Json (V : Type 0) : Type 0 where
  pub marshal : V → Bytes ⊎ Bytes
  pub unmarshal : Bytes → Bytes ⊎ Value

abbrev pub from_library : {A : Type 0} → Context → Bytes ⊎ A → Result A
from_library c (inl message) = err (wrap c (json_error message))
from_library c (inr a) = ok a

unfoldable pub to_valid_json : {V : Type 0} → Json V → V → Result Value
to_valid_json json value = from_library cannot_marshal (json.marshal value) >>= λ j.
    from_library cannot_unmarshal (json.unmarshal j)

unfoldable pub set_value_at : {V : Type 0} → Json V → Paved → Segments → V → Paved × Outcome
unfolding to_valid_json set_json
set_value_at json p s value = elim (to_valid_json json value) [
  | ok v ↦ set_json p s v
  | err e ↦ (p, failed e)
  | crash c ↦ (p, panicked c)
]

-- `SetValue`; `SetString`, `SetBool` and `SetNumber` are this at their type.
unfoldable pub set_value : {V : Type 0} → Json V → Paved → Bytes → V → Paved × Outcome
unfolding set_value_at parse
set_value json p path value = elim (wrapped (cannot_parse_path path) (parse path)) [
  | ok s ↦ set_value_at json p s value
  | err e ↦ (p, failed e)
  | crash c ↦ (p, panicked c)
]

-- `deleteField`
unfoldable pub delete_field_of : Value → Segment → Result Value
delete_field_of it (index i) = elim (as_array it) [
  | none ↦ err array_needed
  | some vs ↦
      if Items.length vs == 0 || leb (Items.length vs) i
      then ok it
      else ok (array (Items.delete vs i))
]
delete_field_of it (field k) = elim (as_object it) [
  | none ↦ err object_needed
  | some fs ↦ ok (object (Fields.delete fs k))
]

abbrev pub replaced : Value → Result Value → Value × Outcome
replaced it (ok v) = (v, finished)
replaced it (err e) = (it, failed e)
replaced it (crash c) = (it, panicked c)

-- The loop of `delete`, and what it does at its last segment but one: `deleteField` makes a new
-- container, which takes the old one's place. With a single segment that place is the root.
unfoldable pub delete_loop : Segments → Segments → Value → Segments → Value × Outcome
unfolding delete_field_of
delete_loop all passed it [] = (it, finished)
delete_loop all passed it (s ∷ []) =
    replaced it (wrapped (cannot_delete all) (delete_field_of it s))
delete_loop all passed it (index i ∷ next ∷ rest) = elim (as_array it) [
  | none ↦ (it, failed (is_not_an_array passed))
  | some vs ↦ elim (Items.get vs i) [
    | none ↦ (it, finished)
    | some w ↦
        let (child, o) = delete_loop all (passed ++ index i ∷ []) w (next ∷ rest) in
        (array (Items.set vs i child), o)
  ]
]
delete_loop all passed it (field k ∷ next ∷ rest) = elim (as_object it) [
  | none ↦ (it, failed (is_not_an_object passed))
  | some fs ↦ elim (Fields.get fs k) [
    | none ↦ (it, finished)
    | some w ↦
        let (child, o) = delete_loop all (passed ++ field k ∷ []) w (next ∷ rest) in
        (object (Fields.set fs k child), o)
  ]
]

-- `delete` from the root. Nothing is ever found in the nil map, which stays as it is.
unfoldable pub delete_root : Paved → Segments → Option Fields → Paved × Outcome
unfolding delete_loop
delete_root p s (some fs) = with_root p (delete_loop s [] (object fs) s)
delete_root p s none = (p, (delete_loop s [] (object end) s).1)

-- `delete`
unfoldable pub delete : Paved → Segments → Paved × Outcome
unfolding delete_root
delete p s = delete_root p s p.object

-- `DeleteField`
unfoldable pub delete_field : Paved → Bytes → Paved × Outcome
unfolding delete parse
delete_field p path = elim (wrapped (cannot_parse_path path) (parse path)) [
  | ok s ↦ delete p s
  | err e ↦ (p, failed e)
  | crash c ↦ (p, panicked c)
]
