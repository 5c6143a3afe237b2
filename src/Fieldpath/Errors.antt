-- ===== src/Fieldpath/Errors.antt =====
-- The errors of pkg/fieldpath, by the place that makes them and what their message names, and
-- results. `crash` is a panic of the runtime; `no_fuel` marks a recursion of the model that
-- was given too few rounds.
use crossplane_runtime.Base.{ℕ, Bool, true, false, ◌≡◌, refl, Bytes}
use crossplane_runtime.Fieldpath.Segment.{Segments}

-- The message that `errors.Wrap` or `errors.Wrapf` puts in front.
pub data Context : Type 0 where
  cannot_parse_path : Bytes → Context
  cannot_expand_segments : Segments → Context
  cannot_expand : Segments → Context
  cannot_delete : Segments → Context
  cannot_marshal cannot_unmarshal : Context

pub data Error : Type 0 where
  -- `errors.Errorf("%s at position %d", i.val, i.pos)`
  at_position : Bytes → ℕ → Error
  -- From `getValueFromInterface`, "%s: not an array"; the setters and `delete` say "%s is not an
  -- array".
  not_an_array is_not_an_array : Segments → Error
  no_such_element : Segments → Error
  no_such_field : Segments → Error
  expected_map_got_nil : Segments → Error
  not_an_object is_not_an_object : Segments → Error
  index_too_large : ℕ → ℕ → Error
  wildcard_not_found : Segments → Error
  unexpected_wildcard : Segments → Error
  -- A typed getter's complaint: the path, and what the value is not.
  not_a_string not_a_string_array not_a_string_object not_a_bool not_an_integer : Bytes → Error
  an_array_expected an_object_expected : Bytes → Error
  -- `deleteField`'s "not an array" and "not an object".
  array_needed object_needed : Error
  -- An error of the JSON library.
  json_error : Bytes → Error
  wrap : Context → Error → Error

pub data Crash : Type 0 where
  index_out_of_range slice_out_of_range nil_map no_fuel : Crash

pub data Result {ℓ} (A : Type ℓ) : Type ℓ where
  ok : A → Result A
  err : Error → Result A
  crash : Crash → Result A

infixl 5 ◌>>=◌
abbrev pub ◌>>=◌ {ℓ κ} : {A : Type ℓ} {B : Type κ} → Result A → (A → Result B) → Result B
crash c >>= next = crash c
err e >>= next = err e
ok x >>= next = next x

-- `errors.Wrapf(err, …)` on the error path.
abbrev pub wrapped {ℓ} : {A : Type ℓ} → Context → Result A → Result A
wrapped c (ok a) = ok a
wrapped c (err e) = err (wrap c e)
wrapped c (crash x) = crash x

-- `IsNotFound`: `errors.Cause` goes through the wrappers, and these are the errors that are made
-- as `notFoundError`.
unfoldable pub is_not_found : Error → Bool
is_not_found (wrap c e) = is_not_found e
is_not_found (no_such_element s) = true
is_not_found (no_such_field s) = true
is_not_found (expected_map_got_nil s) = true
is_not_found (wildcard_not_found s) = true
is_not_found _ = false

-- The result is no panic, and the model's recursion has ended.
pub data NoCrash {ℓ} {A : Type ℓ} : Result A → Type ℓ where
  on_ok : (a : A) → NoCrash (ok a)
  on_err : (e : Error) → NoCrash (err e)

pub NoCrash-bind {ℓ κ} :
    {A : Type ℓ} {B : Type κ} {m : Result A} {f : A → Result B}
    → NoCrash m
    → ((a : A) → NoCrash (f a))
    → NoCrash (m >>= f)
NoCrash-bind (on_ok a) h = h a
NoCrash-bind (on_err e) h = on_err e

-- A chain that ends well has a first step that ended well.
pub >>=-eq-ok {ℓ κ} :
    {A : Type ℓ} {B : Type κ} (first : Result A) (next : A → Result B) {y : B}
    → first >>= next ≡ ok y
    → (x : A) × (first ≡ ok x) × (next x ≡ ok y)
>>=-eq-ok (crash c) next e = cc
>>=-eq-ok (err x) next e = cc
>>=-eq-ok (ok x) next e = (x, refl, e)

pub bind_assoc {ℓ κ μ} :
    {A : Type ℓ} {B : Type κ} {C : Type μ} (m : Result A) (f : A → Result B) (g : B → Result C)
    → ((m >>= f) >>= g) ≡ (m >>= λ a. f a >>= g)
bind_assoc (ok a) f g = refl
bind_assoc (err e) f g = refl
bind_assoc (crash c) f g = refl

pub bind-cong {ℓ κ} :
    {A : Type ℓ} {B : Type κ} (m : Result A) {f g : A → Result B}
    → ((a : A) → f a ≡ g a)
    → (m >>= f) ≡ (m >>= g)
bind-cong (ok a) h = h a
bind-cong (err e) h = refl
bind-cong (crash c) h = refl
