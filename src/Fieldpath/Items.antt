-- ===== src/Fieldpath/Items.antt =====
-- Operations on JSON arrays.
use crossplane_runtime.Base.{
  ℕ, zero, suc, ◌+◌, ◌<◌, ◌≤◌, ◌≡◌, ◌≢◌, refl, ap, Option, none, some, arith,
}
use crossplane_runtime.Fieldpath.Value.{Value, null, Items, nil, cons}

unfoldable pub length : Items → ℕ
length nil = 0
length (cons v vs) = suc (length vs)

unfoldable pub get : Items → ℕ → Option Value
get nil i = none
get (cons v vs) zero = some v
get (cons v vs) (suc i) = get vs i

-- `array[i] = v`, which leaves an array alone that has no place `i`.
unfoldable pub set : Items → ℕ → Value → Items
set nil i v = nil
set (cons w ws) zero v = cons v ws
set (cons w ws) (suc i) v = cons w (set ws i v)

-- `make([]any, n)`
unfoldable pub make : ℕ → Items
make zero = nil
make (suc n) = cons null (make n)

unfoldable pub append : Items → Items → Items
append nil ws = ws
append (cons v vs) ws = cons v (append vs ws)

-- The array without the place `i`.
unfoldable pub delete : Items → ℕ → Items
delete nil i = nil
delete (cons v vs) zero = vs
delete (cons v vs) (suc i) = cons v (delete vs i)

pub get-lt : (vs : Items) (i : ℕ) {v : Value} → get vs i ≡ some v → i < length vs
unfolding get length
get-lt nil i h = cc
get-lt (cons v vs) zero h = omega arith
get-lt (cons v vs) (suc i) h = omega (arith, get-lt vs i h)

pub get_of_lt : (vs : Items) (i : ℕ) → i < length vs → (v : Value) × (get vs i ≡ some v)
unfolding get length
get_of_lt nil i h = elim h [ ]
get_of_lt (cons v vs) zero h = (v, refl)
get_of_lt (cons v vs) (suc i) h = get_of_lt vs i (omega arith)

pub get-none : (vs : Items) (i : ℕ) → length vs ≤ i → get vs i ≡ none
unfolding get length
get-none nil i h = refl
get-none (cons v vs) zero h = absurd (omega arith)
get-none (cons v vs) (suc i) h = get-none vs i (omega arith)

pub length-set : (vs : Items) (i : ℕ) (v : Value) → length (set vs i v) ≡ length vs
unfolding set length
length-set nil i v = refl
length-set (cons w ws) zero v = refl
length-set (cons w ws) (suc i) v = ap suc (length-set ws i v)

pub get-set_self : (vs : Items) (i : ℕ) (v : Value) → i < length vs → get (set vs i v) i ≡ some v
unfolding get set length
get-set_self nil i v h = elim h [ ]
get-set_self (cons w ws) zero v h = refl
get-set_self (cons w ws) (suc i) v h = get-set_self ws i v (omega arith)

pub get-set_ne : (vs : Items) (i j : ℕ) (v : Value) → i ≢ j → get (set vs i v) j ≡ get vs j
unfolding get set
get-set_ne nil i j v h = refl
get-set_ne (cons w ws) zero zero v h = absurd (h refl)
get-set_ne (cons w ws) zero (suc j) v h = refl
get-set_ne (cons w ws) (suc i) zero v h = refl
get-set_ne (cons w ws) (suc i) (suc j) v h = get-set_ne ws i j v (λ e. h (ap suc e))

pub set-get : (vs : Items) (i : ℕ) {v : Value} → get vs i ≡ some v → set vs i v ≡ vs
unfolding get set
set-get nil i h = refl
set-get (cons w ws) zero h = cc
set-get (cons w ws) (suc i) h = ap (cons w) (set-get ws i h)

pub length-make : (n : ℕ) → length (make n) ≡ n
unfolding make length
length-make zero = refl
length-make (suc n) = ap suc (length-make n)

pub get-make : (n i : ℕ) → i < n → get (make n) i ≡ some null
unfolding make get
get-make zero i h = elim h [ ]
get-make (suc n) zero h = refl
get-make (suc n) (suc i) h = get-make n i (omega arith)

pub length-append : (vs ws : Items) → length (append vs ws) ≡ length vs + length ws
unfolding append length
length-append nil ws = omega arith
length-append (cons v vs) ws = omega (arith, length-append vs ws)

pub get-append_left : (vs ws : Items) (i : ℕ) → i < length vs → get (append vs ws) i ≡ get vs i
unfolding append get length
get-append_left nil ws i h = elim h [ ]
get-append_left (cons v vs) ws zero h = refl
get-append_left (cons v vs) ws (suc i) h = get-append_left vs ws i (omega arith)

pub get-append_right : (vs ws : Items) (i : ℕ) → get (append vs ws) (length vs + i) ≡ get ws i
unfolding append get length
get-append_right nil ws i = ap (get ws) (omega arith)
get-append_right (cons v vs) ws i =
    let e : suc (length vs) + i ≡ suc (length vs + i) = omega arith in
    rw e (get-append_right vs ws i)

pub get-delete_before : (vs : Items) (i j : ℕ) → j < i → get (delete vs i) j ≡ get vs j
unfolding delete get
get-delete_before nil i j h = refl
get-delete_before (cons v vs) zero j h = elim h [ ]
get-delete_before (cons v vs) (suc i) zero h = refl
get-delete_before (cons v vs) (suc i) (suc j) h = get-delete_before vs i j (omega arith)

pub get-delete_behind : (vs : Items) (i j : ℕ) → i ≤ j → get (delete vs i) j ≡ get vs (suc j)
unfolding delete get
get-delete_behind nil i j h = refl
get-delete_behind (cons v vs) zero j h = refl
get-delete_behind (cons v vs) (suc i) zero h = absurd (omega arith)
get-delete_behind (cons v vs) (suc i) (suc j) h = get-delete_behind vs i j (omega arith)

pub length-delete : (vs : Items) (i : ℕ) → i < length vs → length (delete vs i) + 1 ≡ length vs
unfolding delete length
length-delete nil i h = elim h [ ]
length-delete (cons v vs) zero h = omega arith
length-delete (cons v vs) (suc i) h = omega (arith, length-delete vs i (omega arith))
