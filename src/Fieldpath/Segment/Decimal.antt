-- ===== src/Fieldpath/Segment/Decimal.antt =====
-- Reading back a printed number.
use mathlib.Core.List.{concat-ne-nil}
use crossplane_runtime.Base.{
  ℕ, zero, suc, ◌+◌, ◌-◌, ◌*◌, ◌/◌, ◌%◌, ◌^◌, ◌<◌, ◌≡◌, ◌≢◌, refl, ◌∙◌, true, false, ◌&&◌, none,
  some, [], ◌∷◌, ◌++◌, arith, inl, inr, Bool-cases, ltb, Bytes, contains,
}
use crossplane_runtime.Fieldpath.Segment.{
  is_digit, all_digits, decimal_value, parse_uint, digits, format_uint,
}

all_digits-append : (xs ys : Bytes) → all_digits (xs ++ ys) ≡ (all_digits xs && all_digits ys)
unfolding all_digits
all_digits-append [] ys = refl
all_digits-append (x ∷ xs) ys = ground (arith, all_digits-append xs ys)

decimal_value-append :
    (xs ys : Bytes) (acc : ℕ)
    → decimal_value acc (xs ++ ys) ≡ decimal_value (decimal_value acc xs) ys
unfolding decimal_value
decimal_value-append [] ys acc = refl
decimal_value-append (x ∷ xs) ys acc = decimal_value-append xs ys (acc * 10 + (x - 48))

digits-all_digits : (f n : ℕ) → all_digits (digits f n) ≡ true
unfolding digits all_digits
digits-all_digits zero n = refl
digits-all_digits (suc f) n = elim (Bool-cases (ltb n 10)) [
  | inl small ↦ rw small (ground arith)
  | inr large ↦ rw large (
      all_digits-append (digits f (n / 10)) ((48 + n % 10) ∷ [])
      ∙ rw (digits-all_digits f (n / 10)) (ground arith))
]

decimal_value-digits : (f n : ℕ) → n < f → decimal_value 0 (digits f n) ≡ n
unfolding digits decimal_value
decimal_value-digits zero n h = elim h [ ]
decimal_value-digits (suc f) n h = elim (Bool-cases (ltb n 10)) [
  | inl small ↦ rw small (ground arith)
  | inr large ↦ rw large (
      decimal_value-append (digits f (n / 10)) ((48 + n % 10) ∷ []) 0
      ∙ rw (decimal_value-digits f (n / 10) (ground arith)) (omega arith))
]

parse_uint_digits :
    (s : Bytes)
    → s ≢ []
    → all_digits s ≡ true
    → decimal_value 0 s < 2 ^ 32
    → parse_uint s ≡ some (decimal_value 0 s)
unfolding parse_uint
parse_uint_digits [] e d h = absurd (e refl)
parse_uint_digits (c ∷ s) e d h = ground arith

digits-ne-nil : (f n : ℕ) → digits (suc f) n ≢ []
unfolding digits
digits-ne-nil f n = elim (Bool-cases (ltb n 10)) [
  | inl small ↦ rw small (λ e. cc)
  | inr large ↦ rw large (concat-ne-nil _ (digits f (n / 10)))
]

pub parse_uint-format_uint : (n : ℕ) → n < 2 ^ 32 → parse_uint (format_uint n) ≡ some n
unfolding format_uint
parse_uint-format_uint n h =
    let value = decimal_value-digits (suc n) n (omega arith) in
    parse_uint_digits (digits (suc n) n) (digits-ne-nil n n) (digits-all_digits (suc n) n)
      (omega (arith, value))
    ∙ rw value

pub parse_uint_bound : (s : Bytes) {n : ℕ} → parse_uint s ≡ some n → n < 2 ^ 32
unfolding parse_uint
parse_uint_bound [] h = cc
parse_uint_bound (c ∷ s) h = ground arith

-- A text of digits holds no other byte.
pub contains_digits :
    (c : ℕ) (s : Bytes) → is_digit c ≡ false → all_digits s ≡ true → contains c s ≡ false
unfolding all_digits contains
contains_digits c [] h d = refl
contains_digits c (x ∷ s) h d = ground (arith, contains_digits c s)

pub contains-format_uint : (c n : ℕ) → is_digit c ≡ false → contains c (format_uint n) ≡ false
unfolding format_uint
contains-format_uint c n h = contains_digits c _ h (digits-all_digits (suc n) n)

pub format_uint-ne-nil : (n : ℕ) → format_uint n ≢ []
unfolding format_uint
format_uint-ne-nil n = digits-ne-nil n n

-- What holds a period is no number.
pub parse_uint-contains :
    (c : ℕ) (s : Bytes) → is_digit c ≡ false → contains c s ≡ true → parse_uint s ≡ none
unfolding parse_uint
parse_uint-contains c [] h k = refl
parse_uint-contains c (x ∷ s) h k = elim (Bool-cases (all_digits (x ∷ s))) [
  | inl d ↦ let e = contains_digits c (x ∷ s) h d in cc
  | inr d ↦ rw d
]
