-- ===== src/Condition/Set.antt =====
-- One condition that is set.
use crossplane_runtime.Base.{
  ◌≡◌, refl, sym, ◌∙◌, ap, Bool, true, false, ◌||◌, inl, inr, [], ◌∷◌, ◌++◌, arith, Bytes, equal,
  equal_iff, equal_refl, Bool-cases,
}
use crossplane_runtime.Condition.{
  Condition, Conditions, condition_equal, get_condition, replaced_by, replace_loop, has_type,
  set_condition,
}

pub condition_equal_refl : (c : Condition) → condition_equal c c ≡ true
unfolding condition_equal
condition_equal_refl c =
    ground (arith, equal_refl c.typ, equal_refl c.status, equal_refl c.reason, equal_refl c.message)

typ-replaced_by : (cond existing : Condition) → (replaced_by cond existing).typ ≡ existing.typ
typ-replaced_by cond existing = elim (Bool-cases (equal existing.typ cond.typ)) [
  | inl same ↦ elim (Bool-cases (condition_equal existing cond)) [
    | inl e ↦ rw same (rw e)
    | inr e ↦ rw same (rw e (sym ((equal_iff existing.typ cond.typ).0 same)))
  ]
  | inr other ↦ rw other
]

replaced_by-equal :
    (cond existing : Condition)
    → equal existing.typ cond.typ ≡ true
    → condition_equal (replaced_by cond existing) cond ≡ true
replaced_by-equal cond existing same = elim (Bool-cases (condition_equal existing cond)) [
  | inl e ↦ rw same (rw e e)
  | inr e ↦ rw same (rw e (condition_equal_refl cond))
]

get_condition-here :
    (c : Condition) (s : Conditions) (t : Bytes)
    → equal c.typ t ≡ true
    → get_condition (c ∷ s) t ≡ c
unfolding get_condition
get_condition-here c s t e = rw e

get_condition-there :
    (c : Condition) (s : Conditions) (t : Bytes)
    → equal c.typ t ≡ false
    → get_condition (c ∷ s) t ≡ get_condition s t
unfolding get_condition
get_condition-there c s t e = rw e

pub has_type-replace_loop :
    (cond : Condition) (s : Conditions) (t : Bytes)
    → has_type t (replace_loop cond s) ≡ has_type t s
unfolding has_type replace_loop
has_type-replace_loop cond [] t = refl
has_type-replace_loop cond (c ∷ s) t =
    ap (λ n. equal n t || has_type t (replace_loop cond s)) (typ-replaced_by cond c)
    ∙ ap (λ b. equal c.typ t || b) (has_type-replace_loop cond s t)

pub has_type-append :
    (s r : Conditions) (t : Bytes) → has_type t (s ++ r) ≡ (has_type t s || has_type t r)
unfolding has_type
has_type-append [] r t = refl
has_type-append (c ∷ s) r t = ground (arith, has_type-append s r t)

or_false : (a b : Bool) → (a || (b || false)) ≡ (a || b)
or_false a b = ground arith

-- A type that was there is among those that were there.
covered :
    (s : Conditions) (cond : Condition) (t : Bytes)
    → has_type cond.typ s ≡ true
    → has_type t s ≡ (has_type t s || equal cond.typ t)
covered s cond t h = elim (Bool-cases (equal cond.typ t)) [
  | inl e ↦ let there = ap (λ n. has_type n s) (sym ((equal_iff cond.typ t).0 e)) ∙ h in rw there
  | inr e ↦ rw e (ground arith)
]

-- The types that are there after setting are those that were there, and the one that was set.
pub has_type-set_condition :
    (s : Conditions) (cond : Condition) (t : Bytes)
    → has_type t (set_condition s cond) ≡ (has_type t s || equal cond.typ t)
unfolding set_condition
has_type-set_condition s cond t = elim (Bool-cases (has_type cond.typ s)) [
  | inl there ↦ rw there (has_type-replace_loop cond s t ∙ covered s cond t there)
  | inr missing ↦ rw missing (
      has_type-append (replace_loop cond s) (cond ∷ []) t
      ∙ rw (has_type-replace_loop cond s t)
          (unfold has_type in or_false (has_type t s) (equal cond.typ t)))
]

get_condition-append :
    (s : Conditions) (cond : Condition)
    → has_type cond.typ s ≡ false
    → get_condition (s ++ cond ∷ []) cond.typ ≡ cond
unfolding get_condition has_type
get_condition-append [] cond h = rw (equal_refl cond.typ)
get_condition-append (c ∷ s) cond h = ground (arith, get_condition-append s cond)

get_condition-append_other :
    (s : Conditions) (cond : Condition) (t : Bytes)
    → equal cond.typ t ≡ false
    → get_condition (s ++ cond ∷ []) t ≡ get_condition s t
unfolding get_condition
get_condition-append_other [] cond t h = rw h
get_condition-append_other (c ∷ s) cond t h = ground (arith, get_condition-append_other s cond t h)

get_condition-replace_loop :
    (s : Conditions) (cond : Condition)
    → has_type cond.typ s ≡ true
    → condition_equal (get_condition (replace_loop cond s) cond.typ) cond ≡ true
unfolding replace_loop has_type
get_condition-replace_loop [] cond h = cc
get_condition-replace_loop (c ∷ s) cond h = elim (Bool-cases (equal c.typ cond.typ)) [
  | inl e ↦
      let typ = ap (λ n. equal n cond.typ) (typ-replaced_by cond c) ∙ e in
      rw (get_condition-here (replaced_by cond c) (replace_loop cond s) cond.typ typ)
        (replaced_by-equal cond c e)
  | inr e ↦
      let typ = ap (λ n. equal n cond.typ) (typ-replaced_by cond c) ∙ e in
      rw (get_condition-there (replaced_by cond c) (replace_loop cond s) cond.typ typ)
        (get_condition-replace_loop s cond (rw e at h))
]

replaced_by-other :
    (cond existing : Condition)
    → equal existing.typ cond.typ ≡ false
    → replaced_by cond existing ≡ existing
replaced_by-other cond existing e = rw e

types_differ : (a b t : Bytes) → equal a t ≡ true → equal b t ≡ false → equal a b ≡ false
types_differ a b t h k = elim (Bool-cases (equal a b)) [
  | inl e ↦
      let same : b ≡ t = sym ((equal_iff a b).0 e) ∙ (equal_iff a t).0 h in
      let bad = sym ((equal_iff b t).1 same) ∙ k in cc
  | inr e ↦ e
]

get_condition-replace_other :
    (s : Conditions) (cond : Condition) (t : Bytes)
    → equal cond.typ t ≡ false
    → get_condition (replace_loop cond s) t ≡ get_condition s t
unfolding replace_loop
get_condition-replace_other [] cond t h = refl
get_condition-replace_other (c ∷ s) cond t h = elim (Bool-cases (equal c.typ t)) [
  | inl e ↦
      let kept = replaced_by-other cond c (types_differ c.typ cond.typ t e h) in
      rw kept (get_condition-here c (replace_loop cond s) t e ∙ sym (get_condition-here c s t e))
  | inr e ↦
      let typ = ap (λ n. equal n t) (typ-replaced_by cond c) ∙ e in
      get_condition-there (replaced_by cond c) (replace_loop cond s) t typ
      ∙ get_condition-replace_other s cond t h
      ∙ sym (get_condition-there c s t e)
]

-- What was set is found, up to its time.
pub get_condition-set_condition :
    (s : Conditions) (cond : Condition)
    → condition_equal (get_condition (set_condition s cond) cond.typ) cond ≡ true
unfolding set_condition
get_condition-set_condition s cond = elim (Bool-cases (has_type cond.typ s)) [
  | inl there ↦ rw there (get_condition-replace_loop s cond there)
  | inr missing ↦
      let absent = has_type-replace_loop cond s cond.typ ∙ missing in
      rw missing
        (rw (get_condition-append (replace_loop cond s) cond absent) (condition_equal_refl cond))
]

-- The other types are as before.
pub get_condition-set_other :
    (s : Conditions) (cond : Condition) (t : Bytes)
    → equal cond.typ t ≡ false
    → get_condition (set_condition s cond) t ≡ get_condition s t
unfolding set_condition
get_condition-set_other s cond t h = elim (Bool-cases (has_type cond.typ s)) [
  | inl there ↦ rw there (get_condition-replace_other s cond t h)
  | inr missing ↦ rw missing (
      get_condition-append_other (replace_loop cond s) cond t h
      ∙ get_condition-replace_other s cond t h)
]
