-- ===== src/Condition/Many.antt =====
-- Several conditions set at once, and `MarkConditions`.
use crossplane_runtime.Base.{
  ℕ, ◌≡◌, refl, sym, ◌∙◌, ap, true, false, ◌⊎◌, inl, inr, List, [], ◌∷◌, ◌++◌, arith, Bytes, equal,
  equal_iff, ==_iff, if◌then◌else◌, Bool-cases, All, map,
}
use crossplane_runtime.Condition.{
  Condition, Conditions, condition_equal, get_condition, replaced_by, replace_loop, has_type,
  set_condition, set_conditions, with_observed_generation, mark_conditions,
}
use crossplane_runtime.Condition.Set.{
  condition_equal_refl, has_type-replace_loop, has_type-append, get_condition-set_condition,
  get_condition-set_other,
}

-- The last supplied condition of a type, or else the one that was there.
abbrev pub latest : Condition → List Condition → Bytes → Condition
latest d [] t = d
latest d (c ∷ cs) t = latest (if equal c.typ t then c else d) cs t

condition_equal_trans :
    (a b c : Condition)
    → condition_equal a b ≡ true
    → condition_equal b c ≡ true
    → condition_equal a c ≡ true
unfolding condition_equal
condition_equal_trans a b c h k = ground (
  arith,
  equal_iff a.typ b.typ,
  equal_iff a.status b.status,
  equal_iff a.reason b.reason,
  equal_iff a.message b.message,
  ==_iff a.observed_generation b.observed_generation,
)

-- Equal starts have equal latest conditions.
latest_cong :
    (d e : Condition) (cs : List Condition) (t : Bytes)
    → condition_equal d e ≡ true
    → condition_equal (latest d cs t) (latest e cs t) ≡ true
latest_cong d e [] t h = h
latest_cong d e (c ∷ cs) t h = elim (Bool-cases (equal c.typ t)) [
  | inl same ↦ rw same (condition_equal_refl (latest c cs t))
  | inr other ↦ rw other (latest_cong d e cs t h)
]

one_set :
    (s : Conditions) (c : Condition) (t : Bytes)
    → condition_equal
        (get_condition (set_condition s c) t)
        (if equal c.typ t then c else get_condition s t)
      ≡ true
one_set s c t = elim (Bool-cases (equal c.typ t)) [
  | inl same ↦ rw same (
      ap (λ n. condition_equal (get_condition (set_condition s c) n) c)
        (sym ((equal_iff c.typ t).0 same))
      ∙ get_condition-set_condition s c)
  | inr other ↦
      rw other (rw (get_condition-set_other s c t other) (condition_equal_refl (get_condition s t)))
]

-- After `SetConditions` every type has the last condition that was supplied for it, up to the
-- transition time, and a type for which none was supplied has the one that it had.
pub get_condition-set_conditions :
    (s : Conditions) (cs : List Condition) (t : Bytes)
    → condition_equal (get_condition (set_conditions s cs) t) (latest (get_condition s t) cs t)
      ≡ true
unfolding set_conditions
get_condition-set_conditions s [] t = condition_equal_refl (get_condition s t)
get_condition-set_conditions s (c ∷ cs) t =
    condition_equal_trans (get_condition (set_conditions (set_condition s c) cs) t)
      (latest (get_condition (set_condition s c) t) cs t)
      (latest (if equal c.typ t then c else get_condition s t) cs t)
      (get_condition-set_conditions (set_condition s c) cs t)
      (latest_cong (get_condition (set_condition s c) t)
        (if equal c.typ t then c else get_condition s t) cs t (one_set s c t))

-- At most one condition of each type.
abbrev pub UniqueTypes : Conditions → Type 0
UniqueTypes [] = Unit
UniqueTypes (c ∷ s) = (has_type c.typ s ≡ false) × UniqueTypes s

typ-replaced_by : (cond existing : Condition) → (replaced_by cond existing).typ ≡ existing.typ
typ-replaced_by cond existing = elim (Bool-cases (equal existing.typ cond.typ)) [
  | inl same ↦ elim (Bool-cases (condition_equal existing cond)) [
    | inl e ↦ rw same (rw e)
    | inr e ↦ rw same (rw e (sym ((equal_iff existing.typ cond.typ).0 same)))
  ]
  | inr other ↦ rw other
]

replace_loop-UniqueTypes :
    (cond : Condition) (s : Conditions) → UniqueTypes s → UniqueTypes (replace_loop cond s)
unfolding replace_loop
replace_loop-UniqueTypes cond [] u = tt
replace_loop-UniqueTypes cond (c ∷ s) u = (
  ap (λ n. has_type n (replace_loop cond s)) (typ-replaced_by cond c)
      ∙ has_type-replace_loop cond s c.typ
      ∙ u.0,
  replace_loop-UniqueTypes cond s u.1,
)

append-UniqueTypes :
    (s : Conditions) (cond : Condition)
    → UniqueTypes s
    → has_type cond.typ s ≡ false
    → UniqueTypes (s ++ cond ∷ [])
unfolding has_type
append-UniqueTypes [] cond u h = (refl, tt)
append-UniqueTypes (c ∷ s) cond u h = (
  rw (has_type-append s (cond ∷ []) c.typ)
      (ground (arith, u.0, equal_iff c.typ cond.typ, equal_iff cond.typ c.typ)),
  append-UniqueTypes s cond u.1 (ground arith),
)

set_condition-UniqueTypes :
    (s : Conditions) (cond : Condition) → UniqueTypes s → UniqueTypes (set_condition s cond)
unfolding set_condition
set_condition-UniqueTypes s cond u = elim (Bool-cases (has_type cond.typ s)) [
  | inl there ↦ rw there (replace_loop-UniqueTypes cond s u)
  | inr missing ↦ rw missing (
      append-UniqueTypes (replace_loop cond s) cond (replace_loop-UniqueTypes cond s u)
        (has_type-replace_loop cond s cond.typ ∙ missing))
]

-- `SetConditions` keeps at most one condition of each type, whatever it is given.
pub set_conditions-UniqueTypes :
    (s : Conditions) (cs : List Condition) → UniqueTypes s → UniqueTypes (set_conditions s cs)
unfolding set_conditions
set_conditions-UniqueTypes s [] u = u
set_conditions-UniqueTypes s (c ∷ cs) u =
    set_conditions-UniqueTypes (set_condition s c) cs (set_condition-UniqueTypes s c u)

-- A condition of this type is there, and is this one but for its time.
abbrev pub AlreadySet : Conditions → Condition → Type 0
AlreadySet s c = (has_type c.typ s ≡ true) × (condition_equal (get_condition s c.typ) c ≡ true)

replace_loop-missing :
    (cond : Condition) (s : Conditions) → has_type cond.typ s ≡ false → replace_loop cond s ≡ s
unfolding replace_loop has_type
replace_loop-missing cond [] h = refl
replace_loop-missing cond (c ∷ s) h =
    let other : equal c.typ cond.typ ≡ false = ground arith in
    rw other (ap (λ r. c ∷ r) (replace_loop-missing cond s (ground arith)))

replace_loop-AlreadySet :
    (cond : Condition) (s : Conditions)
    → UniqueTypes s
    → AlreadySet s cond
    → replace_loop cond s ≡ s
unfolding replace_loop has_type get_condition
replace_loop-AlreadySet cond [] u h = refl
replace_loop-AlreadySet cond (c ∷ s) u (there, same) = elim (Bool-cases (equal c.typ cond.typ)) [
  | inl e ↦
      let equal_c : condition_equal c cond ≡ true = rw e at same in
      let alone = ap (λ n. has_type n s) (sym ((equal_iff c.typ cond.typ).0 e)) ∙ u.0 in
      rw e (rw equal_c (ap (λ r. c ∷ r) (replace_loop-missing cond s alone)))
  | inr e ↦
      rw e (ap (λ r. c ∷ r) (replace_loop-AlreadySet cond s u.1 (rw e at there, rw e at same)))
]

set_condition-AlreadySet :
    (s : Conditions) (cond : Condition)
    → UniqueTypes s
    → AlreadySet s cond
    → set_condition s cond ≡ s
unfolding set_condition
set_condition-AlreadySet s cond u h = rw h.0 (replace_loop-AlreadySet cond s u h)

-- `SetConditions` changes nothing, transition times included, when all that is supplied is set
-- already.
pub set_conditions-AlreadySet :
    (s : Conditions) (cs : List Condition)
    → UniqueTypes s
    → All (AlreadySet s) cs
    → set_conditions s cs ≡ s
unfolding set_conditions
set_conditions-AlreadySet s [] u h = refl
set_conditions-AlreadySet s (c ∷ cs) u h =
    rw (set_condition-AlreadySet s c u h.0) (set_conditions-AlreadySet s cs u h.1)

abbrev marked : ℕ → List Condition → List Condition
marked gen cs = map (λ c. with_observed_generation c gen) cs

latest-marked :
    (gen : ℕ) (d : Condition) (cs : List Condition) (t : Bytes)
    → (d.observed_generation ≡ gen) ⊎ (has_type t cs ≡ true)
    → (latest d (marked gen cs) t).observed_generation ≡ gen
unfolding with_observed_generation has_type
latest-marked gen d [] t (inl h) = h
latest-marked gen d [] t (inr h) = cc
latest-marked gen d (c ∷ cs) t h =
    latest-marked gen (if equal c.typ t then with_observed_generation c gen else d) cs t
      (elim (Bool-cases (equal c.typ t)) [
        | inl same ↦ rw same (inl refl)
        | inr other ↦
            rw other
              (elim h [ inl old ↦ inl old | inr later ↦ inr (let k = rw other at later in k) ])
      ])

generation-equal :
    (c d : Condition) → condition_equal c d ≡ true → c.observed_generation ≡ d.observed_generation
unfolding condition_equal
generation-equal c d h = ground (arith, ==_iff c.observed_generation d.observed_generation)

-- `MarkConditions` leaves each condition that it was given with the generation of the object.
pub mark_conditions-generation :
    (gen : ℕ) (s : Conditions) (cs : List Condition) (t : Bytes)
    → has_type t cs ≡ true
    → (get_condition (mark_conditions gen s cs) t).observed_generation ≡ gen
unfolding mark_conditions
mark_conditions-generation gen s cs t h =
    generation-equal (get_condition (set_conditions s (marked gen cs)) t)
      (latest (get_condition s t) (marked gen cs) t)
      (get_condition-set_conditions s (marked gen cs) t)
    ∙ latest-marked gen (get_condition s t) cs t (inr h)
