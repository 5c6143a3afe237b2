-- ===== src/Fieldpath/Lexer/Total.antt =====
-- How the lexer advances, the rounds that it needs, and where it slices.
use native.Mathlib.Numerals.{add-one}
use crossplane_runtime.Base.{
  Bool, ℕ, zero, suc, ◌+◌, ◌*◌, ◌≤◌, ◌<◌, ◌≡◌, refl, sym, ◌∙◌, ap, subst, true, false, ◌||◌, Option,
  none, some, List, [], ◌∷◌, inl, inr, arith, Bytes, contains, length, take, drop, drop-drop,
  length-drop, leb, ◌==◌, Bool-cases, Option-cases, ==_iff,
}
use crossplane_runtime.Fieldpath.Segment.{Segments, period, left_bracket, right_bracket}
use crossplane_runtime.Fieldpath.Errors.{ok, NoCrash, on_ok, on_err, NoCrash-bind}
use crossplane_runtime.Fieldpath.Lexer.{
  ItemType, item_period, item_error, item_field, item_field_or_index, Item, Lexer, StateFn,
  lex_field_fn, lex_period_fn, lex_left_bracket_fn, lex_field_or_index_fn, lex_right_bracket_fn,
  Next, goto, stop, panic, remaining, starts_with_byte, after_period, emit, errorf, find_stop,
  index_rune, advance, at_stop, at_right_bracket, lex_field, lex_period, lex_left_bracket,
  lex_field_or_index, lex_right_bracket, call, run, read_item, collect, new_lexer, parse,
}

-- What each state function expects of the unread input.
abbrev pub Ready : StateFn → Bytes → Type 0
Ready lex_field_fn r = Unit
Ready lex_period_fn r = (rest : Bytes) × (r ≡ period ∷ rest)
Ready lex_left_bracket_fn r = (rest : Bytes) × (r ≡ left_bracket ∷ rest)
Ready lex_field_or_index_fn r = contains right_bracket r ≡ true
Ready lex_right_bracket_fn r = (rest : Bytes) × (r ≡ right_bracket ∷ rest)

-- The rounds that may be left.
abbrev pub weight : StateFn → Bytes → ℕ
weight lex_field_fn r = 2 * length r + 1
weight _ r = 2 * length r

abbrev Progress : ℕ → Next → Bytes → Type 0
Progress k stop r = Unit
Progress k (panic c) r = ⊥
Progress k (goto s) r = Ready s r × (weight s r < k)

abbrev Steps : ℕ → Next × Lexer → Type 0
Steps k p = Progress k p.0 (remaining p.1)

pub remaining-emit : (t : ItemType) (l : Lexer) → remaining (emit t l) ≡ remaining l
unfolding emit
remaining-emit t l = elim (Bool-cases (leb l.pos l.start)) [
  | inl empty ↦ rw empty
  | inr more ↦ rw more
]

pub remaining-advance : (n : ℕ) (l : Lexer) → remaining (advance n l) ≡ drop n (remaining l)
remaining-advance n l = sym (drop-drop l.pos n l.input)

Steps-emit :
    (k n : ℕ) (s : StateFn) (t : ItemType) (l : Lexer)
    → Progress k (goto s) (drop n (remaining l))
    → Steps k (goto s, emit t (advance n l))
Steps-emit k n s t l =
    subst (Progress k (goto s)) (sym (remaining-emit t (advance n l) ∙ remaining-advance n l))

-- The place that a search found, if it found one.
abbrev FoundAt : ℕ → Bytes → Option ℕ → Type 0
FoundAt c xs none = Unit
FoundAt c xs (some i) = (rest : Bytes) × (drop i xs ≡ c ∷ rest)

FoundAt-shift :
    (c x : ℕ) (xs : Bytes) (o : Option ℕ)
    → FoundAt c xs o
    → FoundAt c (x ∷ xs) (elim o [ none ↦ none | some i ↦ some (i + 1) ])
FoundAt-shift c x xs none h = tt
FoundAt-shift c x xs (some i) (rest, e) = (rest, rw add-one e)

index_rune-FoundAt : (c : ℕ) (xs : Bytes) → FoundAt c xs (index_rune c xs)
unfolding index_rune
index_rune-FoundAt c [] = tt
index_rune-FoundAt c (x ∷ xs) = elim (Bool-cases (x == c)) [
  | inl e ↦ rw e (xs, ap (λ y. y ∷ xs) ((==_iff x c).0 e))
  | inr e ↦ rw e (FoundAt-shift c x xs (index_rune c xs) (index_rune-FoundAt c xs))
]

pub index_rune_lem :
    (c : ℕ) (xs : Bytes) {i : ℕ}
    → index_rune c xs ≡ some i
    → (rest : Bytes) × (drop i xs ≡ c ∷ rest)
index_rune_lem c xs h = subst (FoundAt c xs) h (index_rune-FoundAt c xs)

pub index_rune_total : (c : ℕ) (xs : Bytes) → contains c xs ≡ true → index_rune c xs ≡ none → ⊥
unfolding index_rune contains
index_rune_total c [] h e = cc
index_rune_total c (x ∷ xs) h e = ground (arith, index_rune_total c xs)

-- The bytes that end a field name.
pub data IsStop : ℕ → Type 0 where
  right : {r : ℕ} → r ≡ right_bracket → IsStop r
  left : {r : ℕ} → r ≡ left_bracket → IsStop r
  dot : {r : ℕ} → r ≡ period → IsStop r

abbrev StopAt : Bytes → Option (ℕ × ℕ) → Type 0
StopAt xs none = Unit
StopAt xs (some (i, r)) = (rest : Bytes) × (drop i xs ≡ r ∷ rest) × IsStop r

StopAt-shift :
    (x : ℕ) (xs : Bytes) (o : Option (ℕ × ℕ))
    → StopAt xs o
    → StopAt (x ∷ xs) (elim o [ none ↦ none | some (i, q) ↦ some (i + 1, q) ])
StopAt-shift x xs none h = tt
StopAt-shift x xs (some (i, q)) (rest, e, s) = (rest, rw add-one e, s)

stops : ℕ → Bool
stops r = r == right_bracket || (r == left_bracket || r == period)

stops-IsStop : (r : ℕ) → stops r ≡ true → IsStop r
unfolding stops
stops-IsStop r h = elim (Bool-cases (r == right_bracket)) [
  | inl e ↦ right (ground arith)
  | inr e ↦ elim (Bool-cases (r == left_bracket)) [
    | inl d ↦ left (ground arith)
    | inr d ↦ dot (ground arith)
  ]
]

find_stop-StopAt : (xs : Bytes) → StopAt xs (find_stop xs)
unfolding find_stop stops
find_stop-StopAt [] = tt
find_stop-StopAt (x ∷ xs) = elim (Bool-cases (stops x)) [
  | inl e ↦ rw e (xs, refl, stops-IsStop x e)
  | inr e ↦ rw e (StopAt-shift x xs (find_stop xs) (find_stop-StopAt xs))
]

pub find_stop_lem :
    (xs : Bytes) {i r : ℕ}
    → find_stop xs ≡ some (i, r)
    → (rest : Bytes) × (drop i xs ≡ r ∷ rest) × IsStop r
find_stop_lem xs h = subst (StopAt xs) h (find_stop-StopAt xs)

-- One step of each state function goes to a state that is ready, with fewer rounds left.
lex_right_bracket-Steps :
    (l : Lexer)
    → Ready lex_right_bracket_fn (remaining l)
    → Steps (weight lex_right_bracket_fn (remaining l)) (lex_right_bracket l)
unfolding lex_right_bracket
lex_right_bracket-Steps l (rest, e) = Steps-emit _ 1 lex_field_fn _ l (rw e (tt, omega arith))

lex_left_bracket-Steps :
    (l : Lexer)
    → Ready lex_left_bracket_fn (remaining l)
    → Steps (weight lex_left_bracket_fn (remaining l)) (lex_left_bracket l)
unfolding lex_left_bracket contains
lex_left_bracket-Steps l (rest, e) = elim (Bool-cases (contains right_bracket (remaining l))) [
  | inl h ↦
      let k = rw e at h in rw h (Steps-emit _ 1 lex_field_or_index_fn _ l (rw e (k, omega arith)))
  | inr h ↦ rw h tt
]

at_right_bracket-Steps :
    (l : Lexer) (rbi : ℕ)
    → Ready lex_right_bracket_fn (drop rbi (remaining l))
    → Steps (weight lex_field_or_index_fn (remaining l)) (at_right_bracket l rbi)
unfolding errorf
at_right_bracket-Steps l rbi (rest, e) = elim (Bool-cases (rbi == 0)) [
  | inl h ↦ rw h tt
  | inr h ↦ rw h (elim (Option-cases (index_rune left_bracket (take rbi (remaining l)))) [
    | inl missing ↦ rw missing (
        Steps-emit _ rbi lex_right_bracket_fn _ l
          ((rest, e), ground (arith, length-drop rbi (remaining l), ap length e)))
    | inr (lbi, found) ↦ rw found tt
  ])
]

lex_field_or_index-Steps :
    (l : Lexer)
    → Ready lex_field_or_index_fn (remaining l)
    → Steps (weight lex_field_or_index_fn (remaining l)) (lex_field_or_index l)
unfolding lex_field_or_index
lex_field_or_index-Steps l h = elim (Option-cases (index_rune right_bracket (remaining l))) [
  | inl missing ↦ absurd (index_rune_total right_bracket (remaining l) h missing)
  | inr (rbi, found) ↦
      rw (found, lex_field_or_index)
        (at_right_bracket-Steps l rbi (index_rune_lem right_bracket (remaining l) found))
]

-- `lex_period` behind its first guard.
after_period-Steps :
    (l : Lexer) (rest : Bytes)
    → remaining l ≡ period ∷ rest
    → Steps (2 * length (remaining l)) (after_period (emit item_period (advance 1 l)))
unfolding errorf
after_period-Steps l rest e =
    elim (Bool-cases (starts_with_byte period (remaining (emit item_period (advance 1 l))))) [
      | inl h ↦ rw h tt
      | inr h ↦
          rw h
            (elim (Bool-cases
              (starts_with_byte left_bracket (remaining (emit item_period (advance 1 l))))) [
                | inl k ↦ rw k tt
                | inr k ↦ rw k (Steps-emit _ 1 lex_field_fn _ l (rw e (tt, omega arith)))
              ])
    ]

lex_period-Steps :
    (l : Lexer)
    → Ready lex_period_fn (remaining l)
    → Steps (weight lex_period_fn (remaining l)) (lex_period l)
unfolding lex_period
lex_period-Steps l (rest, e) = elim (Bool-cases (l.pos == 0 || l.pos + 1 == length l.input)) [
  | inl h ↦ rw h (unfold errorf in tt)
  | inr h ↦ rw h (after_period-Steps l rest e)
]

not_bracket :
    (r : ℕ) → IsStop r → (r == right_bracket) ≡ false → (r == left_bracket) ≡ false → r ≡ period
not_bracket r (right e) h k = ground arith
not_bracket r (left e) h k = ground arith
not_bracket r (dot e) h k = e

at_stop-Steps :
    (l : Lexer) (i r : ℕ) (rest : Bytes)
    → drop i (remaining l) ≡ r ∷ rest
    → IsStop r
    → Steps (weight lex_field_fn (remaining l)) (at_stop l i r)
unfolding errorf
at_stop-Steps l i r rest e s = elim (Bool-cases (r == right_bracket)) [
  | inl h ↦ rw h tt
  | inr h ↦ rw h (
      let fewer : 2 * length (drop i (remaining l)) < 2 * length (remaining l) + 1 =
        omega (arith, length-drop i (remaining l)) in
      elim (Bool-cases (r == left_bracket)) [
        | inl k ↦
            let at_left : drop i (remaining l) ≡ left_bracket ∷ rest = ground arith in
            rw k (Steps-emit _ i lex_left_bracket_fn _ l ((rest, at_left), fewer))
        | inr k ↦
            let at_dot : drop i (remaining l) ≡ period ∷ rest =
              e ∙ ap (λ x. x ∷ rest) (not_bracket r s h k) in
            rw k (Steps-emit _ i lex_period_fn _ l ((rest, at_dot), fewer))
      ])
]

lex_field-Steps : (l : Lexer) → Steps (weight lex_field_fn (remaining l)) (lex_field l)
unfolding lex_field
lex_field-Steps l = elim (Option-cases (find_stop (remaining l))) [
  | inl missing ↦ rw (missing, lex_field) tt
  | inr ((i, r), found) ↦
      let (rest, e, s) = find_stop_lem (remaining l) found in
      rw (found, lex_field) (at_stop-Steps l i r rest e s)
]

call-Steps :
    (s : StateFn) (l : Lexer) → Ready s (remaining l) → Steps (weight s (remaining l)) (call s l)
call-Steps lex_field_fn l h = lex_field-Steps l
call-Steps lex_period_fn l h = lex_period-Steps l h
call-Steps lex_left_bracket_fn l h = lex_left_bracket-Steps l h
call-Steps lex_field_or_index_fn l h = lex_field_or_index-Steps l h
call-Steps lex_right_bracket_fn l h = lex_right_bracket-Steps l h

abbrev Enough : ℕ → Next → Bytes → Type 0
Enough f stop r = Unit
Enough f (panic c) r = ⊥
Enough f (goto s) r = Ready s r × (weight s r < f)

Enough-step : (f k : ℕ) (n : Next) (r : Bytes) → k ≤ f → Progress k n r → Enough f n r
Enough-step f k stop r h p = tt
Enough-step f k (panic c) r h p = p
Enough-step f k (goto s) r h p = (p.0, omega arith)

-- A run with enough rounds ends, and not in a panic.
pub run_total :
    (f : ℕ) (n : Next) (l : Lexer)
    → Enough f n (remaining l)
    → (items : List Item) × (run f n l ≡ ok items)
unfolding run
run_total f stop l h = (l.items, refl)
run_total f (panic c) l h = absurd h
run_total zero (goto s) l h = absurd (omega arith)
run_total (suc f) (goto s) l (ready, room) =
    run_total f (call s l).0 (call s l).1
      (Enough-step f _ (call s l).0 _ (omega arith) (call-Steps s l ready))

read_item-NoCrash :
    (t : ItemType) (segments : Segments) (i : Item) → NoCrash (read_item t segments i)
unfolding read_item
read_item-NoCrash item_field segments i = on_ok _
read_item-NoCrash item_field_or_index segments i = on_ok _
read_item-NoCrash item_error segments i = on_err _
read_item-NoCrash _ segments i = on_ok _

collect-NoCrash : (segments : Segments) (items : List Item) → NoCrash (collect segments items)
unfolding collect
collect-NoCrash segments [] = on_ok segments
collect-NoCrash segments (i ∷ items) =
    NoCrash-bind (read_item-NoCrash i.typ segments i) (λ sg. collect-NoCrash sg items)

-- Lexing and collecting ends on every path, with segments or with an error: the rounds that the
-- model gives the lexer suffice, and no slice is out of range.
pub parse-NoCrash : (path : Bytes) → NoCrash (parse path)
unfolding parse
parse-NoCrash path =
    let (items, e) =
      run_total (2 * length path + 2) (goto lex_field_fn) (new_lexer path) (tt, omega arith) in
    rw e (collect-NoCrash [] items)
