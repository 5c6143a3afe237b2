-- ===== src/Fieldpath/Lexer/Sound.antt =====
-- What `Parse` may return: the items that are sent, and the segments made of them.
use native.Mathlib.Numerals.{add-one}
use mathlib.Core.Path.{subst₂}
use crossplane_runtime.Base.{
  ℕ, zero, suc, ◌+◌, ◌-◌, ◌*◌, ◌^◌, ◌<◌, ◌≡◌, refl, sym, subst, Option, none, some, false, ◌||◌,
  List, [], ◌∷◌, inl, inr, arith, Bytes, contains, length, take, drop, All, All-append, leb, leb→le,
  ◌==◌, Bool-cases, Option-cases,
}
use crossplane_runtime.Fieldpath.Segment.{
  Segment, field, index, Segments, period, left_bracket, right_bracket, trim, parse_uint,
  segment_of, field_of, field_or_index,
}
use crossplane_runtime.Fieldpath.Segment.Decimal.{parse_uint_bound}
use crossplane_runtime.Fieldpath.Segment.Trim.{trim_idem, contains-trim}
use crossplane_runtime.Fieldpath.Errors.{Result, ok, err, crash, ◌>>=◌, >>=-eq-ok}
use crossplane_runtime.Fieldpath.Lexer.{
  ItemType, item_error, item_period, item_left_bracket, item_right_bracket, item_field,
  item_field_or_index, item_eol, Item, Lexer, StateFn, Next, goto, stop, panic, remaining,
  starts_with_byte, after_period, emit, errorf, find_stop, index_rune, advance, at_stop,
  at_right_bracket, lex_field, lex_period, lex_left_bracket, lex_field_or_index, lex_right_bracket,
  lex_field_fn, lex_period_fn, lex_left_bracket_fn, lex_field_or_index_fn, lex_right_bracket_fn,
  call, run, read_item, collect, new_lexer, parse,
}

abbrev NoBrackets : Bytes → Type 0
NoBrackets s = (contains right_bracket s ≡ false) × (contains left_bracket s ≡ false)

-- A name that `Parse` makes may be empty: `['']`.
abbrev pub IsParsed : Segment → Type 0
IsParsed (field s) = NoBrackets s × (trim s ≡ s)
IsParsed (index i) = i < 2 ^ 32

abbrev CleanText : ItemType → Bytes → Type 0
CleanText item_field v = NoBrackets v
CleanText item_field_or_index v = NoBrackets v
CleanText _ v = Unit

abbrev Clean : Item → Type 0
Clean i = CleanText i.typ i.val

record Tidy (l : Lexer) : Type 0 where
  no_token : l.start ≡ l.pos
  clean : All Clean l.items

abbrev FreeBefore : ℕ → Bytes → Option ℕ → Type 0
FreeBefore c s none = contains c s ≡ false
FreeBefore c s (some i) = contains c (take i s) ≡ false

FreeBefore-shift :
    (c x : ℕ) (s : Bytes) (o : Option ℕ)
    → (x == c) ≡ false
    → FreeBefore c s o
    → FreeBefore c (x ∷ s) (elim o [ none ↦ none | some i ↦ some (i + 1) ])
unfolding contains
FreeBefore-shift c x s none e h = ground arith
FreeBefore-shift c x s (some i) e h = rw add-one (ground arith)

index_rune-FreeBefore : (c : ℕ) (s : Bytes) → FreeBefore c s (index_rune c s)
unfolding index_rune
index_rune-FreeBefore c [] = unfold contains in refl
index_rune-FreeBefore c (x ∷ s) = elim (Bool-cases (x == c)) [
  | inl e ↦ rw e (unfold contains in refl)
  | inr e ↦ rw e (FreeBefore-shift c x s (index_rune c s) e (index_rune-FreeBefore c s))
]

abbrev CleanBefore : Bytes → Option (ℕ × ℕ) → Type 0
CleanBefore s none = NoBrackets s
CleanBefore s (some (i, r)) = NoBrackets (take i s)

CleanBefore-shift :
    (x : ℕ) (s : Bytes) (o : Option (ℕ × ℕ))
    → (x == right_bracket) ≡ false
    → (x == left_bracket) ≡ false
    → CleanBefore s o
    → CleanBefore (x ∷ s) (elim o [ none ↦ none | some (i, q) ↦ some (i + 1, q) ])
unfolding contains
CleanBefore-shift x s none e d h = ground arith
CleanBefore-shift x s (some (i, q)) e d h = rw add-one (ground arith)

find_stop-CleanBefore : (s : Bytes) → CleanBefore s (find_stop s)
unfolding find_stop
find_stop-CleanBefore [] = unfold contains in (refl, refl)
find_stop-CleanBefore (x ∷ s) =
    elim (Bool-cases (x == right_bracket || (x == left_bracket || x == period))) [
      | inl e ↦ rw e (unfold contains in (refl, refl))
      | inr e ↦ rw e (
          CleanBefore-shift x s (find_stop s) (ground arith) (ground arith)
            (find_stop-CleanBefore s))
    ]

NoBrackets-nil : NoBrackets []
NoBrackets-nil = unfold contains in (refl, refl)

-- A token that is sent is clean if the text that it takes is.
Tidy-emit :
    (t : ItemType) (n : ℕ) (l : Lexer)
    → Tidy l
    → CleanText t (take n (remaining l))
    → Tidy (emit t (advance n l))
unfolding emit
Tidy-emit t n l h k = elim (Bool-cases (leb (l.pos + n) l.start)) [
  | inl e ↦ rw e (record { no_token = omega (arith, h.no_token, leb→le _ _ e); clean = h.clean })
  | inr e ↦ rw e (record {
    no_token = refl;
    clean = All-append Clean l.items _ h.clean (
      subst₂ (λ m p. CleanText t (take m (drop p l.input)))
          (let m : n ≡ l.pos + n - l.start = omega (arith, h.no_token) in m) (sym h.no_token) k,
      tt,
    );
  })
]

-- Once the lexer stops, only what it sent matters.
abbrev TidyNext : Next → Lexer → Type 0
TidyNext (goto s) l = Tidy l
TidyNext stop l = All Clean l.items
TidyNext (panic c) l = Unit

abbrev TidyStep : Next × Lexer → Type 0
TidyStep p = TidyNext p.0 p.1

TidyStep-errorf : (p : ℕ) (message : Bytes) (l : Lexer) → Tidy l → TidyStep (errorf p message l)
unfolding errorf
TidyStep-errorf p message l h = All-append Clean l.items _ h.clean (tt, tt)

lex_right_bracket-TidyStep : (l : Lexer) → Tidy l → TidyStep (lex_right_bracket l)
unfolding lex_right_bracket
lex_right_bracket-TidyStep l h = Tidy-emit item_right_bracket 1 l h tt

lex_left_bracket-TidyStep : (l : Lexer) → Tidy l → TidyStep (lex_left_bracket l)
unfolding lex_left_bracket
lex_left_bracket-TidyStep l h = elim (Bool-cases (contains right_bracket (remaining l))) [
  | inl e ↦ rw e (Tidy-emit item_left_bracket 1 l h tt)
  | inr e ↦ rw e (TidyStep-errorf _ _ l h)
]

after_period-TidyStep : (l : Lexer) → Tidy l → TidyStep (after_period l)
after_period-TidyStep l h = elim (Bool-cases (starts_with_byte period (remaining l))) [
  | inl e ↦ rw e (TidyStep-errorf _ _ l h)
  | inr e ↦ rw e (elim (Bool-cases (starts_with_byte left_bracket (remaining l))) [
    | inl d ↦ rw d (TidyStep-errorf _ _ l h)
    | inr d ↦ rw d h
  ])
]

lex_period-TidyStep : (l : Lexer) → Tidy l → TidyStep (lex_period l)
unfolding lex_period
lex_period-TidyStep l h = elim (Bool-cases (l.pos == 0 || l.pos + 1 == length l.input)) [
  | inl e ↦ rw e (TidyStep-errorf _ _ l h)
  | inr e ↦ rw e (after_period-TidyStep _ (Tidy-emit item_period 1 l h tt))
]

at_right_bracket-TidyStep :
    (l : Lexer) (rbi : ℕ)
    → Tidy l
    → contains right_bracket (take rbi (remaining l)) ≡ false
    → TidyStep (at_right_bracket l rbi)
at_right_bracket-TidyStep l rbi h k = elim (Bool-cases (rbi == 0)) [
  | inl e ↦ rw e (TidyStep-errorf _ _ l h)
  | inr e ↦ rw e (elim (Option-cases (index_rune left_bracket (take rbi (remaining l)))) [
    | inl missing ↦ rw missing (
        Tidy-emit item_field_or_index rbi l h (
          k,
          subst (FreeBefore left_bracket (take rbi (remaining l))) missing
              (index_rune-FreeBefore left_bracket (take rbi (remaining l))),
        ))
    | inr (lbi, found) ↦ rw found (TidyStep-errorf _ _ l h)
  ])
]

lex_field_or_index-TidyStep : (l : Lexer) → Tidy l → TidyStep (lex_field_or_index l)
unfolding lex_field_or_index
lex_field_or_index-TidyStep l h = elim (Option-cases (index_rune right_bracket (remaining l))) [
  | inl missing ↦ rw (missing, lex_field_or_index) tt
  | inr (rbi, found) ↦
      rw (found, lex_field_or_index)
        (at_right_bracket-TidyStep l rbi h (
          subst (FreeBefore right_bracket (remaining l)) found
            (index_rune-FreeBefore right_bracket (remaining l))))
]

contains-take : (c n : ℕ) (s : Bytes) → contains c s ≡ false → contains c (take n s) ≡ false
unfolding contains
contains-take c zero s h = refl
contains-take c (suc n) [] h = refl
contains-take c (suc n) (x ∷ s) h = ground (arith, contains-take c n s)

Clean-emit :
    (t : ItemType) (l : Lexer)
    → All Clean l.items
    → CleanText t (take (l.pos - l.start) (drop l.start l.input))
    → All Clean (emit t l).items
unfolding emit
Clean-emit t l h k = elim (Bool-cases (leb l.pos l.start)) [
  | inl e ↦ rw e h
  | inr e ↦ rw e (All-append Clean l.items _ h (k, tt))
]

at_stop-TidyStep :
    (l : Lexer) (i r : ℕ) → Tidy l → NoBrackets (take i (remaining l)) → TidyStep (at_stop l i r)
at_stop-TidyStep l i r h k = elim (Bool-cases (r == right_bracket)) [
  | inl e ↦ rw e (TidyStep-errorf _ _ l h)
  | inr e ↦ rw e (elim (Bool-cases (r == left_bracket)) [
    | inl d ↦ rw d (Tidy-emit item_field i l h k)
    | inr d ↦ rw d (Tidy-emit item_field i l h k)
  ])
]

lex_field-TidyStep : (l : Lexer) → Tidy l → TidyStep (lex_field l)
unfolding lex_field
lex_field-TidyStep l h = elim (Option-cases (find_stop (remaining l))) [
  | inl missing ↦
      let (r, b) =
        subst (CleanBefore (remaining l)) missing (find_stop-CleanBefore (remaining l)) in
      let token = λ (p : ℕ). take (length l.input - l.start) (drop p l.input) in
      rw (missing, lex_field)
        (Clean-emit item_eol (emit item_field (record l { pos = length l.input }))
          (Clean-emit item_field (record l { pos = length l.input }) h.clean
            (subst (λ p. NoBrackets (token p)) (sym h.no_token)
              (contains-take right_bracket _ _ r, contains-take left_bracket _ _ b)))
          tt)
  | inr ((i, r), found) ↦
      rw (found, lex_field)
        (at_stop-TidyStep l i r h
          (subst (CleanBefore (remaining l)) found (find_stop-CleanBefore (remaining l))))
]

call-TidyStep : (s : StateFn) (l : Lexer) → Tidy l → TidyStep (call s l)
call-TidyStep lex_field_fn l h = lex_field-TidyStep l h
call-TidyStep lex_period_fn l h = lex_period-TidyStep l h
call-TidyStep lex_left_bracket_fn l h = lex_left_bracket-TidyStep l h
call-TidyStep lex_field_or_index_fn l h = lex_field_or_index-TidyStep l h
call-TidyStep lex_right_bracket_fn l h = lex_right_bracket-TidyStep l h

run-Clean :
    (f : ℕ) (n : Next) (l : Lexer) {items : List Item}
    → TidyNext n l
    → run f n l ≡ ok items
    → All Clean items
unfolding run
run-Clean f stop l h e = let k : l.items ≡ _ = cc in subst (All Clean) k h
run-Clean f (panic c) l h e = cc
run-Clean zero (goto s) l h e = cc
run-Clean (suc f) (goto s) l h e = run-Clean f (call s l).0 (call s l).1 (call-TidyStep s l h) e

field_of-IsParsed : (s : Bytes) → NoBrackets s → IsParsed (field_of s)
unfolding field_of
field_of-IsParsed s (r, b) =
    ((contains-trim right_bracket s r, contains-trim left_bracket s b), trim_idem s)

field_or_index-IsParsed : (s : Bytes) → NoBrackets s → IsParsed (field_or_index s)
unfolding field_or_index
field_or_index-IsParsed s h = elim (Option-cases (parse_uint s)) [
  | inl e ↦ subst (λ o. IsParsed (segment_of o s)) (sym e) (field_of-IsParsed s h)
  | inr (i, e) ↦ subst (λ o. IsParsed (segment_of o s)) (sym e) (parse_uint_bound s e)
]

-- What one item makes of segments that are parsed.
abbrev ParsedResult : Result Segments → Type 0
ParsedResult (ok sg) = All IsParsed sg
ParsedResult (err e) = Unit
ParsedResult (crash c) = Unit

read_item-Parsed :
    (t : ItemType) (sg : Segments) (i : Item)
    → CleanText t i.val
    → All IsParsed sg
    → ParsedResult (read_item t sg i)
unfolding read_item
read_item-Parsed item_field sg i h k = All-append IsParsed sg _ k (field_of-IsParsed i.val h, tt)
read_item-Parsed item_field_or_index sg i h k =
    All-append IsParsed sg _ k (field_or_index-IsParsed i.val h, tt)
read_item-Parsed item_error sg i h k = tt
read_item-Parsed _ sg i h k = k

collect-Parsed :
    (items : List Item) (sg : Segments)
    → All Clean items
    → All IsParsed sg
    → ParsedResult (collect sg items)
unfolding collect
collect-Parsed [] sg h k = k
collect-Parsed (i ∷ items) sg h k =
    go (read_item i.typ sg i) (read_item-Parsed i.typ sg i h.0 k)
      (λ s p. collect-Parsed items s h.1 p)
  where
    go :
        (r : Result Segments)
        → ParsedResult r
        → ((s : Segments) → All IsParsed s → ParsedResult (collect s items))
        → ParsedResult (r >>= λ s. collect s items)
    go (ok s) p rest = rest s p
    go (err e) p rest = tt
    go (crash c) p rest = tt

-- Every segment that `Parse` returns is an index within 32 bits, or a name with no bracket in it
-- and no quote at either end.
pub parse-IsParsed : (path : Bytes) {sg : Segments} → parse path ≡ ok sg → All IsParsed sg
unfolding parse
parse-IsParsed path e =
    let (items, sent, read) =
      >>=-eq-ok (run (2 * length path + 2) (goto lex_field_fn) (new_lexer path)) (collect []) e in
    subst ParsedResult read (
      collect-Parsed items []
        (run-Clean _ (goto lex_field_fn) (new_lexer path) (record { no_token = refl; clean = tt })
          sent)
        tt)
