-- ===== src/Fieldpath/Lexer.antt =====
-- pkg/fieldpath/fieldpath.go: the lexer and `Parse`. The goroutine that lexes sends its items down a
-- channel that `Parse` drains, and shares nothing else with it: the model runs the lexer to its end
-- and then reads the items in the order in which they were sent.
pub mod Total
pub mod Steps
pub mod RoundTrip
pub mod Sound
pub mod Normal
use crossplane_runtime.Base.{
  ℕ, zero, suc, ◌+◌, ◌-◌, ◌*◌, Bool, true, false, ◌||◌, Option, none, some, List, [], ◌∷◌, ◌++◌,
  Bytes, codes, contains, length, take, drop, ltb, leb, ◌==◌, if◌then◌else◌,
}
use crossplane_runtime.Fieldpath.Segment.{
  Segments, field_of, field_or_index, period, left_bracket, right_bracket,
}
use crossplane_runtime.Fieldpath.Errors.{
  at_position, Crash, slice_out_of_range, no_fuel, Result, ok, err, crash, ◌>>=◌,
}

pub data ItemType : Type 0 where
  item_error item_period item_left_bracket item_right_bracket : ItemType
  item_field item_field_or_index item_eol : ItemType

pub record Item : Type 0 where
  pub typ : ItemType
  pub pos : ℕ
  pub val : Bytes

pub record Lexer : Type 0 where
  pub input : Bytes
  pub pos : ℕ
  pub start : ℕ
  -- What was sent on the channel so far.
  pub items : List Item

-- `stateFn`: the state function that runs next.
pub data StateFn : Type 0 where
  lex_field_fn lex_period_fn lex_left_bracket_fn lex_field_or_index_fn lex_right_bracket_fn :
      StateFn

-- What a state function returns: the next one, `nil`, or a panic.
pub data Next : Type 0 where
  goto : StateFn → Next
  stop : Next
  panic : Crash → Next

abbrev pub remaining : Lexer → Bytes
remaining l = drop l.pos l.input

unfoldable pub emit : ItemType → Lexer → Lexer
emit t l = if leb l.pos l.start then l else record l {
  items =
      l.items
      ++ record { typ = t; pos = l.start; val = take (l.pos - l.start) (drop l.start l.input) }
        ∷ [];
  start = l.pos;
}

-- `fmt.Sprintf("unexpected %q", r)` and `fmt.Sprintf("unterminated %q", r)`
abbrev pub quoted : Bytes → ℕ → Bytes
quoted word r = word ++ 32 ∷ 39 ∷ r ∷ 39 ∷ []

unfoldable pub errorf : ℕ → Bytes → Lexer → Next × Lexer
errorf p message l =
    (stop, record l { items = l.items ++ record { typ = item_error; pos = p; val = message } ∷ [] })

abbrev pub unexpected : ℕ → ℕ → Lexer → Next × Lexer
unexpected p r = errorf p (quoted (codes "unexpected") r)

-- The first byte that ends a field name, with its distance.
unfoldable pub find_stop : Bytes → Option (ℕ × ℕ)
find_stop [] = none
find_stop (r ∷ rs) =
    if r == right_bracket || (r == left_bracket || r == period)
    then some (0, r)
    else elim (find_stop rs) [ none ↦ none | some (i, q) ↦ some (i + 1, q) ]

-- `strings.IndexRune`, with `none` for -1.
unfoldable pub index_rune : ℕ → Bytes → Option ℕ
index_rune c [] = none
index_rune c (r ∷ rs) =
    if r == c then some 0 else elim (index_rune c rs) [ none ↦ none | some i ↦ some (i + 1) ]

abbrev pub advance : ℕ → Lexer → Lexer
advance n l = record l { pos = l.pos + n }

abbrev pub at_stop : Lexer → ℕ → ℕ → Next × Lexer
at_stop l i r =
    if r == right_bracket
    then unexpected (l.pos + i) right_bracket l
    else if r == left_bracket
    then (goto lex_left_bracket_fn, emit item_field (advance i l))
    else (goto lex_period_fn, emit item_field (advance i l))

unfoldable pub lex_field : Lexer → Next × Lexer
unfolding emit errorf find_stop
lex_field l = elim (find_stop (remaining l)) [
  | some (i, r) ↦ at_stop l i r
  | none ↦ (stop, emit item_eol (emit item_field (record l { pos = length l.input })))
]

-- What `utf8.DecodeRuneInString` finds in front, where it is compared with an ASCII byte.
abbrev pub starts_with_byte : ℕ → Bytes → Bool
starts_with_byte c [] = false
starts_with_byte c (r ∷ rs) = r == c

-- What `lexPeriod` does once it has emitted its period.
abbrev pub after_period : Lexer → Next × Lexer
after_period l =
    if starts_with_byte period (remaining l)
    then unexpected l.pos period l
    else if starts_with_byte left_bracket (remaining l)
    then unexpected l.pos left_bracket l
    else (goto lex_field_fn, l)

-- `l.pos == len(l.input)-1` is written with the addition, which no empty input breaks.
unfoldable pub lex_period : Lexer → Next × Lexer
unfolding emit errorf
lex_period l =
    if l.pos == 0 || l.pos + 1 == length l.input
    then unexpected l.pos period l
    else after_period (emit item_period (advance 1 l))

unfoldable pub lex_left_bracket : Lexer → Next × Lexer
unfolding emit errorf contains
lex_left_bracket l =
    if contains right_bracket (remaining l)
    then (goto lex_field_or_index_fn, emit item_left_bracket (advance 1 l))
    else errorf l.pos (quoted (codes "unterminated") left_bracket) l

abbrev pub at_right_bracket : Lexer → ℕ → Next × Lexer
at_right_bracket l rbi =
    if rbi == 0
    then unexpected l.pos right_bracket l
    else elim (index_rune left_bracket (take rbi (remaining l))) [
      | some lbi ↦ unexpected (l.pos + lbi) left_bracket l
      | none ↦ (goto lex_right_bracket_fn, emit item_field_or_index (advance rbi l))
    ]

-- With no right bracket the slice `l.input[l.pos:l.pos-1]` panics.
unfoldable pub lex_field_or_index : Lexer → Next × Lexer
unfolding emit errorf index_rune
lex_field_or_index l = elim (index_rune right_bracket (remaining l)) [
  | some rbi ↦ at_right_bracket l rbi
  | none ↦ (panic slice_out_of_range, l)
]

unfoldable pub lex_right_bracket : Lexer → Next × Lexer
unfolding emit
lex_right_bracket l = (goto lex_field_fn, emit item_right_bracket (advance 1 l))

abbrev pub call : StateFn → Lexer → Next × Lexer
call lex_field_fn l = lex_field l
call lex_period_fn l = lex_period l
call lex_left_bracket_fn l = lex_left_bracket l
call lex_field_or_index_fn l = lex_field_or_index l
call lex_right_bracket_fn l = lex_right_bracket l

-- `run`, with the rounds that it may take; the items that were sent.
unfoldable pub run : ℕ → Next → Lexer → Result (List Item)
run f stop l = ok l.items
run f (panic c) l = crash c
run zero (goto s) l = crash no_fuel
run (suc f) (goto s) l = let (n, l') = call s l in run f n l'

-- One item in the loop of `Parse`: the segments with what it adds, or the error that it is.
unfoldable pub read_item : ItemType → Segments → Item → Result Segments
read_item item_field segments i = ok (segments ++ field_of i.val ∷ [])
read_item item_field_or_index segments i = ok (segments ++ field_or_index i.val ∷ [])
read_item item_error segments i = err (at_position i.val i.pos)
read_item _ segments i = ok segments

-- The loop of `Parse` over the items.
unfoldable pub collect : Segments → List Item → Result Segments
unfolding read_item
collect segments [] = ok segments
collect segments (i ∷ items) = read_item i.typ segments i >>= λ sg. collect sg items

abbrev pub new_lexer : Bytes → Lexer
new_lexer path = record { input = path; pos = 0; start = 0; items = [] }

-- `Parse`, with two rounds for each byte and two more.
unfoldable pub parse : Bytes → Result Segments
unfolding run lex_field lex_period lex_left_bracket lex_field_or_index lex_right_bracket collect
parse path = run (2 * length path + 2) (goto lex_field_fn) (new_lexer path) >>= collect []
