-- ===== src/Fieldpath/Segment.antt =====
-- pkg/fieldpath/fieldpath.go: segments, how they are read from a token and how they are printed.
-- A text is the list of its bytes. Every byte that this code looks for is ASCII, so that a walk over
-- the runes of a text and a walk over its bytes find the same places.
pub mod Decimal
pub mod Trim
use crossplane_runtime.Base.{
  ℕ, zero, suc, ◌+◌, ◌-◌, ◌*◌, ◌/◌, ◌%◌, ◌^◌, Bool, true, false, ◌&&◌, ◌||◌, Option, none, some,
  List, [], ◌∷◌, ◌++◌, Bytes, codes, equal, contains, ltb, leb, ◌==◌, if◌then◌else◌,
}

-- `SegmentType` with the field that it selects: `Segment{Type: SegmentField, Field: s}` is `field s`.
pub data Segment : Type 0 where
  field : Bytes → Segment
  index : ℕ → Segment

abbrev pub Segments : Type 0
Segments = List Segment

abbrev pub period : ℕ
period = b'.'

abbrev pub left_bracket : ℕ
left_bracket = b'['

abbrev pub right_bracket : ℕ
right_bracket = b']'

abbrev pub wildcard : Bytes
wildcard = b'*' ∷ []

-- The cutset `'"` of `strings.Trim`.
unfoldable pub is_quote : ℕ → Bool
is_quote c = c == 39 || c == 34

unfoldable pub trim_left : Bytes → Bytes
unfolding is_quote
trim_left [] = []
trim_left (c ∷ cs) = if is_quote c then trim_left cs else c ∷ cs

-- A quote is dropped where only quotes follow it.
abbrev pub cons_unless_quote : ℕ → Bytes → Bytes
cons_unless_quote c [] = if is_quote c then [] else c ∷ []
cons_unless_quote c (d ∷ ds) = c ∷ d ∷ ds

unfoldable pub trim_right : Bytes → Bytes
unfolding is_quote
trim_right [] = []
trim_right (c ∷ cs) = cons_unless_quote c (trim_right cs)

-- `strings.Trim(s, "'\"")`
unfoldable pub trim : Bytes → Bytes
unfolding trim_left trim_right
trim s = trim_right (trim_left s)

unfoldable pub is_digit : ℕ → Bool
is_digit c = leb b'0' c && leb c b'9'

unfoldable pub all_digits : Bytes → Bool
unfolding is_digit
all_digits [] = true
all_digits (c ∷ cs) = is_digit c && all_digits cs

unfoldable pub decimal_value : ℕ → Bytes → ℕ
decimal_value acc [] = acc
decimal_value acc (c ∷ cs) = decimal_value (acc * 10 + (c - b'0')) cs

-- `strconv.ParseUint(s, 10, 32)`, with `none` for its errors.
unfoldable pub parse_uint : Bytes → Option ℕ
unfolding all_digits decimal_value
parse_uint [] = none
parse_uint (c ∷ cs) =
    if all_digits (c ∷ cs) && ltb (decimal_value 0 (c ∷ cs)) (2 ^ 32)
    then some (decimal_value 0 (c ∷ cs))
    else none

-- The constructor function `Field`.
unfoldable pub field_of : Bytes → Segment
unfolding trim
field_of s = field (trim s)

abbrev pub segment_of : Option ℕ → Bytes → Segment
segment_of (some i) s = index i
segment_of none s = field_of s

unfoldable pub field_or_index : Bytes → Segment
unfolding field_of parse_uint
field_or_index s = segment_of (parse_uint s) s

-- The digits of `n`, by as many rounds as the first argument allows.
unfoldable pub digits : ℕ → ℕ → Bytes
digits zero n = []
digits (suc f) n =
    let more = digits f (n / 10) in
    if ltb n 10 then (b'0' + n) ∷ [] else more ++ (b'0' + n % 10) ∷ []

-- `%d` and `strconv.Itoa` of a number that is not negative.
unfoldable pub format_uint : ℕ → Bytes
unfolding digits
format_uint n = digits (suc n) n

abbrev pub bracketed : Bytes → Bytes
bracketed s = left_bracket ∷ (s ++ right_bracket ∷ [])

-- The text of one segment in the loop of `Segments.String`.
unfoldable pub segment_string : Segment → Bytes
unfolding equal contains format_uint
segment_string (field s) = if equal s wildcard || contains period s then bracketed s else period ∷ s
segment_string (index i) = bracketed (format_uint i)

unfoldable pub write_segments : Segments → Bytes
unfolding segment_string
write_segments [] = []
write_segments (s ∷ sg) = segment_string s ++ write_segments sg

-- `strings.TrimPrefix(s, ".")`
unfoldable pub trim_period : Bytes → Bytes
trim_period [] = []
trim_period (c ∷ cs) = if c == period then cs else c ∷ cs

-- `Segments.String`
unfoldable pub to_string : Segments → Bytes
unfolding write_segments trim_period
to_string sg = trim_period (write_segments sg)
