-- ===== src/Fieldpath/Lexer/Steps.antt =====
-- What one call of a state function does to a lexer that stands in front of a known text, and runs
-- put together from such calls.
use mathlib.Core.Path.{ap₂}
use crossplane_runtime.Base.{
  ◌≤◌, subst, ℕ, ◌+◌, ◌-◌, ◌<◌, ◌≡◌, refl, sym, ◌∙◌, ap, true, false, ◌||◌, none, some, List, [],
  ◌∷◌, ◌++◌, append-nil, inl, inr, arith, Bytes, contains, contains-append, length, take, drop,
  take-append, drop-append, length-drop, length-append, leb, ◌==◌, Bool-cases,
}
use crossplane_runtime.Fieldpath.Segment.{
  Segments, field_of, field_or_index, period, left_bracket, right_bracket,
}
use crossplane_runtime.Fieldpath.Errors.{ok, ◌>>=◌, bind_assoc, bind-cong}
use crossplane_runtime.Fieldpath.Lexer.Total.{remaining-emit, remaining-advance}
use crossplane_runtime.Fieldpath.Lexer.{
  ItemType, item_field, item_period, item_left_bracket, item_right_bracket, item_field_or_index,
  item_eol, Item, Lexer, goto, stop, remaining, emit, find_stop, index_rune, advance,
  at_right_bracket, lex_field, lex_period, lex_left_bracket, lex_field_or_index, lex_field_fn,
  lex_period_fn, lex_left_bracket_fn, lex_field_or_index_fn, lex_right_bracket_fn, read_item,
  collect,
}

pub collect-append :
    (sg : Segments) (xs ys : List Item)
    → collect sg (xs ++ ys) ≡ (collect sg xs >>= λ s. collect s ys)
unfolding collect
collect-append sg [] ys = refl
collect-append sg (x ∷ xs) ys =
    bind-cong (read_item x.typ sg x) (λ s. collect-append s xs ys)
    ∙ sym (bind_assoc (read_item x.typ sg x) (λ s. collect s xs) (λ s. collect s ys))

-- The lexer stands in front of `rest`, has no token open, and what it sent reads as `sg`.
pub record At (l : Lexer) (rest : Bytes) (sg : Segments) : Type 0 where
  pub unread : remaining l ≡ rest
  pub no_token : l.start ≡ l.pos
  pub in_range : l.pos ≤ length l.input
  pub sent : collect [] l.items ≡ ok sg

pub pos-emit : (t : ItemType) (l : Lexer) → (emit t l).pos ≡ l.pos
unfolding emit
pos-emit t l = ground arith

length-input : (t : ItemType) (l : Lexer) → length (emit t l).input ≡ length l.input
unfolding emit
length-input t l = elim (Bool-cases (leb l.pos l.start)) [ inl e ↦ rw e | inr e ↦ rw e ]

start-emit :
    (t : ItemType) (n : ℕ) (l : Lexer) → l.start ≡ l.pos → (emit t (advance n l)).start ≡ l.pos + n
unfolding emit
start-emit t n l h = ground arith

abbrev token : ItemType → Bytes → ℕ → ℕ → Item
token t input p n = record { typ = t; pos = p; val = take n (drop p input) }

items-emit :
    (t : ItemType) (n : ℕ) (l : Lexer)
    → l.start ≡ l.pos
    → 0 < n
    → (emit t (advance n l)).items ≡ l.items ++ token t l.input l.pos n ∷ []
unfolding emit
items-emit t n l h pos =
    let e : leb (l.pos + n) l.start ≡ false = ground arith in
    let m : l.pos + n - l.start ≡ n = omega arith in
    rw e (ap₂ (λ p k. l.items ++ token t l.input p k ∷ []) h m)

items-emit_nil :
    (t : ItemType) (l : Lexer) → l.start ≡ l.pos → (emit t (advance 0 l)).items ≡ l.items
unfolding emit
items-emit_nil t l h = let e : leb (l.pos + 0) l.start ≡ true = ground arith in rw e

-- An empty token is not sent.
pub At-emit_nil :
    (t : ItemType) {l : Lexer} {rest : Bytes} {sg : Segments}
    → At l rest sg
    → At (emit t (advance 0 l)) rest sg
At-emit_nil t {l} a = record {
  unread = remaining-emit t (advance 0 l) ∙ remaining-advance 0 l ∙ a.unread;
  no_token = start-emit t 0 l a.no_token ∙ sym (pos-emit t (advance 0 l));
  in_range = omega (arith, pos-emit t (advance 0 l), length-input t (advance 0 l), a.in_range);
  sent = ap (collect []) (items-emit_nil t l a.no_token) ∙ a.sent;
}

-- A token that is sent adds what `Parse` makes of it.
pub At-emit :
    (t : ItemType) (w : Bytes) {l : Lexer} {rest : Bytes} {sg sg' : Segments}
    → 0 < length w
    → At l (w ++ rest) sg
    → ((p : ℕ) → read_item t sg (record { typ = t; pos = p; val = w }) ≡ ok sg')
    → At (emit t (advance (length w) l)) rest sg'
unfolding collect
At-emit t w {l} {rest} {sg} {sg'} room a reads = record {
  unread =
      remaining-emit t (advance (length w) l)
      ∙ remaining-advance (length w) l
      ∙ ap (drop (length w)) a.unread
      ∙ drop-append w rest;
  no_token = start-emit t (length w) l a.no_token ∙ sym (pos-emit t (advance (length w) l));
  in_range = omega (
    arith,
    pos-emit t (advance (length w) l),
    length-input t (advance (length w) l),
    a.in_range,
    length-drop l.pos l.input,
    ap length a.unread,
    length-append w rest,
  );
  sent =
      ap (collect []) (items-emit t (length w) l a.no_token room)
      ∙ collect-append [] l.items (token t l.input l.pos (length w) ∷ [])
      ∙ rw a.sent (
          let text : take (length w) (remaining l) ≡ w = rw a.unread (take-append w rest) in
          ap (λ v. read_item t sg (record { typ = t; pos = l.pos; val = v }) >>= ok) text
          ∙ ap (λ r. r >>= ok) (reads l.pos));
}

-- No byte of the text ends a field name.
pub record IsPlain (s : Bytes) : Type 0 where
  pub no_right : contains right_bracket s ≡ false
  pub no_left : contains left_bracket s ≡ false
  pub no_period : contains period s ≡ false

find_stop-IsPlain : (s : Bytes) → IsPlain s → find_stop s ≡ none
unfolding find_stop contains
find_stop-IsPlain [] h = refl
find_stop-IsPlain (x ∷ s) h = ground (arith, find_stop-IsPlain s (ground arith))

find_stop-append :
    (s : Bytes) (d : ℕ) (rest : Bytes)
    → IsPlain s
    → (d == right_bracket || (d == left_bracket || d == period)) ≡ true
    → find_stop (s ++ d ∷ rest) ≡ some (length s, d)
unfolding find_stop contains
find_stop-append [] d rest h k = rw k
find_stop-append (x ∷ s) d rest h k = ground (arith, find_stop-append s d rest (ground arith))

index_rune-append :
    (c : ℕ) (s rest : Bytes) → contains c s ≡ false → index_rune c (s ++ c ∷ rest) ≡ some (length s)
unfolding index_rune contains
index_rune-append c [] rest h = ground arith
index_rune-append c (x ∷ s) rest h = ground (arith, index_rune-append c s rest)

index_rune-none : (c : ℕ) (s : Bytes) → contains c s ≡ false → index_rune c s ≡ none
unfolding index_rune contains
index_rune-none c [] h = refl
index_rune-none c (x ∷ s) h = ground (arith, index_rune-none c s)

-- What the text of a field token adds.
abbrev pub part : Bytes → Segments
part [] = []
part (c ∷ cs) = field_of (c ∷ cs) ∷ []

abbrev pub after_field : ℕ → Lexer → Lexer
after_field n l = emit item_field (advance n l)

pub At-after_field :
    (name : Bytes) {l : Lexer} {rest : Bytes} {sg : Segments}
    → At l (name ++ rest) sg
    → At (after_field (length name) l) rest (sg ++ part name)
unfolding read_item
At-after_field [] {sg = sg} a = rw (append-nil sg) (At-emit_nil item_field a)
At-after_field (c ∷ cs) a = At-emit item_field (c ∷ cs) (omega arith) a (λ p. refl)

pub lex_field-period :
    (name rest : Bytes) (l : Lexer)
    → IsPlain name
    → remaining l ≡ name ++ period ∷ rest
    → lex_field l ≡ (goto lex_period_fn, after_field (length name) l)
unfolding lex_field
lex_field-period name rest l h e = rw (e, lex_field) (rw (find_stop-append name period rest h refl))

pub lex_field-left_bracket :
    (name rest : Bytes) (l : Lexer)
    → IsPlain name
    → remaining l ≡ name ++ left_bracket ∷ rest
    → lex_field l ≡ (goto lex_left_bracket_fn, after_field (length name) l)
unfolding lex_field
lex_field-left_bracket name rest l h e =
    rw (e, lex_field) (rw (find_stop-append name left_bracket rest h refl))

pub lex_field-end :
    (name : Bytes) (l : Lexer)
    → IsPlain name
    → remaining l ≡ name
    → lex_field l ≡ (stop, emit item_eol (emit item_field (record l { pos = length l.input })))
unfolding lex_field
lex_field-end name l h e = rw (e, lex_field) (rw (find_stop-IsPlain name h))

room :
    (l : Lexer) (c : ℕ) (rest : Bytes)
    → remaining l ≡ c ∷ rest
    → length l.input ≡ l.pos + length rest + 1
room l c rest e = let k = ap length e in omega (arith, length-drop l.pos l.input)

-- A period in the middle of the text, before a name.
pub lex_period-name :
    (c : ℕ) (rest : Bytes) {l : Lexer} {sg : Segments}
    → At l (period ∷ c ∷ rest) sg
    → 0 < l.pos
    → (c == period) ≡ false
    → (c == left_bracket) ≡ false
    → lex_period l ≡ (goto lex_field_fn, emit item_period (advance 1 l))
unfolding lex_period
lex_period-name c rest {l} a pos p b =
    let inside : (l.pos == 0 || l.pos + 1 == length l.input) ≡ false =
      ground (arith, room l period (c ∷ rest) a.unread) in
    let next : remaining (emit item_period (advance 1 l)) ≡ c ∷ rest =
      remaining-emit item_period (advance 1 l) ∙ remaining-advance 1 l ∙ ap (drop 1) a.unread in
    rw inside (rw next (rw (p, b)))

pub At-item_period :
    {l : Lexer} {rest : Bytes} {sg : Segments}
    → At l (period ∷ rest) sg
    → At (emit item_period (advance 1 l)) rest sg
unfolding read_item
At-item_period a = At-emit item_period (period ∷ []) (omega arith) a (λ p. refl)

pub lex_left_bracket-token :
    (tok rest : Bytes) {l : Lexer} {sg : Segments}
    → At l (left_bracket ∷ (tok ++ right_bracket ∷ rest)) sg
    → (lex_left_bracket l ≡ (goto lex_field_or_index_fn, emit item_left_bracket (advance 1 l)))
      × At (emit item_left_bracket (advance 1 l)) (tok ++ right_bracket ∷ rest) sg
unfolding lex_left_bracket contains read_item
lex_left_bracket-token tok rest {l} a =
    let closed : contains right_bracket (remaining l) ≡ true =
      rw a.unread (rw (contains-append right_bracket tok (right_bracket ∷ rest)) (ground arith)) in
    (rw closed, At-emit item_left_bracket (left_bracket ∷ []) (omega arith) a (λ p. refl))

at_right_bracket-token :
    (c : ℕ) (cs rest : Bytes) (l : Lexer)
    → contains left_bracket (c ∷ cs) ≡ false
    → remaining l ≡ (c ∷ cs) ++ right_bracket ∷ rest
    → at_right_bracket l (length (c ∷ cs))
      ≡ (goto lex_right_bracket_fn, emit item_field_or_index (advance (length (c ∷ cs)) l))
at_right_bracket-token c cs rest l k e =
    let none_left : index_rune left_bracket (take (length (c ∷ cs)) (remaining l)) ≡ none = rw e (
      rw (take-append (c ∷ cs) (right_bracket ∷ rest)) (index_rune-none left_bracket (c ∷ cs) k)) in
    let some_token : (length (c ∷ cs) == 0) ≡ false = ground arith in rw some_token (rw none_left)

pub lex_field_or_index-token :
    (c : ℕ) (cs rest : Bytes) {l : Lexer} {sg : Segments}
    → contains right_bracket (c ∷ cs) ≡ false
    → contains left_bracket (c ∷ cs) ≡ false
    → At l ((c ∷ cs) ++ right_bracket ∷ rest) sg
    → (lex_field_or_index l
        ≡ (goto lex_right_bracket_fn, emit item_field_or_index (advance (length (c ∷ cs)) l)))
      × At
          (emit item_field_or_index (advance (length (c ∷ cs)) l))
          (right_bracket ∷ rest)
          (sg ++ field_or_index (c ∷ cs) ∷ [])
unfolding lex_field_or_index read_item
lex_field_or_index-token c cs rest {l} h k a = (
  rw (a.unread, lex_field_or_index)
      (rw (index_rune-append right_bracket (c ∷ cs) rest h)
        (at_right_bracket-token c cs rest l k a.unread)),
  At-emit item_field_or_index (c ∷ cs) (omega arith) a (λ p. refl),
)

pub At-item_right_bracket :
    {l : Lexer} {rest : Bytes} {sg : Segments}
    → At l (right_bracket ∷ rest) sg
    → At (emit item_right_bracket (advance 1 l)) rest sg
unfolding read_item
At-item_right_bracket a =
    At-emit item_right_bracket (right_bracket ∷ []) (omega arith) a (λ p. refl)

-- The end of the input: the last name is sent, and `itemEOL` never is.
end_items : (t : ItemType) (l : Lexer) → l.start ≡ l.pos → (emit t l).items ≡ l.items
unfolding emit
end_items t l h = let e : leb l.pos l.start ≡ true = ground arith in rw e

pub lex_field-last :
    (name : Bytes) (l : Lexer) {sg : Segments}
    → IsPlain name
    → At l name sg
    → (l' : Lexer) × (lex_field l ≡ (stop, l')) × (collect [] l'.items ≡ ok (sg ++ part name))
lex_field-last name l {sg} h a =
    let at_end : length l.input ≡ l.pos + length name =
      omega (arith, ap length a.unread, length-drop l.pos l.input, a.in_range) in
    let done : At (after_field (length name) l) [] (sg ++ part name) =
      At-after_field name (subst (λ r. At l r sg) (sym (append-nil name)) a) in
    (
      emit item_eol (after_field (length name) l),
      lex_field-end name l h a.unread
          ∙ ap (λ p. (stop, emit item_eol (emit item_field (record l { pos = p })))) at_end,
      ap (collect []) (end_items item_eol (after_field (length name) l) done.no_token) ∙ done.sent,
    )
