-- ===== src/Fieldpath/Lexer/RoundTrip.antt =====
-- Printed segments, and `Parse` on them.
use crossplane_runtime.Base.{
  ℕ, zero, suc, ◌+◌, ◌*◌, ◌^◌, ◌<◌, ◌≡◌, ◌≢◌, refl, sym, ◌∙◌, ap, subst, none, true, false, ◌||◌,
  List, [], ◌∷◌, ◌++◌, append_assoc, append-nil, ◌⊎◌, inl, inr, arith, Bytes, contains, equal,
  equal_iff, length, All, ◌==◌, Bool-cases,
}
use crossplane_runtime.Fieldpath.Segment.{
  Segment, field, index, Segments, period, left_bracket, right_bracket, wildcard, trim, field_of,
  segment_of, field_or_index, segment_string, write_segments, trim_period, to_string, parse_uint,
  format_uint, is_digit,
}
use crossplane_runtime.Fieldpath.Segment.Decimal.{
  parse_uint-format_uint, contains-format_uint, format_uint-ne-nil, parse_uint-contains,
}
use crossplane_runtime.Fieldpath.Errors.{ok, ◌>>=◌}
use crossplane_runtime.Fieldpath.Lexer.Total.{run_total}
use crossplane_runtime.Fieldpath.Lexer.Steps.{
  At, IsPlain, part, after_field, At-after_field, pos-emit, lex_field-period,
  lex_field-left_bracket, lex_field-last, lex_period-name, At-item_period, lex_left_bracket-token,
  lex_field_or_index-token, At-item_right_bracket,
}
use crossplane_runtime.Fieldpath.Lexer.{
  item_field, item_period, item_left_bracket, item_field_or_index, item_right_bracket, Item, Lexer,
  StateFn, Next, goto, stop, panic, starts_with_byte, emit, advance, lex_field_fn, lex_period_fn,
  lex_left_bracket_fn, lex_field_or_index_fn, lex_right_bracket_fn, lex_right_bracket, call, run,
  collect, new_lexer, parse,
}

-- A run from here with some number of rounds ends, and its items read as `sg`.
abbrev Finishes : Next → Lexer → Segments → Type 0
Finishes n l sg =
    (f : ℕ) × (items : List Item) × (run f n l ≡ ok items) × (collect [] items ≡ ok sg)

Finishes-step :
    (s : StateFn) (l : Lexer) {n : Next} {l' : Lexer} {sg : Segments}
    → call s l ≡ (n, l')
    → Finishes n l' sg
    → Finishes (goto s) l sg
unfolding run
Finishes-step s l e (f, items, r, c) =
    (suc f, items, subst (λ p. run f p.0 p.1 ≡ ok items) (sym e) r, c)

-- Two runs that both end have sent the same items.
run_agree :
    (f g : ℕ) (n : Next) (l : Lexer) {xs ys : List Item}
    → run f n l ≡ ok xs
    → run g n l ≡ ok ys
    → xs ≡ ys
unfolding run
run_agree f g stop l p q = cc
run_agree f g (panic c) l p q = cc
run_agree zero g (goto s) l p q = cc
run_agree (suc f) zero (goto s) l p q = cc
run_agree (suc f) (suc g) (goto s) l p q = run_agree f g (call s l).0 (call s l).1 p q

parse-Finishes :
    (path : Bytes) {sg : Segments}
    → Finishes (goto lex_field_fn) (new_lexer path) sg
    → parse path ≡ ok sg
unfolding parse
parse-Finishes path (f, items, r, c) =
    let (sent, e) =
      run_total (2 * length path + 2) (goto lex_field_fn) (new_lexer path) (tt, omega arith) in
    ap (λ r. r >>= collect []) e
    ∙ ap (collect []) (run_agree (2 * length path + 2) f (goto lex_field_fn) (new_lexer path) e r)
    ∙ c

-- How a segment is written: behind a period, or in brackets.
data Written : Segment → Type 0 where
  dotted :
      (s : Segment) (c : ℕ) (cs : Bytes)
      → IsPlain (c ∷ cs)
      → field_of (c ∷ cs) ≡ s
      → segment_string s ≡ period ∷ c ∷ cs
      → Written s
  boxed :
      (s : Segment) (c : ℕ) (cs : Bytes)
      → contains right_bracket (c ∷ cs) ≡ false
      → contains left_bracket (c ∷ cs) ≡ false
      → field_or_index (c ∷ cs) ≡ s
      → segment_string s ≡ left_bracket ∷ ((c ∷ cs) ++ right_bracket ∷ [])
      → Written s

-- A segment that has a text: an index within 32 bits, or the name of a field that is not empty,
-- holds no bracket, and neither starts nor ends with a quote.
pub data IsPrintable : Segment → Type 0 where
  a_name :
      {s : Bytes}
      → s ≢ []
      → contains right_bracket s ≡ false
      → contains left_bracket s ≡ false
      → trim s ≡ s
      → IsPrintable (field s)
  an_index : {i : ℕ} → i < 2 ^ 32 → IsPrintable (index i)

no_number : (s : Bytes) → (equal s wildcard || contains period s) ≡ true → parse_uint s ≡ none
unfolding is_digit
no_number s h = elim (Bool-cases (equal s wildcard)) [
  | inl e ↦ rw ((equal_iff s wildcard).0 e) (unfold parse_uint in refl)
  | inr e ↦ parse_uint-contains period s refl (ground arith)
]

name-Written :
    (c : ℕ) (cs : Bytes)
    → contains right_bracket (c ∷ cs) ≡ false
    → contains left_bracket (c ∷ cs) ≡ false
    → trim (c ∷ cs) ≡ c ∷ cs
    → Written (field (c ∷ cs))
name-Written c cs r l t = elim (Bool-cases (equal (c ∷ cs) wildcard || contains period (c ∷ cs))) [
  | inl special ↦
      boxed (field (c ∷ cs)) c cs r l
        (unfold field_or_index field_of in
          ap (λ o. segment_of o (c ∷ cs)) (no_number (c ∷ cs) special) ∙ ap field t)
        (unfold segment_string in rw special)
  | inr ordinary ↦
      dotted (field (c ∷ cs)) c cs (record { no_right = r; no_left = l; no_period = ground arith })
        (unfold field_of in ap field t) (unfold segment_string in rw ordinary)
]

index-Written : (i : ℕ) (s : Bytes) → format_uint i ≡ s → i < 2 ^ 32 → Written (index i)
unfolding is_digit
index-Written i [] e h = absurd (format_uint-ne-nil i e)
index-Written i (c ∷ cs) e h =
    boxed (index i) c cs
      (ap (contains right_bracket) (sym e) ∙ contains-format_uint right_bracket i refl)
      (ap (contains left_bracket) (sym e) ∙ contains-format_uint left_bracket i refl)
      (unfold field_or_index in
        ap (λ o. segment_of o (c ∷ cs)) (ap parse_uint (sym e) ∙ parse_uint-format_uint i h))
      (unfold segment_string in rw e)

IsPrintable-Written : {s : Segment} → IsPrintable s → Written s
IsPrintable-Written (a_name {s = []} ne r l t) = absurd (ne refl)
IsPrintable-Written (a_name {s = c ∷ cs} ne r l t) = name-Written c cs r l t
IsPrintable-Written (an_index {i} h) = index-Written i (format_uint i) refl h

-- A period may not stand at the very start of the input.
abbrev CanStart : Lexer → Bytes → Bytes → Type 0
CanStart l token rest = (0 < l.pos + length token) ⊎ (starts_with_byte period rest ≡ false)

empty-IsPlain : IsPlain []
empty-IsPlain = unfold contains in record { no_right = refl; no_left = refl; no_period = refl }

-- A name and the period behind it are read, and the run goes on at the name that follows.
dotted_step :
    (token : Bytes) (c : ℕ) (rest : Bytes) (l : Lexer) {sg out : Segments}
    → IsPlain token
    → (c == period) ≡ false
    → (c == left_bracket) ≡ false
    → At l (token ++ period ∷ c ∷ rest) sg
    → 0 < l.pos + length token
    → ((l' : Lexer)
        → At l' (c ∷ rest) (sg ++ part token)
        → 0 < l'.pos
        → Finishes (goto lex_field_fn) l' out)
    → Finishes (goto lex_field_fn) l out
dotted_step token c rest l p d b a pos continue =
    let l₁ = after_field (length token) l in
    let l₂ = emit item_period (advance 1 l₁) in
    let a₁ = At-after_field token a in
    let pos₁ : 0 < l₁.pos = omega (arith, pos-emit item_field (advance (length token) l)) in
    Finishes-step lex_field_fn l (lex_field-period token (c ∷ rest) l p a.unread) (
      Finishes-step lex_period_fn l₁ (lex_period-name c rest a₁ pos₁ d b)
        (continue l₂ (At-item_period a₁) (omega (arith, pos-emit item_period (advance 1 l₁)))))

-- So are a name and the bracketed token behind it.
boxed_step :
    (token : Bytes) (c : ℕ) (cs rest : Bytes) (l : Lexer) {sg out : Segments}
    → IsPlain token
    → contains right_bracket (c ∷ cs) ≡ false
    → contains left_bracket (c ∷ cs) ≡ false
    → At l (token ++ left_bracket ∷ ((c ∷ cs) ++ right_bracket ∷ rest)) sg
    → ((l' : Lexer)
        → At l' rest ((sg ++ part token) ++ field_or_index (c ∷ cs) ∷ [])
        → 0 < l'.pos
        → Finishes (goto lex_field_fn) l' out)
    → Finishes (goto lex_field_fn) l out
boxed_step token c cs rest l p r b a continue =
    let l₁ = after_field (length token) l in
    let l₂ = emit item_left_bracket (advance 1 l₁) in
    let l₃ = emit item_field_or_index (advance (length (c ∷ cs)) l₂) in
    let l₄ = emit item_right_bracket (advance 1 l₃) in
    let (called₁, a₂) = lex_left_bracket-token (c ∷ cs) rest (At-after_field token a) in
    let (called₂, a₃) = lex_field_or_index-token c cs rest r b a₂ in
    Finishes-step lex_field_fn l (lex_field-left_bracket token _ l p a.unread) (
      Finishes-step lex_left_bracket_fn l₁ called₁ (
        Finishes-step lex_field_or_index_fn l₂ called₂ (
          Finishes-step lex_right_bracket_fn l₃ {n = goto lex_field_fn} {l' = l₄}
            (unfold lex_right_bracket in refl)
            (continue l₄ (At-item_right_bracket a₃)
              (omega (arith, pos-emit item_right_bracket (advance 1 l₃)))))))

IsPlain-head :
    {c : ℕ} {cs : Bytes}
    → IsPlain (c ∷ cs)
    → ((c == period) ≡ false) × ((c == left_bracket) ≡ false)
IsPlain-head p = unfold contains in (ground (arith, p.no_period), ground (arith, p.no_left))

-- The runs from every place in front of the printed `segs`.
abbrev FinishesAll : Segments → Type 0
FinishesAll segs =
    (token : Bytes) (l : Lexer) (sg : Segments)
    → IsPlain token
    → At l (token ++ write_segments segs) sg
    → CanStart l token (write_segments segs)
    → Finishes (goto lex_field_fn) l (sg ++ (part token ++ segs))

not_at_start :
    (c : ℕ) (cs rest token : Bytes) (l : Lexer) {text : Bytes}
    → text ≡ period ∷ c ∷ cs
    → CanStart l token (text ++ rest)
    → 0 < l.pos + length token
not_at_start c cs rest token l e (inl h) = h
not_at_start c cs rest token l e (inr h) = let k = rw e at h in cc

finish-Written :
    {s : Segment} (segs : Segments)
    → Written s
    → (token : Bytes) (l : Lexer) {sg : Segments} → IsPlain token
    → At l (token ++ write_segments (s ∷ segs)) sg
    → CanStart l token (write_segments (s ∷ segs))
    → FinishesAll segs
    → Finishes (goto lex_field_fn) l (sg ++ (part token ++ (s ∷ segs)))
unfolding write_segments
finish-Written {s} segs (dotted _ c cs q reads text) token l {sg} p a start rest =
    let (d, b) = IsPlain-head q in
    let a' = subst (λ t. At l (token ++ (t ++ write_segments segs)) sg) text a in
    dotted_step token c (cs ++ write_segments segs) l p d b a'
      (not_at_start c cs (write_segments segs) token l text start)
      (λ l' a₂ pos.
        subst (Finishes (goto lex_field_fn) l')
          (append_assoc sg (part token) (field_of (c ∷ cs) ∷ segs)
            ∙ ap (λ x. sg ++ (part token ++ x ∷ segs)) reads)
          (rest (c ∷ cs) l' (sg ++ part token) q a₂ (inl (omega arith))))
finish-Written {s} segs (boxed _ c cs r b reads text) token l {sg} p a start rest =
    let a' = subst (λ t. At l (token ++ (t ++ write_segments segs)) sg) text a in
    boxed_step token c cs (write_segments segs) l p r b
      (subst (λ t. At l (token ++ left_bracket ∷ t) sg)
        (append_assoc (c ∷ cs) (right_bracket ∷ []) (write_segments segs)) a')
      (λ l' a₂ pos.
        subst (Finishes (goto lex_field_fn) l')
          (append_assoc (sg ++ part token) (field_or_index (c ∷ cs) ∷ []) segs
            ∙ append_assoc sg (part token) (field_or_index (c ∷ cs) ∷ segs)
            ∙ ap (λ x. sg ++ (part token ++ x ∷ segs)) reads)
          (rest [] l' ((sg ++ part token) ++ field_or_index (c ∷ cs) ∷ []) empty-IsPlain a₂
            (inl (omega arith))))

-- The lexer in front of a last token and then of printed segments.
finish :
    (segs : Segments) (token : Bytes) (l : Lexer) {sg : Segments}
    → All IsPrintable segs
    → IsPlain token
    → At l (token ++ write_segments segs) sg
    → CanStart l token (write_segments segs)
    → Finishes (goto lex_field_fn) l (sg ++ (part token ++ segs))
finish [] token l {sg} all p a start =
    let a' = subst (λ r. At l r sg) (append-nil token) (unfold write_segments in a) in
    let (l', called, sent) = lex_field-last token l p a' in
    Finishes-step lex_field_fn l called (
      unfold run in
      (0, l'.items, refl, sent ∙ ap (λ r. ok (sg ++ r)) (sym (append-nil (part token)))))
finish (s ∷ segs) token l {sg} all p a start =
    finish-Written segs (IsPrintable-Written all.0) token l p a start
      (λ next l' sg' plain a' start'. finish segs next l' all.1 plain a' start')

new_At : (path : Bytes) → At (new_lexer path) path []
unfolding collect
new_At path = record { unread = refl; no_token = refl; in_range = omega arith; sent = refl }

parse-Written :
    {s : Segment} (segs : Segments)
    → Written s
    → All IsPrintable (s ∷ segs)
    → parse (to_string (s ∷ segs)) ≡ ok (s ∷ segs)
unfolding to_string
parse-Written {s} segs (dotted _ c cs q reads text) all =
    let path = c ∷ (cs ++ write_segments segs) in
    ap (λ t. parse (trim_period (t ++ write_segments segs))) text
    ∙ parse-Finishes path
        (finish segs (c ∷ cs) (new_lexer path) all.1 q (new_At path) (inl (omega arith)))
    ∙ ap (λ x. ok (x ∷ segs)) reads
parse-Written {s} segs (boxed _ c cs r b reads text) all =
    let path = segment_string s ++ write_segments segs in
    let kept : trim_period path ≡ path = rw text in
    ap parse kept
    ∙ parse-Finishes path
        (finish (s ∷ segs) [] (new_lexer path) all empty-IsPlain (new_At path) (inr (rw text)))

-- `Parse` reads back the text of any printable segments: indexes within 32 bits, and names that are
-- not empty, hold no bracket, and neither start nor end with a quote. A name may hold periods, be
-- the wildcard, or look like a number.
pub parse-to_string : (segs : Segments) → All IsPrintable segs → parse (to_string segs) ≡ ok segs
parse-to_string [] all =
    unfold to_string in
    parse-Finishes [] (finish [] [] (new_lexer []) tt empty-IsPlain (new_At []) (inr refl))
parse-to_string (s ∷ segs) all = parse-Written segs (IsPrintable-Written all.0) all
