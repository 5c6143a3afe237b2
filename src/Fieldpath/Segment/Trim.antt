-- ===== src/Fieldpath/Segment/Trim.antt =====
-- Trimming quotes.
use crossplane_runtime.Base.{
  ℕ, ◌≡◌, refl, ◌∙◌, false, [], ◌∷◌, arith, inl, inr, Bool-cases, Bytes, contains, ap,
}
use crossplane_runtime.Fieldpath.Segment.{is_quote, trim_left, cons_unless_quote, trim_right, trim}

cons_unless_quote_idem :
    (c : ℕ) (s : Bytes)
    → trim_right s ≡ s
    → trim_right (cons_unless_quote c s) ≡ cons_unless_quote c s
unfolding trim_right
cons_unless_quote_idem c [] h = ground arith
cons_unless_quote_idem c (d ∷ ds) h = ap (cons_unless_quote c) h

trim_right_idem : (s : Bytes) → trim_right (trim_right s) ≡ trim_right s
unfolding trim_right
trim_right_idem [] = refl
trim_right_idem (c ∷ s) = cons_unless_quote_idem c (trim_right s) (trim_right_idem s)

trim_left-cons_unless_quote :
    (c : ℕ) (s : Bytes)
    → is_quote c ≡ false
    → trim_left (cons_unless_quote c s) ≡ cons_unless_quote c s
unfolding trim_left
trim_left-cons_unless_quote c [] h = ground arith
trim_left-cons_unless_quote c (d ∷ ds) h = ground arith

trim_left-trim : (s : Bytes) → trim_left (trim s) ≡ trim s
unfolding trim
trim_left-trim [] = refl
trim_left-trim (c ∷ s) = elim (Bool-cases (is_quote c)) [
  | inl q ↦ rw q (trim_left-trim s)
  | inr plain ↦ rw plain (trim_left-cons_unless_quote c (trim_right s) plain)
]

pub trim_idem : (s : Bytes) → trim (trim s) ≡ trim s
trim_idem s =
    let e : trim (trim s) ≡ trim_right (trim_left (trim s)) = unfold trim in refl in
    e ∙ rw (trim_left-trim s) (unfold trim in trim_right_idem (trim_left s))

contains-cons_unless_quote :
    (b c : ℕ) (s : Bytes) → contains b (c ∷ s) ≡ false → contains b (cons_unless_quote c s) ≡ false
unfolding contains is_quote
contains-cons_unless_quote b c [] h = ground arith
contains-cons_unless_quote b c (d ∷ ds) h = h

contains-trim_right : (b : ℕ) (s : Bytes) → contains b s ≡ false → contains b (trim_right s) ≡ false
unfolding trim_right contains
contains-trim_right b [] h = refl
contains-trim_right b (c ∷ s) h =
    contains-cons_unless_quote b c (trim_right s)
      (unfold contains in ground (arith, contains-trim_right b s))

contains-trim_left : (b : ℕ) (s : Bytes) → contains b s ≡ false → contains b (trim_left s) ≡ false
unfolding trim_left contains
contains-trim_left b [] h = refl
contains-trim_left b (c ∷ s) h = ground (arith, contains-trim_left b s)

pub contains-trim : (b : ℕ) (s : Bytes) → contains b s ≡ false → contains b (trim s) ≡ false
contains-trim b s h = unfold trim in contains-trim_right b _ (contains-trim_left b s h)
