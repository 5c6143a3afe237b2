-- ===== src/Fieldpath/Lexer/Normal.antt =====
-- Printing what was parsed.
use crossplane_runtime.Base.{◌≡◌, ◌≢◌, ◌∙◌, sym, [], ◌∷◌, Bytes, All}
use crossplane_runtime.Fieldpath.Segment.{Segment, field, index, Segments, to_string}
use crossplane_runtime.Fieldpath.Errors.{ok}
use crossplane_runtime.Fieldpath.Lexer.RoundTrip.{IsPrintable, a_name, an_index, parse-to_string}
use crossplane_runtime.Fieldpath.Lexer.Sound.{IsParsed, parse-IsParsed}
use crossplane_runtime.Fieldpath.Lexer.{parse}

abbrev pub IsNamed : Segment → Type 0
IsNamed (field s) = s ≢ []
IsNamed (index i) = Unit

IsParsed-IsPrintable : (s : Segment) → IsParsed s → IsNamed s → IsPrintable s
IsParsed-IsPrintable (field s) p n = a_name n p.0.0 p.0.1 p.1
IsParsed-IsPrintable (index i) p n = an_index p

All-IsPrintable : (sg : Segments) → All IsParsed sg → All IsNamed sg → All IsPrintable sg
All-IsPrintable [] p n = tt
All-IsPrintable (s ∷ sg) p n = (IsParsed-IsPrintable s p.0 n.0, All-IsPrintable sg p.1 n.1)

-- The text of what a path was parsed to is parsed to the same segments, unless one of them is an
-- empty name.
pub parse-to_string-parse :
    (path : Bytes) (sg : Segments)
    → parse path ≡ ok sg
    → All IsNamed sg
    → parse (to_string sg) ≡ parse path
parse-to_string-parse path sg e named =
    parse-to_string sg (All-IsPrintable sg (parse-IsParsed path e) named) ∙ sym e
