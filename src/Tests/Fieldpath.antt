-- ===== src/Tests/Fieldpath.antt =====
-- Field paths: the cases of pkg/fieldpath/fieldpath_test.go.
use crossplane_runtime.Base.{◌≡◌, refl, [], ◌∷◌, codes, All, arith, contains, cons-ne-nil}
use crossplane_runtime.Fieldpath.Segment.{Segments, field, index, trim, field_or_index, to_string}
use crossplane_runtime.Fieldpath.Errors.{at_position, ok, err, NoCrash}
use crossplane_runtime.Fieldpath.Lexer.Total.{parse-NoCrash}
use crossplane_runtime.Fieldpath.Lexer.RoundTrip.{IsPrintable, a_name, an_index, parse-to_string}
use crossplane_runtime.Fieldpath.Lexer.Sound.{IsParsed, parse-IsParsed}
use crossplane_runtime.Fieldpath.Lexer.Normal.{parse-to_string-parse}
use crossplane_runtime.Fieldpath.Lexer.{parse}

abbrev containers : Segments
containers = field (codes "spec") ∷ field (codes "containers") ∷ index 0 ∷ field (codes "name") ∷ []

parse-containers : parse (codes "spec.containers[0].name") ≡ ok containers
unfolding parse field_or_index
parse-containers = refl

abbrev annotation : Segments
annotation =
    field (codes "metadata")
    ∷ field (codes "annotations")
    ∷ field (codes "crossplane.io/external-name")
    ∷ []

parse-annotation : parse (codes "metadata.annotations[crossplane.io/external-name]") ≡ ok annotation
unfolding parse field_or_index
parse-annotation = refl

to_string-annotation :
    to_string annotation ≡ codes "metadata.annotations[crossplane.io/external-name]"
unfolding to_string
to_string-annotation = refl

parse_quoted : parse (codes "spec['a']") ≡ ok (field (codes "spec") ∷ field (codes "a") ∷ [])
unfolding parse field_or_index
parse_quoted = refl

parse_errors :
    (parse (codes ".metadata") ≡ err (at_position (codes "unexpected '.'") 0))
    × (parse (codes "metadata.") ≡ err (at_position (codes "unexpected '.'") 8))
    × (parse (codes "metadata..name") ≡ err (at_position (codes "unexpected '.'") 9))
    × (parse (codes "metadata.[name]") ≡ err (at_position (codes "unexpected '['") 9))
    × (parse (codes "metadata[]") ≡ err (at_position (codes "unexpected ']'") 9))
    × (parse (codes "metadata[labels") ≡ err (at_position (codes "unterminated '['") 8))
    × (parse (codes "a[b[c]]") ≡ err (at_position (codes "unexpected '['") 3))
unfolding parse field_or_index
parse_errors = (refl, refl, refl, refl, refl, refl, refl)

parse-NoCrash_example : NoCrash (parse (codes "a[b"))
parse-NoCrash_example = parse-NoCrash (codes "a[b")

zero-IsPrintable : IsPrintable (index 0)
zero-IsPrintable = an_index (omega arith)

containers-IsPrintable : All IsPrintable containers
containers-IsPrintable =
    unfold contains trim in
    (
      a_name (cons-ne-nil _ _) refl refl refl,
      (
        a_name (cons-ne-nil _ _) refl refl refl,
        (zero-IsPrintable, (a_name (cons-ne-nil _ _) refl refl refl, tt)),
      ),
    )

parse-to_string_example : parse (to_string containers) ≡ ok containers
parse-to_string_example = parse-to_string containers containers-IsPrintable

parse-IsParsed_example : All IsParsed containers
parse-IsParsed_example = parse-IsParsed (codes "spec.containers[0].name") parse-containers

parse-to_string-parse_example :
    parse (to_string annotation) ≡ parse (codes "metadata.annotations[crossplane.io/external-name]")
parse-to_string-parse_example =
    parse-to_string-parse (codes "metadata.annotations[crossplane.io/external-name]") annotation
      parse-annotation ((λ e. cc), ((λ e. cc), ((λ e. cc), tt)))
