-- ===== src/RefPaths/Tests.antt =====
-- Paths read and printed on concrete texts, those of shared/sync/ref-compiler.test.ts among them.
use fos_mono.Common.{◌∷◌, [], false, true, ◌≡◌, refl}
use fos_mono.Cid.{codes}
use fos_mono.RefPaths.{
  RefExpression, got, failed, invalid, no_closing, trailing, parse_ref_expression,
  format_ref_expression,
}
use fos_mono.RefPaths.Normal.{parse_ref_expression-format_ref_expression}

abbrev third : RefExpression
third = record { up = 3; path = codes "ref1" ∷ codes "ref2" ∷ []; lexical = false }

parse_ref_expression_tests :
    (parse_ref_expression (codes "....ref1.ref2") ≡ got third)
    × (parse_ref_expression (codes " (ref2 (ref1 (.. (.. (.. .)))))") ≡ got third)
    × (parse_ref_expression (codes "name")
        ≡ got (record { up = 0; path = codes "name" ∷ []; lexical = true }))
    × (parse_ref_expression (codes "(ref1 .) trailing") ≡ failed trailing)
    × (parse_ref_expression (codes "(ref1 .") ≡ failed no_closing)
    × (parse_ref_expression (codes "a..b") ≡ failed invalid)
unfolding parse_ref_expression
parse_ref_expression_tests = (refl, refl, refl, refl, refl, refl)

-- The parenthesized spelling of the test prints as "....ref1.ref2".
format_ref_expression_test : format_ref_expression third ≡ codes "....ref1.ref2"
unfolding format_ref_expression
format_ref_expression_test = refl

parse_ref_expression-format_ref_expression_example :
    parse_ref_expression (format_ref_expression third) ≡ got third
unfolding parse_ref_expression
parse_ref_expression-format_ref_expression_example =
    parse_ref_expression-format_ref_expression (codes "(ref2 (ref1 (.. (.. (.. .)))))") third refl
