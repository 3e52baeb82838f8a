-- ===== src/CSource/Tests.antt =====
-- Concrete sources.
use no_gada_automation.Base.{◌≡◌, refl, List, [], ◌∷◌}
use no_gada_automation.Text.{Codes, codes}
use no_gada_automation.CSource.{strip_comments}
use no_gada_automation.CSource.Again.{count, strip_comments_twice, count-strip_comments}
use no_gada_automation.CSource.Pieces.{
  Piece, plain, division, double, line, block, char, escaped, source, bare, comments,
  strip_comments-source,
}

abbrev call : Codes
call = codes "f(\"a//b\");/* g(1);\n */h // end\n/x"

stripped : strip_comments call ≡ (codes "f(\"a//b\");\nh \n/x", 2)
unfolding strip_comments
stripped = refl

strip_comments_twice_example : strip_comments (strip_comments call).0 ≡ ((strip_comments call).0, 0)
strip_comments_twice_example = strip_comments_twice call

count-strip_comments_example : count b'\n' (strip_comments call).0 ≡ count b'\n' call
count-strip_comments_example = count-strip_comments call

abbrev pieces : List Piece
pieces =
    plain b'a'
    ∷ division b'b'
    ∷ double (char b'/' ∷ char b'/' ∷ escaped b'"' ∷ [])
    ∷ line (codes " \"x")
    ∷ block (codes "*'\n")
    ∷ []

strip_comments-source_example : strip_comments (source pieces) ≡ (bare pieces, comments pieces)
strip_comments-source_example = strip_comments-source pieces refl
