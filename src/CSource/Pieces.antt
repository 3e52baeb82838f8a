-- ===== src/CSource/Pieces.antt =====
-- A C source as it is written: code, literals and comments in their order.
use no_gada_automation.Base.{
  ℕ, ◌+◌, ◌≡◌, refl, Bool, true, false, not, ◌&&◌, List, [], ◌∷◌, ◌++◌, arith, eqb,
}
use no_gada_automation.Text.{Codes}
use no_gada_automation.CSource.{
  normal, squote, dquote, line_comment, block_comment, next_is, move, strip_from, strip_comments,
}

-- A character of a literal, or a backslash with what it escapes.
pub data Item : Type 0 where
  char : ℕ → Item
  escaped : ℕ → Item

pub data Piece : Type 0 where
  plain : ℕ → Piece
  division : ℕ → Piece
  single : List Item → Piece
  double : List Item → Piece
  line : Codes → Piece
  block : Codes → Piece

abbrev pub items : List Item → Codes
items [] = []
items (char c ∷ is) = c ∷ items is
items (escaped c ∷ is) = b'\\' ∷ c ∷ items is

-- A piece as it is written, with what follows it.
abbrev pub write : Piece → Codes → Codes
write (plain c) rest = c ∷ rest
write (division c) rest = b'/' ∷ c ∷ rest
write (single is) rest = b'\'' ∷ (items is ++ (b'\'' ∷ rest))
write (double is) rest = b'"' ∷ (items is ++ (b'"' ∷ rest))
write (line body) rest = b'/' ∷ b'/' ∷ (body ++ (b'\n' ∷ rest))
write (block body) rest = b'/' ∷ b'*' ∷ (body ++ (b'*' ∷ b'/' ∷ rest))

abbrev pub source : List Piece → Codes
source [] = []
source (p ∷ ps) = write p (source ps)

abbrev newlines : Codes → Codes
newlines [] = []
newlines (c ∷ cs) = elim (eqb c b'\n') [ true ↦ c ∷ newlines cs | false ↦ newlines cs ]

-- What should be left of a source: of a comment its newlines, all else as it is written.
abbrev pub bare : List Piece → Codes
bare [] = []
bare (line body ∷ ps) = b'\n' ∷ bare ps
bare (block body ∷ ps) = newlines body ++ bare ps
bare (plain c ∷ ps) = write (plain c) (bare ps)
bare (division c ∷ ps) = write (division c) (bare ps)
bare (single is ∷ ps) = write (single is) (bare ps)
bare (double is ∷ ps) = write (double is) (bare ps)

abbrev pub comments : List Piece → ℕ
comments [] = 0
comments (line body ∷ ps) = 1 + comments ps
comments (block body ∷ ps) = 1 + comments ps
comments (plain c ∷ ps) = comments ps
comments (division c ∷ ps) = comments ps
comments (single is ∷ ps) = comments ps
comments (double is ∷ ps) = comments ps

abbrev is_plain : ℕ → Bool
is_plain c = not (eqb c b'/') && not (eqb c b'"') && not (eqb c b'\'')

abbrev fit : ℕ → List Item → Bool
fit quote [] = true
fit quote (char c ∷ is) = not (eqb c quote) && not (eqb c b'\\') && fit quote is
fit quote (escaped c ∷ is) = fit quote is

abbrev lacks : ℕ → Codes → Bool
lacks d [] = true
lacks d (c ∷ cs) = not (eqb c d) && lacks d cs

-- No `*/` within the body of a comment.
abbrev lacks_end : Codes → Bool
lacks_end [] = true
lacks_end (c ∷ cs) = not (eqb c b'*' && next_is b'/' cs) && lacks_end cs

abbrev pub well_formed : Piece → Bool
well_formed (plain c) = is_plain c
well_formed (division c) = is_plain c && not (eqb c b'*')
well_formed (single is) = fit b'\'' is
well_formed (double is) = fit b'"' is
well_formed (line body) = lacks b'\n' body
well_formed (block body) = lacks_end body

abbrev pub all_well_formed : List Piece → Bool
all_well_formed [] = true
all_well_formed (p ∷ ps) = well_formed p && all_well_formed ps

strip-plain :
    (c : ℕ) (rest : Codes)
    → is_plain c ≡ true
    → strip_from normal false (c ∷ rest)
      ≡ (c ∷ (strip_from normal false rest).0, (strip_from normal false rest).1)
unfolding strip_from move
strip-plain c rest h = ground arith

strip-division :
    (c : ℕ) (rest : Codes)
    → (is_plain c && not (eqb c b'*')) ≡ true
    → strip_from normal false (b'/' ∷ c ∷ rest)
      ≡ (b'/' ∷ c ∷ (strip_from normal false rest).0, (strip_from normal false rest).1)
unfolding strip_from move
strip-division c rest h = ground arith

strip-single :
    (is : List Item) (rest : Codes)
    → fit b'\'' is ≡ true
    → strip_from squote false (items is ++ (b'\'' ∷ rest))
      ≡ (items is ++ (b'\'' ∷ (strip_from normal false rest).0), (strip_from normal false rest).1)
unfolding strip_from move
strip-single [] [] h = ground arith
strip-single [] (c ∷ rest) h = ground arith
strip-single (char c ∷ []) rest h = ground (arith, strip-single [] rest refl)
strip-single (char c ∷ char d ∷ is) rest h = ground (arith, strip-single (char d ∷ is) rest)
strip-single (char c ∷ escaped d ∷ is) rest h = ground (arith, strip-single (escaped d ∷ is) rest)
strip-single (escaped c ∷ is) rest h = ground (arith, strip-single is rest)

strip-double :
    (is : List Item) (rest : Codes)
    → fit b'"' is ≡ true
    → strip_from dquote false (items is ++ (b'"' ∷ rest))
      ≡ (items is ++ (b'"' ∷ (strip_from normal false rest).0), (strip_from normal false rest).1)
unfolding strip_from move
strip-double [] [] h = ground arith
strip-double [] (c ∷ rest) h = ground arith
strip-double (char c ∷ []) rest h = ground (arith, strip-double [] rest refl)
strip-double (char c ∷ char d ∷ is) rest h = ground (arith, strip-double (char d ∷ is) rest)
strip-double (char c ∷ escaped d ∷ is) rest h = ground (arith, strip-double (escaped d ∷ is) rest)
strip-double (escaped c ∷ is) rest h = ground (arith, strip-double is rest)

strip-line :
    (body rest : Codes)
    → lacks b'\n' body ≡ true
    → strip_from line_comment false (body ++ (b'\n' ∷ rest))
      ≡ (b'\n' ∷ (strip_from normal false rest).0, (strip_from normal false rest).1)
unfolding strip_from move
strip-line [] rest h = ground arith
strip-line (c ∷ body) rest h = ground (arith, strip-line body rest)

strip-block :
    (body rest : Codes)
    → lacks_end body ≡ true
    → strip_from block_comment false (body ++ (b'*' ∷ b'/' ∷ rest))
      ≡ (newlines body ++ (strip_from normal false rest).0, (strip_from normal false rest).1)
unfolding strip_from move
strip-block [] rest h = ground arith
strip-block (c ∷ []) rest h = ground (arith, strip-block [] rest refl)
strip-block (c ∷ d ∷ body) rest h = ground (arith, strip-block (d ∷ body) rest)

-- Stripping a source of well-formed pieces leaves its code and its literals, of each comment the
-- newlines, and counts the comments: nothing in a literal opens a comment, and nothing in a comment
-- opens a literal.
pub strip_comments-source :
    (ps : List Piece)
    → all_well_formed ps ≡ true
    → strip_comments (source ps) ≡ (bare ps, comments ps)
unfolding strip_comments
strip_comments-source [] h = unfold strip_from in refl
strip_comments-source (plain c ∷ ps) h =
    ground (arith, strip_comments-source ps, strip-plain c (source ps))
strip_comments-source (division c ∷ ps) h =
    ground (arith, strip_comments-source ps, strip-division c (source ps))
strip_comments-source (single is ∷ ps) h =
    ground (arith, strip_comments-source ps, strip-single is (source ps))
strip_comments-source (double is ∷ ps) h =
    ground (arith, strip_comments-source ps, strip-double is (source ps))
strip_comments-source (line body ∷ ps) h =
    ground (arith, strip_comments-source ps, strip-line body (source ps))
strip_comments-source (block body ∷ ps) h =
    ground (arith, strip_comments-source ps, strip-block body (source ps))
