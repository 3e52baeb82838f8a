-- ===== src/CSource.antt =====
-- `strip_comments` of app/common/parse/c_source.py.
pub mod Again
pub mod Pieces
pub mod Tests
use no_gada_automation.Base.{
  ℕ, ◌+◌, Bool, true, false, ◌&&◌, not, List, [], ◌∷◌, ◌++◌, eqb, if◌then◌else◌,
}
use no_gada_automation.Text.{Codes}

-- `state`
pub data Mode : Type 0 where
  normal squote dquote line_comment block_comment : Mode

-- What one round of the loop does: the next state, what it appends, whether it takes two
-- characters (`i += 2`), and what it adds to `removed`.
pub record Move : Type 0 where
  pub mode : Mode
  pub emit : Codes
  pub two : Bool
  pub count : ℕ

-- `text[i + 1 : i + 2] == d`
abbrev pub next_is : ℕ → Codes → Bool
next_is d [] = false
next_is d (c ∷ cs) = eqb c d

abbrev pub keep_char : Mode → ℕ → Move
keep_char m c = record { mode = m; emit = c ∷ []; two = false; count = 0 }

abbrev pub drop_char : Mode → Move
drop_char m = record { mode = m; emit = []; two = false; count = 0 }

abbrev pub open_comment : Mode → Move
open_comment m = record { mode = m; emit = []; two = true; count = 1 }

abbrev in_normal : ℕ → Codes → Move
in_normal c cs =
    if eqb c b'/' && next_is b'/' cs
    then open_comment line_comment
    else if eqb c b'/' && next_is b'*' cs
    then open_comment block_comment
    else if eqb c b'"'
    then keep_char dquote c
    else if eqb c b'\''
    then keep_char squote c
    else keep_char normal c

-- `state in ("squote", "dquote")`; a backslash takes the character behind it along.
abbrev in_literal : Mode → ℕ → ℕ → Codes → Move
in_literal m quote c [] = if eqb c quote then keep_char normal c else keep_char m c
in_literal m quote c (d ∷ cs) =
    if eqb c b'\\'
    then record { mode = m; emit = c ∷ d ∷ []; two = true; count = 0 }
    else if eqb c quote
    then keep_char normal c
    else keep_char m c

abbrev in_block : ℕ → Codes → Move
in_block c cs =
    if eqb c b'\n'
    then keep_char block_comment c
    else if eqb c b'*' && next_is b'/' cs
    then record { mode = normal; emit = []; two = true; count = 0 }
    else drop_char block_comment

pub move : Mode → ℕ → Codes → Move
move normal c cs = in_normal c cs
move squote c cs = in_literal squote b'\'' c cs
move dquote c cs = in_literal dquote b'"' c cs
move line_comment c cs = if eqb c b'\n' then keep_char normal c else drop_char line_comment
move block_comment c cs = in_block c cs

-- The loop from a state on; with `true` the next character was taken already. It gives what is
-- appended from here on and what is added to `removed`.
pub strip_from : Mode → Bool → Codes → Codes × ℕ
strip_from m _ [] = ([], 0)
strip_from m true (c ∷ cs) = strip_from m false cs
strip_from m false (c ∷ cs) =
    let mv = move m c cs in
    let (out, removed) = strip_from mv.mode mv.two cs in (mv.emit ++ out, mv.count + removed)

unfoldable pub strip_comments : Codes → Codes × ℕ
unfolding strip_from move
strip_comments text = strip_from normal false text
