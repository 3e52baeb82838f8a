-- ===== src/CSource/Again.antt =====
-- Stripping a text that is stripped.
use no_gada_automation.Base.{
  ℕ, suc, ◌≡◌, refl, Bool, true, false, [], ◌∷◌, arith, eqb, Bool-cases, inl, inr,
}
use no_gada_automation.Text.{Codes}
use no_gada_automation.CSource.{
  Mode, normal, squote, dquote, line_comment, block_comment, next_is, move, strip_from,
  strip_comments,
}

-- How often a character stands in a text.
abbrev pub count : ℕ → Codes → ℕ
count d [] = 0
count d (c ∷ cs) = elim (eqb c d) [ true ↦ suc (count d cs) | false ↦ count d cs ]

-- Where the text that a state leaves goes on: what a comment leaves is read in the normal state.
after : Mode → Mode
after normal = normal
after squote = squote
after dquote = dquote
after line_comment = normal
after block_comment = normal

eqb→eq : (a b : ℕ) → eqb a b ≡ true → a ≡ b
eqb→eq a b h = ground arith

-- A character other than `/` stays where it stands in the normal state.
next_is-strip_from :
    (d : ℕ) (cs : Codes)
    → (next_is b'/' cs ≡ false)
    → next_is d (strip_from normal false cs).0 ≡ next_is d cs
unfolding strip_from move
next_is-strip_from d [] h = refl
next_is-strip_from d (c ∷ cs) h = ground arith

-- What is left from a state on is left as it is when it is stripped again.
abbrev Stays : Mode → Bool → Codes → Type 0
Stays m two cs = strip_from (after m) false (strip_from m two cs).0 ≡ ((strip_from m two cs).0, 0)

slash-Stays :
    (cs : Codes)
    → Stays normal false cs
    → Stays line_comment true cs
    → Stays block_comment true cs
    → Stays normal false (b'/' ∷ cs)
unfolding strip_from after move
slash-Stays cs plain line block =
    ground (arith, next_is-strip_from b'/' cs, next_is-strip_from b'*' cs)

other-Stays :
    (c : ℕ) (cs : Codes)
    → eqb c b'/' ≡ false
    → Stays normal false cs
    → Stays squote false cs
    → Stays dquote false cs
    → Stays normal false (c ∷ cs)
unfolding strip_from after move
other-Stays c cs h plain single double = ground arith

normal-Stays :
    (c : ℕ) (cs : Codes)
    → Stays normal false cs
    → Stays squote false cs
    → Stays dquote false cs
    → Stays line_comment true cs
    → Stays block_comment true cs
    → Stays normal false (c ∷ cs)
normal-Stays c cs plain single double line block = elim (Bool-cases (eqb c b'/')) [
  | inl slash ↦ rw (eqb→eq c b'/' slash) (slash-Stays cs plain line block)
  | inr other ↦ other-Stays c cs other plain single double
]

strip_from_again : (m : Mode) (two : Bool) (cs : Codes) → Stays m two cs
unfolding strip_from after move
strip_from_again m two [] = refl
strip_from_again m true (c ∷ cs) = strip_from_again m false cs
strip_from_again normal false (c ∷ cs) =
    normal-Stays c cs (strip_from_again normal false cs) (strip_from_again squote false cs)
      (strip_from_again dquote false cs) (strip_from_again line_comment true cs)
      (strip_from_again block_comment true cs)
strip_from_again squote false (c ∷ []) = ground arith
strip_from_again squote false (c ∷ d ∷ cs) = ground (
  arith,
  strip_from_again squote false cs,
  strip_from_again squote false (d ∷ cs),
  strip_from_again normal false (d ∷ cs),
)
strip_from_again dquote false (c ∷ []) = ground arith
strip_from_again dquote false (c ∷ d ∷ cs) = ground (
  arith,
  strip_from_again dquote false cs,
  strip_from_again dquote false (d ∷ cs),
  strip_from_again normal false (d ∷ cs),
)
strip_from_again line_comment false (c ∷ cs) =
    ground (arith, strip_from_again line_comment false cs, strip_from_again normal false cs)
strip_from_again block_comment false (c ∷ cs) =
    ground (arith, strip_from_again block_comment false cs, strip_from_again normal true cs)

-- Stripping removes no line: a text and what is left of it have as many newlines.
count_strip_from : (m : Mode) (cs : Codes) → count b'\n' (strip_from m false cs).0 ≡ count b'\n' cs
unfolding strip_from move
count_strip_from m [] = refl
count_strip_from normal (c ∷ []) = ground arith
count_strip_from normal (c ∷ d ∷ cs) = ground (
  arith,
  count_strip_from normal (d ∷ cs),
  count_strip_from dquote (d ∷ cs),
  count_strip_from squote (d ∷ cs),
  count_strip_from line_comment cs,
  count_strip_from block_comment cs,
)
count_strip_from squote (c ∷ []) = ground arith
count_strip_from squote (c ∷ d ∷ cs) = ground (
  arith,
  count_strip_from squote cs,
  count_strip_from squote (d ∷ cs),
  count_strip_from normal (d ∷ cs),
)
count_strip_from dquote (c ∷ []) = ground arith
count_strip_from dquote (c ∷ d ∷ cs) = ground (
  arith,
  count_strip_from dquote cs,
  count_strip_from dquote (d ∷ cs),
  count_strip_from normal (d ∷ cs),
)
count_strip_from line_comment (c ∷ cs) =
    ground (arith, count_strip_from line_comment cs, count_strip_from normal cs)
count_strip_from block_comment (c ∷ []) = ground arith
count_strip_from block_comment (c ∷ d ∷ cs) = ground (
  arith,
  count_strip_from block_comment cs,
  count_strip_from block_comment (d ∷ cs),
  count_strip_from normal cs,
)

-- Stripping a text that is stripped changes nothing and finds no comment: removing a comment never
-- makes one of what stood around it.
pub strip_comments_twice :
    (text : Codes) → strip_comments (strip_comments text).0 ≡ ((strip_comments text).0, 0)
unfolding strip_comments after
strip_comments_twice text = strip_from_again normal false text

-- A text has as many newlines before it is stripped as behind it, whatever stands in its comments and
-- literals, so that the numbers of its lines stay.
pub count-strip_comments : (text : Codes) → count b'\n' (strip_comments text).0 ≡ count b'\n' text
unfolding strip_comments
count-strip_comments text = count_strip_from normal text
