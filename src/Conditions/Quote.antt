-- ===== src/Conditions/Quote.antt =====
-- A value in a statement, read back as Oracle reads a text literal.
use no_gada_automation.Base.{
  ℕ, ◌≡◌, refl, ap, ◌∙◌, true, false, [], ◌∷◌, ◌++◌, Option, none, some, arith, eqb, ◌&&◌, ◌≢◌,
  Bool-cases, inl, inr, if◌then◌else◌, append_assoc,
}
use no_gada_automation.Text.{Codes, codes}
use no_gada_automation.CSource.{next_is}
use no_gada_automation.Conditions.{quote, literal}

abbrev put_first : ℕ → Option (Codes × Codes) → Option (Codes × Codes)
put_first c none = none
put_first c (some (v, rest)) = some (c ∷ v, rest)

-- The literal up to its closing quote; a quote that is doubled is one of the value.
read_body : Codes → Option (Codes × Codes)
read_body [] = none
read_body (c ∷ []) = if eqb c b'\'' then some ([], []) else none
read_body (c ∷ d ∷ cs) =
    let doubled = put_first c (read_body cs) in
    let going = put_first c (read_body (d ∷ cs)) in
    if eqb c b'\'' && eqb d b'\'' then doubled else if eqb c b'\'' then some ([], d ∷ cs) else going

pub read_literal : Codes → Option (Codes × Codes)
unfolding read_body
read_literal [] = none
read_literal (c ∷ text) = if eqb c b'\'' then read_body text else none

read_end : (rest : Codes) → next_is b'\'' rest ≡ false → read_body (b'\'' ∷ rest) ≡ some ([], rest)
unfolding read_body
read_end [] h = refl
read_end (d ∷ rest) h = ground arith

read_plain :
    (c : ℕ) (text : Codes)
    → eqb c b'\'' ≡ false
    → text ≢ []
    → read_body (c ∷ text) ≡ put_first c (read_body text)
unfolding read_body
read_plain c [] h e = absurd (e refl)
read_plain c (d ∷ text) h e = ground arith

read_doubled :
    (c : ℕ) (text : Codes)
    → eqb c b'\'' ≡ true
    → read_body (b'\'' ∷ b'\'' ∷ text) ≡ put_first c (read_body text)
unfolding read_body
read_doubled c text h = ground arith

append-ne-nil : (x rest : Codes) → x ++ (b'\'' ∷ rest) ≢ []
append-ne-nil [] rest h = cc
append-ne-nil (c ∷ x) rest h = cc

read_body-quote :
    (v rest : Codes)
    → next_is b'\'' rest ≡ false
    → read_body (quote v ++ (b'\'' ∷ rest)) ≡ some (v, rest)
unfolding quote
read_body-quote [] rest h = read_end rest h
read_body-quote (c ∷ v) rest h = elim (Bool-cases (eqb c b'\'')) [
  | inl quoted ↦ rw quoted (read_doubled c _ quoted ∙ ap (put_first c) (read_body-quote v rest h))
  | inr plain ↦ rw plain (
      read_plain c _ plain (append-ne-nil (quote v) rest)
      ∙ ap (put_first c) (read_body-quote v rest h))
]

-- A value that is written as a literal is read back as it was, with the statement behind it where it
-- stands, whatever quotes the value has: no value ends its own literal. What follows must not begin
-- with a quote.
pub read_literal-literal :
    (v rest : Codes)
    → next_is b'\'' rest ≡ false
    → read_literal (literal v ++ rest) ≡ some (v, rest)
unfolding read_literal
read_literal-literal v rest h =
    ap read_body (append_assoc (quote v) (codes "'") rest) ∙ read_body-quote v rest h
