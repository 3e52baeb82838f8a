-- ===== src/Migrate/Lines.antt =====
-- The lines of the statements for one table.
use no_gada_automation.Base.{◌≡◌, refl, ap, List, [], ◌∷◌, ◌++◌, append-nil, append_assoc}
use no_gada_automation.Text.{Codes, codes}
use no_gada_automation.Conditions.{join_texts}
use no_gada_automation.Migrate.{and_lines, omitted_note, block}

-- The comment, with the columns that have no condition.
abbrev omission : List Codes → Codes
omission [] = []
omission (o ∷ os) = codes "  (미입력 조건 제외: " ++ (join_texts (codes ", ") (o ∷ os) ++ codes ")")

-- The line or lines of the conditions, of which the first stands behind WHERE.
abbrev where_line : List Codes → Codes
where_line conds = codes " WHERE " ++ (join_texts (codes "\n   AND ") conds ++ codes ";")

-- A comment, a DELETE and an INSERT, both with the conditions.
abbrev pub lines : Codes → Codes → Codes → List Codes → List Codes → Codes
lines from_at to_at t conds omitted = join_texts (codes "\n") (
    (codes "-- " ++ (t ++ omission omitted))
    ∷ (codes "DELETE FROM " ++ (t ++ to_at))
    ∷ where_line conds
    ∷ (codes "INSERT INTO " ++ (t ++ to_at))
    ∷ (codes "SELECT * FROM " ++ (t ++ from_at))
    ∷ where_line conds
    ∷ [])

and_lines-eq-join_texts :
    (c : Codes) (cs : List Codes) → c ++ and_lines cs ≡ join_texts (codes "\n   AND ") (c ∷ cs)
and_lines-eq-join_texts c [] = append-nil c
and_lines-eq-join_texts c (d ∷ cs) =
    ap (λ x. c ++ (codes "\n   AND " ++ x)) (and_lines-eq-join_texts d cs)

omitted_note-eq-omission : (omitted : List Codes) → omitted_note omitted ≡ omission omitted
omitted_note-eq-omission [] = refl
omitted_note-eq-omission (o ∷ os) = refl

pub block-eq-lines :
    (from_at to_at t c : Codes) (cs omitted : List Codes)
    → block from_at to_at t (c ∷ cs) omitted ≡ lines from_at to_at t (c ∷ cs) omitted
unfolding block
block-eq-lines from_at to_at t c cs omitted =
    simp (and_lines-eq-join_texts c cs, omitted_note-eq-omission omitted, append_assoc)
