-- ===== src/Conditions.antt =====
-- app/tools/data_migration/migrate.py: the conditions on the columns of a primary key.
pub mod Asked
pub mod Quote
use no_gada_automation.Base.{
  ℕ, Bool, true, false, not, ◌&&◌, ◌||◌, List, [], ◌∷◌, ◌++◌, Option, none, some, eqb,
  if◌then◌else◌,
}
use no_gada_automation.Text.{Codes, codes, Python, same, strip}

pub data Op : Type 0 where
  eq between : Op

pub record KeyCond : Type 0 where
  pub op : Op
  pub value : Codes
  pub start : Codes
  pub end : Codes

-- `v.replace("'", "''")`
pub quote : Codes → Codes
quote [] = []
quote (c ∷ v) = let rest = quote v in if eqb c b'\'' then b'\'' ∷ b'\'' ∷ rest else c ∷ rest

-- `f"'{_quote(v)}'"`
abbrev pub literal : Codes → Codes
literal v = b'\'' ∷ (quote v ++ codes "'")

-- `sep.join(texts)`
abbrev pub join_texts : Codes → List Codes → Codes
join_texts sep [] = []
join_texts sep (x ∷ []) = x
join_texts sep (x ∷ y ∷ xs) = x ++ (sep ++ join_texts sep (y ∷ xs))

abbrev add_to_first : ℕ → List Codes → List Codes
add_to_first c [] = (c ∷ []) ∷ []
add_to_first c (x ∷ xs) = (c ∷ x) ∷ xs

-- `value.split(",")`
abbrev pub split_commas : Codes → List Codes
split_commas [] = [] ∷ []
split_commas (c ∷ v) =
    let rest = split_commas v in if eqb c b',' then [] ∷ rest else add_to_first c rest

-- `[v.strip() for v in pieces if v.strip()]`
abbrev pub filled : Python → List Codes → List Codes
filled Py [] = []
filled Py (v ∷ vs) =
    let rest = filled Py vs in if same (strip Py v) [] then rest else strip Py v ∷ rest

abbrev pub has_comma : Codes → Bool
has_comma [] = false
has_comma (c ∷ v) = eqb c b',' || has_comma v

abbrev map_literal : List Codes → List Codes
map_literal [] = []
map_literal (v ∷ vs) = literal v ∷ map_literal vs

-- The condition for the pieces of a value with a comma.
abbrev pub in_condition : Codes → List Codes → Option Codes
in_condition col [] = none
in_condition col (v ∷ []) = some (col ++ (codes " = " ++ literal v))
in_condition col (v ∷ w ∷ vs) =
    some
      (col ++ (codes " IN (" ++ (join_texts (codes ", ") (map_literal (v ∷ w ∷ vs)) ++ codes ")")))

eq_condition : Python → Codes → Codes → Option Codes
unfolding quote
eq_condition Py col value =
    if same value []
    then none
    else if has_comma value
    then in_condition col (filled Py (split_commas value))
    else some (col ++ (codes " = " ++ literal value))

between_condition : Codes → Codes → Codes → Option Codes
unfolding quote
between_condition col start end =
    if not (same start []) && not (same end [])
    then some (col ++ (codes " BETWEEN " ++ (literal start ++ (codes " AND " ++ literal end))))
    else none

by_op : Op → Python → Codes → KeyCond → Option Codes
unfolding eq_condition between_condition
by_op between Py col kc = between_condition col kc.start kc.end
by_op eq Py col kc = eq_condition Py col kc.value

-- `_condition`
unfoldable pub condition : Python → Codes → KeyCond → Option Codes
unfolding by_op
condition Py col kc = by_op kc.op Py col kc

-- `d.get(k)` of a dict
abbrev pub find {ℓ} : {A : Type ℓ} → Codes → List (Codes × A) → Option A
find k [] = none
find k ((j, v) ∷ d) = if same k j then some v else find k d

-- The condition of one column, if the user gave one.
abbrev pub column_condition : Python → List (Codes × KeyCond) → Codes → Option Codes
column_condition Py keys col = elim (find col keys) [ some kc ↦ condition Py col kc | none ↦ none ]

abbrev pub put_column : Codes → Option Codes → List Codes × List Codes → List Codes × List Codes
put_column col (some c) (conds, omitted) = (c ∷ conds, omitted)
put_column col none (conds, omitted) = (conds, col ∷ omitted)

-- The loop over the columns: `conds` and `omitted`.
unfoldable pub split_columns :
    Python → List (Codes × KeyCond) → List Codes → List Codes × List Codes
split_columns Py keys [] = ([], [])
split_columns Py keys (col ∷ cols) =
    put_column col (column_condition Py keys col) (split_columns Py keys cols)
