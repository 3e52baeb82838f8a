-- ===== src/Conditions/Asked.antt =====
-- When the user asks for a table: the conditions on its columns.
use no_gada_automation.Base.{
  ◌≡◌, refl, ap, ◌∙◌, Bool, true, false, not, ◌&&◌, ◌||◌, List, [], ◌∷◌, ◌++◌, map, keep, Option,
  none, some, if◌then◌else◌, Bool-cases, inl, inr,
}
use no_gada_automation.Text.{Codes, codes, Python, same, strip}
use no_gada_automation.Conditions.{
  Op, eq, between, KeyCond, split_commas, filled, has_comma, in_condition, eq_condition, literal,
  join_texts, map_literal, between_condition, by_op, condition, find, column_condition, put_column,
  split_columns,
}

-- The user gave a value that can be asked for: both ends of a range, or a text in which, if it has
-- commas, something stands between two of them.
abbrev pub some_filled : Python → List Codes → Bool
some_filled Py [] = false
some_filled Py (v ∷ vs) = not (same (strip Py v) []) || some_filled Py vs

abbrev pub usable : Python → KeyCond → Bool
usable Py kc = elim kc.op [
  | between ↦ not (same kc.start []) && not (same kc.end [])
  | eq ↦
      not (same kc.value [])
      && (if has_comma kc.value then some_filled Py (split_commas kc.value) else true)
]

abbrev pub asked : Python → List (Codes × KeyCond) → Codes → Bool
asked Py keys col = elim (find col keys) [ some kc ↦ usable Py kc | none ↦ false ]

abbrev pub any_asked : Python → List (Codes × KeyCond) → List Codes → Bool
any_asked Py keys [] = false
any_asked Py keys (col ∷ cols) = asked Py keys col || any_asked Py keys cols

abbrev pub is_filled : List Codes → Bool
is_filled [] = false
is_filled (x ∷ xs) = true

-- The condition that a usable value gives: its text, or its pieces between commas, without those that
-- are blank.
abbrev pub equals : Codes → Codes → Codes
equals col v = col ++ (codes " = " ++ literal v)

abbrev pub one_of : Codes → List Codes → Codes
one_of col [] = []
one_of col (v ∷ []) = equals col v
one_of col (v ∷ w ∷ vs) =
    col ++ (codes " IN (" ++ (join_texts (codes ", ") (map literal (v ∷ w ∷ vs)) ++ codes ")"))

abbrev pub pieces : Python → Codes → List Codes
pieces Py value = keep (λ v. not (same v [])) (map (strip Py) (split_commas value))

abbrev pub range_of : Codes → Codes → Codes → Codes
range_of col start end =
    col ++ (codes " BETWEEN " ++ (literal start ++ (codes " AND " ++ literal end)))

abbrev pub text_of : Python → Codes → KeyCond → Codes
text_of Py col kc = elim kc.op [
  | between ↦ range_of col kc.start kc.end
  | eq ↦ if has_comma kc.value then one_of col (pieces Py kc.value) else equals col kc.value
]

abbrev pub asked_text : Python → List (Codes × KeyCond) → Codes → Codes
asked_text Py keys col = elim (find col keys) [ some kc ↦ text_of Py col kc | none ↦ [] ]

-- The conditions of a table: one for each column that is asked for, in the order of the columns.
abbrev pub conditions : Python → List (Codes × KeyCond) → List Codes → List Codes
conditions Py keys cols = map (asked_text Py keys) (keep (asked Py keys) cols)

-- The columns without a condition.
abbrev pub left_out : Python → List (Codes × KeyCond) → List Codes → List Codes
left_out Py keys cols = keep (λ col. not (asked Py keys col)) cols

is_filled-filled : (Py : Python) (vs : List Codes) → is_filled (filled Py vs) ≡ some_filled Py vs
is_filled-filled Py [] = refl
is_filled-filled Py (v ∷ vs) = elim (Bool-cases (same (strip Py v) [])) [
  | inl blank ↦ rw blank (is_filled-filled Py vs)
  | inr other ↦ rw other
]

filled-eq-keep :
    (Py : Python) (vs : List Codes) → filled Py vs ≡ keep (λ v. not (same v [])) (map (strip Py) vs)
filled-eq-keep Py [] = refl
filled-eq-keep Py (v ∷ vs) = put (same (strip Py v) []) (filled-eq-keep Py vs)
  where
    put :
        (b : Bool)
        → {rest rest' : List Codes} → rest ≡ rest'
        → (if b then rest else strip Py v ∷ rest)
          ≡ elim (not b) [ true ↦ strip Py v ∷ rest' | false ↦ rest' ]
    put true h = h
    put false h = ap (λ ws. strip Py v ∷ ws) h

map_literal-eq-map : (vs : List Codes) → map_literal vs ≡ map literal vs
map_literal-eq-map [] = refl
map_literal-eq-map (v ∷ vs) = ap (λ ws. literal v ∷ ws) (map_literal-eq-map vs)

abbrev when : Bool → Codes → Option Codes
when b text = if b then some text else none

in_condition-eq-when :
    (col : Codes) (vs : List Codes) → in_condition col vs ≡ when (is_filled vs) (one_of col vs)
in_condition-eq-when col [] = refl
in_condition-eq-when col (v ∷ []) = refl
in_condition-eq-when col (v ∷ w ∷ vs) =
    ap
      (λ ls. some (
        col
        ++ (codes " IN (" ++ (join_texts (codes ", ") (literal v ∷ literal w ∷ ls) ++ codes ")"))))
      (map_literal-eq-map vs)

eq_condition-eq-when :
    (Py : Python) (col value : Codes)
    → eq_condition Py col value
      ≡ when
          (not (same value [])
            && (if has_comma value then some_filled Py (split_commas value) else true))
          (if has_comma value then one_of col (pieces Py value) else equals col value)
unfolding eq_condition
eq_condition-eq-when Py col value = elim (Bool-cases (same value [])) [
  | inl empty ↦ rw empty
  | inr given ↦ elim (Bool-cases (has_comma value)) [
    | inr plain ↦ rw (given, plain)
    | inl commas ↦
        rw (given, commas)
          (in_condition-eq-when col (filled Py (split_commas value))
            ∙ ap (λ b. when b (one_of col (filled Py (split_commas value))))
                (is_filled-filled Py (split_commas value))
            ∙ ap (λ vs. when (some_filled Py (split_commas value)) (one_of col vs))
                (filled-eq-keep Py (split_commas value)))
  ]
]

by_op-eq-when :
    (o : Op) (Py : Python) (col : Codes) (kc : KeyCond)
    → by_op o Py col kc
      ≡ when (usable Py (record kc { op = o })) (text_of Py col (record kc { op = o }))
unfolding by_op
by_op-eq-when between Py col kc =
    unfold between_condition in
    elim (Bool-cases (not (same kc.start []) && not (same kc.end []))) [
      | inl given ↦ rw given
      | inr missing ↦ rw missing
    ]
by_op-eq-when eq Py col kc = eq_condition-eq-when Py col kc.value

column_condition-eq-when :
    (Py : Python) (keys : List (Codes × KeyCond)) (col : Codes)
    → column_condition Py keys col ≡ when (asked Py keys col) (asked_text Py keys col)
unfolding condition
column_condition-eq-when Py keys col = by_key (find col keys)
  where
    by_key :
        (k : Option KeyCond)
        → elim k [ some kc ↦ by_op kc.op Py col kc | none ↦ none ]
          ≡ when
              (elim k [ some kc ↦ usable Py kc | none ↦ false ])
              (elim k [ some kc ↦ text_of Py col kc | none ↦ [] ])
    by_key none = refl
    by_key (some kc) = by_op-eq-when kc.op Py col kc

-- The loop over the columns collects the conditions, and the columns that have none.
pub split_columns-eq :
    (Py : Python) (keys : List (Codes × KeyCond)) (cols : List Codes)
    → split_columns Py keys cols ≡ (conditions Py keys cols, left_out Py keys cols)
unfolding split_columns
split_columns-eq Py keys [] = refl
split_columns-eq Py keys (col ∷ cols) =
    rw (column_condition-eq-when Py keys col, split_columns-eq Py keys cols)
      (put (asked Py keys col))
  where
    put :
        (b : Bool)
        → put_column col
            (when b (asked_text Py keys col))
            (conditions Py keys cols, left_out Py keys cols)
          ≡ (
            map (asked_text Py keys) (elim b [
              | true ↦ col ∷ keep (asked Py keys) cols
              | false ↦ keep (asked Py keys) cols
            ]),
            elim (not b) [ true ↦ col ∷ left_out Py keys cols | false ↦ left_out Py keys cols ],
          )
    put true = refl
    put false = refl

pub is_filled-conditions :
    (Py : Python) (keys : List (Codes × KeyCond)) (cols : List Codes)
    → is_filled (conditions Py keys cols) ≡ any_asked Py keys cols
is_filled-conditions Py keys [] = refl
is_filled-conditions Py keys (col ∷ cols) =
    put (asked Py keys col) (keep (asked Py keys) cols) (is_filled-conditions Py keys cols)
  where
    put :
        (b : Bool) (rest : List Codes) {more : Bool}
        → is_filled (map (asked_text Py keys) rest) ≡ more
        → is_filled (map (asked_text Py keys) (elim b [ true ↦ col ∷ rest | false ↦ rest ]))
          ≡ b || more
    put true rest h = refl
    put false rest h = h
