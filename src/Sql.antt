-- ===== src/Sql.antt =====
-- app/common/parse/sql.py and text_sanitize.py: the tables of a SQL text. The parser sqlglot is a
-- parameter; what the code reads of a statement is `Statement`.
use no_gada_automation.Base.{
  ℕ, zero, suc, ◌+◌, Bool, true, false, ◌&&◌, ◌||◌, List, [], ◌∷◌, map, Option, none, some, eqb,
  leb, length, if◌then◌else◌,
}
use mathlib.Core.List.{reverse}
use no_gada_automation.Text.{
  Codes, codes, Python, format_char, space_separator, other_category, same, mem, add, update,
  behind, span, strip,
}
use no_gada_automation.CSource.{Mode, normal, squote, dquote, line_comment, block_comment, next_is}
use no_gada_automation.Source.{Fetch, ok, raise, extraction_error, ◌>>=◌}

-- `sanitize_text`; the list of what was removed only goes to the log.
pub sanitize_text : Python → Codes → Codes
sanitize_text Py [] = []
sanitize_text Py (c ∷ cs) =
    let rest = sanitize_text Py cs in
    elim (Py.category c) [
      | format_char ↦ rest
      | space_separator ↦ b' ' ∷ rest
      | other_category ↦ c ∷ rest
    ]

abbrev is_blank_or_tab : ℕ → Bool
is_blank_or_tab c = eqb c b' ' || eqb c b'\t'

-- `" \t\r\n"`
abbrev pub is_gap : ℕ → Bool
is_gap c = is_blank_or_tab c || eqb c b'\r' || eqb c b'\n'

-- `_DBLINK_NAME`
abbrev pub is_link_char : ℕ → Bool
is_link_char c =
    (leb b'A' c && leb c b'Z')
    || (leb b'a' c && leb c b'z')
    || (leb b'0' c && leb c b'9')
    || eqb c b'_'
    || eqb c b'$'
    || eqb c b'#'
    || eqb c b'.'

-- `while out and out[-1] in " \t": out.pop()`; the last character comes first.
abbrev pub pop_blanks : Codes → Codes
pop_blanks [] = []
pop_blanks (c ∷ out) = let rest = pop_blanks out in if is_blank_or_tab c then rest else c ∷ out

-- What stands behind an `@`: the name of the link, and how many characters it and the gap are.
pub link_at : Codes → Codes × ℕ
link_at text =
    let (gap, rest) = span is_gap text in
    let (name, _) = span is_link_char rest in (name, length gap + length name)

-- The state behind a character other than `@`.
pub next_mode : Mode → ℕ → Codes → Mode
next_mode normal c cs =
    if eqb c b'-' && next_is b'-' cs
    then line_comment
    else if eqb c b'/' && next_is b'*' cs
    then block_comment
    else if eqb c b'\''
    then squote
    else if eqb c b'"'
    then dquote
    else normal
next_mode squote c cs = if eqb c b'\'' then normal else squote
next_mode dquote c cs = if eqb c b'"' then normal else dquote
next_mode line_comment c cs = if eqb c b'\n' then normal else line_comment
next_mode block_comment c cs = block_comment

abbrev pub is_normal : Mode → Bool
is_normal normal = true
is_normal _ = false

abbrev pub is_block : Mode → Bool
is_block block_comment = true
is_block _ = false

-- The rest of the loop: the characters that are still to be passed over, `out` with its last
-- character first, and `removed` with its last name first.
pub links_from : Mode → ℕ → Codes → List Codes → Codes → Codes × List Codes
unfolding link_at next_mode
links_from m skip out removed [] = (reverse out, reverse removed)
links_from m (suc skip) out removed (c ∷ cs) = links_from m skip out removed cs
links_from m zero out removed (c ∷ cs) =
    let (name, taken) = link_at cs in
    let linked =
      links_from normal taken (pop_blanks out)
        (elim name [ [] ↦ removed | n ∷ ns ↦ (n ∷ ns) ∷ removed ]) cs in
    let closed = links_from normal 1 (b'/' ∷ c ∷ out) removed cs in
    let going = links_from (next_mode m c cs) zero (c ∷ out) removed cs in
    if is_normal m && eqb c b'@'
    then linked
    else if is_block m && eqb c b'*' && next_is b'/' cs
    then closed
    else going

unfoldable pub strip_db_links : Codes → Codes × List Codes
unfolding links_from
strip_db_links sql = links_from normal zero [] [] sql

-- `_preprocess`
unfoldable pub preprocess : Python → Codes → Fetch Codes
unfolding sanitize_text strip_db_links strip
preprocess Py sql =
    if same (strip Py sql) []
    then raise extraction_error
    else ok (strip_db_links (sanitize_text Py sql)).0

-- A statement of sqlglot: whether it is of one of the types of `VALID_TOP_LEVEL`, the aliases of its
-- CTEs and the names of its tables, in the order in which they are found.
pub record Statement : Type 0 where
  pub is_valid : Bool
  pub cte_aliases : List Codes
  pub table_names : List Codes

-- `sqlglot.parse`: `none` is its `ParseError`.
abbrev pub Parser : Type 0
Parser = Codes → Option (List Statement)

-- The loop of `_parse_asts` over the statements.
pub all_valid : List Statement → Bool
all_valid [] = true
all_valid (s ∷ ss) = s.is_valid && all_valid ss

unfoldable pub parse_asts : Parser → Codes → Fetch (List Statement)
unfolding all_valid
parse_asts parse sql = elim (parse sql) [
  | none ↦ raise extraction_error
  | some [] ↦ raise extraction_error
  | some (s ∷ ss) ↦ if all_valid (s ∷ ss) then ok (s ∷ ss) else raise extraction_error
]

abbrev pub excluded_prefixes : List Codes
excluded_prefixes = map codes ("USER_" ∷ "ALL_" ∷ "DBA_" ∷ "V$" ∷ "GV$" ∷ "SYS." ∷ [])

-- `any(name.startswith(p) for p in prefixes)`
abbrev pub starts_with_any : List Codes → Codes → Bool
starts_with_any [] name = false
starts_with_any (p ∷ ps) name = elim (behind p name) [
  | some _ ↦ true
  | none ↦ starts_with_any ps name
]

-- `cte_names`, as a set.
abbrev pub cte_names : Python → List Codes → List Codes
cte_names Py aliases = map Py.upper aliases

-- A name of no physical table: none, a CTE's, `DUAL`, or one of the dictionary.
pub is_left_out : List Codes → Codes → Bool
is_left_out ctes name =
    same name []
    || mem name ctes
    || same name (codes "DUAL")
    || starts_with_any excluded_prefixes name

-- `_tables_in`: the loop over the tables of a statement, from a set on.
pub tables_from : Python → List Codes → List Codes → List Codes → List Codes
unfolding is_left_out
tables_from Py ctes tables [] = tables
tables_from Py ctes tables (t ∷ ts) =
    let name = strip Py (Py.upper t) in
    tables_from Py ctes (if is_left_out ctes name then tables else add name tables) ts

unfoldable pub tables_in : Python → Statement → List Codes
unfolding tables_from
tables_in Py s = tables_from Py (cte_names Py s.cte_aliases) [] s.table_names

-- The loop of `extract_tables` over the statements.
pub tables_of : Python → List Codes → List Statement → List Codes
unfolding tables_in
tables_of Py tables [] = tables
tables_of Py tables (s ∷ ss) = tables_of Py (update (tables_in Py s) tables) ss

unfoldable pub extract_tables : Python → Parser → Codes → Fetch (List Codes)
unfolding preprocess parse_asts tables_of
extract_tables Py parse sql = do
  text ← preprocess Py sql
  asts ← parse_asts parse text
  ok (tables_of Py [] asts)
