-- ===== src/Dbio.antt =====
-- app/common/proframe/dbio.py: where a DBIO lies and which tables it uses. `extract_sql` of
-- dbio_sql.py stands on the XML parser and is a parameter.
use no_gada_automation.Base.{
  ℕ, Bool, false, ◌&&◌, ◌||◌, List, [], ◌∷◌, ◌++◌, Option, none, some, leb, if◌then◌else◌,
}
use no_gada_automation.Text.{Codes, codes, Python, same, update}
use no_gada_automation.Source.{Fetch, ok, raise, unknown_sql_type, ◌>>=◌, Reader, proframe_root}
use no_gada_automation.Sql.{Parser, extract_tables}

abbrev pub dbio_resource_root : Codes
dbio_resource_root = proframe_root ++ codes "/release/dbio/xml"

-- `SQL_TYPE_BY_SUFFIX`
abbrev pub sql_type_by_suffix : List (Codes × Codes)
sql_type_by_suffix =
    (codes "DF", codes "DYNAMICSQL")
    ∷ (codes "DS", codes "DYNAMICSQL")
    ∷ (codes "DI", codes "DYNAMICSQL")
    ∷ (codes "DU", codes "DYNAMICSQL")
    ∷ (codes "DD", codes "DYNAMICSQL")
    ∷ (codes "EI", codes "EXECSQL")
    ∷ (codes "EU", codes "EXECSQL")
    ∷ (codes "ED", codes "EXECSQL")
    ∷ (codes "PI", codes "PERSIST")
    ∷ (codes "PU", codes "PERSIST")
    ∷ (codes "PD", codes "PERSIST")
    ∷ (codes "PS", codes "PERSIST")
    ∷ (codes "PF", codes "PERSIST")
    ∷ (codes "VF", codes "VIEW")
    ∷ (codes "VS", codes "VIEW")
    ∷ []

abbrev pub lookup : Codes → List (Codes × Codes) → Option Codes
lookup k [] = none
lookup k ((j, v) ∷ m) = if same k j then some v else lookup k m

abbrev is_upper : ℕ → Bool
is_upper c = leb b'A' c && leb c b'Z'

-- `\d+$`: `$` stands at the end or before a newline that ends the text.
abbrev digits_to_end : Python → Codes → Bool
digits_to_end Py [] = false
digits_to_end Py (c ∷ []) = Py.is_digit c
digits_to_end Py (c ∷ d ∷ cs) =
    Py.is_digit c && (same (d ∷ cs) (codes "\n") || digits_to_end Py (d ∷ cs))

-- `ID_SUFFIX_RE.search`: the two letters, at the first place that fits.
pub id_suffix : Python → Codes → Option Codes
id_suffix Py [] = none
id_suffix Py (c ∷ []) = none
id_suffix Py (c ∷ d ∷ cs) =
    let later = id_suffix Py (d ∷ cs) in
    if is_upper c && is_upper d && digits_to_end Py cs then some (c ∷ d ∷ []) else later

unfoldable pub classify_sqltype : Python → Codes → Fetch Codes
unfolding id_suffix
classify_sqltype Py id = elim (id_suffix Py (Py.upper id)) [
  | none ↦ raise unknown_sql_type
  | some suffix ↦ elim (lookup suffix sql_type_by_suffix) [
    | none ↦ raise unknown_sql_type
    | some type ↦ ok type
  ]
]

unfoldable pub read_dbio_xml : Python → Codes → Reader → Fetch Codes
unfolding classify_sqltype
read_dbio_xml Py id reader = do
  _ ← classify_sqltype Py id
  reader.read (dbio_resource_root ++ (codes "/pfmDbio" ++ (id ++ codes ".xml")))

-- What the program calls and does not implement.
pub record Parsers : Type 0 where
  pub extract_sql : Codes → List Codes
  pub parse : Parser

-- The loop over the SQL texts.
unfoldable pub tables_of_all : Python → Parser → List Codes → List Codes → Fetch (List Codes)
tables_of_all Py parse tables [] = ok tables
tables_of_all Py parse tables (sql ∷ sqls) = do
  found ← extract_tables Py parse sql
  tables_of_all Py parse (update found tables) sqls

-- `";\n".join(sqls)`
abbrev pub join_sql : List Codes → Codes
join_sql [] = []
join_sql (sql ∷ []) = sql
join_sql (sql ∷ s ∷ sqls) = sql ++ (codes ";\n" ++ join_sql (s ∷ sqls))

unfoldable pub dbio_referenced_tables :
    Python → Parsers → Codes → Reader → Fetch (List Codes × Codes)
unfolding read_dbio_xml tables_of_all
dbio_referenced_tables Py X id reader = do
  xml ← read_dbio_xml Py id reader
  let sqls = X.extract_sql xml
  tables ← tables_of_all Py X.parse [] sqls
  ok (tables, join_sql sqls)
