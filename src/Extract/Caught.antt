-- ===== src/Extract/Caught.antt =====
-- What is raised below the loop over the references is caught there.
use no_gada_automation.Base.{
  ◌≡◌, refl, Bool, true, false, List, [], ◌∷◌, Option, none, some, arith, if◌then◌else◌,
}
use no_gada_automation.Text.{Codes, Python, same, strip, update}
use no_gada_automation.Refs.{ModuleType, dbio, service, batch, biz}
use no_gada_automation.Source.{
  source_not_found, source_error, unknown_sql_type, extraction_error, key_error, Fetch, ok, raise,
  ◌>>=◌, Reader, IsReader, read_module_source,
}
use no_gada_automation.Source.Faults.{Raises, >>=-Raises, read-Raises, read_module_source-Raises}
use no_gada_automation.Sql.{Parser, Statement, extract_tables, preprocess, parse_asts, all_valid}
use no_gada_automation.Dbio.{
  Parsers, tables_of_all, read_dbio_xml, classify_sqltype, id_suffix, lookup, sql_type_by_suffix,
  dbio_referenced_tables,
}
use no_gada_automation.Extract.{
  ExtractResult, nothing, Config, is_caught, extract_from_dbio, load_refs,
}
use no_gada_automation.Extract.Spec.{is_followed}

-- A result is a value, or an exception that the loop over the references catches.
abbrev pub Caught {ℓ} : {A : Type ℓ} → Fetch A → Type 0
Caught (ok x) = Unit
Caught (raise e) = is_caught e ≡ true

>>=-Caught {ℓ κ} :
    {A : Type ℓ} {B : Type κ} (r : Fetch A) (f : A → Fetch B)
    → Caught r
    → ((a : A) → Caught (f a))
    → Caught (r >>= f)
>>=-Caught (ok a) f h k = k a
>>=-Caught (raise e) f h k = h

Caught-of_Raises {ℓ} : {A : Type ℓ} (r : Fetch A) → Raises r → Caught r
Caught-of_Raises (ok x) h = tt
Caught-of_Raises (raise source_not_found) h = refl
Caught-of_Raises (raise source_error) h = refl
Caught-of_Raises (raise unknown_sql_type) h = refl
Caught-of_Raises (raise extraction_error) h = refl
Caught-of_Raises (raise key_error) h = cc

classify_sqltype-Caught : (Py : Python) (id : Codes) → Caught (classify_sqltype Py id)
unfolding classify_sqltype
classify_sqltype-Caught Py id = by_suffix (id_suffix Py (Py.upper id))
  where
    by_type :
        (t : Option Codes)
        → Caught {A = Codes} (elim t [ none ↦ raise unknown_sql_type | some type ↦ ok type ])
    by_type none = refl
    by_type (some type) = tt

    by_suffix :
        (s : Option Codes)
        → Caught {A = Codes} (elim s [
          | none ↦ raise unknown_sql_type
          | some suffix ↦ elim (lookup suffix sql_type_by_suffix) [
            | none ↦ raise unknown_sql_type
            | some type ↦ ok type
          ]
        ])
    by_suffix none = refl
    by_suffix (some suffix) = by_type (lookup suffix sql_type_by_suffix)

if-Caught {ℓ} :
    {A : Type ℓ} (b : Bool) (x y : Fetch A) → Caught x → Caught y → Caught (if b then x else y)
if-Caught true x y h k = h
if-Caught false x y h k = k

preprocess-Caught : (Py : Python) (sql : Codes) → Caught (preprocess Py sql)
unfolding preprocess
preprocess-Caught Py sql = if-Caught (same (strip Py sql) []) (raise extraction_error) _ refl tt

parse_asts-Caught : (parse : Parser) (sql : Codes) → Caught (parse_asts parse sql)
unfolding parse_asts
parse_asts-Caught parse sql = by_parse (parse sql)
  where
    by_parse :
        (p : Option (List Statement))
        → Caught {A = List Statement} (elim p [
          | none ↦ raise extraction_error
          | some [] ↦ raise extraction_error
          | some (s ∷ ss) ↦ if all_valid (s ∷ ss) then ok (s ∷ ss) else raise extraction_error
        ])
    by_parse none = refl
    by_parse (some []) = refl
    by_parse (some (s ∷ ss)) =
        if-Caught (all_valid (s ∷ ss)) (ok (s ∷ ss)) (raise extraction_error) tt refl

extract_tables-Caught :
    (Py : Python) (parse : Parser) (sql : Codes) → Caught (extract_tables Py parse sql)
unfolding extract_tables
extract_tables-Caught Py parse sql =
    >>=-Caught (preprocess Py sql) _ (preprocess-Caught Py sql)
      (λ text. >>=-Caught (parse_asts parse text) _ (parse_asts-Caught parse text) (λ asts. tt))

tables_of_all-Caught :
    (Py : Python) (parse : Parser) (tables : List Codes) (sqls : List Codes)
    → Caught (tables_of_all Py parse tables sqls)
unfolding tables_of_all
tables_of_all-Caught Py parse tables [] = tt
tables_of_all-Caught Py parse tables (sql ∷ sqls) =
    >>=-Caught (extract_tables Py parse sql) _ (extract_tables-Caught Py parse sql)
      (λ found. tables_of_all-Caught Py parse (update found tables) sqls)

module _ (Py : Python) (X : Parsers) {reader : Reader} (R : IsReader reader) (K : Config) where
  pub extract_from_dbio-Caught : (id : Codes) → Caught (extract_from_dbio Py X reader K id)
  unfolding extract_from_dbio dbio_referenced_tables read_dbio_xml
  extract_from_dbio-Caught id =
      >>=-Caught (dbio_referenced_tables Py X id reader) _
        (>>=-Caught (read_dbio_xml Py id reader) _
          (>>=-Caught (classify_sqltype Py id) _ (classify_sqltype-Caught Py id)
            (λ type. Caught-of_Raises (reader.read _) (read-Raises R _)))
          (λ xml.
            >>=-Caught (tables_of_all Py X.parse [] (X.extract_sql xml)) _
              (tables_of_all-Caught Py X.parse [] (X.extract_sql xml)) (λ tables. tt)))
        (λ result. tt)

  pub load_refs-Raises :
      (t : ModuleType) (id : Codes)
      → is_followed t ≡ true
      → Raises (load_refs Py X reader K none t id)
  unfolding load_refs
  load_refs-Raises service id h =
      >>=-Raises (read_module_source service id reader none K.group_map) _
        (read_module_source-Raises R service id K.group_map refl) (λ text. tt)
  load_refs-Raises biz id h =
      >>=-Raises (read_module_source biz id reader none K.group_map) _
        (read_module_source-Raises R biz id K.group_map refl) (λ text. tt)
  load_refs-Raises dbio id h = cc
  load_refs-Raises batch id h = cc

  -- A DBIO's result has its ID and tables, and nothing else.
  pub extract_from_dbio-eq :
      (id : Codes) (result : ExtractResult)
      → extract_from_dbio Py X reader K id ≡ ok result
      → result ≡ record nothing { tables = result.tables; dbios = id ∷ [] }
  unfolding extract_from_dbio
  extract_from_dbio-eq id result = by_tables (dbio_referenced_tables Py X id reader)
    where
      by_tables :
          (r : Fetch (List Codes × Codes))
          → (r >>= λ found. ok (record nothing { tables = found.0; dbios = id ∷ [] })) ≡ ok result
          → result ≡ record nothing { tables = result.tables; dbios = id ∷ [] }
      by_tables (ok found) h = ground arith
      by_tables (raise e) h = cc
