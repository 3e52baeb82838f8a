-- ===== src/Extract/Tests.antt =====
-- The extraction from a service of the sample.
use no_gada_automation.Base.{◌≡◌, refl, [], ◌∷◌, some}
use no_gada_automation.Text.{Codes, codes, add, update}
use no_gada_automation.CSource.{strip_comments}
use no_gada_automation.Refs.{service, scan_module_refs}
use no_gada_automation.Refs.Tests.{ascii}
use no_gada_automation.Source.{read_module_source}
use no_gada_automation.Sql.{extract_tables}
use no_gada_automation.Dbio.{dbio_referenced_tables}
use no_gada_automation.Extract.{done, extract_from_module}
use no_gada_automation.Extract.Ensures.{Ensures}
use no_gada_automation.Extract.Sample.{parsers, server, settings}

abbrev entry : Codes
entry = codes "S"

extracted :
    extract_from_module ascii parsers server settings 4 service (some (codes "RLG")) entry
    ≡ done
        (record {
          tables = codes "EMP" ∷ [];
          dbios = codes "T_DS1" ∷ [];
          batches = codes "BRLG1" ∷ [];
          services = entry ∷ [];
          bizs = codes "A" ∷ [];
        })
        (codes "BRLG1" ∷ codes "T_DS1" ∷ codes "M" ∷ codes "A" ∷ entry ∷ [])
unfolding extract_from_module read_module_source scan_module_refs strip_comments extract_tables
    dbio_referenced_tables add update
extracted = refl
