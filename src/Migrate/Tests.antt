-- ===== src/Migrate/Tests.antt =====
-- A migration of three tables.
use no_gada_automation.Base.{◌≡◌, refl, true, List, [], ◌∷◌, ◌++◌, map, some, keep}
use no_gada_automation.Text.{Codes, codes, strip}
use no_gada_automation.Refs.Tests.{ascii}
use no_gada_automation.Conditions.{eq, between, KeyCond, literal, join_texts, condition}
use no_gada_automation.Migrate.{at_link, columns, part, blank_line, block, build_migration_sql}
use no_gada_automation.Conditions.Quote.{read_literal, read_literal-literal}
use no_gada_automation.Conditions.Asked.{is_filled, conditions}
use no_gada_automation.Migrate.Sorted.{
  is_asked, lacks_keys, lacks_pk, notes, statements, build_migration_sql_lem,
}

read_literal-literal_example :
    read_literal (literal (codes "O'Neil''") ++ codes ";") ≡ some (codes "O'Neil''", codes ";")
read_literal-literal_example = read_literal-literal (codes "O'Neil''") (codes ";") refl

abbrev pks : List (Codes × List Codes)
pks =
    (codes "FUND_BS", codes "FUND_CODE" ∷ codes "SEQ" ∷ [])
    ∷ (codes "BM_HT", codes "BM_CODE" ∷ [])
    ∷ []

abbrev user_keys : List (Codes × KeyCond)
user_keys =
    (codes "FUND_CODE", record { op = eq; value = codes "1, 2"; start = []; end = [] })
    ∷ (codes "BM_CODE", record { op = between; value = []; start = codes "1"; end = [] })
    ∷ []

abbrev names : List Codes
names = codes "FUND_BS" ∷ codes "BM_HT" ∷ codes "LOG_TR" ∷ []

written :
    (build_migration_sql ascii names pks user_keys (codes "@src") []).sql
    ≡ codes
        "-- (PK 정보 없어 제외) LOG_TR\n-- (입력한 키가 없어 제외: 전체 삭제 방지) BM_HT\n\n-- FUND_BS  (미입력 조건 제외: SEQ)\nDELETE FROM FUND_BS\n WHERE FUND_CODE IN ('1', '2');\nINSERT INTO FUND_BS\nSELECT * FROM FUND_BS@src\n WHERE FUND_CODE IN ('1', '2');"
unfolding build_migration_sql condition strip block
written = refl

build_migration_sql_lem_example :
    ((build_migration_sql ascii names pks user_keys (codes "@src") []).generated
      ≡ keep (is_asked ascii pks user_keys) names)
    × ((build_migration_sql ascii names pks user_keys (codes "@src") []).skipped
        ≡ keep (lacks_keys ascii pks user_keys) names)
    × ((build_migration_sql ascii names pks user_keys (codes "@src") []).no_pk
        ≡ keep (lacks_pk ascii pks user_keys) names)
    × ((build_migration_sql ascii names pks user_keys (codes "@src") []).sql
        ≡ join_texts blank_line (
            part (codes "\n") (notes ascii pks user_keys names)
            ++ part blank_line (
                map
                  (statements ascii pks user_keys (at_link ascii (codes "@src")) (at_link ascii []))
                  (keep (is_asked ascii pks user_keys) names))))
    × ((t : Codes)
        → is_asked ascii pks user_keys t ≡ true
        → is_filled (conditions ascii user_keys (columns pks t)) ≡ true)
build_migration_sql_lem_example =
    build_migration_sql_lem ascii names pks user_keys (codes "@src") []
