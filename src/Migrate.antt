-- ===== src/Migrate.antt =====
-- app/tools/data_migration/migrate.py: the DELETE and INSERT statements of a migration.
mod Lines
pub mod Sorted
pub mod Tests
use no_gada_automation.Base.{
  ℕ, Bool, true, false, not, ◌&&◌, ◌||◌, List, [], ◌∷◌, ◌++◌, Option, none, some, eqb,
  if◌then◌else◌,
}
use no_gada_automation.Text.{Codes, codes, Python, same, strip}
use no_gada_automation.Conditions.{KeyCond, literal, join_texts, find, split_columns}

-- `x.endswith(s)`
abbrev ends_with : Codes → Codes → Bool
ends_with [] s = same [] s
ends_with (c ∷ x) s = let later = ends_with x s in if same (c ∷ x) s then true else later

abbrev group_order : List Codes
group_order = codes "_BS" ∷ codes "_HT" ∷ codes "_MA" ∷ codes "_SM" ∷ codes "_TR" ∷ []

abbrev group_other : Codes
group_other = codes "기타"

abbrev first_suffix : Codes → List Codes → Codes
first_suffix up [] = group_other
first_suffix up (s ∷ ss) = if ends_with up s then s else first_suffix up ss

group_key : Python → Codes → Codes
group_key Py table = first_suffix (Py.upper table) group_order

abbrev drop_at : Codes → Codes
drop_at [] = []
drop_at (c ∷ x) = let rest = drop_at x in if eqb c b'@' then rest else c ∷ x

-- `_at`
pub at_link : Python → Codes → Codes
at_link Py link = let name = drop_at (strip Py link) in if same name [] then [] else b'@' ∷ name

-- `pk_map.get(t) or []`
abbrev pub columns : List (Codes × List Codes) → Codes → List Codes
columns pk_map t = elim (find t pk_map) [ some cols ↦ cols | none ↦ [] ]

abbrev and_lines : List Codes → Codes
and_lines [] = []
and_lines (c ∷ cs) = codes "\n   AND " ++ (c ++ and_lines cs)

abbrev where_clause : List Codes → Codes
where_clause [] = []
where_clause (c ∷ cs) = codes " WHERE " ++ (c ++ and_lines cs)

abbrev omitted_note : List Codes → Codes
omitted_note [] = []
omitted_note (o ∷ os) = codes "  (미입력 조건 제외: " ++ (join_texts (codes ", ") (o ∷ os) ++ codes ")")

-- `block`
pub block : Codes → Codes → Codes → List Codes → List Codes → Codes
block from_at to_at t conds omitted =
    codes "-- "
    ++ (t
        ++ (omitted_note omitted
            ++ (codes "\nDELETE FROM "
                ++ (t
                    ++ (to_at
                        ++ (codes "\n"
                            ++ (where_clause conds
                                ++ (codes ";\nINSERT INTO "
                                    ++ (t
                                        ++ (to_at
                                            ++ (codes "\nSELECT * FROM "
                                                ++ (t
                                                    ++ (from_at
                                                        ++ (codes "\n"
                                                            ++ (where_clause conds
                                                            ++ codes ";")))))))))))))))

-- `d.setdefault(k, []).append(v)`
abbrev append_to : Codes → Codes → List (Codes × List Codes) → List (Codes × List Codes)
append_to k v [] = (k, v ∷ []) ∷ []
append_to k v ((j, vs) ∷ d) =
    let rest = append_to k v d in if same k j then (j, vs ++ (v ∷ [])) ∷ d else (j, vs) ∷ rest

-- The variables of the loop over the tables.
pub record Lists : Type 0 where
  pub blocks : List Codes
  pub generated : List Codes
  pub skipped_list : List Codes
  pub no_pk_list : List Codes
  pub group_blocks : List (Codes × List Codes)
  pub group_tables : List (Codes × List Codes)

-- A table with primary-key columns.
with_conditions : Python → Codes → Codes → Codes → Lists → List Codes × List Codes → Lists
unfolding group_key
with_conditions Py from_at to_at t ls ([], omitted) = record ls {
  skipped_list = ls.skipped_list ++ (t ∷ []);
}
with_conditions Py from_at to_at t ls (c ∷ conds, omitted) =
    let b = block from_at to_at t (c ∷ conds) omitted in
    record ls {
      blocks = ls.blocks ++ (b ∷ []);
      generated = ls.generated ++ (t ∷ []);
      group_blocks = append_to (group_key Py t) b ls.group_blocks;
      group_tables = append_to (group_key Py t) t ls.group_tables;
    }

with_columns : Python → List (Codes × KeyCond) → Codes → Codes → Codes → Lists → List Codes → Lists
unfolding with_conditions split_columns
with_columns Py keys from_at to_at t ls [] = record ls { no_pk_list = ls.no_pk_list ++ (t ∷ []) }
with_columns Py keys from_at to_at t ls (col ∷ cols) =
    with_conditions Py from_at to_at t ls (split_columns Py keys (col ∷ cols))

pub each_table :
    Python
    → List (Codes × List Codes)
    → List (Codes × KeyCond)
    → Codes
    → Codes
    → Lists
    → List Codes
    → Lists
unfolding with_columns
each_table Py pk_map keys from_at to_at ls [] = ls
each_table Py pk_map keys from_at to_at ls (t ∷ ts) =
    each_table Py pk_map keys from_at to_at
      (with_columns Py keys from_at to_at t ls (columns pk_map t)) ts

pub record MigrationGroup : Type 0 where
  pub key : Codes
  pub sql : Codes
  pub tables : List Codes

pub record MigrationResult : Type 0 where
  pub sql : Codes
  pub generated : List Codes
  pub skipped : List Codes
  pub no_pk : List Codes
  pub groups : List MigrationGroup

abbrev pub blank_line : Codes
blank_line = codes "\n\n"

abbrev pub note : Codes → List Codes → List Codes
note head [] = []
note head (t ∷ ts) = (head ++ join_texts (codes ", ") (t ∷ ts)) ∷ []

abbrev pub part : Codes → List Codes → List Codes
part sep [] = []
part sep (x ∷ xs) = join_texts sep (x ∷ xs) ∷ []

-- The loop over `GROUP_ORDER + [GROUP_OTHER]`.
abbrev groups_of : Lists → List Codes → List MigrationGroup
groups_of ls [] = []
groups_of ls (k ∷ ks) =
    let rest = groups_of ls ks in
    elim (columns ls.group_blocks k) [
      | [] ↦ rest
      | b ∷ bs ↦
          record {
            key = k;
            sql = join_texts blank_line (b ∷ bs);
            tables = columns ls.group_tables k;
          }
          ∷ rest
    ]

abbrev pub no_lists : Lists
no_lists = record {
  blocks = [];
  generated = [];
  skipped_list = [];
  no_pk_list = [];
  group_blocks = [];
  group_tables = [];
}

unfoldable pub build_migration_sql :
    Python
    → List Codes
    → List (Codes × List Codes)
    → List (Codes × KeyCond)
    → Codes
    → Codes
    → MigrationResult
unfolding each_table at_link
build_migration_sql Py tables pk_map keys from_link to_link =
    let ls =
      each_table Py pk_map keys (at_link Py from_link) (at_link Py to_link) no_lists tables in
    record {
      sql = join_texts blank_line (
          part (codes "\n") (
            note (codes "-- (PK 정보 없어 제외) ") ls.no_pk_list
            ++ note (codes "-- (입력한 키가 없어 제외: 전체 삭제 방지) ") ls.skipped_list)
          ++ part blank_line ls.blocks);
      generated = ls.generated;
      skipped = ls.skipped_list;
      no_pk = ls.no_pk_list;
      groups = groups_of ls (group_order ++ (group_other ∷ []));
    }
