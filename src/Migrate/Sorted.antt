-- ===== src/Migrate/Sorted.antt =====
-- Which tables get statements, and which.
use no_gada_automation.Base.{
  ◌≡◌, refl, ap, sym, subst, ◌∙◌, Bool, true, false, not, ◌&&◌, List, [], ◌∷◌, ◌++◌, map,
  if◌then◌else◌, keep, append-nil, append_last,
}
use no_gada_automation.Text.{Codes, codes, Python}
use no_gada_automation.Conditions.{KeyCond, join_texts}
use no_gada_automation.Migrate.{
  at_link, columns, Lists, no_lists, with_conditions, with_columns, each_table, part, note,
  blank_line, build_migration_sql,
}
use no_gada_automation.Conditions.Asked.{
  any_asked, is_filled, conditions, left_out, split_columns-eq, is_filled-conditions,
}
use no_gada_automation.Migrate.Lines.{lines, block-eq-lines}

module _ (Py : Python) (pk_map : List (Codes × List Codes)) (keys : List (Codes × KeyCond)) where
  -- The three kinds of table.
  abbrev pub lacks_pk : Codes → Bool
  lacks_pk t = not (is_filled (columns pk_map t))

  abbrev pub lacks_keys : Codes → Bool
  lacks_keys t = is_filled (columns pk_map t) && not (any_asked Py keys (columns pk_map t))

  abbrev pub is_asked : Codes → Bool
  is_asked t = any_asked Py keys (columns pk_map t)

  -- The text that comes before the statements: the tables that are left out.
  abbrev pub notes : List Codes → List Codes
  notes tables =
      note (codes "-- (PK 정보 없어 제외) ") (keep lacks_pk tables)
      ++ note (codes "-- (입력한 키가 없어 제외: 전체 삭제 방지) ") (keep lacks_keys tables)

  -- The lines of a table: a comment, and two statements with all conditions of its columns.
  abbrev pub statements : Codes → Codes → Codes → Codes
  statements from_at to_at t =
      lines from_at to_at t (conditions Py keys (columns pk_map t))
        (left_out Py keys (columns pk_map t))

module _ (Py : Python) (pk_map : List (Codes × List Codes)) (keys : List (Codes × KeyCond))
    (from_at to_at : Codes) where
  -- What a list of tables adds to the variables of the loop.
  record Adds (ls ls' : Lists) (ts : List Codes) : Type 0 where
    blocks :
        ls'.blocks
        ≡ ls.blocks
          ++ map (statements Py pk_map keys from_at to_at) (keep (is_asked Py pk_map keys) ts)
    generated : ls'.generated ≡ ls.generated ++ keep (is_asked Py pk_map keys) ts
    skipped : ls'.skipped_list ≡ ls.skipped_list ++ keep (lacks_keys Py pk_map keys) ts
    no_pk : ls'.no_pk_list ≡ ls.no_pk_list ++ keep (lacks_pk Py pk_map keys) ts

  Adds-nil : (ls : Lists) → Adds ls ls []
  Adds-nil ls = record {
    blocks = sym (append-nil ls.blocks);
    generated = sym (append-nil ls.generated);
    skipped = sym (append-nil ls.skipped_list);
    no_pk = sym (append-nil ls.no_pk_list);
  }

  -- What one table adds, by its columns.
  abbrev one : Bool → Codes → List Codes
  one b t = if b then t ∷ [] else []

  record AddsOne (ls ls' : Lists) (t : Codes) (cols : List Codes) : Type 0 where
    blocks :
        ls'.blocks
        ≡ ls.blocks
          ++ one
              (any_asked Py keys cols)
              (lines from_at to_at t (conditions Py keys cols) (left_out Py keys cols))
    generated : ls'.generated ≡ ls.generated ++ one (any_asked Py keys cols) t
    skipped :
        ls'.skipped_list ≡ ls.skipped_list ++ one (is_filled cols && not (any_asked Py keys cols)) t
    no_pk : ls'.no_pk_list ≡ ls.no_pk_list ++ one (not (is_filled cols)) t

  conditions_lem :
      (t : Codes) (ls : Lists) (col : Codes) (cols conds omitted : List Codes)
      → conditions Py keys (col ∷ cols) ≡ conds
      → left_out Py keys (col ∷ cols) ≡ omitted
      → is_filled conds ≡ any_asked Py keys (col ∷ cols)
      → AddsOne ls (with_conditions Py from_at to_at t ls (conds, omitted)) t (col ∷ cols)
  unfolding with_conditions
  conditions_lem t ls col cols [] omitted e f h = record {
    blocks =
        sym (append-nil ls.blocks)
        ∙ ap
            (λ b.
              ls.blocks
              ++ one b (
                  lines from_at to_at t (conditions Py keys (col ∷ cols))
                    (left_out Py keys (col ∷ cols))))
            h;
    generated = sym (append-nil ls.generated) ∙ ap (λ b. ls.generated ++ one b t) h;
    skipped = ap (λ b. ls.skipped_list ++ one (not b) t) h;
    no_pk = sym (append-nil ls.no_pk_list);
  }
  conditions_lem t ls col cols (c ∷ conds) omitted e f h = record {
    blocks =
        ap (λ b. ls.blocks ++ (b ∷ [])) (block-eq-lines from_at to_at t c conds omitted)
        ∙ ap (λ cs. ls.blocks ++ (lines from_at to_at t cs omitted ∷ [])) (sym e)
        ∙ ap (λ os. ls.blocks ++ (lines from_at to_at t (conditions Py keys (col ∷ cols)) os ∷ []))
            (sym f)
        ∙ ap
            (λ b.
              ls.blocks
              ++ one b (
                  lines from_at to_at t (conditions Py keys (col ∷ cols))
                    (left_out Py keys (col ∷ cols))))
            h;
    generated = ap (λ b. ls.generated ++ one b t) h;
    skipped = sym (append-nil ls.skipped_list) ∙ ap (λ b. ls.skipped_list ++ one (not b) t) h;
    no_pk = sym (append-nil ls.no_pk_list);
  }

  columns_lem :
      (t : Codes) (ls : Lists) (cols : List Codes)
      → AddsOne ls (with_columns Py keys from_at to_at t ls cols) t cols
  unfolding with_columns
  columns_lem t ls [] = record {
    blocks = sym (append-nil ls.blocks);
    generated = sym (append-nil ls.generated);
    skipped = sym (append-nil ls.skipped_list);
    no_pk = refl;
  }
  columns_lem t ls (col ∷ cols) =
      subst (λ f. AddsOne ls (with_conditions Py from_at to_at t ls f) t (col ∷ cols))
        (sym (split_columns-eq Py keys (col ∷ cols)))
        (conditions_lem t ls col cols _ _ refl refl (is_filled-conditions Py keys (col ∷ cols)))

  one_append :
      (xs : List Codes) (b : Bool) (t : Codes) (rest : List Codes)
      → (xs ++ one b t) ++ rest ≡ xs ++ (elim b [ true ↦ t ∷ rest | false ↦ rest ])
  one_append xs true t rest = append_last xs t rest
  one_append xs false t rest = ap (λ ys. ys ++ rest) (append-nil xs)

  one_append_map :
      (xs : List Codes) (b : Bool) (t : Codes) (f : Codes → Codes) (rest : List Codes)
      → (xs ++ one b (f t)) ++ map f rest ≡ xs ++ map f (elim b [ true ↦ t ∷ rest | false ↦ rest ])
  one_append_map xs true t f rest = append_last xs (f t) (map f rest)
  one_append_map xs false t f rest = ap (λ ys. ys ++ map f rest) (append-nil xs)

  each_table_lem :
      (ts : List Codes) (ls : Lists) → Adds ls (each_table Py pk_map keys from_at to_at ls ts) ts
  unfolding each_table
  each_table_lem [] ls = Adds-nil ls
  each_table_lem (t ∷ ts) ls =
      let ls' = with_columns Py keys from_at to_at t ls (columns pk_map t) in
      let here = columns_lem t ls (columns pk_map t) in
      let later = each_table_lem ts ls' in
      record {
        blocks =
            later.blocks
            ∙ ap
                (λ xs.
                  xs
                  ++ map (statements Py pk_map keys from_at to_at)
                      (keep (is_asked Py pk_map keys) ts))
                here.blocks
            ∙ one_append_map ls.blocks (is_asked Py pk_map keys t) t
                (statements Py pk_map keys from_at to_at) (keep (is_asked Py pk_map keys) ts);
        generated =
            later.generated
            ∙ ap (λ xs. xs ++ keep (is_asked Py pk_map keys) ts) here.generated
            ∙ one_append ls.generated (is_asked Py pk_map keys t) t
                (keep (is_asked Py pk_map keys) ts);
        skipped =
            later.skipped
            ∙ ap (λ xs. xs ++ keep (lacks_keys Py pk_map keys) ts) here.skipped
            ∙ one_append ls.skipped_list (lacks_keys Py pk_map keys t) t
                (keep (lacks_keys Py pk_map keys) ts);
        no_pk =
            later.no_pk
            ∙ ap (λ xs. xs ++ keep (lacks_pk Py pk_map keys) ts) here.no_pk
            ∙ one_append ls.no_pk_list (lacks_pk Py pk_map keys t) t
                (keep (lacks_pk Py pk_map keys) ts);
      }

-- A table gets statements exactly if the user gave a usable value for one of its primary-key columns:
-- `generated`, `skipped` and `no_pk` are, in the order of the tables, those with such a value, those
-- with primary-key columns and no such value, and those without such columns. The text is a note on the
-- other tables and then, for each that is generated, a comment, a DELETE and an INSERT, each of the two
-- with a WHERE of the conditions for all columns with a usable value, joined by AND; there is at least
-- one, so that no DELETE comes without its WHERE.
pub build_migration_sql_lem :
    (Py : Python) (tables : List Codes) (pk_map : List (Codes × List Codes))
    (keys : List (Codes × KeyCond)) (from_link to_link : Codes)
    → ((build_migration_sql Py tables pk_map keys from_link to_link).generated
        ≡ keep (is_asked Py pk_map keys) tables)
      × ((build_migration_sql Py tables pk_map keys from_link to_link).skipped
          ≡ keep (lacks_keys Py pk_map keys) tables)
      × ((build_migration_sql Py tables pk_map keys from_link to_link).no_pk
          ≡ keep (lacks_pk Py pk_map keys) tables)
      × ((build_migration_sql Py tables pk_map keys from_link to_link).sql
          ≡ join_texts blank_line (
              part (codes "\n") (notes Py pk_map keys tables)
              ++ part blank_line (
                  map
                    (statements Py pk_map keys (at_link Py from_link) (at_link Py to_link))
                    (keep (is_asked Py pk_map keys) tables))))
      × ((t : Codes)
          → is_asked Py pk_map keys t ≡ true
          → is_filled (conditions Py keys (columns pk_map t)) ≡ true)
unfolding build_migration_sql
build_migration_sql_lem Py tables pk_map keys from_link to_link =
    let h =
      each_table_lem Py pk_map keys (at_link Py from_link) (at_link Py to_link) tables no_lists in
    (
      h.generated,
      h.skipped,
      h.no_pk,
      texts h.no_pk h.skipped h.blocks,
      λ t asked_for. is_filled-conditions Py keys (columns pk_map t) ∙ asked_for,
    )
  where
    texts :
        {none_pk none_pk' out out' stmts stmts' : List Codes}
        → none_pk ≡ none_pk'
        → out ≡ out'
        → stmts ≡ stmts'
        → join_texts blank_line (
            part (codes "\n") (
              note (codes "-- (PK 정보 없어 제외) ") none_pk
              ++ note (codes "-- (입력한 키가 없어 제외: 전체 삭제 방지) ") out)
            ++ part blank_line stmts)
          ≡ join_texts blank_line (
              part (codes "\n") (
                note (codes "-- (PK 정보 없어 제외) ") none_pk'
                ++ note (codes "-- (입력한 키가 없어 제외: 전체 삭제 방지) ") out')
              ++ part blank_line stmts')
    texts p q r = rw (p, q, r)
