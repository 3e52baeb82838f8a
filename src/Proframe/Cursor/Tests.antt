-- ===== src/Proframe/Cursor/Tests.antt =====
-- A loop that collects what it visits.
use no_gada_automation.Base.{ℕ, ◌≡◌, refl, ap, sym, ◌∙◌, true, List, [], ◌∷◌, ◌++◌, arith}
use no_gada_automation.Proframe.Monad.{nrm, err, ◌>>◌, pure, leave, modify}
use no_gada_automation.Proframe.Cursor.{Loop, fetch_loop}
use no_gada_automation.Proframe.Cursor.Rule.{Ensures, fetch_loop_rule}
use no_gada_automation.Proframe.Cursor.Sample.{fetch_page, stored, page_cursor}

abbrev collect : Loop (stored ℕ) (List ℕ) ℕ
collect = record {
  fetch = fetch_page 2;
  when_empty = leave nrm;
  when_failed = λ _. leave err;
  visit = λ ix cur tot row. do
    modify (λ xs. xs ++ (row ∷ []))
    pure true;
}

abbrev five : List ℕ
five = 3 ∷ 1 ∷ 4 ∷ 1 ∷ 5 ∷ []

-- Three pages of two, the last of them with one row.
fetch_loop_rule_example :
    Ensures
      (λ _ m'. m'.frame ≡ five)
      (λ _ m'. m'.frame ≡ five)
      (fetch_loop collect 6 0 []
        (record { frame = []; world = record { left = five; count = 0 }; log = [] }))
fetch_loop_rule_example =
    fetch_loop_rule 2 collect (page_cursor 2) five (λ seen f. f ≡ seen) (λ f. f ≡ five)
      (λ _ m'. m'.frame ≡ five)
      (λ seen row rest e ix cur tot m i. (ap (λ xs. xs ++ (row ∷ [])) i, (refl, refl)))
      (omega arith) (λ f e. e) (λ m none_left e. e ∙ sym none_left) 6 0 [] []
      (record { frame = []; world = record { left = five; count = 0 }; log = [] }) (omega arith)
      refl refl refl refl
