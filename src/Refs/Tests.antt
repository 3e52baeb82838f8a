-- ===== src/Refs/Tests.antt =====
-- A source with a reference of each type.
use no_gada_automation.Base.{
  ◌≡◌, refl, true, ◌||◌, ◌&&◌, List, [], ◌∷◌, ◌-◌, map, if◌then◌else◌, eqb, leb,
}
use no_gada_automation.Text.{Codes, codes, Python, other_category}
use no_gada_automation.CSource.{strip_comments}
use no_gada_automation.Refs.{dbio, service, batch, biz, Ref, all_matches, scan_module_refs}
use no_gada_automation.Refs.Found.{
  distinct, matched, scan_module_refs_lem, scan_module_refs-strip_comments,
}
use no_gada_automation.Refs.{seen_before}

-- Python on ASCII.
abbrev pub ascii : Python
ascii = record {
  is_word = λ c.
      (leb b'A' c && leb c b'Z')
      || (leb b'a' c && leb c b'z')
      || (leb b'0' c && leb c b'9')
      || eqb c b'_';
  is_space = λ c. eqb c b' ' || eqb c b'\n' || eqb c b'\t';
  is_digit = λ c. leb b'0' c && leb c b'9';
  is_blank = λ c. eqb c b' ' || eqb c b'\n' || eqb c b'\t';
  upper = map (λ c. if leb b'a' c && leb c b'z' then c - 32 else c);
  category = λ c. other_category;
}

abbrev text : Codes
text =
    codes
      "pfmDlCall(\"MP1\");pfmDbioSelect( \"T_VS1\");pfmDbio(\"T_VS1\");/*pfmDlCall(\"MP2\");*/pfmServiceModuleCall(&a,sizeof( SP1_IN ));c=\"BRLG1\";"

abbrev found : List Ref
found =
    record { ref_type = biz; ref_id = codes "MP1" }
    ∷ record { ref_type = dbio; ref_id = codes "T_VS1" }
    ∷ record { ref_type = service; ref_id = codes "SP1" }
    ∷ record { ref_type = batch; ref_id = codes "BRLG1" }
    ∷ []

found_refs : scan_module_refs ascii (codes "PCOM" ∷ codes "RLG" ∷ []) text ≡ found
unfolding scan_module_refs strip_comments
found_refs = refl

scan_module_refs_lem_example :
    (distinct (scan_module_refs ascii [] text) ≡ true)
    × ((r : Ref)
        → seen_before r (scan_module_refs ascii [] text)
          ≡ matched r (all_matches ascii [] (strip_comments text).0))
scan_module_refs_lem_example = scan_module_refs_lem ascii [] text

scan_module_refs-strip_comments_example :
    scan_module_refs ascii [] (strip_comments text).0 ≡ scan_module_refs ascii [] text
scan_module_refs-strip_comments_example = scan_module_refs-strip_comments ascii [] text
