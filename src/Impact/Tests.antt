-- ===== src/Impact/Tests.antt =====
-- Who calls a DBIO that one module uses.
use no_gada_automation.Base.{◌≡◌, refl, [], ◌∷◌, ◌++◌, some, arith, if◌then◌else◌}
use no_gada_automation.Text.{Codes, codes, same, mem, strip, update, add}
use no_gada_automation.CSource.{strip_comments}
use no_gada_automation.Refs.{ModuleType, dbio, scan_module_refs}
use no_gada_automation.Refs.Tests.{ascii}
use no_gada_automation.Source.{Fault, source_not_found, ok, raise, Reader, parse_module_path}
use no_gada_automation.Impact.{
  exited, CommandRunner, CallersResult, candidates, grep_files, visit_hit, visit_hits, find_callers,
}
use no_gada_automation.Impact.Callers.{callers, calls, find_callers_lem}

abbrev caller : Codes
caller = codes "/truap01dap1/proframe/proframe5.0/compile/RLG/src/module/M.c"

abbrev missing : Codes
missing = codes "/truap01dap1/proframe/proframe5.0/compile/RLG/src/batch/N.c"

abbrev two_files : CommandRunner
two_files = record {
  run = λ args. some (record {
    exit_code = exited 0;
    stdout = missing ++ (codes "\r\n" ++ (caller ++ codes "\n"));
  });
}

abbrev one_text : Reader
one_text = record {
  read =
      λ p. if same p caller then ok (codes "pfmDbioSelect(\"T_DS1\");") else raise source_not_found;
  listdir = λ p. raise source_not_found;
}

one_text-steady : (p : Codes) (e : Fault) → one_text.read p ≡ raise e → e ≡ source_not_found
one_text-steady p e h = ground arith

two_found : candidates two_files (strip ascii (codes " T_DS1")) [] ≡ some (missing ∷ caller ∷ [])
unfolding candidates grep_files
two_found = refl

find_callers_lem_example :
    (r : CallersResult) × (find_callers ascii dbio (codes " T_DS1") two_files one_text []
      ≡ some (ok r))
    × ((t : ModuleType) (id : Codes)
        → mem id (callers t r)
          ≡ calls ascii one_text []
              (record { ref_type = dbio; ref_id = strip ascii (codes " T_DS1") })
              t
              id
              (missing ∷ caller ∷ []))
find_callers_lem_example =
    find_callers_lem ascii dbio (codes " T_DS1") two_files one_text [] (missing ∷ caller ∷ [])
      one_text-steady two_found

one_caller :
    find_callers ascii dbio (codes " T_DS1") two_files one_text []
    ≡ some (ok (record { services = []; bizs = codes "M" ∷ []; batches = [] }))
unfolding find_callers candidates grep_files visit_hits visit_hit parse_module_path scan_module_refs
    strip_comments update strip add
one_caller = refl
