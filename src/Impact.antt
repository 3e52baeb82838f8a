-- ===== src/Impact.antt =====
-- `find_callers` of app/tools/impact_analysis/service.py, and `grep_files` of app/common/io/ssh.py, which
-- gives its candidates: which modules call a DBIO or a module.
pub mod Callers
pub mod Tests
use no_gada_automation.Base.{
  ℕ, Bool, true, false, not, ◌&&◌, ◌||◌, List, [], ◌∷◌, ◌++◌, Option, none, some, eqb, leb,
  if◌then◌else◌,
}
use no_gada_automation.Text.{Codes, codes, Python, same, update, strip}
use no_gada_automation.Refs.{
  ModuleType, dbio, service, batch, biz, Ref, seen_before, scan_module_refs,
}
use no_gada_automation.Source.{
  Fetch, ok, raise, ◌>>=◌, or_else, Reader, compile_root, parse_module_path,
}

-- `exit_code`; a command that a signal ends has a negative one.
pub data ExitCode : Type 0 where
  negative : ExitCode
  exited : ℕ → ExitCode

-- `stderr` only goes into the message of an error.
pub record CommandResult : Type 0 where
  pub exit_code : ExitCode
  pub stdout : Codes

-- `CommandRunner`, on a server that does not change in between: `none` is its `SshError`.
pub record CommandRunner : Type 0 where
  pub run : List Codes → Option CommandResult

-- Where `str.splitlines` ends a line.
abbrev is_line_end : ℕ → Bool
is_line_end c =
    (leb 10 c && leb c 13) || (leb 28 c && leb c 30) || eqb c 133 || eqb c 8232 || eqb c 8233

abbrev add_to_line : ℕ → List Codes → List Codes
add_to_line c [] = (c ∷ []) ∷ []
add_to_line c (l ∷ ls) = (c ∷ l) ∷ ls

-- The lines, with an empty one behind a last line's end and within `\r\n`.
abbrev pub split_lines : Codes → List Codes
split_lines [] = [] ∷ []
split_lines (c ∷ cs) =
    let rest = split_lines cs in if is_line_end c then [] ∷ rest else add_to_line c rest

-- `[line for line in lines if line]`
abbrev pub filled_lines : List Codes → List Codes
filled_lines [] = []
filled_lines (l ∷ ls) = let rest = filled_lines ls in if same l [] then rest else l ∷ rest

abbrev grep_flags : Bool → Bool → Codes
grep_flags word ignore_case =
    codes "-rlF" ++ ((if ignore_case then codes "i" else []) ++ (if word then codes "w" else []))

abbrev grepped : CommandResult → Option (List Codes)
grepped result = elim result.exit_code [
  | negative ↦ some (filled_lines (split_lines result.stdout))
  | exited n ↦
      if eqb n 1
      then some []
      else if leb 2 n
      then none
      else some (filled_lines (split_lines result.stdout))
]

-- `grep_files`: `none` is its `SshError`.
unfoldable pub grep_files : CommandRunner → Codes → Codes → Bool → Bool → Option (List Codes)
grep_files runner needle root word ignore_case =
    elim (runner.run (codes "grep" ∷ grep_flags word ignore_case ∷ needle ∷ root ∷ [])) [
      | none ↦ none
      | some result ↦ grepped result
    ]

abbrev append_hits : Option (List Codes) → Option (List Codes) → Option (List Codes)
append_hits (some xs) (some ys) = some (xs ++ ys)
append_hits _ _ = none

-- The loop over `resource_groups`.
abbrev grep_groups : CommandRunner → Codes → List Codes → Option (List Codes)
grep_groups searcher ident [] = some []
grep_groups searcher ident (group ∷ groups) =
    append_hits (grep_files searcher ident (compile_root ++ (codes "/" ++ group)) true true)
      (grep_groups searcher ident groups)

-- `hits`; without groups, `resource_groups` is the empty list.
pub candidates : CommandRunner → Codes → List Codes → Option (List Codes)
candidates searcher ident [] = grep_files searcher ident compile_root true true
candidates searcher ident (group ∷ groups) = grep_groups searcher ident (group ∷ groups)

pub record CallersResult : Type 0 where
  pub services : List Codes
  pub bizs : List Codes
  pub batches : List Codes

abbrev pub no_callers : CallersResult
no_callers = record { services = []; bizs = []; batches = [] }

abbrev pub put_caller : ModuleType → Codes → CallersResult → CallersResult
put_caller service id r = record r { services = r.services ++ (id ∷ []) }
put_caller biz id r = record r { bizs = r.bizs ++ (id ∷ []) }
put_caller batch id r = record r { batches = r.batches ++ (id ∷ []) }
put_caller dbio id r = r

-- A file that is read.
abbrev pub visit_text :
    Python → List Codes → Ref → ModuleType → Codes → CallersResult → Codes → CallersResult
visit_text Py groups wanted t id r src =
    if seen_before wanted (scan_module_refs Py groups src) then put_caller t id r else r

-- One round of the loop.
pub visit_hit : Python → Reader → List Codes → Ref → CallersResult → Codes → Fetch CallersResult
visit_hit Py reader groups wanted r path = elim (parse_module_path path) [
  | none ↦ ok r
  | some (t, group, id) ↦
      or_else (reader.read path >>= λ src. ok (visit_text Py groups wanted t id r src)) (ok r)
]

pub visit_hits :
    Python → Reader → List Codes → Ref → CallersResult → List Codes → Fetch CallersResult
visit_hits Py reader groups wanted r [] = ok r
visit_hits Py reader groups wanted r (path ∷ paths) =
    visit_hit Py reader groups wanted r path >>= λ next.
    visit_hits Py reader groups wanted next paths

-- `sorted(set(...))` of the three lists
abbrev pub sort_callers : CallersResult → CallersResult
sort_callers r = record {
  services = update r.services [];
  bizs = update r.bizs [];
  batches = update r.batches [];
}

-- `none` is the `SshError` of a search.
unfoldable pub find_callers :
    Python → ModuleType → Codes → CommandRunner → Reader → List Codes → Option (Fetch CallersResult)
find_callers Py ref_type ref_id searcher reader groups =
    let ident = strip Py ref_id in
    let wanted : Ref = record { ref_type = ref_type; ref_id = ident } in
    elim (candidates searcher ident groups) [
      | none ↦ none
      | some hits ↦
          some (visit_hits Py reader groups wanted no_callers hits >>= λ r. ok (sort_callers r))
    ]
