-- ===== src/Source/Tests.antt =====
-- A server with one module, in every group.
use no_gada_automation.Base.{
  ◌≡◌, refl, sym, ap, ◌∙◌, true, [], ◌∷◌, ◌++◌, none, some, arith, if◌then◌else◌,
}
use no_gada_automation.Text.{Codes, codes, same}
use no_gada_automation.Refs.{ModuleType, dbio, service, batch, biz}
use no_gada_automation.Source.{
  before_end, Fault, source_not_found, ok, raise, Reader, GroupMap, last_segment, compile_root,
  module_path, parse_module_path, build_group_map, read_module_source,
}
use no_gada_automation.Source.Path.{IsName, last_segment-module_path, parse_module_path-module_path}
use no_gada_automation.Source.Lookup.{has, in_listing, subdir_listing}
use no_gada_automation.Source.GroupMap.{IsListed, read_module_source-build_group_map}

IsName-group : IsName (codes "RLG")
IsName-group = record { filled = λ h. cc; no_slash = refl; no_newline = refl }

IsName-id : IsName (codes "SRLGR96602A")
IsName-id = record { filled = λ h. cc; no_slash = refl; no_newline = refl }

parse_module_path-module_path_example :
    parse_module_path (
      codes
        "/truap01dap1/proframe/proframe5.0/compile/RLG/src/serviceModule/SRLGR96602A/SRLGR96602A.c")
    ≡ some (service, codes "RLG", codes "SRLGR96602A")
unfolding module_path
parse_module_path-module_path_example =
    parse_module_path-module_path service (codes "RLG") (codes "SRLGR96602A")
      (codes
        "/truap01dap1/proframe/proframe5.0/compile/RLG/src/serviceModule/SRLGR96602A/SRLGR96602A.c")
      IsName-group IsName-id refl

-- Every file with the name `A.c` can be read, and every directory shows `A.c`.
abbrev one_module : Reader
one_module = record {
  read = λ p.
      if same (last_segment p) (codes "A.c") then ok (codes "x();") else raise source_not_found;
  listdir = λ p.
      if same p compile_root then ok (codes "PCS" ∷ codes "RLG" ∷ []) else ok (codes "A.c" ∷ []);
}

is_module : (id : Codes) → same (id ++ codes ".c") (codes "A.c") ≡ true → same id (codes "A") ≡ true
is_module [] h = cc
is_module (a ∷ []) h = ground arith
is_module (a ∷ b ∷ []) h = ground arith
is_module (a ∷ b ∷ c ∷ []) h = ground arith
is_module (a ∷ b ∷ c ∷ d ∷ id) h = ground arith

one_module-only_missing :
    (p : Codes) (e : Fault) → one_module.read p ≡ raise e → e ≡ source_not_found
one_module-only_missing p e h = ground arith

read_name :
    (p text : Codes) → one_module.read p ≡ ok text → same (last_segment p) (codes "A.c") ≡ true
read_name p text h = ground arith

shown_name : (id : Codes) → same id (codes "A") ≡ true → has id (codes "A.c" ∷ []) ≡ true
unfolding before_end
shown_name id h = rw h

one_module-shown :
    (t : ModuleType) (group id path text : Codes)
    → IsName id
    → module_path t group id ≡ ok path
    → one_module.read path ≡ ok text
    → in_listing id (subdir_listing one_module t group) ≡ true
unfolding module_path
one_module-shown t group id path text n p h =
    let at : same id (codes "A") ≡ true = is_module id (
      ap (λ x. same x (codes "A.c")) (sym (last_segment-module_path t group id path n.no_slash p))
      ∙ read_name path text h) in
    by_type t p (shown_name id at)
  where
    by_type :
        (u : ModuleType)
        → module_path u group id ≡ ok path
        → has id (codes "A.c" ∷ []) ≡ true
        → in_listing id (subdir_listing one_module u group) ≡ true
    by_type service q s = s
    by_type batch q s = s
    by_type biz q s = s
    by_type dbio q s = cc

one_module-IsListed : IsListed one_module
one_module-IsListed = record { only_missing = one_module-only_missing; shown = one_module-shown }

abbrev built : GroupMap
built = ((service, codes "A"), codes "PCS") ∷ ((biz, codes "A"), codes "PCS") ∷ []

one_built : build_group_map one_module ≡ ok built
unfolding build_group_map
one_built = refl

IsName-module : IsName (codes "A")
IsName-module = record { filled = λ h. cc; no_slash = refl; no_newline = refl }

read_module_source-build_group_map_example :
    read_module_source biz (codes "A") one_module none built
    ≡ read_module_source biz (codes "A") one_module none []
read_module_source-build_group_map_example =
    read_module_source-build_group_map one_module-IsListed (codes "A") IsName-module biz built
      one_built
