-- ===== src/Source.antt =====
-- The reader of app/common/io/sftp.py as it is used, and app/common/proframe/module_source.py: where
-- the source of a module lies and how it is found.
pub mod Path
pub mod Faults
mod Lookup
pub mod GroupMap
pub mod Tests
use no_gada_automation.Base.{
  ℕ, ◌≡◌, Bool, true, false, not, ◌&&◌, List, [], ◌∷◌, ◌++◌, Option, none, some, eqb, if◌then◌else◌,
}
use no_gada_automation.Text.{Codes, codes, same, behind, span, all}
use no_gada_automation.Refs.{ModuleType, dbio, service, batch, biz, same_type}

-- The exceptions; `key_error` is Python's own.
pub data Fault : Type 0 where
  source_not_found source_error unknown_sql_type extraction_error key_error : Fault

pub data Fetch {ℓ} (A : Type ℓ) : Type ℓ where
  ok : A → Fetch A
  raise : Fault → Fetch A

infixl 5 ◌>>=◌
abbrev pub ◌>>=◌ {ℓ κ} : {A : Type ℓ} {B : Type κ} → Fetch A → (A → Fetch B) → Fetch B
ok a >>= f = f a
raise e >>= f = raise e

-- `try: return r` with `except SourceNotFound:` followed by the rest.
abbrev pub or_else {ℓ} : {A : Type ℓ} → Fetch A → Fetch A → Fetch A
or_else (ok x) later = ok x
or_else (raise source_not_found) later = later
or_else (raise e) later = raise e

-- `SourceReader`, on a server that does not change in between.
pub record Reader : Type 0 where
  pub read : Codes → Fetch Codes
  pub listdir : Codes → Fetch (List Codes)

abbrev pub is_source_fault : Fault → Bool
is_source_fault source_not_found = true
is_source_fault source_error = true
is_source_fault _ = false

-- The contract of `SourceReader`: `SourceNotFound` or `SourceError`, and no other exception.
pub record IsReader (reader : Reader) : Type 0 where
  pub reads : (p : Codes) (e : Fault) → reader.read p ≡ raise e → is_source_fault e ≡ true
  pub lists : (p : Codes) (e : Fault) → reader.listdir p ≡ raise e → is_source_fault e ≡ true

abbrev pub proframe_root : Codes
proframe_root = codes "/truap01dap1/proframe/proframe5.0"

abbrev pub compile_root : Codes
compile_root = proframe_root ++ codes "/compile"

-- `MODULE_SUBDIR[t]`
abbrev pub module_subdir : ModuleType → Fetch Codes
module_subdir service = ok (codes "serviceModule")
module_subdir batch = ok (codes "batch")
module_subdir biz = ok (codes "module")
module_subdir dbio = raise key_error

abbrev pub is_service : ModuleType → Bool
is_service service = true
is_service _ = false

pub relpath : ModuleType → Codes → Fetch Codes
relpath t id = do
  sub ← module_subdir t
  ok (
      if is_service t
      then sub ++ (codes "/" ++ (id ++ (codes "/" ++ (id ++ codes ".c"))))
      else sub ++ (codes "/" ++ (id ++ codes ".c")))

-- `COMPILE_ROOT/<group>/src/<rel>`
abbrev pub below_group : Codes → Codes → Codes
below_group group rel = compile_root ++ (codes "/" ++ (group ++ (codes "/src/" ++ rel)))

unfoldable pub module_path : ModuleType → Codes → Codes → Fetch Codes
unfolding relpath
module_path t group id = do rel ← relpath t id; ok (below_group group rel)

abbrev pub lacks : ℕ → Codes → Bool
lacks d = all (λ c. not (eqb c d))

-- The text before the given end.
unfoldable pub before_end : Codes → Codes → Option Codes
before_end end [] = if same [] end then some [] else none
before_end end (c ∷ cs) =
    let later = before_end end cs in
    if same (c ∷ cs) end
    then some []
    else elim later [ some front ↦ some (c ∷ front) | none ↦ none ]

-- `rest.rsplit("/", 1)[-1]`
unfoldable pub last_segment : Codes → Codes
last_segment [] = []
last_segment (c ∷ cs) = let later = last_segment cs in if lacks b'/' (c ∷ cs) then c ∷ cs else later

-- `(serviceModule|batch|module)/` and what follows it; the type is that of the directory.
subdir_of : Codes → Option (ModuleType × Codes)
unfolding behind
subdir_of text = elim (behind (codes "serviceModule/") text) [
  | some rest ↦ some (service, rest)
  | none ↦ elim (behind (codes "batch/") text) [
    | some rest ↦ some (batch, rest)
    | none ↦ elim (behind (codes "module/") text) [ some rest ↦ some (biz, rest) | none ↦ none ]
  ]
]

-- `(.+)\.c$`: `$` stands at the end or before a newline that ends the text.
stem : Codes → Option Codes
unfolding before_end
stem text = elim (before_end (codes ".c") text) [
  | some front ↦ some front
  | none ↦ before_end (codes ".c\n") text
]

named : Codes → ModuleType → Option Codes → Option (ModuleType × Codes × Codes)
unfolding last_segment
named group t none = none
named group t (some []) = none
named group t (some (c ∷ cs)) =
    if lacks b'\n' (c ∷ cs) then some (t, group, last_segment (c ∷ cs)) else none

in_group : Codes × Codes → Option (ModuleType × Codes × Codes)
unfolding behind subdir_of stem named
in_group ([], rest) = none
in_group (c ∷ group, rest) = elim (behind (codes "/src/") rest) [
  | none ↦ none
  | some rel ↦ elim (subdir_of rel) [
    | none ↦ none
    | some (t, file) ↦ named (c ∷ group) t (stem file)
  ]
]

unfoldable pub parse_module_path : Codes → Option (ModuleType × Codes × Codes)
unfolding behind span in_group
parse_module_path path = elim (behind (compile_root ++ codes "/") path) [
  | none ↦ none
  | some rest ↦ in_group (span (λ c. not (eqb c b'/')) rest)
]

-- `dict[tuple[str, str], str]`
abbrev pub GroupMap : Type 0
GroupMap = List ((ModuleType × Codes) × Codes)

-- `group_map.get((t, id))`
pub get : ModuleType → Codes → GroupMap → Option Codes
get t id [] = none
get t id (((u, x), group) ∷ m) = if same_type t u && same id x then some group else get t id m

-- The loop over the groups in which the first file that is there is read.
pub find_source : Reader → Codes → List Codes → Fetch Codes
find_source reader rel [] = raise source_not_found
find_source reader rel (group ∷ groups) =
    let later = find_source reader rel groups in or_else (reader.read (below_group group rel)) later

search_groups : Reader → ModuleType → Codes → Fetch Codes
unfolding relpath find_source
search_groups reader t id = do
  rel ← relpath t id
  groups ← reader.listdir compile_root
  find_source reader rel groups

-- The group that the map gives, and the search where that file is not there.
cached_source : Reader → ModuleType → Codes → Option Codes → Fetch Codes
unfolding search_groups module_path
cached_source reader t id none = search_groups reader t id
cached_source reader t id (some group) = do
  path ← module_path t group id
  or_else (reader.read path) (search_groups reader t id)

-- An empty map and none are the same, as in Python.
unfoldable pub read_module_source :
    ModuleType → Codes → Reader → Option Codes → GroupMap → Fetch Codes
unfolding module_path cached_source get
read_module_source t id reader (some group) m = do path ← module_path t group id; reader.read path
read_module_source t id reader none m = cached_source reader t id (get t id m)

-- `group_map.setdefault((t, id), group)`
pub set_default : ModuleType → Codes → Codes → GroupMap → GroupMap
set_default t id group [] = ((t, id), group) ∷ []
set_default t id group (((u, x), g) ∷ m) =
    let rest = set_default t id group m in
    if same_type t u && same id x then ((u, x), g) ∷ m else ((u, x), g) ∷ rest

-- `name[:-2] if name.endswith(".c") else name`
abbrev id_of : Codes → Codes
id_of name = elim (before_end (codes ".c") name) [ some front ↦ front | none ↦ name ]

abbrev starts_with_dot : Codes → Bool
starts_with_dot [] = false
starts_with_dot (c ∷ cs) = eqb c b'.'

-- The loop over the names in one directory.
pub add_names : ModuleType → Codes → List Codes → GroupMap → GroupMap
unfolding set_default before_end
add_names t group [] m = m
add_names t group (name ∷ names) m =
    add_names t group names (if starts_with_dot name then m else set_default t (id_of name) group m)

-- The loop over the groups for one type.
pub add_groups : Reader → ModuleType → List Codes → GroupMap → Fetch GroupMap
unfolding add_names
add_groups reader t [] m = ok m
add_groups reader t (group ∷ groups) m = do
  sub ← module_subdir t
  m' ←
      or_else (reader.listdir (below_group group sub) >>= λ names. ok (add_names t group names m))
        (ok m)
  add_groups reader t groups m'

unfoldable pub build_group_map : Reader → Fetch GroupMap
unfolding add_groups
build_group_map reader = do
  groups ← reader.listdir compile_root
  m ← add_groups reader service groups []
  add_groups reader biz groups m
