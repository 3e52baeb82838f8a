-- ===== src/Source/GroupMap.antt =====
-- The map of groups only speeds the search for a source up.
use no_gada_automation.Base.{
  ◌≡◌, refl, sym, ap, ◌∙◌, true, false, List, [], ◌∷◌, Option, none, some, arith, if◌then◌else◌,
  Bool-cases, inl, inr,
}
use no_gada_automation.Text.{Codes}
use no_gada_automation.Refs.{ModuleType, dbio, service, batch, biz}
use no_gada_automation.Source.Path.{IsName}
use no_gada_automation.Source.{
  Fault, source_not_found, source_error, unknown_sql_type, extraction_error, key_error, Fetch, ok,
  raise, ◌>>=◌, or_else, Reader, GroupMap, compile_root, relpath, module_path, below_group, get,
  find_source, search_groups, cached_source, read_module_source, add_groups, build_group_map,
}
use no_gada_automation.Source.Lookup.{
  in_listing, subdir_listing, first_lister, >>=-eq-ok, first_some-none, get-add_groups,
}

-- A server that is reached, and whose directories show each ID under which a file can be read.
pub record IsListed (reader : Reader) : Type 0 where
  pub only_missing : (p : Codes) (e : Fault) → reader.read p ≡ raise e → e ≡ source_not_found
  pub shown :
      (t : ModuleType) (group id path text : Codes)
      → IsName id
      → module_path t group id ≡ ok path
      → reader.read path ≡ ok text
      → in_listing id (subdir_listing reader t group) ≡ true

-- Which group the map has for an ID: none for a batch.
mapped : Reader → ModuleType → Codes → List Codes → Option Codes
mapped reader service id groups = first_lister reader service id groups
mapped reader biz id groups = first_lister reader biz id groups
mapped reader _ id groups = none

get-build :
    (reader : Reader) (t : ModuleType) (id : Codes) (groups : List Codes) (m₁ m : GroupMap)
    → add_groups reader service groups [] ≡ ok m₁
    → add_groups reader biz groups m₁ ≡ ok m
    → get t id m ≡ mapped reader t id groups
unfolding mapped get
get-build reader dbio id groups m₁ m h k = ground (
  arith,
  get-add_groups reader dbio service id groups [] m₁ h,
  get-add_groups reader dbio biz id groups m₁ m k,
)
get-build reader service id groups m₁ m h k =
    get-add_groups reader service biz id groups m₁ m k
    ∙ first_some-none (get service id m₁)
    ∙ get-add_groups reader service service id groups [] m₁ h
get-build reader batch id groups m₁ m h k = ground (
  arith,
  get-add_groups reader batch service id groups [] m₁ h,
  get-add_groups reader batch biz id groups m₁ m k,
)
get-build reader biz id groups m₁ m h k = ground (
  arith,
  get-add_groups reader biz service id groups [] m₁ h,
  get-add_groups reader biz biz id groups m₁ m k,
)

or_else_twice {ℓ} : {A : Type ℓ} (r later : Fetch A) → or_else r (or_else r later) ≡ or_else r later
or_else_twice (ok x) later = refl
or_else_twice (raise source_not_found) later = refl
or_else_twice (raise source_error) later = refl
or_else_twice (raise unknown_sql_type) later = refl
or_else_twice (raise extraction_error) later = refl
or_else_twice (raise key_error) later = refl

module _ {reader : Reader} (L : IsListed reader) (id : Codes) (n : IsName id) where
  -- Behind a directory that does not show the ID there is nothing to read.
  not_shown :
      (t : ModuleType) (group path : Codes) (r : Fetch Codes)
      → module_path t group id ≡ ok path
      → reader.read path ≡ r
      → in_listing id (subdir_listing reader t group) ≡ false
      → r ≡ raise source_not_found
  not_shown t group path (ok text) p h hidden =
      absurd (let c : true ≡ false = sym (L.shown t group id path text n p h) ∙ hidden in cc)
  not_shown t group path (raise e) p h hidden = ap raise (L.only_missing path e h)

  -- Reading in the first group that shows the ID changes nothing for the search.
  find_lem :
      (t : ModuleType) (rel : Codes) (groups : List Codes)
      → ((group : Codes) → module_path t group id ≡ ok (below_group group rel))
      → (group : Codes) → first_lister reader t id groups ≡ some group
      → or_else (reader.read (below_group group rel)) (find_source reader rel groups)
        ≡ find_source reader rel groups
  unfolding find_source
  find_lem t rel [] paths group h = cc
  find_lem t rel (g ∷ groups) paths group h =
      elim (Bool-cases (in_listing id (subdir_listing reader t g))) [
        | inl shown ↦
            let here : g ≡ group =
              some_inj g group
                (ap (λ b. if b then some g else first_lister reader t id groups) (sym shown) ∙ h) in
            rw (← here)
              (or_else_twice (reader.read (below_group g rel)) (find_source reader rel groups))
        | inr hidden ↦
            let later =
              ap (λ b. if b then some g else first_lister reader t id groups) (sym hidden) ∙ h in
            rw
              (not_shown t g (below_group g rel) (reader.read (below_group g rel)) (paths g) refl
                hidden)
              (find_lem t rel groups paths group later)
      ]
    where
      some_inj : (a b : Codes) → some a ≡ some b → a ≡ b
      some_inj a b e = cc

  -- The search with what the map has, and without.
  cached_lem :
      (t : ModuleType) (rel : Codes) (groups : List Codes) (cached : Option Codes)
      → ((group : Codes) → module_path t group id ≡ ok (below_group group rel))
      → relpath t id ≡ ok rel
      → reader.listdir compile_root ≡ ok groups
      → first_lister reader t id groups ≡ cached
      → cached_source reader t id cached ≡ search_groups reader t id
  unfolding cached_source
  cached_lem t rel groups none paths r l h = refl
  cached_lem t rel groups (some group) paths r l h =
      let searched : search_groups reader t id ≡ find_source reader rel groups =
        unfold search_groups in rw (r, l) in
      rw (paths group, searched) (find_lem t rel groups paths group h)

  mapped_lem :
      (t : ModuleType) (groups : List Codes)
      → reader.listdir compile_root ≡ ok groups
      → cached_source reader t id (mapped reader t id groups) ≡ search_groups reader t id
  unfolding mapped relpath module_path
  mapped_lem dbio groups l = unfold cached_source in refl
  mapped_lem batch groups l = unfold cached_source in refl
  mapped_lem service groups l = cached_lem service _ groups _ (λ group. refl) refl l refl
  mapped_lem biz groups l = cached_lem biz _ groups _ (λ group. refl) refl l refl

  built_lem :
      (t : ModuleType) (r : Fetch (List Codes)) (m : GroupMap)
      → reader.listdir compile_root ≡ r
      → (r >>= λ groups.
          add_groups reader service groups [] >>= λ m₁. add_groups reader biz groups m₁)
        ≡ ok m
      → cached_source reader t id (get t id m) ≡ search_groups reader t id
  built_lem t (raise e) m l h = cc
  built_lem t (ok groups) m l h =
      let (m₁, services, bizs) =
        >>=-eq-ok (add_groups reader service groups []) (λ m₁. add_groups reader biz groups m₁) h in
      ap (cached_source reader t id) (get-build reader t id groups m₁ m services bizs)
      ∙ mapped_lem t groups l

  -- On a server that is reached and whose directories show each ID under which a file can be read, the
  -- map that `build_group_map` makes changes nothing: for every type and ID the source that is read with it, or
  -- the exception, is that of the search without a map, also where several groups have the ID, where a
  -- directory shows an ID that has no file, and for a batch, which the map leaves out.
  pub read_module_source-build_group_map :
      (t : ModuleType) (m : GroupMap)
      → build_group_map reader ≡ ok m
      → read_module_source t id reader none m ≡ read_module_source t id reader none []
  unfolding read_module_source build_group_map
  read_module_source-build_group_map t m h = built_lem t (reader.listdir compile_root) m refl h
