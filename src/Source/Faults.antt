-- ===== src/Source/Faults.antt =====
-- What a search for a source raises.
use no_gada_automation.Base.{◌≡◌, refl, Bool, true, false, List, [], ◌∷◌, Option, none, some}
use no_gada_automation.Text.{Codes}
use no_gada_automation.Refs.{ModuleType, dbio, service, batch, biz}
use no_gada_automation.Source.{
  source_not_found, source_error, unknown_sql_type, extraction_error, key_error, Fetch, ok, raise,
  Reader, IsReader, GroupMap, is_source_fault, ◌>>=◌, or_else, compile_root, below_group, relpath,
  find_source, search_groups, cached_source, get, read_module_source,
}

-- A result is a value or one of the reader's exceptions.
abbrev pub Raises {ℓ} : {A : Type ℓ} → Fetch A → Type 0
Raises (ok x) = Unit
Raises (raise e) = is_source_fault e ≡ true

pub >>=-Raises {ℓ κ} :
    {A : Type ℓ} {B : Type κ} (r : Fetch A) (f : A → Fetch B)
    → Raises r
    → ((a : A) → Raises (f a))
    → Raises (r >>= f)
>>=-Raises (ok a) f h k = k a
>>=-Raises (raise e) f h k = h

or_else-Raises {ℓ} :
    {A : Type ℓ} (r later : Fetch A) → Raises r → Raises later → Raises (or_else r later)
or_else-Raises (ok x) later h k = tt
or_else-Raises (raise source_not_found) later h k = k
or_else-Raises (raise source_error) later h k = h
or_else-Raises (raise unknown_sql_type) later h k = h
or_else-Raises (raise extraction_error) later h k = h
or_else-Raises (raise key_error) later h k = h

module _ {reader : Reader} (R : IsReader reader) where
  by_read : (p : Codes) (r : Fetch Codes) → reader.read p ≡ r → Raises r
  by_read p (ok x) h = tt
  by_read p (raise e) h = R.reads p e h

  pub read-Raises : (p : Codes) → Raises (reader.read p)
  read-Raises p = by_read p (reader.read p) refl

  by_listdir : (p : Codes) (r : Fetch (List Codes)) → reader.listdir p ≡ r → Raises r
  by_listdir p (ok x) h = tt
  by_listdir p (raise e) h = R.lists p e h

  find_source-Raises : (rel : Codes) (groups : List Codes) → Raises (find_source reader rel groups)
  unfolding find_source
  find_source-Raises rel [] = refl
  find_source-Raises rel (g ∷ groups) =
      or_else-Raises (reader.read (below_group g rel)) (find_source reader rel groups)
        (read-Raises (below_group g rel)) (find_source-Raises rel groups)

  searched-Raises :
      (rel : Codes)
      → Raises (reader.listdir compile_root >>= λ groups. find_source reader rel groups)
  searched-Raises rel =
      >>=-Raises (reader.listdir compile_root) (λ groups. find_source reader rel groups)
        (by_listdir compile_root (reader.listdir compile_root) refl) (find_source-Raises rel)

  -- A type with a directory.
  abbrev pub has_subdir : ModuleType → Bool
  has_subdir dbio = false
  has_subdir _ = true

  search_groups-Raises :
      (t : ModuleType) (id : Codes) → has_subdir t ≡ true → Raises (search_groups reader t id)
  unfolding search_groups relpath
  search_groups-Raises service id h = searched-Raises _
  search_groups-Raises batch id h = searched-Raises _
  search_groups-Raises biz id h = searched-Raises _
  search_groups-Raises dbio id h = cc

  cached_source-Raises :
      (t : ModuleType) (id : Codes) (cached : Option Codes)
      → has_subdir t ≡ true
      → Raises (cached_source reader t id cached)
  unfolding cached_source
  cached_source-Raises t id none h = search_groups-Raises t id h
  cached_source-Raises service id (some g) h =
      or_else-Raises (reader.read _) _ (read-Raises _) (search_groups-Raises service id refl)
  cached_source-Raises batch id (some g) h =
      or_else-Raises (reader.read _) _ (read-Raises _) (search_groups-Raises batch id refl)
  cached_source-Raises biz id (some g) h =
      or_else-Raises (reader.read _) _ (read-Raises _) (search_groups-Raises biz id refl)
  cached_source-Raises dbio id (some g) h = cc

  -- For a service, a batch or a biz, only the reader's exceptions come through.
  pub read_module_source-Raises :
      (t : ModuleType) (id : Codes) (m : GroupMap)
      → has_subdir t ≡ true
      → Raises (read_module_source t id reader none m)
  unfolding read_module_source
  read_module_source-Raises t id m h = cached_source-Raises t id (get t id m) h
