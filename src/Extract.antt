-- ===== src/Extract.antt =====
-- app/tools/data_migration/service.py: which tables a module uses, through all modules and DBIOs that
-- it reaches.
pub mod Spec
mod Members
pub mod Ends
pub mod Caught
pub mod Ensures
pub mod Found
pub mod Visit
pub mod Grown
pub mod Exact
pub mod Sample
pub mod Tests
use no_gada_automation.Base.{
  ℕ, zero, suc, Bool, true, false, not, ◌&&◌, List, [], ◌∷◌, ◌++◌, Option, none, some,
  if◌then◌else◌,
}
use no_gada_automation.Text.{Codes, Python, strip, mem, add, update, same}
use no_gada_automation.Refs.{ModuleType, dbio, service, batch, biz, Ref, scan_module_refs}
use no_gada_automation.Source.{
  Fault, key_error, is_source_fault, Fetch, ok, raise, ◌>>=◌, Reader, GroupMap, read_module_source,
}
use no_gada_automation.Dbio.{Parsers, dbio_referenced_tables}

-- The sets are kept sorted, so that `sorted` changes nothing.
pub record ExtractResult : Type 0 where
  pub tables : List Codes
  pub dbios : List Codes
  pub batches : List Codes
  pub services : List Codes
  pub bizs : List Codes

abbrev pub nothing : ExtractResult
nothing = record { tables = []; dbios = []; batches = []; services = []; bizs = [] }

-- Behind the call: the result with the set `visited` that all calls share, an exception, or no fuel.
pub data Run : Type 0 where
  done : ExtractResult → List Codes → Run
  failed : Fault → Run
  exhausted : Run

abbrev pub and_then : Run → (ExtractResult → List Codes → Run) → Run
and_then (done result visited) f = f result visited
and_then (failed e) f = failed e
and_then exhausted f = exhausted

-- `except (SourceNotFound, SourceError, UnknownSqlType, ExtractionError)`
abbrev pub is_caught : Fault → Bool
is_caught key_error = false
is_caught _ = true

-- The module itself, recorded when its source is read.
pub own : ModuleType → Codes → ExtractResult
own service id = record nothing { services = id ∷ [] }
own biz id = record nothing { bizs = id ∷ [] }
own _ id = nothing

-- The updates at the end of a round: the new result joins what the module has so far.
pub join : ExtractResult → ExtractResult → ExtractResult
join acc result = record {
  tables = update result.tables acc.tables;
  dbios = acc.dbios ++ result.dbios;
  batches = update result.batches acc.batches;
  services = update result.services acc.services;
  bizs = update result.bizs acc.bizs;
}

-- The configuration of a run: `excluded`, `group_map` and `resource_groups` are loaded once.
pub record Config : Type 0 where
  pub excluded : List Codes
  pub group_map : GroupMap
  pub resource_groups : List Codes

-- What `service.py` does not implement.
module _ (Py : Python) (X : Parsers) (reader : Reader) (K : Config) where
  unfoldable pub extract_from_dbio : Codes → Fetch ExtractResult
  extract_from_dbio id = do
    (tables, sql) ← dbio_referenced_tables Py X id reader
    ok (record nothing { tables = tables; dbios = id ∷ [] })

  -- The references of a module, if its source can be read.
  unfoldable pub load_refs : Option Codes → ModuleType → Codes → Fetch (List Ref)
  load_refs group t id = do
    text ← read_module_source t id reader group K.group_map
    ok (scan_module_refs Py K.resource_groups text)

  -- A round for a reference that is neither visited nor excluded; `visit` is the recursive call.
  pub follow_new : (Ref → List Codes → Run) → ModuleType → Codes → ExtractResult → List Codes → Run
  unfolding join extract_from_dbio
  follow_new visit batch x acc visited =
      done (record acc { batches = add x acc.batches }) (x ∷ visited)
  follow_new visit dbio x acc visited = elim (extract_from_dbio x) [
    | ok result ↦ done (join acc result) (x ∷ visited)
    | raise e ↦ if is_caught e then done acc (x ∷ visited) else failed e
  ]
  follow_new visit service x acc visited =
      and_then (visit (record { ref_type = service; ref_id = x }) visited)
        (λ result visited'. done (join acc result) visited')
  follow_new visit biz x acc visited =
      and_then (visit (record { ref_type = biz; ref_id = x }) visited)
        (λ result visited'. done (join acc result) visited')

  -- One round of the loop over the references.
  pub follow_ref : (Ref → List Codes → Run) → Ref → ExtractResult → List Codes → Run
  unfolding follow_new
  follow_ref visit r acc visited =
      if mem r.ref_id visited
      then done acc visited
      else if mem r.ref_id K.excluded
      then done acc (r.ref_id ∷ visited)
      else follow_new visit r.ref_type r.ref_id acc visited

  pub follow : (Ref → List Codes → Run) → List Ref → ExtractResult → List Codes → Run
  unfolding follow_ref
  follow visit [] acc visited = done acc visited
  follow visit (r ∷ rs) acc visited = and_then (follow_ref visit r acc visited) (follow visit rs)

  -- What follows the call of `read_module_source`.
  pub with_refs :
      (Ref → List Codes → Run) → Bool → ModuleType → Codes → List Codes → Fetch (List Ref) → Run
  unfolding own follow
  with_refs visit top_level t id visited (raise e) =
      if not top_level && is_source_fault e then done nothing visited else failed e
  with_refs visit top_level t id visited (ok refs) = follow visit refs (own t id) visited

  -- The recursion takes fuel for its depth. The call of a reference is not the top-level one and knows
  -- no group.
  pub visit : ℕ → Ref → List Codes → Run
  unfolding load_refs with_refs
  visit zero r visited = exhausted
  visit (suc fuel) r visited =
      with_refs (visit fuel) false r.ref_type r.ref_id (r.ref_id ∷ visited)
        (load_refs none r.ref_type r.ref_id)

  -- `extract_from_module` with `visited=None`
  pub extract_from_module : ℕ → ModuleType → Option Codes → Codes → Run
  unfolding load_refs with_refs visit
  extract_from_module fuel t group id =
      with_refs (visit fuel) true t id (id ∷ []) (load_refs group t id)

  abbrev without : List Codes → List Codes → List Codes
  without excluded [] = []
  without excluded (t ∷ ts) =
      let rest = without excluded ts in if mem t excluded then rest else t ∷ rest

  -- `extract`, with the excluded tables of the settings.
  pub extract : List Codes → ℕ → ModuleType → Option Codes → Codes → Run
  unfolding extract_from_module extract_from_dbio
  extract excluded_tables fuel dbio group id = elim (extract_from_dbio id) [
    | raise e ↦ failed e
    | ok result ↦ done (record result { tables = without excluded_tables result.tables }) []
  ]
  extract excluded_tables fuel t group id =
      and_then (extract_from_module fuel t group id) (λ result visited.
        done (record result { tables = without excluded_tables result.tables }) visited)
