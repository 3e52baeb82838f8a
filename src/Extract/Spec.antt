-- ===== src/Extract/Spec.antt =====
-- What an extraction should find.
use no_gada_automation.Base.{◌≡◌, ◌⊎◌, Bool, true, false, List, none}
use no_gada_automation.Text.{Codes, Python, mem, same}
use no_gada_automation.Refs.{ModuleType, dbio, service, batch, biz, Ref, seen_before}
use no_gada_automation.Source.{Reader, ok}
use no_gada_automation.Dbio.{Parsers}
use no_gada_automation.Extract.{ExtractResult, Config, extract_from_dbio, load_refs}

-- A module whose source is read on: a batch is not.
abbrev pub is_followed : ModuleType → Bool
is_followed service = true
is_followed biz = true
is_followed _ = false

-- One list of texts holds all of another.
abbrev pub Within : List Codes → List Codes → Type 0
Within xs ys = (x : Codes) → mem x xs ≡ true → mem x ys ≡ true

module _ (Py : Python) (X : Parsers) (reader : Reader) (K : Config) (top : Codes)
    (entry : List Ref) where
  -- A reference is reached from the entry module, whose ID is `top` and whose references are `entry`,
  -- if a chain of references leads to it through services and bizs that can be read, none of it
  -- excluded and none with the ID of the entry module.
  pub data Reached : Ref → Type 0 where
    first :
        {r : Ref}
        → seen_before r entry ≡ true
        → mem r.ref_id K.excluded ≡ false
        → same r.ref_id top ≡ false
        → Reached r
    next :
        {p r : Ref} {refs : List Ref}
        → Reached p
        → is_followed p.ref_type ≡ true
        → load_refs Py X reader K none p.ref_type p.ref_id ≡ ok refs
        → seen_before r refs ≡ true
        → mem r.ref_id K.excluded ≡ false
        → same r.ref_id top ≡ false
        → Reached r

  -- A module or batch that is reached, a module with a source that can be read.
  abbrev pub Batch : Codes → Type 0
  Batch x = Reached (record { ref_type = batch; ref_id = x })

  abbrev pub Module : ModuleType → Codes → Type 0
  Module t x =
      Reached (record { ref_type = t; ref_id = x })
      × ((refs : List Ref) × (load_refs Py X reader K none t x ≡ ok refs))

  -- A DBIO that is reached and gives a result.
  abbrev pub Dbio : Codes → ExtractResult → Type 0
  Dbio x result =
      Reached (record { ref_type = dbio; ref_id = x })
      × (extract_from_dbio Py X reader K x ≡ ok result)

  -- Everything in a result is reached.
  pub record Sound (t : ModuleType) (acc : ExtractResult) : Type 0 where
    pub tables :
        (x : Codes)
        → mem x acc.tables ≡ true
        → (d : Codes) × (result : ExtractResult) × Dbio d result × (mem x result.tables ≡ true)
    pub dbios : (x : Codes) → mem x acc.dbios ≡ true → (result : ExtractResult) × Dbio x result
    pub batches : (x : Codes) → mem x acc.batches ≡ true → Batch x
    pub services :
        (x : Codes) → mem x acc.services ≡ true → ((t ≡ service) × (x ≡ top)) ⊎ Module service x
    pub bizs : (x : Codes) → mem x acc.bizs ≡ true → ((t ≡ biz) × (x ≡ top)) ⊎ Module biz x

  -- The entry module and everything that is reached is in a result.
  pub record Complete (t : ModuleType) (acc : ExtractResult) : Type 0 where
    pub tables :
        (d : Codes) (result : ExtractResult) → Dbio d result → Within result.tables acc.tables
    pub dbios : (x : Codes) (result : ExtractResult) → Dbio x result → mem x acc.dbios ≡ true
    pub batches : (x : Codes) → Batch x → mem x acc.batches ≡ true
    pub services : (x : Codes) → Module service x → mem x acc.services ≡ true
    pub bizs : (x : Codes) → Module biz x → mem x acc.bizs ≡ true
    pub entry_service : t ≡ service → mem top acc.services ≡ true
    pub entry_biz : t ≡ biz → mem top acc.bizs ≡ true
