-- ===== src/Extract/Sample.antt =====
-- A corpus with a cycle, a missing module, a DBIO and a batch.
use no_gada_automation.Base.{
  ◌≡◌, ◌⊎◌, inl, inr, refl, sym, ◌∙◌, ap, subst, true, false, List, [], ◌∷◌, ◌++◌, none, some,
  arith, if◌then◌else◌, Bool-cases,
}
use no_gada_automation.Text.{Codes, codes, same, mem}
use no_gada_automation.CSource.{strip_comments}
use no_gada_automation.Refs.{
  ModuleType, dbio, service, batch, biz, Ref, same_ref, seen_before, scan_module_refs,
}
use no_gada_automation.Refs.Tests.{ascii}
use no_gada_automation.Source.{
  Fetch, ok, raise, source_not_found, Reader, IsReader, or_else, ◌>>=◌, below_group,
  read_module_source,
}
use no_gada_automation.Dbio.{Parsers}
use no_gada_automation.Extract.{Config, load_refs}
use no_gada_automation.Extract.Spec.{Reached, first, next}
use no_gada_automation.Extract.Ensures.{Closed}
use no_gada_automation.Extract.Exact.{OneType}
use no_gada_automation.Extract.Members.{or_cases}
use no_gada_automation.Refs.Found.{same_ref→eq}

abbrev pub entry_text : Codes
entry_text = codes "pfmDlCall(\"A\",\"A\");"

abbrev pub cycle_text : Codes
cycle_text = codes "pfmDlCall(\"A\");pfmDlCall(\"M\");pfmDbioSelect(\"T_DS1\");x=\"BRLG1\";"

abbrev pub xml_text : Codes
xml_text = codes "<sqlString/>"

abbrev entry_path : Codes
entry_path = codes "/truap01dap1/proframe/proframe5.0/compile/RLG/src/serviceModule/S/S.c"

abbrev cycle_path : Codes
cycle_path = codes "/truap01dap1/proframe/proframe5.0/compile/RLG/src/module/A.c"

abbrev xml_path : Codes
xml_path = codes "/truap01dap1/proframe/proframe5.0/release/dbio/xml/pfmDbioT_DS1.xml"

abbrev read_file : Codes → Fetch Codes
read_file p =
    if same p entry_path
    then ok entry_text
    else if same p cycle_path
    then ok cycle_text
    else if same p xml_path
    then ok xml_text
    else raise source_not_found

abbrev pub server : Reader
server = record { read = read_file; listdir = λ p. ok (codes "RLG" ∷ []) }

pub server-IsReader : IsReader server
server-IsReader = record { reads = λ p e h. ground arith; lists = λ p e h. cc }

abbrev pub parsers : Parsers
parsers = record {
  extract_sql = λ xml. codes "SELECT" ∷ [];
  parse = λ sql.
      some (record { is_valid = true; cte_aliases = []; table_names = codes "emp" ∷ [] } ∷ []);
}

abbrev pub settings : Config
settings = record { excluded = []; group_map = []; resource_groups = codes "RLG" ∷ [] }

abbrev pub entry_refs : List Ref
entry_refs = record { ref_type = biz; ref_id = codes "A" } ∷ []

abbrev pub cycle_refs : List Ref
cycle_refs =
    record { ref_type = biz; ref_id = codes "A" }
    ∷ record { ref_type = biz; ref_id = codes "M" }
    ∷ record { ref_type = dbio; ref_id = codes "T_DS1" }
    ∷ record { ref_type = batch; ref_id = codes "BRLG1" }
    ∷ []

abbrev pub ids : List Codes
ids = codes "A" ∷ codes "M" ∷ codes "T_DS1" ∷ codes "BRLG1" ∷ []

-- The references of a file of the server.
abbrev Listed : Fetch (List Ref) → Type 0
Listed (ok refs) = (refs ≡ entry_refs) ⊎ (refs ≡ cycle_refs) ⊎ (refs ≡ [])
Listed (raise e) = Unit

scan : Codes → List Ref
unfolding scan_module_refs
scan text = scan_module_refs ascii (codes "RLG" ∷ []) text

file-Listed :
    (p : Codes) → Listed (or_else (read_file p) (raise source_not_found) >>= λ text. ok (scan text))
unfolding scan strip_comments
file-Listed p = elim (Bool-cases (same p entry_path)) [
  | inl e ↦ rw e (inl refl)
  | inr no_entry ↦ elim (Bool-cases (same p cycle_path)) [
    | inl e ↦ rw (no_entry, e) (inr (inl refl))
    | inr no_cycle ↦ elim (Bool-cases (same p xml_path)) [
      | inl e ↦ rw (no_entry, no_cycle, e) (inr (inr refl))
      | inr none_left ↦ rw (no_entry, no_cycle, none_left) tt
    ]
  ]
]

load-Listed :
    (t : ModuleType) (x : Codes) → Listed (load_refs ascii parsers server settings none t x)
unfolding load_refs read_module_source scan
load-Listed service x = file-Listed (
    below_group (codes "RLG")
      (codes "serviceModule" ++ (codes "/" ++ (x ++ (codes "/" ++ (x ++ codes ".c"))))))
load-Listed batch x =
    file-Listed (below_group (codes "RLG") (codes "batch" ++ (codes "/" ++ (x ++ codes ".c"))))
load-Listed biz x =
    file-Listed (below_group (codes "RLG") (codes "module" ++ (codes "/" ++ (x ++ codes ".c"))))
load-Listed dbio x = tt

-- What stands in the lists above.
abbrev type_of : Codes → ModuleType
type_of x = if same x (codes "T_DS1") then dbio else if same x (codes "BRLG1") then batch else biz

Known : Ref → Type 0
Known r = (mem r.ref_id ids ≡ true) × (r.ref_type ≡ type_of r.ref_id)

abbrev AllKnown : List Ref → Type 0
AllKnown [] = Unit
AllKnown (r ∷ rs) = Known r × AllKnown rs

one-Known : (r : Ref) (rs : List Ref) → AllKnown rs → seen_before r rs ≡ true → Known r
one-Known r [] k h = absurd (let c : false ≡ true = h in cc)
one-Known r (s ∷ rs) (k, ks) h = elim (or_cases (same_ref r s) (seen_before r rs) h) [
  | inl e ↦ subst (λ q. Known q) (sym (same_ref→eq r s e)) k
  | inr m ↦ one-Known r rs ks m
]

entry-Known : (r : Ref) → seen_before r entry_refs ≡ true → Known r
unfolding Known
entry-Known r = one-Known r entry_refs ((refl, refl), tt)

cycle-Known : (r : Ref) → seen_before r cycle_refs ≡ true → Known r
unfolding Known
cycle-Known r =
    one-Known r cycle_refs ((refl, refl), ((refl, refl), ((refl, refl), ((refl, refl), tt))))

list-Known : (refs : List Ref) (r : Ref) → Listed (ok refs) → seen_before r refs ≡ true → Known r
list-Known refs r (inl e) h = entry-Known r (ap (λ l. seen_before r l) (sym e) ∙ h)
list-Known refs r (inr (inl e)) h = cycle-Known r (ap (λ l. seen_before r l) (sym e) ∙ h)
list-Known refs r (inr (inr e)) h =
    absurd (let c : false ≡ true = ap (λ l. seen_before r l) (sym e) ∙ h in cc)

loaded-Known :
    (t : ModuleType) (x : Codes) (refs : List Ref) (r : Ref)
    → load_refs ascii parsers server settings none t x ≡ ok refs
    → seen_before r refs ≡ true
    → Known r
loaded-Known t x refs r e h = list-Known refs r (subst Listed e (load-Listed t x)) h

pub server-Closed : Closed ascii parsers server settings ids
unfolding Known
server-Closed t x refs r e h = (loaded-Known t x refs r e h).0

Reached-Known : {r : Ref} → Reached ascii parsers server settings (codes "S") entry_refs r → Known r
Reached-Known {r} (first seen kept other) = entry-Known r seen
Reached-Known {r} (next {p = q} {refs = refs} reached f found seen kept other) =
    loaded-Known q.ref_type q.ref_id refs r found seen

pub server-OneType : OneType ascii parsers server settings (codes "S") entry_refs
unfolding Known
server-OneType t u x h k = (Reached-Known h).1 ∙ sym (Reached-Known k).1

pub entry_known : (r : Ref) → seen_before r entry_refs ≡ true → mem r.ref_id ids ≡ true
unfolding Known
entry_known r h = (entry-Known r h).0

pub entry_found :
    load_refs ascii parsers server settings (some (codes "RLG")) service (codes "S") ≡ ok entry_refs
unfolding load_refs read_module_source scan_module_refs strip_comments
entry_found = refl
