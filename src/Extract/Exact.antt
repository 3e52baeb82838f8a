-- ===== src/Extract/Exact.antt =====
-- The extraction from a module finds what is reached from it.
use no_gada_automation.Base.{◌≡◌, List}
use no_gada_automation.Text.{Codes, Python}
use no_gada_automation.Refs.{ModuleType, Ref}
use no_gada_automation.Source.{Reader}
use no_gada_automation.Dbio.{Parsers}
use no_gada_automation.Extract.{Config}
use no_gada_automation.Extract.Spec.{Reached}
use no_gada_automation.Extract.Ensures.{Ensures}

-- IDs that are reached belong to one type each.
abbrev pub OneType : Python → Parsers → Reader → Config → Codes → List Ref → Type 0
OneType Py X reader K top entry =
    (t u : ModuleType) (x : Codes)
    → Reached Py X reader K top entry (record { ref_type = t; ref_id = x })
    → Reached Py X reader K top entry (record { ref_type = u; ref_id = x })
    → t ≡ u
