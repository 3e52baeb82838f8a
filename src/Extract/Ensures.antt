-- ===== src/Extract/Ensures.antt =====
-- What a run guarantees, and the corpus that it runs on.
use no_gada_automation.Base.{◌≡◌, ◌⊎◌, inl, inr, true, List, ◌∷◌, none, arith}
use no_gada_automation.Text.{Codes, Python, mem}
use no_gada_automation.Refs.{ModuleType, Ref, seen_before, same_ref}
use no_gada_automation.Refs.Found.{same_ref→eq, same_ref_refl}
use no_gada_automation.Source.{ok, Reader}
use no_gada_automation.Dbio.{Parsers}
use no_gada_automation.Extract.{
  ExtractResult, Config, Run, done, failed, exhausted, and_then, load_refs,
}
use no_gada_automation.Extract.Members.{or_cases}

-- The run ends without an exception, in a state with the property.
abbrev pub Ensures : (ExtractResult → List Codes → Type 0) → Run → Type 0
Ensures P (done result visited) = P result visited
Ensures P (failed e) = ⊥
Ensures P exhausted = ⊥

pub Ensures-and_then :
    (P Q : ExtractResult → List Codes → Type 0) (m : Run) (f : ExtractResult → List Codes → Run)
    → Ensures P m
    → ((acc : ExtractResult) (v : List Codes) → P acc v → Ensures Q (f acc v))
    → Ensures Q (and_then m f)
Ensures-and_then P Q (done acc v) f h k = k acc v h
Ensures-and_then P Q (failed e) f h k = h
Ensures-and_then P Q exhausted f h k = h

pub Ensures-weaken :
    (P Q : ExtractResult → List Codes → Type 0) (m : Run)
    → ((acc : ExtractResult) (v : List Codes) → P acc v → Q acc v)
    → Ensures P m
    → Ensures Q m
Ensures-weaken P Q (done acc v) k h = k acc v h
Ensures-weaken P Q (failed e) k h = h
Ensures-weaken P Q exhausted k h = h

pub head_or_tail :
    (r s : Ref) (rs : List Ref)
    → seen_before r (s ∷ rs) ≡ true
    → (r ≡ s) ⊎ (seen_before r rs ≡ true)
head_or_tail r s rs h = elim (or_cases (same_ref r s) (seen_before r rs) h) [
  | inl e ↦ inl (same_ref→eq r s e)
  | inr m ↦ inr m
]

pub head_seen : (r : Ref) (rs : List Ref) → seen_before r (r ∷ rs) ≡ true
head_seen r rs = ground (arith, same_ref_refl r)

pub in_tail : (s r : Ref) (rs : List Ref) → seen_before s rs ≡ true → seen_before s (r ∷ rs) ≡ true
in_tail s r rs h = ground arith

-- The corpus: every reference of a source that is read on has its ID in the list.
abbrev pub Closed : Python → Parsers → Reader → Config → List Codes → Type 0
Closed Py X reader K ids =
    (t : ModuleType) (x : Codes) (refs : List Ref) (r : Ref)
    → load_refs Py X reader K none t x ≡ ok refs
    → seen_before r refs ≡ true
    → mem r.ref_id ids ≡ true
