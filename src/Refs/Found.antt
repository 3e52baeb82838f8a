-- ===== src/Refs/Found.antt =====
-- Which references a source has.
use no_gada_automation.Base.{
  ℕ, ◌≡◌, refl, ap, ◌∙◌, Bool, true, false, not, ◌&&◌, ◌||◌, List, [], ◌∷◌, arith, Bool-cases, inl,
  inr,
}
use no_gada_automation.Text.{Codes, same_iff, Python}
use no_gada_automation.CSource.{strip_comments}
use no_gada_automation.CSource.Again.{strip_comments_twice}
use no_gada_automation.Refs.{
  ModuleType, Ref, same_type, same_ref, all_matches, insert_match, sort_matches, seen_before,
  first_seen, scan_module_refs,
}

-- A match of the reference stands in the list.
abbrev pub matched : Ref → List (ℕ × Ref) → Bool
matched r [] = false
matched r ((p, s) ∷ ms) = same_ref r s || matched r ms

abbrev pub distinct : List Ref → Bool
distinct [] = true
distinct (r ∷ rs) = not (seen_before r rs) && distinct rs

matched-insert_match :
    (r : Ref) (p : ℕ) (s : Ref) (ms : List (ℕ × Ref))
    → matched r (insert_match (p, s) ms) ≡ same_ref r s || matched r ms
unfolding insert_match
matched-insert_match r p s [] = refl
matched-insert_match r p s ((q, t) ∷ ms) = ground (arith, matched-insert_match r p s ms)

matched-sort_matches : (r : Ref) (ms : List (ℕ × Ref)) → matched r (sort_matches ms) ≡ matched r ms
unfolding sort_matches
matched-sort_matches r [] = refl
matched-sort_matches r ((p, s) ∷ ms) =
    matched-insert_match r p s (sort_matches ms)
    ∙ ap (λ b. same_ref r s || b) (matched-sort_matches r ms)

same_type→eq : (t u : ModuleType) → same_type t u ≡ true → t ≡ u
same_type→eq ModuleType.dbio u h = ground arith
same_type→eq ModuleType.service u h = ground arith
same_type→eq ModuleType.batch u h = ground arith
same_type→eq ModuleType.biz u h = ground arith

pub same_ref→eq : (r s : Ref) → same_ref r s ≡ true → r ≡ s
same_ref→eq r s h = ground (arith, same_type→eq r.ref_type s.ref_type, same_iff r.ref_id s.ref_id)

seen_before_same :
    (r s : Ref) (seen : List Ref) → same_ref r s ≡ true → seen_before r seen ≡ seen_before s seen
seen_before_same r s seen h = ap (λ t. seen_before t seen) (same_ref→eq r s h)

known_bools :
    (alike seen found : Bool)
    → (alike ≡ true → seen ≡ true)
    → (not seen && found) ≡ (not seen && (alike || found))
known_bools false seen found h = refl
known_bools true true found h = refl
known_bools true false found h = let e : false ≡ true = h refl in cc

new_bools :
    (alike seen found : Bool)
    → (alike ≡ true → seen ≡ false)
    → (alike || (not (alike || seen) && found)) ≡ (not seen && (alike || found))
new_bools false seen found h = refl
new_bools true false found h = refl
new_bools true true found h = let e : true ≡ false = h refl in cc

-- Behind `seen`, exactly the references come that are matched and not in `seen`.
first_seen_mem :
    (r : Ref) (seen : List Ref) (ms : List (ℕ × Ref))
    → seen_before r (first_seen seen ms) ≡ not (seen_before r seen) && matched r ms
unfolding first_seen
first_seen_mem r seen [] = ground arith
first_seen_mem r seen ((p, s) ∷ ms) = elim (Bool-cases (seen_before s seen)) [
  | inl known ↦ rw known (
      first_seen_mem r seen ms
      ∙ known_bools (same_ref r s) (seen_before r seen) (matched r ms)
          (λ h. seen_before_same r s seen h ∙ known))
  | inr new ↦ rw new (
      ap (λ b. same_ref r s || b) (first_seen_mem r (s ∷ seen) ms)
      ∙ new_bools (same_ref r s) (seen_before r seen) (matched r ms)
          (λ h. seen_before_same r s seen h ∙ new))
]

pub same_ref_refl : (r : Ref) → same_ref r r ≡ true
same_ref_refl r = ground (arith, same_iff r.ref_id r.ref_id)

-- The references of a source are the matches of the four patterns outside its comments, and no others.
seen_before-scan_module_refs :
    (C : Python) (groups : List Codes) (text : Codes) (r : Ref)
    → seen_before r (scan_module_refs C groups text)
      ≡ matched r (all_matches C groups (strip_comments text).0)
unfolding scan_module_refs
seen_before-scan_module_refs C groups text r =
    first_seen_mem r [] (sort_matches (all_matches C groups (strip_comments text).0))
    ∙ matched-sort_matches r (all_matches C groups (strip_comments text).0)

first_seen-distinct : (seen : List Ref) (ms : List (ℕ × Ref)) → distinct (first_seen seen ms) ≡ true
unfolding first_seen
first_seen-distinct seen [] = refl
first_seen-distinct seen ((p, s) ∷ ms) = elim (Bool-cases (seen_before s seen)) [
  | inl known ↦ rw known (first_seen-distinct seen ms)
  | inr new ↦
      rw (new, first_seen_mem s (s ∷ seen) ms, same_ref_refl s) (first_seen-distinct (s ∷ seen) ms)
]

-- Each reference of a source comes once, and the references are exactly the matches of the four
-- patterns outside its comments.
pub scan_module_refs_lem :
    (C : Python) (groups : List Codes) (text : Codes)
    → (distinct (scan_module_refs C groups text) ≡ true)
      × ((r : Ref)
          → seen_before r (scan_module_refs C groups text)
            ≡ matched r (all_matches C groups (strip_comments text).0))
unfolding scan_module_refs
scan_module_refs_lem C groups text = (
  first_seen-distinct [] (sort_matches (all_matches C groups (strip_comments text).0)),
  seen_before-scan_module_refs C groups text,
)

-- Comments do not matter: a source has the references, in the same order, of what is left of it when
-- its comments are removed.
pub scan_module_refs-strip_comments :
    (C : Python) (groups : List Codes) (text : Codes)
    → scan_module_refs C groups (strip_comments text).0 ≡ scan_module_refs C groups text
unfolding scan_module_refs
scan_module_refs-strip_comments C groups text =
    ap (λ t. first_seen [] (sort_matches (all_matches C groups t)))
      (ap (λ p. p.0) (strip_comments_twice text))
