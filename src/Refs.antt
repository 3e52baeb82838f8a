-- ===== src/Refs.antt =====
-- `scan_module_refs` of app/common/proframe/refs.py, with the four regular expressions as functions.
-- A pattern is tried at every position; each of the four has at most one way to match there, so no
-- backtracking is left. A resource group is taken as the text of its name.
pub mod Found
pub mod Tests
use no_gada_automation.Base.{
  ℕ, zero, suc, ◌+◌, ◌-◌, Bool, true, false, ◌&&◌, ◌||◌, List, [], ◌∷◌, ◌++◌, Option, none, some,
  leb, ltb, eqb, length, drop, take, if◌then◌else◌,
}
use no_gada_automation.Text.{Codes, codes, same, behind, span, Python}
use no_gada_automation.CSource.{strip_comments}

-- `Module_Type`
pub data ModuleType : Type 0 where
  dbio service batch biz : ModuleType

abbrev pub same_type : ModuleType → ModuleType → Bool
same_type dbio dbio = true
same_type service service = true
same_type batch batch = true
same_type biz biz = true
same_type _ _ = false

-- A pair `(ref_type, ref_id)`.
pub record Ref : Type 0 where
  pub ref_type : ModuleType
  pub ref_id : Codes

abbrev pub same_ref : Ref → Ref → Bool
same_ref r r' = same_type r.ref_type r'.ref_type && same r.ref_id r'.ref_id

abbrev pub Parsed : Type 0
Parsed = Option (Codes × Codes)

abbrev between : ℕ → ℕ → ℕ → Bool
between lo hi c = leb lo c && leb c hi

abbrev is_upper_or_digit : ℕ → Bool
is_upper_or_digit c = between b'A' b'Z' c || between b'0' b'9' c

abbrev is_letter : ℕ → Bool
is_letter c = between b'A' b'Z' c || between b'a' b'z' c

abbrev is_dbio_char : ℕ → Bool
is_dbio_char c = is_upper_or_digit c || eqb c b'_'

abbrev is_biz_char : ℕ → Bool
is_biz_char c = is_letter c || is_dbio_char c

-- `if some then ... else` on an `Option`
infixl 5 ◌>>=◌
abbrev ◌>>=◌ {ℓ κ} : {A : Type ℓ} {B : Type κ} → Option A → (A → Option B) → Option B
none >>= f = none
some a >>= f = f a

abbrev non_empty : Codes × Codes → Parsed
non_empty ([], rest) = none
non_empty (c ∷ run, rest) = some (c ∷ run, rest)

-- `([...]+)"`: the ID up to the closing quote, and what is behind the quote.
quoted : (ℕ → Bool) → Codes → Parsed
unfolding behind span
quoted p text = do
  (id, rest) ← non_empty (span p text)
  rest' ← behind (codes "\"") rest
  some (id, rest')

module _ (C : Python) where
  -- `_DBIO_RE`: pfmDbio\w*\(\s*"([A-Z0-9_]+)"
  pub match_dbio : Codes → Parsed
  unfolding behind span quoted
  match_dbio text = do
    name ← behind (codes "pfmDbio") text
    args ← behind (codes "(") (span C.is_word name).1
    arg ← behind (codes "\"") (span C.is_space args).1
    quoted is_dbio_char arg

  -- `_BIZ_RE`: pfmDlCall\(\s*"([A-Za-z0-9_]+)"
  pub match_biz : Codes → Parsed
  unfolding behind span quoted
  match_biz text = do
    args ← behind (codes "pfmDlCall(") text
    arg ← behind (codes "\"") (span C.is_space args).1
    quoted is_biz_char arg

  -- What stands before the `_IN` at the end of a word that begins with a letter.
  before_in : Codes × Codes → Parsed
  unfolding behind
  before_in ([], rest) = none
  before_in (c ∷ run, rest) = do
    _ ← behind (codes "_IN") (drop (length run - 3) run)
    if is_letter c then some (c ∷ take (length run - 3) run, rest) else none

  -- `sizeof\(\s*([A-Za-z]\w*)_IN\b`
  match_sizeof : Codes → Parsed
  unfolding behind span before_in
  match_sizeof text = do
    arg ← behind (codes "sizeof(") text
    before_in (span C.is_word (span C.is_space arg).1)

  -- `[\s\S]{0,300}?` before it: the first place that fits, at most `n` characters on.
  first_sizeof : ℕ → Codes → Parsed
  unfolding match_sizeof
  first_sizeof zero text = match_sizeof text
  first_sizeof (suc n) [] = match_sizeof []
  first_sizeof (suc n) (c ∷ cs) =
      let later = first_sizeof n cs in
      elim (match_sizeof (c ∷ cs)) [ some hit ↦ some hit | none ↦ later ]

  -- `_SERVICE_RE`
  pub match_service : Codes → Parsed
  unfolding behind first_sizeof
  match_service text = do args ← behind (codes "pfmServiceModuleCall(") text; first_sizeof 300 args

-- `"(Bg[A-Z0-9]+)"` for one group
match_group : Codes → Codes → Parsed
unfolding behind span quoted
match_group g text = do
  name ← behind (codes "\"B") text
  suffix ← behind g name
  (id, rest) ← quoted is_upper_or_digit suffix
  some (b'B' ∷ (g ++ id), rest)

-- `"(B(?:g1|g2|...)[A-Z0-9]+)"`; the first of the groups that fits. With no group nothing matches.
pub match_batch : List Codes → Codes → Parsed
unfolding match_group
match_batch [] text = none
match_batch (g ∷ gs) text =
    let later = match_batch gs text in
    elim (match_group g text) [ some hit ↦ some hit | none ↦ later ]

-- `pattern.finditer`: at each position, from left to right, behind the match before. The second
-- argument counts the characters of that match that are left.
pub find_all : (Codes → Parsed) → ModuleType → ℕ → ℕ → Codes → List (ℕ × Ref)
find_all m t pos skip [] = []
find_all m t pos (suc skip) (c ∷ cs) = find_all m t (pos + 1) skip cs
find_all m t pos zero (c ∷ cs) = elim (m (c ∷ cs)) [
  | none ↦ find_all m t (pos + 1) zero cs
  | some (id, rest) ↦
      (pos, record { ref_type = t; ref_id = id })
      ∷ find_all m t (pos + 1) (length cs - length rest) cs
]

-- `matches.sort(key=...)`, which is stable: an earlier match comes before a later one of its place.
pub insert_match : ℕ × Ref → List (ℕ × Ref) → List (ℕ × Ref)
insert_match (p, r) [] = (p, r) ∷ []
insert_match (p, r) ((q, s) ∷ ms) =
    let rest = insert_match (p, r) ms in if leb p q then (p, r) ∷ (q, s) ∷ ms else (q, s) ∷ rest

pub sort_matches : List (ℕ × Ref) → List (ℕ × Ref)
unfolding insert_match
sort_matches [] = []
sort_matches (m ∷ ms) = insert_match m (sort_matches ms)

abbrev pub seen_before : Ref → List Ref → Bool
seen_before r [] = false
seen_before r (s ∷ ss) = same_ref r s || seen_before r ss

-- The loop over the matches, with the set `seen`.
pub first_seen : List Ref → List (ℕ × Ref) → List Ref
first_seen seen [] = []
first_seen seen ((p, r) ∷ ms) =
    let known = seen_before r seen in
    let rest = first_seen (if known then seen else r ∷ seen) ms in if known then rest else r ∷ rest

-- The matches of the four patterns in a text without comments.
pub all_matches : Python → List Codes → Codes → List (ℕ × Ref)
unfolding find_all match_dbio match_biz match_service match_batch
all_matches C groups text =
    find_all (match_dbio C) dbio 0 0 text
    ++ (find_all (match_biz C) biz 0 0 text
        ++ (find_all (match_service C) service 0 0 text
            ++ find_all (match_batch groups) batch 0 0 text))

unfoldable pub scan_module_refs : Python → List Codes → Codes → List Ref
unfolding all_matches sort_matches first_seen
scan_module_refs C groups text =
    first_seen [] (sort_matches (all_matches C groups (strip_comments text).0))
