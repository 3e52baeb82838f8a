-- ===== src/Proposal/Listing/Landed.antt =====
-- Where node 26 of SRLGR96602A.c puts the rows of a listing.
use no_gada_automation.Base.{
  ℕ, suc, ◌+◌, ◌-◌, ◌*◌, ◌≤◌, ◌<◌, ◌≡◌, refl, ap, ◌∙◌, ◌⊎◌, inl, inr, List, [], ◌∷◌, ◌++◌, arith,
  ltb, length, set, get_elem?, length-set, get_elem?-set_ne, if◌then◌else◌, Bool-cases,
}
use Prim.Native.Nat.{◌/◌}

-- The count of rows behind the fetch that brings the row `i` of `n`, in pages of 100.
abbrev pub total_after : (n i : ℕ) → ℕ
total_after n i = if ltb n (100 * (i / 100 + 1)) then n else 100 * (i / 100 + 1)

-- The grid behind rows of which the first is the row `i` of `n`.
abbrev pub landed : {A : Type 0} → (n i : ℕ) → List A → List A → List A
landed n i [] grid = grid
landed n i (x ∷ xs) grid = landed n (suc i) xs (set grid (total_after n i) x)

-- How many of `n` rows are visited with a grid of `size` places: the pages before the count reaches it.
abbrev pub visited : (size n : ℕ) → ℕ
visited size n = if ltb n size then n else 100 * ((size - 1) / 100)

module _ {A : Type 0} where
  pub length-landed : (n i : ℕ) (xs grid : List A) → length (landed n i xs grid) ≡ length grid
  length-landed n i [] grid = refl
  length-landed n i (x ∷ xs) grid =
      length-landed n (suc i) xs (set grid (total_after n i) x)
      ∙ length-set grid (total_after n i) x

  pub landed-append_last :
      (n i : ℕ) (xs : List A) (x : A) (grid : List A)
      → landed n i (xs ++ (x ∷ [])) grid
        ≡ set (landed n i xs grid) (total_after n (i + length xs)) x
  landed-append_last n i [] x grid =
      let same : i ≡ i + 0 = omega arith in ap (λ j. set grid (total_after n j) x) same
  landed-append_last n i (y ∷ xs) x grid =
      let same : suc i + length xs ≡ i + suc (length xs) = omega arith in
      landed-append_last n (suc i) xs x (set grid (total_after n i) y)
      ∙ ap (λ j. set (landed n (suc i) xs (set grid (total_after n i) y)) (total_after n j) x) same

  -- The places before the first count are left as they are.
  pub landed_below :
      (n i p : ℕ) (xs grid : List A)
      → p < n
      → p < 100
      → get_elem? (landed n i xs grid) p ≡ get_elem? grid p
  landed_below n i p [] grid hn h = refl
  landed_below n i p (x ∷ xs) grid hn h =
      landed_below n (suc i) p xs (set grid (total_after n i) x) hn h
      ∙ get_elem?-set_ne grid (total_after n i) p x (ground arith)

-- The count behind a page: of a full one, and of the last.
pub total_after_full :
    (n j ix : ℕ) → ix < 100 → 100 * j + 100 ≤ n → total_after n (100 * j + ix) ≡ 100 * j + 100
total_after_full n j ix lt le =
    let same : (100 * j + ix) / 100 ≡ j = omega arith in rw same (ground arith)

pub total_after_last :
    (n j ix : ℕ) → ix < 100 → n < 100 * j + 100 → total_after n (100 * j + ix) ≡ n
total_after_last n j ix lt le =
    let same : (100 * j + ix) / 100 ≡ j = omega arith in rw same (ground arith)

pub visited_broken :
    (size n j : ℕ)
    → size ≤ n
    → (j ≡ 0) ⊎ (100 * j < size)
    → size ≤ 100 * j + 100
    → visited size n ≡ 100 * j
visited_broken size n j few (inl e) last =
    let same : (size - 1) / 100 ≡ j = omega arith in rw same (ground arith)
visited_broken size n j few (inr low) last =
    let same : (size - 1) / 100 ≡ j = omega arith in rw same (ground arith)

pub visited_all : (size n : ℕ) → (n ≡ 0) ⊎ (n < size) → visited size n ≡ n
visited_all size n (inl e) = elim (Bool-cases (ltb n size)) [
  | inl less ↦ rw less refl
  | inr more ↦ let none : size ≡ 0 = ground arith in rw (more, none) (omega arith)
]
visited_all size n (inr low) = ground arith
