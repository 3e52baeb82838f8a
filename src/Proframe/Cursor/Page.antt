-- ===== src/Proframe/Cursor/Page.antt =====
-- One page of a cursor loop: what holds between two pages and what holds within one.
use no_gada_automation.Base.{
  ℕ, zero, suc, ◌+◌, ◌≤◌, ◌<◌, ◌≡◌, refl, sym, ◌∙◌, subst, Bool, true, false, ◌⊎◌, some, List, [],
  ◌∷◌, ◌++◌, arith, get_elem?, length, length-append, append-nil, append_last, if◌then◌else◌,
}
use no_gada_automation.Proframe.Monad.{Rc, Pfm, Machine, Outcome, next, return, wild, hung, pure}
use no_gada_automation.Proframe.Cursor.{Loop, for_rows}
use no_gada_automation.Proframe.Cursor.Ensures.{Ensures, Ensures-bind, IsFaulty, Same}

get_elem?-append :
    {A : Type 0} (xs : List A) (x : A) (ys : List A)
    → get_elem? (xs ++ (x ∷ ys)) (length xs) ≡ some x
get_elem?-append [] x ys = refl
get_elem?-append (y ∷ xs) x ys = get_elem?-append xs x ys

module _ {P : Pfm} {F Row : Type 0} (size : ℕ) (B : Loop P F Row) (C : IsFaulty P size B.fetch)
    (all : List Row)
    -- what holds between two pages behind the rows so far, within a page of `cur` rows of which `ix`
    -- are visited, behind the loop, and of an early return
    (Between : List Row → Machine P F → Type 0)
    (Within : List Row → (cur ix : ℕ) → Machine P F → Type 0) (Final : Machine P F → Type 0)
    (R : Rc → Machine P F → Type 0) where
  abbrev pub Stepped : List Row → (cur ix : ℕ) → Row → Machine P F → Bool → Machine P F → Type 0
  Stepped seen cur ix row m true m' = Within (seen ++ (row ∷ [])) cur (ix + 1) m' × Same C m m'
  Stepped seen cur ix row m false m' = Final m'

  -- The size of a page, and the count of rows behind its fetch.
  abbrev pub PageOf : (cur tot : ℕ) → Type 0
  PageOf cur tot = ((cur ≡ size) × (tot ≤ length all)) ⊎ ((cur < size) × (tot ≡ length all))

  -- What the rule wants of the loop's parts. A page with `size` rows may be followed by another, one
  -- with fewer is the last.
  pub record IsPaged : Type 0 where
    pub enter :
        (seen rows : List Row) (cur : ℕ) (m : Machine P F)
        → Between seen m
        → Within seen cur 0 (record m { world = (B.fetch rows m.world).1 })
    pub visits :
        (seen : List Row) (row : Row) (rest : List Row)
        → seen ++ (row ∷ rest) ≡ all
        → (ix cur tot : ℕ) → ix < cur
        → length seen + cur ≡ tot + ix
        → PageOf cur tot
        → (m : Machine P F) → Within seen cur ix m
        → Ensures (Stepped seen cur ix row m) R (B.visit ix cur tot row m)
    pub full : (seen : List Row) (m : Machine P F) → Within seen size size m → Between seen m
    pub last : (cur : ℕ) (m : Machine P F) → cur < size → Within all cur cur m → Final m
    pub empty :
        (m : Machine P F) → all ≡ [] → Within [] 0 0 m → Ensures (λ _ _. ⊥) R (B.when_empty m)
    pub failed :
        (seen rows : List Row) (m : Machine P F)
        → C.broken m.world ≡ true
        → Between seen m
        → Ensures
            (λ _ _. ⊥)
            R
            (B.when_failed
              (B.fetch rows m.world).0.0
              (record m { world = (B.fetch rows m.world).1 }))

  abbrev pub AfterPage : List Row → ℕ → Machine P F → Bool → Machine P F → Type 0
  AfterPage seen cur m true m' = Within seen cur cur m' × Same C m m'
  AfterPage seen cur m false m' = Final m'

  module _ (keeps : IsPaged) where
    after_row :
        (seen : List Row) (row : Row) (page : List Row) (cur : ℕ) (m m' : Machine P F)
        (r : Outcome Bool × Machine P F)
        → Same C m m'
        → Ensures (AfterPage ((seen ++ (row ∷ [])) ++ page) cur m') R r
        → Ensures (AfterPage (seen ++ (row ∷ page)) cur m) R r
    after_row seen row page cur m m' (next true, m2) s h =
        (rw (← append_last seen row page) h.0, (h.1.0 ∙ s.0, h.1.1 ∙ s.1))
    after_row seen row page cur m m' (next false, m2) s h = h
    after_row seen row page cur m m' (return rc, m2) s h = h
    after_row seen row page cur m m' (wild, m2) s h = h
    after_row seen row page cur m m' (hung, m2) s h = h

    -- One page: `page` is what is left of the array's first `cur` rows, behind `before`.
    pub page_rule :
        (page before spare seen rest rows : List Row) (cur tot k ix : ℕ)
        → rows ≡ before ++ (page ++ spare)
        → length page ≡ k
        → length before ≡ ix
        → ix + k ≡ cur
        → length seen + cur ≡ tot + ix
        → PageOf cur tot
        → seen ++ (page ++ rest) ≡ all
        → (m : Machine P F) → Within seen cur ix m
        → Ensures (AfterPage (seen ++ page) cur m) R (for_rows B rows cur tot k ix m)
    unfolding for_rows
    page_rule [] before spare seen rest rows cur tot zero ix e lk lb lc lt end ea m i =
        let at_end : ix ≡ cur = omega arith in
        rw append-nil (subst (λ n. Within seen cur n m) at_end i, (refl, refl))
    page_rule [] before spare seen rest rows cur tot (suc k) ix e lk lb lc lt end ea m i =
        absurd (omega arith)
    page_rule (x ∷ page) before spare seen rest rows cur tot zero ix e lk lb lc lt end ea m i =
        absurd (omega arith)
    page_rule (x ∷ page) before spare seen rest rows cur tot (suc k) ix e lk lb lc lt end ea m i =
        rw (found, for_rows)
          (Ensures-bind (Stepped seen cur ix x m) (AfterPage (seen ++ (x ∷ page)) cur m) R
            (B.visit ix cur tot x)
            (λ go. if go then for_rows B rows cur tot k (ix + 1) else pure false) m
            (keeps.visits seen x (page ++ rest) ea ix cur tot (omega arith) lt end m i)
            (go_on λ m' i'.
              page_rule page (before ++ (x ∷ [])) spare (seen ++ (x ∷ [])) rest rows cur tot k
                (ix + 1) (e ∙ sym (append_last before x (page ++ spare))) (omega arith)
                (omega (arith, length-append before (x ∷ []))) (omega arith)
                (omega (arith, length-append seen (x ∷ []))) end
                (append_last seen x (page ++ rest) ∙ ea) m' i'))
      where
        found : get_elem? rows ix ≡ some x
        found = rw (e, ← lb) (get_elem?-append before x (page ++ spare))

        go_on :
            ((m' : Machine P F)
              → Within (seen ++ (x ∷ [])) cur (ix + 1) m'
              → Ensures
                  (AfterPage ((seen ++ (x ∷ [])) ++ page) cur m')
                  R
                  (for_rows B rows cur tot k (ix + 1) m'))
            → (go : Bool) (m' : Machine P F) → Stepped seen cur ix x m go m'
            → Ensures
                (AfterPage (seen ++ (x ∷ page)) cur m)
                R
                ((if go then for_rows B rows cur tot k (ix + 1) else pure false) m')
        go_on later false m' h = h
        go_on later true m' h = after_row seen x page cur m m' _ h.1 (later m' h.0)
