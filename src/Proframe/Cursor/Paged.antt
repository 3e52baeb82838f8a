-- ===== src/Proframe/Cursor/Paged.antt =====
-- The rule of the cursor loop, for a cursor that delivers its rows page by page, with what holds
-- between two pages and what holds within one.
use no_gada_automation.Base.{
  ℕ, zero, suc, ◌+◌, ◌-◌, ◌≤◌, ◌<◌, ◌≡◌, ◌≢◌, refl, sym, ap, ◌∙◌, subst, Bool, true, false, ◌&&◌,
  inl, inr, List, [], ◌++◌, arith, eqb, leb, length, take, drop, length-append, length-eq-zero,
  append-nil, append_assoc, length-take, length-drop, take-append-drop, if◌then◌else◌, Bool-cases,
}
use no_gada_automation.Proframe.Monad.{Rc, nrm, nfd, Pfm, Machine, M, ◌>>=◌, pure}
use no_gada_automation.Proframe.Cursor.{Loop, for_rows, after_fetch, fetch_loop}
pub use no_gada_automation.Proframe.Cursor.Page.{PageOf, Stepped, IsPaged, AfterPage, page_rule}
use no_gada_automation.Proframe.Cursor.Ensures.{Ensures, Ensures-bind, IsFaulty, Same}

module _ {P : Pfm} {F Row : Type 0} (size : ℕ) (B : Loop P F Row) (C : IsFaulty P size B.fetch)
    (all : List Row)
    -- what holds between two pages behind the rows so far, within a page of `cur` rows of which `ix`
    -- are visited, behind the loop, and of an early return
    (Between : List Row → Machine P F → Type 0)
    (Within : List Row → (cur ix : ℕ) → Machine P F → Type 0) (Final : Machine P F → Type 0)
    (R : Rc → Machine P F → Type 0) where
  after_fetch-eq-when_failed :
      (rc : Rc) (n : ℕ) → rc ≢ nrm → rc ≢ nfd → after_fetch B rc n ≡ B.when_failed rc
  unfolding after_fetch
  after_fetch-eq-when_failed nrm n h k = absurd (h refl)
  after_fetch-eq-when_failed nfd n h k = absurd (k refl)
  after_fetch-eq-when_failed _ n h k = refl

  module _ (keeps : IsPaged size B C all Between Within Final R) where
    -- The part of a round behind the fetch: the page's rows, and another round if there may be one.
    round_rule :
        (again : M P F (Unit {0})) (more : Bool) (page spare seen rest rows : List Row)
        (n tot cur : ℕ)
        → rows ≡ page ++ spare
        → length page ≡ cur
        → n - tot ≡ cur
        → length seen + cur ≡ n
        → PageOf size B C all Between Within Final R cur n
        → seen ++ (page ++ rest) ≡ all
        → (m : Machine P F) → Within seen cur 0 m
        → ((m' : Machine P F)
            → more ≡ true
            → Within (seen ++ page) cur cur m'
            → Same C m m'
            → Ensures (λ _ m2. Final m2) R (again m'))
        → ((m' : Machine P F) → more ≡ false → Within (seen ++ page) cur cur m' → Final m')
        → Ensures
            (λ _ m2. Final m2)
            R
            ((for_rows B rows (n - tot) n (n - tot) 0 >>= λ on.
                if more && on then again else pure tt)
              m)
    round_rule again more page spare seen rest rows n tot cur e lp ln lt end ea m i later finish =
        rw ln (
          Ensures-bind (AfterPage size B C all Between Within Final R (seen ++ page) cur m)
            (λ _ m2. Final m2) R (for_rows B rows cur n cur 0)
            (λ on. if more && on then again else pure tt) m
            (page_rule size B C all Between Within Final R keeps page [] spare seen rest rows cur n
              cur 0 e lp refl (omega arith) (omega (arith, lt)) end ea m i)
            (decide more later finish))
      where
        decide :
            (more : Bool)
            → ((m' : Machine P F)
                → more ≡ true
                → Within (seen ++ page) cur cur m'
                → Same C m m'
                → Ensures (λ _ m2. Final m2) R (again m'))
            → ((m' : Machine P F) → more ≡ false → Within (seen ++ page) cur cur m' → Final m')
            → (on : Bool) (m' : Machine P F)
            → AfterPage size B C all Between Within Final R (seen ++ page) cur m on m'
            → Ensures (λ _ m2. Final m2) R ((if more && on then again else pure tt) m')
        decide true later finish true m' h = later m' refl h.0 h.1
        decide true later finish false m' h = h
        decide false later finish true m' h = finish m' refl h.0
        decide false later finish false m' h = h

    last_round :
        (again : M P F (Unit {0})) (page spare seen rows : List Row) (n tot : ℕ)
        → rows ≡ page ++ spare
        → n ≡ tot + length page
        → length page < size
        → length seen ≡ tot
        → seen ++ page ≡ all
        → (m : Machine P F) → Within seen (length page) 0 m
        → Ensures
            (λ _ m2. Final m2)
            R
            ((after_fetch B nfd n >>= λ more. for_rows B rows (n - tot) n (n - tot) 0 >>= λ on.
                if more && on then again else pure tt)
              m)
    unfolding after_fetch
    last_round again page spare seen rows n tot e ln lp ls ea m i = elim (Bool-cases (eqb n 0)) [
      | inl none_at_all ↦
          let no_seen : seen ≡ [] = length-eq-zero seen (ground arith) in
          let no_page : page ≡ [] = length-eq-zero page (ground arith) in
          rw none_at_all (
            Ensures-bind (λ _ _. ⊥) (λ _ m2. Final m2) R B.when_empty
              (λ more. for_rows B rows (n - tot) n (n - tot) 0 >>= λ on.
                if more && on then again else pure tt)
              m
              (keeps.empty m (sym ea ∙ rw (no_seen, no_page) refl) (
                subst (λ s. Within s 0 0 m) no_seen
                  (subst (λ p. Within seen (length p) 0 m) no_page i)))
              (λ _ _ h. absurd h))
      | inr some_rows ↦ rw some_rows (
          round_rule again false page spare seen [] rows n tot (length page) e refl (omega arith)
            (omega arith) (inr (lp, omega (arith, ap length ea, length-append seen page)))
            (rw append-nil ea) m i (λ _ h. cc)
            (λ m' _ h.
              keeps.last (length page) m' lp
                (subst (λ s. Within s (length page) (length page) m') ea h)))
    ]

    -- The loop, with more fuel than rows left and a right count of those seen.
    pub paged_rule :
        (fuel tot : ℕ) (rows seen : List Row) (m : Machine P F)
        → 0 < size
        → length (C.pending m.world) < fuel
        → tot ≡ C.delivered m.world
        → length seen ≡ tot
        → seen ++ C.pending m.world ≡ all
        → Between seen m
        → Ensures (λ _ m'. Final m') R (fetch_loop B fuel tot rows m)
    unfolding fetch_loop after_fetch
    paged_rule zero tot rows seen m hp hf ht hs ea i = absurd (omega arith)
    paged_rule (suc fuel) tot rows seen m hp hf ht hs ea i = elim (Bool-cases (C.broken m.world)) [
      | inl down ↦
          let q = C.fails rows m.world down in
          let w = (B.fetch rows m.world).1 in
          let rows' = (B.fetch rows m.world).0.1 in
          let n = P.recnum w in
          rw (after_fetch-eq-when_failed (B.fetch rows m.world).0.0 n q.0 q.1) (
            Ensures-bind (λ _ _. ⊥) (λ _ m'. Final m') R (B.when_failed (B.fetch rows m.world).0.0)
              (λ more. for_rows B rows' (n - tot) n (n - tot) 0 >>= λ on.
                if more && on then fetch_loop B fuel n rows' else pure tt)
              (record m { world = w }) (keeps.failed seen rows m down i) (λ _ _ h. absurd h))
      | inr sound ↦ elim (Bool-cases (leb size (length (C.pending m.world)))) [
        | inl many ↦
            let enough : size ≤ length (C.pending m.world) = ground arith in
            let q = C.full_page rows m.world sound enough in
            let w = (B.fetch rows m.world).1 in
            let rows' = (B.fetch rows m.world).0.1 in
            let page = take size (C.pending m.world) in
            rw q.0 (
              round_rule (fetch_loop B fuel (P.recnum w) rows') true page (drop size rows') seen
                (drop size (C.pending m.world)) rows' (P.recnum w) tot size
                (sym (take-append-drop size rows') ∙ ap (λ t. t ++ drop size rows') q.1)
                (omega (arith, length-take size (C.pending m.world)))
                (omega (arith, C.counted rows m.world sound, q.3))
                (omega (arith, C.counted rows m.world sound, q.3))
                (inl (
                  refl,
                  omega (
                    arith,
                    C.counted rows m.world sound,
                    q.3,
                    ap length ea,
                    length-append seen (C.pending m.world),
                  ),
                ))
                (rw (take-append-drop size (C.pending m.world)) ea) (record m { world = w })
                (keeps.enter seen rows size m i)
                (λ m' _ i' same.
                  paged_rule fuel (P.recnum w) rows' (seen ++ page) m' hp
                    (omega (
                      arith,
                      ap length same.0,
                      ap length q.2,
                      length-drop size (C.pending m.world),
                    ))
                    (C.counted rows m.world sound ∙ sym same.1)
                    (omega (
                      arith,
                      length-append seen page,
                      length-take size (C.pending m.world),
                      C.counted rows m.world sound,
                      q.3,
                    ))
                    (rw (same.0 ∙ q.2, append_assoc, take-append-drop size (C.pending m.world)) ea)
                    (keeps.full (seen ++ page) m' i'))
                (λ _ h. cc))
        | inr fewer ↦
            let few : length (C.pending m.world) < size = ground arith in
            let q = C.last_page rows m.world sound few in
            let w = (B.fetch rows m.world).1 in
            let rows' = (B.fetch rows m.world).0.1 in
            let n = length (C.pending m.world) in
            rw q.0 (
              last_round (fetch_loop B fuel (P.recnum w) rows') (C.pending m.world) (drop n rows')
                seen rows' (P.recnum w) tot
                (sym (take-append-drop n rows') ∙ ap (λ t. t ++ drop n rows') q.1)
                (omega (arith, C.counted rows m.world sound, q.3)) few hs ea
                (record m { world = w }) (keeps.enter seen rows n m i))
      ]
    ]
