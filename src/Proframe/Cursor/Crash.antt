-- ===== src/Proframe/Cursor/Crash.antt =====
-- The rule of a cursor loop whose visits use up places of which there are as many as rows in a page.
use no_gada_automation.Base.{
  ℕ, zero, suc, ◌+◌, ◌-◌, ◌≤◌, ◌<◌, ◌≡◌, refl, sym, ap, subst, Bool, true, false, ◌&&◌, inl, inr,
  Option, none, some, List, arith, eqb, leb, length, get_elem?, length-drop, if◌then◌else◌,
  Bool-cases,
}
use no_gada_automation.Proframe.Monad.{
  Pfm, Machine, Outcome, next, return, wild, hung, M, ◌>>=◌, pure,
}
use no_gada_automation.Proframe.Cursor.{Loop, for_rows, after_fetch, fetch_loop}
use no_gada_automation.Proframe.Cursor.Ensures.{IsCursor}

-- It crashes, or goes on with `Q`.
abbrev pub CrashesOr :
    {P : Pfm} {F A : Type 0} → (A → Machine P F → Type 0) → Outcome A × Machine P F → Type 0
CrashesOr Q (next a, m) = Q a m
CrashesOr Q (return rc, m) = ⊥
CrashesOr Q (wild, m) = Unit {0}
CrashesOr Q (hung, m) = ⊥

pub CrashesOr-bind :
    {P : Pfm} {F A B : Type 0} (Q : A → Machine P F → Type 0) (Q' : B → Machine P F → Type 0)
    (c : M P F A) (f : A → M P F B) (m : Machine P F)
    → CrashesOr Q (c m)
    → ((a : A) (m' : Machine P F) → Q a m' → CrashesOr Q' (f a m'))
    → CrashesOr Q' ((c >>= f) m)
CrashesOr-bind {P} {F} {A} {B} Q Q' c f m h k = after (c m) h
  where
    after : (r : Outcome A × Machine P F) → CrashesOr Q r → CrashesOr Q' (((λ _. r) >>= f) m)
    after (next a, m') h = k a m' h
    after (return rc, m') h = absurd h
    after (wild, m') h = tt
    after (hung, m') h = absurd h

pub crashed_lem :
    {P : Pfm} {F A : Type 0} (r : Outcome A × Machine P F) → CrashesOr (λ _ _. ⊥) r → r.0 ≡ wild
crashed_lem (next a, m) h = absurd h
crashed_lem (return rc, m) h = absurd h
crashed_lem (wild, m) h = refl
crashed_lem (hung, m) h = absurd h

module _ {P : Pfm} {F Row : Type 0} (size : ℕ) (B : Loop P F Row) (C : IsCursor P size B.fetch)
    -- what holds with `n` places used up, at a place of the cursor
    (At : List Row → (count n : ℕ) → Machine P F → Type 0) where
  -- Every visit uses up a place, or crashes.
  pub record IsFilling : Type 0 where
    pub bound : (left : List Row) (count n : ℕ) (m : Machine P F) → At left count n m → n ≤ size
    pub cursor :
        (left : List Row) (count n : ℕ) (m : Machine P F)
        → At left count n m
        → (C.pending m.world ≡ left) × (C.delivered m.world ≡ count)
    pub fetched :
        (left : List Row) (count n : ℕ) (rows : List Row) (m : Machine P F)
        → At left count n m
        → At
            (C.pending (B.fetch rows m.world).1)
            (C.delivered (B.fetch rows m.world).1)
            n
            (record m { world = (B.fetch rows m.world).1 })
    pub visits :
        (left : List Row) (count n ix cur tot : ℕ) (row : Row) (m : Machine P F)
        → At left count n m
        → CrashesOr (λ go m'. (go ≡ true) × At left count (n + 1) m') (B.visit ix cur tot row m)

  module _ (fills : IsFilling) where
    page_lem :
        (left : List Row) (count : ℕ) (rows : List Row) (cur tot k ix n : ℕ) (m : Machine P F)
        → At left count n m
        → CrashesOr
            (λ go m'. (go ≡ true) × At left count (n + k) m')
            (for_rows B rows cur tot k ix m)
    unfolding for_rows
    page_lem left count rows cur tot zero ix n m i =
        let same : n ≡ n + 0 = omega arith in (refl, subst (λ j. At left count j m) same i)
    page_lem left count rows cur tot (suc k) ix n m i =
        at_row (page_lem left count rows cur tot k (ix + 1) (n + 1)) (get_elem? rows ix) refl
      where
        Rest : Type 0
        Rest =
            (m1 : Machine P F)
            → At left count (n + 1) m1
            → CrashesOr (λ go m'. (go ≡ true) × At left count (n + 1 + k) m')
                (for_rows B rows cur tot k (ix + 1) m1)

        -- The later rows of the page, behind the one at `ix`.
        later :
            Rest
            → (m1 : Machine P F) → At left count (n + 1) m1
            → CrashesOr
                (λ go m'. (go ≡ true) × At left count (n + suc k) m')
                (for_rows B rows cur tot k (ix + 1) m1)
        later rest m1 a =
            let same : n + 1 + k ≡ n + suc k = omega arith in
            subst
              (λ j.
                CrashesOr (λ go m'. (go ≡ true) × At left count j m')
                  (for_rows B rows cur tot k (ix + 1) m1))
              same (rest m1 a)

        at_row :
            Rest
            → (found : Option Row) → get_elem? rows ix ≡ found
            → CrashesOr
                (λ go m'. (go ≡ true) × At left count (n + suc k) m')
                (for_rows B rows cur tot (suc k) ix m)
        at_row rest none e = rw (e, for_rows) tt
        at_row rest (some row) e =
            rw (e, for_rows)
              (CrashesOr-bind (λ go m'. (go ≡ true) × At left count (n + 1) m')
                (λ go m'. (go ≡ true) × At left count (n + suc k) m') (B.visit ix cur tot row)
                (λ go. if go then for_rows B rows cur tot k (ix + 1) else pure false) m
                (fills.visits left count n ix cur tot row m i)
                (λ go m1 a. rw a.0 (later rest m1 a.1)))

    -- With no place left, a round that delivers a row crashes.
    full_lem :
        (more : Bool) (again : M P F (Unit {0})) (left : List Row) (count : ℕ) (rows : List Row)
        (n tot : ℕ)
        → tot < n
        → (m : Machine P F) → At left count size m
        → CrashesOr
            (λ _ _. ⊥)
            ((for_rows B rows (n - tot) n (n - tot) 0 >>= λ on.
                if more && on then again else pure tt)
              m)
    full_lem more again left count rows n tot lt m i =
        CrashesOr-bind (λ go m'. (go ≡ true) × At left count (size + (n - tot)) m') (λ _ _. ⊥)
          (for_rows B rows (n - tot) n (n - tot) 0) (λ on. if more && on then again else pure tt) m
          (page_lem left count rows (n - tot) n (n - tot) 0 size m i)
          (λ go m1 a.
            absurd
              (let most = fills.bound left count (size + (n - tot)) m1 a.1 in omega (arith, most)))

    second_lem :
        (fuel count : ℕ) (rows left : List Row) (m : Machine P F)
        → 0 < size
        → 0 < length left
        → At left count size m
        → CrashesOr (λ _ _. ⊥) (fetch_loop B (suc fuel) count rows m)
    unfolding fetch_loop after_fetch
    second_lem fuel count rows left m positive some_left i =
        let w = (B.fetch rows m.world).1 in
        let rows' = (B.fetch rows m.world).0.1 in
        let here = fills.cursor left count size m i in
        let there = fills.fetched left count size rows m i in
        elim (Bool-cases (leb size (length (C.pending m.world)))) [
          | inl many ↦
              let q = C.full_page rows m.world (ground arith) in
              rw q.0 (
                full_lem true (fetch_loop B fuel (P.recnum w) rows') (C.pending w) (C.delivered w)
                  rows' (P.recnum w) count (omega (arith, C.counted rows m.world, q.3, here.1))
                  (record m { world = w }) there)
          | inr fewer ↦
              let q = C.last_page rows m.world (ground arith) in
              let lt : count < P.recnum w =
                omega (arith, C.counted rows m.world, q.3, here.1, ap length here.0) in
              let some_rows : eqb (P.recnum w) 0 ≡ false = ground (arith, lt) in
              rw (q.0, some_rows)
                (full_lem false (fetch_loop B fuel (P.recnum w) rows') (C.pending w) (C.delivered w)
                  rows' (P.recnum w) count lt (record m { world = w }) there)
        ]

    -- The loop crashes over a cursor with more rows than a page, the places unused at its start.
    pub crash_rule :
        (fuel : ℕ) (rows left : List Row) (m : Machine P F)
        → 0 < size
        → size < length left
        → At left 0 0 m
        → CrashesOr (λ _ _. ⊥) (fetch_loop B (suc (suc fuel)) 0 rows m)
    unfolding fetch_loop after_fetch
    crash_rule fuel rows left m positive more i =
        let w = (B.fetch rows m.world).1 in
        let rows' = (B.fetch rows m.world).0.1 in
        let here = fills.cursor left 0 0 m i in
        let there = fills.fetched left 0 0 rows m i in
        let q = C.full_page rows m.world (omega (arith, ap length here.0)) in
        let n : P.recnum w - 0 ≡ size = omega (arith, C.counted rows m.world, q.3, here.1) in
        let again : M P F (Unit {0}) = fetch_loop B (suc fuel) (P.recnum w) rows' in
        rw (q.0, n)
          (CrashesOr-bind (λ go m'. (go ≡ true) × At (C.pending w) (C.delivered w) (0 + size) m')
            (λ _ _. ⊥) (for_rows B rows' size (P.recnum w) size 0)
            (λ on. if true && on then again else pure tt) (record m { world = w })
            (page_lem (C.pending w) (C.delivered w) rows' size (P.recnum w) size 0 0
              (record m { world = w }) there)
            (λ go m1 a.
              let from_zero : 0 + size ≡ size = omega arith in
              let same : C.delivered w ≡ P.recnum w = sym (C.counted rows m.world) in
              rw a.0 (
                second_lem fuel (P.recnum w) rows' (C.pending w) m1 positive
                  (omega
                    (arith, ap length q.2, length-drop size (C.pending m.world), ap length here.0))
                  (subst (λ c. At (C.pending w) c size m1) same
                    (subst (λ j. At (C.pending w) (C.delivered w) j m1) from_zero a.1)))))
