-- ===== src/Proposal/Listing/Fill.antt =====
-- Node 26 of SRLGR96602A.c: the grid and its count while the cursor is read.
use no_gada_automation.Base.{
  ℕ, ◌+◌, ◌*◌, ◌≤◌, ◌<◌, ◌≡◌, ◌≢◌, refl, sym, ap, ◌∙◌, Bool, true, ◌⊎◌, inl, inr, List, [], ◌∷◌,
  ◌++◌, arith, leb, ltb, length, take, set, length-append, take-append_of_le, take_all, Bool-cases,
}
use no_gada_automation.Proframe.Cursor.Ensures.{steady, unbroken}
use no_gada_automation.Proframe.{Rc, nrm, Pfm, IsLawful, Machine, pure}
use no_gada_automation.Proframe.Cursor.{fetch_loop}
use no_gada_automation.Proframe.Cursor.Rule.{Ensures, Ensures-bind, IsCursor}
use no_gada_automation.Proframe.Cursor.Paged.{PageOf, Stepped, paged_rule}
use no_gada_automation.Proposal.{ProposalIn, ProposalFrame, ProposalPfm, ProposalDbio, ListingRow}
use no_gada_automation.Proposal.Listing.{
  close_listing, put_row, visit_listing, no_listing, listing_loop,
}
use no_gada_automation.Proposal.Listing.Landed.{
  total_after, landed, visited, length-landed, landed-append_last, total_after_full,
  total_after_last, visited_broken, visited_all,
}

module _ (P : Pfm) (L : IsLawful P) (S : ProposalPfm P) (D : ProposalDbio P) (input : ProposalIn)
    (C : IsCursor P 100 D.fetch_listing) where
  -- The grid and its count behind the rows that are visited of `all`.
  pub record Placed (cnt : ℕ) (grid : List (ListingRow P.Num)) (all : List (ListingRow P.Num))
      (n : ℕ) (f : ProposalFrame P) : Type 0 where
    pub count : f.grid_cnt01 ≡ cnt + n
    pub rows : f.grid01 ≡ landed (length all) 0 (take n all) grid

  abbrev pub Left :
      (cnt : ℕ) (grid all : List (ListingRow P.Num)) → Rc → Machine P (ProposalFrame P) → Type 0
  Left cnt grid all rc m =
      ((rc ≢ nrm) × ¬ ((w : P.World) → (D.close_listing w).0 ≡ nrm))
      ⊎ ((rc ≡ nrm) × (all ≡ []) × (m.frame.grid_cnt01 ≡ cnt) × (m.frame.grid01 ≡ grid))

  module _ (cnt : ℕ) (grid all : List (ListingRow P.Num)) (size : length grid ≡ D.as_grid01) where
    abbrev Final : Machine P (ProposalFrame P) → Type 0
    Final m = Placed cnt grid all (visited D.as_grid01 (length all)) m.frame

    record Within (seen : List (ListingRow P.Num)) (cur ix : ℕ) (f : ProposalFrame P) : Type 0 where
      pub count : f.grid_cnt01 ≡ cnt + length seen
      pub rows : f.grid01 ≡ landed (length all) 0 seen grid
      pub pages : ℕ
      pub place : length seen ≡ 100 * pages + ix
      -- the pages so far leave room in the grid, and so does this one once a row of it is in
      pub low : (pages ≡ 0) ⊎ (100 * pages < D.as_grid01)
      pub this_low : (ix ≡ 0) ⊎ (100 * pages + cur < D.as_grid01)

    abbrev Inside : List (ListingRow P.Num) → (cur ix : ℕ) → Machine P (ProposalFrame P) → Type 0
    Inside seen cur ix m = Within seen cur ix m.frame

    abbrev Between : List (ListingRow P.Num) → Machine P (ProposalFrame P) → Type 0
    Between seen m = (cur : ℕ) → Within seen cur 0 m.frame

    abbrev Page : (cur tot : ℕ) → Type 0
    Page =
        PageOf 100 (listing_loop P S D input) (steady C) all Between Inside Final
          (Left cnt grid all)

    abbrev Next :
        List (ListingRow P.Num)
        → (cur ix : ℕ) → ListingRow P.Num
        → Machine P (ProposalFrame P)
        → Bool
        → Machine P (ProposalFrame P)
        → Type 0
    Next =
        Stepped 100 (listing_loop P S D input) (steady C) all Between Inside Final
          (Left cnt grid all)

    broken :
        (seen : List (ListingRow P.Num)) (row : ListingRow P.Num) (rest : List (ListingRow P.Num))
        → seen ++ (row ∷ rest) ≡ all
        → (ix cur tot : ℕ) (m : Machine P (ProposalFrame P)) → Inside seen cur ix m
        → length seen + cur ≡ tot + ix
        → tot ≤ length all
        → cur ≤ 100
        → D.as_grid01 ≤ tot
        → Final m
    broken seen row rest e ix cur tot m i lt few page full =
        let first : ix ≡ 0 = elim i.this_low [
          | inl z ↦ z
          | inr less ↦ absurd (omega (arith, i.place))
        ] in
        let stop : visited D.as_grid01 (length all) ≡ length seen =
          visited_broken D.as_grid01 (length all) i.pages (omega arith) i.low
            (omega (arith, i.place))
          ∙ omega (arith, i.place) in
        let cut : take (length seen) all ≡ seen =
          ap (take (length seen)) (sym e)
          ∙ take-append_of_le (length seen) seen (row ∷ rest) (omega arith)
          ∙ take_all (length seen) seen (omega arith) in
        record { count = rw stop i.count; rows = rw (stop, cut) i.rows }

    put :
        (seen : List (ListingRow P.Num)) (row : ListingRow P.Num) (ix cur tot : ℕ)
        → ix < cur
        → (m : Machine P (ProposalFrame P)) → Inside seen cur ix m
        → length seen + cur ≡ tot + ix
        → Page cur tot
        → tot < D.as_grid01
        → Ensures
            (λ _ m'. Next seen cur ix row m true m')
            (Left cnt grid all)
            (put_row P S D input tot row m)
    unfolding put_row
    put seen row ix cur tot lt m i sum page less =
        let inside : ltb tot (length m.frame.grid01) ≡ true =
          ground (arith, less, ap length i.rows, length-landed (length all) 0 seen grid, size) in
        let from_zero : 0 + length seen ≡ length seen = omega arith in
        let there : total_after (length all) (0 + length seen) ≡ tot = elim page [
          | inl full ↦
              ap (total_after (length all)) (from_zero ∙ i.place)
              ∙ total_after_full (length all) i.pages ix (omega (arith, full.0))
                  (omega (arith, full.0, full.1, i.place))
              ∙ omega (arith, full.0, i.place)
          | inr last ↦
              ap (total_after (length all)) (from_zero ∙ i.place)
              ∙ total_after_last (length all) i.pages ix (omega (arith, last.0))
                  (omega (arith, last.0, last.1, i.place))
              ∙ sym last.1
        ] in
        rw inside (
          record {
            count = omega (arith, i.count, length-append seen (row ∷ []));
            rows =
                ap (λ g. set g tot row) i.rows
                ∙ sym (
                    landed-append_last (length all) 0 seen row grid
                    ∙ ap (λ p. set (landed (length all) 0 seen grid) p row) there);
            pages = i.pages;
            place = omega (arith, i.place, length-append seen (row ∷ []));
            low = i.low;
            this_low = inr (omega (arith, i.place));
          },
          (refl, refl),
        )

    visit_lem :
        (seen : List (ListingRow P.Num)) (row : ListingRow P.Num) (rest : List (ListingRow P.Num))
        → seen ++ (row ∷ rest) ≡ all
        → (ix cur tot : ℕ) → ix < cur
        → length seen + cur ≡ tot + ix
        → Page cur tot
        → (m : Machine P (ProposalFrame P)) → Inside seen cur ix m
        → Ensures
            (Next seen cur ix row m)
            (Left cnt grid all)
            (visit_listing P S D input ix cur tot row m)
    unfolding visit_listing
    visit_lem seen row rest e ix cur tot lt sum page m i = elim (Bool-cases (leb D.as_grid01 tot)) [
      | inl full ↦ rw full (
          broken seen row rest e ix cur tot m i sum
            (elim page [ inl p ↦ p.1 | inr p ↦ omega (arith, p.1) ])
            (elim page [ inl p ↦ omega (arith, p.0) | inr p ↦ omega (arith, p.0) ]) (ground arith))
      | inr room ↦ rw room (
          Ensures-bind (λ _ m'. Next seen cur ix row m true m') (Next seen cur ix row m)
            (Left cnt grid all) (put_row P S D input tot row) (λ _. pure true) m
            (put seen row ix cur tot lt m i sum page (ground arith)) (λ _ _ h. h))
    ]

    full_lem :
        (seen : List (ListingRow P.Num)) (m : Machine P (ProposalFrame P))
        → Inside seen 100 100 m
        → Between seen m
    full_lem seen m i cur = record {
      count = i.count;
      rows = i.rows;
      pages = i.pages + 1;
      place = omega (arith, i.place);
      low = inr (elim i.this_low [ inl z ↦ absurd (omega (arith, z)) | inr h ↦ omega (arith, h) ]);
      this_low = inl refl;
    }

    last_lem :
        (cur : ℕ) (m : Machine P (ProposalFrame P)) → cur < 100 → Inside all cur cur m → Final m
    last_lem cur m few i =
        let low : (length all ≡ 0) ⊎ (length all < D.as_grid01) =
          ground (arith, i.place, i.low, i.this_low) in
        let every = visited_all D.as_grid01 (length all) low in
        record {
          count = rw every i.count;
          rows = rw (every, take_all (length all) all (omega arith)) i.rows;
        }

    pub loop_lem :
        (fuel : ℕ) (rows : List (ListingRow P.Num)) (m : Machine P (ProposalFrame P))
        → length (C.pending m.world) < fuel
        → C.delivered m.world ≡ 0
        → C.pending m.world ≡ all
        → m.frame.grid_cnt01 ≡ cnt
        → m.frame.grid01 ≡ grid
        → Ensures
            (λ _ m'. Placed cnt grid all (visited D.as_grid01 (length all)) m'.frame)
            (Left cnt grid all)
            (fetch_loop (listing_loop P S D input) fuel 0 rows m)
    unfolding no_listing close_listing
    loop_lem fuel rows m hf hd ea ec eg =
        paged_rule 100 (listing_loop P S D input) (steady C) all Between Inside Final
          (Left cnt grid all)
          (record {
            failed = λ _ _ _ h _. unbroken h;
            enter = λ _ _ cur _ i. i cur;
            visits = λ seen row rest e ix cur tot lt sum page m' i.
                visit_lem seen row rest e ix cur tot lt sum page m' i;
            full = full_lem;
            last = last_lem;
            empty = λ m' none_left i. inr (refl, none_left, omega (arith, i.count), i.rows);
          })
          fuel 0 rows [] m (omega arith) hf (sym hd) refl ea
          (λ cur. record {
            count = omega (arith, ec);
            rows = eg;
            pages = 0;
            place = omega arith;
            low = inl refl;
            this_low = inl refl;
          })
