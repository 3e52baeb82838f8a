-- ===== src/Proposal/Listing/Grid.antt =====
-- Node 19 of SRLGR96602A.c: the grid and its count behind the loop.
use no_gada_automation.Base.{
  ℕ, ◌+◌, ◌<◌, ◌≡◌, ◌≢◌, refl, ap, ◌∙◌, false, inl, inr, List, ◌∷◌, arith, length, take, get_elem?,
  replicate, if◌then◌else◌, Bool-cases,
}
use no_gada_automation.Proframe.{nrm, opened, Pfm, IsLawful, Machine, pure, leave, ◌>>=◌}
use no_gada_automation.Proframe.Laws.{jumps-ne_nrm}
use no_gada_automation.Proframe.Cursor.{fetch_loop}
use no_gada_automation.Proframe.Cursor.Rule.{Ensures, Ensures-bind, Ensures-weaken, IsCursor}
use no_gada_automation.Proposal.{
  ProposalIn, ProposalFrame, ProposalPfm, ProposalDbio, ListingRow, zero_listing,
}
use no_gada_automation.Proposal.Listing.{close_listing, listing_loop, listing_in, listing_node}
use no_gada_automation.Proposal.Listing.Fill.{Placed, Left, loop_lem}
use no_gada_automation.Proposal.Listing.Landed.{visited, landed_below, visited_all}

module _ (P : Pfm) (L : IsLawful P) (S : ProposalPfm P) (D : ProposalDbio P) (input : ProposalIn)
    (C : IsCursor P 100 D.fetch_listing) where
  closing_lem :
      (cnt : ℕ) (grid all : List (ListingRow P.Num)) (m : Machine P (ProposalFrame P))
      → Placed P L S D input C cnt grid all (visited D.as_grid01 (length all)) m.frame
      → Ensures
          (λ _ m'. Placed P L S D input C cnt grid all (visited D.as_grid01 (length all)) m'.frame)
          (Left P L S D input C cnt grid all)
          ((close_listing P S D input >>= λ closing.
              if P.try_jumps closing then leave closing else pure tt)
            m)
  unfolding close_listing
  closing_lem cnt grid all m i = elim (Bool-cases (P.try_jumps (D.close_listing m.world).0)) [
    | inl jump ↦ rw jump (
        inl (
          jumps-ne_nrm L (D.close_listing m.world).0 jump,
          λ s. jumps-ne_nrm L (D.close_listing m.world).0 jump (s m.world),
        ))
    | inr go ↦ rw go i
  ]

  abbrev pub behind_open : Machine P (ProposalFrame P) → P.World
  behind_open m = (D.open_listing (listing_in P S D input m.frame) m.world).1

  -- Over a lawful runtime and a cursor that delivers its rows in pages of 100, with a grid of its full
  -- size, a cursor that opens with nothing delivered, and more fuel than it has rows: the node makes no
  -- access outside an array and ends. Where it goes on, it has visited and counted all rows if they are
  -- fewer than the grid's places, and else those of the pages before the count reaches the grid's size;
  -- and it has written each at the place of the count behind its page, over the rows of the same page.
  -- It leaves with `RC_NRM` only for a cursor without rows, the grid unchanged, and with another code
  -- only if the close can fail.
  pub listing_node-Placed :
      (fuel : ℕ) (m : Machine P (ProposalFrame P))
      → length m.frame.grid01 ≡ D.as_grid01
      → P.chk_fail (behind_open m) ≡ false
      → C.delivered (behind_open m) ≡ 0
      → length (C.pending (behind_open m)) < fuel
      → Ensures
          (λ _ m'.
            Placed P L S D input C m.frame.grid_cnt01 m.frame.grid01
              (C.pending (behind_open m))
              (visited D.as_grid01 (length (C.pending (behind_open m))))
              m'.frame)
          (Left P L S D input C m.frame.grid_cnt01 m.frame.grid01 (C.pending (behind_open m)))
          (listing_node P S D input fuel m)
  unfolding listing_node
  listing_node-Placed fuel m room fine start enough =
      let cnt = m.frame.grid_cnt01 in
      let grid = m.frame.grid01 in
      let all = C.pending (behind_open m) in
      let zero_rows = replicate 100 (zero_listing P) in
      let m1 : Machine P (ProposalFrame P) = record {
        frame = m.frame;
        world = behind_open m;
        log =
            opened "RPT_RLGR_TM_VF701" (D.open_listing (listing_in P S D input m.frame) m.world).0
            ∷ m.log;
      } in
      let Q : Unit {0} → Machine P (ProposalFrame P) → Type 0 =
        λ _ m'. Placed P L S D input C cnt grid all (visited D.as_grid01 (length all)) m'.frame in
      rw fine (
        Ensures-bind Q Q (Left P L S D input C cnt grid all)
          (fetch_loop (listing_loop P S D input) fuel 0 zero_rows)
          (λ _. close_listing P S D input >>= λ closing.
            if P.try_jumps closing then leave closing else pure tt)
          m1
          (loop_lem P L S D input C cnt grid all room fuel zero_rows m1 enough start refl refl refl)
          (λ _ m' i. closing_lem cnt grid all m' i))

  -- Over a lawful runtime and a cursor that delivers its rows in pages of 100, with a grid of its full
  -- size, a cursor that opens with nothing delivered, and more fuel than it has rows: where the node
  -- goes on and the cursor has fewer rows than the grid has places, the count grows by all of them, and
  -- yet no place before both the hundredth and their number is written.
  pub listing_node_below :
      (fuel p : ℕ) (m : Machine P (ProposalFrame P))
      → length m.frame.grid01 ≡ D.as_grid01
      → P.chk_fail (behind_open m) ≡ false
      → C.delivered (behind_open m) ≡ 0
      → length (C.pending (behind_open m)) < fuel
      → length (C.pending (behind_open m)) < D.as_grid01
      → p < length (C.pending (behind_open m))
      → p < 100
      → Ensures
          (λ _ m'.
            (m'.frame.grid_cnt01 ≡ m.frame.grid_cnt01 + length (C.pending (behind_open m)))
            × (get_elem? m'.frame.grid01 p ≡ get_elem? m.frame.grid01 p))
          (λ rc _. rc ≢ nrm)
          (listing_node P S D input fuel m)
  listing_node_below fuel p m room fine start enough few hp h100 =
      let all = C.pending (behind_open m) in
      let every = visited_all D.as_grid01 (length all) (inr few) in
      Ensures-weaken
        (λ (_ : Unit {0}) m'.
          Placed P L S D input C m.frame.grid_cnt01 m.frame.grid01 all
            (visited D.as_grid01 (length all)) m'.frame)
        (λ _ m'.
          (m'.frame.grid_cnt01 ≡ m.frame.grid_cnt01 + length all)
          × (get_elem? m'.frame.grid01 p ≡ get_elem? m.frame.grid01 p))
        (Left P L S D input C m.frame.grid_cnt01 m.frame.grid01 all) (λ rc _. rc ≢ nrm)
        (listing_node P S D input fuel m) (listing_node-Placed fuel m room fine start enough)
        (λ _ m' i. (
          i.count ∙ ap (λ n. m.frame.grid_cnt01 + n) every,
          ap (λ g. get_elem? g p) i.rows
              ∙ landed_below (length all) 0 p (take (visited D.as_grid01 (length all)) all)
                  m.frame.grid01 hp h100,
        ))
        (λ rc m' left. elim left [
          | inl bad ↦ bad.0
          | inr empty ↦ absurd (omega (arith, ap length empty.1))
        ])
