-- ===== src/Proposal/Listing/Tests.antt =====
-- Node 19 of SRLGR96602A.c over a cursor that behaves as documented.
use no_gada_automation.Base.{
  ℕ, ◌+◌, ◌≡◌, ◌≢◌, refl, String, List, [], ◌∷◌, arith, get_elem?, replicate,
}
use no_gada_automation.Proframe.{nrm, Pfm, Machine}
use no_gada_automation.Proframe.Cursor.Rule.{Ensures}
use no_gada_automation.Proframe.Cursor.Sample.{Store, fetch_page, stored, page_cursor}
use no_gada_automation.Sample.{runtime-IsLawful}
use no_gada_automation.Proposal.{ProposalFrame, ProposalDbio, ListingRow, zero_listing}
use no_gada_automation.Proposal.Sample.{services, request, blank, calls}
use no_gada_automation.Proposal.Listing.{listing_node}
use no_gada_automation.Proposal.Listing.Fill.{Placed, Left}
use no_gada_automation.Proposal.Listing.Grid.{listing_node-Placed, listing_node_below}

abbrev P : Pfm
P = stored (ListingRow ℕ)

abbrev D : ProposalDbio P
D = record (calls P) { fetch_listing = fetch_page 100 }

-- A row with a text.
abbrev row : String → ListingRow ℕ
row t = record (zero_listing P) { st1_ltrs_cntn = t }

abbrev grid : List (ListingRow ℕ)
grid = replicate 3 (zero_listing P)

-- Two rows for a grid of three places.
abbrev before : Machine P (ProposalFrame P)
before = record {
  frame = blank P grid;
  world = record { left = row "A" ∷ row "B" ∷ []; count = 0 };
  log = [];
}

listing_node-Placed_example :
    Ensures
      (λ _ m'.
        Placed P
          (runtime-IsLawful (Store (ListingRow ℕ)) (λ w. w.count))
          (services P)
          D
          request
          (page_cursor 100)
          0
          grid
          (row "A" ∷ row "B" ∷ [])
          2
          m'.frame)
      (Left P
        (runtime-IsLawful (Store (ListingRow ℕ)) (λ w. w.count))
        (services P)
        D
        request
        (page_cursor 100)
        0
        grid
        (row "A" ∷ row "B" ∷ []))
      (listing_node P (services P) D request 3 before)
listing_node-Placed_example =
    listing_node-Placed P (runtime-IsLawful (Store (ListingRow ℕ)) (λ w. w.count)) (services P) D
      request (page_cursor 100) 3 before refl refl refl (omega arith)

listing_node_below_example :
    Ensures
      (λ _ m'. (m'.frame.grid_cnt01 ≡ 0 + 2) × (get_elem? m'.frame.grid01 0 ≡ get_elem? grid 0))
      (λ rc _. rc ≢ nrm)
      (listing_node P (services P) D request 3 before)
listing_node_below_example =
    listing_node_below P (runtime-IsLawful (Store (ListingRow ℕ)) (λ w. w.count)) (services P) D
      request (page_cursor 100) 3 0 before refl refl refl (omega arith) (omega arith) (omega arith)
      (omega arith)
