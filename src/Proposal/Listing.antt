-- ===== src/Proposal/Listing.antt =====
-- Nodes 19 and 9 of SRLGR96602A.c: the rows that the batch has written are read into the grid.
pub mod Landed
pub mod Fill
pub mod Grid
pub mod Tests
use no_gada_automation.Base.{
  ℕ, ◌+◌, Bool, true, false, List, [], ◌∷◌, leb, ltb, same_int, set, length, replicate,
  if◌then◌else◌,
}
use no_gada_automation.Proframe.{
  ◌>>=◌, ◌>>◌, Rc, nrm, num, set_msg, set_err, msgq, opened, closed, Pfm, wild, M, pure, leave, get,
  modify, emit, reads, call,
}
use no_gada_automation.Proframe.Cursor.{Loop, fetch_loop}
use no_gada_automation.Proposal.{
  ProposalIn, ProposalFrame, ProposalPfm, ProposalDbio, ListingIn, ListingRow, zero_listing,
  query_err,
}

module _ (P : Pfm) (S : ProposalPfm P) (D : ProposalDbio P) (input : ProposalIn) where
  pub close_listing : M P (ProposalFrame P) Rc
  close_listing = do rc ← call (λ w. D.close_listing w); emit (closed "RPT_RLGR_TM_VF701"); pure rc

  -- `OUTPUT->grid01[context->tot_cnt].… = …;` and `OUTPUT->grid_cnt01++;`, where `tot_cnt` is the
  -- number of all rows fetched so far, this page's included.
  pub put_row : ℕ → ListingRow P.Num → M P (ProposalFrame P) (Unit {0})
  put_row tot row = do
    fr ← get
    if ltb tot (length fr.grid01)
        then modify (λ f. record f { grid01 = set f.grid01 tot row; grid_cnt01 = f.grid_cnt01 + 1 })
        else (λ m. (wild, m))

  -- node 26: one row; the same test stands before and behind the copy
  pub visit_listing : ℕ → ℕ → ℕ → ListingRow P.Num → M P (ProposalFrame P) Bool
  visit_listing ix cur tot row =
      if leb D.as_grid01 tot
      then pure false
      else (do put_row tot row; pure (if leb D.as_grid01 tot then false else true))

  pub no_listing : M P (ProposalFrame P) Bool
  no_listing = do
    modify (λ f. record f {
      buf_dtl_msg = "제안서 다건조회 데이터가 존재하지 않습니다. [RPT_RLGR_TM_VF701] 다건조회 중 오류가 발생하였습니다.";
    })
    n ← reads P.errornum
    emit (set_err "ZCOM00003" (num n ∷ []))
    _ ← close_listing
    leave nrm

  pub listing_failed : Rc → M P (ProposalFrame P) Bool
  listing_failed rc = do query_err P S input; _ ← close_listing; leave rc

  abbrev pub listing_loop : Loop P (ProposalFrame P) (ListingRow P.Num)
  listing_loop = record {
    fetch = D.fetch_listing;
    when_empty = no_listing;
    when_failed = listing_failed;
    visit = visit_listing;
  }

  abbrev pub listing_in : ProposalFrame P → ListingIn
  listing_in fr = record {
    mncm_code = input.mncm_code;
    prgm_id = fr.prgm_id;
    user_id = fr.lock_user_id;
    trns_unq_id = fr.trns_unq_id;
    page_size = D.as_grid01;
    last_num = input.last_num01;
  }

  -- node 19 behind its condition
  pub listing_node : (fuel : ℕ) → M P (ProposalFrame P) (Unit {0})
  listing_node fuel = do
    fr ← get
    rc ← call (D.open_listing (listing_in fr))
    emit (opened "RPT_RLGR_TM_VF701" rc)
    bad ← reads P.chk_fail
    if bad then leave rc else pure tt
    fetch_loop listing_loop fuel 0 (replicate 100 (zero_listing P))
    closing ← close_listing
    if P.try_jumps closing then leave closing else pure tt

  -- `INPUT->data_evnt_proc_hndl == DATA_PROC_SEL`
  abbrev pub is_select : Bool
  is_select = same_int input.data_evnt_proc_hndl D.data_proc_sel

  -- node 9
  pub done_node : M P (ProposalFrame P) (Unit {0})
  done_node =
      if is_select
      then emit (set_msg "ZCOM00006" [])
      else (do emit (set_msg "ZCOM00021" []); emit (msgq 10))
