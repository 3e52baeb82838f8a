-- ===== src/Proposal/Codes.antt =====
-- Node 12 of SRLGR96602A.c: the funds of the period are read page by page and inserted in batches.
pub mod Table
pub mod Place
pub mod Visit
pub mod Repeats
pub mod Pages
pub mod Appends
pub mod Once
pub mod Twice
pub mod Bounds
pub mod Overrun
pub mod Tests
use no_gada_automation.Base.{
  ℕ, ◌+◌, ◌-◌, ◌%◌, ◌<◌, String, Bool, true, ◌||◌, ◌&&◌, List, [], ◌∷◌, eqb, ltb, set, length,
  replicate, if◌then◌else◌,
}
use no_gada_automation.Proframe.{
  ◌>>=◌, ◌>>◌, Rc, nrm, nfd, dup, err, num, set_err, opened, closed, Pfm, wild, M, Proc, pure,
  leave, get, modify, emit, reads, call,
}
use no_gada_automation.Proframe.Cursor.{Loop, fetch_loop}
use no_gada_automation.Proposal.{
  ProposalIn, ProposalFrame, ProposalPfm, ProposalDbio, FundsIn, CodedFund, CodeRow, add_err,
  query_err,
}

-- `bzero` of a row of the insert's array, and of a row fetched.
abbrev pub zero_code : CodeRow
zero_code = record {
  code_slct = "";
  mncm_code = "";
  clmn_id = "";
  dtl_code = "";
  st1_dtl_code = "";
  nd2_dtl_code = "";
  th3_dtl_code = "";
  th4_dtl_code = "";
  th5_dtl_code = "";
  th6_dtl_code = "";
  th7_dtl_code = "";
  th8_dtl_code = "";
  th9_dtl_code = "";
  th10_dtl_code = "";
  insert_info = [];
}

abbrev zero_fund : CodedFund
zero_fund = record { mncm_code = ""; fund_code = ""; trst_dncd = ""; trteco_code = "" }

-- `inStr_TRU_CMN_SRCH_SLCT_TM_EI001[1000]` and `temporaryOutput12[1000]`, as `bzero` leaves them.
pub zero_codes : List CodeRow
zero_codes = replicate 1000 zero_code

pub zero_funds : List CodedFund
zero_funds = replicate 1000 zero_fund

module _ (P : Pfm) (S : ProposalPfm P) (D : ProposalDbio P) (input : ProposalIn) where
  pub close_codes : M P (ProposalFrame P) Rc
  close_codes = do rc ← call (λ w. D.close_codes w); emit (closed "PFO_FUND_INFR_HT_VF721"); pure rc

  -- The members that node 28 sets, `grp` being the number drawn.
  abbrev pub code_row : String → List String → CodedFund → CodeRow
  code_row grp info row = record {
    code_slct = grp;
    mncm_code = row.mncm_code;
    clmn_id = row.fund_code;
    dtl_code = row.fund_code;
    st1_dtl_code = row.trst_dncd;
    nd2_dtl_code = row.trteco_code;
    th3_dtl_code = "";
    th4_dtl_code = "";
    th5_dtl_code = "";
    th6_dtl_code = "";
    th7_dtl_code = "";
    th8_dtl_code = "";
    th9_dtl_code = "";
    th10_dtl_code = "";
    insert_info = info;
  }

  -- The array is cleared when it has been inserted in full. Its size is not 0.
  abbrev pub start_over : M P (ProposalFrame P) (Unit {0})
  start_over = do
    fr ← get
    if eqb fr.ll_ins_idx 0 || eqb (fr.ll_ins_idx % D.as_ei001) 0
        then modify (λ f. record f { ll_ins_idx = 0; ins_rows = zero_codes })
        else pure tt

  abbrev pub put_code : CodedFund → M P (ProposalFrame P) (Unit {0})
  put_code row = do
    fr ← get
    info ← reads D.insert_info
    if ltb fr.ll_ins_idx (length fr.ins_rows)
        then modify (λ f. record f {
          ins_rows = set f.ins_rows f.ll_ins_idx (code_row f.code_slct_grp_no info row);
          ll_ins_idx = f.ll_ins_idx + 1;
        })
        else (λ m. (wild, m))

  -- node 28
  pub add_code : CodedFund → M P (ProposalFrame P) (Unit {0})
  add_code row = do start_over; put_code row

  -- The block `DBIO_EXCEPTION` of node 29.
  pub insert_exception : Rc → M P (ProposalFrame P) (Unit {0})
  insert_exception nrm = pure tt
  insert_exception dup = do
    emit (set_err "ZCOM00007" [])
    add_err P S input "ZCOM00146" "TRU_CMN_SRCH_SLCT_TM_EI001"
    leave err
  insert_exception _ = do
    n ← reads P.errornum
    emit (set_err "ZCOM00008" (num n ∷ []))
    add_err P S input "ZCOM00146" "TRU_CMN_SRCH_SLCT_TM_EI001"
    leave err

  -- node 29
  pub insert_node : M P (ProposalFrame P) (Unit {0})
  insert_node = do
    fr ← get
    rc ← call (D.insert_codes fr.ll_ins_idx fr.ins_rows)
    insert_exception rc

  -- node 27: the insert if the array is full or the page ends
  abbrev pub insert_if_due : ℕ → ℕ → M P (ProposalFrame P) (Unit {0})
  insert_if_due ix cur = do
    fr ← get
    if eqb fr.ll_ins_idx D.as_ei001 || eqb ix (cur - 1) && ltb 0 fr.ll_ins_idx
        then insert_node
        else pure tt

  -- node 24, one row
  pub visit_code : ℕ → ℕ → ℕ → CodedFund → M P (ProposalFrame P) Bool
  visit_code ix cur tot row = do add_code row; insert_if_due ix cur; pure true

  -- An empty result leaves the cursor open.
  pub no_codes : M P (ProposalFrame P) Bool
  no_codes = do emit (set_err "ZCOM00003" []); leave nrm

  pub codes_failed : Rc → M P (ProposalFrame P) Bool
  codes_failed rc = do
    query_err P S input
    add_err P S input "ZCOM00145" "PFO_FUND_INFR_HT_VF721"
    _ ← close_codes
    leave err

  abbrev pub code_loop : Loop P (ProposalFrame P) CodedFund
  code_loop = record {
    fetch = D.fetch_codes;
    when_empty = no_codes;
    when_failed = codes_failed;
    visit = visit_code;
  }

  abbrev pub codes_in : FundsIn
  codes_in = record {
    mncm_code = input.mncm_code;
    strn_date = input.strn_date;
    end_date = input.end_date;
    fund_code = "*";
    trst_dncd = "*";
    trteco_code = "*";
  }

  -- node 12; the variables of the block of node 22 are cleared before node 21, which does not use them
  pub codes_node : (fuel : ℕ) → M P (ProposalFrame P) (Unit {0})
  codes_node fuel = do
    modify (λ f. record f { ll_ins_idx = 0; ins_rows = zero_codes })
    rc ← call (D.open_codes codes_in)
    emit (opened "PFO_FUND_INFR_HT_VF721" rc)
    bad ← reads P.chk_fail
    if bad then leave rc else pure tt
    fetch_loop code_loop fuel 0 zero_funds
    closing ← close_codes
    if P.try_jumps closing then leave closing else pure tt
