-- ===== src/Proposal/Sample.antt =====
-- A request of SRLGR96602A and calls that all end with `RC_NRM`, for the examples.
use no_gada_automation.Base.{pos, true, none, [], List}
use no_gada_automation.Proframe.{Pfm, nrm}
use no_gada_automation.Proposal.{ProposalIn, ProposalFrame, ProposalPfm, ProposalDbio, ListingRow}

-- A batch is running.
abbrev pub services : (P : Pfm) → ProposalPfm P
services P = record {
  get_user_id = λ _. "U1";
  get_date = λ _. "20240131";
  not_null_in = λ _ _. none;
  check_is_zero = λ _ _ _ _. none;
  check_is_sp_null = λ _ _ _ _. none;
  is_valid_date = λ _. true;
  date_error = λ _. "";
  select_button = λ _ w. ((nrm, "N"), w);
  get_seq_no = λ _ w. ((nrm, "0000000000000001"), w);
  ls_proc_rslt_cntn = "running";
}

abbrev pub request : ProposalIn
request = record {
  data_evnt_proc_hndl = pos 1;
  mncm_code = "M1";
  otis_use_code = "U1";
  strn_date = "20240101";
  end_date = "20240131";
  prgm_id = "SRLGR96602A";
  last_num01 = pos 0;
}

abbrev pub blank : (P : Pfm) → List (ListingRow P.Num) → ProposalFrame P
blank P grid = record {
  prgm_id = "SRLGR96602A";
  lock_user_id = "U1";
  trns_unq_id = "U1";
  s_proc_phcd = "99";
  s_btch_bzwr_dncd = "ZZ";
  prgm_date = "20240131";
  code_slct_grp_no = "0000000000000001";
  strn_date = "";
  job_id = "";
  seq = 0;
  buf_dtl_msg = "";
  btch_input = "";
  ll_ins_idx = 0;
  ins_rows = [];
  proc_rslt_cntn = "";
  grid_cnt01 = 0;
  grid01 = grid;
}

-- Inserts of two rows, a grid of three.
abbrev pub calls : (P : Pfm) → ProposalDbio P
calls P = record {
  as_ei001 = 2;
  as_grid01 = 3;
  data_proc_sel = pos 1;
  open_codes = λ _ w. (nrm, w);
  fetch_codes = λ rows w. ((nrm, rows), w);
  close_codes = λ w. (nrm, w);
  insert_info = λ _. [];
  insert_codes = λ _ _ w. (nrm, w);
  get_syst_date = λ _. "20240131";
  proc_job = λ _ w. ((nrm, "J1"), w);
  select_last_log = λ _ w. ((nrm, record { job_id = "J1"; seq = 4 }), w);
  insert_log = λ _ w. (nrm, w);
  delete_listing = λ _ w. (nrm, w);
  delete_msg = λ _ _. "";
  batch_args = λ _ _ _ _ _ job. job;
  batch_call = λ _ w. (nrm, w);
  get_err_msg = λ _. "";
  open_listing = λ _ w. (nrm, w);
  fetch_listing = λ rows w. ((nrm, rows), w);
  close_listing = λ w. (nrm, w);
}
