-- ===== src/Proposal/Types.antt =====
-- The structures of SRLGR96602A.c, and what it uses of the runtime and of the database.
mod Row
pub use Row.*
use no_gada_automation.Base.{ℕ, ℤ, String, Bool, Option, List}
use no_gada_automation.Proframe.{Rc, Pfm}

-- What the code reads of `SRLGR96602A_IN`.
pub record ProposalIn : Type 0 where
  pub data_evnt_proc_hndl : ℤ
  pub mncm_code : String
  pub otis_use_code : String
  pub strn_date : String
  pub end_date : String
  pub prgm_id : String
  pub last_num01 : ℤ

-- `TRU_CMN_SRCH_SLCT_TM_EI001In`; the last member stands for the columns that the macro
-- `SET_DB_INSERT_INFO` sets.
pub record CodeRow : Type 0 where
  pub code_slct : String
  pub mncm_code : String
  pub clmn_id : String
  pub dtl_code : String
  pub st1_dtl_code : String
  pub nd2_dtl_code : String
  pub th3_dtl_code : String
  pub th4_dtl_code : String
  pub th5_dtl_code : String
  pub th6_dtl_code : String
  pub th7_dtl_code : String
  pub th8_dtl_code : String
  pub th9_dtl_code : String
  pub th10_dtl_code : String
  pub insert_info : List String

-- `SRLGR96602AContext`, `SRLGR96602A_OUT`, and the variables of the block of node 22.
pub record ProposalFrame (P : Pfm) : Type 0 where
  pub prgm_id : String
  pub lock_user_id : String
  pub trns_unq_id : String
  pub s_proc_phcd : String
  pub s_btch_bzwr_dncd : String
  pub prgm_date : String
  pub code_slct_grp_no : String
  pub strn_date : String
  pub job_id : String
  pub seq : ℕ
  pub buf_dtl_msg : String
  pub btch_input : String
  pub ll_ins_idx : ℕ
  pub ins_rows : List CodeRow
  pub proc_rslt_cntn : String
  pub grid_cnt01 : ℕ
  pub grid01 : List (ListingRow P.Num)

-- `TRU_SRVC_BTN_LB_VS701In`
pub record ButtonIn : Type 0 where
  pub mncm_code : String
  pub prgm_id : String
  pub lock_user_id : String
  pub otis_use_code : String
  pub prgm_date : String

-- `MZCOM_GetSeqNo_IN`
pub record SeqIn : Type 0 where
  pub seq_obj_nm : String
  pub seq_pf_cd : String
  pub seq_tot_len : ℕ

-- The runtime's functions, with the code at which a check leaves; the query for a running batch,
-- which gives `proc_rslt_dncd`; the module that draws a number; and the variable
-- `ls_proc_rslt_cntn`, which the file uses and does not declare.
pub record ProposalPfm (P : Pfm) : Type 0 where
  pub get_user_id : P.World → String
  pub get_date : P.World → String
  pub not_null_in : ProposalIn → P.World → Option Rc
  pub check_is_zero : ℤ → String → String → P.World → Option Rc
  pub check_is_sp_null : String → String → String → P.World → Option Rc
  pub is_valid_date : String → Bool
  pub date_error : P.World → String
  pub select_button : ButtonIn → P.World → (Rc × String) × P.World
  pub get_seq_no : SeqIn → P.World → (Rc × String) × P.World
  pub ls_proc_rslt_cntn : String

-- `PFO_FUND_INFR_HT_VF721In`
pub record FundsIn : Type 0 where
  pub mncm_code : String
  pub strn_date : String
  pub end_date : String
  pub fund_code : String
  pub trst_dncd : String
  pub trteco_code : String

-- `PFO_FUND_INFR_HT_VF721Out`, as far as it is read.
pub record CodedFund : Type 0 where
  pub mncm_code : String
  pub fund_code : String
  pub trst_dncd : String
  pub trteco_code : String

-- `MMCMP_ProcJobFundCrtn_IN`
pub record JobIn : Type 0 where
  pub mncm_code : String
  pub proc_date : String
  pub user_id : String
  pub proc_phcd : String
  pub btch_bzwr_dncd : String
  pub code_slct_grp_no : String

-- `TRU_SRVC_BTN_LB_VS001In`
pub record LastLogIn : Type 0 where
  pub mncm_code : String
  pub proc_date : String
  pub srvc_code : String
  pub btn_ensn_name : String

-- `TRU_SRVC_BTN_LB_VS001Out`, as far as it is read.
pub record LastLog : Type 0 where
  pub job_id : String
  pub seq : ℕ

-- `TRU_SRVC_BTN_LB_PI701In`
pub record LogRow : Type 0 where
  pub mncm_code : String
  pub proc_date : String
  pub srvc_code : String
  pub btn_ensn_name : String
  pub seq : ℕ
  pub rmrk : String
  pub msg_cntn : String
  pub proc_user_id : String
  pub insert_info : List String

-- `RPT_RLGR_TM_ED001In`
pub record ClearIn : Type 0 where
  pub mncm_code : String
  pub prgm_id : String
  pub lock_user_id : String
  pub trns_unq_id : String

-- `MZPFM_BatchLinkCall_IN`
pub record BatchCallIn : Type 0 where
  pub bat_code : String
  pub bat_call_type : String
  pub args_ctnt : String

-- `RPT_RLGR_TM_VF701In`; the last two members stand for what `PFM_PAGING_DBIO_BF` sets.
pub record ListingIn : Type 0 where
  pub mncm_code : String
  pub prgm_id : String
  pub user_id : String
  pub trns_unq_id : String
  pub page_size : ℕ
  pub last_num : ℤ

-- What stands behind the number: the calls, the sizes of the insert's array and of the grid, the
-- value `DATA_PROC_SEL`, and the texts that the C library formats.
pub record ProposalDbio (P : Pfm) : Type 0 where
  pub as_ei001 : ℕ
  pub as_grid01 : ℕ
  pub data_proc_sel : ℤ
  pub open_codes : FundsIn → P.World → Rc × P.World
  pub fetch_codes : List CodedFund → P.World → (Rc × List CodedFund) × P.World
  pub close_codes : P.World → Rc × P.World
  pub insert_info : P.World → List String
  -- `pfmDbioDmlArray` with a count and an array
  pub insert_codes : ℕ → List CodeRow → P.World → Rc × P.World
  -- `SysHdrInfo_GetSyst_date`
  pub get_syst_date : P.World → String
  pub proc_job : JobIn → P.World → (Rc × String) × P.World
  pub select_last_log : LastLogIn → P.World → (Rc × LastLog) × P.World
  pub insert_log : LogRow → P.World → Rc × P.World
  pub delete_listing : ClearIn → P.World → Rc × P.World
  pub delete_msg : ℤ → String → String
  -- the format has eight places and the call six values
  pub batch_args : String → String → String → String → String → String → String
  pub batch_call : BatchCallIn → P.World → Rc × P.World
  pub get_err_msg : P.World → String
  pub open_listing : ListingIn → P.World → Rc × P.World
  pub fetch_listing : List (ListingRow P.Num) → P.World → (Rc × List (ListingRow P.Num)) × P.World
  pub close_listing : P.World → Rc × P.World
