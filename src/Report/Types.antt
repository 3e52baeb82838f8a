-- ===== src/Report/Types.antt =====
-- The structures of SPCSP53619C.c, and what it uses of the runtime and of the database.
use no_gada_automation.Base.{ℕ, ℤ, String, List, Option}
use no_gada_automation.Proframe.{Rc, Pfm}

-- `SPCSP53619C_IN`
pub record ReportIn : Type 0 where
  pub mncm_code : String
  pub fund_code : String
  pub proc_date : String
  pub aply_date : String

-- The seventeen members that `SPCSP53619C_OUT` takes over from the overview.
pub record Overview (P : Pfm) : Type 0 where
  pub fund_name : String
  pub st1_infr_ltrs_cntn : String
  pub nd2_infr_ltrs_cntn : String
  pub fund_type_dncd : String
  pub st1_fund_ovrv_cntn : String
  pub nd2_fund_ovrv_cntn : String
  pub th3_fund_ovrv_cntn : String
  pub th4_fund_ovrv_cntn : String
  pub th5_fund_ovrv_cntn : String
  pub th6_fund_ovrv_cntn : String
  pub st1_rprt_cntn : String
  pub th3_infr_ltrs_cntn : String
  pub th4_infr_ltrs_cntn : String
  pub th5_infr_ltrs_cntn : String
  pub th6_infr_ltrs_cntn : String
  pub stup_amt : P.Num
  pub fund_rnrt : P.Num

-- `PFO_FUND_OVRV_PDAY_BS_DS101In` and `Out`
pub record OverviewIn : Type 0 where
  pub mncm_code : String
  pub fund_code : String
  pub ptrn_data_pacd : String
  pub proc_date : String
  pub aply_date : String

pub record OverviewOut (P : Pfm) : Type 0 where
  pub overview : Overview P
  pub st1_chec_yn : String
  pub nd2_chec_yn : String

-- `PFO_FUND_BS_DF036In`, and what the code reads of `PFO_FUND_BS_DF036Out`
pub record FundListIn : Type 0 where
  pub mncm_code : String
  pub fund_code : String
  pub mncm_date_gpcd : String

pub record FundRow : Type 0 where
  pub trgt_dtcd : String
  pub fund_code : String
  pub fund_name : String
  pub firt_stup_date : String

-- A row of `grid03`
pub record GridRow (P : Pfm) : Type 0 where
  pub trgt_dtcd : String
  pub fund_code : String
  pub fund_name : String
  pub stup_date : String
  pub mn1_rnrt : P.Num
  pub mn3_rnrt : P.Num
  pub mn6_rnrt : P.Num
  pub yr1_rnrt : P.Num
  pub yr3_rnrt : P.Num
  pub yr5_rnrt : P.Num
  pub st1_rnrt : P.Num
  pub nd2_rnrt : P.Num

-- `SPCSP53619C_OUT`; `grid03` is its array with all its places.
pub record ReportOut (P : Pfm) : Type 0 where
  pub overview : Overview P
  pub grid_cnt03 : ℕ
  pub grid03 : List (GridRow P)

-- `SPCSP53619CContext` beside the two pointers
pub record ReportContext (P : Pfm) : Type 0 where
  pub orig_trns_unq_id : String
  pub prgm_id : String
  pub user_id : String
  pub lngg_dtcd : String
  pub ls_ptrn_data_pacd : String
  pub ls_ptrn_data_pacd2 : String
  pub num_999 : P.Num
  pub ls_bzop_date : String

-- The variables of `main_proc` that its blocks share.
pub record Locals (P : Pfm) : Type 0 where
  pub st1_chec_yn : String
  pub nd2_chec_yn : String
  pub w_gijun_ymd : String
  pub w_calc : P.Num
  pub arr_suik_rt : List P.Num

pub record ReportFrame (P : Pfm) : Type 0 where
  pub context : ReportContext P
  pub output : ReportOut P
  pub locals : Locals P

-- `PFM_CALC_ONE`, `PFM_CALC_BOTH`
pub data CalcMode : Type 0 where
  one both : CalcMode

-- The runtime's functions: the system header, the generated checks of the input and the output with
-- the code at which they leave, and the date functions.
pub record ReportPfm (P : Pfm) : Type 0 where
  pub get_orig_trns_unq_id : P.World → String
  pub get_srvc_code : P.World → String
  pub get_user_id : P.World → String
  pub get_lngg_type : P.World → String
  pub not_null_in : ReportIn → P.World → Option Rc
  pub not_null_out : ReportOut P → P.World → Option Rc
  pub add_month_ora : String → ℤ → Rc × String
  pub add_date : CalcMode → String → ℕ → Rc × String
  pub sub_string : String → ℕ → ℕ → String
  -- `AS_SPCSP53619C_OUT_GRID03`
  pub as_grid03 : ℕ

-- The DBIOs: one row of the overview, and the cursor over the funds, fetched into an array of 50.
pub record ReportDbio (P : Pfm) : Type 0 where
  pub select_overview : OverviewIn → P.World → (Rc × OverviewOut P) × P.World
  pub open_funds : FundListIn → P.World → Rc × P.World
  pub fetch_funds : List FundRow → P.World → (Rc × List FundRow) × P.World
  pub close_funds : P.World → Rc × P.World
