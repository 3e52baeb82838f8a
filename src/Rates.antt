-- ===== src/Rates.antt =====
-- PCOM/src/module/MPCOM_CalcFndRntn.c and MPCOM_CalcBmRnrt.c (under compile/): the return of a fund
-- and of its benchmark. Each opens a cursor over the history; what would be computed from it is a
-- `TODO` in the source. The cursors are parameters.
pub mod Spec
pub mod Tests
use no_gada_automation.Base.{String, [], ◌∷◌}
use no_gada_automation.Proframe.{
  ◌>>=◌, ◌>>◌, Rc, nrm, nfd, err, text, set_msg, set_err, opened, Pfm, M, Proc, pure, leave, emit,
  reads, call, body, pfm_try,
}

-- `MPCOM_CalcFndRntn_IN`
pub record FundRateIn : Type 0 where
  pub lngg_dtcd : String
  pub mncm_code : String
  pub fund_code : String
  pub rnrt_cmpu_mhcd : String
  pub strn_date : String
  pub end_date : String

-- `MPCOM_CalcBmRnrt_IN`
pub record BmRateIn : Type 0 where
  pub lngg_dtcd : String
  pub mncm_code : String
  pub fund_code : String
  pub bm_templt_code : String
  pub dtcd : String
  pub strn_date : String
  pub end_date : String

-- `MPCOM_CalcFndRntn_OUT`, `MPCOM_CalcBmRnrt_OUT`
pub record RateOut (P : Pfm) : Type 0 where
  pub rnrt : P.Num

-- `PFO_FUND_RNTN_HT_DS102In`
pub record FundHistoryIn : Type 0 where
  pub mncm_code : String
  pub fund_code : String
  pub strn_date : String
  pub end_date : String

-- `PFO_BM_RNRT_HT_DS103In`
pub record BmHistoryIn : Type 0 where
  pub mncm_code : String
  pub bm_templt_code : String
  pub strn_date : String
  pub end_date : String

-- `pfmDbioOpenCursorArray` on `PFO_FUND_RNTN_HT_DS102` and on `PFO_BM_RNRT_HT_DS103`.
pub record RateDbio (P : Pfm) : Type 0 where
  pub open_fund : FundHistoryIn → P.World → Rc × P.World
  pub open_bm : BmHistoryIn → P.World → Rc × P.World

-- The block `DBIO_EXCEPTION` of both modules.
pub open_exception : {P : Pfm} {F : Type 0} → Rc → M P F (Unit {0})
open_exception nrm = pure tt
open_exception nfd = do emit (set_msg "ZCOM00003" []); leave nrm
open_exception {P} _ = do s ← reads P.errorstr; emit (set_err "ZCOM00014" (text s ∷ [])); leave err

module _ (P : Pfm) where
  pub init_proc : Proc P (RateOut P)
  init_proc = body (pure tt)

  pub input_valid_proc : Proc P (RateOut P)
  input_valid_proc = body (pure tt)

  pub norm_exit_proc : Proc P (RateOut P)
  norm_exit_proc = body (pure tt)

module _ (P : Pfm) (D : RateDbio P) where
  -- `main_proc` of MPCOM_CalcFndRntn
  pub fund_main_proc : FundRateIn → Proc P (RateOut P)
  fund_main_proc input = body do
    rc ← call (
        D.open_fund (record {
          mncm_code = input.mncm_code;
          fund_code = input.fund_code;
          strn_date = input.strn_date;
          end_date = input.end_date;
        }))
    emit (opened "PFO_FUND_RNTN_HT_DS102" rc)
    open_exception rc

  -- `main_proc` of MPCOM_CalcBmRnrt
  pub bm_main_proc : BmRateIn → Proc P (RateOut P)
  bm_main_proc input = body do
    rc ← call (
        D.open_bm (record {
          mncm_code = input.mncm_code;
          bm_templt_code = input.bm_templt_code;
          strn_date = input.strn_date;
          end_date = input.end_date;
        }))
    emit (opened "PFO_BM_RNRT_HT_DS103" rc)
    open_exception rc

  -- `MPCOM_CalcFndRntn`
  unfoldable pub calc_fnd_rntn : FundRateIn → Proc P (RateOut P)
  calc_fnd_rntn input = body do
    pfm_try (init_proc P)
    pfm_try (input_valid_proc P)
    pfm_try (fund_main_proc input)
    pfm_try (norm_exit_proc P)

  -- `MPCOM_CalcBmRnrt`
  unfoldable pub calc_bm_rnrt : BmRateIn → Proc P (RateOut P)
  calc_bm_rnrt input = body do
    pfm_try (init_proc P)
    pfm_try (input_valid_proc P)
    pfm_try (bm_main_proc input)
    pfm_try (norm_exit_proc P)
