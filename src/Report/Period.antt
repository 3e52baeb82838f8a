-- ===== src/Report/Period.antt =====
-- The loop "기간수익률 루프" (node 40) of SPCSP53619C.c: the start date of a period, the rate of the
-- fund or of its benchmark over it, and the rate that is kept.
pub mod Spec
pub mod Calm
pub mod Kept
use no_gada_automation.Base.{
  ℕ, zero, suc, ◌+◌, ◌<◌, pos, negsuc, String, ◌||◌, [], ◌∷◌, ◌==◌, eqb, ltb, precedes, set, length,
  if◌then◌else◌,
}
use Prim.Native.String.{◌++◌ as ◌<>◌}
use no_gada_automation.Proframe.{
  ◌>>=◌, ◌>>◌, Rc, nrm, err, num, text, set_err, Pfm, wild, M, ◌>>◌, pure, leave, get, modify, emit,
  reads, dl_call,
}
use no_gada_automation.Rates.{RateDbio, calc_fnd_rntn, calc_bm_rnrt}
use no_gada_automation.Report.Types.{ReportIn, FundRow, Locals, ReportFrame, ReportPfm, one}

-- `PFM_SET_ERR("SBND00007", __LINE__); return RC_ERR;` unless the code is `RC_NRM`
abbrev pub unless_nrm : {P : Pfm} {F : Type 0} → ℕ → Rc → M P F (Unit {0})
unless_nrm line nrm = pure tt
unless_nrm line _ = do emit (set_err "SBND00007" (num (pos line) ∷ [])); leave err

-- The error block behind a call of another module.
abbrev pub unless_called : {P : Pfm} {F : Type 0} → String → String → Rc → M P F (Unit {0})
unless_called name what nrm = pure tt
unless_called name what _ = do emit (set_err "ZCOM00220" (text name ∷ text what ∷ [])); leave err

module _ (P : Pfm) (S : ReportPfm P) (Q : RateDbio P) (input : ReportIn) where
  abbrev pub set_locals : (Locals P → Locals P) → M P (ReportFrame P) (Unit {0})
  set_locals f = modify (λ fr. record fr { locals = f fr.locals })

  -- Some months before the report's date, and a day on; `back` is the number of months less one.
  pub month_start : (back line line' : ℕ) → M P (ReportFrame P) (Unit {0})
  month_start back line line' =
      let (rc, d) = S.add_month_ora input.proc_date (negsuc back) in
      let (rc', d') = S.add_date one d 1 in
      do
        set_locals (λ l. record l { w_gijun_ymd = d })
        unless_nrm line rc
        set_locals (λ l. record l { w_gijun_ymd = d' })
        unless_nrm line' rc'

  -- node 42, "일자설정"
  pub period_start : ℕ → FundRow → M P (ReportFrame P) (Unit {0})
  period_start w_cnt row =
      if eqb w_cnt 1
      then month_start 0 617 624
      else if eqb w_cnt 2
      then month_start 2 633 640
      else if eqb w_cnt 3
      then month_start 5 649 656
      else if eqb w_cnt 4
      then month_start 11 665 672
      else if eqb w_cnt 5
      then month_start 35 681 688
      else if eqb w_cnt 6
      then month_start 59 697 704
      else if eqb w_cnt 7
      then set_locals (λ l. record l { w_gijun_ymd = S.sub_string input.proc_date 0 4 <> "0101" })
      else if eqb w_cnt 8
      then set_locals (λ l. record l { w_gijun_ymd = row.firt_stup_date })
      else pure tt

  -- node 43, "수익률 산출"
  pub fund_rate : FundRow → M P (ReportFrame P) (Unit {0})
  fund_rate row = do
    set_locals (λ l. record l { w_calc = P.num_zero })
    lngg ← reads S.get_lngg_type
    fr ← get
    (rc, result) ←
        dl_call "MPCOM_CalcFndRntn"
          (calc_fnd_rntn P Q (record {
            lngg_dtcd = lngg;
            mncm_code = input.mncm_code;
            fund_code = row.fund_code;
            rnrt_cmpu_mhcd = "1";
            strn_date = fr.locals.w_gijun_ymd;
            end_date = input.proc_date;
          }))
          (record { rnrt = P.num_bzero })
    unless_called "MPCOM_CalcFndRntn" "수익률 산출 호출 오류" rc
    set_locals (λ l. record l { w_calc = (P.num_calc "%n * 100" result.rnrt).1 })
    unless_nrm 782 (P.num_calc "%n * 100" result.rnrt).0

  -- node 45, "BM 수익률 계산"; `bm_templt_code` stays as `bzero` left it
  pub bm_rate : FundRow → M P (ReportFrame P) (Unit {0})
  bm_rate row = do
    set_locals (λ l. record l { w_calc = P.num_zero })
    lngg ← reads S.get_lngg_type
    fr ← get
    (rc, result) ←
        dl_call "MPCOM_CalcBmRnrt"
          (calc_bm_rnrt P Q (record {
            lngg_dtcd = lngg;
            mncm_code = input.mncm_code;
            fund_code = row.fund_code;
            bm_templt_code = "";
            dtcd = "1";
            strn_date = fr.locals.w_gijun_ymd;
            end_date = input.proc_date;
          }))
          (record { rnrt = P.num_bzero })
    unless_called "MPCOM_CalcBmRnrt" "BM 수익률 산출 호출 오류" rc
    set_locals (λ l. record l { w_calc = (P.num_calc "%n * 100" result.rnrt).1 })
    unless_nrm 843 (P.num_calc "%n * 100" result.rnrt).0

  -- the condition of node 44
  pub period_rate : FundRow → M P (ReportFrame P) (Unit {0})
  period_rate row =
      if row.trgt_dtcd == "1" || row.trgt_dtcd == "2" then fund_rate row else bm_rate row

  -- `arr_suik_rt[i] = v;`
  pub store_rate : ℕ → P.Num → M P (ReportFrame P) (Unit {0})
  store_rate i v m =
      if ltb i (length m.frame.locals.arr_suik_rt)
      then set_locals (λ l. record l { arr_suik_rt = set l.arr_suik_rt i v }) m
      else (wild, m)

  -- Both branches of node 46 read alike but for the line that they report.
  pub keep_or_round : ℕ → ℕ → FundRow → M P (ReportFrame P) (Unit {0})
  keep_or_round line w_cnt row = do
    fr ← get
    let rounded = P.num_round_at fr.locals.w_calc 2
    if precedes fr.locals.w_gijun_ymd row.firt_stup_date
        then store_rate w_cnt fr.context.num_999
        else (store_rate w_cnt rounded.1 >> unless_nrm line rounded.0)

  -- node 46, "수익률체크"
  pub period_check : ℕ → FundRow → M P (ReportFrame P) (Unit {0})
  period_check w_cnt row =
      if row.trgt_dtcd == "1" then keep_or_round 873 w_cnt row else keep_or_round 890 w_cnt row

  pub period : ℕ → FundRow → M P (ReportFrame P) (Unit {0})
  period w_cnt row = do period_start w_cnt row; period_rate row; period_check w_cnt row

  -- `for (w_cnt = …; w_cnt <= 8; w_cnt++)` with `k` rounds left
  pub period_loop : (k w_cnt : ℕ) → FundRow → M P (ReportFrame P) (Unit {0})
  period_loop zero w_cnt row = pure tt
  period_loop (suc k) w_cnt row =
      let rest = period_loop k (w_cnt + 1) row in do period w_cnt row; rest
