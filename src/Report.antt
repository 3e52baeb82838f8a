-- ===== src/Report.antt =====
-- PCSP/src/serviceModule/SPCSP53619C/SPCSP53619C.c (under compile/): the monthly report. The functions
-- of the file, and the nodes of `main_proc` as functions of their own.
mod Types
pub mod Period
pub mod Grid
pub mod Whole
pub mod Sample
pub mod Tests
pub use Types.*
use no_gada_automation.Base.{
  ℕ, ◌+◌, ◌<◌, negsuc, String, Bool, true, false, ◌||◌, ◌&&◌, Option, none, some, List, [], ◌∷◌,
  ◌==◌, leb, ltb, set, get_elem?, length, replicate, if◌then◌else◌,
}
use Prim.Native.String.{◌++◌ as ◌<>◌}
use no_gada_automation.Proframe.{
  ◌>>=◌, ◌>>◌, Rc, nrm, nfd, err, num, text, set_msg, set_err, set_add_err, msgq, set_err_attr,
  opened, closed, Pfm, wild, M, Proc, pure, leave, get, modify, emit, reads, call, body, pfm_try,
  dl_call,
}
use no_gada_automation.Proframe.Cursor.{Loop, fetch_loop}
use no_gada_automation.Bzop.{DateDbio, get_bzop_date}
use no_gada_automation.Rates.{RateDbio}
use Period.{unless_nrm, unless_called, set_locals, period_loop}

-- `rc = f; ` where the generated macro may leave with a code of its own.
abbrev pub checked : {P : Pfm} {F : Type 0} → (P.World → Option Rc) → M P F (Unit {0})
checked test = do bad ← reads test; elim bad [ none ↦ pure tt | some rc ↦ leave rc ]

-- `STRCMP(yn, "0") == 0 || STRCMP(yn, "") == 0`
abbrev pub is_off : String → Bool
is_off yn = yn == "0" || yn == ""

-- The block `DBIO_EXCEPTION` of node 17.
overview_exception : {P : Pfm} {F : Type 0} → Rc → M P F (Unit {0})
overview_exception nrm = pure tt
overview_exception nfd = do emit (set_msg "ZCOM00003" []); leave nrm
overview_exception {P} _ = do
  n ← reads P.errornum
  emit (set_err "ZCOM00005" (num n ∷ []))
  leave err

module _ (P : Pfm) (S : ReportPfm P) (D : ReportDbio P) (Q : RateDbio P) (T : DateDbio P)
    (input : ReportIn) where
  -- node 109
  init_node : M P (ReportFrame P) (Unit {0})
  init_node = do
    orig ← reads S.get_orig_trns_unq_id
    srvc ← reads S.get_srvc_code
    user ← reads S.get_user_id
    lngg ← reads S.get_lngg_type
    modify (λ fr. record fr {
      context = record fr.context {
        orig_trns_unq_id = orig;
        prgm_id = srvc;
        user_id = user;
        lngg_dtcd = lngg;
        ls_ptrn_data_pacd = "53619M_1";
        ls_ptrn_data_pacd2 = "53619C";
        num_999 = (P.num_from_long 999).1;
      };
    })
    unless_nrm 136 (P.num_from_long 999).0

  -- node 15: the business day before the report's date
  bzop_node : M P (ReportFrame P) (Unit {0})
  bzop_node = do
    (rc, result) ←
        dl_call "MPCOM_GetBzopDate"
          (get_bzop_date P T (record {
            thdy_incs_yn = "N";
            ntrd_incs_yn = "N";
            prsn_date = input.proc_date;
            calc_dycn = negsuc 0;
          }))
          (record { bzop_date = "" })
    unless_called "MPCOM_GetBzopDate" "영업일조회 호출 오류" rc
    modify (λ fr. record fr { context = record fr.context { ls_bzop_date = result.bzop_date } })

  pub init_proc : Proc P (ReportFrame P)
  init_proc = body do init_node; bzop_node

  pub input_valid_proc : Proc P (ReportFrame P)
  input_valid_proc = body (checked (S.not_null_in input))

  -- node 17, "펀드개요"
  pub overview_node : M P (ReportFrame P) (Unit {0})
  overview_node = do
    fr ← get
    (rc, found) ← call (
        D.select_overview (record {
          mncm_code = input.mncm_code;
          fund_code = input.fund_code;
          ptrn_data_pacd = fr.context.ls_ptrn_data_pacd;
          proc_date = input.proc_date;
          aply_date = input.aply_date;
        }))
    overview_exception rc
    modify (λ f. record f { output = record f.output { overview = found.overview } })
    modify (λ f. record f {
      locals = record f.locals { st1_chec_yn = found.st1_chec_yn; nd2_chec_yn = found.nd2_chec_yn };
    })

  -- `arr_suik_rt[i]`
  abbrev pub rate_at : ℕ → M P (ReportFrame P) P.Num
  rate_at i m = elim (get_elem? m.frame.locals.arr_suik_rt i) [
    | none ↦ (wild, m)
    | some v ↦ pure v m
  ]

  -- `OUTPUT->grid03[OUTPUT->grid_cnt03].… = …;` and the count
  abbrev pub add_row : GridRow P → M P (ReportFrame P) (Unit {0})
  add_row r m =
      if ltb m.frame.output.grid_cnt03 (length m.frame.output.grid03)
      then modify
          (λ f. record f {
            output = record f.output {
              grid03 = set f.output.grid03 f.output.grid_cnt03 r;
              grid_cnt03 = f.output.grid_cnt03 + 1;
            };
          })
          m
      else (wild, m)

  -- node 41, "SUB03"
  pub grid_node : FundRow → M P (ReportFrame P) (Unit {0})
  grid_node row = do
    r1 ← rate_at 1
    r2 ← rate_at 2
    r3 ← rate_at 3
    r4 ← rate_at 4
    r5 ← rate_at 5
    r6 ← rate_at 6
    r7 ← rate_at 7
    r8 ← rate_at 8
    add_row (record {
      trgt_dtcd = row.trgt_dtcd;
      fund_code = row.fund_code;
      fund_name = row.fund_name;
      stup_date = row.firt_stup_date;
      mn1_rnrt = r1;
      mn3_rnrt = r2;
      mn6_rnrt = r3;
      yr1_rnrt = r4;
      yr3_rnrt = r5;
      yr5_rnrt = r6;
      st1_rnrt = r7;
      nd2_rnrt = r8;
    })

  -- `arr_suik_rt[0] = PFMNUM_ZERO;` to `arr_suik_rt[5]`
  abbrev pub zero_rates : List P.Num → List P.Num
  zero_rates a =
      set
        (set (set (set (set (set a 0 P.num_zero) 1 P.num_zero) 2 P.num_zero) 3 P.num_zero) 4
          P.num_zero)
        5 P.num_zero

  -- nodes 39, 40 and 41: a row that is to be shown
  pub show_row : FundRow → M P (ReportFrame P) Bool
  show_row row = do
    fr ← get
    if leb S.as_grid03 fr.output.grid_cnt03 then pure false else (do
      set_locals P S Q input (λ l. record l { arr_suik_rt = zero_rates l.arr_suik_rt })
      period_loop P S Q input 8 1 row
      grid_node row
      pure true)

  -- one round of node 38, "출력 루프"
  pub visit_row : FundRow → M P (ReportFrame P) Bool
  visit_row row = do
    fr ← get
    if row.trgt_dtcd == "2" && is_off fr.locals.st1_chec_yn
        then pure true
        else if row.trgt_dtcd == "3" && is_off fr.locals.nd2_chec_yn
        then pure true
        else show_row row

  abbrev pub close : M P (ReportFrame P) Rc
  close = do rc ← call D.close_funds; emit (closed "PFO_FUND_BS_DF036"); pure rc

  -- `PFM_SET_ADD_ERR("ZCOM00145", "PFO_FUND_BS_DF036", PDB_ERRORNUM, PDB_ERRORSTR);`
  abbrev add_err : M P (ReportFrame P) (Unit {0})
  add_err = do
    n ← reads P.errornum
    s ← reads P.errorstr
    emit (set_add_err "ZCOM00145" (text "PFO_FUND_BS_DF036" ∷ num n ∷ text s ∷ []))

  pub no_funds : M P (ReportFrame P) Bool
  no_funds = do emit (set_msg "ZCOM00003" []); add_err; emit (msgq 30); rc ← close; leave nrm

  pub fetch_failed : M P (ReportFrame P) Bool
  fetch_failed = do
    n ← reads P.errornum
    emit (set_err "ZCOM00005" (num n ∷ []))
    add_err
    emit (set_err_attr 20)
    rc ← close
    leave err

  abbrev pub fund_loop : Loop P (ReportFrame P) FundRow
  fund_loop = record {
    fetch = D.fetch_funds;
    when_empty = no_funds;
    when_failed = λ _. fetch_failed;
    visit = λ ix cur tot row. visit_row row;
  }

  abbrev pub zero_row : FundRow
  zero_row = record { trgt_dtcd = ""; fund_code = ""; fund_name = ""; firt_stup_date = "" }

  -- what node 36 passes to the cursor
  abbrev pub funds_in : FundListIn
  funds_in = record {
    mncm_code = input.mncm_code;
    fund_code = input.fund_code;
    mncm_date_gpcd = "PCSP53619P02" <> input.aply_date;
  }

  -- node 36, "운용펀드_종류형펀드_BM_목록 다건조회Fetch Loop", with fuel for the `while`
  pub fund_node : ℕ → M P (ReportFrame P) (Unit {0})
  fund_node fuel = do
    set_locals P S Q input (λ l. record l {
      w_gijun_ymd = "";
      w_calc = P.num_zero;
      arr_suik_rt = replicate 10 P.num_bzero;
    })
    rc ← call (D.open_funds funds_in)
    emit (opened "PFO_FUND_BS_DF036" rc)
    failed ← reads P.chk_fail
    if failed then leave rc else pure tt
    fetch_loop fund_loop fuel 0 (replicate 50 zero_row)
    closing ← close
    if P.try_jumps closing then leave closing else pure tt

  pub main_proc : ℕ → Proc P (ReportFrame P)
  main_proc fuel = body do
    set_locals P S Q input (λ l. record l { st1_chec_yn = ""; nd2_chec_yn = "" })
    overview_node
    fund_node fuel

  pub norm_exit_proc : Proc P (ReportFrame P)
  norm_exit_proc = body do fr ← get; checked (S.not_null_out fr.output)

  -- `SPCSP53619C`; `bzero` has cleared the context.
  unfoldable pub monthly_report : ℕ → Proc P (ReportFrame P)
  monthly_report fuel = body do
    modify (λ fr. record fr {
      context = record {
        orig_trns_unq_id = "";
        prgm_id = "";
        user_id = "";
        lngg_dtcd = "";
        ls_ptrn_data_pacd = "";
        ls_ptrn_data_pacd2 = "";
        num_999 = P.num_bzero;
        ls_bzop_date = "";
      };
    })
    pfm_try init_proc
    pfm_try input_valid_proc
    pfm_try (main_proc fuel)
    pfm_try norm_exit_proc
