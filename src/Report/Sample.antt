-- ===== src/Report/Sample.antt =====
-- A report, its database and its runtime, for the examples.
use no_gada_automation.Base.{◌≡◌, refl, sym, true, List, [], ◌∷◌, none, arith}
use no_gada_automation.Proframe.{nrm, nfd, err, Pfm, Machine}
use no_gada_automation.Proframe.Cursor.Rule.{IsFaulty, steady}
use no_gada_automation.Proframe.Cursor.Ensures.{unbroken}
use no_gada_automation.Rates.Spec.{settled}
use no_gada_automation.Proframe.Cursor.Sample.{Store, fetch_page, stored, page_cursor}
use no_gada_automation.Bzop.{DateDbio}
use no_gada_automation.Rates.{RateDbio}
use no_gada_automation.Report.{
  ReportIn, Overview, FundRow, GridRow, ReportFrame, ReportPfm, ReportDbio,
}
use no_gada_automation.Report.Period.Calm.{KeepsCursor, Smooth}

abbrev pub rt : Pfm
rt = stored FundRow

abbrev pub class_fund : FundRow
class_fund = record {
  trgt_dtcd = "2";
  fund_code = "F2";
  fund_name = "class";
  firt_stup_date = "20200101";
}

abbrev pub main_fund : FundRow
main_fund = record {
  trgt_dtcd = "1";
  fund_code = "F1";
  fund_name = "main";
  firt_stup_date = "20240115";
}

abbrev pub benchmark : FundRow
benchmark = record {
  trgt_dtcd = "3";
  fund_code = "B1";
  fund_name = "index";
  firt_stup_date = "20190101";
}

abbrev pub request : ReportIn
request = record {
  mncm_code = "M1";
  fund_code = "F1";
  proc_date = "20240131";
  aply_date = "20240131";
}

abbrev pub services : ReportPfm rt
services = record {
  get_orig_trns_unq_id = λ _. "T1";
  get_srvc_code = λ _. "SPCSP53619C";
  get_user_id = λ _. "U1";
  get_lngg_type = λ _. "KO";
  not_null_in = λ _ _. none;
  not_null_out = λ _ _. none;
  add_month_ora = λ d k. (nrm, d);
  add_date = λ mode d k. (nrm, d);
  sub_string = λ s i k. "2024";
  as_grid03 = 2;
}

abbrev pub zeroes : Overview rt
zeroes = record {
  fund_name = "";
  st1_infr_ltrs_cntn = "";
  nd2_infr_ltrs_cntn = "";
  fund_type_dncd = "";
  st1_fund_ovrv_cntn = "";
  nd2_fund_ovrv_cntn = "";
  th3_fund_ovrv_cntn = "";
  th4_fund_ovrv_cntn = "";
  th5_fund_ovrv_cntn = "";
  th6_fund_ovrv_cntn = "";
  st1_rprt_cntn = "";
  th3_infr_ltrs_cntn = "";
  th4_infr_ltrs_cntn = "";
  th5_infr_ltrs_cntn = "";
  th6_infr_ltrs_cntn = "";
  stup_amt = 0;
  fund_rnrt = 0;
}

abbrev pub funds : ReportDbio rt
funds = record {
  select_overview =
      λ i w. ((nrm, record { overview = zeroes; st1_chec_yn = "0"; nd2_chec_yn = "1" }), w);
  open_funds = λ i w. (nrm, record { left = class_fund ∷ main_fund ∷ benchmark ∷ []; count = 0 });
  fetch_funds = fetch_page 50;
  close_funds = λ w. (nrm, w);
}

abbrev pub histories : RateDbio rt
histories = record { open_fund = λ i w. (nrm, w); open_bm = λ i w. (nfd, w) }

abbrev pub dates : DateDbio rt
dates = record { select = λ id i w. ((nfd, record { bzop_date = "" }), w) }

abbrev pub blank : GridRow rt
blank = record {
  trgt_dtcd = "";
  fund_code = "";
  fund_name = "";
  stup_date = "";
  mn1_rnrt = 0;
  mn3_rnrt = 0;
  mn6_rnrt = 0;
  yr1_rnrt = 0;
  yr3_rnrt = 0;
  yr5_rnrt = 0;
  st1_rnrt = 0;
  nd2_rnrt = 0;
}

-- The first check box is off, the second on.
abbrev pub before_funds : Machine rt (ReportFrame rt)
before_funds = record {
  frame = record {
    context = record {
      orig_trns_unq_id = "";
      prgm_id = "";
      user_id = "";
      lngg_dtcd = "KO";
      ls_ptrn_data_pacd = "53619M_1";
      ls_ptrn_data_pacd2 = "53619C";
      num_999 = 999;
      ls_bzop_date = "";
    };
    output = record { overview = zeroes; grid_cnt03 = 0; grid03 = blank ∷ blank ∷ [] };
    locals = record {
      st1_chec_yn = "0";
      nd2_chec_yn = "1";
      w_gijun_ymd = "";
      w_calc = 0;
      arr_suik_rt = [];
    };
  };
  world = record { left = []; count = 0 };
  log = [];
}

abbrev pub cursor : IsFaulty rt 50 funds.fetch_funds
cursor = steady (page_cursor 50)

abbrev pub apart : KeepsCursor rt histories cursor
apart = record {
  fund_pending = λ _ _. refl;
  fund_delivered = λ _ _. refl;
  bm_pending = λ _ _. refl;
  bm_delivered = λ _ _. refl;
}

abbrev pub smooth : Smooth rt services histories
smooth = record {
  loads = λ _ _. refl;
  months = λ _ _. refl;
  days = λ _. refl;
  scales = λ _. refl;
  rounds = λ _. refl;
  fund_opens = λ _ _. refl;
  bm_opens = λ _ _. refl;
}

pub fetched :
    (rows : List FundRow) (w : Store FundRow) → settled (funds.fetch_funds rows w).0.0 ≡ nrm
fetched rows w = ground arith

-- The same database with a fetch that fails at once.
abbrev pub broken_funds : ReportDbio rt
broken_funds = record funds { fetch_funds = λ rows w. ((err, rows), w) }

abbrev pub broken_cursor : IsFaulty rt 50 broken_funds.fetch_funds
broken_cursor = record {
  pending = λ w. w.left;
  delivered = λ w. w.count;
  broken = λ _. true;
  full_page = λ _ _ h. unbroken (sym h);
  last_page = λ _ _ h. unbroken (sym h);
  counted = λ _ _ h. unbroken (sym h);
  fails = λ _ _ _. ((λ e. cc), (λ e. cc));
}

abbrev pub broken_apart : KeepsCursor rt histories broken_cursor
broken_apart = record {
  fund_pending = λ _ _. refl;
  fund_delivered = λ _ _. refl;
  bm_pending = λ _ _. refl;
  bm_delivered = λ _ _. refl;
}
