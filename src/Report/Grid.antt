-- ===== src/Report/Grid.antt =====
-- The grid that the fund loop of SPCSP53619C.c fills: which rows it has, and what stands in them.
pub mod Row
pub mod Visit
pub mod Node
use no_gada_automation.Base.{
  ◌≡◌, ◌≢◌, Bool, true, false, ◌&&◌, ◌⊎◌, String, List, ◌==◌, length, take, keep, map,
  if◌then◌else◌,
}
use no_gada_automation.Proframe.{Rc, nrm, Pfm, Machine}
use no_gada_automation.Rates.{RateDbio}
use no_gada_automation.Rates.Spec.{settled}
use no_gada_automation.Report.{
  ReportIn, Overview, FundRow, GridRow, ReportFrame, ReportPfm, ReportDbio, is_off,
}
use no_gada_automation.Report.Period.Calm.{Smooth}
use no_gada_automation.Report.Period.Spec.{kept_rate}

-- A row of the cursor is left out if its kind is switched off in the overview.
abbrev pub shown : String → String → FundRow → Bool
shown st1 nd2 row =
    if row.trgt_dtcd == "2" && is_off st1
    then false
    else if row.trgt_dtcd == "3" && is_off nd2
    then false
    else true

-- The row of the grid that a fund should have: its keys, and its rate for each of the eight periods.
abbrev pub row_of : (P : Pfm) (S : ReportPfm P) → ReportIn → P.Num → FundRow → GridRow P
row_of P S input marker row = record {
  trgt_dtcd = row.trgt_dtcd;
  fund_code = row.fund_code;
  fund_name = row.fund_name;
  stup_date = row.firt_stup_date;
  mn1_rnrt = kept_rate P S input marker row 1;
  mn3_rnrt = kept_rate P S input marker row 2;
  mn6_rnrt = kept_rate P S input marker row 3;
  yr1_rnrt = kept_rate P S input marker row 4;
  yr3_rnrt = kept_rate P S input marker row 5;
  yr5_rnrt = kept_rate P S input marker row 6;
  st1_rnrt = kept_rate P S input marker row 7;
  nd2_rnrt = kept_rate P S input marker row 8;
}

-- The grid behind the funds `seen`: the first of them that are shown, up to its size, in order.
pub record Filled (P : Pfm) (S : ReportPfm P) (input : ReportIn) (ov : Overview P)
    (st1 nd2 : String) (marker : P.Num) (seen : List FundRow) (f : ReportFrame P) : Type 0 where
  pub overview : f.output.overview ≡ ov
  pub st1_chec_yn : f.locals.st1_chec_yn ≡ st1
  pub nd2_chec_yn : f.locals.nd2_chec_yn ≡ nd2
  pub num_999 : f.context.num_999 ≡ marker
  pub places : length f.locals.arr_suik_rt ≡ 10
  pub room : length f.output.grid03 ≡ S.as_grid03
  pub count : f.output.grid_cnt03 ≡ length (take S.as_grid03 (keep (shown st1 nd2) seen))
  pub rows :
      take f.output.grid_cnt03 f.output.grid03
      ≡ map (row_of P S input marker) (take S.as_grid03 (keep (shown st1 nd2) seen))

-- Left early: for a call that fails, or because there is nothing to show.
abbrev pub Left :
    (P : Pfm) (S : ReportPfm P) (D : ReportDbio P) (Q : RateDbio P)
    → ReportIn
    → Overview P
    → String
    → String
    → P.Num
    → List FundRow
    → Rc
    → Machine P (ReportFrame P)
    → Type 0
Left P S D Q input ov st1 nd2 marker all rc m =
    ((rc ≢ nrm)
      × ¬ (
          Smooth P S Q
          × ((w : P.World) → (D.close_funds w).0 ≡ nrm)
          × ((rows : List FundRow) (w : P.World) → settled (D.fetch_funds rows w).0.0 ≡ nrm)))
    ⊎ ((rc ≡ nrm) × Filled P S input ov st1 nd2 marker all m.frame)
