-- ===== src/Report/Whole.antt =====
-- SPCSP53619C as a whole: what it should answer.
pub mod Date
pub mod Parts
pub mod Service
use no_gada_automation.Base.{◌≡◌, ◌≢◌, ◌⊎◌, none, false, List, String}
use no_gada_automation.Proframe.{Rc, nrm, nfd, Pfm, IsLawful, Machine}
use no_gada_automation.Proframe.Cursor.Rule.{IsFaulty}
use no_gada_automation.Bzop.{DateIn, DateDbio}
use no_gada_automation.Rates.{RateDbio}
use no_gada_automation.Rates.Spec.{settled}
use no_gada_automation.Report.{
  ReportIn, FundRow, OverviewIn, OverviewOut, ReportFrame, ReportOut, ReportPfm, ReportDbio,
  funds_in,
}
use no_gada_automation.Report.Period.Calm.{KeepsCursor, Smooth}
use no_gada_automation.Report.Grid.{Filled}

module _ (P : Pfm) (L : IsLawful P) (S : ReportPfm P) (D : ReportDbio P) (Q : RateDbio P)
    (T : DateDbio P) (C : IsFaulty P 50 D.fetch_funds) (K : KeepsCursor P Q C)
    (input : ReportIn) where
  -- No call fails, and the checks of the input and of the output find nothing missing.
  pub record Fit : Type 0 where
    pub smooth : Smooth P S Q
    pub opens : (w : P.World) → P.chk_fail (D.open_funds (funds_in P S D Q T input) w).1 ≡ false
    pub fetches : (rows : List FundRow) (w : P.World) → settled (D.fetch_funds rows w).0.0 ≡ nrm
    pub closes : (w : P.World) → (D.close_funds w).0 ≡ nrm
    pub marker : (P.num_from_long 999).0 ≡ nrm
    pub dates : (id : String) (i : DateIn) (w : P.World) → settled (T.select id i w).0.0 ≡ nrm
    pub overviews : (i : OverviewIn) (w : P.World) → settled (D.select_overview i w).0.0 ≡ nrm
    pub inputs : (w : P.World) → S.not_null_in input w ≡ none
    pub outputs : (o : ReportOut P) (w : P.World) → S.not_null_out o w ≡ none

  abbrev pub Bad : Rc → Machine P (ReportFrame P) → Type 0
  Bad rc _ = (rc ≢ nrm) × ¬ Fit

  abbrev pub OnNrm : (Machine P (ReportFrame P) → Type 0) → Rc → Machine P (ReportFrame P) → Type 0
  OnNrm Post rc m = Bad rc m ⊎ ((rc ≡ nrm) × Post m)

  abbrev pub overview_in : OverviewIn
  overview_in = record {
    mncm_code = input.mncm_code;
    fund_code = input.fund_code;
    ptrn_data_pacd = "53619M_1";
    proc_date = input.proc_date;
    aply_date = input.aply_date;
  }

  abbrev pub asked : P.World → (Rc × OverviewOut P) × P.World
  asked w = D.select_overview overview_in w

  -- What the service answers with `RC_NRM`: nothing new, if the overview is not found; else the
  -- overview and the grid, filled by the overview's check boxes.
  abbrev pub Unfound : Machine P (ReportFrame P) → Machine P (ReportFrame P) → Type 0
  Unfound m m' = (w : P.World) × ((asked w).0.0 ≡ nfd) × (m'.frame.output ≡ m.frame.output)

  abbrev pub Reported : Machine P (ReportFrame P) → Type 0
  Reported m' =
      (w : P.World) × ((asked w).0.0 ≡ nrm)
      × Filled P S input (asked w).0.1.overview (asked w).0.1.st1_chec_yn (asked w).0.1.nd2_chec_yn
          (P.num_from_long 999).1
          (C.pending (D.open_funds (funds_in P S D Q T input) (asked w).1).1) m'.frame

  abbrev pub Answers : Machine P (ReportFrame P) → Machine P (ReportFrame P) → Type 0
  Answers m m' = Unfound m m' ⊎ Reported m'
