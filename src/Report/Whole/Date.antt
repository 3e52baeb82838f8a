-- ===== src/Report/Whole/Date.antt =====
-- The business day before the report's date, from the queries as they are written.
use no_gada_automation.Base.{negsuc, ◌≡◌, refl, String, List, Option, none, some, arith}
use no_gada_automation.Proframe.{Rc, nrm, Pfm, IsLawful, Machine}
use no_gada_automation.Proframe.Returns.{Returns}
use no_gada_automation.Rates.{RateDbio}
use no_gada_automation.Bzop.{BzopIn, BzopOut}
use no_gada_automation.Bzop.Calendar.{DateRow, first_row, calendar}
use no_gada_automation.Bzop.Spec.{before}
use no_gada_automation.Bzop.Calendar.Answer.{allowed, get_bzop_date-eq-answered}
use no_gada_automation.Report.{
  ReportIn, ReportFrame, ReportPfm, ReportDbio, init_node, bzop_node, init_proc,
}

module _ (P : Pfm) (L : IsLawful P) (S : ReportPfm P) (D : ReportDbio P) (Q : RateDbio P)
    (table : P.World → List DateRow) (input : ReportIn) where
  -- The open days strictly before the report's date.
  abbrev pub request : BzopIn
  request = record {
    thdy_incs_yn = "N";
    ntrd_incs_yn = "N";
    prsn_date = input.proc_date;
    calc_dycn = negsuc 0;
  }

  abbrev pub date_of : Option DateRow → String
  date_of none = ""
  date_of (some row) = row.bzop_date

  abbrev pub Dated : Machine P (ReportFrame P) → Rc → Machine P (ReportFrame P) → Type 0
  Dated m rc m' =
      (rc ≡ nrm)
      × (m'.frame.context.ls_bzop_date
          ≡ date_of (first_row (allowed before request) (table m.world)))

  -- Over a lawful runtime in which the module loads and 999 becomes a number, the report's first step
  -- returns `RC_NRM` and keeps the day that the first row of the table gives that is open and strictly
  -- before the report's date, in the order in which the database produces the rows, or no day if there
  -- is no such row.
  pub init_proc-Dated :
      (m : Machine P (ReportFrame P))
      → P.dl_load "MPCOM_GetBzopDate" m.world ≡ none
      → (P.num_from_long 999).0 ≡ nrm
      → Returns (Dated m) (init_proc P S D Q (calendar P table) input m)
  unfolding init_proc init_node bzop_node
  init_proc-Dated m loads marker =
      by_found (first_row (allowed before request) (table m.world)) refl
    where
      inner : Machine P BzopOut
      inner = record { frame = record { bzop_date = "" }; world = m.world; log = m.log }

      by_found :
          (found : Option DateRow)
          → first_row (allowed before request) (table m.world) ≡ found
          → Returns (Dated m) (init_proc P S D Q (calendar P table) input m)
      by_found none e =
          ground (arith, loads, marker, e, get_bzop_date-eq-answered P L table request inner)
      by_found (some row) e =
          ground (arith, loads, marker, e, get_bzop_date-eq-answered P L table request inner)
