-- ===== src/Report/Period/Spec.antt =====
-- Which rate SPCSP53619C.c should report for a fund and a period.
use no_gada_automation.Base.{ℕ, zero, suc, negsuc, String, precedes, if◌then◌else◌}
use Prim.Native.String.{◌++◌ as ◌<>◌}
use no_gada_automation.Proframe.{Pfm}
use no_gada_automation.Report.Types.{ReportIn, FundRow, ReportPfm, one}

module _ (P : Pfm) (S : ReportPfm P) (input : ReportIn) where
  -- The day after the report's date some months back; `back` is the number of months less one.
  abbrev pub day_after_months : ℕ → String
  day_after_months back = (S.add_date one (S.add_month_ora input.proc_date (negsuc back)).1 1).1

  -- One, three and six months, one, three and five years, the year's first day, the fund's own.
  abbrev pub start_of : FundRow → ℕ → String
  start_of row (suc zero) = day_after_months 0
  start_of row (suc (suc zero)) = day_after_months 2
  start_of row (suc (suc (suc zero))) = day_after_months 5
  start_of row (suc (suc (suc (suc zero)))) = day_after_months 11
  start_of row (suc (suc (suc (suc (suc zero))))) = day_after_months 35
  start_of row (suc (suc (suc (suc (suc (suc zero)))))) = day_after_months 59
  start_of row (suc (suc (suc (suc (suc (suc (suc zero))))))) =
      S.sub_string input.proc_date 0 4 <> "0101"
  start_of row _ = row.firt_stup_date

  -- The rate that both modules leave, in percent and rounded.
  abbrev pub rounded : P.Num
  rounded = (P.num_round_at (P.num_calc "%n * 100" P.num_bzero).1 2).1

  -- The marker stands for a period that starts before the fund does.
  abbrev pub kept_rate : P.Num → FundRow → ℕ → P.Num
  kept_rate marker row j = if precedes (start_of row j) row.firt_stup_date then marker else rounded
