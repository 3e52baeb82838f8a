-- ===== src/Report/Tests.antt =====
-- SPCSP53619C and its loops on a sample cursor.
use no_gada_automation.Base.{◌≡◌, ◌≢◌, ◌⊎◌, refl, [], ◌∷◌, List, replicate, arith}
use no_gada_automation.Proframe.{nrm, Machine}
use no_gada_automation.Proframe.Cursor.Rule.{Ensures}
use no_gada_automation.Proframe.Cursor.Sample.{Store}
use no_gada_automation.Sample.{runtime-IsLawful}
use no_gada_automation.Proframe.Cursor.Ensures.{unbroken}
use no_gada_automation.Report.{FundRow, ReportFrame, fund_node, init_proc, monthly_report}
use no_gada_automation.Proframe.Returns.{Returns}
use no_gada_automation.Report.Whole.{Fit, Answers}
use no_gada_automation.Report.Whole.Service.{monthly_report-Answers, monthly_report-Returns}
use no_gada_automation.Report.Period.{period_loop}
use no_gada_automation.Report.Period.Kept.{Looped, period_loop-Looped}
use no_gada_automation.Report.Grid.Node.{FilledBy, fund_node-FilledBy, fund_node-Safe}
use no_gada_automation.Report.Sample.{
  fetched, broken_funds, broken_cursor, broken_apart, rt, main_fund, request, services, funds,
  histories, dates, before_funds, cursor, apart, smooth,
}
use no_gada_automation.Report.Whole.Date.{Dated, init_proc-Dated}
use no_gada_automation.Bzop.Calendar.{calendar, DateRow}

fund_node-FilledBy_example :
    Ensures
      (λ _ m'.
        FilledBy rt
          (runtime-IsLawful (Store FundRow) (λ w. w.count))
          services
          funds
          histories
          dates
          cursor
          apart
          request
          before_funds
          m')
      (λ rc m'.
        (rc ≡ nrm)
        × FilledBy rt
            (runtime-IsLawful (Store FundRow) (λ w. w.count))
            services
            funds
            histories
            dates
            cursor
            apart
            request
            before_funds
            m')
      (fund_node rt services funds histories dates request 4 before_funds)
fund_node-FilledBy_example =
    fund_node-FilledBy rt (runtime-IsLawful (Store FundRow) (λ w. w.count)) services funds histories
      dates cursor apart request 4 before_funds refl refl refl refl (omega arith) smooth (λ _. refl)
      fetched

fund_node-Safe_example :
    Ensures
      (λ _ m'.
        FilledBy rt
          (runtime-IsLawful (Store FundRow) (λ w. w.count))
          services
          funds
          histories
          dates
          cursor
          apart
          request
          before_funds
          m')
      (λ rc m'.
        (rc ≢ nrm)
        ⊎ FilledBy rt
            (runtime-IsLawful (Store FundRow) (λ w. w.count))
            services
            funds
            histories
            dates
            cursor
            apart
            request
            before_funds
            m')
      (fund_node rt services funds histories dates request 4 before_funds)
fund_node-Safe_example =
    fund_node-Safe rt (runtime-IsLawful (Store FundRow) (λ w. w.count)) services funds histories
      dates cursor apart request 4 before_funds refl refl (λ bad. unbroken bad) (λ _. refl)
      (λ _. omega arith)

-- The first fetch fails.
fund_node-Safe_broken :
    Ensures
      (λ _ m'.
        FilledBy rt
          (runtime-IsLawful (Store FundRow) (λ w. w.count))
          services
          broken_funds
          histories
          dates
          broken_cursor
          broken_apart
          request
          before_funds
          m')
      (λ rc m'.
        (rc ≢ nrm)
        ⊎ FilledBy rt
            (runtime-IsLawful (Store FundRow) (λ w. w.count))
            services
            broken_funds
            histories
            dates
            broken_cursor
            broken_apart
            request
            before_funds
            m')
      (fund_node rt services broken_funds histories dates request 4 before_funds)
fund_node-Safe_broken =
    fund_node-Safe rt (runtime-IsLawful (Store FundRow) (λ w. w.count)) services broken_funds
      histories dates broken_cursor broken_apart request 4 before_funds refl refl
      (λ bad. unbroken bad) (λ _. refl) (λ _. omega arith)

abbrev before_periods : Machine rt (ReportFrame rt)
before_periods = record before_funds {
  frame = record before_funds.frame {
    locals = record before_funds.frame.locals { arr_suik_rt = replicate 10 0 };
  };
}

period_loop-Looped_example :
    Ensures
      (λ _ m'.
        Looped rt
          (runtime-IsLawful (Store FundRow) (λ w. w.count))
          services
          histories
          cursor
          apart
          request
          8
          1
          main_fund
          before_periods
          m')
      (λ _ _. ⊥)
      (period_loop rt services histories request 8 1 main_fund before_periods)
period_loop-Looped_example =
    period_loop-Looped rt (runtime-IsLawful (Store FundRow) (λ w. w.count)) services histories
      cursor apart request 8 1 main_fund before_periods (omega arith) (omega arith) (omega arith)
      smooth

abbrev fit :
    Fit rt
      (runtime-IsLawful (Store FundRow) (λ w. w.count))
      services
      funds
      histories
      dates
      cursor
      apart
      request
fit = record {
  smooth = smooth;
  opens = λ _. refl;
  fetches = fetched;
  closes = λ _. refl;
  marker = refl;
  dates = λ _ _ _. refl;
  overviews = λ _ _. refl;
  inputs = λ _. refl;
  outputs = λ _ _. refl;
}

monthly_report-Answers_example :
    Returns
      (λ rc m'.
        (rc ≡ nrm)
        × Answers rt
            (runtime-IsLawful (Store FundRow) (λ w. w.count))
            services
            funds
            histories
            dates
            cursor
            apart
            request
            before_funds
            m')
      (monthly_report rt services funds histories dates request 4 before_funds)
monthly_report-Answers_example =
    monthly_report-Answers rt (runtime-IsLawful (Store FundRow) (λ w. w.count)) services funds
      histories dates cursor apart request 4 (λ _ _. refl) (λ _ _. omega arith) before_funds refl
      refl fit

monthly_report-Returns_example :
    Returns
      (λ rc m'.
        (rc ≢ nrm)
        ⊎ Answers rt
            (runtime-IsLawful (Store FundRow) (λ w. w.count))
            services
            funds
            histories
            dates
            cursor
            apart
            request
            before_funds
            m')
      (monthly_report rt services funds histories dates request 4 before_funds)
monthly_report-Returns_example =
    monthly_report-Returns rt (runtime-IsLawful (Store FundRow) (λ w. w.count)) services funds
      histories dates cursor apart request 4 (λ _ _. refl) (λ _ _. omega arith) before_funds
      (λ _ bad. unbroken bad) refl refl

-- The report is of the 31st; the 29th and the 30th are open.
abbrev days : List DateRow
days =
    record { prsn_date = "20240129"; bzop_date = "20240129"; holy_yn = "N" }
    ∷ record { prsn_date = "20240130"; bzop_date = "20240130"; holy_yn = "N" }
    ∷ []

init_proc-Dated_example :
    Returns
      (Dated rt
        (runtime-IsLawful (Store FundRow) (λ w. w.count))
        services
        funds
        histories
        (λ _. days)
        request
        before_funds)
      (init_proc rt services funds histories (calendar rt (λ _. days)) request before_funds)
init_proc-Dated_example =
    init_proc-Dated rt (runtime-IsLawful (Store FundRow) (λ w. w.count)) services funds histories
      (λ _. days) request before_funds refl refl
