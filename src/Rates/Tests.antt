-- ===== src/Rates/Tests.antt =====
-- `MPCOM_CalcFndRntn` and `MPCOM_CalcBmRnrt` on sample histories.
use no_gada_automation.Base.{ℕ, suc, ◌≡◌, [], ◌∷◌, ◌==◌, if◌then◌else◌}
use no_gada_automation.Proframe.{nrm, nfd, err, text, set_err, opened, returned}
use no_gada_automation.Sample.{counting, runtime-IsLawful, start}
use no_gada_automation.Rates.{FundRateIn, BmRateIn, RateDbio, calc_fnd_rntn, calc_bm_rnrt}
use no_gada_automation.Rates.Spec.{calc_fnd_rntn-eq-opens, calc_bm_rnrt-eq-opens}

-- One fund has a history; a benchmark without a template has an error.
abbrev histories : RateDbio counting
histories = record {
  open_fund = λ i n. if i.fund_code == "F1" then (nrm, suc n) else (nfd, suc n);
  open_bm = λ i n. if i.bm_templt_code == "" then (err, suc n) else (nrm, suc n);
}

abbrev fund_in : FundRateIn
fund_in = record {
  lngg_dtcd = "KO";
  mncm_code = "M1";
  fund_code = "F1";
  rnrt_cmpu_mhcd = "1";
  strn_date = "20240101";
  end_date = "20240131";
}

abbrev bm_in : BmRateIn
bm_in = record {
  lngg_dtcd = "KO";
  mncm_code = "M1";
  fund_code = "F1";
  bm_templt_code = "";
  dtcd = "1";
  strn_date = "20240101";
  end_date = "20240131";
}

calc_fnd_rntn-eq-opens_example :
    calc_fnd_rntn counting histories fund_in (start (record { rnrt = 7 })) ≡ (
      returned nrm,
      record {
        frame = record { rnrt = 7 };
        world = 1;
        log = opened "PFO_FUND_RNTN_HT_DS102" nrm ∷ [];
      },
    )
calc_fnd_rntn-eq-opens_example =
    calc_fnd_rntn-eq-opens counting histories (runtime-IsLawful ℕ (λ _. 0)) fund_in
      (start (record { rnrt = 7 }))

calc_bm_rnrt-eq-opens_example :
    calc_bm_rnrt counting histories bm_in (start (record { rnrt = 7 })) ≡ (
      returned err,
      record {
        frame = record { rnrt = 7 };
        world = 1;
        log = set_err "ZCOM00014" (text "no data" ∷ []) ∷ opened "PFO_BM_RNRT_HT_DS103" err ∷ [];
      },
    )
calc_bm_rnrt-eq-opens_example =
    calc_bm_rnrt-eq-opens counting histories (runtime-IsLawful ℕ (λ _. 0)) bm_in
      (start (record { rnrt = 7 }))
