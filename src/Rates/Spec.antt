-- ===== src/Rates/Spec.antt =====
-- Both modules against one description: the cursor is opened, and no rate is written.
use no_gada_automation.Base.{◌≡◌, ◌≢◌, refl, ◌∙◌, String, [], ◌∷◌, ◌++◌, List, arith}
use no_gada_automation.Proframe.{
  Rc, nrm, nfd, err, text, Event, set_msg, set_err, opened, Pfm, IsLawful, Machine, returned, Proc,
}
use no_gada_automation.Proframe.Laws.{body-main_step}
use no_gada_automation.Rates.{
  FundRateIn, BmRateIn, RateOut, RateDbio, open_exception, init_proc, input_valid_proc,
  norm_exit_proc, fund_main_proc, bm_main_proc, calc_fnd_rntn, calc_bm_rnrt,
}

-- The code returned for one of the cursor's open: "not found" is `RC_NRM` too, all else `RC_ERR`.
abbrev pub settled : Rc → Rc
settled nrm = nrm
settled nfd = nrm
settled _ = err

pub settled-ne_nrm : (rc : Rc) → rc ≢ nrm → rc ≢ nfd → settled rc ≢ nrm
settled-ne_nrm nrm h k = absurd (h refl)
settled-ne_nrm nfd h k = absurd (k refl)
settled-ne_nrm _ h k = λ e. cc

module _ (P : Pfm) where
  -- The message for a code, given the state behind the call.
  abbrev pub report : Rc → P.World → List Event
  report nrm w = []
  report nfd w = set_msg "ZCOM00003" [] ∷ []
  report _ w = set_err "ZCOM00014" (text (P.errorstr w) ∷ []) ∷ []

  -- One cursor opened, its code reported unless it is `RC_NRM`, and the output structure untouched.
  abbrev pub opens : String → (P.World → Rc × P.World) → Proc P (RateOut P)
  opens id start m =
      let (rc, w) = start m.world in
      (returned (settled rc), record m { world = w; log = report rc w ++ (opened id rc ∷ m.log) })

module _ (P : Pfm) (D : RateDbio P) (L : IsLawful P) where
  -- Over a lawful runtime `MPCOM_CalcFndRntn` opens one cursor with the fund and the dates of its
  -- input, returns `RC_NRM` if rows are found or none are and `RC_ERR` otherwise, reports each
  -- code but `RC_NRM`, closes no cursor, and leaves the rate in its output as it was.
  pub calc_fnd_rntn-eq-opens :
      (input : FundRateIn) (m : Machine P (RateOut P))
      → calc_fnd_rntn P D input m
        ≡ opens P "PFO_FUND_RNTN_HT_DS102"
            (D.open_fund (record {
              mncm_code = input.mncm_code;
              fund_code = input.fund_code;
              strn_date = input.strn_date;
              end_date = input.end_date;
            }))
            m
  unfolding calc_fnd_rntn init_proc input_valid_proc norm_exit_proc fund_main_proc open_exception
  calc_fnd_rntn-eq-opens input m = body-main_step L (fund_main_proc P D input) m ∙ ground arith

  -- `MPCOM_CalcBmRnrt` does the same with the benchmark template and the dates of its input.
  pub calc_bm_rnrt-eq-opens :
      (input : BmRateIn) (m : Machine P (RateOut P))
      → calc_bm_rnrt P D input m
        ≡ opens P "PFO_BM_RNRT_HT_DS103"
            (D.open_bm (record {
              mncm_code = input.mncm_code;
              bm_templt_code = input.bm_templt_code;
              strn_date = input.strn_date;
              end_date = input.end_date;
            }))
            m
  unfolding calc_bm_rnrt init_proc input_valid_proc norm_exit_proc bm_main_proc open_exception
  calc_bm_rnrt-eq-opens input m = body-main_step L (bm_main_proc P D input) m ∙ ground arith
