-- ===== src/Report/Period/Calm.antt =====
-- What the period loop of SPCSP53619C.c leaves alone.
use no_gada_automation.Base.{
  ℕ, zero, suc, ◌≤◌, ◌<◌, ◌≡◌, ◌≢◌, ℤ, negsuc, ◌∙◌, ◌||◌, inl, inr, none, String, List, ◌==◌, arith,
  length, Bool-cases,
}
use no_gada_automation.Proframe.{
  Rc, nrm, Pfm, IsLawful, Machine, M, Proc, ◌>>=◌, ◌>>◌, get, reads, dl_call,
}
use no_gada_automation.Proframe.Cursor.Rule.{Ensures, IsFaulty}
use no_gada_automation.Rates.{FundHistoryIn, BmHistoryIn, RateOut, RateDbio}
use no_gada_automation.Rates.Spec.{settled, opens, calc_fnd_rntn-eq-opens, calc_bm_rnrt-eq-opens}
use no_gada_automation.Report.Types.{ReportIn, FundRow, ReportFrame, ReportPfm, one}
use no_gada_automation.Report.Period.Spec.{day_after_months, start_of}
use no_gada_automation.Report.Period.{
  unless_called, unless_nrm, set_locals, month_start, period_start, fund_rate, bm_rate, period_rate,
}

-- Opening the cursors behind the rates leaves another cursor's rows and count alone.
pub record KeepsCursor (P : Pfm) {Row : Type 0} {size : ℕ}
    {fetch : List Row → P.World → (Rc × List Row) × P.World} (Q : RateDbio P)
    (C : IsFaulty P size fetch) : Type 0 where
  pub fund_pending : (i : FundHistoryIn) (w : P.World) → C.pending (Q.open_fund i w).1 ≡ C.pending w
  pub fund_delivered :
      (i : FundHistoryIn) (w : P.World) → C.delivered (Q.open_fund i w).1 ≡ C.delivered w
  pub bm_pending : (i : BmHistoryIn) (w : P.World) → C.pending (Q.open_bm i w).1 ≡ C.pending w
  pub bm_delivered : (i : BmHistoryIn) (w : P.World) → C.delivered (Q.open_bm i w).1 ≡ C.delivered w

-- The calls that the loop makes succeed: no module fails to load, the dates and numbers are within
-- range, and the cursors behind the rates open, with rows or without.
pub record Smooth (P : Pfm) (S : ReportPfm P) (Q : RateDbio P) : Type 0 where
  pub loads : (name : String) (w : P.World) → P.dl_load name w ≡ none
  pub months : (d : String) (k : ℤ) → (S.add_month_ora d k).0 ≡ nrm
  pub days : (d : String) → (S.add_date one d 1).0 ≡ nrm
  pub scales : (v : P.Num) → (P.num_calc "%n * 100" v).0 ≡ nrm
  pub rounds : (v : P.Num) → (P.num_round_at v 2).0 ≡ nrm
  pub fund_opens : (i : FundHistoryIn) (w : P.World) → settled (Q.open_fund i w).0 ≡ nrm
  pub bm_opens : (i : BmHistoryIn) (w : P.World) → settled (Q.open_bm i w).0 ≡ nrm

module _ (P : Pfm) (L : IsLawful P) (S : ReportPfm P) (Q : RateDbio P) {Row : Type 0} {size : ℕ}
    {fetch : List Row → P.World → (Rc × List Row) × P.World} (C : IsFaulty P size fetch)
    (K : KeepsCursor P Q C) (input : ReportIn) where
  pub record Calm (m m' : Machine P (ReportFrame P)) : Type 0 where
    pub context : m'.frame.context ≡ m.frame.context
    pub output : m'.frame.output ≡ m.frame.output
    pub st1 : m'.frame.locals.st1_chec_yn ≡ m.frame.locals.st1_chec_yn
    pub nd2 : m'.frame.locals.nd2_chec_yn ≡ m.frame.locals.nd2_chec_yn
    pub rates : length m'.frame.locals.arr_suik_rt ≡ length m.frame.locals.arr_suik_rt
    pub pending : C.pending m'.world ≡ C.pending m.world
    pub delivered : C.delivered m'.world ≡ C.delivered m.world

  abbrev pub IsErr : Rc → Machine P (ReportFrame P) → Type 0
  IsErr rc _ = (rc ≢ nrm) × ¬ Smooth P S Q

  abbrev pub rates_of : Machine P (ReportFrame P) → List P.Num
  rates_of m = m.frame.locals.arr_suik_rt

  pub Calm-trans : (m m' m2 : Machine P (ReportFrame P)) → Calm m m' → Calm m' m2 → Calm m m2
  Calm-trans m m' m2 a b = record {
    context = b.context ∙ a.context;
    output = b.output ∙ a.output;
    st1 = b.st1 ∙ a.st1;
    nd2 = b.nd2 ∙ a.nd2;
    rates = b.rates ∙ a.rates;
    pending = b.pending ∙ a.pending;
    delivered = b.delivered ∙ a.delivered;
  }

  -- Still, with the start date of a period.
  abbrev pub Dated :
      {A : Type 0} → String → Machine P (ReportFrame P) → A → Machine P (ReportFrame P) → Type 0
  Dated d m _ m' = Calm m m' × (rates_of m' ≡ rates_of m) × (m'.frame.locals.w_gijun_ymd ≡ d)

  month_start-Dated :
      (back line line' : ℕ) (m : Machine P (ReportFrame P))
      → Ensures
          (Dated (day_after_months P S input back) m)
          IsErr
          (month_start P S Q input back line line' m)
  unfolding month_start
  month_start-Dated back line line' m = ground (
    arith,
    λ (s : Smooth P S Q). s.months input.proc_date (negsuc back),
    λ (s : Smooth P S Q). s.days (S.add_month_ora input.proc_date (negsuc back)).1,
  )

  pub period_start-Dated :
      (w_cnt : ℕ) (row : FundRow) (m : Machine P (ReportFrame P))
      → 1 ≤ w_cnt
      → w_cnt < 9
      → Ensures
          (Dated (start_of P S input row w_cnt) m)
          IsErr
          (period_start P S Q input w_cnt row m)
  unfolding period_start
  period_start-Dated zero row m lo hi = absurd (omega arith)
  period_start-Dated (suc zero) row m lo hi = month_start-Dated 0 617 624 m
  period_start-Dated (suc (suc zero)) row m lo hi = month_start-Dated 2 633 640 m
  period_start-Dated (suc (suc (suc zero))) row m lo hi = month_start-Dated 5 649 656 m
  period_start-Dated (suc (suc (suc (suc zero)))) row m lo hi = month_start-Dated 11 665 672 m
  period_start-Dated (suc (suc (suc (suc (suc zero))))) row m lo hi = month_start-Dated 35 681 688 m
  period_start-Dated (suc (suc (suc (suc (suc (suc zero)))))) row m lo hi =
      month_start-Dated 59 697 704 m
  period_start-Dated (suc (suc (suc (suc (suc (suc (suc zero))))))) row m lo hi = ground arith
  period_start-Dated (suc (suc (suc (suc (suc (suc (suc (suc zero)))))))) row m lo hi = ground arith
  period_start-Dated (suc (suc (suc (suc (suc (suc (suc (suc (suc n))))))))) row m lo hi =
      absurd (omega arith)

  -- What the two rate calls share; `f` takes the language and the start date.
  abbrev rate_call :
      String → String → ℕ → (String → String → Proc P (RateOut P)) → M P (ReportFrame P) (Unit {0})
  rate_call name what line f = do
    set_locals P S Q input (λ l. record l { w_calc = P.num_zero })
    lngg ← reads S.get_lngg_type
    fr ← get
    (rc, result) ← dl_call name (f lngg fr.locals.w_gijun_ymd) (record { rnrt = P.num_bzero })
    unless_called name what rc
    set_locals P S Q input (λ l. record l { w_calc = (P.num_calc "%n * 100" result.rnrt).1 })
    unless_nrm line (P.num_calc "%n * 100" result.rnrt).0

  -- What `w_calc` holds behind either call: the modules leave the rate as `bzero` left it.
  abbrev pub scaled : P.Num
  scaled = (P.num_calc "%n * 100" P.num_bzero).1

  abbrev pub Scaled : Machine P (ReportFrame P) → Unit {0} → Machine P (ReportFrame P) → Type 0
  Scaled m _ m' =
      Calm m m'
      × (rates_of m' ≡ rates_of m)
      × (m'.frame.locals.w_calc ≡ scaled)
      × (m'.frame.locals.w_gijun_ymd ≡ m.frame.locals.w_gijun_ymd)

  rate_call_lem :
      (name what id : String) (line : ℕ) (f : String → String → Proc P (RateOut P))
      (start : String → String → P.World → Rc × P.World)
      → ((lngg date : String) (m : Machine P (RateOut P))
          → f lngg date m ≡ opens P id (start lngg date) m)
      → ((lngg date : String) (w : P.World) → C.pending (start lngg date w).1 ≡ C.pending w)
      → ((lngg date : String) (w : P.World) → C.delivered (start lngg date w).1 ≡ C.delivered w)
      → (Smooth P S Q → (lngg date : String) (w : P.World) → settled (start lngg date w).0 ≡ nrm)
      → (m : Machine P (ReportFrame P)) → Ensures (Scaled m) IsErr (rate_call name what line f m)
  rate_call_lem name what id line f start e kp kd good m =
      let lngg : String = S.get_lngg_type m.world in
      let date : String = m.frame.locals.w_gijun_ymd in
      ground (
        arith,
        e lngg date
            (record { frame = record { rnrt = P.num_bzero }; world = m.world; log = m.log }),
        kp lngg date m.world,
        kd lngg date m.world,
        λ (s : Smooth P S Q). good s lngg date m.world,
        λ (s : Smooth P S Q). s.loads name m.world,
        λ (s : Smooth P S Q). s.scales P.num_bzero,
      )

  fund_rate_lem :
      (row : FundRow) (m : Machine P (ReportFrame P))
      → Ensures (Scaled m) IsErr (fund_rate P S Q input row m)
  unfolding fund_rate
  fund_rate_lem row m =
      rate_call_lem "MPCOM_CalcFndRntn" "수익률 산출 호출 오류" "PFO_FUND_RNTN_HT_DS102" 782 _ _
        (λ lngg date. calc_fnd_rntn-eq-opens P Q L (record {
          lngg_dtcd = lngg;
          mncm_code = input.mncm_code;
          fund_code = row.fund_code;
          rnrt_cmpu_mhcd = "1";
          strn_date = date;
          end_date = input.proc_date;
        }))
        (λ _ _. K.fund_pending _) (λ _ _. K.fund_delivered _) (λ s _ _. s.fund_opens _) m

  bm_rate_lem :
      (row : FundRow) (m : Machine P (ReportFrame P))
      → Ensures (Scaled m) IsErr (bm_rate P S Q input row m)
  unfolding bm_rate
  bm_rate_lem row m =
      rate_call_lem "MPCOM_CalcBmRnrt" "BM 수익률 산출 호출 오류" "PFO_BM_RNRT_HT_DS103" 843 _ _
        (λ lngg date. calc_bm_rnrt-eq-opens P Q L (record {
          lngg_dtcd = lngg;
          mncm_code = input.mncm_code;
          fund_code = row.fund_code;
          bm_templt_code = "";
          dtcd = "1";
          strn_date = date;
          end_date = input.proc_date;
        }))
        (λ _ _. K.bm_pending _) (λ _ _. K.bm_delivered _) (λ s _ _. s.bm_opens _) m

  pub period_rate_lem :
      (row : FundRow) (m : Machine P (ReportFrame P))
      → Ensures (Scaled m) IsErr (period_rate P S Q input row m)
  unfolding period_rate
  period_rate_lem row m = elim (Bool-cases (row.trgt_dtcd == "1" || row.trgt_dtcd == "2")) [
    | inl fund ↦ rw fund (fund_rate_lem row m)
    | inr benchmark ↦ rw benchmark (bm_rate_lem row m)
  ]
