-- ===== src/Report/Period/Kept.antt =====
-- What the period loop of SPCSP53619C.c keeps in `arr_suik_rt`.
use no_gada_automation.Base.{
  ℕ, zero, suc, ◌+◌, ◌<◌, ◌≤◌, ◌≡◌, ◌≢◌, refl, ap, ◌∙◌, inl, inr, some, List, ◌==◌, arith, eqb, ltb,
  precedes, get_elem?, length, length-set, get_elem?-set_self, get_elem?-set_ne, Bool-cases,
}
use no_gada_automation.Proframe.{Rc, nrm, nfd, dup, err, other, Pfm, IsLawful, Machine, ◌>>◌}
use no_gada_automation.Proframe.Cursor.Rule.{Ensures, Ensures-bind, Ensures-weaken, IsFaulty}
use no_gada_automation.Rates.{RateDbio}
use no_gada_automation.Report.Types.{ReportIn, FundRow, ReportFrame, ReportPfm}
use no_gada_automation.Report.Period.Spec.{start_of, kept_rate}
use no_gada_automation.Report.Period.{
  unless_nrm, period_start, period_rate, store_rate, keep_or_round, period_check, period,
  period_loop,
}
use no_gada_automation.Report.Period.Calm.{
  KeepsCursor, Smooth, Calm, Calm-trans, IsErr, rates_of, Dated, Scaled, scaled, period_start-Dated,
  period_rate_lem,
}

-- The place `j` holds the rate that the row should have for the period `j`.
abbrev pub HasKept :
    (P : Pfm) (S : ReportPfm P) → ReportIn → P.Num → FundRow → List P.Num → ℕ → Type 0
HasKept P S input marker row a j = get_elem? a j ≡ some (kept_rate P S input marker row j)

module _ (P : Pfm) (L : IsLawful P) (S : ReportPfm P) (Q : RateDbio P) {Row : Type 0} {size : ℕ}
    {fetch : List Row → P.World → (Rc × List Row) × P.World} (C : IsFaulty P size fetch)
    (K : KeepsCursor P Q C) (input : ReportIn) where
  -- Behind the check of period `w`: its place holds a kept rate, and no other place is written.
  pub record Checked (w : ℕ) (row : FundRow) (m m' : Machine P (ReportFrame P)) : Type 0 where
    pub calm : Calm P L S Q C K input m m'
    pub kept : HasKept P S input m.frame.context.num_999 row m'.frame.locals.arr_suik_rt w
    pub others :
        (j : ℕ)
        → w ≢ j
        → get_elem? m'.frame.locals.arr_suik_rt j ≡ get_elem? m.frame.locals.arr_suik_rt j

  -- A write of a kept rate into the place `w`.
  written :
      (w : ℕ) (row : FundRow) (v : P.Num) (m : Machine P (ReportFrame P))
      → w < length m.frame.locals.arr_suik_rt
      → v ≡ kept_rate P S input m.frame.context.num_999 row w
      → Ensures
          (λ _ m'. Checked w row m m')
          (IsErr P L S Q C K input)
          (store_rate P S Q input w v m)
  unfolding store_rate
  written w row v m h kept = elim (Bool-cases (ltb w (length m.frame.locals.arr_suik_rt))) [
    | inl inside ↦ rw inside (record {
      calm = record {
        context = refl;
        output = refl;
        st1 = refl;
        nd2 = refl;
        rates = length-set m.frame.locals.arr_suik_rt w v;
        pending = refl;
        delivered = refl;
      };
      kept = get_elem?-set_self m.frame.locals.arr_suik_rt w v h ∙ ap some kept;
      others = λ j ne. get_elem?-set_ne m.frame.locals.arr_suik_rt w j v ne;
    })
    | inr outside ↦ absurd (ground arith)
  ]

  keep_or_round_lem :
      (line w : ℕ) (row : FundRow) (m : Machine P (ReportFrame P))
      → w < length m.frame.locals.arr_suik_rt
      → m.frame.locals.w_calc ≡ scaled P L S Q C K input
      → m.frame.locals.w_gijun_ymd ≡ start_of P S input row w
      → Ensures
          (λ _ m'. Checked w row m m')
          (IsErr P L S Q C K input)
          (keep_or_round P S Q input line w row m)
  unfolding keep_or_round
  keep_or_round_lem line w row m h e d =
      elim (Bool-cases (precedes m.frame.locals.w_gijun_ymd row.firt_stup_date)) [
        | inl before ↦ rw before (written w row m.frame.context.num_999 m h (rw (← d, before) refl))
        | inr after ↦ rw after (
            Ensures-bind (λ _ m'. Checked w row m m') (λ _ m'. Checked w row m m')
              (IsErr P L S Q C K input)
              (store_rate P S Q input w (P.num_round_at m.frame.locals.w_calc 2).1)
              (λ _. unless_nrm line (P.num_round_at m.frame.locals.w_calc 2).0) m
              (written w row (P.num_round_at m.frame.locals.w_calc 2).1 m h
                (ap (λ c. (P.num_round_at c 2).1) e ∙ rw (← d, after) refl))
              (λ _ m' c.
                reported (P.num_round_at m.frame.locals.w_calc 2).0 m' c (λ s. s.rounds _)))
      ]
    where
      reported :
          (rc : Rc) (m' : Machine P (ReportFrame P))
          → Checked w row m m'
          → (Smooth P S Q → rc ≡ nrm)
          → Ensures
              (λ _ m2. Checked w row m m2)
              (IsErr P L S Q C K input)
              (unless_nrm {P = P} {F = ReportFrame P} line rc m')
      reported nrm m' c good = c
      reported nfd m' c good = ground (arith, good)
      reported dup m' c good = ground (arith, good)
      reported err m' c good = ground (arith, good)
      reported (other n) m' c good = ground (arith, good)

  period_check_lem :
      (w : ℕ) (row : FundRow) (m : Machine P (ReportFrame P))
      → w < length m.frame.locals.arr_suik_rt
      → m.frame.locals.w_calc ≡ scaled P L S Q C K input
      → m.frame.locals.w_gijun_ymd ≡ start_of P S input row w
      → Ensures
          (λ _ m'. Checked w row m m')
          (IsErr P L S Q C K input)
          (period_check P S Q input w row m)
  unfolding period_check
  period_check_lem w row m h e d = elim (Bool-cases (row.trgt_dtcd == "1")) [
    | inl fund ↦ rw fund (keep_or_round_lem 873 w row m h e d)
    | inr rest ↦ rw rest (keep_or_round_lem 890 w row m h e d)
  ]

  -- A check behind steps that do not write the rates.
  Checked-behind :
      (w : ℕ) (row : FundRow) (m m' m2 : Machine P (ReportFrame P))
      → Calm P L S Q C K input m m'
      → rates_of P L S Q C K input m' ≡ rates_of P L S Q C K input m
      → Checked w row m' m2
      → Checked w row m m2
  Checked-behind w row m m' m2 c r k = record {
    calm = Calm-trans P L S Q C K input m m' m2 c k.calm;
    kept = rw (← ap (λ x. x.num_999) c.context) k.kept;
    others = λ j ne. k.others j ne ∙ ap (λ a. get_elem? a j) r;
  }

  period_lem :
      (w : ℕ) (row : FundRow) (m : Machine P (ReportFrame P))
      → w < length m.frame.locals.arr_suik_rt
      → 1 ≤ w
      → w < 9
      → Ensures (λ _ m'. Checked w row m m') (IsErr P L S Q C K input) (period P S Q input w row m)
  unfolding period
  period_lem w row m h lo hi =
      let R = IsErr P L S Q C K input in
      let Post : Unit {0} → Machine P (ReportFrame P) → Type 0 = λ _ m'. Checked w row m m' in
      Ensures-bind (Dated P L S Q C K input (start_of P S input row w) m) Post R
        (period_start P S Q input w row)
        (λ _. period_rate P S Q input row >> period_check P S Q input w row) m
        (period_start-Dated P L S Q C K input w row m lo hi)
        (λ _ m' s.
          Ensures-bind (Scaled P L S Q C K input m') Post R (period_rate P S Q input row)
            (λ _. period_check P S Q input w row) m' (period_rate_lem P L S Q C K input row m')
            (λ _ m2 t.
              Ensures-weaken (λ _ m'. Checked w row m2 m') Post R R
                (period_check P S Q input w row m2)
                (period_check_lem w row m2 (rw (t.0.rates ∙ s.0.rates) h) t.2 (t.3 ∙ s.2))
                (λ _ m3 c.
                  Checked-behind w row m m2 m3 (Calm-trans P L S Q C K input m m' m2 s.0 t.0)
                    (t.1 ∙ s.1) c)
                (λ _ _ e. e)))

  -- The loop from the period `w` on, with `k` rounds: each of them writes its own place.
  pub record Looped (k w : ℕ) (row : FundRow) (m m' : Machine P (ReportFrame P)) : Type 0 where
    pub calm : Calm P L S Q C K input m m'
    pub kept :
        (j : ℕ)
        → w ≤ j
        → j < w + k
        → HasKept P S input m.frame.context.num_999 row m'.frame.locals.arr_suik_rt j
    pub others :
        (j : ℕ)
        → j < w
        → get_elem? m'.frame.locals.arr_suik_rt j ≡ get_elem? m.frame.locals.arr_suik_rt j

  Looped-step :
      (k w : ℕ) (row : FundRow) (m m' m2 : Machine P (ReportFrame P))
      → Checked w row m m'
      → Looped k (w + 1) row m' m2
      → Looped (suc k) w row m m2
  Looped-step k w row m m' m2 c l = record {
    calm = Calm-trans P L S Q C K input m m' m2 c.calm l.calm;
    kept = λ j lo hi. place j lo hi;
    others = λ j below. l.others j (omega arith) ∙ c.others j (λ e. absurd (omega arith));
  }
    where
      place :
          (j : ℕ)
          → w ≤ j
          → j < w + suc k
          → HasKept P S input m.frame.context.num_999 row m2.frame.locals.arr_suik_rt j
      place j lo hi = elim (Bool-cases (eqb w j)) [
        | inl same ↦ let e : w ≡ j = ground arith in rw (← e, l.others w (omega arith)) c.kept
        | inr later ↦
            rw (← ap (λ x. x.num_999) c.calm.context)
              (l.kept j (let ne : w ≢ j = ground arith in ground arith) (omega arith))
      ]

  pub period_loop_lem :
      (k w : ℕ) (row : FundRow) (m : Machine P (ReportFrame P))
      → w + k ≤ length m.frame.locals.arr_suik_rt
      → 1 ≤ w
      → w + k ≤ 9
      → Ensures
          (λ _ m'. Looped k w row m m')
          (IsErr P L S Q C K input)
          (period_loop P S Q input k w row m)
  unfolding period_loop
  period_loop_lem zero w row m h lo hi = record {
    calm = record {
      context = refl;
      output = refl;
      st1 = refl;
      nd2 = refl;
      rates = refl;
      pending = refl;
      delivered = refl;
    };
    kept = λ j lo hi. absurd (omega arith);
    others = λ j below. refl;
  }
  period_loop_lem (suc k) w row m h lo hi =
      let R = IsErr P L S Q C K input in
      let Post : Unit {0} → Machine P (ReportFrame P) → Type 0 =
        λ _ m'. Looped (suc k) w row m m' in
      Ensures-bind (λ _ m'. Checked w row m m') Post R (period P S Q input w row)
        (λ _. period_loop P S Q input k (w + 1) row) m
        (period_lem w row m (omega arith) lo (omega arith))
        (λ _ m' c.
          Ensures-weaken (λ _ m2. Looped k (w + 1) row m' m2) Post R R
            (period_loop P S Q input k (w + 1) row m')
            (period_loop_lem k (w + 1) row m' (omega (arith, c.calm.rates)) (omega arith)
              (omega arith))
            (λ _ m2 l. Looped-step k w row m m' m2 c l) (λ _ _ e. e))

  -- Over a lawful runtime in which no call of the loop fails, with a place for every period, the loop
  -- over `k` of the eight periods, from `w` on, goes through without an access outside the array.
  -- Each of these places then holds what the fund should have for that period: the 999 marker if the
  -- period starts before the fund does, and the rounded rate that the modules leave otherwise. The
  -- places before them, the output, the context, the check boxes and another cursor's rows are as
  -- they were.
  pub period_loop-Looped :
      (k w : ℕ) (row : FundRow) (m : Machine P (ReportFrame P))
      → w + k ≤ length m.frame.locals.arr_suik_rt
      → 1 ≤ w
      → w + k ≤ 9
      → Smooth P S Q
      → Ensures (λ _ m'. Looped k w row m m') (λ _ _. ⊥) (period_loop P S Q input k w row m)
  period_loop-Looped k w row m room lo hi smooth =
      Ensures-weaken (λ _ m'. Looped k w row m m') (λ _ m'. Looped k w row m m')
        (IsErr P L S Q C K input) (λ _ _. ⊥) (period_loop P S Q input k w row m)
        (period_loop_lem k w row m room lo hi) (λ _ _ l. l) (λ _ _ bad. bad.1 smooth)
