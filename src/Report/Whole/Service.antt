-- ===== src/Report/Whole/Service.antt =====
-- SPCSP53619C as a whole: `main_proc` and the four steps.
use no_gada_automation.Base.{
  ℕ, ◌<◌, ◌≡◌, ◌≢◌, refl, ap, sym, ◌∙◌, true, false, Bool-cases, ◌⊎◌, inl, inr, length,
}
use no_gada_automation.Proframe.{Rc, nrm, nfd, Pfm, IsLawful, Machine, M, ◌>>◌, pfm_try, modify}
use no_gada_automation.Proframe.Returns.{
  Returns, body-Returns, pfm_try-Ensures, pfm_try-then, Returns-weaken,
}
use no_gada_automation.Proframe.Cursor.Rule.{Ensures, Ensures-bind, Ensures-weaken, IsFaulty}
use no_gada_automation.Bzop.{DateDbio}
use no_gada_automation.Rates.{RateDbio}
use no_gada_automation.Report.{
  ReportIn, ReportFrame, ReportPfm, ReportDbio, init_proc, input_valid_proc, overview_node,
  funds_in, fund_node, main_proc, norm_exit_proc, monthly_report,
}
use no_gada_automation.Report.Period.{set_locals}
use no_gada_automation.Report.Period.Calm.{KeepsCursor}
use no_gada_automation.Report.Grid.{Left}
use no_gada_automation.Report.Grid.Node.{FilledBy, behind_open, fund_node-Left, open_failed_lem}
use no_gada_automation.Report.Whole.{Fit, OnNrm, asked, Reported, Answers}
use no_gada_automation.Report.Whole.Parts.{
  Ready, Found, overview_node_lem, init_proc_lem, Checks, input_valid_proc_lem, norm_exit_proc_lem,
}

module _ (P : Pfm) (L : IsLawful P) (S : ReportPfm P) (D : ReportDbio P) (Q : RateDbio P)
    (T : DateDbio P) (C : IsFaulty P 50 D.fetch_funds) (K : KeepsCursor P Q C)
    (input : ReportIn) where
  module _ (fuel : ℕ)
      (begins : (w : P.World)
        → P.chk_fail (D.open_funds (funds_in P S D Q T input) w).1 ≡ false
        → C.delivered (D.open_funds (funds_in P S D Q T input) w).1 ≡ 0)
      (enough : (w : P.World)
        → P.chk_fail (D.open_funds (funds_in P S D Q T input) w).1 ≡ false
        → length (C.pending (D.open_funds (funds_in P S D Q T input) w).1) < fuel) where
    -- An open that fails has a code other than `RC_NRM`.
    abbrev Told : Type 0
    Told =
        (w : P.World)
        → P.chk_fail (D.open_funds (funds_in P S D Q T input) w).1 ≡ true
        → (D.open_funds (funds_in P S D Q T input) w).0 ≢ nrm

    fund_node_lem :
        (told : Told) (m m1 m2 : Machine P (ReportFrame P))
        → length m.frame.output.grid03 ≡ S.as_grid03
        → m.frame.output.grid_cnt03 ≡ 0
        → Ready P L S D Q T C K input m m1
        → Found P L S D Q T C K input m1 m2
        → Ensures
            (λ _ m'. Answers P L S D Q T C K input m m')
            (OnNrm P L S D Q T C K input (Answers P L S D Q T C K input m))
            (fund_node P S D Q T input fuel m2)
    fund_node_lem told m m1 m2 room none_yet r f =
        elim (Bool-cases (P.chk_fail (D.open_funds (funds_in P S D Q T input) m2.world).1)) [
          | inl bad ↦
              Ensures-weaken (λ _ _. ⊥) (λ _ m'. Answers P L S D Q T C K input m m')
                (λ rc _. rc ≡ (D.open_funds (funds_in P S D Q T input) m2.world).0)
                (OnNrm P L S D Q T C K input (Answers P L S D Q T C K input m))
                (fund_node P S D Q T input fuel m2)
                (open_failed_lem P L S D Q T C K input fuel m2 bad) (λ _ _ h. absurd h)
                (λ rc m' same. inl (
                  (λ e. told m2.world bad (sym same ∙ e)),
                  λ s. let fine = s.opens m2.world in let c : true ≡ false = sym bad ∙ fine in cc,
                ))
          | inr fine ↦
              Ensures-weaken (λ _ m'. FilledBy P L S D Q T C K input m2 m')
                (λ _ m'. Answers P L S D Q T C K input m m')
                (Left P S D Q input m2.frame.output.overview m2.frame.locals.st1_chec_yn
                  m2.frame.locals.nd2_chec_yn m2.frame.context.num_999
                  (C.pending (behind_open P L S D Q T C K input m2)))
                (OnNrm P L S D Q T C K input (Answers P L S D Q T C K input m))
                (fund_node P S D Q T input fuel m2)
                (fund_node-Left P L S D Q T C K input fuel m2
                  (ap (λ o. length o.grid03) f.output ∙ ap (λ o. length o.grid03) r.output ∙ room)
                  (ap (λ o. o.grid_cnt03) f.output ∙ ap (λ o. o.grid_cnt03) r.output ∙ none_yet)
                  fine (begins m2.world fine) (enough m2.world fine))
                (λ _ m' i. inr (reported m' i))
                (λ rc m' e. elim e [
                  | inl bad ↦ inl (bad.0, λ s. bad.1 (s.smooth, s.closes, s.fetches))
                  | inr i ↦ inr (i.0, inr (reported m' i.1))
                ])
        ]
      where
        reported :
            (m' : Machine P (ReportFrame P))
            → FilledBy P L S D Q T C K input m2 m'
            → Reported P L S D Q T C K input m'
        reported m' i = (
          m1.world,
          f.answered,
          rw
              (
                ← f.st1,
                ← f.nd2,
                ← f.world,
                ← r.num_999,
                ← f.num_999,
                ← ap (λ o. o.overview) f.output,
              )
              i,
        )

    main_proc_lem :
        (told : Told) (m m1 : Machine P (ReportFrame P))
        → length m.frame.output.grid03 ≡ S.as_grid03
        → m.frame.output.grid_cnt03 ≡ 0
        → Ready P L S D Q T C K input m m1
        → Returns
            (OnNrm P L S D Q T C K input (Answers P L S D Q T C K input m))
            (main_proc P S D Q T input fuel m1)
    unfolding main_proc
    main_proc_lem told m m1 room none_yet r =
        let m2 : Machine P (ReportFrame P) = record m1 {
          frame = record m1.frame {
            locals = record m1.frame.locals { st1_chec_yn = ""; nd2_chec_yn = "" };
          };
        } in
        let r2 : Ready P L S D Q T C K input m m2 = record {
          output = r.output;
          key = r.key;
          num_999 = r.num_999;
        } in
        let rest : M P (ReportFrame P) (Unit {0}) =
          overview_node P S D Q T input >> fund_node P S D Q T input fuel in
        body-Returns (OnNrm P L S D Q T C K input (Answers P L S D Q T C K input m))
          (set_locals P S Q input (λ l. record l { st1_chec_yn = ""; nd2_chec_yn = "" }) >> rest) m1
          (Ensures-weaken (λ _ m'. Answers P L S D Q T C K input m m')
            (λ _ m'. OnNrm P L S D Q T C K input (Answers P L S D Q T C K input m) nrm m')
            (OnNrm P L S D Q T C K input (Answers P L S D Q T C K input m))
            (OnNrm P L S D Q T C K input (Answers P L S D Q T C K input m)) (rest m2)
            (Ensures-bind (λ _ m'. Found P L S D Q T C K input m2 m')
              (λ _ m'. Answers P L S D Q T C K input m m')
              (OnNrm P L S D Q T C K input (Answers P L S D Q T C K input m))
              (overview_node P S D Q T input) (λ _. fund_node P S D Q T input fuel) m2
              (Ensures-weaken (λ _ m'. Found P L S D Q T C K input m2 m')
                (λ _ m'. Found P L S D Q T C K input m2 m')
                (OnNrm P L S D Q T C K input (λ m'.
                  ((asked P L S D Q T C K input m2.world).0.0 ≡ nfd)
                  × (m'.frame.output ≡ m2.frame.output)))
                (OnNrm P L S D Q T C K input (Answers P L S D Q T C K input m))
                (overview_node P S D Q T input m2)
                (overview_node_lem P L S D Q T C K input m2 r2.key) (λ _ _ f. f)
                (λ rc m' e. elim e [
                  | inl bad ↦ inl bad
                  | inr none_found ↦
                      inr (none_found.0, inl (m2.world, none_found.1.0, none_found.1.1 ∙ r2.output))
                ]))
              (λ _ m3 f. fund_node_lem told m m2 m3 room none_yet r2 f))
            (λ _ _ a. inr (refl, a)) (λ _ _ e. e))

    monthly_report-OnNrm :
        (told : Told) (m : Machine P (ReportFrame P))
        → length m.frame.output.grid03 ≡ S.as_grid03
        → m.frame.output.grid_cnt03 ≡ 0
        → Returns
            (OnNrm P L S D Q T C K input (Answers P L S D Q T C K input m))
            (monthly_report P S D Q T input fuel m)
    unfolding monthly_report
    monthly_report-OnNrm told m room none_yet =
        let R = OnNrm P L S D Q T C K input (Answers P L S D Q T C K input m) in
        let tail : M P (ReportFrame P) (Unit {0}) =
          pfm_try (main_proc P S D Q T input fuel) >> pfm_try (norm_exit_proc P S D Q T input) in
        let clear : ReportFrame P → ReportFrame P = λ fr. record fr {
          context = record {
            orig_trns_unq_id = "";
            prgm_id = "";
            user_id = "";
            lngg_dtcd = "";
            ls_ptrn_data_pacd = "";
            ls_ptrn_data_pacd2 = "";
            num_999 = P.num_bzero;
            ls_bzop_date = "";
          };
        } in
        let m0 : Machine P (ReportFrame P) = record m { frame = clear m.frame } in
        body-Returns R
          (modify clear
            >> (pfm_try (init_proc P S D Q T input)
                >> (pfm_try (input_valid_proc P S D Q T input) >> tail)))
          m
          (pfm_try-then (OnNrm P L S D Q T C K input (Ready P L S D Q T C K input m)) L
            (λ _ m'. R nrm m') R (init_proc P S D Q T input)
            (pfm_try (input_valid_proc P S D Q T input) >> tail) m0
            (init_proc_lem P L S D Q T C K input m m0 refl)
            (λ rc m' ne r. inl (failed (Ready P L S D Q T C K input m m') rc ne r))
            (λ m1 r1.
              pfm_try-then (Checks P L S D Q T C K input (Ready P L S D Q T C K input m)) L
                (λ _ m'. R nrm m') R (input_valid_proc P S D Q T input) tail m1
                (input_valid_proc_lem P L S D Q T C K input (Ready P L S D Q T C K input m) m1
                  (at_nrm (Ready P L S D Q T C K input m m1) r1))
                (λ rc m' ne r. inl (ne, λ s. ne (r.1 s)))
                (λ m2 r2.
                  pfm_try-then R L (λ _ m'. R nrm m') R (main_proc P S D Q T input fuel)
                    (pfm_try (norm_exit_proc P S D Q T input)) m2
                    (main_proc_lem told m m2 room none_yet r2.0) (λ _ _ _ r. r)
                    (λ m3 a.
                      Ensures-weaken
                        (λ _ m'.
                          Checks P L S D Q T C K input (Answers P L S D Q T C K input m) nrm m')
                        (λ _ m'. R nrm m') R R (pfm_try (norm_exit_proc P S D Q T input) m3)
                        (pfm_try-Ensures
                          (Checks P L S D Q T C K input (Answers P L S D Q T C K input m)) L R
                          (norm_exit_proc P S D Q T input) m3
                          (norm_exit_proc_lem P L S D Q T C K input
                            (Answers P L S D Q T C K input m) m3
                            (at_nrm (Answers P L S D Q T C K input m m3) a))
                          (λ rc m' ne r. inl (ne, λ s. ne (r.1 s))))
                        (λ _ _ b. inr (refl, b.0)) (λ _ _ e. e)))))
      where
        at_nrm :
            (A : Type 0) → ((nrm ≢ nrm) × ¬ (Fit P L S D Q T C K input)) ⊎ ((nrm ≡ nrm) × A) → A
        at_nrm A (inl bad) = absurd (bad.0 refl)
        at_nrm A (inr a) = a.1

        failed :
            (A : Type 0) (rc : Rc)
            → rc ≢ nrm
            → ((rc ≢ nrm) × ¬ (Fit P L S D Q T C K input)) ⊎ ((rc ≡ nrm) × A)
            → (rc ≢ nrm) × ¬ (Fit P L S D Q T C K input)
        failed A rc ne (inl bad) = bad
        failed A rc ne (inr a) = absurd (ne a.0)

    -- Over a lawful runtime, with a fund cursor that opens with nothing delivered, delivers its rows in
    -- pages of 50 and has fewer rows than the fuel, with an output that has an empty grid of its full
    -- size, and with no call failing and nothing missing in input and output: the service makes no
    -- access outside an array and returns `RC_NRM`. Then either the overview was not found and the
    -- output is as it was, or the output has the overview, and its grid has exactly the rows for the
    -- cursor's funds that the overview's check boxes do not switch off, in order and up to the grid's
    -- size.
    pub monthly_report-Answers :
        (m : Machine P (ReportFrame P))
        → length m.frame.output.grid03 ≡ S.as_grid03
        → m.frame.output.grid_cnt03 ≡ 0
        → (Fit P L S D Q T C K input)
        → Returns
            (λ rc m'. (rc ≡ nrm) × Answers P L S D Q T C K input m m')
            (monthly_report P S D Q T input fuel m)
    monthly_report-Answers m room none_yet fit =
        Returns-weaken (OnNrm P L S D Q T C K input (Answers P L S D Q T C K input m))
          (λ rc m'. (rc ≡ nrm) × Answers P L S D Q T C K input m m')
          (monthly_report P S D Q T input fuel m)
          (monthly_report-OnNrm
            (λ w bad. let fine = fit.opens w in let c : true ≡ false = sym bad ∙ fine in absurd cc)
            m room none_yet)
          (λ rc m' r. elim r [ inl bad ↦ absurd (bad.1 fit) | inr good ↦ good ])

    -- Over a lawful runtime, with a fund cursor whose open may fail, with a code other than `RC_NRM`, and
    -- whose fetches deliver its rows in pages of 50 or fail, with a code other than `RC_NRM` and
    -- `RC_NFD`, where it opens, with nothing delivered and fewer rows than the fuel, and with an output
    -- that has an empty grid of its full size: whatever call fails, the cursor's included, and whatever
    -- is missing in input and output, the service makes no access outside an array and always returns.
    -- Where it returns `RC_NRM`, either the overview was not found and the output is as it was, or the
    -- output has the overview, and its grid has exactly the rows for the cursor's funds that the
    -- overview's check boxes do not switch off, in order and up to the grid's size.
    pub monthly_report-Returns :
        (m : Machine P (ReportFrame P))
        → ((w : P.World)
            → P.chk_fail (D.open_funds (funds_in P S D Q T input) w).1 ≡ true
            → (D.open_funds (funds_in P S D Q T input) w).0 ≢ nrm)
        → length m.frame.output.grid03 ≡ S.as_grid03
        → m.frame.output.grid_cnt03 ≡ 0
        → Returns
            (λ rc m'. (rc ≢ nrm) ⊎ Answers P L S D Q T C K input m m')
            (monthly_report P S D Q T input fuel m)
    monthly_report-Returns m told room none_yet =
        Returns-weaken (OnNrm P L S D Q T C K input (Answers P L S D Q T C K input m))
          (λ rc m'. (rc ≢ nrm) ⊎ Answers P L S D Q T C K input m m')
          (monthly_report P S D Q T input fuel m) (monthly_report-OnNrm told m room none_yet)
          (λ rc m' r. elim r [ inl bad ↦ inl bad.0 | inr good ↦ inr good.1 ])
