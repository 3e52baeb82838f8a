-- ===== src/Report/Grid/Node.antt =====
-- Node 36 of SPCSP53619C.c: the fund cursor opened, read through and closed.
use no_gada_automation.Base.{
  ℕ, ◌<◌, ◌≡◌, ◌≢◌, refl, sym, ◌∙◌, false, ◌⊎◌, inl, inr, true, String, List, [], ◌∷◌, arith,
  length, take, keep, replicate, take_all, if◌then◌else◌, Bool-cases,
}
use no_gada_automation.Proframe.{nrm, opened, Pfm, IsLawful, Machine, ◌>>=◌, pure, leave}
use no_gada_automation.Proframe.Laws.{jumps-ne_nrm}
use no_gada_automation.Proframe.Cursor.{fetch_loop}
use no_gada_automation.Proframe.Cursor.Rule.{
  Ensures, Ensures-bind, Ensures-weaken, IsFaulty, faulty_loop_rule,
}
use no_gada_automation.Bzop.{DateDbio}
use no_gada_automation.Rates.{RateDbio}
use no_gada_automation.Report.{
  ReportIn, Overview, FundRow, ReportFrame, ReportPfm, ReportDbio, fund_loop, no_funds,
  fetch_failed, zero_row, funds_in, close, fund_node,
}
use no_gada_automation.Rates.Spec.{settled, settled-ne_nrm}
use no_gada_automation.Report.Period.Calm.{KeepsCursor, Smooth}
use no_gada_automation.Report.Grid.{shown, Filled, Left}
use no_gada_automation.Report.Grid.Visit.{visit_row_lem}

module _ (P : Pfm) (L : IsLawful P) (S : ReportPfm P) (D : ReportDbio P) (Q : RateDbio P)
    (T : DateDbio P) (C : IsFaulty P 50 D.fetch_funds) (K : KeepsCursor P Q C) (input : ReportIn)
    (ov : Overview P) (st1 nd2 : String) (marker : P.Num) (all : List FundRow) where
  no_funds_lem :
      (m : Machine P (ReportFrame P))
      → Filled P S input ov st1 nd2 marker all m.frame
      → Ensures (λ _ _. ⊥) (Left P S D Q input ov st1 nd2 marker all) (no_funds P S D Q T input m)
  unfolding no_funds
  no_funds_lem m i = inr (refl, i)

  fetch_failed_lem :
      (rows : List FundRow) (m : Machine P (ReportFrame P))
      → C.broken m.world ≡ true
      → Ensures
          (λ _ _. ⊥)
          (Left P S D Q input ov st1 nd2 marker all)
          (fetch_failed P S D Q T input (record m { world = (D.fetch_funds rows m.world).1 }))
  unfolding fetch_failed
  fetch_failed_lem rows m down =
      let q = C.fails rows m.world down in
      inl
        ((λ e. cc), λ s. settled-ne_nrm (D.fetch_funds rows m.world).0.0 q.0 q.1 (s.2 rows m.world))

  loop_lem :
      (fuel : ℕ) (rows : List FundRow) (m : Machine P (ReportFrame P))
      → length (C.pending m.world) < fuel
      → C.delivered m.world ≡ 0
      → C.pending m.world ≡ all
      → Filled P S input ov st1 nd2 marker [] m.frame
      → Ensures
          (λ _ m'. Filled P S input ov st1 nd2 marker all m'.frame)
          (Left P S D Q input ov st1 nd2 marker all)
          (fetch_loop (fund_loop P S D Q T input) fuel 0 rows m)
  loop_lem fuel rows m hf hd ea i =
      faulty_loop_rule 50 (fund_loop P S D Q T input) C all (Filled P S input ov st1 nd2 marker)
        (Filled P S input ov st1 nd2 marker all) (Left P S D Q input ov st1 nd2 marker all)
        (λ seen row rest e ix cur tot m' i'.
          visit_row_lem P L S D Q T C K input ov st1 nd2 marker all seen row rest m' e i')
        (omega arith) (λ f i'. i') (λ m' none_left i'. no_funds_lem m' (rw none_left i'))
        (λ seen rows' m' down i'. fetch_failed_lem rows' m' down) fuel 0 rows [] m hf (sym hd) refl
        ea i

  -- The close behind the loop, and the jump on its code.
  closing_lem :
      (m : Machine P (ReportFrame P))
      → Filled P S input ov st1 nd2 marker all m.frame
      → Ensures
          (λ _ m'. Filled P S input ov st1 nd2 marker all m'.frame)
          (Left P S D Q input ov st1 nd2 marker all)
          ((close P S D Q T input >>= λ closing.
              if P.try_jumps closing then leave closing else pure tt)
            m)
  closing_lem m i = elim (Bool-cases (P.try_jumps (D.close_funds m.world).0)) [
    | inl jump ↦ rw jump (
        inl (
          jumps-ne_nrm L (D.close_funds m.world).0 jump,
          λ s. jumps-ne_nrm L (D.close_funds m.world).0 jump (s.1 m.world),
        ))
    | inr go ↦ rw go i
  ]

module _ (P : Pfm) (L : IsLawful P) (S : ReportPfm P) (D : ReportDbio P) (Q : RateDbio P)
    (T : DateDbio P) (C : IsFaulty P 50 D.fetch_funds) (K : KeepsCursor P Q C)
    (input : ReportIn) where
  -- The database behind the open of the fund cursor.
  abbrev pub behind_open : Machine P (ReportFrame P) → P.World
  behind_open m = (D.open_funds (funds_in P S D Q T input) m.world).1

  abbrev pub FilledBy : Machine P (ReportFrame P) → Machine P (ReportFrame P) → Type 0
  FilledBy m m' =
      Filled P S input m.frame.output.overview m.frame.locals.st1_chec_yn m.frame.locals.nd2_chec_yn
        m.frame.context.num_999 (C.pending (behind_open m)) m'.frame

  pub fund_node-Left :
      (fuel : ℕ) (m : Machine P (ReportFrame P))
      → length m.frame.output.grid03 ≡ S.as_grid03
      → m.frame.output.grid_cnt03 ≡ 0
      → P.chk_fail (behind_open m) ≡ false
      → C.delivered (behind_open m) ≡ 0
      → length (C.pending (behind_open m)) < fuel
      → Ensures
          (λ _ m'. FilledBy m m')
          (Left P S D Q input m.frame.output.overview m.frame.locals.st1_chec_yn
            m.frame.locals.nd2_chec_yn m.frame.context.num_999
            (C.pending (behind_open m)))
          (fund_node P S D Q T input fuel m)
  unfolding fund_node
  fund_node-Left fuel m room none_yet fine start enough =
      let m1 : Machine P (ReportFrame P) = record {
        frame = record m.frame {
          locals = record m.frame.locals {
            w_gijun_ymd = "";
            w_calc = P.num_zero;
            arr_suik_rt = replicate 10 P.num_bzero;
          };
        };
        world = behind_open m;
        log =
            opened "PFO_FUND_BS_DF036" (D.open_funds (funds_in P S D Q T input) m.world).0 ∷ m.log;
      } in
      let st1 = m.frame.locals.st1_chec_yn in
      let nd2 = m.frame.locals.nd2_chec_yn in
      let all = C.pending (behind_open m) in
      let no_rows : take S.as_grid03 (keep (shown st1 nd2) []) ≡ [] =
        take_all S.as_grid03 [] (omega arith) in
      rw fine (
        Ensures-bind (λ _ m'. FilledBy m m') (λ _ m'. FilledBy m m')
          (Left P S D Q input m.frame.output.overview st1 nd2 m.frame.context.num_999 all)
          (fetch_loop (fund_loop P S D Q T input) fuel 0 (replicate 50 (zero_row P S D Q T input)))
          (λ _. close P S D Q T input >>= λ closing.
            if P.try_jumps closing then leave closing else pure tt)
          m1
          (loop_lem P L S D Q T C K input m.frame.output.overview st1 nd2 m.frame.context.num_999
            all fuel (replicate 50 (zero_row P S D Q T input)) m1 enough start refl
            (record {
              overview = refl;
              st1_chec_yn = refl;
              nd2_chec_yn = refl;
              num_999 = refl;
              places = refl;
              room = room;
              count = rw no_rows none_yet;
              rows = rw (no_rows, none_yet) refl;
            }))
          (λ _ m' i.
            closing_lem P L S D Q T C K input m.frame.output.overview st1 nd2
              m.frame.context.num_999 all m' i))

  -- Over a lawful runtime and a cursor that delivers its rows in pages of 50, with an empty grid of
  -- its full size, a cursor that opens with nothing delivered, more fuel than it has rows, and no call
  -- of the loop failing, a fetch or the close included, the node makes no access outside an array and ends: it goes on, or it returns
  -- `RC_NRM` for a cursor without rows. Either way the counted part of the grid is exactly the rows
  -- for the funds that the overview does not switch off, in the cursor's order and up to the grid's
  -- size: each has the fund's keys, and for each of the eight periods the 999 marker if the period
  -- starts before the fund, and the rounded rate that the modules leave otherwise.
  pub fund_node-FilledBy :
      (fuel : ℕ) (m : Machine P (ReportFrame P))
      → length m.frame.output.grid03 ≡ S.as_grid03
      → m.frame.output.grid_cnt03 ≡ 0
      → P.chk_fail (behind_open m) ≡ false
      → C.delivered (behind_open m) ≡ 0
      → length (C.pending (behind_open m)) < fuel
      → Smooth P S Q
      → ((w : P.World) → (D.close_funds w).0 ≡ nrm)
      → ((rows : List FundRow) (w : P.World) → settled (D.fetch_funds rows w).0.0 ≡ nrm)
      → Ensures
          (λ _ m'. FilledBy m m')
          (λ rc m'. (rc ≡ nrm) × FilledBy m m')
          (fund_node P S D Q T input fuel m)
  fund_node-FilledBy fuel m room none_yet fine start enough smooth closes fetches =
      Ensures-weaken (λ _ m'. FilledBy m m') (λ _ m'. FilledBy m m')
        (Left P S D Q input m.frame.output.overview m.frame.locals.st1_chec_yn
          m.frame.locals.nd2_chec_yn m.frame.context.num_999 (C.pending (behind_open m)))
        (λ rc m'. (rc ≡ nrm) × FilledBy m m') (fund_node P S D Q T input fuel m)
        (fund_node-Left fuel m room none_yet fine start enough) (λ _ _ i. i)
        (λ rc m' left. elim left [
          | inl bad ↦ absurd (bad.1 (smooth, closes, fetches))
          | inr empty ↦ empty
        ])

  -- A cursor that does not open: the node leaves with the code of the open.
  pub open_failed_lem :
      (fuel : ℕ) (m : Machine P (ReportFrame P))
      → P.chk_fail (behind_open m) ≡ true
      → Ensures
          (λ _ _. ⊥)
          (λ rc _. rc ≡ (D.open_funds (funds_in P S D Q T input) m.world).0)
          (fund_node P S D Q T input fuel m)
  unfolding fund_node
  open_failed_lem fuel m bad = rw bad refl

  -- Over a lawful runtime and a cursor whose open may fail, with a code other than `RC_NRM`, and whose
  -- fetches deliver its rows in pages of 50 or fail, with a code other than `RC_NRM` and `RC_NFD`, with
  -- an empty grid of its full size, and where the cursor opens, with nothing delivered and more fuel
  -- than it has rows: whatever call of the loop fails, the open, a fetch and the close included, the
  -- node makes no access outside an array and ends. Where it goes on or returns `RC_NRM`, the counted
  -- part of the grid is exactly the rows for the funds that the overview does not switch off, in the
  -- cursor's order and up to the grid's size.
  pub fund_node-Safe :
      (fuel : ℕ) (m : Machine P (ReportFrame P))
      → length m.frame.output.grid03 ≡ S.as_grid03
      → m.frame.output.grid_cnt03 ≡ 0
      → (P.chk_fail (behind_open m) ≡ true
          → (D.open_funds (funds_in P S D Q T input) m.world).0 ≢ nrm)
      → (P.chk_fail (behind_open m) ≡ false → C.delivered (behind_open m) ≡ 0)
      → (P.chk_fail (behind_open m) ≡ false → length (C.pending (behind_open m)) < fuel)
      → Ensures
          (λ _ m'. FilledBy m m')
          (λ rc m'. (rc ≢ nrm) ⊎ FilledBy m m')
          (fund_node P S D Q T input fuel m)
  fund_node-Safe fuel m room none_yet told start enough =
      elim (Bool-cases (P.chk_fail (behind_open m))) [
        | inl bad ↦
            Ensures-weaken (λ _ _. ⊥) (λ _ m'. FilledBy m m')
              (λ rc _. rc ≡ (D.open_funds (funds_in P S D Q T input) m.world).0)
              (λ rc m'. (rc ≢ nrm) ⊎ FilledBy m m') (fund_node P S D Q T input fuel m)
              (open_failed_lem fuel m bad) (λ _ _ h. absurd h)
              (λ rc m' same. inl (λ e. told bad (sym same ∙ e)))
        | inr fine ↦
            Ensures-weaken (λ _ m'. FilledBy m m') (λ _ m'. FilledBy m m')
              (Left P S D Q input m.frame.output.overview m.frame.locals.st1_chec_yn
                m.frame.locals.nd2_chec_yn m.frame.context.num_999 (C.pending (behind_open m)))
              (λ rc m'. (rc ≢ nrm) ⊎ FilledBy m m') (fund_node P S D Q T input fuel m)
              (fund_node-Left fuel m room none_yet fine (start fine) (enough fine)) (λ _ _ i. i)
              (λ rc m' left. elim left [ inl bad ↦ inl bad.0 | inr empty ↦ inr empty.1 ])
      ]
