-- ===== src/Report/Grid/Visit.antt =====
-- One round of the fund loop of SPCSP53619C.c: the row is left out, added, or finds the grid full.
use no_gada_automation.Base.{
  suc, ◌+◌, ◌<◌, ◌≤◌, ◌≡◌, refl, sym, ap, subst, ◌∙◌, Bool, true, false, ◌&&◌, inl, inr, String,
  List, [], ◌∷◌, ◌++◌, ◌==◌, arith, leb, length, set, take, keep, length-set, length-append,
  length-take, take-set, take-append_of_le, take_all, keep-append, append-nil, map, map-append,
  Bool-cases,
}
use no_gada_automation.Proframe.{Pfm, IsLawful, Machine, ◌>>◌, pure}
use no_gada_automation.Proframe.Cursor.Rule.{
  Ensures, Ensures-bind, Ensures-weaken, IsFaulty, Visited,
}
use no_gada_automation.Bzop.{DateDbio}
use no_gada_automation.Rates.{RateDbio}
use no_gada_automation.Report.{
  ReportIn, Overview, FundRow, ReportFrame, ReportPfm, ReportDbio, is_off, zero_rates, grid_node,
  show_row, visit_row, fund_loop,
}
use no_gada_automation.Report.Period.{period_loop}
use no_gada_automation.Report.Period.Calm.{KeepsCursor, IsErr}
use no_gada_automation.Report.Period.Kept.{Looped, period_loop_lem}
use no_gada_automation.Report.Grid.{shown, row_of, Filled, Left}
use no_gada_automation.Report.Grid.Row.{Added, grid_node_lem}

module _ (P : Pfm) (L : IsLawful P) (S : ReportPfm P) (D : ReportDbio P) (Q : RateDbio P)
    (T : DateDbio P) (C : IsFaulty P 50 D.fetch_funds) (K : KeepsCursor P Q C) (input : ReportIn)
    (ov : Overview P) (st1 nd2 : String) (marker : P.Num) (all : List FundRow) where
  -- What the rows seen so far give is all, once the grid is full.
  saturated :
      (seen : List FundRow) (row : FundRow) (rest : List FundRow) (f : ReportFrame P)
      → seen ++ (row ∷ rest) ≡ all
      → S.as_grid03 ≤ f.output.grid_cnt03
      → Filled P S input ov st1 nd2 marker seen f
      → Filled P S input ov st1 nd2 marker all f
  saturated seen row rest f ea full i =
      let k = keep (shown st1 nd2) seen in
      let same : take S.as_grid03 (keep (shown st1 nd2) all) ≡ take S.as_grid03 k =
        rw (← ea, keep-append (shown st1 nd2) seen (row ∷ rest))
          (take-append_of_le S.as_grid03 k (keep (shown st1 nd2) (row ∷ rest))
            (omega (arith, i.count, length-take S.as_grid03 k))) in
      record {
        overview = i.overview;
        st1_chec_yn = i.st1_chec_yn;
        nd2_chec_yn = i.nd2_chec_yn;
        num_999 = i.num_999;
        places = i.places;
        room = i.room;
        count = i.count ∙ sym (ap length same);
        rows = rw same i.rows;
      }

  skipped :
      (seen : List FundRow) (row : FundRow) (f : ReportFrame P)
      → shown st1 nd2 row ≡ false
      → Filled P S input ov st1 nd2 marker seen f
      → Filled P S input ov st1 nd2 marker (seen ++ (row ∷ [])) f
  skipped seen row f out i =
      let same : keep (shown st1 nd2) (seen ++ (row ∷ [])) ≡ keep (shown st1 nd2) seen =
        keep-append (shown st1 nd2) seen (row ∷ [])
        ∙ rw (out, keep) (append-nil (keep (shown st1 nd2) seen)) in
      record {
        overview = i.overview;
        st1_chec_yn = i.st1_chec_yn;
        nd2_chec_yn = i.nd2_chec_yn;
        num_999 = i.num_999;
        places = i.places;
        room = i.room;
        count = i.count ∙ sym (ap (λ x. length (take S.as_grid03 x)) same);
        rows = rw same i.rows;
      }

  Filled-Added :
      (seen : List FundRow) (row : FundRow) (m m' : Machine P (ReportFrame P))
      → shown st1 nd2 row ≡ true
      → m.frame.output.grid_cnt03 < S.as_grid03
      → Filled P S input ov st1 nd2 marker seen m.frame
      → Added P S D Q T input row m m'
      → Filled P S input ov st1 nd2 marker (seen ++ (row ∷ [])) m'.frame
  Filled-Added seen row m m' inn h i a =
      let k = keep (shown st1 nd2) seen in
      let n = m.frame.output.grid_cnt03 in
      let f = row_of P S input marker in
      let new = row_of P S input m.frame.context.num_999 row in
      let few : length k < S.as_grid03 = omega (arith, i.count, length-take S.as_grid03 k) in
      let now : take S.as_grid03 (keep (shown st1 nd2) (seen ++ (row ∷ []))) ≡ k ++ (row ∷ []) =
        ap (take S.as_grid03) (keep-append (shown st1 nd2) seen (row ∷ []) ∙ rw (inn, keep) refl)
        ∙ take_all S.as_grid03 (k ++ (row ∷ [])) (omega (arith, length-append k (row ∷ []))) in
      let before : take S.as_grid03 k ≡ k = take_all S.as_grid03 k (omega arith) in
      let more : n + 1 ≡ suc n = omega arith in
      subst (Filled P S input ov st1 nd2 marker (seen ++ (row ∷ []))) (sym a.frame) (record {
        overview = i.overview;
        st1_chec_yn = i.st1_chec_yn;
        nd2_chec_yn = i.nd2_chec_yn;
        num_999 = i.num_999;
        places = i.places;
        room = length-set m.frame.output.grid03 n new ∙ i.room;
        count = rw now (omega (arith, i.count, ap length before, length-append k (row ∷ [])));
        rows =
            rw (now, more, take-set m.frame.output.grid03 n new (omega (arith, i.room)))
              (ap (λ t. t ++ (new ∷ [])) (i.rows ∙ ap (map f) before)
                ∙ ap (λ mk. map f k ++ (row_of P S input mk row ∷ [])) i.num_999
                ∙ sym (map-append f k (row ∷ [])));
      })

  -- What a visit answers: `true` with the row seen to, `false` with the grid full.
  abbrev pub Seen :
      List FundRow → FundRow → Machine P (ReportFrame P) → Bool → Machine P (ReportFrame P) → Type 0
  Seen =
      Visited 50 (fund_loop P S D Q T input) C all (Filled P S input ov st1 nd2 marker)
        (Filled P S input ov st1 nd2 marker all) (Left P S D Q input ov st1 nd2 marker all)

  length-zero_rates : (a : List P.Num) → length (zero_rates P S D Q T input a) ≡ length a
  length-zero_rates a = ground (
    arith,
    length-set a 0 P.num_zero,
    length-set (set a 0 P.num_zero) 1 P.num_zero,
    length-set (set (set a 0 P.num_zero) 1 P.num_zero) 2 P.num_zero,
    length-set (set (set (set a 0 P.num_zero) 1 P.num_zero) 2 P.num_zero) 3 P.num_zero,
    length-set (set (set (set (set a 0 P.num_zero) 1 P.num_zero) 2 P.num_zero) 3 P.num_zero) 4
        P.num_zero,
    length-set
        (set (set (set (set (set a 0 P.num_zero) 1 P.num_zero) 2 P.num_zero) 3 P.num_zero) 4
          P.num_zero)
        5 P.num_zero,
  )

  -- The rates' loop leaves the grid as it is.
  Filled-Looped :
      (seen : List FundRow) (row : FundRow) (m m' : Machine P (ReportFrame P))
      → Looped P L S Q C K input 8 1 row m m'
      → Filled P S input ov st1 nd2 marker seen m.frame
      → Filled P S input ov st1 nd2 marker seen m'.frame
  Filled-Looped seen row m m' l i = record {
    overview = ap (λ x. x.overview) l.calm.output ∙ i.overview;
    st1_chec_yn = l.calm.st1 ∙ i.st1_chec_yn;
    nd2_chec_yn = l.calm.nd2 ∙ i.nd2_chec_yn;
    num_999 = ap (λ x. x.num_999) l.calm.context ∙ i.num_999;
    places = l.calm.rates ∙ i.places;
    room = ap (λ x. length x.grid03) l.calm.output ∙ i.room;
    count = ap (λ x. x.grid_cnt03) l.calm.output ∙ i.count;
    rows = rw l.calm.output i.rows;
  }

  behind :
      (seen : List FundRow) (row : FundRow) (m m' : Machine P (ReportFrame P))
      → shown st1 nd2 row ≡ true
      → m.frame.output.grid_cnt03 < S.as_grid03
      → Filled P S input ov st1 nd2 marker seen m.frame
      → Looped P L S Q C K input 8 1 row m m'
      → Ensures
          (Seen seen row m)
          (Left P S D Q input ov st1 nd2 marker all)
          ((grid_node P S D Q T input row >> pure true) m')
  behind seen row m m' inn h i l =
      let i' = Filled-Looped seen row m m' l i in
      let h' : m'.frame.output.grid_cnt03 < S.as_grid03 =
        rw (ap (λ x. x.grid_cnt03) l.calm.output) h in
      Ensures-bind (λ _ m2. Added P S D Q T input row m' m2) (Seen seen row m)
        (Left P S D Q input ov st1 nd2 marker all) (grid_node P S D Q T input row) (λ _. pure true)
        m'
        (grid_node_lem P S D Q T input (Left P S D Q input ov st1 nd2 marker all) row m'
          (omega (arith, i'.room))
          (λ j lo hi. rw (ap (λ x. x.num_999) l.calm.context) (l.kept j lo hi)))
        (λ _ m2 a. (
          Filled-Added seen row m' m2 inn h' i' a,
          (ap C.pending a.world ∙ l.calm.pending, ap C.delivered a.world ∙ l.calm.delivered),
        ))

  show_row_lem :
      (seen : List FundRow) (row : FundRow) (rest : List FundRow) (m : Machine P (ReportFrame P))
      → seen ++ (row ∷ rest) ≡ all
      → shown st1 nd2 row ≡ true
      → Filled P S input ov st1 nd2 marker seen m.frame
      → Ensures
          (Seen seen row m)
          (Left P S D Q input ov st1 nd2 marker all)
          (show_row P S D Q T input row m)
  unfolding show_row
  show_row_lem seen row rest m ea inn i =
      elim (Bool-cases (leb S.as_grid03 m.frame.output.grid_cnt03)) [
        | inl full ↦ rw full (saturated seen row rest m.frame ea (ground arith) i)
        | inr room ↦
            let m1 : Machine P (ReportFrame P) = record m {
              frame = record m.frame {
                locals = record m.frame.locals {
                  arr_suik_rt = zero_rates P S D Q T input m.frame.locals.arr_suik_rt;
                };
              };
            } in
            let places : length m1.frame.locals.arr_suik_rt ≡ 10 =
              length-zero_rates m.frame.locals.arr_suik_rt ∙ i.places in
            rw room (
              Ensures-bind (λ _ m2. Looped P L S Q C K input 8 1 row m1 m2) (Seen seen row m)
                (Left P S D Q input ov st1 nd2 marker all) (period_loop P S Q input 8 1 row)
                (λ _. grid_node P S D Q T input row >> pure true) m1
                (Ensures-weaken (λ _ m2. Looped P L S Q C K input 8 1 row m1 m2)
                  (λ _ m2. Looped P L S Q C K input 8 1 row m1 m2) (IsErr P L S Q C K input)
                  (Left P S D Q input ov st1 nd2 marker all) (period_loop P S Q input 8 1 row m1)
                  (period_loop_lem P L S Q C K input 8 1 row m1 (omega (arith, places))
                    (omega arith) (omega arith))
                  (λ _ _ l. l) (λ _ _ e. inl (e.0, λ s. e.1 s.0)))
                (λ _ m2 l.
                  behind seen row m1 m2 inn (ground arith)
                    (record {
                      overview = i.overview;
                      st1_chec_yn = i.st1_chec_yn;
                      nd2_chec_yn = i.nd2_chec_yn;
                      num_999 = i.num_999;
                      places = places;
                      room = i.room;
                      count = i.count;
                      rows = i.rows;
                    })
                    l))
      ]

  pub visit_row_lem :
      (seen : List FundRow) (row : FundRow) (rest : List FundRow) (m : Machine P (ReportFrame P))
      → seen ++ (row ∷ rest) ≡ all
      → Filled P S input ov st1 nd2 marker seen m.frame
      → Ensures
          (Seen seen row m)
          (Left P S D Q input ov st1 nd2 marker all)
          (visit_row P S D Q T input row m)
  unfolding visit_row
  visit_row_lem seen row rest m ea i =
      elim (Bool-cases (row.trgt_dtcd == "2" && is_off m.frame.locals.st1_chec_yn)) [
        | inl first ↦
            rw first (skipped seen row m.frame (rw (← i.st1_chec_yn, first) refl) i, (refl, refl))
        | inr first ↦
            elim (Bool-cases (row.trgt_dtcd == "3" && is_off m.frame.locals.nd2_chec_yn)) [
              | inl second ↦
                  rw (first, second)
                    (
                      skipped seen row m.frame
                          (rw (← i.st1_chec_yn, ← i.nd2_chec_yn, first, second) refl) i,
                      (refl, refl),
                    )
              | inr second ↦
                  rw (first, second)
                    (show_row_lem seen row rest m ea
                      (rw (← i.st1_chec_yn, ← i.nd2_chec_yn, first, second) refl) i)
            ]
      ]
