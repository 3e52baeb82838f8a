-- ===== src/Report/Grid/Row.antt =====
-- The row that node 41 of SPCSP53619C.c adds to the grid.
use no_gada_automation.Base.{ℕ, ◌+◌, ◌<◌, ◌≤◌, ◌≡◌, refl, sym, subst, true, arith, ltb, length, set}
use no_gada_automation.Proframe.{Rc, Pfm, Machine}
use no_gada_automation.Proframe.Cursor.Rule.{Ensures}
use no_gada_automation.Bzop.{DateDbio}
use no_gada_automation.Rates.{RateDbio}
use no_gada_automation.Report.{
  ReportIn, FundRow, ReportFrame, ReportPfm, ReportDbio, grid_node, add_row,
}
use no_gada_automation.Report.Period.Kept.{HasKept}
use no_gada_automation.Report.Grid.{row_of}

module _ (P : Pfm) (S : ReportPfm P) (D : ReportDbio P) (Q : RateDbio P) (T : DateDbio P)
    (input : ReportIn) where
  pub record Added (row : FundRow) (m m' : Machine P (ReportFrame P)) : Type 0 where
    pub frame : m'.frame ≡ record m.frame {
      output = record m.frame.output {
        grid03 =
            set m.frame.output.grid03 m.frame.output.grid_cnt03
              (row_of P S input m.frame.context.num_999 row);
        grid_cnt03 = m.frame.output.grid_cnt03 + 1;
      };
    }
    pub world : m'.world ≡ m.world

  grid_node-eq :
      (row : FundRow) (m : Machine P (ReportFrame P))
      → ((j : ℕ)
          → 1 ≤ j
          → j < 9
          → HasKept P S input m.frame.context.num_999 row m.frame.locals.arr_suik_rt j)
      → grid_node P S D Q T input row m
        ≡ add_row P S D Q T input (row_of P S input m.frame.context.num_999 row) m
  unfolding grid_node
  grid_node-eq row m kept = ground (
    arith,
    kept 1 (omega arith) (omega arith),
    kept 2 (omega arith) (omega arith),
    kept 3 (omega arith) (omega arith),
    kept 4 (omega arith) (omega arith),
    kept 5 (omega arith) (omega arith),
    kept 6 (omega arith) (omega arith),
    kept 7 (omega arith) (omega arith),
    kept 8 (omega arith) (omega arith),
  )

  pub grid_node_lem :
      (R : Rc → Machine P (ReportFrame P) → Type 0) (row : FundRow) (m : Machine P (ReportFrame P))
      → m.frame.output.grid_cnt03 < length m.frame.output.grid03
      → ((j : ℕ)
          → 1 ≤ j
          → j < 9
          → HasKept P S input m.frame.context.num_999 row m.frame.locals.arr_suik_rt j)
      → Ensures (λ _ m'. Added row m m') R (grid_node P S D Q T input row m)
  grid_node_lem R row m h kept =
      let inside : ltb m.frame.output.grid_cnt03 (length m.frame.output.grid03) ≡ true =
        ground arith in
      subst (Ensures (λ _ m'. Added row m m') R) (sym (grid_node-eq row m kept))
        (rw inside (record { frame = refl; world = refl }))
