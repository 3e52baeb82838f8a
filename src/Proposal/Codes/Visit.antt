-- ===== src/Proposal/Codes/Visit.antt =====
-- Nodes 28 and 29 of SRLGR96602A.c: one row into the array, and the array into the table.
use no_gada_automation.Base.{
  ℕ, suc, ◌+◌, ◌-◌, ◌*◌, ◌≤◌, ◌<◌, ◌≡◌, ◌≢◌, refl, sym, ap, ◌∙◌, String, true, ◌⊎◌, inl, inr, List,
  [], ◌∷◌, ◌++◌, map, map-append, append_assoc, arith, eqb, ltb, length, length-append, take,
  last_rows, last_rows-append_last, set, length-set, take-set, Bool-cases,
}
use no_gada_automation.Proframe.Cursor.Ensures.{steady}
use no_gada_automation.Proframe.{Rc, nrm, nfd, dup, err, other, Pfm, Machine, pure, ◌>>◌}
use no_gada_automation.Proframe.Cursor.Rule.{Ensures, Ensures-bind, IsCursor}
use no_gada_automation.Proframe.Cursor.Ensures.{Same}
use no_gada_automation.Proposal.{
  ProposalIn, ProposalFrame, ProposalPfm, ProposalDbio, CodedFund, CodeRow,
}
use no_gada_automation.Proposal.Codes.{
  code_row, start_over, put_code, add_code, insert_node, insert_exception, insert_if_due,
  visit_code,
}
use no_gada_automation.Proposal.Codes.Table.{row_for, IsTable, plain, Smooth, rows_for, view}
use no_gada_automation.Proposal.Codes.Place.{
  Almost, Held, waiting, flushed, Within, Ready, start_over_lem,
}

module _ (P : Pfm) (S : ProposalPfm P) (D : ProposalDbio P) (input : ProposalIn)
    (C : IsCursor P 1000 D.fetch_codes) (T : IsTable P D C) (fits : D.as_ei001 ≤ 1000)
    (some_room : 0 < D.as_ei001) (grp : String) (base : List CodeRow) (h : ℕ)
    (R : Rc → Machine P (ProposalFrame P) → Type 0)
    (failed : (m : Machine P (ProposalFrame P)) → ¬ Smooth P D → R err m) where
  -- The row stands in the array.
  record Added (seen : List CodedFund) (ix : ℕ) (w : P.World) (m : Machine P (ProposalFrame P))
      : Type 0 where
    pub world : m.world ≡ w
    pub grp_kept : m.frame.code_slct_grp_no ≡ grp
    pub room : length m.frame.ins_rows ≡ 1000
    pub q : ℕ
    pub batches : h + (ix + 1) + D.as_ei001 ≡ D.as_ei001 * q + m.frame.ll_ins_idx
    pub some_rows : 0 < m.frame.ll_ins_idx
    pub free : m.frame.ll_ins_idx ≤ D.as_ei001
    pub held : Held P S D input C T fits some_room grp base h seen m.frame
    pub almost : Almost P S D input C T fits some_room grp base h seen m

  put_lem :
      (seen : List CodedFund) (row : CodedFund) (ix : ℕ) (w : P.World)
      (m : Machine P (ProposalFrame P))
      → Ready P S D input C T fits some_room grp base h seen ix w m
      → Added (seen ++ (row ∷ [])) ix w (record m {
        frame = record m.frame {
          ins_rows =
              set m.frame.ins_rows m.frame.ll_ins_idx
                (code_row P S D input m.frame.code_slct_grp_no (D.insert_info m.world) row);
          ll_ins_idx = m.frame.ll_ins_idx + 1;
        };
      })
  put_lem seen row ix w m r =
      let n = m.frame.ll_ins_idx in
      let rows = m.frame.ins_rows in
      let new = code_row P S D input m.frame.code_slct_grp_no (D.insert_info m.world) row in
      let more : n + 1 ≡ suc n = omega arith in
      let new_array : map plain (take (n + 1) (set rows n new))
          ≡ map plain (take n rows) ++ (plain new ∷ []) =
        rw (more, take-set rows n new (omega (arith, r.room, r.free)))
          (map-append plain (take n rows) (new ∷ [])) in
      let grp_row : plain new ≡ row_for grp row = ap (λ g. row_for g row) r.grp_kept in
      record {
        world = r.world;
        grp_kept = r.grp_kept;
        room = length-set rows n new ∙ r.room;
        q = r.q;
        batches = omega (arith, r.batches);
        some_rows = omega arith;
        free = omega (arith, r.free);
        held = (
          omega (arith, r.held.0, length-append seen (row ∷ [])),
          new_array
              ∙ ap (λ t. t ++ (plain new ∷ [])) r.held.1
              ∙ ap (λ t. rows_for P S D input grp (last_rows n seen) ++ (t ∷ [])) grp_row
              ∙ sym (map-append (row_for grp) (last_rows n seen) (row ∷ []))
              ∙ ap (rows_for P S D input grp) (sym (last_rows-append_last n seen row r.held.0)),
        );
        almost =
            rw (more, take-set rows n new (omega (arith, r.room, r.free)))
              (ap (λ t. view T m.world ++ t) (map-append plain (take n rows) (new ∷ []))
                ∙ sym (append_assoc (view T m.world) (map plain (take n rows)) (plain new ∷ []))
                ∙ ap (λ t. t ++ (plain new ∷ [])) r.almost
                ∙ append_assoc base (rows_for P S D input grp seen) (plain new ∷ [])
                ∙ ap (λ g. base ++ (rows_for P S D input grp seen ++ (row_for g row ∷ [])))
                    r.grp_kept
                ∙ ap (λ t. base ++ t) (sym (map-append (row_for grp) seen (row ∷ []))));
      }

  add_code_lem :
      (seen : List CodedFund) (row : CodedFund) (cur ix : ℕ)
      → ix < cur
      → (m : Machine P (ProposalFrame P))
      → Within P S D input C T fits some_room grp base h seen cur ix m
      → Ensures (λ _ m'. Added (seen ++ (row ∷ [])) ix m.world m') R (add_code P S D input row m)
  unfolding add_code
  add_code_lem seen row cur ix lt m i =
      Ensures-bind (λ _ m'. Ready P S D input C T fits some_room grp base h seen ix m.world m')
        (λ _ m'. Added (seen ++ (row ∷ [])) ix m.world m') R (start_over P S D input)
        (λ _. put_code P S D input row) m
        (start_over_lem P S D input C T fits some_room grp base h R seen cur ix lt m i)
        (λ _ m' r.
          let inside : ltb m'.frame.ll_ins_idx (length m'.frame.ins_rows) ≡ true =
            ground (arith, r.room, r.free, fits) in
          rw inside (put_lem seen row ix m.world m' r))

  -- What a row leaves, with the cursor where it was.
  abbrev pub Put :
      List CodedFund
      → (cur ix : ℕ) → Machine P (ProposalFrame P)
      → Machine P (ProposalFrame P)
      → Type 0
  Put seen cur ix m m' =
      Within P S D input C T fits some_room grp base h seen cur (ix + 1) m' × Same (steady C) m m'

  insert_node_lem :
      (seen : List CodedFund) (cur ix : ℕ) (m0 m : Machine P (ProposalFrame P))
      → Added seen ix m0.world m
      → (m.frame.ll_ins_idx ≡ D.as_ei001) ⊎ (ix + 1 ≡ cur)
      → Ensures (λ _ m'. Put seen cur ix m0 m') R (insert_node P S D input m)
  unfolding insert_node insert_exception
  insert_node_lem seen cur ix m0 m a due = by_code (D.insert_codes n rows m.world).0 refl
    where
      n : ℕ
      n = m.frame.ll_ins_idx

      rows : List CodeRow
      rows = m.frame.ins_rows

      w : P.World
      w = (D.insert_codes n rows m.world).1

      bad : (rc : Rc) → rc ≢ nrm → (D.insert_codes n rows m.world).0 ≡ rc → ¬ Smooth P D
      bad rc ne e s = ne (sym e ∙ s.0 n rows m.world)

      inserted :
          (D.insert_codes n rows m.world).0 ≡ nrm → Put seen cur ix m0 (record m { world = w })
      inserted e = (
        record {
          grp_kept = a.grp_kept;
          room = a.room;
          q = a.q;
          batches = a.batches;
          held = a.held;
          place = flushed a.some_rows a.free due (
              ap (map plain) (T.inserted n rows m.world (omega (arith, a.room, a.free, fits)) e)
              ∙ map-append plain (T.rows m.world) (take n rows)
              ∙ a.almost);
        },
        (
          T.pending n rows m.world ∙ ap C.pending a.world,
          T.delivered n rows m.world ∙ ap C.delivered a.world,
        ),
      )

      by_code :
          (rc : Rc)
          → (D.insert_codes n rows m.world).0 ≡ rc
          → Ensures (λ _ m'. Put seen cur ix m0 m') R (insert_node P S D input m)
      by_code nrm e = rw e (inserted e)
      by_code nfd e = rw e (failed _ (bad nfd (ground arith) e))
      by_code dup e = rw e (failed _ (bad dup (ground arith) e))
      by_code err e = rw e (failed _ (bad err (ground arith) e))
      by_code (other k) e = rw e (failed _ (bad (other k) (ground arith) e))

  insert_if_due_lem :
      (seen : List CodedFund) (cur ix : ℕ)
      → ix < cur
      → (m0 m : Machine P (ProposalFrame P)) → Added seen ix m0.world m
      → Ensures (λ _ m'. Put seen cur ix m0 m') R (insert_if_due P S D input ix cur m)
  insert_if_due_lem seen cur ix lt m0 m a = elim (Bool-cases (eqb m.frame.ll_ins_idx D.as_ei001)) [
    | inl full ↦ rw full (insert_node_lem seen cur ix m0 m a (inl (ground arith)))
    | inr space ↦
        let some_rows : ltb 0 m.frame.ll_ins_idx ≡ true = ground (arith, a.some_rows) in
        elim (Bool-cases (eqb ix (cur - 1))) [
          | inl ends ↦
              rw (space, ends, some_rows) (insert_node_lem seen cur ix m0 m a (inr (ground arith)))
          | inr more ↦
              rw (space, more)
                (
                  record {
                    grp_kept = a.grp_kept;
                    room = a.room;
                    q = a.q;
                    batches = a.batches;
                    held = a.held;
                    place = waiting (ground (arith, a.free)) (inl (ground arith)) a.almost;
                  },
                  (ap C.pending a.world, ap C.delivered a.world),
                )
        ]
  ]

  pub visit_code_lem :
      (seen : List CodedFund) (row : CodedFund) (cur tot ix : ℕ)
      → ix < cur
      → (m : Machine P (ProposalFrame P))
      → Within P S D input C T fits some_room grp base h seen cur ix m
      → Ensures
          (λ go m'. (go ≡ true) × Put (seen ++ (row ∷ [])) cur ix m m')
          R
          (visit_code P S D input ix cur tot row m)
  unfolding visit_code
  visit_code_lem seen row cur tot ix lt m i =
      Ensures-bind (λ _ m'. Added (seen ++ (row ∷ [])) ix m.world m')
        (λ go m'. (go ≡ true) × Put (seen ++ (row ∷ [])) cur ix m m') R (add_code P S D input row)
        (λ _. insert_if_due P S D input ix cur >> pure true) m (add_code_lem seen row cur ix lt m i)
        (λ _ m1 a.
          Ensures-bind (λ _ m'. Put (seen ++ (row ∷ [])) cur ix m m')
            (λ go m'. (go ≡ true) × Put (seen ++ (row ∷ [])) cur ix m m') R
            (insert_if_due P S D input ix cur) (λ _. pure true) m1
            (insert_if_due_lem (seen ++ (row ∷ [])) cur ix lt m m1 a) (λ _ m2 put. (refl, put)))
