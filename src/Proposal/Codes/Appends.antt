-- ===== src/Proposal/Codes/Appends.antt =====
-- Node 12 of SRLGR96602A.c as a whole: what stands in the table behind it, for every size of an insert.
use no_gada_automation.Base.{
  ℕ, ◌+◌, ◌≤◌, ◌<◌, ◌≡◌, refl, sym, ap, subst, ◌∙◌, String, Bool, true, false, inl, inr, List, [],
  ◌∷◌, ◌++◌, map, append-nil, append_assoc, arith, length, length-append, if◌then◌else◌, Bool-cases,
}
use no_gada_automation.Proframe.Cursor.Ensures.{steady, unbroken}
use no_gada_automation.Proframe.{opened, Pfm, IsLawful, Machine, pure, leave, ◌>>=◌}
use no_gada_automation.Proframe.Laws.{jumps-ne_nrm}
use no_gada_automation.Proframe.Cursor.{fetch_loop}
use no_gada_automation.Proframe.Cursor.Rule.{Ensures, Ensures-bind, Ensures-weaken, IsCursor}
use no_gada_automation.Proframe.Cursor.Paged.{Stepped, paged_rule}
use no_gada_automation.Proposal.{
  ProposalIn, ProposalFrame, ProposalPfm, ProposalDbio, CodedFund, CodeRow,
}
use no_gada_automation.Proposal.Codes.{
  zero_codes, zero_funds, code_loop, codes_in, close_codes, no_codes, visit_code, codes_node,
}
use no_gada_automation.Proposal.Codes.Table.{IsTable, plain, view}
use no_gada_automation.Proposal.Codes.Place.{Within, length-zero_codes}
use no_gada_automation.Proposal.Codes.Visit.{Put, visit_code_lem}
use no_gada_automation.Proposal.Codes.Repeats.{
  start, no_more, Appended, Left, failed, InPage, Between, Inside, last_lem, some_left,
}
use no_gada_automation.Proposal.Codes.Pages.{enter_lem, full_lem}

module _ (P : Pfm) (L : IsLawful P) (S : ProposalPfm P) (D : ProposalDbio P) (input : ProposalIn)
    (C : IsCursor P 1000 D.fetch_codes) (T : IsTable P D C) (fits : D.as_ei001 ≤ 1000)
    (some_room : 0 < D.as_ei001) where
  module _ (grp : String) (base : List CodeRow) (all : List CodedFund) where
    abbrev Next :
        List CodedFund
        → (cur ix : ℕ) → CodedFund
        → Machine P (ProposalFrame P)
        → Bool
        → Machine P (ProposalFrame P)
        → Type 0
    Next =
        Stepped 1000 (code_loop P S D input) (steady C) all
          (Between P L S D input C T fits some_room grp base all)
          (Inside P L S D input C T fits some_room grp base all)
          (Appended P L S D input C T fits some_room grp base all)
          (Left P L S D input C T fits some_room grp base all)

    visit_lem :
        (seen : List CodedFund) (row : CodedFund) (ix cur tot : ℕ)
        → ix < cur
        → (m : Machine P (ProposalFrame P))
        → Inside P L S D input C T fits some_room grp base all seen cur ix m
        → Ensures
            (Next seen cur ix row m)
            (Left P L S D input C T fits some_room grp base all)
            (visit_code P S D input ix cur tot row m)
    visit_lem seen row ix cur tot lt m (inr e) = absurd (omega (arith, e.0))
    visit_lem seen row ix cur tot lt m (inl i) =
        let Lv = Left P L S D input C T fits some_room grp base all in
        let fails = failed P L S D input C T fits some_room grp base all in
        let h = length i.held in
        let sent = i.sent ++ (i.held ++ i.part) in
        Ensures-weaken
          (λ go m2.
            (go ≡ true)
            × Put P S D input C T fits some_room grp base h Lv fails (sent ++ (row ∷ [])) cur ix m
                m2)
          (Next seen cur ix row m) Lv Lv (visit_code P S D input ix cur tot row m)
          (visit_code_lem P S D input C T fits some_room grp base h Lv fails sent row cur tot ix lt
            m i.within)
          (λ go m2 p. rw p.0 (inl (grown m2 p.1.0), p.1.1)) (λ _ _ r. r)
      where
        grown :
            (m2 : Machine P (ProposalFrame P))
            → Within P S D input C T fits some_room grp base
                (length i.held)
                ((i.sent ++ (i.held ++ i.part)) ++ (row ∷ []))
                cur
                (ix + 1)
                m2
            → InPage P L S D input C T fits some_room grp base all
                (seen ++ (row ∷ []))
                cur
                (ix + 1)
                m2
        grown m2 w = record {
          before = i.before;
          sent = i.sent;
          held = i.held;
          part = i.part ++ (row ∷ []);
          so_far = i.so_far;
          rows = ap (λ x. x ++ (row ∷ [])) i.rows ∙ append_assoc i.before i.part (row ∷ []);
          length_part = omega (arith, length-append i.part (row ∷ []), i.length_part);
          some_rows = i.some_rows;
          few = i.few;
          within =
              subst
                (λ x.
                  Within P S D input C T fits some_room grp base (length i.held) x cur (ix + 1) m2)
                (append_assoc i.sent (i.held ++ i.part) (row ∷ [])
                  ∙ ap (λ x. i.sent ++ x) (append_assoc i.held i.part (row ∷ [])))
                w;
        }

    emptied :
        (m : Machine P (ProposalFrame P))
        → Inside P L S D input C T fits some_room grp base all [] 0 0 m
        → Appended P L S D input C T fits some_room grp base [] m
    emptied m (inl i) = absurd (omega (arith, i.some_rows))
    emptied m (inr b) = record { sent = b.1.sent; order = no_more b.1.so_far; table = b.1.done }

    loop_lem :
        (fuel : ℕ) (rows : List CodedFund) (m : Machine P (ProposalFrame P))
        → length (C.pending m.world) < fuel
        → C.delivered m.world ≡ 0
        → C.pending m.world ≡ all
        → Between P L S D input C T fits some_room grp base all [] m
        → Ensures
            (λ _ m'. Appended P L S D input C T fits some_room grp base all m')
            (Left P L S D input C T fits some_room grp base all)
            (fetch_loop (code_loop P S D input) fuel 0 rows m)
    unfolding no_codes
    loop_lem fuel rows m hf hd ea b =
        let Lv = Left P L S D input C T fits some_room grp base all in
        let Btw = Between P L S D input C T fits some_room grp base all in
        let Ins = Inside P L S D input C T fits some_room grp base all in
        let App = Appended P L S D input C T fits some_room grp base all in
        paged_rule 1000 (code_loop P S D input) (steady C) all Btw Ins App Lv
          (record {
            failed = λ _ _ _ h _. unbroken h;
            enter = λ seen rows' cur m' b'.
                enter_lem P L S D input C T fits some_room grp base all seen rows' m' b' cur;
            visits =
                λ seen row rest e ix cur tot lt _ _ m' i. visit_lem seen row ix cur tot lt m' i;
            full = full_lem P L S D input C T fits some_room grp base all;
            last = last_lem P L S D input C T fits some_room grp base all;
            empty = λ m' none_left i. inr (
              refl,
              none_left,
              let a = emptied m' i in
                  rw none_left (record { sent = a.sent; order = a.order; table = a.table }),
            );
          })
          fuel 0 rows [] m (omega arith) hf (sym hd) refl ea b

  -- The close behind the loop, and the jump on its code.
  closing_lem :
      (grp : String) (base : List CodeRow) (all : List CodedFund) (m : Machine P (ProposalFrame P))
      → Appended P L S D input C T fits some_room grp base all m
      → Ensures
          (λ _ m'. Appended P L S D input C T fits some_room grp base all m')
          (Left P L S D input C T fits some_room grp base all)
          ((close_codes P S D input >>= λ closing.
              if P.try_jumps closing then leave closing else pure tt)
            m)
  unfolding close_codes
  closing_lem grp base all m i = elim (Bool-cases (P.try_jumps (D.close_codes m.world).0)) [
    | inl jump ↦
        let ne = jumps-ne_nrm L (D.close_codes m.world).0 jump in
        rw jump (inl (ne, λ s. ne (s.1 m.world)))
    | inr go ↦ rw go (record {
      sent = i.sent;
      order = i.order;
      table = ap (map plain) (T.close_kept m.world) ∙ i.table;
    })
  ]

  abbrev pub behind_open : Machine P (ProposalFrame P) → P.World
  behind_open m = (D.open_codes (codes_in P S D input) m.world).1

  -- Over a lawful runtime, a cursor that delivers its rows in pages of 1000 and a table that grows as
  -- documented, with an insert of a positive size up to 1000, a cursor that opens with nothing
  -- delivered, and more fuel than it has rows: the node makes no access outside an array and ends.
  -- Where it goes on, the table has, behind the rows from before, those of each page in order and with
  -- the number drawn, each page behind the rows that did not make up an insert of their own at the end
  -- of the page before, which so stand in the table twice. It leaves with `RC_NRM` only for a cursor
  -- without rows, and with another code only if an insert or the close can fail.
  pub codes_node-Appended :
      (fuel : ℕ) (m : Machine P (ProposalFrame P))
      → P.chk_fail (behind_open m) ≡ false
      → C.delivered (behind_open m) ≡ 0
      → length (C.pending (behind_open m)) < fuel
      → Ensures
          (λ _ m'.
            Appended P L S D input C T fits some_room m.frame.code_slct_grp_no
              (view T m.world)
              (C.pending (behind_open m))
              m')
          (Left P L S D input C T fits some_room m.frame.code_slct_grp_no
            (view T m.world)
            (C.pending (behind_open m)))
          (codes_node P S D input fuel m)
  unfolding codes_node
  codes_node-Appended fuel m fine fresh enough =
      let grp = m.frame.code_slct_grp_no in
      let base = view T m.world in
      let all = C.pending (behind_open m) in
      let m1 : Machine P (ProposalFrame P) = record {
        frame = record m.frame { ll_ins_idx = 0; ins_rows = zero_codes };
        world = behind_open m;
        log =
            opened "PFO_FUND_INFR_HT_VF721" (D.open_codes (codes_in P S D input) m.world).0 ∷ m.log;
      } in
      let Q : Unit {0} → Machine P (ProposalFrame P) → Type 0 =
        λ _ m'. Appended P L S D input C T fits some_room grp base all m' in
      rw fine (
        Ensures-bind Q Q (Left P L S D input C T fits some_room grp base all)
          (fetch_loop (code_loop P S D input) fuel 0 zero_funds)
          (λ _. close_codes P S D input >>= λ closing.
            if P.try_jumps closing then leave closing else pure tt)
          m1
          (loop_lem grp base all fuel zero_funds m1 enough fresh refl (record {
            sent = [];
            held = [];
            so_far = start;
            grp_kept = refl;
            room = length-zero_codes;
            few = some_room;
            array = (omega arith, refl);
            edge = some_left refl refl;
            done =
                ap (map plain) (T.open_kept (codes_in P S D input) m.world) ∙ sym (append-nil base);
          }))
          (λ _ m' i. closing_lem grp base all m' i))
