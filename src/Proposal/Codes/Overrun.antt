-- ===== src/Proposal/Codes/Overrun.antt =====
-- Node 12 of SRLGR96602A.c with an insert that is larger than the array.
use no_gada_automation.Base.{
  ℕ, suc, ◌+◌, ◌-◌, ◌%◌, ◌≤◌, ◌<◌, ◌≡◌, refl, ◌∙◌, true, false, ◌||◌, ◌&&◌, inl, inr, List, ◌∷◌,
  arith, eqb, ltb, length, length-set, if◌then◌else◌, Bool-cases,
}
use native.Mathlib.Nat.{mod-eq_of_lt}
use no_gada_automation.Proframe.{nrm, opened, Pfm, Machine, wild, pure, leave, ◌>>=◌, ◌>>◌}
use no_gada_automation.Proframe.Cursor.{fetch_loop}
use no_gada_automation.Proframe.Cursor.Crash.{CrashesOr, CrashesOr-bind, crashed_lem, crash_rule}
use no_gada_automation.Proframe.Cursor.Rule.{IsCursor}
use no_gada_automation.Proposal.{
  ProposalIn, ProposalFrame, ProposalPfm, ProposalDbio, CodedFund, CodeRow,
}
use no_gada_automation.Proposal.Codes.{
  zero_codes, zero_funds, start_over, put_code, add_code, insert_node, insert_exception,
  insert_if_due, visit_code, code_loop, codes_in, close_codes, codes_node,
}
use no_gada_automation.Proposal.Codes.Bounds.{KeepsCursor}
use no_gada_automation.Proposal.Codes.Place.{length-zero_codes}

module _ (P : Pfm) (S : ProposalPfm P) (D : ProposalDbio P) (input : ProposalIn)
    (C : IsCursor P 1000 D.fetch_codes) (K : KeepsCursor P D C) (too_large : 1000 < D.as_ei001)
    (inserts : (n : ℕ) (array : List CodeRow) (w : P.World)
      → (D.insert_codes n array w).0 ≡ nrm) where
  -- The array has its first `n` places filled, with the cursor at a place of its own.
  record Filled (left : List CodedFund) (count n : ℕ) (m : Machine P (ProposalFrame P))
      : Type 0 where
    pub bound : n ≤ 1000
    pub room : length m.frame.ins_rows ≡ 1000
    pub index : m.frame.ll_ins_idx ≡ n
    pub pending : C.pending m.world ≡ left
    pub delivered : C.delivered m.world ≡ count

  module _ (left : List CodedFund) (count : ℕ) where
    abbrev At : ℕ → Machine P (ProposalFrame P) → Type 0
    At = Filled left count

    start_over_lem :
        (n : ℕ) (m : Machine P (ProposalFrame P))
        → At n m
        → CrashesOr (λ _ m'. At n m') (start_over P S D input m)
    start_over_lem n m i = elim (Bool-cases (eqb m.frame.ll_ins_idx 0)) [
      | inl first ↦ rw first (record {
        bound = i.bound;
        room = length-zero_codes;
        index = ground (arith, i.index);
        pending = i.pending;
        delivered = i.delivered;
      })
      | inr later ↦
          let lt : m.frame.ll_ins_idx < D.as_ei001 = omega (arith, i.index, i.bound) in
          let ne : eqb (m.frame.ll_ins_idx % D.as_ei001) 0 ≡ false =
            ground (arith, mod-eq_of_lt lt) in
          rw (later, ne) i
    ]

    put_code_lem :
        (n : ℕ) (row : CodedFund) (m : Machine P (ProposalFrame P))
        → At n m
        → CrashesOr (λ _ m'. At (n + 1) m') (put_code P S D input row m)
    put_code_lem n row m i = elim (Bool-cases (ltb m.frame.ll_ins_idx (length m.frame.ins_rows))) [
      | inl inside ↦ rw inside (record {
        bound = ground (arith, i.room, i.index);
        room = length-set m.frame.ins_rows m.frame.ll_ins_idx _ ∙ i.room;
        index = omega (arith, i.index);
        pending = i.pending;
        delivered = i.delivered;
      })
      | inr outside ↦ rw outside tt
    ]

    insert_if_due_lem :
        (ix cur n : ℕ) (m : Machine P (ProposalFrame P))
        → At n m
        → CrashesOr (λ _ m'. At n m') (insert_if_due P S D input ix cur m)
    unfolding insert_node insert_exception
    insert_if_due_lem ix cur n m i =
        let k = m.frame.ll_ins_idx in
        let rows = m.frame.ins_rows in
        elim (Bool-cases (eqb k D.as_ei001 || eqb ix (cur - 1) && ltb 0 k)) [
          | inl due ↦
              rw (due, inserts k rows m.world)
                (record {
                  bound = i.bound;
                  room = i.room;
                  index = i.index;
                  pending = K.pending k rows m.world ∙ i.pending;
                  delivered = K.delivered k rows m.world ∙ i.delivered;
                })
          | inr later ↦ rw later i
        ]

    -- A row is put behind the others, unless the array is full.
    visit_code_lem :
        (ix cur tot n : ℕ) (row : CodedFund) (m : Machine P (ProposalFrame P))
        → At n m
        → CrashesOr (λ go m'. (go ≡ true) × At (n + 1) m') (visit_code P S D input ix cur tot row m)
    unfolding visit_code add_code
    visit_code_lem ix cur tot n row m i =
        CrashesOr-bind (λ _ m'. At (n + 1) m') (λ go m'. (go ≡ true) × At (n + 1) m')
          (add_code P S D input row) (λ _. insert_if_due P S D input ix cur >> pure true) m
          (CrashesOr-bind (λ _ m'. At n m') (λ _ m'. At (n + 1) m') (start_over P S D input)
            (λ _. put_code P S D input row) m (start_over_lem n m i)
            (λ _ m1 a. put_code_lem n row m1 a))
          (λ _ m1 a.
            CrashesOr-bind (λ _ m'. At (n + 1) m') (λ go m'. (go ≡ true) × At (n + 1) m')
              (insert_if_due P S D input ix cur) (λ _. pure true) m1
              (insert_if_due_lem ix cur (n + 1) m1 a) (λ _ m2 b. (refl, b)))

  abbrev pub behind_open : Machine P (ProposalFrame P) → P.World
  behind_open m = (D.open_codes (codes_in P S D input) m.world).1

  -- For a cursor that delivers its rows in pages of 1000 and that an insert leaves alone, with an
  -- insert of a size above 1000 and no insert failing, a cursor that opens with nothing delivered and
  -- more than 1000 rows, and fuel for two pages: the node writes outside its array.
  pub codes_node_overruns :
      (fuel : ℕ) (m : Machine P (ProposalFrame P))
      → P.chk_fail (behind_open m) ≡ false
      → C.delivered (behind_open m) ≡ 0
      → 1000 < length (C.pending (behind_open m))
      → (codes_node P S D input (suc (suc fuel)) m).0 ≡ wild
  unfolding codes_node
  codes_node_overruns fuel m fine start more =
      let m1 : Machine P (ProposalFrame P) = record {
        frame = record m.frame { ll_ins_idx = 0; ins_rows = zero_codes };
        world = behind_open m;
        log =
            opened "PFO_FUND_INFR_HT_VF721" (D.open_codes (codes_in P S D input) m.world).0 ∷ m.log;
      } in
      rw fine (
        crashed_lem _ (
          CrashesOr-bind (λ _ _. ⊥) (λ _ _. ⊥)
            (fetch_loop (code_loop P S D input) (suc (suc fuel)) 0 zero_funds)
            (λ _. close_codes P S D input >>= λ closing.
              if P.try_jumps closing then leave closing else pure tt)
            m1
            (crash_rule 1000 (code_loop P S D input) C Filled
              (record {
                bound = λ _ _ _ _ i. i.bound;
                cursor = λ _ _ _ _ i. (i.pending, i.delivered);
                fetched = λ _ _ _ _ _ i. record {
                  bound = i.bound;
                  room = i.room;
                  index = i.index;
                  pending = refl;
                  delivered = refl;
                };
                visits = λ left count n ix cur tot row m' i.
                    visit_code_lem left count ix cur tot n row m' i;
              })
              fuel zero_funds (C.pending (behind_open m)) m1 (omega arith) more
              (record {
                bound = omega arith;
                room = length-zero_codes;
                index = refl;
                pending = refl;
                delivered = start;
              }))
            (λ _ _ no. absurd no)))
