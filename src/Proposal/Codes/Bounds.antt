-- ===== src/Proposal/Codes/Bounds.antt =====
-- Node 12 of SRLGR96602A.c for every size of an insert that its array of 1000 places holds.
use no_gada_automation.Base.{
  ℕ, ◌-◌, ◌%◌, ◌≤◌, ◌<◌, ◌≡◌, ◌≢◌, refl, sym, ap, ◌∙◌, true, false, ◌||◌, ◌&&◌, ◌⊎◌, inl, inr, List,
  [], ◌∷◌, arith, eqb, ltb, length, length-set, if◌then◌else◌, Bool-cases,
}
use native.Mathlib.Nat.{mod_self}
use no_gada_automation.Proframe.Cursor.Ensures.{steady}
use no_gada_automation.Proframe.{
  Rc, nrm, nfd, dup, err, other, opened, Pfm, IsLawful, Machine, pure, leave, ◌>>=◌, ◌>>◌,
}
use no_gada_automation.Proframe.Laws.{jumps-ne_nrm}
use no_gada_automation.Proframe.Cursor.{fetch_loop}
use no_gada_automation.Proframe.Cursor.Rule.{
  Ensures, Ensures-bind, Ensures-weaken, IsCursor, Visited, fetch_loop_rule,
}
use no_gada_automation.Proframe.Cursor.Ensures.{Same}
use no_gada_automation.Proposal.{
  ProposalIn, ProposalFrame, ProposalPfm, ProposalDbio, CodedFund, CodeRow,
}
use no_gada_automation.Proposal.Codes.{
  zero_codes, zero_funds, start_over, put_code, add_code, insert_node, insert_exception,
  insert_if_due, visit_code, code_loop, codes_in, close_codes, no_codes, codes_node,
}
use no_gada_automation.Proposal.Codes.Table.{lt_or_eq}
use no_gada_automation.Proposal.Codes.Place.{length-zero_codes}

-- An insert leaves the cursor alone.
pub record KeepsCursor (P : Pfm) (D : ProposalDbio P) (C : IsCursor P 1000 D.fetch_codes)
    : Type 0 where
  pub pending :
      (n : ℕ) (array : List CodeRow) (w : P.World)
      → C.pending (D.insert_codes n array w).1 ≡ C.pending w
  pub delivered :
      (n : ℕ) (array : List CodeRow) (w : P.World)
      → C.delivered (D.insert_codes n array w).1 ≡ C.delivered w

module _ (P : Pfm) (L : IsLawful P) (S : ProposalPfm P) (D : ProposalDbio P) (input : ProposalIn)
    (C : IsCursor P 1000 D.fetch_codes) (K : KeepsCursor P D C) (fits : D.as_ei001 ≤ 1000)
    (some_room : 0 < D.as_ei001) where
  -- The array's index is at most the size of an insert.
  pub record InBounds (f : ProposalFrame P) : Type 0 where
    pub room : length f.ins_rows ≡ 1000
    pub index : f.ll_ins_idx ≤ D.as_ei001

  abbrev pub Left : List CodedFund → Rc → Machine P (ProposalFrame P) → Type 0
  Left all rc m = (rc ≢ nrm) ⊎ (all ≡ [])

  module _ (all : List CodedFund) where
    abbrev Kept : Machine P (ProposalFrame P) → Machine P (ProposalFrame P) → Type 0
    Kept m m' = InBounds m'.frame × Same (steady C) m m'

    -- Behind the start, the index is less than the size.
    abbrev Free : Machine P (ProposalFrame P) → Machine P (ProposalFrame P) → Type 0
    Free m m' =
        (length m'.frame.ins_rows ≡ 1000)
        × (m'.frame.ll_ins_idx < D.as_ei001)
        × (m'.world ≡ m.world)

    start_over_lem :
        (m : Machine P (ProposalFrame P))
        → InBounds m.frame
        → Ensures (λ _ m'. Free m m') (Left all) (start_over P S D input m)
    start_over_lem m i =
        elim (Bool-cases (eqb m.frame.ll_ins_idx 0 || eqb (m.frame.ll_ins_idx % D.as_ei001) 0)) [
          | inl again ↦ rw again (length-zero_codes, some_room, refl)
          | inr on ↦ rw on (i.room, below on, refl)
        ]
      where
        below :
            (eqb m.frame.ll_ins_idx 0 || eqb (m.frame.ll_ins_idx % D.as_ei001) 0) ≡ false
            → m.frame.ll_ins_idx < D.as_ei001
        below on = elim (lt_or_eq m.frame.ll_ins_idx D.as_ei001 i.index) [
          | inl less ↦ less
          | inr e ↦
              let rest : m.frame.ll_ins_idx % D.as_ei001 ≡ 0 = rw e (mod_self D.as_ei001) in
              absurd (ground (arith, rest, on))
        ]

    add_code_lem :
        (row : CodedFund) (m : Machine P (ProposalFrame P))
        → InBounds m.frame
        → Ensures
            (λ _ m'. InBounds m'.frame × (m'.world ≡ m.world))
            (Left all)
            (add_code P S D input row m)
    unfolding add_code
    add_code_lem row m i =
        Ensures-bind (λ _ m'. Free m m') (λ _ m'. InBounds m'.frame × (m'.world ≡ m.world))
          (Left all) (start_over P S D input) (λ _. put_code P S D input row) m (start_over_lem m i)
          (λ _ m' r.
            let inside : ltb m'.frame.ll_ins_idx (length m'.frame.ins_rows) ≡ true =
              ground (arith, r.0, r.1, fits) in
            rw inside (
              record {
                room = length-set m'.frame.ins_rows m'.frame.ll_ins_idx _ ∙ r.0;
                index = omega (arith, r.1);
              },
              r.2,
            ))

    insert_node_lem :
        (m : Machine P (ProposalFrame P))
        → InBounds m.frame
        → Ensures (λ _ m'. Kept m m') (Left all) (insert_node P S D input m)
    unfolding insert_node insert_exception
    insert_node_lem m i = by_code (D.insert_codes n rows m.world).0 refl
      where
        n : ℕ
        n = m.frame.ll_ins_idx

        rows : List CodeRow
        rows = m.frame.ins_rows

        by_code :
            (rc : Rc)
            → (D.insert_codes n rows m.world).0 ≡ rc
            → Ensures (λ _ m'. Kept m m') (Left all) (insert_node P S D input m)
        by_code nrm e = rw e (
          record { room = i.room; index = i.index },
          (K.pending n rows m.world, K.delivered n rows m.world),
        )
        by_code nfd e = rw e (inl (ground arith))
        by_code dup e = rw e (inl (ground arith))
        by_code err e = rw e (inl (ground arith))
        by_code (other k) e = rw e (inl (ground arith))

    insert_if_due_lem :
        (ix cur : ℕ) (m : Machine P (ProposalFrame P))
        → InBounds m.frame
        → Ensures (λ _ m'. Kept m m') (Left all) (insert_if_due P S D input ix cur m)
    insert_if_due_lem ix cur m i =
        elim (Bool-cases
          (eqb m.frame.ll_ins_idx D.as_ei001 || eqb ix (cur - 1) && ltb 0 m.frame.ll_ins_idx)) [
            | inl due ↦ rw due (insert_node_lem m i)
            | inr later ↦ rw later (i, (refl, refl))
          ]

    visit_code_lem :
        (ix cur tot : ℕ) (row : CodedFund) (m : Machine P (ProposalFrame P))
        → InBounds m.frame
        → Ensures
            (λ go m'. (go ≡ true) × Kept m m')
            (Left all)
            (visit_code P S D input ix cur tot row m)
    unfolding visit_code
    visit_code_lem ix cur tot row m i =
        Ensures-bind (λ _ m'. InBounds m'.frame × (m'.world ≡ m.world))
          (λ go m'. (go ≡ true) × Kept m m') (Left all) (add_code P S D input row)
          (λ _. insert_if_due P S D input ix cur >> pure true) m (add_code_lem row m i)
          (λ _ m1 a.
            Ensures-bind (λ _ m'. Kept m1 m') (λ go m'. (go ≡ true) × Kept m m') (Left all)
              (insert_if_due P S D input ix cur) (λ _. pure true) m1
              (insert_if_due_lem ix cur m1 a.0)
              (λ _ m2 k. (refl, (k.0, (k.1.0 ∙ ap C.pending a.1, k.1.1 ∙ ap C.delivered a.1)))))

  abbrev pub behind_open : Machine P (ProposalFrame P) → P.World
  behind_open m = (D.open_codes (codes_in P S D input) m.world).1

  -- Over a lawful runtime, a cursor that delivers its rows in pages of 1000 and that an insert leaves
  -- alone, with an insert of a positive size up to 1000, a cursor that opens with nothing delivered,
  -- and more fuel than it has rows: the node makes no access outside its array, whatever the inserts
  -- end with, and ends; its index stays within the size of an insert, and it leaves with `RC_NRM` only
  -- for a cursor without rows.
  pub codes_node-InBounds :
      (fuel : ℕ) (m : Machine P (ProposalFrame P))
      → P.chk_fail (behind_open m) ≡ false
      → C.delivered (behind_open m) ≡ 0
      → length (C.pending (behind_open m)) < fuel
      → Ensures
          (λ _ m'. InBounds m'.frame)
          (Left (C.pending (behind_open m)))
          (codes_node P S D input fuel m)
  unfolding codes_node close_codes no_codes
  codes_node-InBounds fuel m fine start enough =
      let all = C.pending (behind_open m) in
      let m1 : Machine P (ProposalFrame P) = record {
        frame = record m.frame { ll_ins_idx = 0; ins_rows = zero_codes };
        world = behind_open m;
        log =
            opened "PFO_FUND_INFR_HT_VF721" (D.open_codes (codes_in P S D input) m.world).0 ∷ m.log;
      } in
      let I : List CodedFund → ProposalFrame P → Type 0 = λ _ f. InBounds f in
      rw fine (
        Ensures-bind (λ _ m'. InBounds m'.frame) (λ _ m'. InBounds m'.frame) (Left all)
          (fetch_loop (code_loop P S D input) fuel 0 zero_funds)
          (λ _. close_codes P S D input >>= λ closing.
            if P.try_jumps closing then leave closing else pure tt)
          m1
          (fetch_loop_rule 1000 (code_loop P S D input) C all I InBounds (Left all)
            (λ seen row rest e ix cur tot m' i.
              Ensures-weaken (λ go m2. (go ≡ true) × Kept all m' m2)
                (Visited 1000 (code_loop P S D input) (steady C) all I InBounds (Left all) seen row
                  m')
                (Left all) (Left all) (visit_code P S D input ix cur tot row m')
                (visit_code_lem all ix cur tot row m' i) (λ go m2 h. rw h.0 h.1) (λ _ _ r. r))
            (omega arith) (λ f i. i) (λ m' none_left i. inr none_left) fuel 0 zero_funds [] m1
            enough (sym start) refl refl (record { room = length-zero_codes; index = omega arith }))
          (λ _ m' i. elim (Bool-cases (P.try_jumps (D.close_codes m'.world).0)) [
            | inl jump ↦ rw jump (inl (jumps-ne_nrm L (D.close_codes m'.world).0 jump))
            | inr go ↦ rw go i
          ]))
