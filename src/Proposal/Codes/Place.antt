-- ===== src/Proposal/Codes/Place.antt =====
-- Node 28 of SRLGR96602A.c: what the insert's array has while the cursor is read.
use no_gada_automation.Base.{
  ℕ, zero, suc, ◌+◌, ◌*◌, ◌%◌, ◌≤◌, ◌<◌, ◌≡◌, refl, sym, ap, subst, ◌∙◌, String, true, false, ◌⊎◌,
  inl, inr, List, ◌++◌, map, append-nil, arith, eqb, length, take, last_rows, last_rows-none,
  replicate, Bool-cases,
}
use native.Mathlib.Nat.{mod_self}
use no_gada_automation.Proframe.{Rc, Pfm, Machine}
use no_gada_automation.Proframe.Cursor.Rule.{Ensures, IsCursor}
use no_gada_automation.Proposal.{
  ProposalIn, ProposalFrame, ProposalPfm, ProposalDbio, CodedFund, CodeRow,
}
use no_gada_automation.Proposal.Codes.{zero_code, zero_codes, start_over}
use no_gada_automation.Proposal.Codes.Table.{IsTable, plain, rows_for, view, mod_place}

pub length-replicate : {A : Type 0} (n : ℕ) (a : A) → length (replicate n a) ≡ n
length-replicate zero a = refl
length-replicate (suc n) a = ap suc (length-replicate n a)

pub length-zero_codes : length zero_codes ≡ 1000
unfolding zero_codes
length-zero_codes = length-replicate 1000 zero_code

module _ (P : Pfm) (S : ProposalPfm P) (D : ProposalDbio P) (input : ProposalIn)
    (C : IsCursor P 1000 D.fetch_codes) (T : IsTable P D C) (fits : D.as_ei001 ≤ 1000)
    (some_room : 0 < D.as_ei001)
    -- the number drawn, and the rows before the node
    (grp : String) (base : List CodeRow)
    -- how many rows the array has from the page before
    (h : ℕ) where
  abbrev pub Done : List CodedFund → P.World → Type 0
  Done seen w = view T w ≡ base ++ rows_for P S D input grp seen

  -- The rows in the array are still to come.
  abbrev pub Almost : List CodedFund → Machine P (ProposalFrame P) → Type 0
  Almost seen m =
      view T m.world ++ map plain (take m.frame.ll_ins_idx m.frame.ins_rows)
      ≡ base ++ rows_for P S D input grp seen

  -- The array has the last of the rows.
  abbrev pub Held : List CodedFund → ProposalFrame P → Type 0
  Held seen f =
      (f.ll_ins_idx ≤ length seen)
      × (map plain (take f.ll_ins_idx f.ins_rows)
          ≡ rows_for P S D input grp (last_rows f.ll_ins_idx seen))

  -- What the array has, behind `ix` rows of a page of `cur`.
  pub data Place (seen : List CodedFund) (cur ix : ℕ) (m : Machine P (ProposalFrame P))
      : Type 0 where
    waiting :
        m.frame.ll_ins_idx < D.as_ei001
        → (ix < cur) ⊎ (m.frame.ll_ins_idx ≡ 0)
        → Almost seen m
        → Place seen cur ix m
    flushed :
        0 < m.frame.ll_ins_idx
        → m.frame.ll_ins_idx ≤ D.as_ei001
        → (m.frame.ll_ins_idx ≡ D.as_ei001) ⊎ (ix ≡ cur)
        → Done seen m.world
        → Place seen cur ix m

  -- The rows make up `q - 1` batches and the array's.
  pub record Within (seen : List CodedFund) (cur ix : ℕ) (m : Machine P (ProposalFrame P))
      : Type 0 where
    pub grp_kept : m.frame.code_slct_grp_no ≡ grp
    pub room : length m.frame.ins_rows ≡ 1000
    pub q : ℕ
    pub batches : h + ix + D.as_ei001 ≡ D.as_ei001 * q + m.frame.ll_ins_idx
    pub held : Held seen m.frame
    pub place : Place seen cur ix m

  -- Room for a row is made.
  pub record Ready (seen : List CodedFund) (ix : ℕ) (w : P.World) (m : Machine P (ProposalFrame P))
      : Type 0 where
    pub world : m.world ≡ w
    pub grp_kept : m.frame.code_slct_grp_no ≡ grp
    pub room : length m.frame.ins_rows ≡ 1000
    pub q : ℕ
    pub batches : h + ix + D.as_ei001 ≡ D.as_ei001 * q + m.frame.ll_ins_idx
    pub free : m.frame.ll_ins_idx < D.as_ei001
    pub held : Held seen m.frame
    pub almost : Almost seen m

  pub start_over_lem :
      (R : Rc → Machine P (ProposalFrame P) → Type 0) (seen : List CodedFund) (cur ix : ℕ)
      → ix < cur
      → (m : Machine P (ProposalFrame P)) → Within seen cur ix m
      → Ensures (λ _ m'. Ready seen ix m.world m') R (start_over P S D input m)
  start_over_lem R seen cur ix lt m i = by_place i.place
    where
      full :
          m.frame.ll_ins_idx ≡ D.as_ei001
          → Done seen m.world
          → Ensures (λ _ m'. Ready seen ix m.world m') R (start_over P S D input m)
      full e d =
          let no_rest : eqb (m.frame.ll_ins_idx % D.as_ei001) 0 ≡ true = rw (e, mod_self) refl in
          let not_first : eqb m.frame.ll_ins_idx 0 ≡ false = ground arith in
          rw (not_first, no_rest)
            (record {
              world = refl;
              grp_kept = i.grp_kept;
              room = length-zero_codes;
              q = i.q + 1;
              batches = omega (arith, i.batches, e);
              free = some_room;
              held = (omega arith, sym (ap (rows_for P S D input grp) (last_rows-none seen)));
              almost = append-nil (view T m.world) ∙ d;
            })

      by_place :
          Place seen cur ix m
          → Ensures (λ _ m'. Ready seen ix m.world m') R (start_over P S D input m)
      by_place (flushed lo hi (inl e) d) = full e d
      by_place (flushed lo hi (inr e) d) = absurd (omega arith)
      by_place (waiting lt' _ d) = elim (Bool-cases (eqb m.frame.ll_ins_idx 0)) [
        | inl first ↦
            let e : m.frame.ll_ins_idx ≡ 0 = ground arith in
            rw first (record {
              world = refl;
              grp_kept = i.grp_kept;
              room = length-zero_codes;
              q = i.q;
              batches = omega (arith, i.batches, e);
              free = some_room;
              held = (omega arith, sym (ap (rows_for P S D input grp) (last_rows-none seen)));
              almost =
                  subst
                    (λ n.
                      view T m.world ++ map plain (take n m.frame.ins_rows)
                      ≡ base ++ rows_for P S D input grp seen)
                    e d;
            })
        | inr later ↦
            let ne : eqb (m.frame.ll_ins_idx % D.as_ei001) 0 ≡ false =
              ground (arith, mod_place D.as_ei001 m.frame.ll_ins_idx (ground arith) lt') in
            rw (later, ne)
              (record {
                world = refl;
                grp_kept = i.grp_kept;
                room = i.room;
                q = i.q;
                batches = i.batches;
                free = lt';
                held = i.held;
                almost = d;
              })
      ]
