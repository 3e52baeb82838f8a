-- ===== src/Proposal/Codes/Repeats.antt =====
-- Which rows node 12 of SRLGR96602A.c inserts, for every size of an insert.
use no_gada_automation.Base.{
  ℕ, ◌*◌, ◌≤◌, ◌<◌, ◌≡◌, ◌≢◌, sym, subst, ◌∙◌, String, ◌⊎◌, inl, inr, List, [], ◌++◌, map,
  append-nil, arith, length, take,
}
use no_gada_automation.Proframe.{Rc, nrm, err, Pfm, IsLawful, Machine}
use no_gada_automation.Proframe.Cursor.Rule.{IsCursor}
use no_gada_automation.Proposal.{
  ProposalIn, ProposalFrame, ProposalPfm, ProposalDbio, CodedFund, CodeRow,
}
use no_gada_automation.Proposal.Codes.Table.{IsTable, plain, Smooth, rows_for, view}
use no_gada_automation.Proposal.Codes.Place.{Held, Place, waiting, flushed, Within}

-- The rows inserted behind full pages, with inserts of `a` rows: each page goes in behind the rows
-- that the inserts before it left in the array, which are inserted a second time; it leaves those that
-- do not make up an insert of their own.
pub data Sent {A : Type 0} (a : ℕ) : List A → List A → List A → Type 0 where
  start : Sent a [] [] []
  page :
      {seen sent held : List A} (p whole left : List A) (k : ℕ)
      → Sent a seen sent held
      → length p ≡ 1000
      → held ++ p ≡ whole ++ left
      → length whole ≡ a * k
      → length left < a
      → Sent a (seen ++ p) (sent ++ (held ++ p)) left

-- Behind the last page, which has fewer rows.
pub data SentAll {A : Type 0} (a : ℕ) : List A → List A → Type 0 where
  no_more : {seen sent held : List A} → Sent a seen sent held → SentAll a seen sent
  last_page :
      {seen sent held : List A} (p : List A)
      → Sent a seen sent held
      → 0 < length p
      → length p < 1000
      → SentAll a (seen ++ p) (sent ++ (held ++ p))

module _ (P : Pfm) (L : IsLawful P) (S : ProposalPfm P) (D : ProposalDbio P) (input : ProposalIn)
    (C : IsCursor P 1000 D.fetch_codes) (T : IsTable P D C) (fits : D.as_ei001 ≤ 1000)
    (some_room : 0 < D.as_ei001) where
  -- The table has, behind those from before, rows that the pages send.
  pub record Appended (grp : String) (base : List CodeRow) (all : List CodedFund)
      (m : Machine P (ProposalFrame P)) : Type 0 where
    pub sent : List CodedFund
    pub order : SentAll D.as_ei001 all sent
    pub table : view T m.world ≡ base ++ rows_for P S D input grp sent

  abbrev pub Left :
      String → List CodeRow → List CodedFund → Rc → Machine P (ProposalFrame P) → Type 0
  Left grp base all rc m =
      ((rc ≢ nrm) × ¬ Smooth P D) ⊎ ((rc ≡ nrm) × (all ≡ []) × Appended grp base all m)

  module _ (grp : String) (base : List CodeRow) (all : List CodedFund) where
    pub failed : (m : Machine P (ProposalFrame P)) → ¬ Smooth P D → Left grp base all err m
    failed m bad = inl (ground arith, bad)

    pub record InPage (seen : List CodedFund) (cur ix : ℕ) (m : Machine P (ProposalFrame P))
        : Type 0 where
      pub before : List CodedFund
      pub sent : List CodedFund
      pub held : List CodedFund
      pub part : List CodedFund
      pub so_far : Sent D.as_ei001 before sent held
      pub rows : seen ≡ before ++ part
      pub length_part : length part ≡ ix
      pub some_rows : 0 < cur
      pub few : length held < D.as_ei001
      pub within :
          Within P S D input C T fits some_room grp base
            (length held)
            (sent ++ (held ++ part))
            cur
            ix
            m

    -- What the array has between two pages.
    pub data Edge (held : List CodedFund) (f : ProposalFrame P) : Type 0 where
      nothing_left : f.ll_ins_idx ≡ D.as_ei001 → held ≡ [] → Edge held f
      some_left :
          f.ll_ins_idx ≡ length held
          → map plain (take f.ll_ins_idx f.ins_rows) ≡ rows_for P S D input grp held
          → Edge held f

    pub record Between (seen : List CodedFund) (m : Machine P (ProposalFrame P)) : Type 0 where
      pub sent : List CodedFund
      pub held : List CodedFund
      pub so_far : Sent D.as_ei001 seen sent held
      pub grp_kept : m.frame.code_slct_grp_no ≡ grp
      pub room : length m.frame.ins_rows ≡ 1000
      pub few : length held < D.as_ei001
      pub array : Held P S D input C T fits some_room grp base 0 sent m.frame
      pub edge : Edge held m.frame
      pub done : view T m.world ≡ base ++ rows_for P S D input grp sent

    abbrev pub Inside : List CodedFund → (cur ix : ℕ) → Machine P (ProposalFrame P) → Type 0
    Inside seen cur ix m = InPage seen cur ix m ⊎ ((cur ≡ 0) × Between seen m)

    pub page_end :
        (seen : List CodedFund) (cur : ℕ) (m : Machine P (ProposalFrame P))
        (i : InPage seen cur cur m)
        → view T m.world ≡ base ++ rows_for P S D input grp (i.sent ++ (i.held ++ i.part))
    page_end seen cur m i = by_place i.within.place
      where
        by_place :
            Place P S D input C T fits some_room grp base
              (length i.held)
              (i.sent ++ (i.held ++ i.part))
              cur
              cur
              m
            → view T m.world ≡ base ++ rows_for P S D input grp (i.sent ++ (i.held ++ i.part))
        by_place (waiting _ (inl lt) _) = absurd (omega arith)
        by_place (waiting _ (inr e) d) =
            sym (append-nil (view T m.world))
            ∙ subst
                (λ n.
                  view T m.world ++ map plain (take n m.frame.ins_rows)
                  ≡ base ++ rows_for P S D input grp (i.sent ++ (i.held ++ i.part)))
                e d
        by_place (flushed _ _ _ d) = d

    pub last_lem :
        (cur : ℕ) (m : Machine P (ProposalFrame P))
        → cur < 1000
        → Inside all cur cur m
        → Appended grp base all m
    last_lem cur m few (inl i) = record {
      sent = i.sent ++ (i.held ++ i.part);
      order =
          subst (λ x. SentAll D.as_ei001 x (i.sent ++ (i.held ++ i.part))) (sym i.rows)
            (last_page i.part i.so_far (omega (arith, i.length_part, i.some_rows))
              (omega (arith, i.length_part)));
      table = page_end all cur m i;
    }
    last_lem cur m few (inr b) = record {
      sent = b.1.sent;
      order = no_more b.1.so_far;
      table = b.1.done;
    }
