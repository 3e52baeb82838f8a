-- ===== src/Proposal/Codes/Twice.antt =====
-- Node 12 of SRLGR96602A.c with an insert of a size that does not divide a page, and more than a page.
use no_gada_automation.Base.{
  ℕ, ◌+◌, ◌*◌, ◌≤◌, ◌<◌, ◌≡◌, ◌≢◌, refl, ap, false, ◌⊎◌, inl, inr, List, ◌++◌, arith, length,
  length-append, length-map,
}
use no_gada_automation.Proframe.{nrm, Pfm, IsLawful, Machine}
use no_gada_automation.Proframe.Cursor.Rule.{Ensures, Ensures-weaken, IsCursor}
use no_gada_automation.Proposal.{ProposalIn, ProposalFrame, ProposalPfm, ProposalDbio}
use no_gada_automation.Proposal.Codes.{codes_node}
use no_gada_automation.Proposal.Codes.Table.{row_for, IsTable, plain, rows_for, view}
use no_gada_automation.Proposal.Codes.Repeats.{
  Sent, start, page, SentAll, no_more, last_page, Appended, Left,
}
use no_gada_automation.Proposal.Codes.Appends.{codes_node-Appended, behind_open}

-- How many rows are sent behind no page, behind one, and behind more.
abbrev More : {A : Type 0} → List A → List A → List A → Type 0
More seen sent held =
    ((length seen ≡ 0) × (length held ≡ 0))
    ⊎ (((length seen ≡ 1000) × (length seen ≤ length sent) × (0 < length held))
        ⊎ (length seen < length sent))

Sent-More :
    {A : Type 0} (a : ℕ)
    → ((k : ℕ) → a * k ≢ 1000)
    → (seen sent held : List A) → Sent a seen sent held
    → More seen sent held
Sent-More a uneven _ _ _ start = inl (refl, refl)
Sent-More a uneven _ _ _ (page {seen} {sent} {held} p batches left j s len cut many few) =
    by_before (Sent-More a uneven seen sent held s)
  where
    grown : length (sent ++ (held ++ p)) ≡ length sent + (length held + 1000)
    grown = omega (arith, length-append sent (held ++ p), length-append held p, len)

    longer : length (seen ++ p) ≡ length seen + 1000
    longer = omega (arith, length-append seen p, len)

    -- Behind the first page, some rows are left.
    some : length held ≡ 0 → 0 < length left
    some none = elim (zero_or_pos (length left)) [
      | inl z ↦ absurd (
          uneven j (
            omega (
              arith,
              len,
              many,
              z,
              none,
              ap length cut,
              length-append held p,
              length-append batches left,
            )))
      | inr lt ↦ lt
    ]
      where
        zero_or_pos : (n : ℕ) → (n ≡ 0) ⊎ (0 < n)
        zero_or_pos n = ground arith

    by_before : More seen sent held → More (seen ++ p) (sent ++ (held ++ p)) left
    by_before (inl first) =
        inr (
          inl (omega (arith, longer, first.0), omega (arith, longer, grown, first.0), some first.1))
    by_before (inr (inl second)) = inr (inr (omega (arith, longer, grown, second.1, second.2)))
    by_before (inr (inr later)) = inr (inr (omega (arith, longer, grown, later)))

SentAll-longer :
    {A : Type 0} (a : ℕ)
    → ((k : ℕ) → a * k ≢ 1000)
    → (all sent : List A) → 1000 < length all
    → SentAll a all sent
    → length all < length sent
SentAll-longer a uneven _ _ many (no_more {seen} {sent} {held} s) =
    elim (Sent-More a uneven seen sent held s) [
      | inl first ↦ absurd (omega (arith, first.0, many))
      | inr (inl second) ↦ absurd (omega (arith, second.0, many))
      | inr (inr later) ↦ later
    ]
SentAll-longer a uneven _ _ many (last_page {seen} {sent} {held} p s lo hi) =
    let grown : length (sent ++ (held ++ p)) ≡ length sent + (length held + length p) =
      omega (arith, length-append sent (held ++ p), length-append held p) in
    elim (Sent-More a uneven seen sent held s) [
      | inl first ↦ absurd (omega (arith, first.0, many, hi, length-append seen p))
      | inr (inl second) ↦ omega (arith, grown, second.1, second.2, length-append seen p)
      | inr (inr later) ↦ omega (arith, grown, later, length-append seen p)
    ]

module _ (P : Pfm) (L : IsLawful P) (S : ProposalPfm P) (D : ProposalDbio P) (input : ProposalIn)
    (C : IsCursor P 1000 D.fetch_codes) (T : IsTable P D C) (fits : D.as_ei001 ≤ 1000)
    (some_room : 0 < D.as_ei001) where
  -- Over a lawful runtime, a cursor that delivers its rows in pages of 1000 and a table that grows as
  -- documented, with an insert of a positive size up to 1000 that does not divide 1000, a cursor that
  -- opens with nothing delivered and more than 1000 rows, and more fuel than it has rows: where the
  -- node goes on, the table has grown by more rows than there are funds, and it leaves with no code
  -- `RC_NRM`.
  pub codes_node_repeats :
      (fuel : ℕ) (m : Machine P (ProposalFrame P))
      → ((k : ℕ) → D.as_ei001 * k ≢ 1000)
      → P.chk_fail (behind_open P L S D input C T fits some_room m) ≡ false
      → C.delivered (behind_open P L S D input C T fits some_room m) ≡ 0
      → 1000 < length (C.pending (behind_open P L S D input C T fits some_room m))
      → length (C.pending (behind_open P L S D input C T fits some_room m)) < fuel
      → Ensures
          (λ _ m'.
            length (T.rows m.world)
              + length (C.pending (behind_open P L S D input C T fits some_room m))
            < length (T.rows m'.world))
          (λ rc _. rc ≢ nrm)
          (codes_node P S D input fuel m)
  codes_node_repeats fuel m uneven fine fresh many enough =
      let grp = m.frame.code_slct_grp_no in
      let all = C.pending (behind_open P L S D input C T fits some_room m) in
      let base = view T m.world in
      Ensures-weaken
        (λ (_ : Unit {0}) m'. Appended P L S D input C T fits some_room grp base all m')
        (λ _ m'. length (T.rows m.world) + length all < length (T.rows m'.world))
        (Left P L S D input C T fits some_room grp base all) (λ rc _. rc ≢ nrm)
        (codes_node P S D input fuel m)
        (codes_node-Appended P L S D input C T fits some_room fuel m fine fresh enough)
        (λ _ m' a. omega (
          arith,
          SentAll-longer D.as_ei001 uneven all a.sent many a.order,
          ap length a.table,
          length-append base (rows_for P S D input grp a.sent),
          length-map (row_for grp) a.sent,
          length-map plain (T.rows m.world),
          length-map plain (T.rows m'.world),
        ))
        (λ rc m' left. elim left [
          | inl bad ↦ bad.0
          | inr none ↦ absurd (omega (arith, ap length none.1, many))
        ])
