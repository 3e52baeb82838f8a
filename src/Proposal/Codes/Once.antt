-- ===== src/Proposal/Codes/Once.antt =====
-- Node 12 of SRLGR96602A.c with an insert of a size that divides a page: nothing is left in the array,
-- and nothing is inserted twice.
use no_gada_automation.Base.{
  ℕ, ◌*◌, ◌≤◌, ◌<◌, ◌≡◌, ◌≢◌, refl, ap, ◌∙◌, String, false, ◌⊎◌, inl, inr, List, [], ◌++◌, arith,
  length, length-append, length-eq-zero,
}
use no_gada_automation.Proframe.{Rc, nrm, Pfm, IsLawful, Machine}
use no_gada_automation.Proframe.Cursor.Rule.{Ensures, Ensures-weaken, IsCursor}
use no_gada_automation.Proposal.{
  ProposalIn, ProposalFrame, ProposalPfm, ProposalDbio, CodedFund, CodeRow,
}
use no_gada_automation.Proposal.Codes.{codes_in, codes_node}
use no_gada_automation.Proposal.Codes.Table.{
  IsTable, Smooth, rows_for, view, rest-zero, divisor_pos, divisor_le,
}
use no_gada_automation.Proposal.Codes.Repeats.{
  Sent, start, page, SentAll, no_more, last_page, Appended,
}
use no_gada_automation.Proposal.Codes.Repeats as Repeats
use no_gada_automation.Proposal.Codes.Appends.{codes_node-Appended}

-- Inserts that divide a page leave nothing, and send every row once.
Sent-whole :
    {A : Type 0} (a k : ℕ)
    → a * k ≡ 1000
    → (seen sent held : List A) → Sent a seen sent held
    → (sent ≡ seen) × (held ≡ [])
Sent-whole a k whole _ _ _ start = (refl, refl)
Sent-whole a k whole _ _ _ (page {seen} {sent} {held} p batches left j s len cut many few) =
    let before = Sent-whole a k whole seen sent held s in
    let none : length left ≡ 0 =
      rest-zero a k j (length left)
        (omega (
          arith,
          whole,
          len,
          many,
          ap length cut,
          ap length before.1,
          length-append held p,
          length-append batches left,
        ))
        few in
    (ap (λ h. sent ++ (h ++ p)) before.1 ∙ ap (λ s. s ++ p) before.0, length-eq-zero left none)

SentAll-whole :
    {A : Type 0} (a k : ℕ) → a * k ≡ 1000 → (all sent : List A) → SentAll a all sent → sent ≡ all
SentAll-whole a k whole _ _ (no_more {seen} {sent} {held} s) =
    (Sent-whole a k whole seen sent held s).0
SentAll-whole a k whole _ _ (last_page {seen} {sent} {held} p s lo hi) =
    let before = Sent-whole a k whole seen sent held s in
    ap (λ h. sent ++ (h ++ p)) before.1 ∙ ap (λ s. s ++ p) before.0

module _ (P : Pfm) (L : IsLawful P) (S : ProposalPfm P) (D : ProposalDbio P) (input : ProposalIn)
    (C : IsCursor P 1000 D.fetch_codes) (T : IsTable P D C) (k : ℕ)
    (whole : D.as_ei001 * k ≡ 1000) where
  some_room : 0 < D.as_ei001
  some_room = divisor_pos D.as_ei001 k 1000 (omega arith) whole

  fits : D.as_ei001 ≤ 1000
  fits = divisor_le D.as_ei001 k 1000 (omega arith) whole

  -- The table has the rows for all of the funds behind those from before, once each.
  abbrev pub Inserted :
      String → List CodeRow → List CodedFund → Machine P (ProposalFrame P) → Type 0
  Inserted grp base all m = view T m.world ≡ base ++ rows_for P S D input grp all

  abbrev pub Left :
      String → List CodeRow → List CodedFund → Rc → Machine P (ProposalFrame P) → Type 0
  Left grp base all rc m =
      ((rc ≢ nrm) × ¬ Smooth P D) ⊎ ((rc ≡ nrm) × (all ≡ []) × Inserted grp base all m)

  Inserted-Appended :
      (grp : String) (base : List CodeRow) (all : List CodedFund) (m : Machine P (ProposalFrame P))
      → Appended P L S D input C T fits some_room grp base all m
      → Inserted grp base all m
  Inserted-Appended grp base all m a =
      a.table
      ∙ ap (λ x. base ++ rows_for P S D input grp x)
          (SentAll-whole D.as_ei001 k whole all a.sent a.order)

  abbrev pub behind_open : Machine P (ProposalFrame P) → P.World
  behind_open m = (D.open_codes (codes_in P S D input) m.world).1

  -- Over a lawful runtime, a cursor that delivers its rows in pages of 1000 and a table that grows as
  -- documented, with an insert of a size that divides 1000, a cursor that opens with nothing delivered,
  -- and more fuel than it has rows: the node makes no access outside an array and ends. Where it goes
  -- on, the table has, behind the rows from before, exactly one row for each fund of the cursor, in its
  -- order and with the number drawn. It leaves with `RC_NRM` only for a cursor without rows, the table
  -- unchanged, and with another code only if an insert or the close can fail.
  pub codes_node-Inserted :
      (fuel : ℕ) (m : Machine P (ProposalFrame P))
      → P.chk_fail (behind_open m) ≡ false
      → C.delivered (behind_open m) ≡ 0
      → length (C.pending (behind_open m)) < fuel
      → Ensures
          (λ _ m'.
            Inserted m.frame.code_slct_grp_no (view T m.world) (C.pending (behind_open m)) m')
          (Left m.frame.code_slct_grp_no (view T m.world) (C.pending (behind_open m)))
          (codes_node P S D input fuel m)
  codes_node-Inserted fuel m fine fresh enough =
      let grp = m.frame.code_slct_grp_no in
      let base = view T m.world in
      let all = C.pending (behind_open m) in
      Ensures-weaken
        (λ (_ : Unit {0}) m'. Appended P L S D input C T fits some_room grp base all m')
        (λ _ m'. Inserted grp base all m')
        (Repeats.Left P L S D input C T fits some_room grp base all) (Left grp base all)
        (codes_node P S D input fuel m)
        (codes_node-Appended P L S D input C T fits some_room fuel m fine fresh enough)
        (λ _ m' a. Inserted-Appended grp base all m' a)
        (λ rc m' left. elim left [
          | inl bad ↦ inl bad
          | inr none ↦ inr (none.0, none.1, Inserted-Appended grp base all m' none.2)
        ])
