-- ===== src/Proposal/Codes/Table.antt =====
-- The table that node 12 of SRLGR96602A.c inserts into, as the calls of the database leave it.
use no_gada_automation.Base.{
  ℕ, zero, suc, ◌+◌, ◌*◌, ◌%◌, ◌≤◌, ◌<◌, ◌≡◌, ◌≢◌, sym, ap, ◌∙◌, String, ◌⊎◌, List, [], ◌++◌, map,
  arith, length, take,
}
use native.Mathlib.Nat.{mod-eq_of_lt, mul-add-mod_self_left, mul-mod_right}
use no_gada_automation.Proframe.{nrm, Pfm}
use no_gada_automation.Proframe.Cursor.Rule.{IsCursor}
use no_gada_automation.Proposal.{ProposalIn, ProposalPfm, ProposalDbio, FundsIn, CodedFund, CodeRow}

-- The documented behaviour of the calls on the table: an array insert that ends with `RC_NRM` appends
-- as many rows of the array as it is told, and leaves the cursor alone; the cursor's calls leave the
-- table alone.
pub record IsTable (P : Pfm) (D : ProposalDbio P) (C : IsCursor P 1000 D.fetch_codes) : Type 0 where
  pub rows : P.World → List CodeRow
  pub inserted :
      (n : ℕ) (array : List CodeRow) (w : P.World)
      → n ≤ length array
      → (D.insert_codes n array w).0 ≡ nrm
      → rows (D.insert_codes n array w).1 ≡ rows w ++ take n array
  pub pending :
      (n : ℕ) (array : List CodeRow) (w : P.World)
      → C.pending (D.insert_codes n array w).1 ≡ C.pending w
  pub delivered :
      (n : ℕ) (array : List CodeRow) (w : P.World)
      → C.delivered (D.insert_codes n array w).1 ≡ C.delivered w
  pub open_kept : (i : FundsIn) (w : P.World) → rows (D.open_codes i w).1 ≡ rows w
  pub fetch_kept : (a : List CodedFund) (w : P.World) → rows (D.fetch_codes a w).1 ≡ rows w
  pub close_kept : (w : P.World) → rows (D.close_codes w).1 ≡ rows w

-- A row without the columns of `SET_DB_INSERT_INFO`.
abbrev pub plain : CodeRow → CodeRow
plain r = record r { insert_info = [] }

-- No call of the node fails.
abbrev pub Smooth : (P : Pfm) → ProposalDbio P → Type 0
Smooth P D =
    ((n : ℕ) (a : List CodeRow) (w : P.World) → (D.insert_codes n a w).0 ≡ nrm)
    × ((w : P.World) → (D.close_codes w).0 ≡ nrm)

-- The row that a fund should give: the number drawn, the keys of the fund and of its trustees, and no
-- code from the third on.
abbrev pub row_for : String → CodedFund → CodeRow
row_for grp fund = record {
  code_slct = grp;
  mncm_code = fund.mncm_code;
  clmn_id = fund.fund_code;
  dtl_code = fund.fund_code;
  st1_dtl_code = fund.trst_dncd;
  nd2_dtl_code = fund.trteco_code;
  th3_dtl_code = "";
  th4_dtl_code = "";
  th5_dtl_code = "";
  th6_dtl_code = "";
  th7_dtl_code = "";
  th8_dtl_code = "";
  th9_dtl_code = "";
  th10_dtl_code = "";
  insert_info = [];
}

-- The rows that funds should give, with the number drawn.
abbrev pub rows_for :
    (P : Pfm) (S : ProposalPfm P) (D : ProposalDbio P)
    → ProposalIn
    → String
    → List CodedFund
    → List CodeRow
rows_for P S D input grp = map (row_for grp)

abbrev pub view :
    {P : Pfm} {D : ProposalDbio P} {C : IsCursor P 1000 D.fetch_codes}
    → IsTable P D C
    → P.World
    → List CodeRow
view T w = map plain (T.rows w)

-- The place of a row in its batch.
pub mod_place : (a idx : ℕ) → 0 < idx → idx < a → idx % a ≢ 0
mod_place a idx lo hi e = omega (arith, e, mod-eq_of_lt hi)

pub lt_or_eq : (x y : ℕ) → x ≤ y → (x < y) ⊎ (x ≡ y)
lt_or_eq x y h = ground arith

-- What is left behind whole batches of a number that whole batches make up is nothing.
pub rest-zero : (a k j r : ℕ) → a * k ≡ a * j + r → r < a → r ≡ 0
rest-zero a k j r e lt =
    sym (mod-eq_of_lt lt)
    ∙ sym (mul-add-mod_self_left a j r)
    ∙ ap (λ n. n % a) (sym e)
    ∙ mul-mod_right a k

pub divisor_pos : (a k n : ℕ) → 0 < n → a * k ≡ n → 0 < a
divisor_pos zero k n lt e = absurd (omega arith)
divisor_pos (suc a) k n lt e = omega arith

pub divisor_le : (a k n : ℕ) → 0 < n → a * k ≡ n → a ≤ n
divisor_le a zero n lt e = absurd (omega arith)
divisor_le a (suc k) n lt e = omega arith
