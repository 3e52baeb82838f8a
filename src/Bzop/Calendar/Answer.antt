-- ===== src/Bzop/Calendar/Answer.antt =====
-- What `MPCOM_GetBzopDate` answers from the rows of its table.
use no_gada_automation.Base.{
  ℤ, pos, negsuc, zero, suc, String, Bool, true, false, ◌&&◌, ◌||◌, ◌≡◌, refl, ◌∙◌, Option, none,
  some, List, [], ◌∷◌, ◌==◌, arith,
}
use Prim.Native.Nat.{Ordering}
use Prim.Native.String as NativeString
use no_gada_automation.Proframe.{nrm, set_msg, Pfm, IsLawful, Machine, Exit, returned}
use no_gada_automation.Bzop.{BzopIn, BzopOut, get_bzop_date}
use no_gada_automation.Bzop.Spec.{
  Direction, after, before, query_id, settle, asked_in, expected, get_bzop_date-eq-expected,
}
use no_gada_automation.Bzop.Calendar.{DateRow, condition, first_row, selected, calendar}

-- A row lies on the side asked for, or is the day itself where that is included.
abbrev pub on_side : Direction → Bool → Ordering → Bool
on_side d today Ordering.eq = today
on_side after today Ordering.gt = true
on_side after today Ordering.lt = false
on_side before today Ordering.gt = false
on_side before today Ordering.lt = true

-- A row that the request allows: on its side, and open unless closed days are included.
abbrev pub allowed : Direction → BzopIn → DateRow → Bool
allowed d input row =
    on_side d (input.thdy_incs_yn == "Y") (NativeString.compare row.prsn_date input.prsn_date)
    && (input.ntrd_incs_yn == "Y" || row.holy_yn == "N")

condition_lem :
    (d : Direction) (closed today : Bool) (date : String) (row : DateRow)
    → condition (query_id d closed today) date row ≡ (
        on_side d today (NativeString.compare row.prsn_date date) && (closed || row.holy_yn == "N"))
condition_lem after true true date row = ground arith
condition_lem after true false date row = ground arith
condition_lem after false true date row = ground arith
condition_lem after false false date row = ground arith
condition_lem before true true date row = ground arith
condition_lem before true false date row = ground arith
condition_lem before false true date row = ground arith
condition_lem before false false date row = ground arith

first_row-ext :
    (p q : DateRow → Bool)
    → ((row : DateRow) → p row ≡ q row)
    → (rows : List DateRow) → first_row p rows ≡ first_row q rows
first_row-ext p q same [] = refl
first_row-ext p q same (row ∷ rows) = rw (same row, first_row-ext p q same rows) refl

-- A row found is the date, and none is a message.
abbrev pub answer : {P : Pfm} → Option DateRow → Machine P BzopOut → Exit × Machine P BzopOut
answer none m = (returned nrm, record m { log = set_msg "ZCOM00003" [] ∷ m.log })
answer (some row) m = (returned nrm, record m { frame = record { bzop_date = row.bzop_date } })

module _ (P : Pfm) (L : IsLawful P) (table : P.World → List DateRow) (input : BzopIn) where
  -- The first row of the table that the request allows.
  abbrev pub answered : ℤ → Machine P BzopOut → Exit × Machine P BzopOut
  answered (pos zero) m =
      (returned nrm, record m { frame = record { bzop_date = input.prsn_date } })
  answered (pos (suc _)) m = answer (first_row (allowed after input) (table m.world)) m
  answered (negsuc _) m = answer (first_row (allowed before input) (table m.world)) m

  asked_in-eq-answer :
      (d : Direction) (m : Machine P BzopOut)
      → asked_in P (calendar P table) input d m
        ≡ answer (first_row (allowed d input) (table m.world)) m
  asked_in-eq-answer d m =
      rw
        (first_row-ext
          (condition (query_id d (input.ntrd_incs_yn == "Y") (input.thdy_incs_yn == "Y"))
            input.prsn_date)
          (allowed d input)
          (condition_lem d (input.ntrd_incs_yn == "Y") (input.thdy_incs_yn == "Y") input.prsn_date)
          (table m.world))
        (settled (first_row (allowed d input) (table m.world)))
    where
      settled :
          (found : Option DateRow)
          → settle P (calendar P table) input (selected found) m ≡ answer found m
      settled none = refl
      settled (some row) = refl

  -- Over a lawful runtime and the queries as they are written, `MPCOM_GetBzopDate` answers with the
  -- first row, in the order in which the database produces them, whose day lies on the side of the
  -- date that the sign of the count asks for, the day itself only if that flag is "Y" and a closed
  -- day only if the other is; without such a row it gives the message ZCOM00003 and the output as it
  -- was. A count of 0 gives the date itself.
  pub get_bzop_date-eq-answered :
      (m : Machine P BzopOut)
      → get_bzop_date P (calendar P table) input m ≡ answered input.calc_dycn m
  get_bzop_date-eq-answered m =
      get_bzop_date-eq-expected P (calendar P table) input L m ∙ by_count input.calc_dycn
    where
      by_count : (n : ℤ) → expected P (calendar P table) input n m ≡ answered n m
      by_count (pos zero) = refl
      by_count (pos (suc _)) = asked_in-eq-answer after m
      by_count (negsuc _) = asked_in-eq-answer before m
