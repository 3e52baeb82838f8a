-- ===== src/Bzop/Calendar.antt =====
-- The eight queries of the business-day module, PFO_DATE_MNGM_BS_VS004 to VS011 in release/dbio/xml,
-- on the rows of the table in the order in which the database produces them. `rownum = 1` stands in
-- the condition, so that row is taken before `ORDER BY` sorts it.
pub mod Answer
use no_gada_automation.Base.{
  String, Bool, true, false, ◌&&◌, List, [], ◌∷◌, Option, none, some, ◌==◌, if◌then◌else◌,
}
use Prim.Native.Nat.{Ordering}
use Prim.Native.String as NativeString
use no_gada_automation.Proframe.{Rc, nrm, nfd, Pfm}
use no_gada_automation.Bzop.{DateIn, DateOut, DateDbio}

-- A row of `pfo_date_mngm_bs`: a day, its business day, and whether the market is closed.
pub record DateRow : Type 0 where
  pub prsn_date : String
  pub bzop_date : String
  pub holy_yn : String

-- `prsn_date >= :d`, `> :d`, `<= :d` and `< :d` on texts
abbrev pub at_least : String → DateRow → Bool
at_least d row = elim (NativeString.compare row.prsn_date d) [ Ordering.lt ↦ false | _ ↦ true ]

abbrev pub greater : String → DateRow → Bool
greater d row = elim (NativeString.compare row.prsn_date d) [ Ordering.gt ↦ true | _ ↦ false ]

abbrev pub at_most : String → DateRow → Bool
at_most d row = elim (NativeString.compare row.prsn_date d) [ Ordering.gt ↦ false | _ ↦ true ]

abbrev pub less : String → DateRow → Bool
less d row = elim (NativeString.compare row.prsn_date d) [ Ordering.lt ↦ true | _ ↦ false ]

-- The conditions of the eight queries; another name selects nothing here.
abbrev pub condition : String → String → DateRow → Bool
condition id d row =
    if id == "PFO_DATE_MNGM_BS_VS004"
    then at_least d row
    else if id == "PFO_DATE_MNGM_BS_VS005"
    then greater d row
    else if id == "PFO_DATE_MNGM_BS_VS006"
    then at_least d row && row.holy_yn == "N"
    else if id == "PFO_DATE_MNGM_BS_VS007"
    then greater d row && row.holy_yn == "N"
    else if id == "PFO_DATE_MNGM_BS_VS008"
    then at_most d row
    else if id == "PFO_DATE_MNGM_BS_VS009"
    then less d row
    else if id == "PFO_DATE_MNGM_BS_VS010"
    then at_most d row && row.holy_yn == "N"
    else if id == "PFO_DATE_MNGM_BS_VS011"
    then less d row && row.holy_yn == "N"
    else false

-- `rownum = 1`
abbrev pub first_row : (DateRow → Bool) → List DateRow → Option DateRow
first_row keeps [] = none
first_row keeps (row ∷ rows) =
    let later = first_row keeps rows in if keeps row then some row else later

-- `SELECT bzop_date`: the day count is no part of a query.
abbrev pub selected : Option DateRow → Rc × DateOut
selected none = (nfd, record { bzop_date = "" })
selected (some row) = (nrm, record { bzop_date = row.bzop_date })

abbrev pub calendar : (P : Pfm) → (P.World → List DateRow) → DateDbio P
calendar P table = record {
  select = λ id i w. (selected (first_row (condition id i.prsn_date) (table w)), w);
}
