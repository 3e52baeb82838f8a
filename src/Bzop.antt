-- ===== src/Bzop.antt =====
-- PCOM/src/module/MPCOM_GetBzopDate.c (under compile/): the business day after or before a date.
-- Every static function of the file is one definition. The eight DBIO calls are parameters.
pub mod Spec
pub mod Calendar
pub mod Tests
use no_gada_automation.Base.{
  ℤ, pos, negsuc, zero, suc, String, Bool, true, false, [], ◌∷◌, ◌==◌, if◌then◌else◌,
}
use no_gada_automation.Proframe.{
  ◌>>=◌, ◌>>◌, Rc, nrm, nfd, err, num, set_msg, set_err, Pfm, M, Proc, pure, leave, modify, emit,
  reads, call, body, pfm_try,
}

-- `MPCOM_GetBzopDate_IN` and `_OUT`; the module's context has no other variables.
pub record BzopIn : Type 0 where
  pub thdy_incs_yn : String
  pub ntrd_incs_yn : String
  pub prsn_date : String
  pub calc_dycn : ℤ

pub record BzopOut : Type 0 where
  pub bzop_date : String

-- `PFO_DATE_MNGM_BS_VS004In` to `VS011In`, and the `Out` structures: they have the same members.
pub record DateIn : Type 0 where
  pub prsn_date : String
  pub calc_dycn : ℤ

pub record DateOut : Type 0 where
  pub bzop_date : String

-- `pfmDbioSelect` on those eight DBIOs: the code, and the output structure that it fills.
pub record DateDbio (P : Pfm) : Type 0 where
  pub select : String → DateIn → P.World → (Rc × DateOut) × P.World

abbrev positive : ℤ → Bool
positive (pos zero) = false
positive (pos (suc _)) = true
positive (negsuc _) = false

abbrev is_zero : ℤ → Bool
is_zero (pos zero) = true
is_zero (pos (suc _)) = false
is_zero (negsuc _) = false

abbrev negative : ℤ → Bool
negative (pos _) = false
negative (negsuc _) = true

-- The block `DBIO_EXCEPTION` behind each call.
pub select_exception : {P : Pfm} {F : Type 0} → Rc → M P F (Unit {0})
select_exception nrm = pure tt
select_exception nfd = do emit (set_msg "ZCOM00003" []); leave nrm
select_exception {P} _ = do n ← reads P.errornum; emit (set_err "ZCOM00005" (num n ∷ [])); leave err

module _ (P : Pfm) (D : DateDbio P) (input : BzopIn) where
  pub init_proc : Proc P BzopOut
  init_proc = body (pure tt)

  -- Both checks are commented out.
  pub input_valid_proc : Proc P BzopOut
  input_valid_proc = body (pure tt)

  -- What the eight functions below share; they differ in the DBIO.
  pub select_date : String → Proc P BzopOut
  select_date id = body do
    (rc, found) ←
        call (D.select id (record { prsn_date = input.prsn_date; calc_dycn = input.calc_dycn }))
    select_exception rc
    modify (λ o. record o { bzop_date = found.bzop_date })

  pub aft_ntrd_y_thdy_y_select_proc : Proc P BzopOut
  aft_ntrd_y_thdy_y_select_proc = select_date "PFO_DATE_MNGM_BS_VS004"

  pub aft_ntrd_y_thdy_n_select_proc : Proc P BzopOut
  aft_ntrd_y_thdy_n_select_proc = select_date "PFO_DATE_MNGM_BS_VS005"

  pub aft_ntrd_y_select_proc : Proc P BzopOut
  aft_ntrd_y_select_proc = body (
      if input.thdy_incs_yn == "Y"
      then pfm_try aft_ntrd_y_thdy_y_select_proc
      else pfm_try aft_ntrd_y_thdy_n_select_proc)

  pub aft_ntrd_n_thdy_y_select_proc : Proc P BzopOut
  aft_ntrd_n_thdy_y_select_proc = select_date "PFO_DATE_MNGM_BS_VS006"

  pub aft_ntrd_n_thdy_n_select_proc : Proc P BzopOut
  aft_ntrd_n_thdy_n_select_proc = select_date "PFO_DATE_MNGM_BS_VS007"

  pub aft_ntrd_n_select_proc : Proc P BzopOut
  aft_ntrd_n_select_proc = body (
      if input.thdy_incs_yn == "Y"
      then pfm_try aft_ntrd_n_thdy_y_select_proc
      else pfm_try aft_ntrd_n_thdy_n_select_proc)

  pub aft_select_proc : Proc P BzopOut
  aft_select_proc = body (
      if input.ntrd_incs_yn == "Y"
      then pfm_try aft_ntrd_y_select_proc
      else pfm_try aft_ntrd_n_select_proc)

  pub bfr_ntrd_y_thdy_y_select_proc : Proc P BzopOut
  bfr_ntrd_y_thdy_y_select_proc = select_date "PFO_DATE_MNGM_BS_VS008"

  pub bfr_ntrd_y_thdy_n_select_proc : Proc P BzopOut
  bfr_ntrd_y_thdy_n_select_proc = select_date "PFO_DATE_MNGM_BS_VS009"

  pub bfr_ntrd_y_select_proc : Proc P BzopOut
  bfr_ntrd_y_select_proc = body (
      if input.thdy_incs_yn == "Y"
      then pfm_try bfr_ntrd_y_thdy_y_select_proc
      else pfm_try bfr_ntrd_y_thdy_n_select_proc)

  pub bfr_ntrd_n_thdy_y_select_proc : Proc P BzopOut
  bfr_ntrd_n_thdy_y_select_proc = select_date "PFO_DATE_MNGM_BS_VS010"

  pub bfr_ntrd_n_thdy_n_select_proc : Proc P BzopOut
  bfr_ntrd_n_thdy_n_select_proc = select_date "PFO_DATE_MNGM_BS_VS011"

  pub bfr_ntrd_n_select_proc : Proc P BzopOut
  bfr_ntrd_n_select_proc = body (
      if input.thdy_incs_yn == "Y"
      then pfm_try bfr_ntrd_n_thdy_y_select_proc
      else pfm_try bfr_ntrd_n_thdy_n_select_proc)

  pub bfr_select_proc : Proc P BzopOut
  bfr_select_proc = body (
      if input.ntrd_incs_yn == "Y"
      then pfm_try bfr_ntrd_y_select_proc
      else pfm_try bfr_ntrd_n_select_proc)

  pub main_proc : Proc P BzopOut
  main_proc = body (
      if positive input.calc_dycn
      then pfm_try aft_select_proc
      else if is_zero input.calc_dycn
      then modify (λ o. record o { bzop_date = input.prsn_date })
      else if negative input.calc_dycn
      then pfm_try bfr_select_proc
      else pure tt)

  pub norm_exit_proc : Proc P BzopOut
  norm_exit_proc = body (pure tt)

  -- `MPCOM_GetBzopDate`
  unfoldable pub get_bzop_date : Proc P BzopOut
  get_bzop_date =
      body do pfm_try init_proc; pfm_try input_valid_proc; pfm_try main_proc; pfm_try norm_exit_proc
