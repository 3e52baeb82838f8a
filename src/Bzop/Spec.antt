-- ===== src/Bzop/Spec.antt =====
-- `MPCOM_GetBzopDate` against the table of its eight queries.
use no_gada_automation.Base.{
  ℤ, pos, negsuc, zero, suc, String, Bool, true, false, ◌≡◌, refl, ◌∙◌, [], ◌∷◌, ◌==◌, arith,
  if◌then◌else◌,
}
use no_gada_automation.Proframe.{
  Rc, nrm, nfd, err, num, set_msg, set_err, Pfm, IsLawful, Machine, Exit, returned, pure, modify,
  body, pfm_try,
}
use no_gada_automation.Proframe.Laws.{body-if_pfm_try, body-pfm_try, body-main_step}
use no_gada_automation.Bzop.{
  BzopIn, BzopOut, DateOut, DateDbio, select_date, aft_ntrd_y_thdy_y_select_proc,
  aft_ntrd_y_thdy_n_select_proc, aft_ntrd_n_thdy_y_select_proc, aft_ntrd_n_thdy_n_select_proc,
  bfr_ntrd_y_thdy_y_select_proc, bfr_ntrd_y_thdy_n_select_proc, bfr_ntrd_n_thdy_y_select_proc,
  bfr_ntrd_n_thdy_n_select_proc, aft_ntrd_y_select_proc, aft_ntrd_n_select_proc,
  bfr_ntrd_y_select_proc, bfr_ntrd_n_select_proc, aft_select_proc, bfr_select_proc, main_proc,
  positive, is_zero, negative, select_exception, get_bzop_date, init_proc, input_valid_proc,
  norm_exit_proc,
}

pub data Direction : Type 0 where
  after before : Direction

-- The queries by direction, by closed days included, by the day itself included.
abbrev pub query_id : Direction → Bool → Bool → String
query_id after true true = "PFO_DATE_MNGM_BS_VS004"
query_id after true false = "PFO_DATE_MNGM_BS_VS005"
query_id after false true = "PFO_DATE_MNGM_BS_VS006"
query_id after false false = "PFO_DATE_MNGM_BS_VS007"
query_id before true true = "PFO_DATE_MNGM_BS_VS008"
query_id before true false = "PFO_DATE_MNGM_BS_VS009"
query_id before false true = "PFO_DATE_MNGM_BS_VS010"
query_id before false false = "PFO_DATE_MNGM_BS_VS011"

module _ (P : Pfm) (D : DateDbio P) (input : BzopIn) where
  -- What a query's answer makes of the state: the date, a message that there is none, or an error.
  abbrev pub settle : Rc × DateOut → Machine P BzopOut → Exit × Machine P BzopOut
  settle (nrm, found) m =
      (returned nrm, record m { frame = record { bzop_date = found.bzop_date } })
  settle (nfd, _) m = (returned nrm, record m { log = set_msg "ZCOM00003" [] ∷ m.log })
  settle (_, _) m =
      (returned err, record m { log = set_err "ZCOM00005" (num (P.errornum m.world) ∷ []) ∷ m.log })

  abbrev pub asked : String → Machine P BzopOut → Exit × Machine P BzopOut
  asked id m =
      let (answer, w) =
        D.select id (record { prsn_date = input.prsn_date; calc_dycn = input.calc_dycn }) m.world in
      settle answer (record m { world = w })

  abbrev pub asked_in : Direction → Machine P BzopOut → Exit × Machine P BzopOut
  asked_in d = asked (query_id d (input.ntrd_incs_yn == "Y") (input.thdy_incs_yn == "Y"))

  -- No day to go: the date itself, and no query. Else one query, by the sign and the two flags.
  abbrev pub expected : ℤ → Machine P BzopOut → Exit × Machine P BzopOut
  expected (pos zero) m =
      (returned nrm, record m { frame = record { bzop_date = input.prsn_date } })
  expected (pos (suc _)) m = asked_in after m
  expected (negsuc _) m = asked_in before m

  select_date-eq-asked :
      (id : String) (m : Machine P BzopOut) → select_date P D input id m ≡ asked id m
  unfolding select_date select_exception
  select_date-eq-asked id m = ground arith

module _ (P : Pfm) (D : DateDbio P) (input : BzopIn) (L : IsLawful P) where
  asked_by_flags :
      (d : Direction) (closed today : Bool) (m : Machine P BzopOut)
      → (if closed
          then (if today
              then asked P D input (query_id d true true) m
              else asked P D input (query_id d true false) m)
          else (if today
              then asked P D input (query_id d false true) m
              else asked P D input (query_id d false false) m))
        ≡ asked P D input (query_id d closed today) m
  asked_by_flags d true true m = refl
  asked_by_flags d true false m = refl
  asked_by_flags d false true m = refl
  asked_by_flags d false false m = refl

  aft_select_proc-eq-asked :
      (m : Machine P BzopOut) → aft_select_proc P D input m ≡ asked_in P D input after m
  unfolding aft_select_proc aft_ntrd_y_select_proc aft_ntrd_n_select_proc
      aft_ntrd_y_thdy_y_select_proc aft_ntrd_y_thdy_n_select_proc aft_ntrd_n_thdy_y_select_proc
      aft_ntrd_n_thdy_n_select_proc
  aft_select_proc-eq-asked m =
      body-if_pfm_try L (input.ntrd_incs_yn == "Y") _ _ m
        (body-if_pfm_try L (input.thdy_incs_yn == "Y") _ _ m (select_date-eq-asked P D input _ m)
          (select_date-eq-asked P D input _ m))
        (body-if_pfm_try L (input.thdy_incs_yn == "Y") _ _ m (select_date-eq-asked P D input _ m)
          (select_date-eq-asked P D input _ m))
      ∙ asked_by_flags after (input.ntrd_incs_yn == "Y") (input.thdy_incs_yn == "Y") m

  bfr_select_proc-eq-asked :
      (m : Machine P BzopOut) → bfr_select_proc P D input m ≡ asked_in P D input before m
  unfolding bfr_select_proc bfr_ntrd_y_select_proc bfr_ntrd_n_select_proc
      bfr_ntrd_y_thdy_y_select_proc bfr_ntrd_y_thdy_n_select_proc bfr_ntrd_n_thdy_y_select_proc
      bfr_ntrd_n_thdy_n_select_proc
  bfr_select_proc-eq-asked m =
      body-if_pfm_try L (input.ntrd_incs_yn == "Y") _ _ m
        (body-if_pfm_try L (input.thdy_incs_yn == "Y") _ _ m (select_date-eq-asked P D input _ m)
          (select_date-eq-asked P D input _ m))
        (body-if_pfm_try L (input.thdy_incs_yn == "Y") _ _ m (select_date-eq-asked P D input _ m)
          (select_date-eq-asked P D input _ m))
      ∙ asked_by_flags before (input.ntrd_incs_yn == "Y") (input.thdy_incs_yn == "Y") m

  main_proc-at :
      (n : ℤ) (m : Machine P BzopOut)
      → body
          (if positive n
            then pfm_try (aft_select_proc P D input)
            else if is_zero n
            then modify (λ o. record o { bzop_date = input.prsn_date })
            else if negative n
            then pfm_try (bfr_select_proc P D input)
            else pure tt)
          m
        ≡ expected P D input n m
  main_proc-at (pos zero) m = refl
  main_proc-at (pos (suc n)) m =
      body-pfm_try L (aft_select_proc P D input) m ∙ aft_select_proc-eq-asked m
  main_proc-at (negsuc n) m =
      body-pfm_try L (bfr_select_proc P D input) m ∙ bfr_select_proc-eq-asked m

  -- Over a lawful runtime `MPCOM_GetBzopDate` copies the current date if the day count is 0, and
  -- else asks exactly one of the eight queries, chosen by the sign of the count and by whether each
  -- flag is "Y": a date found is the output, a missing one is the message ZCOM00003 with `RC_NRM`
  -- and an unchanged output, any other code is the error ZCOM00005 with `RC_ERR`.
  pub get_bzop_date-eq-expected :
      (m : Machine P BzopOut) → get_bzop_date P D input m ≡ expected P D input input.calc_dycn m
  unfolding get_bzop_date init_proc input_valid_proc norm_exit_proc main_proc
  get_bzop_date-eq-expected m =
      body-main_step L (main_proc P D input) m ∙ main_proc-at input.calc_dycn m
