-- ===== src/Bzop/Tests.antt =====
-- `MPCOM_GetBzopDate` on sample calendars.
use no_gada_automation.Base.{ℕ, List, suc, pos, negsuc, ◌≡◌, [], ◌∷◌, ◌==◌, if◌then◌else◌}
use no_gada_automation.Proframe.{nrm, nfd, err, num, set_err, returned}
use no_gada_automation.Sample.{counting, runtime-IsLawful, start}
use no_gada_automation.Bzop.{BzopIn, DateDbio, get_bzop_date}
use no_gada_automation.Bzop.Calendar.{DateRow, calendar}
use no_gada_automation.Bzop.Calendar.Answer.{get_bzop_date-eq-answered}
use no_gada_automation.Bzop.Spec.{get_bzop_date-eq-expected}

-- Only the query for the open day strictly before a date finds one; another fails.
abbrev dates : DateDbio counting
dates = record {
  select = λ id i n.
      if id == "PFO_DATE_MNGM_BS_VS011"
      then ((nrm, record { bzop_date = "20240105" }), suc n)
      else if id == "PFO_DATE_MNGM_BS_VS004"
      then ((err, record { bzop_date = "" }), suc n)
      else ((nfd, record { bzop_date = "" }), suc n);
}

abbrev day_before : BzopIn
day_before = record {
  thdy_incs_yn = "N";
  ntrd_incs_yn = "N";
  prsn_date = "20240108";
  calc_dycn = negsuc 0;
}

get_bzop_date-eq-expected_example :
    get_bzop_date counting dates day_before (start (record { bzop_date = "" }))
    ≡ (returned nrm, record { frame = record { bzop_date = "20240105" }; world = 1; log = [] })
get_bzop_date-eq-expected_example =
    get_bzop_date-eq-expected counting dates day_before (runtime-IsLawful ℕ (λ _. 0))
      (start (record { bzop_date = "" }))

same_day_copied :
    get_bzop_date counting dates
      (record day_before { calc_dycn = pos 0 })
      (start (record { bzop_date = "" }))
    ≡ (returned nrm, record { frame = record { bzop_date = "20240108" }; world = 0; log = [] })
unfolding get_bzop_date
same_day_copied =
    get_bzop_date-eq-expected counting dates (record day_before { calc_dycn = pos 0 })
      (runtime-IsLawful ℕ (λ _. 0)) (start (record { bzop_date = "" }))

failed_query_reported :
    get_bzop_date counting dates
      (record day_before { calc_dycn = pos 3; thdy_incs_yn = "Y"; ntrd_incs_yn = "Y" })
      (start (record { bzop_date = "" }))
    ≡ (
      returned err,
      record {
        frame = record { bzop_date = "" };
        world = 1;
        log = set_err "ZCOM00005" (num (negsuc 1402) ∷ []) ∷ [];
      },
    )
failed_query_reported =
    get_bzop_date-eq-expected counting dates
      (record day_before { calc_dycn = pos 3; thdy_incs_yn = "Y"; ntrd_incs_yn = "Y" })
      (runtime-IsLawful ℕ (λ _. 0)) (start (record { bzop_date = "" }))

-- Four days, a closed one among them, in the order of their dates.
abbrev days : List DateRow
days =
    record { prsn_date = "20240103"; bzop_date = "20240103"; holy_yn = "N" }
    ∷ record { prsn_date = "20240104"; bzop_date = "20240104"; holy_yn = "N" }
    ∷ record { prsn_date = "20240105"; bzop_date = "20240104"; holy_yn = "Y" }
    ∷ record { prsn_date = "20240108"; bzop_date = "20240108"; holy_yn = "N" }
    ∷ []

-- The open day before the 8th is the 4th; the rows are produced from the 3rd on.
get_bzop_date-eq-answered_example :
    get_bzop_date counting
      (calendar counting (λ _. days))
      day_before
      (start (record { bzop_date = "" }))
    ≡ (returned nrm, record { frame = record { bzop_date = "20240103" }; world = 0; log = [] })
get_bzop_date-eq-answered_example =
    get_bzop_date-eq-answered counting (runtime-IsLawful ℕ (λ _. 0)) (λ _. days) day_before
      (start (record { bzop_date = "" }))

next_open_day :
    get_bzop_date counting
      (calendar counting (λ _. days))
      (record day_before { prsn_date = "20240104"; calc_dycn = pos 1 })
      (start (record { bzop_date = "" }))
    ≡ (returned nrm, record { frame = record { bzop_date = "20240108" }; world = 0; log = [] })
next_open_day =
    get_bzop_date-eq-answered counting (runtime-IsLawful ℕ (λ _. 0)) (λ _. days)
      (record day_before { prsn_date = "20240104"; calc_dycn = pos 1 })
      (start (record { bzop_date = "" }))
