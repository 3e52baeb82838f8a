-- ===== src/Batch/Tests.antt =====
-- `BRLGRPRP0001` on a sample database.
use no_gada_automation.Base.{suc, ◌≡◌, [], ◌∷◌}
use no_gada_automation.Proframe.{nrm, nfd, err, text, set_err, opened, returned}
use no_gada_automation.Sample.{counting, start}
use no_gada_automation.Batch.{cleared, BatchDbio, run_batch}
use no_gada_automation.Batch.Spec.{run_batch-eq-asks}

-- No stock is found, and the template's query fails.
abbrev tables : BatchDbio counting
tables = record {
  open_funds = λ _ n. (nrm, suc n);
  select_stocks = λ _ n. (nfd, suc n);
  select_template = λ _ n. (err, suc n);
  select_codes = λ _ n. (nrm, suc n);
}

run_batch-eq-asks_example : run_batch counting tables tt (start cleared) ≡ (
  returned err,
  record {
    frame = cleared;
    world = 3;
    log =
        set_err "ZCOM00003" (text "PFO_BM_STUP_TEMPLT_BS_DS011" ∷ [])
        ∷ opened "PFO_FUND_BS_DF037" nrm
        ∷ [];
  },
)
run_batch-eq-asks_example = run_batch-eq-asks counting tables tt (start cleared)
