-- ===== src/Batch.antt =====
-- RLGR/src/batch/BRLGRPRP0001.c (under compile/): the batch behind the proposal's fund list. It asks
-- four DBIOs in turn; they are parameters.
pub mod Spec
pub mod Tests
use no_gada_automation.Base.{String, [], ◌∷◌}
use no_gada_automation.Proframe.{
  ◌>>=◌, ◌>>◌, Rc, nrm, nfd, err, text, set_err, opened, Pfm, M, Proc, pure, leave, get, modify,
  emit, call, body,
}

-- What the code uses of `BRLGRPRP0001Context`, beside the pointers to input and output.
pub record BatchContext : Type 0 where
  pub btch_mncm_code : String
  pub btch_fund_code : String
  pub btch_proc_date : String
  pub btch_end_date : String

-- `bzero(context, sizeof(BRLGRPRP0001Context))`
abbrev pub cleared : BatchContext
cleared = record {
  btch_mncm_code = "";
  btch_fund_code = "";
  btch_proc_date = "";
  btch_end_date = "";
}

-- `PFO_FUND_BS_DF037In` and `PFO_MNCM_CLCD_HT_EI901In`
pub record CompanyIn : Type 0 where
  pub mncm_code : String

-- `PFO_STCK_MA_DS200In`
pub record StockIn : Type 0 where
  pub mncm_code : String
  pub fund_code : String
  pub proc_date : String

-- `PFO_BM_STUP_TEMPLT_BS_DS011In`
pub record TemplateIn : Type 0 where
  pub mncm_code : String
  pub fund_code : String
  pub end_date : String

-- The four calls. Their output structures are not read.
pub record BatchDbio (P : Pfm) : Type 0 where
  pub open_funds : CompanyIn → P.World → Rc × P.World
  pub select_stocks : StockIn → P.World → Rc × P.World
  pub select_template : TemplateIn → P.World → Rc × P.World
  pub select_codes : CompanyIn → P.World → Rc × P.World

-- `if (rc != RC_NRM) { … return RC_ERR; }`
abbrev unless_nrm : {P : Pfm} {F : Type 0} → String → Rc → M P F (Unit {0})
unless_nrm id nrm = pure tt
unless_nrm id _ = do emit (set_err "ZCOM00003" (text id ∷ [])); leave err

-- `if (rc != RC_NRM && rc != RC_NFD) { … return RC_ERR; }`
abbrev unless_nrm_or_nfd : {P : Pfm} {F : Type 0} → String → Rc → M P F (Unit {0})
unless_nrm_or_nfd id nrm = pure tt
unless_nrm_or_nfd id nfd = pure tt
unless_nrm_or_nfd id _ = do emit (set_err "ZCOM00003" (text id ∷ [])); leave err

module _ (P : Pfm) (D : BatchDbio P) where
  pub funds_node : M P BatchContext (Unit {0})
  funds_node = do
    c ← get
    rc ← call (D.open_funds (record { mncm_code = c.btch_mncm_code }))
    emit (opened "PFO_FUND_BS_DF037" rc)
    unless_nrm "PFO_FUND_BS_DF037" rc

  pub stocks_node : M P BatchContext (Unit {0})
  stocks_node = do
    c ← get
    rc ← call (
        D.select_stocks (record {
          mncm_code = c.btch_mncm_code;
          fund_code = c.btch_fund_code;
          proc_date = c.btch_proc_date;
        }))
    unless_nrm_or_nfd "PFO_STCK_MA_DS200" rc

  pub template_node : M P BatchContext (Unit {0})
  template_node = do
    c ← get
    rc ← call (
        D.select_template (record {
          mncm_code = c.btch_mncm_code;
          fund_code = c.btch_fund_code;
          end_date = c.btch_end_date;
        }))
    unless_nrm_or_nfd "PFO_BM_STUP_TEMPLT_BS_DS011" rc

  pub codes_node : M P BatchContext (Unit {0})
  codes_node = do
    c ← get
    rc ← call (D.select_codes (record { mncm_code = c.btch_mncm_code }))
    unless_nrm_or_nfd "PFO_MNCM_CLCD_HT_EI901" rc

  -- `BRLGRPRP0001`. The pointer to the input goes into the context, and is not read again.
  pub run_batch : {I : Type 0} → I → Proc P BatchContext
  run_batch input =
      body do modify (λ _. cleared); funds_node; stocks_node; template_node; codes_node
