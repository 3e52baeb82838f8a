-- ===== src/Proposal.antt =====
-- RLGR/src/serviceModule/SRLGR96602A/SRLGR96602A.c (under compile/): the proposal's fund list, up to
-- the number that it draws for its batch (node 21). What follows that node is a parameter here, `rest`.
mod Types
pub mod Codes
pub mod Job
pub mod Listing
pub mod Whole
pub mod Spec
pub mod Sample
pub mod Tests
pub use Types.*
use no_gada_automation.Base.{
  ℕ, ℤ, pos, String, Bool, Option, none, some, [], ◌∷◌, ◌==◌, if◌then◌else◌,
}
use no_gada_automation.Proframe.{
  ◌>>=◌, ◌>>◌, Rc, nrm, nfd, err, num, text, set_err, set_add_err, Pfm, M, Proc, pure, leave, get,
  modify, emit, reads, call, body, pfm_try,
}

-- A check that may leave with a code of its own.
abbrev pub require : {P : Pfm} {F : Type 0} → (P.World → Option Rc) → M P F (Unit {0})
require test = do bad ← reads test; elim bad [ none ↦ pure tt | some rc ↦ leave rc ]

module _ (P : Pfm) (S : ProposalPfm P) (input : ProposalIn) where
  pub init_proc : Proc P (ProposalFrame P)
  init_proc = body do
    user ← reads S.get_user_id
    date ← reads S.get_date
    modify (λ fr. record fr {
      prgm_id = "SRLGR96602A";
      lock_user_id = user;
      trns_unq_id = user;
      s_proc_phcd = "99";
      s_btch_bzwr_dncd = "ZZ";
      prgm_date = date;
    })

  -- `rc = pfmIsValidDate(date); if (rc == FALSE) { … }`
  abbrev pub require_date : String → M P (ProposalFrame P) (Unit {0})
  require_date date = if S.is_valid_date date then pure tt else (do
    msg ← reads S.date_error
    emit (set_err "ZCOM00001" (text msg ∷ num (pos 0) ∷ []))
    leave err)

  pub input_valid_proc : Proc P (ProposalFrame P)
  input_valid_proc = body do
    require (S.not_null_in input)
    require (S.check_is_zero input.data_evnt_proc_hndl "ZCOM00001" "데이터이벤트처리취급")
    require (S.check_is_sp_null input.mncm_code "ZCOM00001" "운용사코드")
    require_date input.strn_date
    require_date input.end_date
    modify (λ fr. record fr { proc_rslt_cntn = "" })

  -- `PFM_SET_ADD_ERR(code, name, PDB_ERRORNUM, PDB_ERRORSTR);`
  abbrev pub add_err : String → String → M P (ProposalFrame P) (Unit {0})
  add_err code name = do
    n ← reads P.errornum
    s ← reads P.errorstr
    emit (set_add_err code (text name ∷ num n ∷ text s ∷ []))

  -- `PFM_SET_ERR("ZCOM00005", PDB_ERRORNUM);`
  abbrev pub query_err : M P (ProposalFrame P) (Unit {0})
  query_err = do n ← reads P.errornum; emit (set_err "ZCOM00005" (num n ∷ []))

  -- The block behind the query of node 8.
  abbrev pub unless_found : Rc → M P (ProposalFrame P) (Unit {0})
  unless_found nrm = pure tt
  unless_found _ = do query_err; add_err "ZCOM00145" "TRU_SRVC_BTN_LB_VS701"; leave err

  -- nodes 8 and 10: whether a batch is running already
  pub running_node : M P (ProposalFrame P) (Unit {0})
  running_node = do
    fr ← get
    (rc, proc_rslt_dncd) ← call (
        S.select_button (record {
          mncm_code = input.mncm_code;
          prgm_id = fr.prgm_id;
          lock_user_id = input.otis_use_code;
          otis_use_code = "ALL";
          prgm_date = fr.prgm_date;
        }))
    unless_found rc
    modify (λ f. record f { proc_rslt_cntn = S.ls_proc_rslt_cntn })
    if proc_rslt_dncd == "N"
        then (modify (λ f. record f { proc_rslt_cntn = S.ls_proc_rslt_cntn }) >> leave nrm)
        else pure tt

  -- The block behind node 21: both of its branches return.
  abbrev pub seq_exception : Rc → M P (ProposalFrame P) (Unit {0})
  seq_exception nfd = do
    emit (set_err "ZCOM00003" [])
    add_err "ZCOM00156" "MZCOM_GetSeqNo"
    leave err
  seq_exception _ = do query_err; add_err "ZCOM00156" "MZCOM_GetSeqNo"; leave err

  -- node 21, "시퀀스 채번 조회"
  pub seq_node : M P (ProposalFrame P) (Unit {0})
  seq_node = do
    (rc, seq_next_no) ← call (
        S.get_seq_no
          (record { seq_obj_nm = "TRU_CMN_SRCH_SLCT_TM_SQ01"; seq_pf_cd = "C"; seq_tot_len = 16 }))
    seq_exception rc
    modify (λ f. record f { code_slct_grp_no = seq_next_no })

  pub main_proc : M P (ProposalFrame P) (Unit {0}) → Proc P (ProposalFrame P)
  main_proc rest = body do running_node; seq_node; rest

  pub norm_exit_proc : Proc P (ProposalFrame P)
  norm_exit_proc = body (pure tt)

  -- `bzero(context, sizeof(SRLGR96602AContext))`
  abbrev pub clear_context : ProposalFrame P → ProposalFrame P
  clear_context fr = record fr {
    prgm_id = "";
    lock_user_id = "";
    trns_unq_id = "";
    s_proc_phcd = "";
    s_btch_bzwr_dncd = "";
    prgm_date = "";
    code_slct_grp_no = "";
    strn_date = "";
    job_id = "";
    seq = 0;
    buf_dtl_msg = "";
    btch_input = "";
  }

  -- `SRLGR96602A`
  pub proposal_list : M P (ProposalFrame P) (Unit {0}) → Proc P (ProposalFrame P)
  proposal_list rest = body do
    modify clear_context
    pfm_try init_proc
    pfm_try input_valid_proc
    pfm_try (main_proc rest)
    pfm_try norm_exit_proc
