-- ===== src/Proposal/Job.antt =====
-- Nodes 16, 17, 13, 23, 61, 58 and 60 of SRLGR96602A.c: the job and its log, and the call of the batch.
pub mod Table
use no_gada_automation.Base.{String, [], ◌∷◌}
use no_gada_automation.Proframe.{
  ◌>>=◌, ◌>>◌, Rc, nrm, nfd, dup, err, num, text, set_err, Pfm, M, pure, leave, get, modify, emit,
  reads, call,
}
use no_gada_automation.Proposal.{
  ProposalIn, ProposalFrame, ProposalPfm, ProposalDbio, JobIn, LastLogIn, LogRow, ClearIn,
  BatchCallIn, add_err, query_err,
}

module _ (P : Pfm) (S : ProposalPfm P) (D : ProposalDbio P) (input : ProposalIn) where
  -- The block behind node 16: both of its branches return, and the second sets no number.
  abbrev pub job_exception : Rc → M P (ProposalFrame P) (Unit {0})
  job_exception nfd = do
    emit (set_err "ZCOM00003" [])
    add_err P S input "ZCOM00156" "MMCMP_ProcJobFundCrtn"
    leave err
  job_exception _ = do
    emit (set_err "ZCOM00005" [])
    add_err P S input "ZCOM00156" "MMCMP_ProcJobFundCrtn"
    leave err

  -- node 16
  pub job_node : M P (ProposalFrame P) (Unit {0})
  job_node = do
    fr ← get
    date ← reads D.get_syst_date
    user ← reads S.get_user_id
    (rc, job_id) ← call (
        D.proc_job (record {
          mncm_code = input.mncm_code;
          proc_date = date;
          user_id = user;
          proc_phcd = fr.s_proc_phcd;
          btch_bzwr_dncd = fr.s_btch_bzwr_dncd;
          code_slct_grp_no = fr.code_slct_grp_no;
        }))
    job_exception rc
    modify (λ f. record f { job_id = job_id })

  -- The block behind the query of node 17.
  abbrev pub last_log_exception : Rc → M P (ProposalFrame P) (Unit {0})
  last_log_exception nrm = pure tt
  last_log_exception nfd = pure tt
  last_log_exception _ = do
    n ← reads P.errornum
    s ← reads P.errorstr
    emit (set_err "ZCOM00005" (num n ∷ text s ∷ []))
    leave err

  -- nodes 17 and 13, "배치실행저장": the next number of the log. The file reads `temporaryOutput.seq`
  -- where that name is not in scope; it is taken to be the result of the query.
  pub sequence_node : M P (ProposalFrame P) (Unit {0})
  sequence_node = do
    fr ← get
    (rc, last) ← call (
        D.select_last_log (record {
          mncm_code = input.mncm_code;
          proc_date = fr.strn_date;
          srvc_code = fr.prgm_id;
          btn_ensn_name = fr.job_id;
        }))
    last_log_exception rc
    modify (λ f. record f { job_id = last.job_id })
    modify (λ f. record f { seq = elim rc [ nfd ↦ 1 | _ ↦ last.seq ] })

  -- The block behind the insert of node 23.
  abbrev pub log_exception : Rc → M P (ProposalFrame P) (Unit {0})
  log_exception nrm = pure tt
  log_exception dup = do emit (set_err "ZCOM00007" []); leave err
  log_exception _ = do n ← reads P.errornum; emit (set_err "ZCOM00008" (num n ∷ [])); leave err

  -- node 23
  pub log_node : M P (ProposalFrame P) (Unit {0})
  log_node = do
    fr ← get
    info ← reads D.insert_info
    rc ← call (
        D.insert_log (record {
          mncm_code = input.mncm_code;
          proc_date = fr.prgm_date;
          srvc_code = fr.prgm_id;
          btn_ensn_name = fr.job_id;
          seq = fr.seq;
          rmrk = fr.job_id;
          msg_cntn = "";
          proc_user_id = fr.lock_user_id;
          insert_info = info;
        }))
    log_exception rc

  -- The block behind the delete of node 61.
  abbrev pub delete_exception : Rc → M P (ProposalFrame P) (Unit {0})
  delete_exception nrm = pure tt
  delete_exception nfd = pure tt
  delete_exception _ = do
    n ← reads P.errornum
    s ← reads P.errorstr
    modify (λ f. record f { buf_dtl_msg = D.delete_msg n s })
    fr ← get
    emit (set_err "ZCOM00014" (text fr.buf_dtl_msg ∷ []))
    leave err

  -- node 61
  pub delete_node : M P (ProposalFrame P) (Unit {0})
  delete_node = do
    fr ← get
    rc ← call (
        D.delete_listing (record {
          mncm_code = input.mncm_code;
          prgm_id = fr.prgm_id;
          lock_user_id = fr.lock_user_id;
          trns_unq_id = fr.trns_unq_id;
        }))
    delete_exception rc

  -- node 58
  pub arguments_node : M P (ProposalFrame P) (Unit {0})
  arguments_node = do
    fr ← get
    modify (λ f. record f {
      btch_input =
          D.batch_args input.mncm_code input.strn_date input.end_date input.otis_use_code
            input.prgm_id fr.job_id;
    })

  -- The block behind node 60.
  abbrev pub batch_call_exception : Rc → M P (ProposalFrame P) (Unit {0})
  batch_call_exception nrm = pure tt
  batch_call_exception _ = do
    emit (set_err "ZCOM00016" (text "MZPFM_BatchLinkCall" ∷ []))
    msg ← reads D.get_err_msg
    emit (set_err "ZCOM00016" (text msg ∷ []))
    leave err

  -- node 60
  pub batch_call_node : M P (ProposalFrame P) (Unit {0})
  batch_call_node = do
    fr ← get
    rc ← call (
        D.batch_call
          (record { bat_code = "BRLGRPRP0001"; bat_call_type = "A"; args_ctnt = fr.btch_input }))
    batch_call_exception rc

  -- The nodes behind node 16, in their order.
  pub started_nodes : M P (ProposalFrame P) (Unit {0})
  started_nodes = do sequence_node; log_node; delete_node; arguments_node; batch_call_node
