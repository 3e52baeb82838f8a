-- ===== src/Proposal/Job/Table.antt =====
-- The nodes of the job in SRLGR96602A.c as a table of its calls: what stops it, with which message.
use no_gada_automation.Base.{ℕ, ◌≡◌, Bool, true, false, List, [], ◌∷◌, arith, if◌then◌else◌}
use no_gada_automation.Proframe.{
  Rc, nrm, nfd, dup, err, num, text, Event, set_err, Pfm, Machine, Outcome, next, return,
}
use no_gada_automation.Proposal.{ProposalIn, ProposalFrame, ProposalPfm, ProposalDbio, LastLog}
use no_gada_automation.Proposal.Job.{
  job_node, sequence_node, log_node, delete_node, arguments_node, batch_call_node, started_nodes,
}

module _ (P : Pfm) (S : ProposalPfm P) (D : ProposalDbio P) (input : ProposalIn) where
  -- The four calls, each in the world that the one before it leaves.
  abbrev pub asked : Machine P (ProposalFrame P) → (Rc × LastLog) × P.World
  asked m =
      D.select_last_log
        (record {
          mncm_code = input.mncm_code;
          proc_date = m.frame.strn_date;
          srvc_code = m.frame.prgm_id;
          btn_ensn_name = m.frame.job_id;
        })
        m.world

  -- The number of the log is 1 if there is none yet.
  abbrev pub next_seq : Rc × LastLog → ℕ
  next_seq (nfd, last) = 1
  next_seq (rc, last) = last.seq

  abbrev pub logged : Machine P (ProposalFrame P) → Rc × P.World
  logged m =
      D.insert_log
        (record {
          mncm_code = input.mncm_code;
          proc_date = m.frame.prgm_date;
          srvc_code = m.frame.prgm_id;
          btn_ensn_name = (asked m).0.1.job_id;
          seq = next_seq (asked m).0;
          rmrk = (asked m).0.1.job_id;
          msg_cntn = "";
          proc_user_id = m.frame.lock_user_id;
          insert_info = D.insert_info (asked m).1;
        })
        (asked m).1

  abbrev pub deleted : Machine P (ProposalFrame P) → Rc × P.World
  deleted m =
      D.delete_listing
        (record {
          mncm_code = input.mncm_code;
          prgm_id = m.frame.prgm_id;
          lock_user_id = m.frame.lock_user_id;
          trns_unq_id = m.frame.trns_unq_id;
        })
        (logged m).1

  abbrev pub batched : Machine P (ProposalFrame P) → Rc × P.World
  batched m =
      D.batch_call
        (record {
          bat_code = "BRLGRPRP0001";
          bat_call_type = "A";
          args_ctnt =
              D.batch_args input.mncm_code input.strn_date input.end_date input.otis_use_code
                input.prgm_id (asked m).0.1.job_id;
        })
        (deleted m).1

  abbrev is_nrm : Rc → Bool
  is_nrm nrm = true
  is_nrm _ = false

  -- What a query or a delete that finds nothing also passes.
  abbrev is_answer : Rc → Bool
  is_answer nrm = true
  is_answer nfd = true
  is_answer _ = false

  abbrev is_dup : Rc → Bool
  is_dup dup = true
  is_dup _ = false

  abbrev Result : Type 0
  Result = Outcome (Unit {0}) × P.World × List Event

  -- The first call that fails stops the job with its messages, latest first.
  abbrev pub stopped_or_called : Machine P (ProposalFrame P) → Result
  stopped_or_called m =
      if is_answer (asked m).0.0
      then if is_nrm (logged m).0
        then if is_answer (deleted m).0
          then if is_nrm (batched m).0 then (next tt, (batched m).1, m.log) else (
            return err,
            (batched m).1,
            set_err "ZCOM00016" (text (D.get_err_msg (batched m).1) ∷ [])
                ∷ (set_err "ZCOM00016" (text "MZPFM_BatchLinkCall" ∷ []) ∷ m.log),
          )
          else (
            return err,
            (deleted m).1,
            set_err "ZCOM00014"
                  (text (D.delete_msg (P.errornum (deleted m).1) (P.errorstr (deleted m).1)) ∷ [])
                ∷ m.log,
          )
        else (
          return err,
          (logged m).1,
          (if is_dup (logged m).0
                then set_err "ZCOM00007" []
                else set_err "ZCOM00008" (num (P.errornum (logged m).1) ∷ []))
              ∷ m.log,
        )
      else (
        return err,
        (asked m).1,
        set_err "ZCOM00005" (num (P.errornum (asked m).1) ∷ text (P.errorstr (asked m).1) ∷ [])
            ∷ m.log,
      )

  abbrev pub ends : Outcome (Unit {0}) × Machine P (ProposalFrame P) → Result
  ends (o, m) = (o, m.world, m.log)

  -- The nodes from the log's number to the call of the batch are a table of four calls: the first that
  -- fails ends them with `RC_ERR` and its messages, and no later call is made; a query or a delete that
  -- finds nothing does not fail. The log's row has the number that the query gives, or 1 if it finds
  -- nothing, and the batch is called only behind all three others.
  pub started_nodes-eq :
      (m : Machine P (ProposalFrame P)) → ends (started_nodes P S D input m) ≡ stopped_or_called m
  unfolding started_nodes sequence_node log_node delete_node arguments_node batch_call_node
  started_nodes-eq m = ground arith

  -- The job's module never lets the service go on: whatever code it ends with, the node leaves with
  -- `RC_ERR` and two messages, with the job number not taken over.
  pub job_node_leaves :
      (m : Machine P (ProposalFrame P))
      → ((job_node P S D input m).0 ≡ return err) × ((job_node P S D input m).1.frame ≡ m.frame)
  unfolding job_node
  job_node_leaves m = ground arith
