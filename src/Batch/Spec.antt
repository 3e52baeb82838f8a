-- ===== src/Batch/Spec.antt =====
-- The batch against a list of questions that are asked until one fails.
use no_gada_automation.Base.{◌≡◌, String, Bool, true, false, List, [], ◌∷◌, arith, if◌then◌else◌}
use no_gada_automation.Proframe.{
  Rc, nrm, nfd, err, text, Event, set_err, opened, Pfm, Machine, returned, Proc,
}
use no_gada_automation.Batch.{
  BatchContext, cleared, BatchDbio, funds_node, stocks_node, template_node, codes_node, run_batch,
}

-- Whether a question that ended with this code lets the batch go on.
abbrev pub tolerated : Bool → Rc → Bool
tolerated finds_nothing nrm = true
tolerated finds_nothing nfd = finds_nothing
tolerated finds_nothing _ = false

module _ (P : Pfm) where
  -- One question: its DBIO, whether it opens a cursor, whether it may find nothing, and the call.
  pub record Question : Type 0 where
    pub id : String
    pub is_cursor : Bool
    pub finds_nothing : Bool
    pub ask : P.World → Rc × P.World

module _ (P : Pfm) where
  abbrev pub asks : List (Question P) → Proc P BatchContext
  asks [] m = (returned nrm, m)
  asks (q ∷ qs) m =
      let (rc, w) = q.ask m.world in
      let log : List Event = if q.is_cursor then opened q.id rc ∷ m.log else m.log in
      if tolerated q.finds_nothing rc
      then asks qs (record m { world = w; log = log })
      else (returned err, record m { world = w; log = set_err "ZCOM00003" (text q.id ∷ []) ∷ log })

module _ (P : Pfm) (D : BatchDbio P) where
  -- The four questions, with every key empty.
  abbrev pub questions : List (Question P)
  questions =
      record {
        id = "PFO_FUND_BS_DF037";
        is_cursor = true;
        finds_nothing = false;
        ask = D.open_funds (record { mncm_code = "" });
      }
      ∷ record {
        id = "PFO_STCK_MA_DS200";
        is_cursor = false;
        finds_nothing = true;
        ask = D.select_stocks (record { mncm_code = ""; fund_code = ""; proc_date = "" });
      }
      ∷ record {
        id = "PFO_BM_STUP_TEMPLT_BS_DS011";
        is_cursor = false;
        finds_nothing = true;
        ask = D.select_template (record { mncm_code = ""; fund_code = ""; end_date = "" });
      }
      ∷ record {
        id = "PFO_MNCM_CLCD_HT_EI901";
        is_cursor = false;
        finds_nothing = true;
        ask = D.select_codes (record { mncm_code = "" });
      }
      ∷ []

  -- Whatever its input and its context were, `BRLGRPRP0001` asks the four DBIOs in order with every
  -- key empty, since no key is copied from the input into the cleared context. It goes on while the
  -- first ends with `RC_NRM` and the others with `RC_NRM` or `RC_NFD`; at the first other code it
  -- reports ZCOM00003 with that DBIO's name and returns `RC_ERR` without asking the rest.
  pub run_batch-eq-asks :
      {I : Type 0} (input : I) (m : Machine P BatchContext)
      → run_batch P D input m ≡ asks P questions (record m { frame = cleared })
  unfolding run_batch funds_node stocks_node template_node codes_node
  run_batch-eq-asks input m = ground arith
