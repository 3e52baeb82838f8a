-- ===== src/Proposal/Spec.antt =====
-- How far SRLGR96602A comes.
use no_gada_automation.Base.{◌≡◌, ◌≢◌, refl, ap, ◌⊎◌, inl, inr, String, ◌==◌, true, arith}
use no_gada_automation.Proframe.{
  Rc, nrm, Pfm, IsLawful, Machine, M, Proc, ◌>>◌, body, pfm_try, modify,
}
use no_gada_automation.Proframe.Returns.{Returns, body-Returns, pfm_try-Ensures, pfm_try-then}
use no_gada_automation.Proposal.{
  ProposalIn, ProposalFrame, ProposalPfm, init_proc, input_valid_proc, running_node, seq_node,
  main_proc, norm_exit_proc, clear_context, proposal_list,
}

module _ (P : Pfm) (L : IsLawful P) (S : ProposalPfm P) (input : ProposalIn)
    (rest : M P (ProposalFrame P) (Unit {0})) where
  abbrev pub asked : P.World → (Rc × String) × P.World
  asked w =
      S.select_button
        (record {
          mncm_code = input.mncm_code;
          prgm_id = "SRLGR96602A";
          lock_user_id = input.otis_use_code;
          otis_use_code = "ALL";
          prgm_date = S.get_date w;
        })
        w

  -- The query finds a batch that is running, and no other call has been made.
  pub record Running (m m' : Machine P (ProposalFrame P)) : Type 0 where
    pub answered : (asked m.world).0.0 ≡ nrm
    pub found : ((asked m.world).0.1 == "N") ≡ true
    pub world : m'.world ≡ (asked m.world).1
    pub log : m'.log ≡ m.log
    pub output : m'.frame.proc_rslt_cntn ≡ S.ls_proc_rslt_cntn

  record Ready (m m' : Machine P (ProposalFrame P)) : Type 0 where
    pub id : m'.frame.prgm_id ≡ "SRLGR96602A"
    pub date : m'.frame.prgm_date ≡ S.get_date m.world
    pub world : m'.world ≡ m.world
    pub log : m'.log ≡ m.log

  abbrev Runs : Machine P (ProposalFrame P) → Rc → Machine P (ProposalFrame P) → Type 0
  Runs m rc m' = (rc ≢ nrm) ⊎ Running m m'

  main_proc_lem :
      (m m1 : Machine P (ProposalFrame P))
      → Ready m m1
      → Returns (Runs m) (main_proc P S input rest m1)
  unfolding main_proc running_node seq_node
  main_proc_lem m m1 r = ground (arith, r.id, r.date, r.world, r.log)

  abbrev Readies : Machine P (ProposalFrame P) → Rc → Machine P (ProposalFrame P) → Type 0
  Readies m rc m' = (rc ≢ nrm) ⊎ Ready m m'

  init_proc_lem :
      (m m' : Machine P (ProposalFrame P))
      → m'.world ≡ m.world
      → m'.log ≡ m.log
      → Returns (Readies m) (init_proc P S input m')
  unfolding init_proc
  init_proc_lem m m' w l = inr (record { id = refl; date = ap S.get_date w; world = w; log = l })

  input_valid_proc_lem :
      (m m1 : Machine P (ProposalFrame P))
      → Ready m m1
      → Returns (Readies m) (input_valid_proc P S input m1)
  unfolding input_valid_proc
  input_valid_proc_lem m m1 r = ground (arith, r.id, r.date, r.world, r.log)

  norm_exit_proc_lem :
      (m m1 : Machine P (ProposalFrame P))
      → Running m m1
      → Returns (Runs m) (norm_exit_proc P S input m1)
  unfolding norm_exit_proc
  norm_exit_proc_lem m m1 r = inr r

  -- Over a lawful runtime, and whatever stands behind the node that draws a number: the service makes
  -- no access outside an array and always returns, and it returns `RC_NRM` only if the query for the
  -- button finds "N", a batch that is running. Then the number was not asked for, and the output has
  -- the text of the result.
  pub proposal_list-Running :
      (m : Machine P (ProposalFrame P))
      → Returns (λ rc m'. (rc ≢ nrm) ⊎ Running m m') (proposal_list P S input rest m)
  unfolding proposal_list
  proposal_list-Running m =
      let R = Runs m in
      let Q : Unit {0} → Machine P (ProposalFrame P) → Type 0 = λ _ m'. R nrm m' in
      let last : M P (ProposalFrame P) (Unit {0}) = pfm_try (norm_exit_proc P S input) in
      let tail : M P (ProposalFrame P) (Unit {0}) = pfm_try (main_proc P S input rest) >> last in
      body-Returns R
        (modify (clear_context P S input)
          >> (pfm_try (init_proc P S input) >> (pfm_try (input_valid_proc P S input) >> tail)))
        m
        (pfm_try-then (Readies m) L Q R (init_proc P S input)
          (pfm_try (input_valid_proc P S input) >> tail)
          (record m { frame = clear_context P S input m.frame })
          (init_proc_lem m (record m { frame = clear_context P S input m.frame }) refl refl)
          (λ _ _ ne _. inl ne)
          (λ m1 r1.
            pfm_try-then (Readies m) L Q R (input_valid_proc P S input) tail m1
              (input_valid_proc_lem m m1 (at_nrm (Ready m m1) r1)) (λ _ _ ne _. inl ne)
              (λ m2 r2.
                pfm_try-then R L Q R (main_proc P S input rest) last m2
                  (main_proc_lem m m2 (at_nrm (Ready m m2) r2)) (λ _ _ ne _. inl ne)
                  (λ m3 r3.
                    pfm_try-Ensures R L R (norm_exit_proc P S input) m3
                      (norm_exit_proc_lem m m3 (at_nrm (Running m m3) r3)) (λ _ _ ne _. inl ne)))))
    where
      at_nrm : (A : Type 0) → (nrm ≢ nrm) ⊎ A → A
      at_nrm A (inl bad) = absurd (bad refl)
      at_nrm A (inr a) = a

module _ (P : Pfm) (S : ProposalPfm P) (input : ProposalIn) where
  main_proc-eq :
      (rest rest' : M P (ProposalFrame P) (Unit {0})) (m : Machine P (ProposalFrame P))
      → main_proc P S input rest m ≡ main_proc P S input rest' m
  unfolding main_proc running_node seq_node
  main_proc-eq rest rest' m = ground arith

  -- Nothing behind the node that draws a number is ever reached: the service is the same function
  -- whatever stands there.
  pub proposal_list-eq :
      (rest rest' : M P (ProposalFrame P) (Unit {0})) (m : Machine P (ProposalFrame P))
      → proposal_list P S input rest m ≡ proposal_list P S input rest' m
  unfolding proposal_list
  proposal_list-eq rest rest' m =
      ap
        (λ (main : Proc P (ProposalFrame P)).
          body
            (do
              modify (clear_context P S input)
              pfm_try (init_proc P S input)
              pfm_try (input_valid_proc P S input)
              pfm_try main
              pfm_try (norm_exit_proc P S input))
            m)
        (λ i m'. main_proc-eq rest rest' m' i)
