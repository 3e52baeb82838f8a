-- ===== src/Report/Whole/Parts.antt =====
-- The functions of SPCSP53619C around its fund loop.
use no_gada_automation.Base.{negsuc, ◌≡◌, refl, ◌∙◌, inl, inr, Option, none, some, arith}
use no_gada_automation.Proframe.{Rc, nrm, nfd, Pfm, IsLawful, Machine, ◌>>=◌, ◌>>◌, get}
use no_gada_automation.Proframe.Returns.{Returns, body-Returns}
use no_gada_automation.Proframe.Cursor.Rule.{Ensures, Ensures-bind, Ensures-weaken, IsFaulty}
use no_gada_automation.Bzop.{DateDbio}
use no_gada_automation.Bzop.Spec.{get_bzop_date-eq-expected}
use no_gada_automation.Rates.{RateDbio}
use no_gada_automation.Report.{
  ReportIn, checked, ReportFrame, ReportPfm, ReportDbio, overview_exception, init_node, bzop_node,
  init_proc, input_valid_proc, overview_node, norm_exit_proc,
}
use no_gada_automation.Report.Period.Calm.{KeepsCursor}
use no_gada_automation.Report.Whole.{Fit, Bad, OnNrm, overview_in, asked}

module _ (P : Pfm) (L : IsLawful P) (S : ReportPfm P) (D : ReportDbio P) (Q : RateDbio P)
    (T : DateDbio P) (C : IsFaulty P 50 D.fetch_funds) (K : KeepsCursor P Q C)
    (input : ReportIn) where
  -- Behind the initialisation: the output as it was, and the context's keys.
  pub record Ready (m m' : Machine P (ReportFrame P)) : Type 0 where
    pub output : m'.frame.output ≡ m.frame.output
    pub key : m'.frame.context.ls_ptrn_data_pacd ≡ "53619M_1"
    pub num_999 : m'.frame.context.num_999 ≡ (P.num_from_long 999).1

  init_node_lem :
      (m : Machine P (ReportFrame P))
      → Ensures (λ _ m'. Ready m m') (Bad P L S D Q T C K input) (init_node P S D Q T input m)
  unfolding init_node
  init_node_lem m = ground (arith, λ (s : (Fit P L S D Q T C K input)). s.marker)

  bzop_node_lem :
      (m m' : Machine P (ReportFrame P))
      → Ready m m'
      → Ensures (λ _ m2. Ready m m2) (Bad P L S D Q T C K input) (bzop_node P S D Q T input m')
  unfolding bzop_node
  bzop_node_lem m m' r = ground (
    arith,
    r.output,
    r.key,
    r.num_999,
    get_bzop_date-eq-expected P T
        (record {
          thdy_incs_yn = "N";
          ntrd_incs_yn = "N";
          prsn_date = input.proc_date;
          calc_dycn = negsuc 0;
        })
        L (record { frame = record { bzop_date = "" }; world = m'.world; log = m'.log }),
    λ (s : (Fit P L S D Q T C K input)). s.smooth.loads "MPCOM_GetBzopDate" m'.world,
    λ (s : (Fit P L S D Q T C K input)).
        s.dates "PFO_DATE_MNGM_BS_VS011"
          (record { prsn_date = input.proc_date; calc_dycn = negsuc 0 }) m'.world,
  )

  -- Behind the overview found.
  pub record Found (m m' : Machine P (ReportFrame P)) : Type 0 where
    pub answered : (asked P L S D Q T C K input m.world).0.0 ≡ nrm
    pub world : m'.world ≡ (asked P L S D Q T C K input m.world).1
    pub output :
        m'.frame.output
        ≡ record m.frame.output { overview = (asked P L S D Q T C K input m.world).0.1.overview }
    pub st1 : m'.frame.locals.st1_chec_yn ≡ (asked P L S D Q T C K input m.world).0.1.st1_chec_yn
    pub nd2 : m'.frame.locals.nd2_chec_yn ≡ (asked P L S D Q T C K input m.world).0.1.nd2_chec_yn
    pub num_999 : m'.frame.context.num_999 ≡ m.frame.context.num_999

  pub overview_node_lem :
      (m : Machine P (ReportFrame P))
      → m.frame.context.ls_ptrn_data_pacd ≡ "53619M_1"
      → Ensures
          (λ _ m'. Found m m')
          (OnNrm P L S D Q T C K input (λ m'.
            ((asked P L S D Q T C K input m.world).0.0 ≡ nfd) × (m'.frame.output ≡ m.frame.output)))
          (overview_node P S D Q T input m)
  unfolding overview_node overview_exception
  overview_node_lem m key = rw key (
      ground (
        arith,
        λ (s : (Fit P L S D Q T C K input)).
            s.overviews (overview_in P L S D Q T C K input) m.world,
      ))

  pub init_proc_lem :
      (m m' : Machine P (ReportFrame P))
      → m'.frame.output ≡ m.frame.output
      → Returns (OnNrm P L S D Q T C K input (Ready m)) (init_proc P S D Q T input m')
  unfolding init_proc
  init_proc_lem m m' same =
      body-Returns (OnNrm P L S D Q T C K input (Ready m))
        (init_node P S D Q T input >> bzop_node P S D Q T input) m'
        (Ensures-bind (λ _ m2. Ready m' m2) (λ _ m2. OnNrm P L S D Q T C K input (Ready m) nrm m2)
          (OnNrm P L S D Q T C K input (Ready m)) (init_node P S D Q T input)
          (λ _. bzop_node P S D Q T input) m'
          (Ensures-weaken (λ _ m2. Ready m' m2) (λ _ m2. Ready m' m2) (Bad P L S D Q T C K input)
            (OnNrm P L S D Q T C K input (Ready m)) (init_node P S D Q T input m')
            (init_node_lem m') (λ _ _ r. r) (λ _ _ bad. inl bad))
          (λ _ m2 r.
            Ensures-weaken (λ _ m3. Ready m' m3)
              (λ _ m3. OnNrm P L S D Q T C K input (Ready m) nrm m3) (Bad P L S D Q T C K input)
              (OnNrm P L S D Q T C K input (Ready m)) (bzop_node P S D Q T input m2)
              (bzop_node_lem m' m2 r)
              (λ _ _ r3.
                inr
                  (refl, record { output = r3.output ∙ same; key = r3.key; num_999 = r3.num_999 }))
              (λ _ _ bad. inl bad)))

  -- The checks of the input and of the output change nothing.
  abbrev pub Checks : (Machine P (ReportFrame P) → Type 0) → Rc → Machine P (ReportFrame P) → Type 0
  Checks Post rc m = Post m × ((Fit P L S D Q T C K input) → rc ≡ nrm)

  checked_lem :
      (Post : Machine P (ReportFrame P) → Type 0) (test : P.World → Option Rc)
      (m : Machine P (ReportFrame P))
      → ((Fit P L S D Q T C K input) → test m.world ≡ none)
      → Post m
      → Ensures
          (λ _ m'. Checks Post nrm m')
          (Checks Post)
          (checked {P = P} {F = ReportFrame P} test m)
  checked_lem Post test m none_missing h = after (test m.world) none_missing
    where
      after :
          (bad : Option Rc)
          → ((Fit P L S D Q T C K input) → bad ≡ none)
          → Ensures
              (λ _ m'. Checks Post nrm m')
              (Checks Post)
              (checked {P = P} {F = ReportFrame P} (λ _. bad) m)
      after none e = (h, λ _. refl)
      after (some rc) e = (h, λ s. absurd (let same = e s in cc))

  pub input_valid_proc_lem :
      (Post : Machine P (ReportFrame P) → Type 0) (m : Machine P (ReportFrame P))
      → Post m
      → Returns (Checks Post) (input_valid_proc P S D Q T input m)
  unfolding input_valid_proc
  input_valid_proc_lem Post m h =
      body-Returns (Checks Post) (checked (S.not_null_in input)) m
        (checked_lem Post (S.not_null_in input) m (λ s. s.inputs m.world) h)

  pub norm_exit_proc_lem :
      (Post : Machine P (ReportFrame P) → Type 0) (m : Machine P (ReportFrame P))
      → Post m
      → Returns (Checks Post) (norm_exit_proc P S D Q T input m)
  unfolding norm_exit_proc
  norm_exit_proc_lem Post m h =
      body-Returns (Checks Post) (do fr ← get; checked (S.not_null_out fr.output)) m
        (checked_lem Post (S.not_null_out m.frame.output) m (λ s. s.outputs m.frame.output m.world)
          h)
