-- ===== src/Extract/Visit.antt =====
-- The recursion ends and handles what it visits.
use no_gada_automation.Base.{
  ℕ, zero, suc, ◌≤◌, ◌≡◌, inl, inr, refl, ◌∙◌, Bool, true, false, List, [], ◌∷◌, none, arith,
  Bool-cases, ap,
}
use no_gada_automation.Text.{Codes, Python, mem, same, same_iff}
use no_gada_automation.Refs.{ModuleType, dbio, service, batch, biz, Ref, seen_before}
use no_gada_automation.Source.{Fetch, ok, raise, Reader, IsReader}
use no_gada_automation.Source.Faults.{Raises}
use no_gada_automation.Dbio.{Parsers}
use no_gada_automation.Extract.{
  ExtractResult, nothing, own, join, Config, Run, done, and_then, extract_from_dbio, load_refs,
  follow_new, follow_ref, follow, with_refs, visit,
}
use no_gada_automation.Extract.Spec.{Within, is_followed, Reached, next}
use no_gada_automation.Extract.Ends.{unvisited, unvisited_anti, unvisited-cons}
use no_gada_automation.Extract.Caught.{extract_from_dbio-Caught, load_refs-Raises}
use no_gada_automation.Extract.Members.{Within-cons, mem_head}
use no_gada_automation.Extract.Grown.{Included-refl, Step, Step-refl, Step-trans, Step-join}
use no_gada_automation.Extract.Ensures.{
  Ensures, Ensures-and_then, Ensures-weaken, head_or_tail, head_seen, in_tail, Closed,
}
use no_gada_automation.Extract.Found.{mark, batch_lem, dbio_lem, unread, own_step}

module _ (Py : Python) (X : Parsers) {reader : Reader} (R : IsReader reader) (K : Config)
    (ids : List Codes) (closed : Closed Py X reader K ids) (kind : ModuleType) (top : Codes)
    (entry : List Ref) where
  abbrev pub Reaches : Ref → Type 0
  Reaches = Reached Py X reader K top entry

  -- What may be followed: with an ID of the corpus, and reached unless it is excluded or the entry.
  abbrev pub Candidate : Ref → Type 0
  Candidate r =
      (mem r.ref_id ids ≡ true)
      × (mem r.ref_id K.excluded ≡ false → same r.ref_id top ≡ false → Reaches r)

  abbrev pub Grows : ExtractResult → List Codes → ExtractResult → List Codes → Type 0
  Grows = Step Py X reader K top entry kind

  -- What a part of the run has to be given: the entry is visited, and there is fuel.
  abbrev pub Ready : ℕ → List Codes → Type 0
  Ready fuel v = (mem top v ≡ true) × (unvisited ids v ≤ fuel)

  -- The recursive call, at a reference that is reached and not visited.
  abbrev pub Visits : ℕ → (Ref → List Codes → Run) → Type 0
  Visits fuel call =
      (r : Ref) (v : List Codes)
      → is_followed r.ref_type ≡ true
      → mem r.ref_id ids ≡ true
      → mem r.ref_id v ≡ false
      → Reaches r
      → Ready fuel v
      → Ensures (λ acc v'. Grows nothing v acc v' × (mem r.ref_id v' ≡ true)) (call r v)

  not_top : (x : Codes) (v : List Codes) → mem top v ≡ true → mem x v ≡ false → same x top ≡ false
  not_top x v t h = elim (Bool-cases (same x top)) [
    | inr other ↦ other
    | inl e ↦
        let here : x ≡ top = (same_iff x top).0 e in
        absurd (by_mem (mem x v) h (ap (λ y. mem y v) here ∙ t))
  ]
    where
      by_mem : (b : Bool) → b ≡ false → b ≡ true → ⊥
      by_mem b e e' = cc

  -- The call for a module, whose result joins what there was before.
  call_lem :
      (fuel : ℕ) (call : Ref → List Codes → Run)
      → Visits fuel call
      → (r : Ref) (acc : ExtractResult) (v : List Codes) → is_followed r.ref_type ≡ true
      → mem r.ref_id ids ≡ true
      → mem r.ref_id v ≡ false
      → Reaches r
      → Ready fuel v
      → Ensures
          (λ acc' v'. Grows acc v acc' v' × (mem r.ref_id v' ≡ true))
          (and_then (call r v) (λ result v'. done (join acc result) v'))
  call_lem fuel call visits r acc v read_on known new reached ready =
      Ensures-and_then (λ acc' v'. Grows nothing v acc' v' × (mem r.ref_id v' ≡ true))
        (λ acc' v'. Grows acc v acc' v' × (mem r.ref_id v' ≡ true)) (call r v)
        (λ result v'. done (join acc result) v') (visits r v read_on known new reached ready)
        (λ result v' h. (Step-join Py X reader K top entry kind acc result v v' h.0, h.1))

  follow_new_lem :
      (fuel : ℕ) (call : Ref → List Codes → Run)
      → Visits fuel call
      → (t : ModuleType) (x : Codes) (acc : ExtractResult) (v : List Codes) → mem x ids ≡ true
      → mem x v ≡ false
      → Reaches (record { ref_type = t; ref_id = x })
      → Ready fuel v
      → Ensures
          (λ acc' v'. Grows acc v acc' v' × (mem x v' ≡ true))
          (follow_new Py X reader K call t x acc v)
  unfolding follow_new
  follow_new_lem fuel call visits batch x acc v known new reached ready =
      (batch_lem Py X R K kind top entry x acc v reached, mem_head x v)
  follow_new_lem fuel call visits dbio x acc v known new reached ready =
      dbio_lem Py X R K kind top entry x acc v (extract_from_dbio Py X reader K x) reached refl
        (extract_from_dbio-Caught Py X R K x)
  follow_new_lem fuel call visits service x acc v known new reached ready =
      call_lem fuel call visits (record { ref_type = service; ref_id = x }) acc v refl known new
        reached ready
  follow_new_lem fuel call visits biz x acc v known new reached ready =
      call_lem fuel call visits (record { ref_type = biz; ref_id = x }) acc v refl known new reached
        ready

  -- One round of the loop.
  follow_ref_lem :
      (fuel : ℕ) (call : Ref → List Codes → Run)
      → Visits fuel call
      → (r : Ref) (acc : ExtractResult) (v : List Codes) → Candidate r
      → Ready fuel v
      → Ensures
          (λ acc' v'. Grows acc v acc' v' × (mem r.ref_id v' ≡ true))
          (follow_ref Py X reader K call r acc v)
  unfolding follow_ref
  follow_ref_lem fuel call visits r acc v (known, reach) ready =
      elim (Bool-cases (mem r.ref_id v)) [
        | inl old ↦ rw old (Step-refl Py X reader K top entry kind acc v, old)
        | inr new ↦ elim (Bool-cases (mem r.ref_id K.excluded)) [
          | inl out ↦
              rw (new, out)
                (
                  mark Py X R K kind top entry r acc acc v (Included-refl acc) (λ s. s) (inl out),
                  mem_head r.ref_id v,
                )
          | inr kept ↦
              rw (new, kept)
                (follow_new_lem fuel call visits r.ref_type r.ref_id acc v known new
                  (reach kept (not_top r.ref_id v ready.0 new)) ready)
        ]
      ]

  Ready-grow : (fuel : ℕ) (v v' : List Codes) → Within v v' → Ready fuel v → Ready fuel v'
  Ready-grow fuel v v' w (t, enough) = (w top t, omega (arith, unvisited_anti ids v v' w))

  -- The loop leaves all its references visited.
  pub follow_lem :
      (fuel : ℕ) (call : Ref → List Codes → Run)
      → Visits fuel call
      → (rs : List Ref) (acc : ExtractResult) (v : List Codes)
      → ((r : Ref) → seen_before r rs ≡ true → Candidate r)
      → Ready fuel v
      → Ensures
          (λ acc' v'.
            Grows acc v acc' v' × ((r : Ref) → seen_before r rs ≡ true → mem r.ref_id v' ≡ true))
          (follow Py X reader K call rs acc v)
  unfolding follow
  follow_lem fuel call visits [] acc v all ready =
      (Step-refl Py X reader K top entry kind acc v, λ r h. absurd (let f : false ≡ true = h in cc))
  follow_lem fuel call visits (r ∷ rs) acc v all ready =
      Ensures-and_then (λ a u. Grows acc v a u × (mem r.ref_id u ≡ true))
        (λ a u.
          Grows acc v a u × ((s : Ref) → seen_before s (r ∷ rs) ≡ true → mem s.ref_id u ≡ true))
        (follow_ref Py X reader K call r acc v) (follow Py X reader K call rs)
        (follow_ref_lem fuel call visits r acc v (all r (head_seen r rs)) ready)
        (λ a u h.
          Ensures-weaken
            (λ b w. Grows a u b w × ((s : Ref) → seen_before s rs ≡ true → mem s.ref_id w ≡ true))
            (λ b w.
              Grows acc v b w × ((s : Ref) → seen_before s (r ∷ rs) ≡ true → mem s.ref_id w ≡ true))
            (follow Py X reader K call rs a u)
            (λ b w k. (
              Step-trans Py X reader K top entry kind acc v a u b w h.0 k.0,
              λ s m. elim (head_or_tail s r rs m) [
                | inl e ↦ k.0.grown s.ref_id (ap (λ q. mem q.ref_id u) e ∙ h.1)
                | inr rest ↦ k.1 s rest
              ],
            ))
            (follow_lem fuel call visits rs a u (λ s m. all s (in_tail s r rs m))
              (Ready-grow fuel v u h.0.grown ready)))

  -- A module that is reached, behind the reading of its source.
  with_refs_lem :
      (fuel : ℕ) (call : Ref → List Codes → Run)
      → Visits fuel call
      → (t : ModuleType) (x : Codes) (v : List Codes) (r : Fetch (List Ref)) → is_followed t ≡ true
      → Reaches (record { ref_type = t; ref_id = x })
      → Ready fuel (x ∷ v)
      → load_refs Py X reader K none t x ≡ r
      → Raises r
      → Ensures
          (λ acc' v'. Grows nothing v acc' v' × (mem x v' ≡ true))
          (with_refs Py X reader K call false t x (x ∷ v) r)
  unfolding with_refs
  with_refs_lem fuel call visits t x v (raise e) f reached ready found h = rw h (
    mark Py X R K kind top entry (record { ref_type = t; ref_id = x }) nothing nothing v
        (Included-refl nothing) (λ s. s)
        (inr (t, reached, unread Py X R K kind top entry t x e f found (x ∷ v))),
    mem_head x v,
  )
  with_refs_lem fuel call visits t x v (ok refs) f reached ready found h =
      Ensures-weaken
        (λ b w.
          Grows (own t x) (x ∷ v) b w
          × ((r : Ref) → seen_before r refs ≡ true → mem r.ref_id w ≡ true))
        (λ b w. Grows nothing v b w × (mem x w ≡ true))
        (follow Py X reader K call refs (own t x) (x ∷ v))
        (λ b w p. (
          own_step Py X R K kind top entry t x refs v b w f reached found p.0 p.1,
          p.0.grown x (mem_head x v),
        ))
        (follow_lem fuel call visits refs (own t x) (x ∷ v)
          (λ r m. (closed t x refs r found m, λ kept other. next reached f found m kept other))
          ready)

  pub visit_lem : (fuel : ℕ) → Visits fuel (visit Py X reader K fuel)
  unfolding visit
  visit_lem zero r v f known new reached (t, enough) =
      absurd (omega (arith, unvisited-cons ids v r.ref_id known new))
  visit_lem (suc fuel) r v f known new reached (t, enough) =
      with_refs_lem fuel (visit Py X reader K fuel) (visit_lem fuel) r.ref_type r.ref_id v
        (load_refs Py X reader K none r.ref_type r.ref_id) f reached
        (Within-cons r.ref_id v top t, omega (arith, unvisited-cons ids v r.ref_id known new)) refl
        (load_refs-Raises Py X R K r.ref_type r.ref_id f)
