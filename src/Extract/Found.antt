-- ===== src/Extract/Found.antt =====
-- What a reference that is reached leaves in the result.
use no_gada_automation.Base.{
  ◌≡◌, inl, inr, sym, ◌∙◌, true, false, List, [], ◌∷◌, none, if◌then◌else◌, ap, subst,
}
use no_gada_automation.Text.{Codes, Python, mem, same, add}
use no_gada_automation.Refs.{ModuleType, dbio, service, batch, biz, Ref, seen_before}
use no_gada_automation.Source.{Fault, Fetch, ok, raise, Reader, IsReader}
use no_gada_automation.Dbio.{Parsers}
use no_gada_automation.Extract.{
  ExtractResult, nothing, own, join, Config, done, failed, is_caught, extract_from_dbio, load_refs,
}
use no_gada_automation.Extract.Spec.{Within, is_followed, Reached, Dbio, Module, Sound}
use no_gada_automation.Extract.Caught.{Caught, extract_from_dbio-eq}
use no_gada_automation.Extract.Members.{
  mem-cons_cases, mem-add_cases, mem-add_self, Within-cons, mem_head,
}
use no_gada_automation.Extract.Grown.{
  Included, Included-refl, Included-add_batch, Included-join_right, Included-join_left, Recorded,
  Handled, Step, Sound-join,
}
use no_gada_automation.Extract.Ensures.{Ensures}

module _ (Py : Python) (X : Parsers) {reader : Reader} (R : IsReader reader) (K : Config)
    (kind : ModuleType) (top : Codes) (entry : List Ref) where
  abbrev pub Reaches : Ref → Type 0
  Reaches = Reached Py X reader K top entry

  abbrev pub Grows : ExtractResult → List Codes → ExtractResult → List Codes → Type 0
  Grows = Step Py X reader K top entry kind

  -- An ID that becomes visited with nothing recorded, or with what is recorded.
  pub mark :
      (r : Ref) (acc acc' : ExtractResult) (v : List Codes)
      → Included acc acc'
      → (Sound Py X reader K top entry kind acc → Sound Py X reader K top entry kind acc')
      → Handled Py X reader K top entry r.ref_id (r.ref_id ∷ v) acc'
      → Grows acc v acc' (r.ref_id ∷ v)
  mark r acc acc' v included sound handled = record {
    grown = Within-cons r.ref_id v;
    included = included;
    fresh = λ x h. elim (mem-cons_cases x r.ref_id v h) [
      | inr old ↦ inl old
      | inl e ↦
          inr (subst (λ y. Handled Py X reader K top entry y (r.ref_id ∷ v) acc') (sym e) handled)
    ];
    sound = sound;
  }

  pub batch_lem :
      (x : Codes) (acc : ExtractResult) (v : List Codes)
      → Reaches (record { ref_type = batch; ref_id = x })
      → Grows acc v (record acc { batches = add x acc.batches }) (x ∷ v)
  batch_lem x acc v reached =
      mark (record { ref_type = batch; ref_id = x }) acc _ v (Included-add_batch x acc)
        (λ s. record {
          tables = s.tables;
          dbios = s.dbios;
          batches = λ y h. elim (mem-add_cases y x acc.batches h) [
            | inl e ↦ subst (λ z. Reaches (record { ref_type = batch; ref_id = z })) (sym e) reached
            | inr m ↦ s.batches y m
          ];
          services = s.services;
          bizs = s.bizs;
        })
        (inr (batch, reached, mem-add_self x acc.batches))

  ok_inj : {A : Type 0} (a b : A) → ok a ≡ ok b → a ≡ b
  ok_inj a b h = cc

  Sound-dbio :
      (x : Codes) (result : ExtractResult)
      → Reaches (record { ref_type = dbio; ref_id = x })
      → extract_from_dbio Py X reader K x ≡ ok result
      → Sound Py X reader K top entry kind result
  Sound-dbio x result reached same =
      let shape = extract_from_dbio-eq Py X R K x result same in
      record {
        tables = λ y m. (x, result, (reached, same), m);
        dbios = λ y m. elim (mem-cons_cases y x [] (ap (λ r. mem y r.dbios) (sym shape) ∙ m)) [
          | inl e ↦
              (result, subst (λ z. Dbio Py X reader K top entry z result) (sym e) (reached, same))
          | inr none_left ↦ absurd (let f : false ≡ true = none_left in cc)
        ];
        batches =
            λ y m. absurd (let f : false ≡ true = ap (λ r. mem y r.batches) (sym shape) ∙ m in cc);
        services =
            λ y m. absurd (let f : false ≡ true = ap (λ r. mem y r.services) (sym shape) ∙ m in cc);
        bizs = λ y m. absurd (let f : false ≡ true = ap (λ r. mem y r.bizs) (sym shape) ∙ m in cc);
      }

  Recorded-dbio :
      (x : Codes) (acc : ExtractResult) (v : List Codes) (result : ExtractResult)
      → extract_from_dbio Py X reader K x ≡ ok result
      → Recorded Py X reader K top entry dbio x v (join acc result)
  Recorded-dbio x acc v result same result' same' =
      let alike : result ≡ result' = ok_inj result result' (sym same ∙ same') in
      let shape = extract_from_dbio-eq Py X R K x result same in
      let held = Included-join_right acc result in
      (
        held.dbios x (ap (λ r. mem x r.dbios) shape ∙ mem_head x []),
        subst (λ r. Within r.tables (join acc result).tables) alike held.tables,
      )

  -- Behind the call for a DBIO that is reached.
  pub dbio_lem :
      (x : Codes) (acc : ExtractResult) (v : List Codes) (r : Fetch ExtractResult)
      → Reaches (record { ref_type = dbio; ref_id = x })
      → extract_from_dbio Py X reader K x ≡ r
      → Caught r
      → Ensures
          (λ acc' v'. Grows acc v acc' v' × (mem x v' ≡ true))
          (elim r [
            | ok result ↦ done (join acc result) (x ∷ v)
            | raise e ↦ if is_caught e then done acc (x ∷ v) else failed e
          ])
  dbio_lem x acc v (raise e) reached same caught = rw caught (
    mark (record { ref_type = dbio; ref_id = x }) acc acc v (Included-refl acc) (λ s. s)
        (inr
          (dbio, reached, λ result e'. absurd (let f : raise e ≡ ok result = sym same ∙ e' in cc))),
    mem_head x v,
  )
  dbio_lem x acc v (ok result) reached same caught = (
    mark (record { ref_type = dbio; ref_id = x }) acc (join acc result) v
        (Included-join_left acc result)
        (λ s.
          Sound-join Py X reader K top entry kind acc result s (Sound-dbio x result reached same))
        (inr (dbio, reached, Recorded-dbio x acc (x ∷ v) result same)),
    mem_head x v,
  )

  -- A module that is reached leaves itself recorded, with all its references visited.
  abbrev Own : ModuleType → Codes → Type 0
  Own t x =
      (refs : List Ref) (acc : ExtractResult) (v : List Codes)
      → load_refs Py X reader K none t x ≡ ok refs
      → Included (own t x) acc
      → ((r : Ref) → seen_before r refs ≡ true → mem r.ref_id v ≡ true)
      → Recorded Py X reader K top entry t x v acc

  Own-Recorded : (t : ModuleType) (x : Codes) → is_followed t ≡ true → Own t x
  unfolding own
  Own-Recorded service x f refs acc v found i visited = λ refs' found'. (
    i.services x (mem_head x []),
    subst (λ rs. (r : Ref) → seen_before r rs ≡ true → mem r.ref_id v ≡ true)
        (ok_inj refs refs' (sym found ∙ found')) visited,
  )
  Own-Recorded biz x f refs acc v found i visited = λ refs' found'. (
    i.bizs x (mem_head x []),
    subst (λ rs. (r : Ref) → seen_before r rs ≡ true → mem r.ref_id v ≡ true)
        (ok_inj refs refs' (sym found ∙ found')) visited,
  )
  Own-Recorded dbio x f refs acc v found i visited = cc
  Own-Recorded batch x f refs acc v found i visited = cc

  pub none_in : (x : Codes) (A : Type 0) → mem x [] ≡ true → A
  none_in x A h = absurd (let f : false ≡ true = h in cc)

  own-Sound :
      (t : ModuleType) (x : Codes) (refs : List Ref)
      → is_followed t ≡ true
      → Reaches (record { ref_type = t; ref_id = x })
      → load_refs Py X reader K none t x ≡ ok refs
      → Sound Py X reader K top entry kind (own t x)
  unfolding own
  own-Sound service x refs f reached found = record {
    tables = λ y h. none_in y _ h;
    dbios = λ y h. none_in y _ h;
    batches = λ y h. none_in y _ h;
    services = λ y h. elim (mem-cons_cases y x [] h) [
      | inl e ↦
          inr
            (subst (λ z. Module Py X reader K top entry service z) (sym e) (reached, (refs, found)))
      | inr nowhere ↦ none_in y _ nowhere
    ];
    bizs = λ y h. none_in y _ h;
  }
  own-Sound biz x refs f reached found = record {
    tables = λ y h. none_in y _ h;
    dbios = λ y h. none_in y _ h;
    batches = λ y h. none_in y _ h;
    services = λ y h. none_in y _ h;
    bizs = λ y h. elim (mem-cons_cases y x [] h) [
      | inl e ↦
          inr (subst (λ z. Module Py X reader K top entry biz z) (sym e) (reached, (refs, found)))
      | inr nowhere ↦ none_in y _ nowhere
    ];
  }
  own-Sound dbio x refs f reached found = cc
  own-Sound batch x refs f reached found = cc

  -- Nothing is asked of a module that cannot be read.
  pub unread :
      (t : ModuleType) (x : Codes) (e : Fault)
      → is_followed t ≡ true
      → load_refs Py X reader K none t x ≡ raise e
      → (v : List Codes) → Recorded Py X reader K top entry t x v nothing
  unread service x e f found v =
      λ refs found'. absurd (let c : raise e ≡ ok refs = sym found ∙ found' in cc)
  unread biz x e f found v =
      λ refs found'. absurd (let c : raise e ≡ ok refs = sym found ∙ found' in cc)
  unread dbio x e f found v = cc
  unread batch x e f found v = cc

  Included-nothing : (acc : ExtractResult) → Included nothing acc
  Included-nothing acc = record {
    tables = λ y h. none_in y _ h;
    dbios = λ y h. none_in y _ h;
    batches = λ y h. none_in y _ h;
    services = λ y h. none_in y _ h;
    bizs = λ y h. none_in y _ h;
  }

  -- The loop over a module's references, with the module itself.
  pub own_step :
      (t : ModuleType) (x : Codes) (refs : List Ref) (v : List Codes) (b : ExtractResult)
      (w : List Codes)
      → is_followed t ≡ true
      → Reaches (record { ref_type = t; ref_id = x })
      → load_refs Py X reader K none t x ≡ ok refs
      → Grows (own t x) (x ∷ v) b w
      → ((r : Ref) → seen_before r refs ≡ true → mem r.ref_id w ≡ true)
      → Grows nothing v b w
  own_step t x refs v b w f reached found p visited = record {
    grown = λ y h. p.grown y (Within-cons x v y h);
    included = Included-nothing b;
    fresh = λ y h. elim (p.fresh y h) [
      | inr handled ↦ inr handled
      | inl marked ↦ elim (mem-cons_cases y x v marked) [
        | inr old ↦ inl old
        | inl e ↦ inr (
            subst (λ z. Handled Py X reader K top entry z w b) (sym e)
              (inr (t, reached, Own-Recorded t x f refs b w found p.included visited)))
      ]
    ];
    sound = λ _. p.sound (own-Sound t x refs f reached found);
  }
