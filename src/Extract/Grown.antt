-- ===== src/Extract/Grown.antt =====
-- How a result and the set of visited IDs grow together.
use no_gada_automation.Base.{◌≡◌, ◌⊎◌, inl, inr, true, List, none}
use no_gada_automation.Text.{Codes, Python, mem, add}
use no_gada_automation.Refs.{ModuleType, dbio, service, batch, biz, Ref, seen_before}
use no_gada_automation.Source.{Reader, ok}
use no_gada_automation.Dbio.{Parsers}
use no_gada_automation.Extract.{ExtractResult, nothing, join, Config, extract_from_dbio, load_refs}
use no_gada_automation.Extract.Spec.{Within, Reached, Sound}
use no_gada_automation.Extract.Members.{
  mem-append_cases, mem-update_cases, Within-append_left, Within-append_right, Within-update_left,
  Within-update_right, Within-add,
}

-- A result holds all of another.
pub record Included (acc acc' : ExtractResult) : Type 0 where
  pub tables : Within acc.tables acc'.tables
  pub dbios : Within acc.dbios acc'.dbios
  pub batches : Within acc.batches acc'.batches
  pub services : Within acc.services acc'.services
  pub bizs : Within acc.bizs acc'.bizs

pub Included-refl : (acc : ExtractResult) → Included acc acc
Included-refl acc = record {
  tables = λ x h. h;
  dbios = λ x h. h;
  batches = λ x h. h;
  services = λ x h. h;
  bizs = λ x h. h;
}

pub Included-trans : {a b c : ExtractResult} → Included a b → Included b c → Included a c
Included-trans p q = record {
  tables = λ x h. q.tables x (p.tables x h);
  dbios = λ x h. q.dbios x (p.dbios x h);
  batches = λ x h. q.batches x (p.batches x h);
  services = λ x h. q.services x (p.services x h);
  bizs = λ x h. q.bizs x (p.bizs x h);
}

pub Included-join_left : (a b : ExtractResult) → Included a (join a b)
unfolding join
Included-join_left a b = record {
  tables = Within-update_right b.tables a.tables;
  dbios = Within-append_left a.dbios b.dbios;
  batches = Within-update_right b.batches a.batches;
  services = Within-update_right b.services a.services;
  bizs = Within-update_right b.bizs a.bizs;
}

pub Included-join_right : (a b : ExtractResult) → Included b (join a b)
unfolding join
Included-join_right a b = record {
  tables = Within-update_left b.tables a.tables;
  dbios = Within-append_right a.dbios b.dbios;
  batches = Within-update_left b.batches a.batches;
  services = Within-update_left b.services a.services;
  bizs = Within-update_left b.bizs a.bizs;
}

pub Included-add_batch :
    (y : Codes) (acc : ExtractResult) → Included acc (record acc { batches = add y acc.batches })
Included-add_batch y acc = record {
  tables = λ x h. h;
  dbios = λ x h. h;
  batches = Within-add y acc.batches;
  services = λ x h. h;
  bizs = λ x h. h;
}

module _ (Py : Python) (X : Parsers) (reader : Reader) (K : Config) (top : Codes)
    (entry : List Ref) where
  -- What a visited reference has left in a result and in the set of visited IDs.
  abbrev pub Recorded : ModuleType → Codes → List Codes → ExtractResult → Type 0
  Recorded batch x v acc = mem x acc.batches ≡ true
  Recorded dbio x v acc =
      (result : ExtractResult)
      → extract_from_dbio Py X reader K x ≡ ok result
      → (mem x acc.dbios ≡ true) × Within result.tables acc.tables
  Recorded service x v acc =
      (refs : List Ref)
      → load_refs Py X reader K none service x ≡ ok refs
      → (mem x acc.services ≡ true)
        × ((r : Ref) → seen_before r refs ≡ true → mem r.ref_id v ≡ true)
  Recorded biz x v acc =
      (refs : List Ref)
      → load_refs Py X reader K none biz x ≡ ok refs
      → (mem x acc.bizs ≡ true) × ((r : Ref) → seen_before r refs ≡ true → mem r.ref_id v ≡ true)

  pub Recorded-grow :
      (t : ModuleType) (x : Codes) (v v' : List Codes) (acc acc' : ExtractResult)
      → Within v v'
      → Included acc acc'
      → Recorded t x v acc
      → Recorded t x v' acc'
  Recorded-grow batch x v v' acc acc' w i h = i.batches x h
  Recorded-grow dbio x v v' acc acc' w i h =
      λ result e. (i.dbios x (h result e).0, λ y m. i.tables y ((h result e).1 y m))
  Recorded-grow service x v v' acc acc' w i h =
      λ refs e. (i.services x (h refs e).0, λ r m. w r.ref_id ((h refs e).1 r m))
  Recorded-grow biz x v v' acc acc' w i h =
      λ refs e. (i.bizs x (h refs e).0, λ r m. w r.ref_id ((h refs e).1 r m))

  -- An ID that is visited is excluded, or a reference with it is reached and recorded.
  abbrev pub Handled : Codes → List Codes → ExtractResult → Type 0
  Handled x v acc =
      (mem x K.excluded ≡ true)
      ⊎ ((t : ModuleType) × Reached Py X reader K top entry (record { ref_type = t; ref_id = x })
          × Recorded t x v acc)

  Handled-grow :
      (x : Codes) (v v' : List Codes) (acc acc' : ExtractResult)
      → Within v v'
      → Included acc acc'
      → Handled x v acc
      → Handled x v' acc'
  Handled-grow x v v' acc acc' w i (inl e) = inl e
  Handled-grow x v v' acc acc' w i (inr (t, reached, h)) =
      inr (t, reached, Recorded-grow t x v v' acc acc' w i h)

  -- A part of the run takes a result and visited IDs to larger ones; each ID that is new is handled.
  pub record Step (t : ModuleType) (acc : ExtractResult) (v : List Codes) (acc' : ExtractResult)
      (v' : List Codes) : Type 0 where
    pub grown : Within v v'
    pub included : Included acc acc'
    pub fresh : (x : Codes) → mem x v' ≡ true → (mem x v ≡ true) ⊎ Handled x v' acc'
    pub sound : Sound Py X reader K top entry t acc → Sound Py X reader K top entry t acc'

  pub Step-refl : (t : ModuleType) (acc : ExtractResult) (v : List Codes) → Step t acc v acc v
  Step-refl t acc v = record {
    grown = λ x h. h;
    included = Included-refl acc;
    fresh = λ x h. inl h;
    sound = λ s. s;
  }

  pub Step-trans :
      (t : ModuleType) (a : ExtractResult) (u : List Codes) (b : ExtractResult) (v : List Codes)
      (c : ExtractResult) (w : List Codes)
      → Step t a u b v
      → Step t b v c w
      → Step t a u c w
  Step-trans t a u b v c w p q = record {
    grown = λ x h. q.grown x (p.grown x h);
    included = Included-trans p.included q.included;
    fresh = λ x h. elim (q.fresh x h) [
      | inr handled ↦ inr handled
      | inl old ↦ elim (p.fresh x old) [
        | inl older ↦ inl older
        | inr handled ↦ inr (Handled-grow x v w b c q.grown q.included handled)
      ]
    ];
    sound = λ s. q.sound (p.sound s);
  }

  pub Sound-nothing : (t : ModuleType) → Sound Py X reader K top entry t nothing
  Sound-nothing t = record {
    tables = λ x h. cc;
    dbios = λ x h. cc;
    batches = λ x h. cc;
    services = λ x h. cc;
    bizs = λ x h. cc;
  }

  pub Sound-join :
      (t : ModuleType) (a b : ExtractResult)
      → Sound Py X reader K top entry t a
      → Sound Py X reader K top entry t b
      → Sound Py X reader K top entry t (join a b)
  unfolding join
  Sound-join t a b p q = record {
    tables = λ x h. elim (mem-update_cases x b.tables a.tables h) [
      | inl m ↦ q.tables x m
      | inr m ↦ p.tables x m
    ];
    dbios = λ x h. elim (mem-append_cases x a.dbios b.dbios h) [
      | inl m ↦ p.dbios x m
      | inr m ↦ q.dbios x m
    ];
    batches = λ x h. elim (mem-update_cases x b.batches a.batches h) [
      | inl m ↦ q.batches x m
      | inr m ↦ p.batches x m
    ];
    services = λ x h. elim (mem-update_cases x b.services a.services h) [
      | inl m ↦ q.services x m
      | inr m ↦ p.services x m
    ];
    bizs = λ x h. elim (mem-update_cases x b.bizs a.bizs h) [
      | inl m ↦ q.bizs x m
      | inr m ↦ p.bizs x m
    ];
  }

  -- A result of its own, found while `r` is visited, joins what there was before.
  pub Step-join :
      (t : ModuleType) (acc result : ExtractResult) (v v' : List Codes)
      → Step t nothing v result v'
      → Step t acc v (join acc result) v'
  Step-join t acc result v v' p = record {
    grown = p.grown;
    included = Included-join_left acc result;
    fresh = λ x h. elim (p.fresh x h) [
      | inl old ↦ inl old
      | inr handled ↦ inr (
          Handled-grow x v' v' result (join acc result) (λ y m. m) (Included-join_right acc result)
            handled)
    ];
    sound = λ s. Sound-join t acc result s (p.sound (Sound-nothing t));
  }
