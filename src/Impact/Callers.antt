-- ===== src/Impact/Callers.antt =====
-- Who is found to call.
use no_gada_automation.Base.{
  ◌≡◌, refl, ap, ◌∙◌, Bool, true, false, ◌&&◌, ◌||◌, List, [], ◌∷◌, ◌++◌, Option, none, some, arith,
  Bool-cases, inl, inr,
}
use no_gada_automation.Text.{Codes, Python, same, mem, mem-append, mem-update, strip}
use no_gada_automation.Refs.{
  ModuleType, dbio, service, batch, biz, same_type, Ref, seen_before, scan_module_refs,
}
use no_gada_automation.Source.{
  Fault, source_not_found, Fetch, ok, raise, ◌>>=◌, or_else, Reader, parse_module_path,
}
use no_gada_automation.Impact.{
  CommandRunner, candidates, CallersResult, no_callers, put_caller, visit_text, visit_hit,
  visit_hits, sort_callers, find_callers,
}

abbrev pub callers : ModuleType → CallersResult → List Codes
callers service r = r.services
callers biz r = r.bizs
callers batch r = r.batches
callers dbio r = []

-- A module other than a DBIO.
abbrev may_call : ModuleType → Bool
may_call dbio = false
may_call _ = true

-- The file can be read and has the reference.
abbrev refers : Python → List Codes → Ref → Fetch Codes → Bool
refers Py groups wanted (ok src) = seen_before wanted (scan_module_refs Py groups src)
refers Py groups wanted (raise e) = false

-- The path is that of the module, and its file has the reference.
abbrev shows_at : ModuleType → Codes → Bool → Option (ModuleType × Codes × Codes) → Bool
shows_at t id has_ref none = false
shows_at t id has_ref (some (u, group, x)) = may_call t && same_type t u && same id x && has_ref

abbrev pub calls : Python → Reader → List Codes → Ref → ModuleType → Codes → List Codes → Bool
calls Py reader groups wanted t id [] = false
calls Py reader groups wanted t id (path ∷ paths) =
    shows_at t id (refers Py groups wanted (reader.read path)) (parse_module_path path)
    || calls Py reader groups wanted t id paths

mem_last : (id x : Codes) (xs : List Codes) → mem id (xs ++ (x ∷ [])) ≡ mem id xs || same id x
mem_last id x xs = ground (arith, mem-append id xs (x ∷ []))

mem-put_caller :
    (t u : ModuleType) (id x : Codes) (r : CallersResult)
    → mem id (callers t (put_caller u x r))
      ≡ mem id (callers t r) || (may_call t && same_type t u && same id x)
mem-put_caller service service id x r = mem_last id x r.services
mem-put_caller biz biz id x r = mem_last id x r.bizs
mem-put_caller batch batch id x r = mem_last id x r.batches
mem-put_caller dbio u id x r = refl
mem-put_caller service dbio id x r = ground arith
mem-put_caller service biz id x r = ground arith
mem-put_caller service batch id x r = ground arith
mem-put_caller biz dbio id x r = ground arith
mem-put_caller biz service id x r = ground arith
mem-put_caller biz batch id x r = ground arith
mem-put_caller batch dbio id x r = ground arith
mem-put_caller batch service id x r = ground arith
mem-put_caller batch biz id x r = ground arith

mem-sort_callers :
    (t : ModuleType) (id : Codes) (r : CallersResult)
    → mem id (callers t (sort_callers r)) ≡ mem id (callers t r)
mem-sort_callers service id r = ground (arith, mem-update id r.services [])
mem-sort_callers biz id r = ground (arith, mem-update id r.bizs [])
mem-sort_callers batch id r = ground (arith, mem-update id r.batches [])
mem-sort_callers dbio id r = refl

or_false : (a : Bool) → a ≡ a || false
or_false a = ground arith

or_assoc : (a b c : Bool) → (a || b) || c ≡ a || (b || c)
or_assoc a b c = ground arith

none_yet : (t : ModuleType) (id : Codes) (b : Bool) → mem id (callers t no_callers) || b ≡ b
none_yet service id b = refl
none_yet biz id b = refl
none_yet batch id b = refl
none_yet dbio id b = refl

and_true : (a b c : Bool) → a || (b && c) ≡ a || (b && c && true)
and_true a b c = ground arith

and_false : (a b c : Bool) → a ≡ a || (b && c && false)
and_false a b c = ground arith

module _ (Py : Python) (reader : Reader) (groups : List Codes) (wanted : Ref)
    (steady : (p : Codes) (e : Fault) → reader.read p ≡ raise e → e ≡ source_not_found) where
  mem-visit_text :
      (t u : ModuleType) (id x : Codes) (r : CallersResult) (src : Codes)
      → mem id (callers t (visit_text Py groups wanted u x r src))
        ≡ mem id (callers t r)
          || (may_call t
              && same_type t u
              && same id x
              && seen_before wanted (scan_module_refs Py groups src))
  mem-visit_text t u id x r src =
      elim (Bool-cases (seen_before wanted (scan_module_refs Py groups src))) [
        | inl present ↦ rw present (
            mem-put_caller t u id x r
            ∙ and_true (mem id (callers t r)) (may_call t && same_type t u) (same id x))
        | inr absent ↦
            rw absent (and_false (mem id (callers t r)) (may_call t && same_type t u) (same id x))
      ]

  -- What a run of the loop adds.
  abbrev Adds : CallersResult → Fetch CallersResult → (ModuleType → Codes → Bool) → Type 0
  Adds r run new =
      (r' : CallersResult) × (run ≡ ok r')
      × ((t : ModuleType) (id : Codes) → mem id (callers t r') ≡ mem id (callers t r) || new t id)

  visit_hit_lem :
      (r : CallersResult) (path : Codes)
      → Adds r (visit_hit Py reader groups wanted r path) (λ t id.
        shows_at t id (refers Py groups wanted (reader.read path)) (parse_module_path path))
  unfolding visit_hit
  visit_hit_lem r path = by_path (parse_module_path path)
    where
      by_read :
          (u : ModuleType) (x : Codes) (text : Fetch Codes)
          → ((e : Fault) → text ≡ raise e → e ≡ source_not_found)
          → Adds r
              (or_else (text >>= λ src. ok (visit_text Py groups wanted u x r src)) (ok r))
              (λ t id. may_call t && same_type t u && same id x && refers Py groups wanted text)
      by_read u x (ok src) s =
          (visit_text Py groups wanted u x r src, refl, λ t id. mem-visit_text t u id x r src)
      by_read u x (raise source_not_found) s = (
        r,
        refl,
        λ t id. and_false (mem id (callers t r)) (may_call t && same_type t u) (same id x),
      )
      by_read u x (raise e) s = absurd (let c : e ≡ source_not_found = s e refl in cc)

      by_path :
          (m : Option (ModuleType × Codes × Codes))
          → Adds r
              (elim m [
                | none ↦ ok r
                | some (t, group, id) ↦
                    or_else
                      (reader.read path >>= λ src. ok (visit_text Py groups wanted t id r src))
                      (ok r)
              ])
              (λ t id. shows_at t id (refers Py groups wanted (reader.read path)) m)
      by_path none = (r, refl, λ t id. or_false (mem id (callers t r)))
      by_path (some (u, group, x)) = by_read u x (reader.read path) (steady path)

  visit_hits_lem :
      (r : CallersResult) (paths : List Codes)
      → Adds r
          (visit_hits Py reader groups wanted r paths)
          (λ t id. calls Py reader groups wanted t id paths)
  unfolding visit_hits
  visit_hits_lem r [] = (r, refl, λ t id. or_false (mem id (callers t r)))
  visit_hits_lem r (path ∷ paths) =
      let (r₁, here, new₁) = visit_hit_lem r path in
      let (r₂, behind, new₂) = visit_hits_lem r₁ paths in
      (
        r₂,
        rw here behind,
        λ t id.
            new₂ t id
            ∙ ap (λ b. b || calls Py reader groups wanted t id paths) (new₁ t id)
            ∙ or_assoc (mem id (callers t r)) _ (calls Py reader groups wanted t id paths),
      )

-- A search for the callers of a DBIO or a module, whose greps give the paths `hits`, on a server where
-- only a missing file is not read: it ends with an answer, and a module of a type other than DBIO is in the answer exactly if
-- one of the paths is a path of that module whose file can be read and, without its comments, has the
-- reference. A path that is none of a module and a file that is missing are passed over.
pub find_callers_lem :
    (Py : Python) (ref_type : ModuleType) (ref_id : Codes) (searcher : CommandRunner)
    (reader : Reader) (groups hits : List Codes)
    → ((p : Codes) (e : Fault) → reader.read p ≡ raise e → e ≡ source_not_found)
    → candidates searcher (strip Py ref_id) groups ≡ some hits
    → (r : CallersResult) × (find_callers Py ref_type ref_id searcher reader groups ≡ some (ok r))
      × ((t : ModuleType) (id : Codes)
          → mem id (callers t r)
            ≡ calls Py reader groups
                (record { ref_type = ref_type; ref_id = strip Py ref_id })
                t
                id
                hits)
unfolding find_callers
find_callers_lem Py ref_type ref_id searcher reader groups hits steady found =
    let wanted : Ref = record { ref_type = ref_type; ref_id = strip Py ref_id } in
    let (r, run, new) = visit_hits_lem Py reader groups wanted steady no_callers hits in
    (
      sort_callers r,
      rw (find_callers, found, run),
      λ t id.
          mem-sort_callers t id r
          ∙ new t id
          ∙ none_yet t id (calls Py reader groups wanted t id hits),
    )
