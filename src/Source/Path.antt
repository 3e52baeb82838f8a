-- ===== src/Source/Path.antt =====
-- `parse_module_path` undoes `module_path`.
use no_gada_automation.Base.{
  ℕ, ◌≡◌, ◌≢◌, refl, ap, sym, ◌∙◌, true, false, not, ◌&&◌, [], ◌∷◌, ◌++◌, some, arith, eqb,
  append_assoc,
}
use no_gada_automation.Text.{Codes, codes, span-append}
use no_gada_automation.Refs.{ModuleType, dbio, service, batch, biz}
use no_gada_automation.Source.{
  ok, module_path, below_group, lacks, before_end, last_segment, stem, named, in_group,
  parse_module_path, compile_root,
}

-- A name that may stand between two slashes.
pub record IsName (x : Codes) : Type 0 where
  pub filled : x ≢ []
  pub no_slash : lacks b'/' x ≡ true
  pub no_newline : lacks b'\n' x ≡ true

before_end-append : (x : Codes) → before_end (codes ".c") (x ++ codes ".c") ≡ some x
unfolding before_end
before_end-append [] = refl
before_end-append (c ∷ []) = ground (arith, before_end-append [])
before_end-append (c ∷ d ∷ []) = ground (arith, before_end-append (d ∷ []))
before_end-append (c ∷ d ∷ e ∷ x) = ground (arith, before_end-append (d ∷ e ∷ x))

pub lacks-append : (d : ℕ) (x y : Codes) → lacks d (x ++ y) ≡ lacks d x && lacks d y
lacks-append d [] y = refl
lacks-append d (c ∷ x) y = ground (arith, lacks-append d x y)

last_segment_lem : (x : Codes) → lacks b'/' x ≡ true → last_segment x ≡ x
unfolding last_segment
last_segment_lem [] h = refl
last_segment_lem (c ∷ x) h = ground arith

pub last_segment-append :
    (x id : Codes) → lacks b'/' id ≡ true → last_segment (x ++ (b'/' ∷ id)) ≡ id
unfolding last_segment
last_segment-append [] id h = last_segment_lem id h
last_segment-append (c ∷ x) id h =
    ground (arith, last_segment-append x id h, lacks-append b'/' x (b'/' ∷ id))

named_lem :
    (group : Codes) (t : ModuleType) (x id : Codes)
    → x ≢ []
    → lacks b'\n' x ≡ true
    → last_segment x ≡ id
    → named group t (some x) ≡ some (t, group, id)
unfolding named
named_lem group t [] id f n l = absurd (f refl)
named_lem group t (c ∷ x) id f n l = rw (n, l)

stem_lem : (x : Codes) → stem (x ++ codes ".c") ≡ some x
unfolding stem
stem_lem x = ground (arith, before_end-append x)

-- Behind the group, the three directories.
in_batch :
    (c : ℕ) (group id : Codes)
    → IsName id
    → in_group (c ∷ group, codes "/src/batch/" ++ (id ++ codes ".c")) ≡ some (batch, c ∷ group, id)
unfolding in_group
in_batch c group id n =
    rw (stem_lem id)
      (named_lem (c ∷ group) batch id id n.filled n.no_newline (last_segment_lem id n.no_slash))

in_module :
    (c : ℕ) (group id : Codes)
    → IsName id
    → in_group (c ∷ group, codes "/src/module/" ++ (id ++ codes ".c")) ≡ some (biz, c ∷ group, id)
unfolding in_group
in_module c group id n =
    rw (stem_lem id)
      (named_lem (c ∷ group) biz id id n.filled n.no_newline (last_segment_lem id n.no_slash))

append_filled : (x y : Codes) → x ++ (b'/' ∷ y) ≢ []
append_filled [] y h = cc
append_filled (c ∷ x) y h = cc

in_service :
    (c : ℕ) (group id : Codes)
    → IsName id
    → in_group (c ∷ group, codes "/src/serviceModule/" ++ (id ++ (codes "/" ++ (id ++ codes ".c"))))
      ≡ some (service, c ∷ group, id)
unfolding in_group
in_service c group id n =
    let inner = id ++ (b'/' ∷ id) in
    ap (λ x. named (c ∷ group) service (stem x)) (sym (append_assoc id (b'/' ∷ id) (codes ".c")))
    ∙ ap (named (c ∷ group) service) (stem_lem inner)
    ∙ named_lem (c ∷ group) service inner id (append_filled id id)
        (ground (arith, lacks-append b'\n' id (b'/' ∷ id), n.no_newline))
        (last_segment-append id id n.no_slash)

parse-below_group :
    (c : ℕ) (group rel : Codes)
    → lacks b'/' (c ∷ group) ≡ true
    → parse_module_path (below_group (c ∷ group) rel) ≡ in_group (c ∷ group, codes "/src/" ++ rel)
unfolding parse_module_path
parse-below_group c group rel h =
    ap in_group (span-append (λ d. not (eqb d b'/')) (c ∷ group) b'/' (codes "src/" ++ rel) h refl)

ok_inj : (a b : Codes) → ok a ≡ ok b → b ≡ a
ok_inj a b h = cc

-- From the path of a module with a name in a group with a name, its type, group and ID come back.
pub parse_module_path-module_path :
    (t : ModuleType) (group id path : Codes)
    → IsName group
    → IsName id
    → module_path t group id ≡ ok path
    → parse_module_path path ≡ some (t, group, id)
unfolding parse_module_path module_path
parse_module_path-module_path t [] id path g n h = absurd (g.filled refl)
parse_module_path-module_path service (c ∷ group) id path g n h =
    ap parse_module_path (ok_inj _ path h)
    ∙ parse-below_group c group _ g.no_slash
    ∙ in_service c group id n
parse_module_path-module_path batch (c ∷ group) id path g n h =
    ap parse_module_path (ok_inj _ path h)
    ∙ parse-below_group c group _ g.no_slash
    ∙ in_batch c group id n
parse_module_path-module_path biz (c ∷ group) id path g n h =
    ap parse_module_path (ok_inj _ path h)
    ∙ parse-below_group c group _ g.no_slash
    ∙ in_module c group id n
parse_module_path-module_path dbio (c ∷ group) id path g n h = cc

-- What stands before a slash does not matter for the last segment.
last_segment-skip : (x y : Codes) → lacks b'/' y ≡ false → last_segment (x ++ y) ≡ last_segment y
unfolding last_segment
last_segment-skip [] y h = refl
last_segment-skip (c ∷ x) y h = ground (arith, last_segment-skip x y h, lacks-append b'/' x y)

pub last_segment-below_group :
    (group rel : Codes)
    → lacks b'/' rel ≡ false
    → last_segment (below_group group rel) ≡ last_segment rel
last_segment-below_group group rel h =
    last_segment-skip compile_root (codes "/" ++ (group ++ (codes "/src/" ++ rel))) refl
    ∙ last_segment-skip (codes "/") (group ++ (codes "/src/" ++ rel))
        (ground (arith, lacks-append b'/' group (codes "/src/" ++ rel)))
    ∙ last_segment-skip group (codes "/src/" ++ rel) refl
    ∙ last_segment-skip (codes "/src/") rel h

last_segment_file :
    (front id : Codes)
    → lacks b'/' id ≡ true
    → last_segment (front ++ (codes "/" ++ (id ++ codes ".c"))) ≡ id ++ codes ".c"
last_segment_file front id h =
    last_segment-append front (id ++ codes ".c") (ground (arith, lacks-append b'/' id (codes ".c")))

-- The last segment of the path of a module is its ID with `.c`.
pub last_segment-module_path :
    (t : ModuleType) (group id path : Codes)
    → lacks b'/' id ≡ true
    → module_path t group id ≡ ok path
    → last_segment path ≡ id ++ codes ".c"
unfolding module_path
last_segment-module_path service group id path n h =
    ap last_segment (ok_inj _ path h)
    ∙ last_segment-below_group group
        (codes "serviceModule" ++ (codes "/" ++ (id ++ (codes "/" ++ (id ++ codes ".c"))))) refl
    ∙ last_segment-skip (codes "serviceModule/") (id ++ (codes "/" ++ (id ++ codes ".c")))
        (ground (arith, lacks-append b'/' id (codes "/" ++ (id ++ codes ".c"))))
    ∙ last_segment_file id id n
last_segment-module_path batch group id path n h =
    ap last_segment (ok_inj _ path h)
    ∙ last_segment-below_group group (codes "batch" ++ (codes "/" ++ (id ++ codes ".c"))) refl
    ∙ last_segment_file (codes "batch") id n
last_segment-module_path biz group id path n h =
    ap last_segment (ok_inj _ path h)
    ∙ last_segment-below_group group (codes "module" ++ (codes "/" ++ (id ++ codes ".c"))) refl
    ∙ last_segment_file (codes "module") id n
last_segment-module_path dbio group id path n h = cc
