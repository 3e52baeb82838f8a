-- ===== src/Source/Lookup.antt =====
-- What the map of groups has for an ID.
use no_gada_automation.Base.{
  ◌≡◌, refl, sym, ap, ◌∙◌, Bool, true, false, not, ◌&&◌, ◌||◌, List, [], ◌∷◌, Option, none, some,
  arith, if◌then◌else◌, Bool-cases, inl, inr,
}
use no_gada_automation.Text.{Codes, same, same_iff}
use no_gada_automation.Refs.{ModuleType, dbio, service, batch, biz, same_type}
use no_gada_automation.Source.{
  Fault, source_not_found, Fetch, ok, raise, ◌>>=◌, or_else, Reader, GroupMap, module_subdir,
  below_group, get, set_default, id_of, starts_with_dot, add_names, add_groups,
}

abbrev pub first_some : Option Codes → Option Codes → Option Codes
first_some (some x) later = some x
first_some none later = later

abbrev pub when : Bool → Codes → Option Codes
when b group = if b then some group else none

-- A directory has a name that stands for the ID.
abbrev pub has : Codes → List Codes → Bool
has id [] = false
has id (name ∷ names) = (not (starts_with_dot name) && same id (id_of name)) || has id names

abbrev pub in_listing : Codes → Fetch (List Codes) → Bool
in_listing id (ok names) = has id names
in_listing id (raise e) = false

abbrev pub subdir_listing : Reader → ModuleType → Codes → Fetch (List Codes)
subdir_listing reader t group = module_subdir t >>= λ sub. reader.listdir (below_group group sub)

same_type→eq : (t u : ModuleType) → same_type t u ≡ true → t ≡ u
same_type→eq dbio u h = ground arith
same_type→eq service u h = ground arith
same_type→eq batch u h = ground arith
same_type→eq biz u h = ground arith

-- Two equal keys are compared with a third alike.
same_key :
    (t u w : ModuleType) (id x y : Codes)
    → (same_type u w && same x y) ≡ true
    → (same_type t u && same id x) ≡ (same_type t w && same id y)
same_key t u w id x y h = ground (arith, same_type→eq u w, same_iff x y)

pub first_some-none : (x : Option Codes) → first_some x none ≡ x
first_some-none none = refl
first_some-none (some a) = refl

first_some-when :
    (x : Option Codes) (k a b : Bool) (group : Codes)
    → first_some (first_some x (when (k && a) group)) (when (k && b) group)
      ≡ first_some x (when (k && (a || b)) group)
first_some-when none false a b group = refl
first_some-when none true true b group = refl
first_some-when none true false b group = refl
first_some-when (some y) k a b group = refl

get-set_default :
    (t u : ModuleType) (id x group : Codes) (m : GroupMap)
    → get t id (set_default u x group m)
      ≡ first_some (get t id m) (when (same_type t u && same id x) group)
unfolding get set_default
get-set_default t u id x group [] = ground arith
get-set_default t u id x group (((w, y), g) ∷ m) = elim (Bool-cases (same_type u w && same x y)) [
  | inl present ↦
      rw present (ground (arith, same_key t u w id x y present, first_some-none (get t id m)))
  | inr absent ↦ rw absent (ground (arith, get-set_default t u id x group m))
]

get-add_names :
    (t u : ModuleType) (id group : Codes) (names : List Codes) (m : GroupMap)
    → get t id (add_names u group names m)
      ≡ first_some (get t id m) (when (same_type t u && has id names) group)
unfolding add_names
get-add_names t u id group [] m = ground (arith, first_some-none (get t id m))
get-add_names t u id group (name ∷ names) m = elim (Bool-cases (starts_with_dot name)) [
  | inl dot ↦ rw dot (get-add_names t u id group names m)
  | inr plain ↦ rw plain (
      get-add_names t u id group names (set_default u (id_of name) group m)
      ∙ ap (λ g. first_some g (when (same_type t u && has id names) group))
          (get-set_default t u id (id_of name) group m)
      ∙ first_some-when (get t id m) (same_type t u) (same id (id_of name)) (has id names) group)
]

-- The first of the groups whose directory has the ID.
abbrev pub first_lister : Reader → ModuleType → Codes → List Codes → Option Codes
first_lister reader t id [] = none
first_lister reader t id (group ∷ groups) =
    let rest = first_lister reader t id groups in
    if in_listing id (subdir_listing reader t group) then some group else rest

abbrev pub if_same : ModuleType → ModuleType → Option Codes → Option Codes
if_same t u x = if same_type t u then x else none

pub ok_inj {ℓ} : {A : Type ℓ} (a b : A) → ok a ≡ ok b → a ≡ b
ok_inj a b h = cc

pub ok_not_raise {ℓ} : {A : Type ℓ} (e : Fault) (a : A) → raise e ≡ ok a → ⊥
ok_not_raise e a h = cc

pub >>=-eq-ok :
    (r : Fetch GroupMap) (f : GroupMap → Fetch GroupMap) {m : GroupMap}
    → (r >>= f) ≡ ok m
    → (m₁ : GroupMap) × (r ≡ ok m₁) × (f m₁ ≡ ok m)
>>=-eq-ok (ok m₁) f h = (m₁, refl, h)
>>=-eq-ok (raise e) f h = cc

then_rest :
    (x rest : Option Codes) (k a : Bool) (group : Codes)
    → first_some (first_some x (when (k && a) group)) (if k then rest else none)
      ≡ first_some x (if k then (if a then some group else rest) else none)
then_rest x rest false a group = ap (λ y. first_some y none) (first_some-none x)
then_rest none rest true true group = refl
then_rest none rest true false group = refl
then_rest (some y) rest true a group = refl

-- One group of the loop.
listing_lem :
    (t u : ModuleType) (id group : Codes) (r : Fetch (List Codes)) (m m' : GroupMap)
    → or_else (r >>= λ names. ok (add_names u group names m)) (ok m) ≡ ok m'
    → get t id m' ≡ first_some (get t id m) (when (same_type t u && in_listing id r) group)
listing_lem t u id group (ok names) m m' h =
    ap (get t id) (sym (ok_inj (add_names u group names m) m' h))
    ∙ get-add_names t u id group names m
listing_lem t u id group (raise source_not_found) m m' h =
    ground (arith, ok_inj m m' h, first_some-none (get t id m))
listing_lem t u id group (raise e) m m' h = absurd (ok_not_raise e m' h)

-- One group and those behind it.
groups_lem :
    (t u : ModuleType) (id group : Codes) (r : Fetch (List Codes)) (rest : Option Codes)
    (m m' : GroupMap) (go : GroupMap → Fetch GroupMap)
    → ((m₁ : GroupMap) → go m₁ ≡ ok m' → get t id m' ≡ first_some (get t id m₁) (if_same t u rest))
    → (or_else (r >>= λ names. ok (add_names u group names m)) (ok m) >>= go) ≡ ok m'
    → get t id m'
      ≡ first_some (get t id m) (if_same t u (if in_listing id r then some group else rest))
groups_lem t u id group r rest m m' go later h =
    let (m₁, here, behind) =
      >>=-eq-ok (or_else (r >>= λ names. ok (add_names u group names m)) (ok m)) go h in
    later m₁ behind
    ∙ ap (λ x. first_some x (if_same t u rest)) (listing_lem t u id group r m m₁ here)
    ∙ then_rest (get t id m) rest (same_type t u) (in_listing id r) group

pub get-add_groups :
    (reader : Reader) (t u : ModuleType) (id : Codes) (groups : List Codes) (m m' : GroupMap)
    → add_groups reader u groups m ≡ ok m'
    → get t id m' ≡ first_some (get t id m) (if_same t u (first_lister reader u id groups))
unfolding add_groups
get-add_groups reader t u id [] m m' h = ground (arith, ok_inj m m' h, first_some-none (get t id m))
get-add_groups reader t dbio id (group ∷ groups) m m' h = cc
get-add_groups reader t service id (group ∷ groups) m m' h =
    groups_lem t service id group _ _ m m' (add_groups reader service groups)
      (λ m₁. get-add_groups reader t service id groups m₁ m') h
get-add_groups reader t batch id (group ∷ groups) m m' h =
    groups_lem t batch id group _ _ m m' (add_groups reader batch groups)
      (λ m₁. get-add_groups reader t batch id groups m₁ m') h
get-add_groups reader t biz id (group ∷ groups) m m' h =
    groups_lem t biz id group _ _ m m' (add_groups reader biz groups)
      (λ m₁. get-add_groups reader t biz id groups m₁ m') h
