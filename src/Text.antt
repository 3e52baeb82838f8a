-- ===== src/Text.antt =====
-- Texts of app/ as lists of code points, as in Python's `str`, and sets of texts, kept sorted and
-- without repetition, so that `sorted` of a set is the set.
use no_gada_automation.Base.{
  ℕ, ◌≡◌, refl, ◌↔◌, Bool, true, false, ◌&&◌, ◌||◌, List, [], ◌∷◌, Option, none, some, String, eqb,
  arith, ◌++◌, if◌then◌else◌,
}
use Prim.Native.Nat.{compare, Ordering}
use Prim.Native.Char.{code}

abbrev pub Codes : Type 0
Codes = List ℕ

-- Unicode's general categories, as far as app/ asks for them.
pub data Category : Type 0 where
  format_char space_separator other_category : Category

-- What Python knows of characters: `\w`, `\s` and `\d` of `re`, the blanks of `str.strip`, `str.upper`
-- and `unicodedata.category`.
pub record Python : Type 0 where
  pub is_word : ℕ → Bool
  pub is_space : ℕ → Bool
  pub is_digit : ℕ → Bool
  pub is_blank : ℕ → Bool
  pub upper : Codes → Codes
  pub category : ℕ → Category

-- The code points of a literal.
abbrev pub codes : String → Codes
codes String.[] = []
codes (String.◌∷◌ c s) = code c ∷ codes s

abbrev pub same : Codes → Codes → Bool
same [] [] = true
same [] (d ∷ ds) = false
same (c ∷ cs) [] = false
same (c ∷ cs) (d ∷ ds) = eqb c d && same cs ds

-- The order of two texts.
abbrev pub order : Codes → Codes → Ordering
order [] [] = Ordering.eq
order [] (d ∷ ds) = Ordering.lt
order (c ∷ cs) [] = Ordering.gt
order (c ∷ cs) (d ∷ ds) =
    let rest = order cs ds in
    elim (compare c d) [
      | Ordering.eq ↦ rest
      | Ordering.lt ↦ Ordering.lt
      | Ordering.gt ↦ Ordering.gt
    ]

-- `x in xs`
abbrev pub mem : Codes → List Codes → Bool
mem x [] = false
mem x (y ∷ ys) = same x y || mem x ys

-- `s.add(x)`
unfoldable pub add : Codes → List Codes → List Codes
add x [] = x ∷ []
add x (y ∷ ys) =
    let rest = add x ys in
    elim (order x y) [ Ordering.lt ↦ x ∷ y ∷ ys | Ordering.eq ↦ y ∷ ys | Ordering.gt ↦ y ∷ rest ]

-- `s.update(xs)`
unfoldable pub update : List Codes → List Codes → List Codes
update [] s = s
update (x ∷ xs) s = update xs (add x s)

-- What is behind a literal text, if the rest begins with it.
unfoldable pub behind : Codes → Codes → Option Codes
behind [] text = some text
behind (c ∷ cs) [] = none
behind (c ∷ cs) (d ∷ ds) = let rest = behind cs ds in if eqb c d then rest else none

-- The longest beginning of which each character has the property, and the rest.
unfoldable pub span : (ℕ → Bool) → Codes → Codes × Codes
span p [] = ([], [])
span p (c ∷ cs) = let (run, rest) = span p cs in if p c then (c ∷ run, rest) else ([], c ∷ cs)

pub same_iff : (x y : Codes) → (same x y ≡ true) ↔ (x ≡ y)
same_iff [] [] = ((λ _. refl), (λ _. refl))
same_iff [] (d ∷ ds) = ((λ h. cc), (λ h. cc))
same_iff (c ∷ cs) [] = ((λ h. cc), (λ h. cc))
same_iff (c ∷ cs) (d ∷ ds) =
    ((λ h. ground (arith, same_iff cs ds)), (λ h. ground (arith, same_iff cs ds)))

same-order : (x y : Codes) → order x y ≡ Ordering.eq → x ≡ y
same-order [] [] h = refl
same-order [] (d ∷ ds) h = cc
same-order (c ∷ cs) [] h = cc
same-order (c ∷ cs) (d ∷ ds) h = ground (arith, same-order cs ds)

pub mem-add : (z x : Codes) (s : List Codes) → mem z (add x s) ≡ same z x || mem z s
unfolding add
mem-add z x [] = refl
mem-add z x (y ∷ ys) = ground (arith, mem-add z x ys, same-order x y)

pub mem-append : (x : Codes) (xs ys : List Codes) → mem x (xs ++ ys) ≡ mem x xs || mem x ys
mem-append x [] ys = refl
mem-append x (y ∷ xs) ys = ground (arith, mem-append x xs ys)

pub mem-update : (z : Codes) (xs s : List Codes) → mem z (update xs s) ≡ mem z xs || mem z s
unfolding update
mem-update z [] s = refl
mem-update z (x ∷ xs) s = ground (arith, mem-update z xs (add x s), mem-add z x s)

pub behind-append : (x text : Codes) → behind x (x ++ text) ≡ some text
unfolding behind
behind-append [] text = refl
behind-append (c ∷ x) text = ground (arith, behind-append x text)

abbrev pub all : (ℕ → Bool) → Codes → Bool
all p [] = true
all p (c ∷ cs) = p c && all p cs

-- A run ends where the property does.
pub span-append :
    (p : ℕ → Bool) (x : Codes) (c : ℕ) (text : Codes)
    → all p x ≡ true
    → p c ≡ false
    → span p (x ++ (c ∷ text)) ≡ (x, c ∷ text)
unfolding span
span-append p [] c text h e = ground arith
span-append p (d ∷ x) c text h e = ground (arith, span-append p x c text)

abbrev drop_blank : (ℕ → Bool) → Codes → Codes
drop_blank p [] = []
drop_blank p (c ∷ cs) = let rest = drop_blank p cs in if p c then rest else c ∷ cs

-- The blanks at the end: a character stays if one that is no blank follows.
abbrev drop_blank_end : (ℕ → Bool) → Codes → Codes
drop_blank_end p [] = []
drop_blank_end p (c ∷ cs) =
    let rest = drop_blank_end p cs in if p c && same rest [] then [] else c ∷ rest

-- `str.strip`
unfoldable pub strip : Python → Codes → Codes
strip Py x = drop_blank Py.is_blank (drop_blank_end Py.is_blank x)
