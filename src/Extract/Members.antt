-- ===== src/Extract/Members.antt =====
-- The members of the lists that the extraction grows.
use no_gada_automation.Base.{
  ◌≡◌, ◌⊎◌, inl, inr, refl, sym, ◌∙◌, Bool, true, false, ◌||◌, List, ◌∷◌, ◌++◌, arith,
}
use no_gada_automation.Text.{
  mem-append, Codes, mem, same, same_iff, update, add, mem-update, mem-add,
}
use no_gada_automation.Extract.Spec.{Within}

pub or_cases : (a b : Bool) → (a || b) ≡ true → (a ≡ true) ⊎ (b ≡ true)
or_cases true b h = inl refl
or_cases false b h = inr h

pub mem-append_cases :
    (x : Codes) (xs ys : List Codes)
    → mem x (xs ++ ys) ≡ true
    → (mem x xs ≡ true) ⊎ (mem x ys ≡ true)
mem-append_cases x xs ys h = or_cases (mem x xs) (mem x ys) (sym (mem-append x xs ys) ∙ h)

pub mem-update_cases :
    (x : Codes) (xs s : List Codes)
    → mem x (update xs s) ≡ true
    → (mem x xs ≡ true) ⊎ (mem x s ≡ true)
mem-update_cases x xs s h = or_cases (mem x xs) (mem x s) (sym (mem-update x xs s) ∙ h)

pub mem-cons_cases :
    (x y : Codes) (ys : List Codes) → mem x (y ∷ ys) ≡ true → (x ≡ y) ⊎ (mem x ys ≡ true)
mem-cons_cases x y ys h = elim (or_cases (same x y) (mem x ys) h) [
  | inl e ↦ inl ((same_iff x y).0 e)
  | inr m ↦ inr m
]

pub mem-add_cases :
    (x y : Codes) (ys : List Codes) → mem x (add y ys) ≡ true → (x ≡ y) ⊎ (mem x ys ≡ true)
mem-add_cases x y ys h = mem-cons_cases x y ys (sym (mem-add x y ys) ∙ h)

pub Within-cons : (y : Codes) (ys : List Codes) → Within ys (y ∷ ys)
Within-cons y ys x h = ground arith

pub mem_head : (y : Codes) (ys : List Codes) → mem y (y ∷ ys) ≡ true
mem_head y ys = ground (arith, same_iff y y)

pub Within-append_left : (xs ys : List Codes) → Within xs (xs ++ ys)
Within-append_left xs ys x h = ground (arith, mem-append x xs ys)

pub Within-append_right : (xs ys : List Codes) → Within ys (xs ++ ys)
Within-append_right xs ys x h = ground (arith, mem-append x xs ys)

pub Within-update_left : (xs s : List Codes) → Within xs (update xs s)
Within-update_left xs s x h = ground (arith, mem-update x xs s)

pub Within-update_right : (xs s : List Codes) → Within s (update xs s)
Within-update_right xs s x h = ground (arith, mem-update x xs s)

pub Within-add : (y : Codes) (s : List Codes) → Within s (add y s)
Within-add y s x h = ground (arith, mem-add x y s)

pub mem-add_self : (y : Codes) (s : List Codes) → mem y (add y s) ≡ true
mem-add_self y s = ground (arith, mem-add y y s, same_iff y y)
