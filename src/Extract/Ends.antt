-- ===== src/Extract/Ends.antt =====
-- The IDs that are not visited grow fewer.
use no_gada_automation.Base.{
  ℕ, suc, ◌≤◌, ◌<◌, ◌≡◌, inl, inr, true, false, List, [], ◌∷◌, arith, length, if◌then◌else◌,
  Bool-cases,
}
use no_gada_automation.Text.{Codes, mem, same, same_iff}
use no_gada_automation.Extract.Spec.{Within}

-- How many IDs of a list are not visited.
pub unvisited : List Codes → List Codes → ℕ
unvisited [] v = 0
unvisited (x ∷ xs) v = let rest = unvisited xs v in if mem x v then rest else suc rest

pub unvisited-le-length : (xs v : List Codes) → unvisited xs v ≤ length xs
unfolding unvisited
unvisited-le-length [] v = omega arith
unvisited-le-length (x ∷ xs) v = ground (arith, unvisited-le-length xs v)

pub unvisited_anti : (xs v v' : List Codes) → Within v v' → unvisited xs v' ≤ unvisited xs v
unfolding unvisited
unvisited_anti [] v v' w = omega arith
unvisited_anti (x ∷ xs) v v' w = ground (arith, w x, unvisited_anti xs v v' w)

Within-cons : (y : Codes) (v : List Codes) → Within v (y ∷ v)
Within-cons y v x h = ground arith

pub unvisited-cons :
    (xs v : List Codes) (y : Codes)
    → mem y xs ≡ true
    → mem y v ≡ false
    → unvisited xs (y ∷ v) < unvisited xs v
unfolding unvisited
unvisited-cons [] v y m h = cc
unvisited-cons (x ∷ xs) v y m h = elim (Bool-cases (same y x)) [
  | inl e ↦
      let here : y ≡ x = (same_iff y x).0 e in
      let fewer = unvisited_anti xs v (y ∷ v) (Within-cons y v) in
      rw (← here) (ground (arith, fewer, same_iff y y))
  | inr other ↦
      let fewer = unvisited_anti xs v (y ∷ v) (Within-cons y v) in
      ground (arith, unvisited-cons xs v y, fewer)
]
