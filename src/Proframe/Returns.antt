-- ===== src/Proframe/Returns.antt =====
-- What a whole C function guarantees, and how its guarantees compose over `PFM_TRY`.
use no_gada_automation.Base.{◌≢◌, arith}
use no_gada_automation.Proframe.Monad.{
  Rc, nrm, nfd, dup, err, other, Pfm, IsLawful, Machine, Outcome, next, return, wild, hung, M, Exit,
  returned, crashed, stuck, Proc, ◌>>◌, body, pfm_try,
}
use no_gada_automation.Proframe.Cursor.Rule.{Ensures, Ensures-bind}

-- It returns a code with `R`, without an access outside an array and within its fuel.
abbrev pub Returns :
    {P : Pfm} {F : Type 0} → (Rc → Machine P F → Type 0) → Exit × Machine P F → Type 0
Returns R (returned rc, m) = R rc m
Returns R (crashed, m) = ⊥
Returns R (stuck, m) = ⊥

pub Returns-weaken :
    {P : Pfm} {F : Type 0} (R R' : Rc → Machine P F → Type 0) (r : Exit × Machine P F)
    → Returns R r
    → ((rc : Rc) (m : Machine P F) → R rc m → R' rc m)
    → Returns R' r
Returns-weaken R R' (returned rc, m) h f = f rc m h
Returns-weaken R R' (crashed, m) h f = absurd h
Returns-weaken R R' (stuck, m) h f = absurd h

module _ {P : Pfm} {F : Type 0} (R : Rc → Machine P F → Type 0) where
  -- The body of a function returns `RC_NRM` at its end.
  pub body-Returns :
      (c : M P F (Unit {0})) (m : Machine P F)
      → Ensures (λ _ m'. R nrm m') R (c m)
      → Returns R (body c m)
  body-Returns c m h = after (c m) h
    where
      after :
          (r : Outcome (Unit {0}) × Machine P F)
          → Ensures (λ _ m'. R nrm m') R r
          → Returns R (body (λ _. r) m)
      after (next a, m') h = h
      after (return rc, m') h = h
      after (wild, m') h = h
      after (hung, m') h = h

  -- A guarded call goes on after `RC_NRM`, and leaves with every other code.
  pub pfm_try-Ensures :
      (L : IsLawful P) (R' : Rc → Machine P F → Type 0) (f : Proc P F) (m : Machine P F)
      → Returns R (f m)
      → ((rc : Rc) (m' : Machine P F) → rc ≢ nrm → R rc m' → R' rc m')
      → Ensures (λ _ m'. R nrm m') R' (pfm_try f m)
  pfm_try-Ensures L R' f m h fails = after (f m) h
    where
      after :
          (r : Exit × Machine P F)
          → Returns R r
          → Ensures (λ _ m'. R nrm m') R' (pfm_try (λ _. r) m)
      after (returned nrm, m') h = rw L.goes_on h
      after (returned nfd, m') h =
          let ne : nfd ≢ nrm = ground arith in rw (L.jumps nfd ne) (fails nfd m' ne h)
      after (returned dup, m') h =
          let ne : dup ≢ nrm = ground arith in rw (L.jumps dup ne) (fails dup m' ne h)
      after (returned err, m') h =
          let ne : err ≢ nrm = ground arith in rw (L.jumps err ne) (fails err m' ne h)
      after (returned (other n), m') h =
          let ne : other n ≢ nrm = ground arith in
          rw (L.jumps (other n) ne) (fails (other n) m' ne h)
      after (crashed, m') h = h
      after (stuck, m') h = h

  -- A guarded call and what follows it.
  pub pfm_try-then :
      (L : IsLawful P) (Q' : Unit {0} → Machine P F → Type 0) (R' : Rc → Machine P F → Type 0)
      (f : Proc P F) (rest : M P F (Unit {0})) (m : Machine P F)
      → Returns R (f m)
      → ((rc : Rc) (m' : Machine P F) → rc ≢ nrm → R rc m' → R' rc m')
      → ((m' : Machine P F) → R nrm m' → Ensures Q' R' (rest m'))
      → Ensures Q' R' ((pfm_try f >> rest) m)
  pfm_try-then L Q' R' f rest m h fails more =
      Ensures-bind (λ _ m'. R nrm m') Q' R' (pfm_try f) (λ _. rest) m
        (pfm_try-Ensures L R' f m h fails) (λ _ m' r. more m' r)
