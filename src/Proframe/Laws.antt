-- ===== src/Proframe/Laws.antt =====
-- How `PFM_TRY` composes with the functions that it calls, over a lawful runtime.
use no_gada_automation.Base.{◌≡◌, ◌∙◌, ◌≢◌, refl, Bool, if◌then◌else◌, true, false, arith}
use no_gada_automation.Proframe.Monad.{
  Rc, nrm, nfd, dup, err, other, Pfm, IsLawful, Machine, return, M, Exit, returned, crashed, stuck,
  Proc, ◌>>◌, pure, body, pfm_try,
}

module _ {P : Pfm} (L : IsLawful P) {F : Type 0} where
  -- A function whose body is one guarded call behaves as its callee.
  pub body-pfm_try : (f : Proc P F) (m : Machine P F) → body (pfm_try f) m ≡ f m
  body-pfm_try f m = after-pfm_try (f m)
    where
      after-pfm_try : (r : Exit × Machine P F) → body (pfm_try (λ _. r)) m ≡ r
      after-pfm_try (returned nrm, m') = ground (arith, L.goes_on)
      after-pfm_try (returned nfd, m') = ground (arith, L.jumps nfd)
      after-pfm_try (returned dup, m') = ground (arith, L.jumps dup)
      after-pfm_try (returned err, m') = ground (arith, L.jumps err)
      after-pfm_try (returned (other n), m') = ground (arith, L.jumps (other n))
      after-pfm_try (crashed, m') = refl
      after-pfm_try (stuck, m') = refl

  -- A choice between two guarded calls, whose results are known.
  pub body-if_pfm_try :
      (c : Bool) (f g : Proc P F) (m : Machine P F) {r s : Exit × Machine P F}
      → f m ≡ r
      → g m ≡ s
      → body (if c then pfm_try f else pfm_try g) m ≡ (if c then r else s)
  body-if_pfm_try true f g m p q = body-pfm_try f m ∙ p
  body-if_pfm_try false f g m p q = body-pfm_try g m ∙ q

  -- The outermost function of a module whose first two steps and last step are empty.
  pub body-main_step :
      (f : Proc P F) (m : Machine P F)
      → body
          (do
            pfm_try (body (pure tt))
            pfm_try (body (pure tt))
            pfm_try f
            pfm_try (body (pure tt)))
          m
        ≡ f m
  body-main_step f m = around (f m)
    where
      around :
          (r : Exit × Machine P F)
          → body
              (do
                pfm_try (body (pure tt))
                pfm_try (body (pure tt))
                pfm_try (λ _. r)
                pfm_try (body (pure tt)))
              m
            ≡ r
      around (returned nrm, m') = ground (arith, L.goes_on)
      around (returned nfd, m') = ground (arith, L.goes_on, L.jumps nfd)
      around (returned dup, m') = ground (arith, L.goes_on, L.jumps dup)
      around (returned err, m') = ground (arith, L.goes_on, L.jumps err)
      around (returned (other n), m') = ground (arith, L.goes_on, L.jumps (other n))
      around (crashed, m') = ground (arith, L.goes_on)
      around (stuck, m') = ground (arith, L.goes_on)

  -- A guarded call that ended with `RC_NRM` goes on behind it.
  pub pfm_try-nrm :
      {A : Type 0} (f : Proc P F) (rest : M P F A) (m m' : Machine P F)
      → f m ≡ (returned nrm, m')
      → (pfm_try f >> rest) m ≡ rest m'
  pfm_try-nrm f rest m m' e = ground (arith, L.goes_on)

  -- One that ended with another code leaves the caller with that code.
  pub pfm_try-ne_nrm :
      {A : Type 0} (f : Proc P F) (rest : M P F A) (m m' : Machine P F) (rc : Rc)
      → rc ≢ nrm
      → f m ≡ (returned rc, m')
      → (pfm_try f >> rest) m ≡ (return rc, m')
  pfm_try-ne_nrm f rest m m' rc ne e = ground (arith, L.jumps rc ne)

-- A code at which the caller jumps is not `RC_NRM`.
pub jumps-ne_nrm : {P : Pfm} (L : IsLawful P) (rc : Rc) → P.try_jumps rc ≡ true → rc ≢ nrm
jumps-ne_nrm {P} L rc jump e =
    absurd (let l = L.goes_on in let j : P.try_jumps nrm ≡ true = rw (← e) jump in cc)
