-- ===== src/Sample.antt =====
-- A small runtime and its proof of lawfulness, for the examples and the tests.
use no_gada_automation.Base.{ℕ, ◌*◌, negsuc, Bool, true, false, ◌≡◌, ◌≢◌, refl, none, []}
use no_gada_automation.Proframe.{Rc, nrm, nfd, dup, err, other, Pfm, IsLawful, Machine}

abbrev pub jumps_at : Rc → Bool
jumps_at nrm = false
jumps_at _ = true

-- Numbers in hundredths are taken as they are; no call of the runtime fails.
abbrev pub runtime : (W : Type 0) → (W → ℕ) → Pfm
runtime W count = record {
  World = W;
  try_jumps = jumps_at;
  errornum = λ _. negsuc 1402;
  errorstr = λ _. "no data";
  recnum = count;
  chk_fail = λ _. false;
  Num = ℕ;
  num_bzero = 0;
  num_zero = 0;
  num_from_long = λ n. (nrm, n);
  num_calc = λ _ v. (nrm, v * 100);
  num_round_at = λ v _. (nrm, v);
  dl_load = λ _ _. none;
}

jumps_lem : (rc : Rc) → rc ≢ nrm → jumps_at rc ≡ true
jumps_lem nrm ne = absurd (ne refl)
jumps_lem nfd ne = refl
jumps_lem dup ne = refl
jumps_lem err ne = refl
jumps_lem (other n) ne = refl

pub runtime-IsLawful : (W : Type 0) (count : W → ℕ) → IsLawful (runtime W count)
runtime-IsLawful W count = record { goes_on = refl; jumps = jumps_lem }

-- A runtime whose state is the number of calls of the database so far.
abbrev pub counting : Pfm
counting = runtime ℕ (λ _. 0)

abbrev pub start : {F : Type 0} → F → Machine counting F
start f = record { frame = f; world = 0; log = [] }
