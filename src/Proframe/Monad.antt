-- ===== src/Proframe/Monad.antt =====
-- Return codes, messages, and the monad of a C function: it may go on, return a code, or run into
-- an access outside an array; a loop may use up its fuel.
use no_gada_automation.Base.{
  ℕ, ℤ, String, Bool, true, false, ◌≡◌, ◌≢◌, Option, none, some, List, ◌∷◌, if◌then◌else◌,
}

-- `RC_NRM`, `RC_NFD`, `RC_DUP`, `RC_ERR`, and any other value of a `long rc`.
pub data Rc : Type 0 where
  nrm nfd dup err : Rc
  other : ℕ → Rc

pub data Arg : Type 0 where
  num : ℤ → Arg
  text : String → Arg

-- The calls that leave something behind outside the program's own variables.
pub data Event : Type 0 where
  set_msg : String → List Arg → Event
  set_err : String → List Arg → Event
  set_add_err : String → List Arg → Event
  msgq : ℕ → Event
  set_err_attr : ℕ → Event
  -- `pfmDbioOpenCursorArray` and its code; `pfmDbioCloseCursorArray`
  opened : String → Rc → Event
  closed : String → Event

-- The runtime: the unknown state behind it, and what its macros read of that state.
pub record Pfm : Type 1 where
  pub World : Type 0
  -- whether `PFM_TRY` jumps to `PFM_CATCH` at a return code
  pub try_jumps : Rc → Bool
  -- `PDB_ERRORNUM`, `PDB_ERRORSTR`, `PDB_RECNUM`, `PDB_CHK_FAIL`
  pub errornum : World → ℤ
  pub errorstr : World → String
  pub recnum : World → ℕ
  pub chk_fail : World → Bool
  -- `PfmNumber`, cleared by `bzero`, `PFMNUM_ZERO`, and the functions that return a code and a number
  pub Num : Type 0
  pub num_bzero : Num
  pub num_zero : Num
  pub num_from_long : ℕ → Rc × Num
  pub num_calc : String → Num → Rc × Num
  pub num_round_at : Num → ℕ → Rc × Num
  -- `pfmDlCall` before the callee runs: `none`, or the code of a failed load
  pub dl_load : String → World → Option Rc

-- `PFM_TRY` goes on after `RC_NRM`, and jumps after every other code.
pub record IsLawful (P : Pfm) : Type 0 where
  pub goes_on : P.try_jumps nrm ≡ false
  pub jumps : (rc : Rc) → rc ≢ nrm → P.try_jumps rc ≡ true

-- `frame` holds the variables of one module: its output structure and its context's own fields.
-- The events stand latest first.
pub record Machine (P : Pfm) (F : Type 0) : Type 0 where
  pub frame : F
  pub world : P.World
  pub log : List Event

pub data Outcome (A : Type 0) : Type 0 where
  next : A → Outcome A
  return : Rc → Outcome A
  -- a read or write outside an array
  wild : Outcome A
  -- the model's fuel is used up
  hung : Outcome A

abbrev pub M : Pfm → Type 0 → Type 0 → Type 0
M P F A = Machine P F → Outcome A × Machine P F

-- A C function: it ends with a code, in an undefined access, or without fuel.
pub data Exit : Type 0 where
  returned : Rc → Exit
  crashed stuck : Exit

abbrev pub Proc : Pfm → Type 0 → Type 0
Proc P F = Machine P F → Exit × Machine P F

infixl 5 ◌>>=◌ ◌>>◌
abbrev pub ◌>>=◌ : {P : Pfm} {F A B : Type 0} → M P F A → (A → M P F B) → M P F B
◌>>=◌ c f m =
    let (o, m') = c m in
    elim o [ next a ↦ f a m' | return rc ↦ (return rc, m') | wild ↦ (wild, m') | hung ↦ (hung, m') ]

abbrev pub ◌>>◌ : {P : Pfm} {F B : Type 0} → M P F (Unit {0}) → M P F B → M P F B
c >> d = c >>= λ _. d

abbrev pub pure : {P : Pfm} {F A : Type 0} → A → M P F A
pure a m = (next a, m)

-- `return rc;`
abbrev pub leave : {P : Pfm} {F A : Type 0} → Rc → M P F A
leave rc m = (return rc, m)

abbrev pub get : {P : Pfm} {F : Type 0} → M P F F
get m = (next m.frame, m)

abbrev pub modify : {P : Pfm} {F : Type 0} → (F → F) → M P F (Unit {0})
modify f m = (next tt, record m { frame = f m.frame })

abbrev pub emit : {P : Pfm} {F : Type 0} → Event → M P F (Unit {0})
emit e m = (next tt, record m { log = e ∷ m.log })

-- What a macro such as `PDB_ERRORNUM` reads.
abbrev pub reads : {P : Pfm} {F A : Type 0} → (P.World → A) → M P F A
reads f m = (next (f m.world), m)

-- A call of the runtime, which changes its state.
abbrev pub call : {P : Pfm} {F A : Type 0} → (P.World → A × P.World) → M P F A
call f m = let (a, w) = f m.world in (next a, record m { world = w })

-- The body of a function up to its last `return RC_NRM;`.
abbrev pub body : {P : Pfm} {F : Type 0} → M P F (Unit {0}) → Proc P F
body c m =
    let (o, m') = c m in
    elim o [
      | next _ ↦ (returned nrm, m')
      | return rc ↦ (returned rc, m')
      | wild ↦ (crashed, m')
      | hung ↦ (stuck, m')
    ]

-- `PFM_TRY(f(context));` the label `PFM_CATCH` returns the code.
abbrev pub pfm_try : {P : Pfm} {F : Type 0} → Proc P F → M P F (Unit {0})
pfm_try {P} f m =
    let (x, m') = f m in
    elim x [
      | returned rc ↦ ((if P.try_jumps rc then return rc else next tt), m')
      | crashed ↦ (wild, m')
      | stuck ↦ (hung, m')
    ]

-- `PFM_TRYNJ(pfmDlCall(name, name, &in, &out));` with the callee's variables as they start.
abbrev pub dl_call : {P : Pfm} {F G : Type 0} → String → Proc P G → G → M P F (Rc × G)
dl_call {P} name f g m = elim (P.dl_load name m.world) [
  | some rc ↦ (next (rc, g), m)
  | none ↦
      let (x, m') = f (record { frame = g; world = m.world; log = m.log }) in
      (
        (elim x [ returned rc ↦ next (rc, m'.frame) | crashed ↦ wild | stuck ↦ hung ]),
        record m { world = m'.world; log = m'.log },
      )
]
