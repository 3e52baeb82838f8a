-- ===== src/Proframe/Cursor/Ensures.antt =====
-- What a part of a function guarantees, and what a cursor is known to do.
use no_gada_automation.Base.{
  ℕ, ◌+◌, ◌≤◌, ◌<◌, ◌≡◌, ◌≢◌, Bool, true, false, List, [], length, take, drop,
}
use no_gada_automation.Proframe.Monad.{
  Rc, nrm, nfd, Pfm, Machine, Outcome, next, return, wild, hung, M, ◌>>=◌,
}

-- What a part of a function guarantees: it goes on with `Q` or leaves with `R`; it makes no access
-- outside an array, and its fuel suffices.
abbrev pub Ensures :
    {P : Pfm} {F A : Type 0}
    → (A → Machine P F → Type 0)
    → (Rc → Machine P F → Type 0)
    → Outcome A × Machine P F
    → Type 0
Ensures Q R (next a, m) = Q a m
Ensures Q R (return rc, m) = R rc m
Ensures Q R (wild, m) = ⊥
Ensures Q R (hung, m) = ⊥

pub Ensures-bind :
    {P : Pfm} {F A B : Type 0} (Q : A → Machine P F → Type 0) (Q' : B → Machine P F → Type 0)
    (R : Rc → Machine P F → Type 0) (c : M P F A) (f : A → M P F B) (m : Machine P F)
    → Ensures Q R (c m)
    → ((a : A) (m' : Machine P F) → Q a m' → Ensures Q' R (f a m'))
    → Ensures Q' R ((c >>= f) m)
Ensures-bind {P} {F} {A} {B} Q Q' R c f m h k = after (c m) h
  where
    after : (r : Outcome A × Machine P F) → Ensures Q R r → Ensures Q' R (((λ _. r) >>= f) m)
    after (next a, m') h = k a m' h
    after (return rc, m') h = h
    after (wild, m') h = elim h [ ]
    after (hung, m') h = elim h [ ]

pub Ensures-weaken :
    {P : Pfm} {F A : Type 0} (Q Q' : A → Machine P F → Type 0) (R R' : Rc → Machine P F → Type 0)
    (r : Outcome A × Machine P F)
    → Ensures Q R r
    → ((a : A) (m : Machine P F) → Q a m → Q' a m)
    → ((rc : Rc) (m : Machine P F) → R rc m → R' rc m)
    → Ensures Q' R' r
Ensures-weaken Q Q' R R' (next a, m) h f g = f a m h
Ensures-weaken Q Q' R R' (return rc, m) h f g = g rc m h
Ensures-weaken Q Q' R R' (wild, m) h f g = absurd h
Ensures-weaken Q Q' R R' (hung, m) h f g = absurd h

-- A cursor's documented behaviour, with the rows that it still holds and the count that it has
-- delivered: a fetch fills the array with the next `size` rows and ends with `RC_NRM`, or delivers
-- what is left, fewer rows than that, and ends with `RC_NFD`; `PDB_RECNUM` is the count.
pub record IsCursor (P : Pfm) {Row : Type 0} (size : ℕ)
    (fetch : List Row → P.World → (Rc × List Row) × P.World) : Type 0 where
  pub pending : P.World → List Row
  pub delivered : P.World → ℕ
  pub full_page :
      (rows : List Row) (w : P.World)
      → size ≤ length (pending w)
      → ((fetch rows w).0.0 ≡ nrm)
        × (take size (fetch rows w).0.1 ≡ take size (pending w))
        × (pending (fetch rows w).1 ≡ drop size (pending w))
        × (delivered (fetch rows w).1 ≡ delivered w + size)
  pub last_page :
      (rows : List Row) (w : P.World)
      → length (pending w) < size
      → ((fetch rows w).0.0 ≡ nfd)
        × (take (length (pending w)) (fetch rows w).0.1 ≡ pending w)
        × (pending (fetch rows w).1 ≡ [])
        × (delivered (fetch rows w).1 ≡ delivered w + length (pending w))
  pub counted :
      (rows : List Row) (w : P.World) → P.recnum (fetch rows w).1 ≡ delivered (fetch rows w).1

-- The same of a cursor whose fetch may fail, in a state that is `broken`: it then ends with a code other
-- than those two, and nothing is known of the array and the counts.
pub record IsFaulty (P : Pfm) {Row : Type 0} (size : ℕ)
    (fetch : List Row → P.World → (Rc × List Row) × P.World) : Type 0 where
  pub pending : P.World → List Row
  pub delivered : P.World → ℕ
  pub broken : P.World → Bool
  pub full_page :
      (rows : List Row) (w : P.World)
      → broken w ≡ false
      → size ≤ length (pending w)
      → ((fetch rows w).0.0 ≡ nrm)
        × (take size (fetch rows w).0.1 ≡ take size (pending w))
        × (pending (fetch rows w).1 ≡ drop size (pending w))
        × (delivered (fetch rows w).1 ≡ delivered w + size)
  pub last_page :
      (rows : List Row) (w : P.World)
      → broken w ≡ false
      → length (pending w) < size
      → ((fetch rows w).0.0 ≡ nfd)
        × (take (length (pending w)) (fetch rows w).0.1 ≡ pending w)
        × (pending (fetch rows w).1 ≡ [])
        × (delivered (fetch rows w).1 ≡ delivered w + length (pending w))
  pub counted :
      (rows : List Row) (w : P.World)
      → broken w ≡ false
      → P.recnum (fetch rows w).1 ≡ delivered (fetch rows w).1
  pub fails :
      (rows : List Row) (w : P.World)
      → broken w ≡ true
      → ((fetch rows w).0.0 ≢ nrm) × ((fetch rows w).0.0 ≢ nfd)

pub unbroken : {A : Type 0} → false ≡ true → A
unbroken h = absurd (let c : false ≡ true = h in cc)

-- A cursor whose fetch does not fail is one.
abbrev pub steady :
    {P : Pfm} {Row : Type 0} {size : ℕ} {fetch : List Row → P.World → (Rc × List Row) × P.World}
    → IsCursor P size fetch
    → IsFaulty P size fetch
steady C = record {
  pending = C.pending;
  delivered = C.delivered;
  broken = λ _. false;
  full_page = λ rows w _. C.full_page rows w;
  last_page = λ rows w _. C.last_page rows w;
  counted = λ rows w _. C.counted rows w;
  fails = λ rows w h. unbroken h;
}

-- The cursor itself is left alone.
abbrev pub Same :
    {P : Pfm} {F Row : Type 0} {size : ℕ} {fetch : List Row → P.World → (Rc × List Row) × P.World}
    → IsFaulty P size fetch
    → Machine P F
    → Machine P F
    → Type 0
Same C m m' =
    (C.pending m'.world ≡ C.pending m.world) × (C.delivered m'.world ≡ C.delivered m.world)
