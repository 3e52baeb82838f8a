-- ===== src/Proframe/Cursor/Rule.antt =====
-- The invariant rule of the cursor loop, for an invariant of the frame.
use no_gada_automation.Base.{ℕ, ◌<◌, ◌≡◌, Bool, true, false, List, [], ◌∷◌, ◌++◌, length}
pub use no_gada_automation.Proframe.Cursor.Ensures.{
  Ensures, Ensures-bind, Ensures-weaken, IsCursor, IsFaulty, steady, unbroken,
}
use no_gada_automation.Proframe.Monad.{Rc, Pfm, Machine}
use no_gada_automation.Proframe.Cursor.{Loop, fetch_loop}
use no_gada_automation.Proframe.Cursor.Ensures.{Same}
use no_gada_automation.Proframe.Cursor.Paged.{Stepped, paged_rule}

module _ {P : Pfm} {F Row : Type 0} (size : ℕ) (B : Loop P F Row) (C : IsFaulty P size B.fetch)
    -- what holds of the frame after the rows so far, of it behind the loop, and of an early return
    (all : List Row) (I : List Row → F → Type 0) (Final : F → Type 0)
    (R : Rc → Machine P F → Type 0) where
  abbrev pub Visited : List Row → Row → Machine P F → Bool → Machine P F → Type 0
  Visited seen row m true m' = I (seen ++ (row ∷ [])) m'.frame × Same C m m'
  Visited seen row m false m' = Final m'.frame

  -- What the rule wants of a visit.
  abbrev pub Keeps : Type 0
  Keeps =
      (seen : List Row) (row : Row) (rest : List Row)
      → seen ++ (row ∷ rest) ≡ all
      → (ix cur tot : ℕ) (m : Machine P F) → I seen m.frame
      → Ensures (Visited seen row m) R (B.visit ix cur tot row m)

  module _ (keeps : Keeps) where
    module _ (positive : 0 < size) (at_end : (f : F) → I all f → Final f)
        (empty_leaves : (m : Machine P F)
          → all ≡ []
          → I [] m.frame
          → Ensures (λ _ _. ⊥) R (B.when_empty m))
        (failed_leaves : (seen rows : List Row) (m : Machine P F)
          → C.broken m.world ≡ true
          → I seen m.frame
          → Ensures
              (λ _ _. ⊥)
              R
              (B.when_failed
                (B.fetch rows m.world).0.0
                (record m { world = (B.fetch rows m.world).1 }))) where
      -- The rule for a cursor whose fetch may fail, if the block for an error leaves as allowed.
      pub faulty_loop_rule :
          (fuel tot : ℕ) (rows seen : List Row) (m : Machine P F)
          → length (C.pending m.world) < fuel
          → tot ≡ C.delivered m.world
          → length seen ≡ tot
          → seen ++ C.pending m.world ≡ all
          → I seen m.frame
          → Ensures (λ _ m'. Final m'.frame) R (fetch_loop B fuel tot rows m)
      faulty_loop_rule fuel tot rows seen m hf ht hs ea i =
          paged_rule size B C all (λ s m'. I s m'.frame) (λ s _ _ m'. I s m'.frame)
            (λ m'. Final m'.frame) R
            (record {
              enter = λ _ _ _ _ h. h;
              visits = λ s row rest e ix cur n _ _ _ m' h.
                  Ensures-weaken (Visited s row m')
                    (Stepped size B C all (λ s m'. I s m'.frame) (λ s _ _ m'. I s m'.frame)
                      (λ m'. Final m'.frame) R s cur ix row m')
                    R R (B.visit ix cur n row m') (keeps s row rest e ix cur n m' h)
                    (visited s row cur ix m') (λ _ _ r. r);
              full = λ _ _ h. h;
              last = λ _ m' _ h. at_end m'.frame h;
              empty = λ m' none_left h. empty_leaves m' none_left h;
              failed = λ s rows' m' down h. failed_leaves s rows' m' down h;
            })
            fuel tot rows seen m positive hf ht hs ea i
        where
          visited :
              (s : List Row) (row : Row) (cur ix : ℕ) (m : Machine P F) (go : Bool)
              (m' : Machine P F)
              → Visited s row m go m'
              → Stepped size B C all
                  (λ s m'. I s m'.frame)
                  (λ s _ _ m'. I s m'.frame)
                  (λ m'. Final m'.frame)
                  R
                  s
                  cur
                  ix
                  row
                  m
                  go
                  m'
          visited s row cur ix m true m' v = v
          visited s row cur ix m false m' v = v

module _ {P : Pfm} {F Row : Type 0} (size : ℕ) (B : Loop P F Row) (C : IsCursor P size B.fetch)
    (all : List Row) (I : List Row → F → Type 0) (Final : F → Type 0)
    (R : Rc → Machine P F → Type 0) where
  module _ (keeps : Keeps size B (steady C) all I Final R) where
    module _ (positive : 0 < size) (at_end : (f : F) → I all f → Final f)
        (empty_leaves : (m : Machine P F)
          → all ≡ []
          → I [] m.frame
          → Ensures (λ _ _. ⊥) R (B.when_empty m)) where
      -- For a cursor that delivers its rows in pages of a positive size, with more fuel than rows
      -- left and a count of those seen that is right: given an invariant that every visit extends by
      -- its row in the cursor's order, or that a visit breaking out replaces by the final condition,
      -- the loop ends without an access outside the array, and with the final condition if all rows
      -- seen imply it; it returns early only as a visit or the block for an empty cursor allows.
      pub fetch_loop_rule :
          (fuel tot : ℕ) (rows seen : List Row) (m : Machine P F)
          → length (C.pending m.world) < fuel
          → tot ≡ C.delivered m.world
          → length seen ≡ tot
          → seen ++ C.pending m.world ≡ all
          → I seen m.frame
          → Ensures (λ _ m'. Final m'.frame) R (fetch_loop B fuel tot rows m)
      fetch_loop_rule =
          faulty_loop_rule size B (steady C) all I Final R keeps positive at_end empty_leaves
            (λ _ _ _ h _. unbroken h)
