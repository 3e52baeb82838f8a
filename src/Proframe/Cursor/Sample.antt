-- ===== src/Proframe/Cursor/Sample.antt =====
-- A cursor over a list of rows that behaves as documented, for the examples.
use no_gada_automation.Base.{
  ℕ, ◌+◌, ◌≤◌, ◌<◌, ◌≡◌, refl, true, false, List, [], arith, leb, length, take, drop, length-take,
  take_all, if◌then◌else◌,
}
use no_gada_automation.Proframe.Monad.{Rc, nrm, nfd, Pfm}
use no_gada_automation.Proframe.Cursor.Rule.{IsCursor}
use no_gada_automation.Sample.{runtime}

-- The rows that are left, and the count of those delivered.
pub record Store (Row : Type 0) : Type 0 where
  pub left : List Row
  pub count : ℕ

abbrev pub stored : Type 0 → Pfm
stored Row = runtime (Store Row) (λ w. w.count)

module _ {Row : Type 0} (size : ℕ) where
  abbrev pub fetch_page : List Row → Store Row → (Rc × List Row) × Store Row
  fetch_page rows w =
      if leb size (length w.left)
      then ((nrm, take size w.left), record { left = drop size w.left; count = w.count + size })
      else ((nfd, w.left), record { left = []; count = w.count + length w.left })

  pub full_page_lem :
      (rows : List Row) (w : Store Row)
      → size ≤ length w.left
      → ((fetch_page rows w).0.0 ≡ nrm)
        × (take size (fetch_page rows w).0.1 ≡ take size w.left)
        × ((fetch_page rows w).1.left ≡ drop size w.left)
        × ((fetch_page rows w).1.count ≡ w.count + size)
  full_page_lem rows w h =
      let t : leb size (length w.left) ≡ true = ground arith in
      rw t (
        refl,
        take_all size (take size w.left) (omega (arith, length-take size w.left)),
        refl,
        refl,
      )

  pub last_page_lem :
      (rows : List Row) (w : Store Row)
      → length w.left < size
      → ((fetch_page rows w).0.0 ≡ nfd)
        × (take (length w.left) (fetch_page rows w).0.1 ≡ w.left)
        × ((fetch_page rows w).1.left ≡ [])
        × ((fetch_page rows w).1.count ≡ w.count + length w.left)
  last_page_lem rows w h =
      let t : leb size (length w.left) ≡ false = ground arith in
      rw t (refl, take_all (length w.left) w.left (omega arith), refl, refl)

  abbrev pub page_cursor : IsCursor (stored Row) size fetch_page
  page_cursor = record {
    pending = λ w. w.left;
    delivered = λ w. w.count;
    full_page = full_page_lem;
    last_page = last_page_lem;
    counted = λ rows w. refl;
  }
