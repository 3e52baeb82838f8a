-- ===== src/Proframe/Cursor.antt =====
-- The loop over a cursor, as the generator writes it: fetch a page of rows, visit each row, and fetch
-- again until a page comes with `RC_NFD` or a visit breaks out.
pub mod Ensures
pub mod Page
pub mod Paged
pub mod Rule
pub mod Crash
pub mod Sample
pub mod Tests
use no_gada_automation.Base.{
  ℕ, zero, suc, ◌+◌, ◌-◌, Bool, true, false, ◌&&◌, none, some, List, eqb, get_elem?, if◌then◌else◌,
}
use no_gada_automation.Proframe.Monad.{
  Rc, nrm, nfd, Pfm, wild, hung, M, ◌>>=◌, ◌>>◌, pure, reads, call,
}

-- What a loop is written around: the fetch into an array of rows, the blocks for an empty result and
-- for an error, and the visit of a row. The visit sees `ix`, `cur_cnt` and `tot_cnt`, and answers
-- whether to go on; `false` is `loop_status = FALSE; break;`.
pub record Loop (P : Pfm) (F Row : Type 0) : Type 0 where
  pub fetch : List Row → P.World → (Rc × List Row) × P.World
  pub when_empty : M P F Bool
  pub when_failed : Rc → M P F Bool
  pub visit : ℕ → ℕ → ℕ → Row → M P F Bool

module _ {P : Pfm} {F Row : Type 0} (B : Loop P F Row) where
  -- `for (ix = …; ix < cur_cnt; ix++)` with `k` rounds left.
  pub for_rows : List Row → (cur tot k ix : ℕ) → M P F Bool
  for_rows rows cur tot zero ix = pure true
  for_rows rows cur tot (suc k) ix =
      let rest = for_rows rows cur tot k (ix + 1) in
      elim (get_elem? rows ix) [
        | none ↦ λ m. (wild, m)
        | some row ↦ B.visit ix cur tot row >>= λ go. if go then rest else pure false
      ]

  -- The block behind a fetch: whether another page may follow.
  pub after_fetch : Rc → ℕ → M P F Bool
  after_fetch nrm recnum = pure true
  after_fetch nfd recnum = if eqb recnum 0 then B.when_empty else pure false
  after_fetch rc recnum = B.when_failed rc

  -- `while (loop_status)`, from the count of rows so far and the array as the last fetch left it.
  -- `cur_cnt` would be negative if `PDB_RECNUM` fell; as there, no row is then visited.
  pub fetch_loop : (fuel tot : ℕ) → List Row → M P F (Unit {0})
  fetch_loop zero tot rows = λ m. (hung, m)
  fetch_loop (suc fuel) tot rows = do
    (rc, rows') ← call (B.fetch rows)
    recnum ← reads P.recnum
    more ← after_fetch rc recnum
    on ← for_rows rows' (recnum - tot) recnum (recnum - tot) 0
    let again = fetch_loop fuel recnum rows'
    if more && on then again else pure tt
