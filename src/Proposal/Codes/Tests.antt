-- ===== src/Proposal/Codes/Tests.antt =====
-- Node 12 of SRLGR96602A.c over a cursor and a table that behave as documented.
use no_gada_automation.Base.{
  refl, List, [], ◌∷◌, ◌++◌, arith, take, replicate, length, ◌≡◌, ℕ, ◌+◌, ◌*◌, ◌<◌, ◌≢◌,
}
use no_gada_automation.Proframe.{Rc, nrm, wild, Pfm, Machine}
use no_gada_automation.Proframe.Cursor.Rule.{Ensures, IsCursor}
use no_gada_automation.Proframe.Cursor.Sample.{Store, fetch_page, full_page_lem, last_page_lem}
use no_gada_automation.Sample.{runtime, runtime-IsLawful}
use no_gada_automation.Proposal.{ProposalFrame, ProposalDbio, CodedFund, CodeRow}
use no_gada_automation.Proposal.Sample.{services, request, blank, calls}
use no_gada_automation.Proposal.Codes.{codes_node}
use no_gada_automation.Proposal.Codes.Table.{IsTable}
use no_gada_automation.Proposal.Codes.Once.{Inserted, Left, codes_node-Inserted}
use no_gada_automation.Proposal.Codes.Bounds.{KeepsCursor, InBounds, codes_node-InBounds}
use no_gada_automation.Proposal.Codes.Bounds as Bounds
use no_gada_automation.Proposal.Codes.Repeats.{Appended}
use no_gada_automation.Proposal.Codes.Repeats as Repeats
use no_gada_automation.Proposal.Codes.Appends.{codes_node-Appended}
use no_gada_automation.Proposal.Codes.Twice.{codes_node_repeats}
use no_gada_automation.Proposal.Codes.Place.{length-replicate}
use no_gada_automation.Proposal.Codes.Overrun.{codes_node_overruns}

-- A cursor and the table.
record Bank : Type 0 where
  pub cursor : Store CodedFund
  pub table : List CodeRow

abbrev P : Pfm
P = runtime Bank (λ w. w.cursor.count)

abbrev fetch : List CodedFund → Bank → (Rc × List CodedFund) × Bank
fetch rows w =
    let r = fetch_page 1000 rows w.cursor in (r.0, record { cursor = r.1; table = w.table })

-- Inserts of `size` rows.
abbrev D : ℕ → ProposalDbio P
D size = record (calls P) {
  as_ei001 = size;
  fetch_codes = fetch;
  insert_codes = λ n array w. (nrm, record w { table = w.table ++ take n array });
}

cursor : IsCursor P 1000 fetch
cursor = record {
  pending = λ w. w.cursor.left;
  delivered = λ w. w.cursor.count;
  full_page = λ rows w h. full_page_lem 1000 rows w.cursor h;
  last_page = λ rows w h. last_page_lem 1000 rows w.cursor h;
  counted = λ rows w. refl;
}

table : (size : ℕ) → IsTable P (D size) cursor
unfolding cursor
table size = record {
  rows = λ w. w.table;
  inserted = λ n array w h e. refl;
  pending = λ n array w. refl;
  delivered = λ n array w. refl;
  open_kept = λ i w. refl;
  fetch_kept = λ rows w. refl;
  close_kept = λ w. refl;
}

kept : (size : ℕ) → KeepsCursor P (D size) cursor
unfolding cursor
kept size = record { pending = λ n array w. refl; delivered = λ n array w. refl }

abbrev three : List CodedFund
three =
    record { mncm_code = "M1"; fund_code = "F1"; trst_dncd = "1"; trteco_code = "T1" }
    ∷ record { mncm_code = "M1"; fund_code = "F2"; trst_dncd = "1"; trteco_code = "T1" }
    ∷ record { mncm_code = "M1"; fund_code = "F3"; trst_dncd = "2"; trteco_code = "T2" }
    ∷ []

abbrev before : Machine P (ProposalFrame P)
before = record {
  frame = blank P [];
  world = record { cursor = record { left = three; count = 0 }; table = [] };
  log = [];
}

-- Two inserts, of two rows and of one.
codes_node-Inserted_example :
    Ensures
      (λ _ m'.
        Inserted P
          (runtime-IsLawful Bank (λ w. w.cursor.count))
          (services P)
          (D 2)
          request
          cursor
          (table 2)
          500
          refl
          "0000000000000001"
          []
          three
          m')
      (Left P
        (runtime-IsLawful Bank (λ w. w.cursor.count))
        (services P)
        (D 2)
        request
        cursor
        (table 2)
        500
        refl
        "0000000000000001"
        []
        three)
      (codes_node P (services P) (D 2) request 4 before)
unfolding cursor table
codes_node-Inserted_example =
    codes_node-Inserted P (runtime-IsLawful Bank (λ w. w.cursor.count)) (services P) (D 2) request
      cursor (table 2) 500 refl 4 before refl refl (omega arith)

codes_node-InBounds_example :
    Ensures
      (λ _ m'.
        InBounds P
          (runtime-IsLawful Bank (λ w. w.cursor.count))
          (services P)
          (D 2)
          request
          cursor
          (kept 2)
          (omega arith)
          (omega arith)
          m'.frame)
      (Bounds.Left P
        (runtime-IsLawful Bank (λ w. w.cursor.count))
        (services P)
        (D 2)
        request
        cursor
        (kept 2)
        (omega arith)
        (omega arith)
        three)
      (codes_node P (services P) (D 2) request 4 before)
unfolding cursor
codes_node-InBounds_example =
    codes_node-InBounds P (runtime-IsLawful Bank (λ w. w.cursor.count)) (services P) (D 2) request
      cursor (kept 2) (omega arith) (omega arith) 4 before refl refl (omega arith)

-- One row more than the array has places.
abbrev fund : CodedFund
fund = record { mncm_code = "M1"; fund_code = "F1"; trst_dncd = "1"; trteco_code = "T1" }

many : List CodedFund
many = replicate 1001 fund

length-many : length many ≡ 1001
unfolding many
length-many = length-replicate 1001 fund

codes_node_overruns_example :
    (codes_node P (services P) (D 1001) request 2 (record before {
      world = record { cursor = record { left = many; count = 0 }; table = [] };
    })).0
    ≡ wild
unfolding cursor
codes_node_overruns_example =
    codes_node_overruns P (services P) (D 1001) request cursor (kept 1001) (omega arith)
      (λ n array w. refl) 0
      (record before { world = record { cursor = record { left = many; count = 0 }; table = [] } })
      refl refl (omega (arith, length-many))

codes_node-Appended_example :
    Ensures
      (λ _ m'.
        Appended P
          (runtime-IsLawful Bank (λ w. w.cursor.count))
          (services P)
          (D 3)
          request
          cursor
          (table 3)
          (omega arith)
          (omega arith)
          "0000000000000001"
          []
          three
          m')
      (Repeats.Left P
        (runtime-IsLawful Bank (λ w. w.cursor.count))
        (services P)
        (D 3)
        request
        cursor
        (table 3)
        (omega arith)
        (omega arith)
        "0000000000000001"
        []
        three)
      (codes_node P (services P) (D 3) request 4 before)
unfolding cursor table
codes_node-Appended_example =
    codes_node-Appended P (runtime-IsLawful Bank (λ w. w.cursor.count)) (services P) (D 3) request
      cursor (table 3) (omega arith) (omega arith) 4 before refl refl (omega arith)

abbrev before_many : Machine P (ProposalFrame P)
before_many = record before {
  world = record { cursor = record { left = many; count = 0 }; table = [] };
}

uneven : (k : ℕ) → 3 * k ≢ 1000
uneven k e = absurd (omega arith)

codes_node_repeats_example :
    Ensures
      (λ _ m'. length (before_many.world.table) + length many < length m'.world.table)
      (λ rc _. rc ≢ nrm)
      (codes_node P (services P) (D 3) request 1002 before_many)
unfolding cursor table
codes_node_repeats_example =
    codes_node_repeats P (runtime-IsLawful Bank (λ w. w.cursor.count)) (services P) (D 3) request
      cursor (table 3) (omega arith) (omega arith) 1002 before_many uneven refl refl
      (omega (arith, length-many)) (omega (arith, length-many))
