-- ===== src/Proposal/Codes/Pages.antt =====
-- The edges of a page in node 12 of SRLGR96602A.c: what the array keeps from one page to the next.
use no_gada_automation.Base.{
  ℕ, zero, suc, ◌+◌, ◌-◌, ◌*◌, ◌≤◌, ◌<◌, ◌≡◌, refl, sym, ap, subst, ◌∙◌, String, inl, inr, List, [],
  ◌++◌, map, map-append, append-nil, append_assoc, arith, length, length-append, length-drop,
  length-take, take, take-append-drop, last_rows, last_rows-append, last_rows-all,
}
use no_gada_automation.Proframe.{Pfm, IsLawful, Machine}
use no_gada_automation.Proframe.Cursor.Rule.{IsCursor}
use no_gada_automation.Proposal.{
  ProposalIn, ProposalFrame, ProposalPfm, ProposalDbio, CodedFund, CodeRow,
}
use no_gada_automation.Proposal.Codes.Table.{IsTable, plain, rows_for, view, lt_or_eq}
use no_gada_automation.Proposal.Codes.Place.{Held, Place, waiting, flushed, Within}
use no_gada_automation.Proposal.Codes.Repeats.{
  Sent, page, Edge, nothing_left, some_left, InPage, Between, Inside, page_end,
}

module _ (P : Pfm) (L : IsLawful P) (S : ProposalPfm P) (D : ProposalDbio P) (input : ProposalIn)
    (C : IsCursor P 1000 D.fetch_codes) (T : IsTable P D C) (fits : D.as_ei001 ≤ 1000)
    (some_room : 0 < D.as_ei001) where
  module _ (grp : String) (base : List CodeRow) (all : List CodedFund) where
    module _ (seen rows : List CodedFund) (m : Machine P (ProposalFrame P))
        (b : Between P L S D input C T fits some_room grp base all seen m) where
      fetched : Machine P (ProposalFrame P)
      fetched = record m { world = (D.fetch_codes rows m.world).1 }

      same : view T (D.fetch_codes rows m.world).1 ≡ view T m.world
      same = ap (map plain) (T.fetch_kept rows m.world)

      entered :
          (c : ℕ)
          → Edge P L S D input C T fits some_room grp base all b.held m.frame
          → Within P S D input C T fits some_room grp base
              (length b.held)
              (b.sent ++ b.held)
              (suc c)
              0
              (record m { world = (D.fetch_codes rows m.world).1 })
      entered c (nothing_left e none) =
          let sent_only : b.sent ++ b.held ≡ b.sent =
            ap (λ x. b.sent ++ x) none ∙ append-nil b.sent in
          record {
            grp_kept = b.grp_kept;
            room = b.room;
            q = 0;
            batches = omega (arith, e, ap length none);
            held =
                subst (λ x. Held P S D input C T fits some_room grp base 0 x m.frame)
                  (sym sent_only) b.array;
            place =
                flushed (omega (arith, e)) (omega (arith, e)) (inl e)
                  (same ∙ b.done ∙ ap (λ x. base ++ rows_for P S D input grp x) (sym sent_only));
          }
      entered c (some_left e array) =
          let n = m.frame.ll_ins_idx in
          let whole : last_rows n (b.sent ++ b.held) ≡ b.held =
            last_rows-append n b.sent b.held (omega (arith, e))
            ∙ ap (λ j. last_rows j b.held) e
            ∙ last_rows-all b.held in
          record {
            grp_kept = b.grp_kept;
            room = b.room;
            q = 1;
            batches = omega (arith, e);
            held = (
              omega (arith, e, length-append b.sent b.held),
              array ∙ ap (rows_for P S D input grp) (sym whole),
            );
            place = waiting (omega (arith, e, b.few)) (inl (omega arith)) (
                ap (λ v. v ++ map plain (take n m.frame.ins_rows)) (same ∙ b.done)
                ∙ ap (λ t. (base ++ rows_for P S D input grp b.sent) ++ t) array
                ∙ append_assoc base (rows_for P S D input grp b.sent)
                    (rows_for P S D input grp b.held)
                ∙ ap (λ t. base ++ t) (sym (map-append _ b.sent b.held)));
          }

      pub enter_lem :
          (cur : ℕ)
          → Inside P L S D input C T fits some_room grp base all seen cur 0
              (record m { world = (D.fetch_codes rows m.world).1 })
      enter_lem zero = inr (
        refl,
        record {
          sent = b.sent;
          held = b.held;
          so_far = b.so_far;
          grp_kept = b.grp_kept;
          room = b.room;
          few = b.few;
          array = b.array;
          edge = b.edge;
          done = same ∙ b.done;
        },
      )
      enter_lem (suc c) = inl (record {
        before = seen;
        sent = b.sent;
        held = b.held;
        part = [];
        so_far = b.so_far;
        rows = sym (append-nil seen);
        length_part = refl;
        some_rows = omega arith;
        few = b.few;
        within =
            subst
              (λ x.
                Within P S D input C T fits some_room grp base (length b.held) (b.sent ++ x) (suc c)
                  0 (record m { world = (D.fetch_codes rows m.world).1 }))
              (sym (append-nil b.held)) (entered c b.edge);
      })

    module _ (seen : List CodedFund) (m : Machine P (ProposalFrame P))
        (i : InPage P L S D input C T fits some_room grp base all seen 1000 1000 m) where
      -- The rows of the page with those left before it, and how many make up whole inserts.
      length_rows : length (i.held ++ i.part) ≡ length i.held + 1000
      length_rows = omega (arith, length-append i.held i.part, i.length_part)

      sent_now :
          (left : List CodedFund)
          → Sent D.as_ei001 (i.before ++ i.part) (i.sent ++ (i.held ++ i.part)) left
          → Sent D.as_ei001 seen (i.sent ++ (i.held ++ i.part)) left
      sent_now left s =
          subst (λ x. Sent D.as_ei001 x (i.sent ++ (i.held ++ i.part)) left) (sym i.rows) s

      -- Every insert of the page is whole.
      none_left :
          (k : ℕ)
          → length i.held + 1000 ≡ D.as_ei001 * k
          → Edge P L S D input C T fits some_room grp base all [] m.frame
          → Between P L S D input C T fits some_room grp base all seen m
      none_left k e edge = record {
        sent = i.sent ++ (i.held ++ i.part);
        held = [];
        so_far = sent_now [] (
            page i.part (i.held ++ i.part) [] k i.so_far i.length_part
              (sym (append-nil (i.held ++ i.part))) (length_rows ∙ e) some_room);
        grp_kept = i.within.grp_kept;
        room = i.within.room;
        few = some_room;
        array = i.within.held;
        edge = edge;
        done = page_end P L S D input C T fits some_room grp base all seen 1000 m i;
      }

      -- The last insert is not.
      rest_left :
          (q : ℕ)
          → length i.held + 1000 ≡ D.as_ei001 * q + m.frame.ll_ins_idx
          → m.frame.ll_ins_idx < D.as_ei001
          → Between P L S D input C T fits some_room grp base all seen m
      rest_left q e less =
          let n = m.frame.ll_ins_idx in
          let xs = i.held ++ i.part in
          let cut = length xs - n in
          let left = last_rows n xs in
          let few_left : length left ≡ n = omega (arith, length-drop cut xs, length_rows) in
          let array : map plain (take n m.frame.ins_rows) ≡ rows_for P S D input grp left =
            i.within.held.1
            ∙ ap (rows_for P S D input grp)
                (last_rows-append n i.sent xs (omega (arith, length_rows, fits))) in
          record {
            sent = i.sent ++ xs;
            held = left;
            so_far = sent_now left (
                page i.part (take cut xs) left q i.so_far i.length_part
                  (sym (take-append-drop cut xs))
                  (omega (arith, length-take cut xs, length_rows, e)) (omega (arith, few_left)));
            grp_kept = i.within.grp_kept;
            room = i.within.room;
            few = omega (arith, few_left);
            array = i.within.held;
            edge = some_left (sym few_left) array;
            done = page_end P L S D input C T fits some_room grp base all seen 1000 m i;
          }

      -- There is a batch before the array's.
      by_batches :
          (q : ℕ)
          → length i.held + 1000 + D.as_ei001 ≡ D.as_ei001 * q + m.frame.ll_ins_idx
          → m.frame.ll_ins_idx ≤ D.as_ei001
          → Between P L S D input C T fits some_room grp base all seen m
      by_batches zero e le = absurd (omega arith)
      by_batches (suc q) e le = elim (lt_or_eq m.frame.ll_ins_idx D.as_ei001 le) [
        | inl less ↦ rest_left q (omega (arith, e)) less
        | inr full ↦ none_left (suc q) (omega (arith, e)) (nothing_left full refl)
      ]

    pub full_lem :
        (seen : List CodedFund) (m : Machine P (ProposalFrame P))
        → Inside P L S D input C T fits some_room grp base all seen 1000 1000 m
        → Between P L S D input C T fits some_room grp base all seen m
    full_lem seen m (inl i) = by_batches seen m i i.within.q i.within.batches (index i.within.place)
      where
        index :
            Place P S D input C T fits some_room grp base
              (length i.held)
              (i.sent ++ (i.held ++ i.part))
              1000
              1000
              m
            → m.frame.ll_ins_idx ≤ D.as_ei001
        index (waiting lt _ _) = omega arith
        index (flushed _ le _ _) = le
    full_lem seen m (inr e) = absurd (omega (arith, e.0))
