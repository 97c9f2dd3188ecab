-- ===== src/Master/Race/Closes.antt =====
-- The end of `adjust`, where the level files change places, with the invariant and the view of
-- a reader.
use cs.Prelude.{
  ℕ, zero, suc, ◌+◌, ◌%◌, ◌<◌, ◌≤◌, ◌≡◌, refl, ap, ap₂, sym, ◌∙◌, List, [], some, length, arith,
  inl, inr,
}
use mathlib.Core.Path.{subst}
use cs.Assoc.{or_else}
use cs.Key.{Key, Value}
use cs.Key.Laws.{words_ord}
use cs.Key.Bytes.{value_layout}
use cs.Level.{Level, level, stamp_block}
use cs.Tree.{entries}
use cs.Tree.Lookup.{read-lookup, lookup-find}
use cs.BinaryTree.Methods.{get}
use cs.Read.Searcher.{IsStored}
use cs.Master.{Master, Table, num_files, get_reserve}
use cs.Master.Rounds.{down, below, chain, down_next, chain-append}
use cs.Master.Kept.{IsKept, or_else-none}
use cs.Master.Merges.{dumped-IsStored}
use cs.Master.Race.{idle, dumping, second_oldest, oldest, put_file, close_job}
use cs.Master.Race.View.{
  found, eight_value, value_in, IsTail, IsSound, value_in-idle, put_file_eight,
  put_file-eight_value, update_at, put_oldest-second,
}
use cs.Master.Race.Moves.{with, Follows, follow}

module _ (m : Master) where
  below_next : (n : ℕ) → m.recent < num_files → below (suc n) (oldest m) ≡ below n m.recent
  unfolding below
  below_next n h = omega arith

  -- The ring after the oldest file became the most recent.
  chain_closed :
      (k : Key) (f : Level Key Value)
      → m.recent < num_files
      → chain (put_file (oldest m) f m).filesys (down num_files (oldest m)) k
        ≡ or_else (found k f) (or_else (eight_value k m) (found k (m.filesys (second_oldest m))))
  unfolding chain
  chain_closed k f h =
      let files' = (put_file (oldest m) f m).filesys in
      ap (λ is. chain files' is k) (down_next m.recent h)
      ∙ ap₂ or_else (ap (found k) (update_at m.filesys (oldest m) f)) (
          chain-append files' (down 8 m.recent) _ k
          ∙ ap₂ or_else (put_file-eight_value k m (oldest m) f h (inr refl))
              (or_else-none _ ∙ ap (found k) (put_oldest-second m f h)))

  closed-eight :
      (f : Level Key Value)
      → IsSound (with m dumping)
      → IsStored f
      → (n : ℕ) → n < 8
      → IsStored ((put_file (oldest m) f m).filesys (below n (oldest m)))
  closed-eight f h s zero l =
      let here : below zero (oldest m) ≡ oldest m = unfold below in omega arith in
      subst IsStored
        (sym (ap (put_file (oldest m) f m).filesys here ∙ update_at m.filesys (oldest m) f)) s
  closed-eight f h s (suc n) l =
      subst IsStored
        (sym (
          ap (put_file (oldest m) f m).filesys (below_next n h.in_ring)
          ∙ put_file_eight m (oldest m) f n h.in_ring (inr refl) (omega arith)))
        (h.eight n (omega arith))

  closed-IsTail :
      (f : Level Key Value)
      → IsSound (with m dumping)
      → IsTail idle (close_job (put_file (oldest m) f m))
  closed-IsTail f h =
      let seven : below 7 m.recent ≡ (oldest m + 2) % num_files = unfold below in omega arith in
      let next : second_oldest m ≡ (oldest m + 1) % num_files = omega arith in
      (
        subst (λ i. IsStored ((put_file (oldest m) f m).filesys i)) seven
            (subst IsStored
              (sym (put_file_eight m (oldest m) f 7 h.in_ring (inr refl) (omega arith)))
              (h.eight 7 (omega arith))),
        subst (λ i. IsStored ((put_file (oldest m) f m).filesys i)) next
            (subst IsStored (sym (put_oldest-second m f h.in_ring)) h.tail.0),
      )

  pub finishes-Follows :
      (time : List ℕ) {t : Table}
      → length time ≤ 128
      → m.reserve ≡ some t
      → IsSound (with m dumping)
      → Follows [] (with m dumping) (
          with
            (close_job (put_file (oldest m) (level (stamp_block 128 time) (entries t.root)) m))
            idle)
  finishes-Follows time {t} short held h =
      let f = level (stamp_block 128 time) (entries t.root) in
      let m' = close_job (put_file (oldest m) f m) in
      let valid = h.handed_over t held in
      let kept : (k : Key) → IsKept (value_in k (with m dumping)) (value_in k (with m' idle)) = λ k.
        inl (
          value_in-idle k m' (omega arith)
          ∙ ap (or_else (get k m.bintree)) (
              chain_closed k f h.in_ring
              ∙ ap
                  (λ r.
                    or_else r (or_else (eight_value k m) (found k (m.filesys (second_oldest m)))))
                  (sym (read-lookup k t.root ∙ lookup-find k t.root valid.0.ordered)
                    ∙ ap (get_reserve k) (sym held)))) in
      (
        record {
          table = h.table;
          handed_over = λ s e. cc;
          eight = closed-eight f h (dumped-IsStored time t short valid);
          tail = closed-IsTail f h;
          in_ring = omega arith;
          filter = h.filter;
          known = follow m dumping idle m' h refl kept;
        },
        kept,
      )
