-- ===== src/Master/Race/Moves.antt =====
-- The steps of the other threads, against the invariant and what a reader of the map can see.
use cs.Prelude.{ℕ, true, ◌≡◌, refl, ap, ap₂, sym, ◌∙◌, List, [], some, length, inl, inr}
use mathlib.Core.Path.{subst}
use cs.Assoc.{find, or_else}
use cs.Key.{Key, Value}
use cs.Key.Laws.{words_ord}
use cs.Key.Bytes.{value_layout}
use cs.Level.{Level, level, entries_of}
use cs.BinaryTree.Methods.{get}
use cs.Bloom.{get_key}
use cs.Merge.Reference.{merged, live_value, find-merged}
use cs.Merge.Files.{stamp_of}
use cs.Read.Searcher.{IsStored, IsStored-IsSorted}
use cs.Master.{Master, Table, get_reserve}
use cs.Master.Kept.{IsKept, IsKept-some, IsKept-live, IsKept-or_else}
use cs.Master.Merges.{merged-IsStored}
use cs.Master.Race.{Job, idle, merging, dumping, World, second_oldest, oldest, put_file}
use cs.Master.Race.View.{
  found, tail_value, eight_value, value_in, IsSound, put_file_eight, put_file-eight_value,
  update_at, put_second-oldest, put_oldest-second,
}

abbrev pub with : Master → Job → World
with m j = record { store = m; job = j }

-- A step after which each key has its value in the writes of the step, or what it had.
abbrev pub Follows : List (Key × Value) → World → World → Type 0
Follows e w w' =
    IsSound w' × ((k : Key) → IsKept (or_else (find k e) (value_in k w)) (value_in k w'))

module _ (m : Master) where
  -- The value of a key, from those of its four places.
  of_places :
      (k : Key) (m' : Master) (j j' : Job)
      → m'.bintree ≡ m.bintree
      → m'.reserve ≡ m.reserve
      → eight_value k m' ≡ eight_value k m
      → tail_value k j' m' ≡ tail_value k j m
      → value_in k (with m' j') ≡ value_in k (with m j)
  of_places k m' j j' b r e t =
      ap₂ or_else (ap (get k) b) (ap₂ or_else (ap (get_reserve k) r) (ap₂ or_else e t))

  pub follow :
      (j j' : Job) (m' : Master)
      → IsSound (with m j)
      → m'.bloom ≡ m.bloom
      → ((k : Key) → IsKept (value_in k (with m j)) (value_in k (with m' j')))
      → (k : Key) {v : Value} → value_in k (with m' j') ≡ some v
      → get_key k m'.bloom ≡ some true
  follow j j' m' h b kept k e = ap (get_key k) b ∙ h.known k (IsKept-some (kept k) e)

  pub overwrites_second-Follows :
      (copied f : Level Key Value)
      → IsSound (with m (merging copied))
      → Follows []
          (with m (merging copied))
          (with (put_file (second_oldest m) f m) (merging copied))
  overwrites_second-Follows copied f h =
      let m' = put_file (second_oldest m) f m in
      let old = put_second-oldest m f h.in_ring in
      let kept : (k : Key)
          → IsKept (value_in k (with m (merging copied))) (value_in k (with m' (merging copied))) =
        λ k. inl (
          of_places k m' (merging copied) (merging copied) refl refl
            (put_file-eight_value k m (second_oldest m) f h.in_ring (inl refl))
            (ap (λ g. or_else (found k copied) (found k g)) old)) in
      (
        record {
          table = h.table;
          handed_over = h.handed_over;
          eight = λ n l.
              subst IsStored (sym (put_file_eight m (second_oldest m) f n h.in_ring (inl refl) l))
                (h.eight n l);
          tail = (h.tail.0, subst IsStored (sym old) h.tail.1, h.tail.2, h.tail.3);
          in_ring = h.in_ring;
          filter = h.filter;
          known = follow (merging copied) (merging copied) m' h refl kept;
        },
        kept,
      )

  pub overwrites_oldest-Follows :
      (f : Level Key Value)
      → IsSound (with m dumping)
      → Follows [] (with m dumping) (with (put_file (oldest m) f m) dumping)
  overwrites_oldest-Follows f h =
      let m' = put_file (oldest m) f m in
      let old = put_oldest-second m f h.in_ring in
      let kept : (k : Key) → IsKept (value_in k (with m dumping)) (value_in k (with m' dumping)) =
        λ k. inl (
          of_places k m' dumping dumping refl refl
            (put_file-eight_value k m (oldest m) f h.in_ring (inr refl)) (ap (found k) old)) in
      (
        record {
          table = h.table;
          handed_over = h.handed_over;
          eight = λ n l.
              subst IsStored (sym (put_file_eight m (oldest m) f n h.in_ring (inr refl) l))
                (h.eight n l);
          tail = (subst IsStored (sym old) h.tail.0, h.tail.1, h.tail.2);
          in_ring = h.in_ring;
          filter = h.filter;
          known = follow dumping dumping m' h refl kept;
        },
        kept,
      )

  pub begins-Follows :
      {t : Table}
      → m.reserve ≡ some t
      → IsSound (with m idle)
      → Follows [] (with m idle) (
          with
            (record m { tempfile = m.filesys (second_oldest m) })
            (merging (m.filesys (second_oldest m))))
  begins-Follows {t} held h = (
    record {
      table = h.table;
      handed_over = h.handed_over;
      eight = h.eight;
      tail = (h.tail.0, h.tail.1, t, held);
      in_ring = h.in_ring;
      filter = h.filter;
      known = h.known;
    },
    λ k. inl refl,
  )

  pub merges-Follows :
      (copied : Level Key Value) (unset : List ℕ)
      → length unset ≡ 128
      → IsSound (with m (merging copied))
      → Follows [] (with m (merging copied)) (
          with
            (put_file
              (second_oldest m)
              (level
                (stamp_of unset copied)
                (merged (entries_of (m.filesys (oldest m))) (entries_of copied)))
              m)
            dumping)
  merges-Follows copied unset whole h =
      let file1 = m.filesys (oldest m) in
      let new = level (stamp_of unset copied) (merged (entries_of file1) (entries_of copied)) in
      let m' = put_file (second_oldest m) new m in
      let there = update_at m.filesys (second_oldest m) new in
      let kept : (k : Key)
          → IsKept (value_in k (with m (merging copied))) (value_in k (with m' dumping)) =
        λ k.
          let a = get k m.bintree in
          let b = get_reserve k m.reserve in
          let c = eight_value k m in
          let t = tail_value k (merging copied) m in
          let e : value_in k (with m' dumping) ≡ or_else a (or_else b (or_else c (live_value t))) =
            ap₂ (λ x y. or_else a (or_else b (or_else x y)))
              (put_file-eight_value k m (second_oldest m) new h.in_ring (inl refl))
              (ap (found k) there
                ∙ find-merged k (entries_of file1) (entries_of copied)
                    (IsStored-IsSorted file1 h.tail.1) (IsStored-IsSorted copied h.tail.0)) in
          subst (IsKept (value_in k (with m (merging copied)))) (sym e)
            (IsKept-or_else a (IsKept-or_else b (IsKept-live c t))) in
      (
        record {
          table = h.table;
          handed_over = h.handed_over;
          eight = λ n l.
              subst IsStored (sym (put_file_eight m (second_oldest m) new n h.in_ring (inl refl) l))
                (h.eight n l);
          tail = (
            subst IsStored (sym there) (merged-IsStored unset copied file1 whole h.tail.0 h.tail.1),
            h.tail.2,
            h.tail.3,
          );
          in_ring = h.in_ring;
          filter = h.filter;
          known = follow (merging copied) dumping m' h refl kept;
        },
        kept,
      )
