-- ===== src/Merge/Files.antt =====
-- `merge_files` of Merge.hpp as a whole: it ends, and what a reader finds in the new file.
use cs.Prelude.{
  ◌>>=◌, ℕ, zero, suc, ◌+◌, ◌<◌, ◌≤◌, true, false, ◌≡◌, refl, ap, sym, ◌∙◌, ◌⊎◌, inl, inr, List, [],
  ◌∷◌, ◌++◌, some, length, Bool-cases, arith,
}
use mathlib.Core.Path.{ap₂}
use mathlib.Core.List.{append-nil}
use cs.Order.{Ord}
use cs.Layout.{Layout}
use cs.Level.{Level, blank, level, entries_of}
use cs.Assoc.{find, IsSorted, or_else}
use cs.Merge.{
  Merging, read1, read2, advance, fetched, read_stamp, drain, turn, both, joint, merge_rest,
  merge_files,
}
use cs.Merge.Reference.{live, merged, live_value, IsSorted-merged, find-merged}
use cs.Merge.Loop.{
  waiting, waiting1, waiting2, waiting_end, live_nil, outcome, left_over, turn-outcome, drain_both,
}

module _ {ℓ κ} {K : Type ℓ} {V : Type κ} ⦃w : Layout V⦄ ⦃o : Ord K⦄ where
  -- The loop over both files ends at the end of one of them, and changes nothing of what the new
  -- file will hold.
  both-outcome :
      (f : ℕ) (m : Merging K V)
      → m.oldest1.eof ≡ false
      → m.oldest2.eof ≡ false
      → left_over m < f
      → (m' : Merging K V) × (both f m ≡ some m')
        × (outcome m' ≡ outcome m)
        × (left_over m' ≤ left_over m)
        × ((m'.oldest1.eof ≡ true) ⊎ (m'.oldest2.eof ≡ true))
  unfolding both
  both-outcome zero m h g l = absurd (omega arith)
  both-outcome (suc f) m h g l =
      let (same, less) = turn-outcome m h g in
      elim (Bool-cases (turn m).oldest1.eof) [
        | inl end ↦ (turn m, rw end, same, omega arith, inl end)
        | inr more1 ↦ elim (Bool-cases (turn m).oldest2.eof) [
          | inl end ↦ (turn m, rw (more1, end), same, omega arith, inr end)
          | inr more2 ↦
              let (m', ran, kept, down, end) = both-outcome f (turn m) more1 more2 (omega arith) in
              (m', rw (more1, more2) ran, kept ∙ same, omega arith, end)
        ]
      ]

  -- Once one file is at its end, the copies write the merge of what waits.
  finish :
      (f : ℕ) (m : Merging K V)
      → left_over m < f
      → (m.oldest1.eof ≡ true) ⊎ (m.oldest2.eof ≡ true)
      → (m' : Merging K V) × (drain f m ≡ some m')
        × (m'.newfd ≡ outcome m)
        × (waiting1 m' ≡ [])
        × (waiting2 m' ≡ [])
  finish f m l end =
      let (m', ran, wrote, none1, none2) = drain_both f m (omega arith) (omega arith) in
      (m', ran, wrote ∙ ap (λ es. m.newfd ++ es) (joined end), none1, none2)
    where
      joined :
          (m.oldest1.eof ≡ true) ⊎ (m.oldest2.eof ≡ true)
          → live (waiting1 m) ++ live (waiting2 m) ≡ merged (waiting1 m) (waiting2 m)
      joined (inl e) =
          let p = waiting_end m.oldest1 m.entry1 e in
          ap (λ xs. live xs ++ live (waiting2 m)) p ∙ ap (λ xs. merged xs (waiting2 m)) (sym p)
      joined (inr e) =
          let p = waiting_end m.oldest2 m.entry2 e in
          ap (λ ys. live (waiting1 m) ++ live ys) p
          ∙ append-nil (live (waiting1 m))
          ∙ sym (live_nil (waiting1 m))
          ∙ ap (merged (waiting1 m)) (sym p)

  -- The copies after everything is written write nothing.
  finish_again :
      (f : ℕ) (m : Merging K V)
      → 0 < f
      → waiting1 m ≡ []
      → waiting2 m ≡ []
      → (m' : Merging K V) × (drain f m ≡ some m') × (m'.newfd ≡ m.newfd)
  finish_again f m l p q =
      let (m', ran, wrote, _, _) =
        drain_both f m (omega (arith, ap length p)) (omega (arith, ap length q)) in
      (m', ran, wrote ∙ ap₂ (λ xs ys. m.newfd ++ (live xs ++ live ys)) p q ∙ append-nil m.newfd)

  merge_rest_one :
      (f : ℕ) (m : Merging K V)
      → (m.oldest1.eof ≡ true) ⊎ (m.oldest2.eof ≡ true)
      → merge_rest f m ≡ drain f m
  unfolding merge_rest
  merge_rest_one f m (inl e) = rw e
  merge_rest_one f m (inr e) = ground arith

  merge_rest_two :
      (f : ℕ) (m : Merging K V)
      → m.oldest1.eof ≡ false
      → m.oldest2.eof ≡ false
      → merge_rest f m ≡ ((both f m >>= drain f) >>= drain f)
  unfolding merge_rest joint
  merge_rest_two f m h g = rw (h, g)

  two_files :
      (f : ℕ) (m : Merging K V)
      → left_over m < f
      → m.oldest1.eof ≡ false
      → m.oldest2.eof ≡ false
      → (m' : Merging K V) × (merge_rest f m ≡ some m') × (m'.newfd ≡ outcome m)
  two_files f m l h g =
      let (a, ran, kept, down, end) = both-outcome f m h g l in
      let (b, ended, wrote, p, q) = finish f a (omega arith) end in
      let (c, idle, same) = finish_again f b (omega arith) p q in
      (
        c,
        merge_rest_two f m h g
            ∙ ap (λ r. (r >>= drain f) >>= drain f) ran
            ∙ ap (λ r. r >>= drain f) ended
            ∙ idle,
        same ∙ wrote ∙ kept,
      )

  merge_rest-outcome :
      (f : ℕ) (m : Merging K V)
      → left_over m < f
      → (m' : Merging K V) × (merge_rest f m ≡ some m') × (m'.newfd ≡ outcome m)
  merge_rest-outcome f m l = elim (Bool-cases m.oldest1.eof) [
    | inl e ↦ one (inl e)
    | inr h ↦ elim (Bool-cases m.oldest2.eof) [ inl e ↦ one (inr e) | inr g ↦ two_files f m l h g ]
  ]
    where
      one :
          (m.oldest1.eof ≡ true) ⊎ (m.oldest2.eof ≡ true)
          → (m' : Merging K V) × (merge_rest f m ≡ some m') × (m'.newfd ≡ outcome m)
      one end =
          let (m', ran, wrote, _, _) = finish f m l end in (m', merge_rest_one f m end ∙ ran, wrote)

  -- After the first read of an entry all entries of a file wait.
  waiting_first :
      (unset : List ℕ) (e : K × V) (file : Level K V)
      → let s = (read_stamp unset file).1 in waiting (advance s) (fetched s e) ≡ entries_of file
  unfolding read_stamp advance fetched
  waiting_first unset e blank = refl
  waiting_first unset e (level stamp []) = refl
  waiting_first unset e (level stamp (x ∷ es)) = refl

  -- The first block of the new file: that of the newer file.
  abbrev pub stamp_of : List ℕ → Level K V → List ℕ
  stamp_of unset blank = unset
  stamp_of unset (level stamp es) = stamp

  pub stamp_first :
      (unset : List ℕ) (file : Level K V) → (read_stamp unset file).0 ≡ stamp_of unset file
  unfolding read_stamp
  stamp_first unset blank = refl
  stamp_first unset (level stamp es) = refl

  -- With fuel beyond the entries of both files, `merge_files` ends and writes the first block of the
  -- newer file and the merge of the two runs.
  pub merge_files-merged :
      (f : ℕ) (unset : List ℕ) (e : K × V) (file2 file1 : Level K V)
      → length (entries_of file1) + length (entries_of file2) < f
      → merge_files f unset e file2 file1
        ≡ some (level (stamp_of unset file2) (merged (entries_of file1) (entries_of file2)))
  unfolding merge_files
  merge_files-merged f unset e file2 file1 l =
      let start : Merging K V = record {
        oldest1 = (read_stamp unset file1).1;
        oldest2 = (read_stamp unset file2).1;
        entry1 = e;
        entry2 = e;
        newfd = [];
      } in
      let p = waiting_first unset e file1 in
      let q = waiting_first unset e file2 in
      let (m, ran, wrote) =
        merge_rest-outcome f (read2 (read1 start)) (omega (arith, ap length p, ap length q)) in
      ap (λ r. r >>= λ m. some (level (read_stamp unset file2).0 m.newfd)) ran
      ∙ ap some (ap₂ level (stamp_first unset file2) (wrote ∙ ap₂ merged p q))

  -- Total correctness of `merge_files` on two sorted files, `file2` the newer: it ends, the new file
  -- is sorted, and a key has in it the value of the newer file, or else of the older one, unless
  -- that value is a tombstone; then, as when no file has the key, it is not there.
  pub merge_files-find :
      (f : ℕ) (unset : List ℕ) (e : K × V) (file2 file1 : Level K V)
      → length (entries_of file1) + length (entries_of file2) < f
      → IsSorted (entries_of file2)
      → IsSorted (entries_of file1)
      → (file : Level K V) × (merge_files f unset e file2 file1 ≡ some file)
        × IsSorted (entries_of file)
        × ((q : K)
            → find q (entries_of file)
              ≡ live_value (or_else (find q (entries_of file2)) (find q (entries_of file1))))
  merge_files-find f unset e file2 file1 l s2 s1 = (
    level (stamp_of unset file2) (merged (entries_of file1) (entries_of file2)),
    merge_files-merged f unset e file2 file1 l,
    IsSorted-merged (entries_of file1) (entries_of file2) s1 s2,
    (λ q. find-merged q (entries_of file1) (entries_of file2) s1 s2),
  )
