-- ===== src/Master/Stamps.antt =====
-- The time stamps of the level files after `adjust` of master.cpp, by which the next constructor finds the
-- most recent file.
use cs.Prelude.{
  ℕ, suc, ◌+◌, ◌%◌, ◌<◌, ◌≤◌, false, ◌≡◌, ◌≢◌, ap, ap₂, sym, ◌∙◌, List, some, length, ◌==◌, arith,
  if◌then◌else◌, Bool-cases, inl, inr, some_inj, bind_some,
}
use mathlib.Core.Path.{subst}
use cs.Key.{Key, Value}
use cs.Key.Laws.{words_ord}
use cs.Key.Bytes.{value_layout}
use cs.Level.{Level, level, entries_of, stamp_block}
use cs.Tree.{entries}
use cs.BinaryTree.{dump}
use cs.BinaryTree.Traversal.{dump-entries}
use cs.Merge.{merge_files, read_stamp}
use cs.Merge.Files.{merge_files-merged, stamp_of, stamp_first}
use cs.Merge.Reference.{merged}
use cs.Master.{Master, Table, num_files, update, adjust}
use cs.Master.Boot.{Outside, time_at, find_recent}
use cs.Master.Recent.{find_recent-ring}

-- No file is older than the one before it around the ring, but the one behind file `r`, the most recent.
pub record IsRing (time : ℕ → ℕ) (r : ℕ) : Type 0 where
  pub up : (j : ℕ) → j < num_files → j ≢ r → time j ≤ time ((j + 1) % num_files)
  pub drop : time ((r + 1) % num_files) < time r

other : (i j : ℕ) → i ≢ j → (i == j) ≡ false
other i j ne = ground (arith, ne)

-- The oldest file becomes the most recent.
IsRing-next :
    (time time' : ℕ → ℕ) (now r : ℕ)
    → r < num_files
    → IsRing time r
    → time r ≤ now
    → time ((r + 2) % num_files) < now
    → ((j : ℕ) → time' j ≡ (if (r + 1) % num_files == j then now else time j))
    → IsRing time' ((r + 1) % num_files)
IsRing-next time time' now r h ring not_before later new = record {
  up = λ j l ne.
      let there : ((r + 1) % num_files == j) ≡ false =
        other ((r + 1) % num_files) j (λ e. ne (sym e)) in
      let same_j = new j ∙ ap (λ b. if b then now else time j) there in
      let next = (j + 1) % num_files in
      elim (Bool-cases ((r + 1) % num_files == next)) [
        | inl e ↦
            let at : j ≡ r = ground arith in
            let is_now = new next ∙ ap (λ b. if b then now else time next) e in
            omega (arith, same_j, is_now, ap time at)
        | inr no_end ↦
            let apart : j ≢ r = λ e. absurd (ground arith) in
            let kept = new next ∙ ap (λ b. if b then now else time next) no_end in
            omega (arith, same_j, kept, ring.up j l apart)
      ];
  drop = ground (arith, new ((r + 1) % num_files), new (((r + 1) % num_files + 1) % num_files));
}

-- The files that `adjust` leaves.
adjust-files :
    (time : List ℕ) (dummy : Key × Value) (unset : List ℕ) (e : Key × Value) (m : Master)
    {m' : Master}
    → adjust time dummy unset e m ≡ some m'
    → (es es' : List (Key × Value)) × (m'.filesys
        ≡ update
            (update m.filesys
              ((m.recent + 2) % num_files)
              (level (stamp_of unset (m.filesys ((m.recent + 2) % num_files))) es))
            ((m.recent + 1) % num_files)
            (level (stamp_block 128 time) es'))
      × (m'.recent ≡ (m.recent + 1) % num_files)
unfolding adjust
adjust-files time dummy unset e m {m'} ran =
    let file1 = m.filesys ((m.recent + 1) % num_files) in
    let file2 = m.filesys ((m.recent + 2) % num_files) in
    let (t, held, e1) = bind_some m.reserve _ ran in
    let (new, merge, e2) = bind_some (merge_files _ unset e file2 file1) _ e1 in
    let (d, dump_ran, e3) = bind_some (dump 128 time dummy t) _ e2 in
    let is_new = some_inj (
      sym merge
      ∙ merge_files-merged (suc (length (entries_of file1) + length (entries_of file2))) unset e
          file2 file1 (omega arith)) in
    let is_dump : d.1 ≡ level (stamp_block 128 time) (entries t.root) =
      ap (λ (x : Table × Level Key Value). x.1)
        (some_inj (sym dump_ran ∙ dump-entries 128 time dummy t)) in
    (
      merged (entries_of file1) (entries_of file2),
      entries t.root,
      ap (λ (x : Master). x.filesys) (sym (some_inj e3))
          ∙ ap₂
              (λ n f.
                update (update m.filesys ((m.recent + 2) % num_files) n)
                  ((m.recent + 1) % num_files) f)
              is_new is_dump,
      ap (λ (x : Master). x.recent) (sym (some_inj e3)),
    )

stamp_new :
    (a : Outside) (files : ℕ → Level Key Value) (second oldest : ℕ) (time : List ℕ)
    (es es' : List (Key × Value)) (j : ℕ)
    → time_at a
        (update
          (update files second (level (stamp_of a.block (files second)) es))
          oldest
          (level (stamp_block 128 time) es'))
        j
      ≡ (if oldest == j then a.time_of (stamp_block 128 time) else time_at a files j)
unfolding read_stamp
stamp_new a files second oldest time es es' j =
    let stamp = λ (f : Level Key Value). a.time_of (read_stamp a.block f).0 in
    let merged_file = level (stamp_of a.block (files second)) es in
    let dumped = level (stamp_block 128 time) es' in
    elim (Bool-cases (oldest == j)) [
      | inl e ↦
          ap (λ b. stamp (if b then dumped else update files second merged_file j)) e
          ∙ sym (ap (λ b. if b then a.time_of (stamp_block 128 time) else stamp (files j)) e)
      | inr ne ↦
          ap (λ b. stamp (if b then dumped else update files second merged_file j)) ne
          ∙ elim (Bool-cases (second == j)) [
            | inl e ↦
                let at : second ≡ j = ground arith in
                ap (λ b. stamp (if b then merged_file else files j)) e
                ∙ ap a.time_of (sym (stamp_first a.block (files second)))
                ∙ ap (λ i. stamp (files i)) at
            | inr other_file ↦ ap (λ b. stamp (if b then merged_file else files j)) other_file
          ]
          ∙ sym (ap (λ b. if b then a.time_of (stamp_block 128 time) else stamp (files j)) ne)
    ]

-- `adjust` keeps the order of the time stamps around the ring, where the clock is not before the time of the
-- most recent file and is after that of the second oldest; and then the constructor of the next run takes
-- the file that `adjust` made the most recent for the most recent.
pub adjust-IsRing :
    (a : Outside) (time : List ℕ) (dummy : Key × Value) (e : Key × Value) (m : Master) {m' : Master}
    → m.recent < num_files
    → IsRing (time_at a m.filesys) m.recent
    → time_at a m.filesys m.recent ≤ a.time_of (stamp_block 128 time)
    → time_at a m.filesys ((m.recent + 2) % num_files) < a.time_of (stamp_block 128 time)
    → adjust time dummy a.block e m ≡ some m'
    → IsRing (time_at a m'.filesys) m'.recent
      × (find_recent num_files 0 (time_at a m'.filesys) ≡ m'.recent)
unfolding read_stamp
adjust-IsRing a time dummy e m {m'} h ring not_before later ran =
    let r = m.recent in
    let second = (r + 2) % num_files in
    let (es, es', files, recent) = adjust-files time dummy a.block e m ran in
    let now = a.time_of (stamp_block 128 time) in
    let new : (j : ℕ)
        → time_at a m'.filesys j
          ≡ (if (r + 1) % num_files == j then now else time_at a m.filesys j) =
      λ j.
        ap (λ f. time_at a f j) files
        ∙ stamp_new a m.filesys second ((r + 1) % num_files) time es es' j in
    let ring' =
      IsRing-next (time_at a m.filesys) (time_at a m'.filesys) now r h ring not_before later new in
    let at : IsRing (time_at a m'.filesys) m'.recent =
      subst (IsRing (time_at a m'.filesys)) (sym recent) ring' in
    (
      at,
      find_recent-ring m'.recent (time_at a m'.filesys)
          (subst (λ x. x < num_files) (sym recent) (omega arith)) at.up at.drop,
    )
